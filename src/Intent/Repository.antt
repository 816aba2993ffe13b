-- ===== src/Intent/Repository.antt =====
-- packages/payment-intent/src/payment-intent.repository.ts: the only writer of the intents and of
-- their event log. A query is a function on the store's tables; a method reads the clock once, and
-- takes the reading, and each id that it generates, as arguments.
pub mod Rows
pub mod Outcome
pub mod Trail
pub mod Histories
pub mod Refinement
use nexora_gateway.Prelude.{
  ℕ, ◌+◌, Bool, true, false, ◌&&◌, List, [], ◌∷◌, ◌++◌, Option, none, some, ◌==◌, ltb, leb, take,
  if◌then◌else◌, find_first, keep_if,
}
use nexora_gateway.Prelude.Int.{ℤ}
use nexora_gateway.Prelude.Action.{
  Action, ◌>>=◌, ◌>>◌, pure, gets, modify, throw_unless, or_throw, transaction,
}
use nexora_gateway.Intent.State.{
  IntentState, EventType, intent_created, created, quoted, awaiting_payment, underpaid,
  is_valid_transition, get_expected_next_state, state_in, same_state,
}
use nexora_gateway.Intent.Data.{
  Name, name, names, amount, Payload, PaymentIntent, NewPaymentIntent, IntentEvent, Store, Error,
  row_not_found, invalid_state_transition, concurrent_modification, duplicate_key,
}

-- `SELECT * FROM payment_intents WHERE id = $1`.
unfoldable pub find_row : Name → List PaymentIntent → Option PaymentIntent
find_row id [] = none
find_row id (row ∷ rows) = if row.id == id then some row else find_row id rows

-- `UPDATE payment_intents SET … WHERE id = $1`, on the one row that has the primary key.
unfoldable pub put_row : Name → PaymentIntent → List PaymentIntent → List PaymentIntent
put_row id new [] = []
put_row id new (row ∷ rows) = if row.id == id then new ∷ rows else row ∷ put_row id new rows

abbrev pub find_by_id : Name → Action Store Error (Option PaymentIntent)
find_by_id id = gets (λ (db : Store). find_row id db.intents)

unfoldable pub new_row : Name → ℕ → NewPaymentIntent → PaymentIntent
new_row id now new = record {
  id = id;
  merchant_id = new.merchant_id;
  order_ref = new.order_ref;
  target_amount = new.target_amount;
  target_asset = new.target_asset;
  target_chain = new.target_chain;
  accepted_assets = new.accepted_assets;
  quoted_rate = none;
  deposit_address = none;
  deposit_asset = none;
  deposit_chain = none;
  quote_expires_at = none;
  state = created;
  version = 1;
  created_at = now;
  updated_at = now;
}

-- The payload of INTENT_CREATED: a copy of the input.
unfoldable pub creation_payload : NewPaymentIntent → Payload
creation_payload new =
    ("merchant_id", name new.merchant_id)
    ∷ ("order_ref", name new.order_ref)
    ∷ ("target_amount", amount new.target_amount)
    ∷ ("target_asset", name new.target_asset)
    ∷ ("target_chain", name new.target_chain)
    ∷ ("accepted_assets", names new.accepted_assets)
    ∷ []

unfoldable pub log_event : Name → EventType → Payload → ℕ → ℕ → Store → Store
log_event id type payload version now db = record db {
  events =
      db.events
      ++ record {
        intent_id = id;
        event_type = type;
        payload = payload;
        version = version;
        created_at = now;
      }
        ∷ [];
}

abbrev is_free : Option PaymentIntent → Bool
is_free none = true
is_free (some _) = false

-- The primary key refuses an id that is taken.
unfoldable pub insert_row : Name → PaymentIntent → Action Store Error (Unit {0})
insert_row id row = do
  old ← find_by_id id
  throw_unless (is_free old) (duplicate_key id)
  modify (λ (db : Store). record db { intents = row ∷ db.intents })

unfoldable pub create : Name → ℕ → NewPaymentIntent → Action Store Error PaymentIntent
unfolding insert_row
create id now new = transaction (do
  insert_row id (new_row id now new)
  modify (log_event id intent_created (creation_payload new) 1 now)
  pure (new_row id now new))

-- `UPDATE … WHERE id = $4 AND version = $5 RETURNING *`: no row comes back where the version moved.
unfoldable pub update_row : Name → ℕ → IntentState → ℕ → Action Store Error (Option PaymentIntent)
update_row id old next now db = elim (find_row id db.intents) [
  | none ↦ pure none db
  | some row ↦
      let row' = record row { state = next; version = old + 1; updated_at = now } in
      if row.version == old
      then pure (some row') (record db { intents = put_row id row' db.intents })
      else pure none db
]

unfoldable pub transition : Name → EventType → Payload → ℕ → Action Store Error PaymentIntent
unfolding update_row
transition id type payload now = transaction (do
  locked ← find_by_id id
  row ← or_throw locked (row_not_found id)
  let next = get_expected_next_state type
  throw_unless (is_valid_transition row.state next) (invalid_state_transition row.state next)
  result ← update_row id row.version next now
  updated ← or_throw result (concurrent_modification id)
  modify (log_event id type payload (row.version + 1) now)
  pure updated)

-- The deposit details of a quote.
pub record Deposit : Type 0 where
  pub address : Name
  pub asset : Name
  pub chain : Name

-- `COALESCE($n, column)`, on a field of the deposit.
abbrev pub coalesced : (Deposit → Name) → Option Deposit → Option Name → Option Name
coalesced field none old = old
coalesced field (some deposit) old = some (field deposit)

unfoldable pub update_quote : Name → ℤ → ℕ → Option Deposit → ℕ → Action Store Error PaymentIntent
update_quote id rate expires_at deposit now = do
  found ← find_by_id id
  row ← or_throw found (row_not_found id)
  let row' = record row {
    quoted_rate = some rate;
    quote_expires_at = some expires_at;
    deposit_address = coalesced (λ d. d.address) deposit row.deposit_address;
    deposit_asset = coalesced (λ d. d.asset) deposit row.deposit_asset;
    deposit_chain = coalesced (λ d. d.chain) deposit row.deposit_chain;
    updated_at = now;
  }
  modify (λ (db : Store). record db { intents = put_row id row' db.intents })
  pure row'

-- `quote_expires_at IS NOT NULL AND quote_expires_at < NOW()`.
abbrev pub expired_by : ℕ → Option ℕ → Bool
expired_by now none = false
expired_by now (some t) = ltb t now

unfoldable pub is_overdue : ℕ → PaymentIntent → Bool
is_overdue now row =
    state_in (quoted ∷ awaiting_payment ∷ []) row.state && expired_by now row.quote_expires_at

unfoldable pub find_expired_intents : ℕ → Action Store Error (List PaymentIntent)
unfolding is_overdue
find_expired_intents now = gets (λ (db : Store). keep_if (is_overdue now) db.intents)

-- The rows of one intent in the event log.
abbrev pub trail : Name → List IntentEvent → List IntentEvent
trail id = keep_if (λ e. e.intent_id == id)

abbrev pub get_events : Name → Action Store Error (List IntentEvent)
get_events id = gets (λ (db : Store). trail id db.events)

abbrev pub accepts_deposit : IntentState → Bool
accepts_deposit = state_in (quoted ∷ awaiting_payment ∷ underpaid ∷ [])

abbrev pub is_name : Option Name → Name → Bool
is_name none n = false
is_name (some m) n = m == n

-- Rows are kept newest first, so the first match is the most recent.
unfoldable pub find_awaiting_deposit_at : Name → Name → Action Store Error (Option PaymentIntent)
find_awaiting_deposit_at chain address = gets (λ (db : Store).
    find_first
      (λ row.
        is_name row.deposit_chain chain
        && is_name row.deposit_address address
        && accepts_deposit row.state)
      db.intents)

-- `ORDER BY updated_at ASC`.
unfoldable pub insert_by_updated_at : PaymentIntent → List PaymentIntent → List PaymentIntent
insert_by_updated_at x [] = x ∷ []
insert_by_updated_at x (y ∷ ys) =
    if leb x.updated_at y.updated_at then x ∷ y ∷ ys else y ∷ insert_by_updated_at x ys

unfoldable pub order_by_updated_at : List PaymentIntent → List PaymentIntent
unfolding insert_by_updated_at
order_by_updated_at [] = []
order_by_updated_at (x ∷ xs) = insert_by_updated_at x (order_by_updated_at xs)

unfoldable pub find_by_state : IntentState → ℕ → Action Store Error (List PaymentIntent)
unfolding order_by_updated_at
find_by_state s limit = gets (λ (db : Store).
    take limit (order_by_updated_at (keep_if (λ row. same_state row.state s) db.intents)))

-- `ORDER BY created_at ASC`, of rows that are kept newest first.
abbrev pub oldest_first : List PaymentIntent → List PaymentIntent
oldest_first [] = []
oldest_first (x ∷ xs) = oldest_first xs ++ x ∷ []

abbrev pub is_set : Option Name → Bool
is_set none = false
is_set (some n) = true

abbrev pub is_expected : Option Name → PaymentIntent → Bool
is_expected none row = is_set row.deposit_address && accepts_deposit row.state
is_expected (some chain) row =
    is_set row.deposit_address && is_name row.deposit_chain chain && accepts_deposit row.state

-- The chain may be left out.
unfoldable pub find_awaiting_deposits : Option Name → Action Store Error (List PaymentIntent)
find_awaiting_deposits chain =
    gets (λ (db : Store). oldest_first (keep_if (is_expected chain) db.intents))
