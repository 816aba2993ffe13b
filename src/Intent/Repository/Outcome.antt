-- ===== src/Intent/Repository/Outcome.antt =====
-- What each write of the repository does, on every branch, as one equation.
use nexora_gateway.Prelude.{
  ℕ, ◌+◌, ◌≡◌, refl, ◌∷◌, Option, none, some, inl, inr, Bool-cases, Option-cases, ==_self,
  if◌then◌else◌,
}
use nexora_gateway.Prelude.Int.{ℤ}
use nexora_gateway.Prelude.Action.{Result, ok, err}
use nexora_gateway.Intent.State.{
  EventType, intent_created, is_valid_transition, get_expected_next_state,
}
use nexora_gateway.Intent.Data.{
  Name, Payload, PaymentIntent, NewPaymentIntent, Store, Error, row_not_found,
  invalid_state_transition, duplicate_key,
}
use nexora_gateway.Intent.Repository.{
  find_row, put_row, new_row, creation_payload, log_event, create, update_row, transition,
  update_quote, coalesced, Deposit,
}

-- The row that a transition writes.
abbrev pub moved : EventType → ℕ → PaymentIntent → PaymentIntent
moved type now row = record row {
  state = get_expected_next_state type;
  version = row.version + 1;
  updated_at = now;
}

abbrev pub after_move : Name → EventType → Payload → ℕ → PaymentIntent → Store → Store
after_move id type payload now row db =
    log_event id type payload (row.version + 1) now
      (record db { intents = put_row id (moved type now row) db.intents })

abbrev pub transition_outcome :
    Name
    → EventType
    → Payload
    → ℕ
    → Store
    → Option PaymentIntent
    → Result Error PaymentIntent × Store
transition_outcome id type payload now db none = (err (row_not_found id), db)
transition_outcome id type payload now db (some row) =
    if is_valid_transition row.state (get_expected_next_state type)
    then (ok (moved type now row), after_move id type payload now row db)
    else (err (invalid_state_transition row.state (get_expected_next_state type)), db)

-- A transition fails and changes nothing, or moves the row along a permitted edge, raises its
-- version by one and logs the event. The branch for a concurrent modification is never taken.
pub transition_lem :
    (id : Name) (type : EventType) (payload : Payload) (now : ℕ) (db : Store)
    → transition id type payload now db
      ≡ transition_outcome id type payload now db (find_row id db.intents)
unfolding transition
transition_lem id type payload now db = elim (Option-cases (find_row id db.intents)) [
  | inl e ↦ rw e refl
  | inr (row, e) ↦
      elim (Bool-cases (is_valid_transition row.state (get_expected_next_state type))) [
        | inl v ↦ rw (e, v) (rw (e, update_row) (rw (==_self row.version) refl))
        | inr v ↦ rw (e, v) refl
      ]
]

abbrev pub create_outcome :
    Name → ℕ → NewPaymentIntent → Store → Option PaymentIntent → Result Error PaymentIntent × Store
create_outcome id now new db none = (
  ok (new_row id now new),
  log_event id intent_created (creation_payload new) 1 now
      (record db { intents = new_row id now new ∷ db.intents }),
)
create_outcome id now new db (some row) = (err (duplicate_key id), db)

pub create_lem :
    (id : Name) (now : ℕ) (new : NewPaymentIntent) (db : Store)
    → create id now new db ≡ create_outcome id now new db (find_row id db.intents)
unfolding create
create_lem id now new db = elim (Option-cases (find_row id db.intents)) [
  | inl e ↦ rw e refl
  | inr (row, e) ↦ rw e refl
]

abbrev pub quoted_row : ℤ → ℕ → Option Deposit → ℕ → PaymentIntent → PaymentIntent
quoted_row rate expires_at deposit now row = record row {
  quoted_rate = some rate;
  quote_expires_at = some expires_at;
  deposit_address = coalesced (λ d. d.address) deposit row.deposit_address;
  deposit_asset = coalesced (λ d. d.asset) deposit row.deposit_asset;
  deposit_chain = coalesced (λ d. d.chain) deposit row.deposit_chain;
  updated_at = now;
}

abbrev pub update_quote_outcome :
    Name
    → ℤ
    → ℕ
    → Option Deposit
    → ℕ
    → Store
    → Option PaymentIntent
    → Result Error PaymentIntent × Store
update_quote_outcome id rate expires_at deposit now db none = (err (row_not_found id), db)
update_quote_outcome id rate expires_at deposit now db (some row) = (
  ok (quoted_row rate expires_at deposit now row),
  record db { intents = put_row id (quoted_row rate expires_at deposit now row) db.intents },
)

pub update_quote_lem :
    (id : Name) (rate : ℤ) (expires_at : ℕ) (deposit : Option Deposit) (now : ℕ) (db : Store)
    → update_quote id rate expires_at deposit now db
      ≡ update_quote_outcome id rate expires_at deposit now db (find_row id db.intents)
unfolding update_quote
update_quote_lem id rate expires_at deposit now db = elim (Option-cases (find_row id db.intents)) [
  | inl e ↦ rw e refl
  | inr (row, e) ↦ rw e refl
]
