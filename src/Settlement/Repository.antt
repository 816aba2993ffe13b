-- ===== src/Settlement/Repository.antt =====
-- packages/settlement/src/settlement.repository.ts. Queries do not fail; a method that throws says so.
use nexora_gateway.Prelude.{
  ℕ, suc, Bool, true, false, ◌&&◌, List, [], ◌∷◌, ◌++◌, Option, none, some, ◌==◌, leb,
  if◌then◌else◌, find_first, keep_if, find_at, change_at,
}
use nexora_gateway.Prelude.Int.{ℤ, pos, ◌+ℤ◌}
use nexora_gateway.Prelude.Action.{Action, ok, err}
use nexora_gateway.Intent.Data.{Name}
use nexora_gateway.Ledger.{Ledger}

pub data SettlementStatus : Type 0 where
  pending processing completed failed retrying : SettlementStatus

pub record Settlement : Type 0 where
  pub id : Name
  pub intent_id : Name
  pub merchant_id : Name
  pub amount : ℤ
  pub asset : Name
  pub chain : Name
  pub destination_address : Name
  pub status : SettlementStatus
  pub tx_hash : Option Name
  pub created_at : ℕ
  pub updated_at : ℕ
  pub completed_at : Option ℕ

-- Why a payout failed: what a client or the database threw, or the service itself.
pub data SettlementError : Type 0 where
  network_error timeout insufficient_gas econnreset other_error : SettlementError
  failed_on_chain confirmation_timeout out_of_fuel : SettlementError
  settlement_not_found : Name → SettlementError
  cannot_retry : SettlementStatus → SettlementError
  settlement_failed : Name → SettlementError → SettlementError

-- What the service reads and writes. A scheduled retry is a settlement with its delay.
pub record Books : Type 0 where
  pub settlements : List Settlement
  pub ledger : Ledger
  pub scheduled : List (Name × ℕ)

pub record CreateSettlementParams : Type 0 where
  pub intent_id : Name
  pub merchant_id : Name
  pub amount : ℤ
  pub asset : Name
  pub chain : Name
  pub destination_address : Name

pub record UpdateSettlementParams : Type 0 where
  pub status : Option SettlementStatus
  pub tx_hash : Option Name
  pub completed_at : Option ℕ

abbrev pub new_settlement : Name → ℕ → CreateSettlementParams → Settlement
new_settlement id now p = record {
  id = id;
  intent_id = p.intent_id;
  merchant_id = p.merchant_id;
  amount = p.amount;
  asset = p.asset;
  chain = p.chain;
  destination_address = p.destination_address;
  status = pending;
  tx_hash = none;
  created_at = now;
  updated_at = now;
  completed_at = none;
}

abbrev pub with_settlements : List Settlement → Books → Books
with_settlements rows b = record { settlements = rows; ledger = b.ledger; scheduled = b.scheduled }

-- `create`.
unfoldable pub create_settlement : Name → ℕ → CreateSettlementParams → Books → Settlement × Books
create_settlement id now p b =
    (new_settlement id now p, with_settlements (b.settlements ++ new_settlement id now p ∷ []) b)

unfoldable pub find_settlement : Name → List Settlement → Option Settlement
find_settlement id = find_at (λ s. s.id) id

unfoldable pub find_by_intent_id : Name → List Settlement → Option Settlement
find_by_intent_id id = find_first (λ s. s.intent_id == id)

abbrev pub set_or_keep : {A : Type 0} → Option A → A → A
set_or_keep none a = a
set_or_keep (some b) a = b

abbrev pub set_or_keep? : {A : Type 0} → Option A → Option A → Option A
set_or_keep? none o = o
set_or_keep? (some b) o = some b

-- The columns that the parameters name, and `updated_at`.
abbrev pub changed : ℕ → UpdateSettlementParams → Settlement → Settlement
changed now p s = record {
  id = s.id;
  intent_id = s.intent_id;
  merchant_id = s.merchant_id;
  amount = s.amount;
  asset = s.asset;
  chain = s.chain;
  destination_address = s.destination_address;
  status = set_or_keep p.status s.status;
  tx_hash = set_or_keep? p.tx_hash s.tx_hash;
  created_at = s.created_at;
  updated_at = now;
  completed_at = set_or_keep? p.completed_at s.completed_at;
}

-- `update`: the row, and the whole table after it.
unfoldable pub update_settlement :
    Name → ℕ → UpdateSettlementParams → Action Books SettlementError Settlement
unfolding find_settlement
update_settlement id now p b = elim (find_settlement id b.settlements) [
  | none ↦ (err (settlement_not_found id), b)
  | some s ↦ (
    ok (changed now p s),
    with_settlements (change_at (λ s. s.id) id (changed now p) b.settlements) b,
  )
]

abbrev pub is_outstanding : SettlementStatus → Bool
is_outstanding pending = true
is_outstanding processing = false
is_outstanding completed = false
is_outstanding failed = false
is_outstanding retrying = true

unfoldable pub find_pending : List Settlement → List Settlement
find_pending = keep_if (λ s. is_outstanding s.status)

unfoldable pub find_by_merchant_id : Name → List Settlement → List Settlement
find_by_merchant_id id rows = newest_first (keep_if (λ s. s.merchant_id == id) rows)
  where
    newest_first : List Settlement → List Settlement
    newest_first [] = []
    newest_first (s ∷ rows) = newest_first rows ++ s ∷ []

abbrev pub is_completed : SettlementStatus → Bool
is_completed pending = false
is_completed processing = false
is_completed completed = true
is_completed failed = false
is_completed retrying = false

-- SQL's BETWEEN on a nullable column.
abbrev pub falls_within : ℕ → ℕ → Option ℕ → Bool
falls_within from to none = false
falls_within from to (some t) = leb from t && leb t to

-- The total and the count.
unfoldable pub get_merchant_settled_total : Name → ℕ → ℕ → List Settlement → ℤ × ℕ
get_merchant_settled_total id from to [] = (pos 0, 0)
get_merchant_settled_total id from to (s ∷ rows) =
    let (total, count) = get_merchant_settled_total id from to rows in
    if s.merchant_id == id && (is_completed s.status && falls_within from to s.completed_at)
    then (s.amount +ℤ total, suc count)
    else (total, count)
