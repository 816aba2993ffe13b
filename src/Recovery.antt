-- ===== src/Recovery.antt =====
-- packages/recovery/src/recovery.repository.ts, over packages/shared/src/types/recovery.ts: the
-- recovery cases. Rows are in the order of insertion, which is the order of created_at.
pub mod Detection
pub mod Service
pub mod Resolution
use nexora_gateway.Prelude.{
  ℕ, ◌+◌, Bool, true, false, ◌&&◌, ◌||◌, List, [], ◌∷◌, ◌++◌, Option, none, some, ◌==◌, ltb,
  if◌then◌else◌, keep_if, find_at, change_at, length,
}
use nexora_gateway.Prelude.Int.{ℤ}
use nexora_gateway.Prelude.Action.{
  Action, ok, err, ◌>>=◌, ◌>>◌, and_then, pure, gets, modify, or_throw, throw_unless,
}
use nexora_gateway.Intent.Data.{Name}

pub data RecoveryCaseType : Type 0 where
  misdirected underpaid overpaid stuck : RecoveryCaseType

pub data RecoveryStatus : Type 0 where
  detected verifying resolving resolved failed : RecoveryStatus

pub data ResolutionAction : Type 0 where
  auto_refund auto_credit top_up_link re_quote fee_bump relayer_acceleration : ResolutionAction

pub record RecoveryCase : Type 0 where
  pub id : Name
  pub related_intent_id : Option Name
  pub case_type : RecoveryCaseType
  pub status : RecoveryStatus
  pub customer_address : Name
  pub customer_chain : Name
  pub intended_chain : Name
  pub asset : Name
  pub amount : ℤ
  pub tx_hash : Option Name
  pub resolution_action : Option ResolutionAction
  pub resolution_tx_hash : Option Name
  pub created_at : ℕ
  pub updated_at : ℕ
  pub resolved_at : Option ℕ

pub record CreateRecoveryCaseParams : Type 0 where
  pub related_intent_id : Option Name
  pub case_type : RecoveryCaseType
  pub customer_address : Name
  pub customer_chain : Name
  pub intended_chain : Name
  pub asset : Name
  pub amount : ℤ
  pub tx_hash : Option Name

-- A field that is not given stays; one that may be null is given as an option.
pub record UpdateRecoveryCaseParams : Type 0 where
  pub status : Option RecoveryStatus
  pub resolution_action : Option ResolutionAction
  pub resolution_tx_hash : Option (Option Name)
  pub resolved_at : Option (Option ℕ)

-- The primary key is taken, or no row has it.
pub data RecoveryError : Type 0 where
  duplicate_case case_not_found : Name → RecoveryError

abbrev pub Cases : Type 0
Cases = List RecoveryCase

abbrev pub Method : Type 0 → Type 0
Method = Action Cases RecoveryError

abbrev pub case_with : Name → Cases → Option RecoveryCase
case_with = find_at (λ r. r.id)

unfoldable pub new_case : Name → ℕ → CreateRecoveryCaseParams → RecoveryCase
new_case id now p = record {
  id = id;
  related_intent_id = p.related_intent_id;
  case_type = p.case_type;
  status = detected;
  customer_address = p.customer_address;
  customer_chain = p.customer_chain;
  intended_chain = p.intended_chain;
  asset = p.asset;
  amount = p.amount;
  tx_hash = p.tx_hash;
  resolution_action = none;
  resolution_tx_hash = none;
  created_at = now;
  updated_at = now;
  resolved_at = none;
}

abbrev is_free : Option RecoveryCase → Bool
is_free none = true
is_free (some r) = false

unfoldable pub create_case : Name → ℕ → CreateRecoveryCaseParams → Method RecoveryCase
unfolding new_case
create_case id now p = do
  old ← gets (case_with id)
  throw_unless (is_free old) (duplicate_case id)
  modify (λ (db : Cases). db ++ new_case id now p ∷ [])
  pure (new_case id now p)

abbrev pub given : {A : Type 0} → Option A → A → A
given none a = a
given (some b) a = b

abbrev pub given? : {A : Type 0} → Option A → Option A → Option A
given? none a = a
given? (some b) a = some b

abbrev pub amended : ℕ → UpdateRecoveryCaseParams → RecoveryCase → RecoveryCase
amended now p r = record r {
  status = given p.status r.status;
  resolution_action = given? p.resolution_action r.resolution_action;
  resolution_tx_hash = given p.resolution_tx_hash r.resolution_tx_hash;
  resolved_at = given p.resolved_at r.resolved_at;
  updated_at = now;
}

-- `update`. The row is found before the statement and after it.
unfoldable pub update_case : Name → ℕ → UpdateRecoveryCaseParams → Method RecoveryCase
update_case id now p = do
  existing ← gets (case_with id)
  or_throw existing (case_not_found id)
  modify (change_at (λ r. r.id) id (amended now p))
  row ← gets (case_with id)
  or_throw row (case_not_found id)

abbrev type_index : RecoveryCaseType → ℕ
type_index misdirected = 0
type_index underpaid = 1
type_index overpaid = 2
type_index stuck = 3

abbrev status_index : RecoveryStatus → ℕ
status_index detected = 0
status_index verifying = 1
status_index resolving = 2
status_index resolved = 3
status_index failed = 4

abbrev pub same_type : RecoveryCaseType → RecoveryCaseType → Bool
same_type s t = type_index s == type_index t

abbrev pub same_status : RecoveryStatus → RecoveryStatus → Bool
same_status s t = status_index s == status_index t

unfoldable pub find_by_type_and_status :
    RecoveryCaseType → RecoveryStatus → Cases → List RecoveryCase
find_by_type_and_status t s = keep_if (λ r. same_type r.case_type t && same_status r.status s)

abbrev newest_first : Cases → List RecoveryCase
newest_first [] = []
newest_first (r ∷ rs) = newest_first rs ++ r ∷ []

abbrev is_name : Option Name → Name → Bool
is_name none n = false
is_name (some m) n = m == n

unfoldable pub find_by_intent : Name → Cases → List RecoveryCase
find_by_intent intent db = newest_first (keep_if (λ r. is_name r.related_intent_id intent) db)

unfoldable pub find_by_customer_address : Name → Name → Cases → List RecoveryCase
find_by_customer_address address chain db =
    newest_first (keep_if (λ r. r.customer_address == address && r.customer_chain == chain) db)

-- `created_at < now - maxAge`.
unfoldable pub is_overdue : ℕ → ℕ → RecoveryCase → Bool
is_overdue max_age now r =
    same_type r.case_type stuck
    && (same_status r.status detected || same_status r.status verifying)
    && ltb (r.created_at + max_age) now

unfoldable pub find_stuck_transactions : ℕ → ℕ → Cases → List RecoveryCase
unfolding is_overdue
find_stuck_transactions max_age now = keep_if (is_overdue max_age now)

-- `getStats`: a key that the code's record lacks counts 0.
unfoldable pub get_stats : Cases → RecoveryCaseType → RecoveryStatus → ℕ
unfolding find_by_type_and_status
get_stats db t s = length (find_by_type_and_status t s db)
