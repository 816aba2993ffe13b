-- ===== src/RateLock.antt =====
-- packages/rate-lock/src/rate-lock.service.ts. A Map is a list in the order of insertion, and the
-- identifier of a new lock is fresh. A locked rate is given in ten-thousandths of the live rate's
-- unit, in which the spread is exact. Upper-casing and the price oracle are parameters.
pub mod Consumption
pub mod Creation
use nexora_gateway.Prelude.{
  ℕ, ◌+◌, ◌*◌, Bool, true, false, ◌&&◌, not, List, [], ◌∷◌, ◌++◌, Option, none, some, ◌==◌, ltb,
  leb, if◌then◌else◌, find_first, change_at, includes, min, max,
}
use nexora_gateway.Prelude.Int.{ℤ, pos, scale, leb_ℤ}
use nexora_gateway.Prelude.Action.{Result, ok, err}
use nexora_gateway.Intent.Data.{Name}

pub data LockStatus : Type 0 where
  active consumed expired cancelled : LockStatus

pub record RateLock : Type 0 where
  pub id : Name
  pub intent_id : Name
  pub merchant_id : Name
  pub asset : Name
  pub base_asset : Name
  pub locked_rate : ℤ
  pub live_rate : ℤ
  pub spread_bps : ℕ
  pub ttl_seconds : ℕ
  pub status : LockStatus
  pub created_at : ℕ
  pub expires_at : ℕ
  pub consumed_at : Option ℕ

pub data RateLockError : Type 0 where
  invalid_price : Name → Name → ℤ → RateLockError
  oracle_error : RateLockError
  lock_not_found : Name → RateLockError
  lock_expired : Name → Name → RateLockError
  lock_already_consumed : Name → RateLockError

pub record SpreadConfig : Type 0 where
  pub base_spread_bps : ℕ
  pub volatility_spread_bps : ℕ
  pub max_spread_bps : ℕ
  pub min_ttl_seconds : ℕ
  pub max_ttl_seconds : ℕ
  pub default_ttl_seconds : ℕ
  pub high_volatility_assets : List Name

-- The price oracle, and `toUpperCase`.
pub record Market : Type 0 where
  pub get_price : Name → Name → Result RateLockError ℤ
  pub to_upper : Name → Name

abbrev pub Locks : Type 0
Locks = List RateLock

unfoldable pub calculate_spread : SpreadConfig → Market → Name → ℕ
calculate_spread c m asset =
    min
      (if includes c.high_volatility_assets (m.to_upper asset)
        then c.base_spread_bps + c.volatility_spread_bps
        else c.base_spread_bps)
      c.max_spread_bps

abbrev given : Option ℕ → ℕ → ℕ
given none d = d
given (some n) d = n

unfoldable pub clamp_ttl : SpreadConfig → Option ℕ → ℕ
clamp_ttl c ttl = max c.min_ttl_seconds (min c.max_ttl_seconds (given ttl c.default_ttl_seconds))

pub record LockRequest : Type 0 where
  pub intent_id : Name
  pub merchant_id : Name
  pub asset : Name
  pub base_asset : Name
  pub ttl_seconds : Option ℕ

unfoldable pub new_lock : SpreadConfig → Market → Name → ℕ → LockRequest → ℤ → RateLock
unfolding calculate_spread clamp_ttl
new_lock c m id now r live = record {
  id = id;
  intent_id = r.intent_id;
  merchant_id = r.merchant_id;
  asset = m.to_upper r.asset;
  base_asset = m.to_upper r.base_asset;
  locked_rate = scale (10000 + calculate_spread c m r.asset) live;
  live_rate = live;
  spread_bps = calculate_spread c m r.asset;
  ttl_seconds = clamp_ttl c r.ttl_seconds;
  status = active;
  created_at = now;
  expires_at = now + clamp_ttl c r.ttl_seconds * 1000;
  consumed_at = none;
}

unfoldable pub create_lock :
    SpreadConfig → Market → Name → ℕ → LockRequest → Locks → Result RateLockError RateLock × Locks
unfolding new_lock
create_lock c m id now r locks = elim (m.get_price r.asset r.base_asset) [
  | err e ↦ (err e, locks)
  | ok live ↦
      if leb_ℤ live (pos 0)
      then (err (invalid_price r.asset r.base_asset live), locks)
      else (ok (new_lock c m id now r live), locks ++ new_lock c m id now r live ∷ [])
]

-- The first lock of the intent, in the order of insertion.
unfoldable pub get_lock : Name → Locks → Option RateLock
get_lock intent = find_first (λ l. l.intent_id == intent)

abbrev pub with_status : LockStatus → RateLock → RateLock
with_status s l = record l { status = s }

abbrev pub taken : ℕ → RateLock → RateLock
taken now l = record l { status = consumed; consumed_at = some now }

abbrev pub store_lock : Name → (RateLock → RateLock) → Locks → Locks
store_lock id = change_at (λ l. l.id) id

-- `consumeLock`, by the status of the lock that it found. Only EXPIRED and CONSUMED are refused.
unfoldable pub consume_found :
    ℕ → Name → RateLock → LockStatus → Locks → Result RateLockError RateLock × Locks
consume_found now intent l expired locks = (err (lock_expired l.id intent), locks)
consume_found now intent l consumed locks = (err (lock_already_consumed l.id), locks)
consume_found now intent l _ locks =
    if ltb l.expires_at now
    then (err (lock_expired l.id intent), store_lock l.id (with_status expired) locks)
    else (ok (taken now l), store_lock l.id (taken now) locks)

unfoldable pub consume_lock : ℕ → Name → Locks → Result RateLockError RateLock × Locks
unfolding get_lock consume_found
consume_lock now intent locks = elim (get_lock intent locks) [
  | none ↦ (err (lock_not_found intent), locks)
  | some l ↦ consume_found now intent l l.status locks
]

unfoldable pub cancel_lock : Name → Locks → Locks
unfolding get_lock
cancel_lock intent locks = elim (get_lock intent locks) [
  | none ↦ locks
  | some l ↦ store_lock l.id (with_status cancelled) locks
]

abbrev pub is_active : LockStatus → Bool
is_active active = true
is_active consumed = false
is_active expired = false
is_active cancelled = false

unfoldable pub valid_found : ℕ → RateLock → Locks → Bool × Locks
valid_found now l locks =
    if not (is_active l.status)
    then (false, locks)
    else if ltb l.expires_at now
    then (false, store_lock l.id (with_status expired) locks)
    else (true, locks)

unfoldable pub is_lock_valid : ℕ → Name → Locks → Bool × Locks
unfolding get_lock valid_found
is_lock_valid now intent locks = elim (get_lock intent locks) [
  | none ↦ (false, locks)
  | some l ↦ valid_found now l locks
]

abbrev is_overdue : ℕ → RateLock → Bool
is_overdue now l = is_active l.status && ltb l.expires_at now

-- 24 hours.
abbrev is_old : ℕ → RateLock → Bool
is_old now l = ltb (l.created_at + 86400000) now

abbrev one_if : Bool → ℕ
one_if b = if b then 1 else 0

-- `RateLockCleanupService.cleanupExpiredLocks`: an overdue lock that is also old counts twice.
unfoldable pub cleanup_expired_locks : ℕ → Locks → ℕ × Locks
cleanup_expired_locks now [] = (0, [])
cleanup_expired_locks now (l ∷ locks) =
    let (count, rest) = cleanup_expired_locks now locks in
    (
      one_if (is_overdue now l) + one_if (is_old now l) + count,
      if is_old now l then rest else (if is_overdue now l then with_status expired l else l) ∷ rest,
    )
