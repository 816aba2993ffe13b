-- ===== src/RateLock/Creation.antt =====
-- What a created lock promises.
use nexora_gateway.Prelude.{
  mul_le_mul, ℕ, ◌+◌, ◌*◌, ◌≤◌, ◌≡◌, refl, sym, ap, ◌∙◌, false, [], ◌∷◌, ◌++◌, none, some, arith,
  inl, inr, Bool-cases, le→ltb, ==_self,
}
use nexora_gateway.Prelude.Int.{ℤ, pos, negsuc, ◌≤ℤ◌, scale, leb_ℤ, int_laws}
use nexora_gateway.Prelude.Action.{Result, ok, err, Result-cases}
use nexora_gateway.Intent.Data.{Name}
use nexora_gateway.RateLock.{
  RateLock, RateLockError, invalid_price, Locks, SpreadConfig, Market, LockRequest, create_lock,
  new_lock, clamp_ttl, calculate_spread, get_lock, taken, consume_found, consume_lock, consumed,
  store_lock,
}
use nexora_gateway.RateLock.Consumption.{store_lock_lem}

-- What a call that succeeded did: there was a positive price, and the lock for it went to the end.
create_shape :
    (c : SpreadConfig) (m : Market) (id : Name) (now : ℕ) (r : LockRequest) (l : RateLock)
    (locks : Locks)
    → (create_lock c m id now r locks).0 ≡ ok l
    → (live : ℤ) × (leb_ℤ live (pos 0) ≡ false)
      × (l ≡ new_lock c m id now r live)
      × ((create_lock c m id now r locks).1 ≡ locks ++ l ∷ [])
unfolding create_lock
create_shape c m id now r l locks h = elim (Result-cases (m.get_price r.asset r.base_asset)) [
  | inr (e, p) ↦ absurd (refused e (rw (create_lock, p) refl))
  | inl (live, p) ↦ elim (Bool-cases (leb_ℤ live (pos 0))) [
    | inl q ↦
        absurd (refused (invalid_price r.asset r.base_asset live) (rw (create_lock, p, q) refl))
    | inr q ↦
        let made : create_lock c m id now r locks
            ≡ (ok (new_lock c m id now r live), locks ++ new_lock c m id now r live ∷ []) =
          rw (create_lock, p, q) refl in
        let same = same_lock live made in (live, q, same, ap (λ p. p.1) made ∙ rw same refl)
  ]
]
  where
    refused : (e : RateLockError) → (create_lock c m id now r locks).0 ≡ err e → ⊥
    refused e p = cc

    lock_or : RateLock → Result RateLockError RateLock → RateLock
    lock_or k (ok l) = l
    lock_or k (err e) = k

    same_lock :
        (live : ℤ)
        → create_lock c m id now r locks
          ≡ (ok (new_lock c m id now r live), locks ++ new_lock c m id now r live ∷ [])
        → l ≡ new_lock c m id now r live
    same_lock live made = ap (lock_or l) (sym h ∙ ap (λ p. p.0) made)

scale_pos : (k n : ℕ) → scale k (pos n) ≡ pos (k * n)
scale_pos k n = omega int_laws

scale_le : (a b : ℕ) (live : ℤ) → a ≤ b → leb_ℤ live (pos 0) ≡ false → scale a live ≤ℤ scale b live
scale_le a b (pos n) h p = rw (scale_pos a n, scale_pos b n) (omega (arith, mul_le_mul a b n h))
scale_le a b (negsuc n) h p = absurd (negative p)
  where
    negative : leb_ℤ (negsuc n) (pos 0) ≡ false → ⊥
    negative q = ground arith

spread_le :
    (c : SpreadConfig) (m : Market) (asset : Name) → calculate_spread c m asset ≤ c.max_spread_bps
unfolding calculate_spread
spread_le c m asset = omega arith

-- A lock that is created has a time to live within the limits, where the lower limit is not above
-- the upper one, a spread that is at most the limit, and a locked rate, in ten-thousandths, that is
-- at least the live rate and at most the live rate with the largest spread.
pub create_lock_bounds :
    (c : SpreadConfig) (m : Market) (id : Name) (now : ℕ) (r : LockRequest) (l : RateLock)
    (locks : Locks)
    → (create_lock c m id now r locks).0 ≡ ok l
    → c.min_ttl_seconds ≤ c.max_ttl_seconds
    → (c.min_ttl_seconds ≤ l.ttl_seconds)
      × (l.ttl_seconds ≤ c.max_ttl_seconds)
      × (l.spread_bps ≤ c.max_spread_bps)
      × (scale 10000 l.live_rate ≤ℤ l.locked_rate)
      × (l.locked_rate ≤ℤ scale (10000 + c.max_spread_bps) l.live_rate)
unfolding new_lock clamp_ttl
create_lock_bounds c m id now r l locks h limits =
    let (live, positive, same, _) = create_shape c m id now r l locks h in
    let small = spread_le c m r.asset in
    rw same (
      omega arith,
      omega arith,
      small,
      scale_le 10000 (10000 + calculate_spread c m r.asset) live (omega arith) positive,
      scale_le (10000 + calculate_spread c m r.asset) (10000 + c.max_spread_bps) live (omega arith)
          positive,
    )

get_lock-append :
    (intent : Name) (locks : Locks) (l : RateLock)
    → get_lock intent locks ≡ none
    → l.intent_id ≡ intent
    → get_lock intent (locks ++ l ∷ []) ≡ some l
unfolding get_lock
get_lock-append intent [] l h same = rw (same, ==_self intent) refl
get_lock-append intent (k ∷ locks) l h same = ground (arith, get_lock-append intent locks l)

-- The lock of an intent, once it was consumed at a time: the rates and the spread that it was created
-- with, and its new status.
abbrev pub IsConsumedFrom : ℕ → RateLock → RateLock → Type 0
IsConsumedFrom later l k =
    (k.id ≡ l.id)
    × (k.intent_id ≡ l.intent_id)
    × (k.locked_rate ≡ l.locked_rate)
    × (k.live_rate ≡ l.live_rate)
    × (k.spread_bps ≡ l.spread_bps)
    × (k.status ≡ consumed)
    × (k.consumed_at ≡ some later)

-- For an intent that has no lock: a lock that was created has its live rate with its spread as its
-- locked rate, in ten-thousandths; a call at any time up to its expiry consumes it and returns it at
-- that locked rate, with its live rate and spread, and that is what the table then holds for the
-- intent.
pub create_lock_consumable :
    (c : SpreadConfig) (m : Market) (id : Name) (now later : ℕ) (r : LockRequest) (l : RateLock)
    (locks : Locks)
    → get_lock r.intent_id locks ≡ none
    → (create_lock c m id now r locks).0 ≡ ok l
    → later ≤ l.expires_at
    → let after = consume_lock later r.intent_id (create_lock c m id now r locks).1 in
      (l.locked_rate ≡ scale (10000 + l.spread_bps) l.live_rate)
      × ((k : RateLock) × (after.0 ≡ ok k)
          × (get_lock r.intent_id after.1 ≡ some k)
          × IsConsumedFrom later l k)
unfolding consume_lock consume_found new_lock
create_lock_consumable c m id now later r l locks fresh h early =
    let (live, positive, same, stored) = create_shape c m id now r l locks h in
    let there = get_lock-append r.intent_id locks l fresh (ap (λ k. k.intent_id) same) in
    let done : consume_lock later r.intent_id (locks ++ l ∷ [])
        ≡ (ok (taken later l), store_lock l.id (taken later) (locks ++ l ∷ [])) =
      rw (consume_lock, there, ap (λ k. k.status) same, le→ltb l.expires_at later early) refl in
    (
      rw same refl,
      rw stored (
          rw done (
            taken later l,
            refl,
            store_lock_lem r.intent_id (taken later) l (locks ++ l ∷ []) (λ x. refl) there,
            (refl, refl, refl, refl, refl, refl, refl),
          )),
    )
