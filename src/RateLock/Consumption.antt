-- ===== src/RateLock/Consumption.antt =====
-- Consuming, cancelling and creating locks.
use nexora_gateway.Prelude.{
  ℕ, ◌≤◌, ◌≡◌, refl, sym, ap, ◌∙◌, le→ltb, true, false, [], ◌∷◌, none, some, arith, inl, inr,
  Option-cases,
}
use nexora_gateway.Prelude.Action.{Result, ok, err}
use nexora_gateway.Intent.Data.{Name}
use nexora_gateway.RateLock.{
  LockStatus, active, consumed, expired, cancelled, RateLock, RateLockError, lock_already_consumed,
  lock_not_found, Locks, get_lock, with_status, taken, store_lock, consume_found, consume_lock,
  cancel_lock, is_lock_valid, valid_found,
}

-- A changed lock of an intent is still the first of that intent.
pub store_lock_lem :
    (intent : Name) (f : RateLock → RateLock) (l : RateLock) (locks : Locks)
    → ((x : RateLock) → (f x).intent_id ≡ x.intent_id)
    → get_lock intent locks ≡ some l
    → get_lock intent (store_lock l.id f locks) ≡ some (f l)
unfolding get_lock
store_lock_lem intent f l [] keeps h = cc
store_lock_lem intent f l (x ∷ locks) keeps h =
    ground (arith, keeps x, store_lock_lem intent f l locks keeps)

-- What a call that succeeded did.
found_shape :
    (now : ℕ) (intent : Name) (m l : RateLock) (status : LockStatus) (locks : Locks)
    → (consume_found now intent m status locks).0 ≡ ok l
    → consume_found now intent m status locks
      ≡ (ok (taken now m), store_lock m.id (taken now) locks)
unfolding consume_found
found_shape now intent m l expired locks h = cc
found_shape now intent m l consumed locks h = cc
found_shape now intent m l active locks h = ground arith
found_shape now intent m l cancelled locks h = ground arith

consume_shape :
    (now : ℕ) (intent : Name) (l : RateLock) (locks : Locks)
    → (consume_lock now intent locks).0 ≡ ok l
    → (m : RateLock) × (get_lock intent locks ≡ some m)
      × (consume_lock now intent locks ≡ (ok (taken now m), store_lock m.id (taken now) locks))
unfolding consume_lock
consume_shape now intent l locks h = elim (Option-cases (get_lock intent locks)) [
  | inl e ↦ absurd (missing e)
  | inr (m, e) ↦ (m, e, rw (consume_lock, e) (found_shape now intent m l m.status locks (same m e)))
]
  where
    missing : get_lock intent locks ≡ none → ⊥
    missing e =
        let refused : (consume_lock now intent locks).0 ≡ err (lock_not_found intent) =
          rw (consume_lock, e) refl in
        cc (h, refused)

    same :
        (m : RateLock)
        → get_lock intent locks ≡ some m
        → (consume_found now intent m m.status locks).0 ≡ ok l
    same m e =
        let found : (consume_lock now intent locks).0
            ≡ (consume_found now intent m m.status locks).0 =
          rw (consume_lock, e) refl in
        sym found ∙ h

-- The identifier of the lock in a result.
abbrev id_of : Result RateLockError RateLock → Name
id_of (ok k) = k.id
id_of (err e) = 0

-- A lock is consumed at most once while nothing else happens to it: after a call that succeeded,
-- another at any time is refused as already consumed, and changes nothing.
pub consume_lock_once :
    (now later : ℕ) (intent : Name) (l : RateLock) (locks : Locks)
    → (consume_lock now intent locks).0 ≡ ok l
    → let after = (consume_lock now intent locks).1 in
      consume_lock later intent after ≡ (err (lock_already_consumed l.id), after)
unfolding consume_lock consume_found
consume_lock_once now later intent l locks h =
    let (m, e, shape) = consume_shape now intent l locks h in
    let there = store_lock_lem intent (taken now) m locks (λ x. refl) e in
    rw shape (
      rw (consume_lock, there)
        (ap (λ k. (err (lock_already_consumed k), store_lock m.id (taken now) locks))
          (ids_agree m shape)))
  where
    ids_agree :
        (m : RateLock)
        → consume_lock now intent locks ≡ (ok (taken now m), store_lock m.id (taken now) locks)
        → m.id ≡ l.id
    ids_agree m shape = ap id_of (sym (ap (λ p. p.0) shape) ∙ h)

valid_found_lem :
    (now : ℕ) (intent : Name) (l : RateLock) (locks : Locks)
    → (valid_found now l locks).0 ≡ true
    → ((valid_found now l locks).1 ≡ locks)
      × (consume_found now intent l l.status locks
          ≡ (ok (taken now l), store_lock l.id (taken now) locks))
unfolding valid_found consume_found
valid_found_lem now intent l locks h = (ground arith, ground arith)

-- A lock that is reported valid is consumed by a call at the same time.
pub consume_lock_valid :
    (now : ℕ) (intent : Name) (locks : Locks)
    → (is_lock_valid now intent locks).0 ≡ true
    → (l : RateLock) × (get_lock intent locks ≡ some l)
      × (consume_lock now intent (is_lock_valid now intent locks).1
          ≡ (ok (taken now l), store_lock l.id (taken now) locks))
unfolding is_lock_valid consume_lock
consume_lock_valid now intent locks h = elim (Option-cases (get_lock intent locks)) [
  | inl e ↦ absurd (invalid (rw (is_lock_valid, e) refl))
  | inr (l, e) ↦ (
    l,
    e,
    rw (kept l e) (rw (consume_lock, e) (valid_found_lem now intent l locks (valid l e)).1),
  )
]
  where
    invalid : (is_lock_valid now intent locks).0 ≡ false → ⊥
    invalid p = cc

    found :
        (l : RateLock)
        → get_lock intent locks ≡ some l
        → is_lock_valid now intent locks ≡ valid_found now l locks
    found l e = rw (is_lock_valid, e) refl

    valid : (l : RateLock) → get_lock intent locks ≡ some l → (valid_found now l locks).0 ≡ true
    valid l e = sym (ap (λ p. p.0) (found l e)) ∙ h

    kept :
        (l : RateLock) → get_lock intent locks ≡ some l → (is_lock_valid now intent locks).1 ≡ locks
    kept l e = ap (λ p. p.1) (found l e) ∙ (valid_found_lem now intent l locks (valid l e)).0

-- A lock of any status, consumed or expired included, that is cancelled before its time is over is
-- reported invalid and is yet consumed by the next call in that time.
pub cancel_lock_revives :
    (now : ℕ) (intent : Name) (l : RateLock) (locks : Locks)
    → get_lock intent locks ≡ some l
    → now ≤ l.expires_at
    → let after = cancel_lock intent locks in
      ((is_lock_valid now intent after).0 ≡ false)
      × ((new : RateLock) × ((consume_lock now intent after).0 ≡ ok new) × (new.status ≡ consumed))
unfolding cancel_lock consume_lock is_lock_valid consume_found valid_found
cancel_lock_revives now intent l locks h early =
    let there = store_lock_lem intent (with_status cancelled) l locks (λ x. refl) h in
    (
      rw (cancel_lock, h) (rw (is_lock_valid, there) refl),
      (
        taken now (with_status cancelled l),
        rw (cancel_lock, h) (rw (consume_lock, there, le→ltb l.expires_at now early) refl),
        refl,
      ),
    )
