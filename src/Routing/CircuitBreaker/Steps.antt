-- ===== src/Routing/CircuitBreaker/Steps.antt =====
-- The breaker under any interleaving of the calls that go through it.
use nexora_gateway.Prelude.{
  ℕ, suc, ◌+◌, ◌≤◌, ◌≡◌, refl, sym, ◌∙◌, ap, Bool, true, false, List, [], ◌∷◌, arith, leb,
  if◌then◌else◌,
}
use nexora_gateway.Prelude.Action.{ok, err}
use nexora_gateway.Routing.CircuitBreaker.{
  CircuitState, closed, open_, half_open, CircuitBreakerOptions, CircuitBreaker, new_circuit, enter,
  leave, reset, get_state, on_success, on_failure, should_attempt_recovery,
  get_remaining_recovery_time, get_failure_count, has_failed,
}

-- What can happen to a breaker: the two parts of `execute` of any call, a reading of the state, a
-- reset. Each has its time.
pub data Step : Type 0 where
  enters reads resets : ℕ → Step
  leaves : ℕ → Bool → Step

abbrev pub step : CircuitBreakerOptions → Step → CircuitBreaker → CircuitBreaker
step o (enters now) c = (enter o now c).1
step o (reads now) c = (get_state o now c).1
step o (resets now) c = reset c
step o (leaves now succeeded) c = leave o now succeeded c

abbrev pub steps : CircuitBreakerOptions → List Step → CircuitBreaker → CircuitBreaker
steps o [] c = c
steps o (x ∷ xs) c = steps o xs (step o x c)

-- The failures since the last success or reset, read off the steps themselves.
abbrev pub failures_after : ℕ → List Step → ℕ
failures_after n [] = n
failures_after n (enters _ ∷ xs) = failures_after n xs
failures_after n (reads _ ∷ xs) = failures_after n xs
failures_after n (resets _ ∷ xs) = failures_after 0 xs
failures_after n (leaves _ true ∷ xs) = failures_after 0 xs
failures_after n (leaves _ false ∷ xs) = failures_after (suc n) xs

abbrev pub is_closed : CircuitState → Bool
is_closed closed = true
is_closed open_ = false
is_closed half_open = false

-- Closed exactly below the threshold.
abbrev pub IsSound : CircuitBreakerOptions → CircuitBreaker → Type 0
IsSound o c = is_closed c.state ≡ (if leb o.failure_threshold c.failures then false else true)

step-IsSound :
    (o : CircuitBreakerOptions) (x : Step) (c : CircuitBreaker)
    → 1 ≤ o.failure_threshold
    → IsSound o c
    → IsSound o (step o x c)
unfolding enter get_state reset leave on_success on_failure
step-IsSound o (enters now) c p h = ground arith
step-IsSound o (reads now) c p h = ground arith
step-IsSound o (resets now) c p h = ground arith
step-IsSound o (leaves now true) c p h = ground arith
step-IsSound o (leaves now false) c p h = ground arith

failures-enter :
    (o : CircuitBreakerOptions) (now : ℕ) (c : CircuitBreaker)
    → c.failures ≡ (enter o now c).1.failures
unfolding enter
failures-enter o now c = ground arith

failures-step :
    (o : CircuitBreakerOptions) (x : Step) (xs : List Step) (c : CircuitBreaker)
    → failures_after c.failures (x ∷ xs) ≡ failures_after (step o x c).failures xs
unfolding enter get_state reset leave on_success on_failure
failures-step o (enters now) xs c = ap (λ n. failures_after n xs) (failures-enter o now c)
failures-step o (reads now) xs c = refl
failures-step o (resets now) xs c = refl
failures-step o (leaves now true) xs c = refl
failures-step o (leaves now false) xs c = refl

steps_lem :
    (o : CircuitBreakerOptions) (xs : List Step) (c : CircuitBreaker)
    → 1 ≤ o.failure_threshold
    → IsSound o c
    → ((steps o xs c).failures ≡ failures_after c.failures xs) × IsSound o (steps o xs c)
steps_lem o [] c p h = (refl, h)
steps_lem o (x ∷ xs) c p h =
    let (same, sound) = steps_lem o xs (step o x c) p (step-IsSound o x c p h) in
    (same ∙ sym (failures-step o x xs c), sound)

-- Whatever the order of the calls, their results, the readings and the resets, a new breaker with
-- a positive threshold counts the failures since the last success or reset, and is closed exactly
-- when they are fewer than the threshold.
pub steps-IsSound :
    (o : CircuitBreakerOptions) (xs : List Step)
    → 1 ≤ o.failure_threshold
    → (get_failure_count (steps o xs new_circuit) ≡ failures_after 0 xs)
      × IsSound o (steps o xs new_circuit)
unfolding get_failure_count
steps-IsSound o xs p = steps_lem o xs new_circuit p (ground arith)

-- Where a failure has been recorded and a call is refused, the wait that the refusal names is
-- positive, and the same call after that wait is let through.
pub enter_refused :
    (o : CircuitBreakerOptions) (now wait : ℕ) (c : CircuitBreaker)
    → (enter o now c).0 ≡ err wait
    → has_failed c.last_failure_time ≡ true
    → (1 ≤ wait) × ((enter o (now + wait) c).0 ≡ ok tt)
unfolding enter should_attempt_recovery get_remaining_recovery_time
enter_refused o now wait c refused failed = (ground arith, ground arith)
