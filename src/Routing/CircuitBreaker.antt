-- ===== src/Routing/CircuitBreaker.antt =====
-- packages/routing-engine/src/circuit-breaker.ts. `execute` awaits its function between two parts
-- that run without interruption: `enter` and, after the wait, `leave`.
pub mod Steps
use nexora_gateway.Prelude.{
  ℕ, suc, ◌+◌, ◌-◌, max, Bool, true, false, ◌&&◌, Option, none, some, ◌==◌, leb, if◌then◌else◌,
}
use nexora_gateway.Prelude.Action.{Result, ok, err}

pub data CircuitState : Type 0 where
  closed open_ half_open : CircuitState

pub record CircuitBreakerOptions : Type 0 where
  pub failure_threshold : ℕ
  pub recovery_timeout : ℕ

abbrev pub default_options : CircuitBreakerOptions
default_options = record { failure_threshold = 5; recovery_timeout = 30000 }

pub record CircuitBreaker : Type 0 where
  pub state : CircuitState
  pub failures : ℕ
  pub last_failure_time : Option ℕ

abbrev pub new_circuit : CircuitBreaker
new_circuit = record { state = closed; failures = 0; last_failure_time = none }

abbrev pub is_open : CircuitState → Bool
is_open closed = false
is_open open_ = true
is_open half_open = false

-- `!this.lastFailureTime`, which holds of the time 0 as well.
abbrev pub has_failed : Option ℕ → Bool
has_failed none = false
has_failed (some t) = if t == 0 then false else true

abbrev pub time_of : Option ℕ → ℕ
time_of none = 0
time_of (some t) = t

unfoldable pub should_attempt_recovery : CircuitBreakerOptions → ℕ → CircuitBreaker → Bool
should_attempt_recovery o now c =
    has_failed c.last_failure_time && leb (time_of c.last_failure_time + o.recovery_timeout) now

-- An elapsed time below zero, of a clock set back, lengthens the wait.
unfoldable pub get_remaining_recovery_time : CircuitBreakerOptions → ℕ → CircuitBreaker → ℕ
get_remaining_recovery_time o now c =
    if has_failed c.last_failure_time
    then time_of c.last_failure_time + o.recovery_timeout - now
    else 0

unfoldable pub on_success : CircuitBreaker → CircuitBreaker
on_success c = record { state = closed; failures = 0; last_failure_time = none }

unfoldable pub on_failure : CircuitBreakerOptions → ℕ → CircuitBreaker → CircuitBreaker
on_failure o now c = record {
  state = if leb o.failure_threshold (suc c.failures) then open_ else c.state;
  failures = suc c.failures;
  last_failure_time = some now;
}

unfoldable pub reset : CircuitBreaker → CircuitBreaker
reset c = record { state = closed; failures = 0; last_failure_time = none }

-- OPEN turns to HALF_OPEN once the timeout is over.
unfoldable pub get_state :
    CircuitBreakerOptions → ℕ → CircuitBreaker → CircuitState × CircuitBreaker
unfolding should_attempt_recovery
get_state o now c =
    let next = if is_open c.state && should_attempt_recovery o now c then half_open else c.state in
    (next, record { state = next; failures = c.failures; last_failure_time = c.last_failure_time })

unfoldable pub get_failure_count : CircuitBreaker → ℕ
get_failure_count c = c.failures

-- `execute` before the call of its function: an error is a `CircuitOpenError` with its wait.
unfoldable pub enter :
    CircuitBreakerOptions → ℕ → CircuitBreaker → Result ℕ (Unit {0}) × CircuitBreaker
unfolding should_attempt_recovery get_remaining_recovery_time
enter o now c =
    if is_open c.state
    then if should_attempt_recovery o now c
      then (
        ok tt,
        record {
          state = half_open;
          failures = c.failures;
          last_failure_time = c.last_failure_time;
        },
      )
      else (err (get_remaining_recovery_time o now c), c)
    else (ok tt, c)

-- `execute` after the call, which succeeded or threw.
unfoldable pub leave : CircuitBreakerOptions → ℕ → Bool → CircuitBreaker → CircuitBreaker
unfolding on_success on_failure
leave o now succeeded c = if succeeded then on_success c else on_failure o now c
