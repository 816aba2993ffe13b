-- ===== src/Routing/Registry.antt =====
-- packages/routing-engine/src/provider-registry.ts and base-route-provider.ts. A provider's own
-- network calls are its fields: how long an answer takes, and the answer.
use nexora_gateway.Prelude.{
  ℕ, ◌+◌, Bool, true, false, ◌&&◌, not, List, [], ◌∷◌, ◌++◌, map, Option, none, some, ◌==◌,
  if◌then◌else◌, find_at, keep_if, includes, length,
}
use nexora_gateway.Prelude.Action.{Result, ok, err}
use nexora_gateway.Intent.Data.{Name}
use nexora_gateway.Routing.Quotes.{RouteQuote, RouteQuoteParams, RouteExecutionResult}
use nexora_gateway.Routing.CircuitBreaker.{
  CircuitBreakerOptions, CircuitBreaker, is_open, get_state, enter, leave, reset,
}

pub record Answer (A : Type 0) : Type 0 where
  pub took : ℕ
  pub value : Option A  -- none where the call threw

-- A provider with its circuit breaker. The fetched quote is already normalized.
pub record RouteProvider : Type 0 where
  pub name : Name
  pub supported_chains : List Name
  pub options : CircuitBreakerOptions
  pub reports_health : Bool  -- it has the method `isHealthy`
  pub circuit : CircuitBreaker
  pub fetch_quote : RouteQuoteParams → Answer RouteQuote
  pub execute_raw : RouteQuote → Answer RouteExecutionResult

abbrev pub with_circuit : CircuitBreaker → RouteProvider → RouteProvider
with_circuit c p = record p { circuit = c }

abbrev succeeded : {A : Type 0} → Option A → Bool
succeeded none = false
succeeded (some a) = true

-- A call through the breaker at a time: its answer, and the breaker when the call has ended.
abbrev pub guarded :
    {A : Type 0}
    → ℕ
    → RouteProvider
    → Answer A
    → Result ℕ (Unit {0}) × CircuitBreaker
    → Answer A × RouteProvider
guarded now p a (ok _, c) =
    (a, with_circuit (leave p.options (now + a.took) (succeeded a.value) c) p)
guarded now p a (err wait, c) = (record { took = 0; value = none }, with_circuit c p)

unfoldable pub quote : ℕ → RouteQuoteParams → RouteProvider → Answer RouteQuote × RouteProvider
quote now params p = guarded now p (p.fetch_quote params) (enter p.options now p.circuit)

unfoldable pub execute :
    ℕ → RouteQuote → RouteProvider → Answer RouteExecutionResult × RouteProvider
execute now route p = guarded now p (p.execute_raw route) (enter p.options now p.circuit)

unfoldable pub is_healthy : ℕ → RouteProvider → Bool × RouteProvider
is_healthy now p =
    let (state, c) = get_state p.options now p.circuit in (not (is_open state), with_circuit c p)

unfoldable pub reset_circuit : RouteProvider → RouteProvider
reset_circuit p = with_circuit (reset p.circuit) p

-- The Map of the registry, in the order of insertion.
abbrev pub Registry : Type 0
Registry = List RouteProvider

unfoldable pub get_provider : Name → Registry → Option RouteProvider
get_provider = find_at (λ p. p.name)

unfoldable pub has_provider : Name → Registry → Bool
unfolding get_provider
has_provider name r = succeeded (get_provider name r)

-- `register`: `none` is the error on a name that is taken.
unfoldable pub register : RouteProvider → Registry → Option Registry
unfolding has_provider
register p r = if has_provider p.name r then none else some (r ++ p ∷ [])

unfoldable pub unregister : Name → Registry → Bool × Registry
unfolding has_provider
unregister name r = (has_provider name r, keep_if (λ p. not (p.name == name)) r)

unfoldable pub supports : Name → Name → RouteProvider → Bool
supports source target p = includes p.supported_chains source && includes p.supported_chains target

unfoldable pub get_supported_providers : Name → Name → Registry → Registry
unfolding supports
get_supported_providers source target = keep_if (supports source target)

unfoldable pub get_providers_for_chain : Name → Registry → Registry
get_providers_for_chain chain = keep_if (λ p. includes p.supported_chains chain)

unfoldable pub get_names : Registry → List Name
get_names = map λ p. p.name

unfoldable pub size : Registry → ℕ
size = length
