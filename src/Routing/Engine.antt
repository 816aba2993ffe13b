-- ===== src/Routing/Engine.antt =====
-- packages/routing-engine/src/route-engine.ts. Each provider is asked at the same time; what a call
-- does to its provider's circuit stays, also when the answer comes after the timeout.
pub mod Best
use nexora_gateway.Prelude.{
  ℕ, ◌+◌, Bool, true, false, ◌&&◌, List, [], ◌∷◌, ◌++◌, Option, none, some, ◌==◌, ltb,
  if◌then◌else◌, keep_if, change_at, length,
}
use nexora_gateway.Prelude.Action.{Result, ok, err}
use nexora_gateway.Intent.Data.{Name}
use nexora_gateway.Routing.Quotes.{
  RouteQuote, RouteQuoteParams, RouteExecutionResult, MerchantPreferences,
}
use nexora_gateway.Routing.Scorer.{Scored, select_best, rank}
use nexora_gateway.Routing.Registry.{
  Answer, RouteProvider, Registry, quote, execute, is_healthy, get_provider, supports,
  get_supported_providers,
}

pub record RouteEngineConfig : Type 0 where
  pub quote_timeout_ms : ℕ
  pub min_quotes_required : ℕ
  pub skip_open_circuits : Bool

abbrev pub default_engine_config : RouteEngineConfig
default_engine_config = record {
  quote_timeout_ms = 5000;
  min_quotes_required = 1;
  skip_open_circuits = true;
}

pub data RouteError : Type 0 where
  no_valid_quotes execution_failed : RouteError
  provider_unavailable : Name → RouteError

-- The answer of a provider that comes in time.
abbrev pub in_time : RouteEngineConfig → Answer RouteQuote → List RouteQuote
in_time c a =
    if ltb a.took c.quote_timeout_ms then (elim a.value [ none ↦ [] | some q ↦ q ∷ [] ]) else []

-- A provider that supports both chains is asked, unless its circuit is open and such are skipped.
-- Its quote, and the provider afterwards.
unfoldable pub ask_provider :
    RouteEngineConfig → ℕ → RouteQuoteParams → RouteProvider → List RouteQuote × RouteProvider
unfolding quote
ask_provider c now params p = let (answer, p') = quote now params p in (in_time c answer, p')

unfoldable pub is_candidate :
    RouteEngineConfig → ℕ → RouteQuoteParams → RouteProvider → Bool × RouteProvider
unfolding supports is_healthy
is_candidate c now params p =
    if supports params.source_chain params.target_chain p
    then (if c.skip_open_circuits && p.reports_health then is_healthy now p else (true, p))
    else (false, p)

-- `fetchQuotesParallel`, over the providers that are candidates, and the registry afterwards.
unfoldable pub fetch_quotes :
    RouteEngineConfig → ℕ → RouteQuoteParams → Registry → List RouteQuote × Registry
unfolding ask_provider is_candidate
fetch_quotes c now params [] = ([], [])
fetch_quotes c now params (p ∷ ps) =
    let (quotes, ps') = fetch_quotes c now params ps in
    let (wanted, p') = is_candidate c now params p in
    let (answer, p'') = ask_provider c now params p' in
    if wanted then (answer ++ quotes, p'' ∷ ps') else (quotes, p' ∷ ps')

abbrev pub valid_at : ℕ → List RouteQuote → List RouteQuote
valid_at now = keep_if (λ q. ltb now q.expires_at)

-- `selectBestRoute`. The answers are in at the time `done`. Without a candidate no quote comes, and
-- the error is the same.
unfoldable pub select_best_route :
    RouteEngineConfig
    → MerchantPreferences
    → ℕ
    → ℕ
    → RouteQuoteParams
    → Registry
    → Result RouteError Scored × Registry
unfolding fetch_quotes select_best
select_best_route c prefs now done params r =
    let (quotes, r') = fetch_quotes c now params r in
    let valid = valid_at done quotes in
    if ltb (length valid) c.min_quotes_required
    then (err no_valid_quotes, r')
    else (elim (select_best prefs valid) [ none ↦ err no_valid_quotes | some x ↦ ok x ], r')

-- `getAllRoutes`, which does not look at the circuits first.
unfoldable pub get_all_routes :
    RouteEngineConfig
    → MerchantPreferences
    → ℕ
    → ℕ
    → RouteQuoteParams
    → Registry
    → List Scored × Registry
unfolding fetch_quotes rank
get_all_routes c prefs now done params r =
    let (quotes, r') = fetch_quotes (record c { skip_open_circuits = false }) now params r in
    (rank prefs (valid_at done quotes), r')

-- `executeRoute`, with the registry after the call.
unfoldable pub execute_route :
    ℕ → RouteQuote → Registry → Result RouteError RouteExecutionResult × Registry
unfolding get_provider execute
execute_route now q r = elim (get_provider q.provider r) [
  | none ↦ (err (provider_unavailable q.provider), r)
  | some p ↦ executed (execute now q p) r
]
  where
    result_of : Option RouteExecutionResult → Result RouteError RouteExecutionResult
    result_of none = err execution_failed
    result_of (some x) = ok x

    executed :
        Answer RouteExecutionResult × RouteProvider
        → Registry
        → Result RouteError RouteExecutionResult × Registry
    executed (answer, p') r =
        (result_of answer.value, change_at (λ p. p.name) q.provider (λ _. p') r)
