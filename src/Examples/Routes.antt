-- ===== src/Examples/Routes.antt =====
-- The choice of a route among two providers.
use nexora_gateway.Prelude.{ℕ, ◌<◌, ◌≡◌, refl, ◌⊎◌, true, false, [], ◌∷◌, some, ltb, length}
use nexora_gateway.Prelude.Int.{pos}
use nexora_gateway.Prelude.Action.{ok, err}
use nexora_gateway.Intent.Data.{Name}
use nexora_gateway.Routing.Quotes.{RouteQuote, RouteQuoteParams, completed}
use nexora_gateway.Routing.CircuitBreaker.{default_options, new_circuit, get_state, enter}
use nexora_gateway.Routing.Scorer.{RouteScore, default_preferences, score}
use nexora_gateway.Routing.Registry.{RouteProvider, Registry}
use nexora_gateway.Routing.Engine.{
  default_engine_config, no_valid_quotes, fetch_quotes, valid_at, select_best_route,
}
use nexora_gateway.Routing.Engine.Best.{IsServed, IsBest, select_best_route-IsBest}

abbrev request : RouteQuoteParams
request = record {
  source_chain = 3;
  source_asset = 2;
  source_amount = pos 100;
  target_chain = 4;
  target_asset = 2;
  target_amount = pos 99;
}

abbrev offer : Name → ℕ → RouteQuote
offer provider fee = record {
  id = provider;
  provider = provider;
  source_chain = 3;
  source_asset = 2;
  source_amount = pos 100;
  target_chain = 4;
  target_asset = 2;
  target_amount = pos 99;
  steps = [];
  estimated_fee = pos fee;
  estimated_time = pos 60;
  security_score = pos 90;
  reliability_score = pos 95;
  expires_at = 1000;
}

abbrev provider : Name → ℕ → ℕ → RouteProvider
provider n fee took = record {
  name = n;
  supported_chains = 3 ∷ 4 ∷ [];
  reports_health = true;
  options = default_options;
  circuit = new_circuit;
  fetch_quote = λ p. record { took = took; value = some (offer n fee) };
  execute_raw = λ q. record {
    took = 1;
    value = some (record {
      execution_id = 1;
      status = completed;
      transaction_hashes = [];
      actual_fee = pos fee;
      actual_time = pos 60;
    });
  };
}

-- The cheapest is too slow.
abbrev registry : Registry
registry = provider 1 500000000 10 ∷ provider 2 200000000 20 ∷ provider 3 0 9000 ∷ []

cheaper_wins :
    (select_best_route default_engine_config default_preferences 0 30 request registry).0
    ≡ ok (offer 2 200000000, score default_preferences (offer 2 200000000))
unfolding select_best_route get_state enter
cheaper_wins = refl

select_best_route-IsBest_example :
    let valid = valid_at 30 (fetch_quotes default_engine_config 0 request registry).0 in
    let result =
      (select_best_route default_engine_config default_preferences 0 30 request registry).0 in
    ((q : RouteQuote) × (s : RouteScore) × (result ≡ ok (q, s))
      × IsServed default_engine_config 0 request registry q
      × (ltb 30 q.expires_at ≡ true)
      × IsBest default_preferences (q, s) valid
      × (ltb (length valid) 1 ≡ false))
    ⊎ ((result ≡ err no_valid_quotes) × ((length valid < 1) ⊎ (valid ≡ [])))
select_best_route-IsBest_example =
    select_best_route-IsBest default_engine_config default_preferences 0 30 request registry
