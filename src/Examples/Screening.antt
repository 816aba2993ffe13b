-- ===== src/Examples/Screening.antt =====
-- Compliance screenings and recovery cases.
use nexora_gateway.Prelude.{◌≡◌, ◌⊎◌, refl, true, false, [], ◌∷◌, some, ◌==◌}
use nexora_gateway.Prelude.Int.{pos}
use nexora_gateway.Prelude.Action.{ok, err}
use nexora_gateway.Intent.Data.{Name}
use nexora_gateway.Compliance.{RiskScorer, high, screening_unavailable}
use nexora_gateway.Compliance.Records.{Desk, default_config}
use nexora_gateway.Compliance.Decisions.{Screening, of_intent, Throws, Decides, screen_fails_closed}
use nexora_gateway.Recovery.{RecoveryCase, overpaid, resolved, auto_refund, case_with}
use nexora_gateway.Recovery.Service.{ResolutionResult, resolve}
use nexora_gateway.Recovery.Detection.{Env}
use nexora_gateway.Recovery.Resolution.{IsResultOf, IsResolutionOf, resolve_outcome}

-- Every address is of a high risk; transactions cannot be screened.
abbrev scorer : RiskScorer
scorer = record {
  screen_address = λ address chain. ok (record {
    address = address;
    chain = chain;
    risk_score = 7500;
    risk_level = high;
    flags = [];
  });
  screen_transaction = λ tx. err (screening_unavailable 1);
}

abbrev desk : Desk
desk = record { windows = []; audit_log = [] }

-- 60000 USD.
abbrev request : Screening
request = of_intent 1 12 3 (pos 6000000000000)

screen_fails_closed_example :
    Throws default_config (λ n. n) scorer 10 request desk
    ⊎ Decides default_config (λ n. n) scorer 10 request desk
screen_fails_closed_example = screen_fails_closed default_config (λ n. n) scorer 10 request desk

abbrev env : Env
env = record {
  now = 50;
  chain_clients = record { chain_id = 3; validate_address = λ a. some true } ∷ [];
  stuck_transaction_timeout_ms = 1800000;
  top_up_link_ttl_seconds = 3600;
  is_signature = λ s. true;
  fresh_hash = λ n. 99;
}

-- A case that was refunded before.
abbrev refunded : RecoveryCase
refunded = record {
  id = 5;
  related_intent_id = some 1;
  case_type = overpaid;
  status = resolved;
  customer_address = 12;
  customer_chain = 3;
  intended_chain = 3;
  asset = 2;
  amount = pos 10;
  tx_hash = some 4;
  resolution_action = some auto_refund;
  resolution_tx_hash = some 98;
  created_at = 0;
  updated_at = 20;
  resolved_at = some 20;
}

resolve_outcome_example :
    let (result, db') = resolve env 5 auto_refund (refunded ∷ []) in
    ((x : ResolutionResult) × (result ≡ ok x) × IsResultOf env auto_refund refunded x)
    × ((q : RecoveryCase) × (case_with 5 db' ≡ some q) × IsResolutionOf env auto_refund refunded q)
    × ((k : Name) → (5 == k) ≡ false → case_with k db' ≡ case_with k (refunded ∷ []))
resolve_outcome_example = resolve_outcome env 5 auto_refund refunded (refunded ∷ []) refl
