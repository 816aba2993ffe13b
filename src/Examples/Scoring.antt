-- ===== src/Examples/Scoring.antt =====
-- The basic risk scorer on a listed address.
use nexora_gateway.Prelude.{ℕ, ◌≤◌, ◌≡◌, ◌⊎◌, refl, true, false, [], ◌∷◌, some, any_of, arith}
use nexora_gateway.Compliance.{critical}
use nexora_gateway.Compliance.Orchestrator.{is_sanctioned}
use nexora_gateway.Compliance.BasicScorer.{screen_address, cached}
use nexora_gateway.Compliance.Factors.{
  default_risk_config, Env, SanctionsAnswer, listed, unlisted, unavailable, simple_hash,
}
use nexora_gateway.Compliance.Listing.{screen_address_listing}
use nexora_gateway.Intent.Data.{Name}

abbrev check : Name → Name → SanctionsAnswer
check address chain = listed

abbrev at : ℕ → Env
at t = record {
  now = t;
  to_lower_case = λ n. n;
  codes = λ n. 48 ∷ 120 ∷ n ∷ [];
  sanctions_provider = some check;
}

-- The hash of '0xa'.
hash_of_0xa : simple_hash (48 ∷ 120 ∷ 97 ∷ []) ≡ 49945
unfolding simple_hash
hash_of_0xa = refl

screen_address_listing_example :
    let (first, cache') = screen_address default_risk_config (at 10) 97 3 [] in
    let (again, cache'') = screen_address default_risk_config (at 500) 97 3 cache' in
    let flagged = any_of is_sanctioned first.flags in
    (((check 97 3 ≡ listed) × (flagged ≡ true) × (first.risk_level ≡ critical))
      ⊎ (((check 97 3 ≡ unlisted) ⊎ (check 97 3 ≡ unavailable))
          × (flagged ≡ false)
          × (first.risk_score ≤ 4740)))
    × (any_of is_sanctioned again.flags ≡ flagged)
    × (again.risk_score ≡ first.risk_score)
    × (again.risk_level ≡ first.risk_level)
    × (cache'' ≡ cache')
unfolding cached
screen_address_listing_example =
    screen_address_listing (at 10) (at 500) 97 3 check [] refl refl refl (omega arith)
