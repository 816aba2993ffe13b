-- ===== src/Compliance/Listing.antt =====
-- What the basic scorer says of an address on a sanctions list, of one on none, and of one whose check
-- throws, at first and from its cache.
use nexora_gateway.Prelude.{
  ℕ, ◌+◌, ◌*◌, ◌/◌, ◌≤◌, ◌<◌, ◌≡◌, ◌⊎◌, refl, sym, ap, ◌∙◌, Bool, true, false, List, none, some,
  inl, inr, arith, leb, lt→ltb, ==_self, Bool-cases, any_of,
}
use nexora_gateway.Intent.Data.{Name}
use nexora_gateway.Compliance.{RiskResult, critical}
use nexora_gateway.Compliance.Orchestrator.{is_sanctioned}
use nexora_gateway.Compliance.BasicScorer.{
  CacheEntry, build_fresh_result, build_cached_result, answer_with, cached, remember, live,
  screen_address,
}
use nexora_gateway.Compliance.Factors.{
  default_risk_config, SanctionsAnswer, listed, unlisted, unavailable, Env, calculate_risk_factors,
  extract_flags, total_score, calculate_total_score, total_weight, weighted_sum,
  determine_risk_level, estimate_wallet_age, estimate_tx_count, estimate_volume,
}

abbrev is_listed : SanctionsAnswer → Bool
is_listed listed = true
is_listed _ = false

estimate_wallet_age_bound : (env : Env) (a : Name) → estimate_wallet_age env a ≤ 79
unfolding estimate_wallet_age
estimate_wallet_age_bound env a = omega arith

estimate_tx_count_bound : (env : Env) (a : Name) → estimate_tx_count env a ≤ 79
unfolding estimate_tx_count
estimate_tx_count_bound env a = omega arith

estimate_volume_bound : (env : Env) (a : Name) → estimate_volume env a ≤ 79
unfolding estimate_volume
estimate_volume_bound env a = omega arith

average_bound :
    (a b c : ℕ)
    → a ≤ 79
    → b ≤ 79
    → c ≤ 79
    → (200 * (0 + (a * 20 + (b * 20 + (c * 20 + 0)))) + 100) / 200 ≤ 4740
average_bound a b c x y z = omega arith

SanctionsAnswer-cases : (x : SanctionsAnswer) → (x ≡ listed) ⊎ (x ≡ unlisted) ⊎ (x ≡ unavailable)
SanctionsAnswer-cases listed = inl refl
SanctionsAnswer-cases unlisted = inr (inl refl)
SanctionsAnswer-cases unavailable = inr (inr refl)

below : (n a : ℕ) → a ≤ n → leb (n + 1) a ≡ false
below n a h = ground arith

module _ (env : Env) (address chain : Name) (check : Name → Name → SanctionsAnswer)
    (provider : env.sanctions_provider ≡ some check) where
  abbrev fresh : RiskResult
  fresh = build_fresh_result default_risk_config env address chain

  fresh-listed :
      check address chain ≡ listed
      → (fresh.risk_score ≡ 10000)
        × (fresh.risk_level ≡ critical)
        × (any_of is_sanctioned fresh.flags ≡ true)
  unfolding build_fresh_result calculate_risk_factors total_score extract_flags determine_risk_level
  fresh-listed e = rw provider (rw e (refl, refl, refl))

  fresh-unlisted :
      is_listed (check address chain) ≡ false
      → (fresh.risk_score ≤ 4740) × (any_of is_sanctioned fresh.flags ≡ false)
  unfolding build_fresh_result calculate_risk_factors total_score extract_flags
      calculate_total_score total_weight weighted_sum
  fresh-unlisted e = elim (SanctionsAnswer-cases (check address chain)) [
    | inl q ↦ absurd (was_listed q)
    | inr (inl q) ↦ rw provider (
        rw (q, young)
          (
            average_bound a b c (estimate_wallet_age_bound env address)
                (estimate_tx_count_bound env address) (estimate_volume_bound env address),
            refl,
          ))
    | inr (inr q) ↦ rw provider (
        rw (q, young)
          (
            average_bound a b c (estimate_wallet_age_bound env address)
                (estimate_tx_count_bound env address) (estimate_volume_bound env address),
            refl,
          ))
  ]
    where
      a : ℕ
      a = estimate_wallet_age env address

      b : ℕ
      b = estimate_tx_count env address

      c : ℕ
      c = estimate_volume env address

      young : leb 80 a ≡ false
      young = below 79 a (estimate_wallet_age_bound env address)

      was_listed : check address chain ≡ listed → ⊥
      was_listed q = clash (ap is_listed q ∙ refl)
        where
          clash : is_listed (check address chain) ≡ true → ⊥
          clash k = cc

-- What the cache says of a score.
cached_flags :
    (address chain : Name) (score : ℕ) (t : Bool)
    → leb 8000 score ≡ t
    → any_of is_sanctioned (build_cached_result default_risk_config address chain score).flags ≡ t
unfolding build_cached_result
cached_flags address chain score true e = rw e refl
cached_flags address chain score false e =
    rw e (elim (Bool-cases (leb 6000 score)) [ inl f ↦ rw f refl | inr f ↦ rw f refl ])

fresh_answer :
    (env : Env) (address chain : Name) (cache : List CacheEntry)
    → live env.now (cached (env.to_lower_case address) chain cache) ≡ none
    → screen_address default_risk_config env address chain cache ≡ (
      build_fresh_result default_risk_config env address chain,
      remember
          (record {
            address = env.to_lower_case address;
            chain = chain;
            score = (build_fresh_result default_risk_config env address chain).risk_score;
            expires_at = env.now + 3600 * 1000;
          })
          cache,
    )
unfolding screen_address answer_with
fresh_answer env address chain cache e = rw (screen_address, e) refl

cached_answer :
    (env : Env) (address chain : Name) (score until : ℕ) (cache : List CacheEntry)
    → env.now < until
    → let cache' =
        remember
          (record {
            address = env.to_lower_case address;
            chain = chain;
            score = score;
            expires_at = until;
          })
          cache in
      screen_address default_risk_config env address chain cache'
      ≡ (build_cached_result default_risk_config address chain score, cache')
unfolding screen_address answer_with remember cached
cached_answer env address chain score until cache e =
    rw (==_self (env.to_lower_case address), ==_self chain) (rw (lt→ltb env.now until e) refl)

-- With a sanctions provider and the default weights, for an address without a live entry in the cache:
-- it is flagged as sanctioned exactly when the provider answers that it is on a list, on the first
-- screening and on a second one from the cache, within its time; score and level are the same both
-- times; an address on a list is critical. One on no list, and as well one whose check throws, has no
-- such flag and scores at most 47.4 points.
pub screen_address_listing :
    (env later : Env) (address chain : Name) (check : Name → Name → SanctionsAnswer)
    (cache : List CacheEntry)
    → env.sanctions_provider ≡ some check
    → live env.now (cached (env.to_lower_case address) chain cache) ≡ none
    → later.to_lower_case address ≡ env.to_lower_case address
    → later.now < env.now + 3600 * 1000
    → let (first, cache') = screen_address default_risk_config env address chain cache in
      let (again, cache'') = screen_address default_risk_config later address chain cache' in
      let flagged = any_of is_sanctioned first.flags in
      (((check address chain ≡ listed) × (flagged ≡ true) × (first.risk_level ≡ critical))
        ⊎ (((check address chain ≡ unlisted) ⊎ (check address chain ≡ unavailable))
            × (flagged ≡ false)
            × (first.risk_score ≤ 4740)))
      × (any_of is_sanctioned again.flags ≡ flagged)
      × (again.risk_score ≡ first.risk_score)
      × (again.risk_level ≡ first.risk_level)
      × (cache'' ≡ cache')
unfolding build_cached_result build_fresh_result
screen_address_listing env later address chain check cache provider absent same soon =
    let x = (build_fresh_result default_risk_config env address chain).risk_score in
    let again = cached_answer later address chain x (env.now + 3600 * 1000) cache soon in
    rw (fresh_answer env address chain cache absent) (
      rw (sym same) (
        rw again (elim (SanctionsAnswer-cases (check address chain)) [
          | inl q ↦
              let (score, level, flag) = fresh-listed env address chain check provider q in
              (
                inl (q, flag, level),
                cached_flags address chain x true (above x score) ∙ sym flag,
                refl,
                refl,
                refl,
              )
          | inr q ↦
              let (score, flag) =
                fresh-unlisted env address chain check provider
                  (unlisted_if (check address chain) q) in
              (
                inr (q, flag, score),
                cached_flags address chain x false (under x score) ∙ sym flag,
                refl,
                refl,
                refl,
              )
        ])))
  where
    unlisted_if : (a : SanctionsAnswer) → (a ≡ unlisted) ⊎ (a ≡ unavailable) → is_listed a ≡ false
    unlisted_if listed (inl h) = cc
    unlisted_if listed (inr h) = cc
    unlisted_if unlisted h = refl
    unlisted_if unavailable h = refl

    above : (n : ℕ) → n ≡ 10000 → leb 8000 n ≡ true
    above n h = ground arith

    under : (n : ℕ) → n ≤ 4740 → leb 8000 n ≡ false
    under n h = ground arith
