-- ===== src/Compliance/BasicScorer.antt =====
-- packages/rate-lock/src/basic-risk-scorer.ts: the screening of an address and of a transaction, and the
-- the cache of the scores.
use nexora_gateway.Prelude.{
  ℕ, ◌+◌, ◌*◌, ◌%◌, Bool, ◌&&◌, List, [], ◌∷◌, Option, none, some, ◌==◌, ltb, leb, if◌then◌else◌,
  min,
}
use nexora_gateway.Prelude.Int.{ℤ, pos, pos_part, ltb_ℤ}
use nexora_gateway.Intent.Data.{Name}
use nexora_gateway.Compliance.{
  RiskLevel, RiskFlag, sanctioned, new_address, RiskResult, TransactionInfo,
}
use nexora_gateway.Compliance.Factors.{
  BasicRiskScorerConfig, Env, calculate_risk_factors, determine_risk_level, extract_flags,
  total_score,
}

pub record CacheEntry : Type 0 where
  pub address : Name
  pub chain : Name
  pub score : ℕ
  pub expires_at : ℕ

abbrev pub is_key : Name → Name → CacheEntry → Bool
is_key address chain e = e.address == address && e.chain == chain

unfoldable pub cached : Name → Name → List CacheEntry → Option CacheEntry
cached address chain [] = none
cached address chain (e ∷ es) = if is_key address chain e then some e else cached address chain es

-- `cache.set`: the newest entry of a key stands first.
unfoldable pub remember : CacheEntry → List CacheEntry → List CacheEntry
remember e es = e ∷ es

abbrev result : Name → Name → ℕ → RiskLevel → List RiskFlag → RiskResult
result address chain score level flags = record {
  address = address;
  chain = chain;
  risk_score = score;
  risk_level = level;
  flags = flags;
}

unfoldable pub build_cached_result : BasicRiskScorerConfig → Name → Name → ℕ → RiskResult
unfolding determine_risk_level
build_cached_result c address chain score =
    result address chain score (determine_risk_level c score)
      (if leb 8000 score then sanctioned ∷ [] else if leb 6000 score then new_address ∷ [] else [])

unfoldable pub build_fresh_result : BasicRiskScorerConfig → Env → Name → Name → RiskResult
unfolding calculate_risk_factors total_score determine_risk_level extract_flags
build_fresh_result c env address chain =
    let fs = calculate_risk_factors c env address chain in
    result address chain (total_score fs) (determine_risk_level c (total_score fs))
      (extract_flags fs)

abbrev pub live : ℕ → Option CacheEntry → Option CacheEntry
live now none = none
live now (some e) = if ltb now e.expires_at then some e else none

unfoldable pub answer_with :
    BasicRiskScorerConfig
    → Env
    → Name
    → Name
    → List CacheEntry
    → Option CacheEntry
    → RiskResult × List CacheEntry
unfolding build_cached_result build_fresh_result
answer_with c env address chain cache (some e) =
    (build_cached_result c address chain e.score, cache)
answer_with c env address chain cache none =
    let fresh = build_fresh_result c env address chain in
    (
      fresh,
      remember
          (record {
            address = env.to_lower_case address;
            chain = chain;
            score = fresh.risk_score;
            expires_at = env.now + c.cache_ttl_seconds * 1000;
          })
          cache,
    )

-- `screenAddress`, with the cache afterwards.
unfoldable pub screen_address :
    BasicRiskScorerConfig → Env → Name → Name → List CacheEntry → RiskResult × List CacheEntry
unfolding answer_with cached remember
screen_address c env address chain cache =
    answer_with c env address chain cache
      (live env.now (cached (env.to_lower_case address) chain cache))

-- A hundred thousand USD, and a thousand.
abbrev large_transaction : ℤ
large_transaction = pos 10000000000000

unfoldable pub calculate_transaction_risk : ℤ → ℕ
calculate_transaction_risk amount =
    (if ltb_ℤ large_transaction amount then 1000 else 0)
    + (if pos_part amount % 100000000000 == 0 && ltb_ℤ (pos 0) amount then 500 else 0)

unfoldable pub screen_transaction :
    BasicRiskScorerConfig → Env → TransactionInfo → List CacheEntry → RiskResult × List CacheEntry
unfolding screen_address calculate_transaction_risk determine_risk_level
screen_transaction c env tx cache =
    let (source, cache') = screen_address c env tx.from tx.chain cache in
    let score = min 10000 (source.risk_score + calculate_transaction_risk tx.amount) in
    (result source.address source.chain score (determine_risk_level c score) source.flags, cache')
