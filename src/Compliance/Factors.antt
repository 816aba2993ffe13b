-- ===== src/Compliance/Factors.antt =====
-- packages/rate-lock/src/basic-risk-scorer.ts: the risk factors of an address, with the hash behind them,
-- and the total score. The codes of a text and its lower case are parameters, and so is the sanctions
-- provider. Weights and scores of a factor are in hundredths and in points; the total is in hundredths
-- of a point.
use nexora_gateway.Prelude.{
  ℕ, ◌+◌, ◌-◌, ◌*◌, ◌/◌, ◌%◌, ◌^◌, Bool, true, false, ◌&&◌, List, [], ◌∷◌, ◌++◌, Option, none, some,
  ◌==◌, ltb, leb, if◌then◌else◌,
}
use nexora_gateway.Intent.Data.{Name}
use nexora_gateway.Compliance.{
  RiskLevel, low, medium, high, critical, RiskFlag, sanctioned, new_address,
}

pub record BasicRiskScorerConfig : Type 0 where
  pub wallet_age_weight : ℕ
  pub tx_count_weight : ℕ
  pub volume_weight : ℕ
  pub sanctions_weight : ℕ
  pub high_risk_threshold : ℕ
  pub critical_risk_threshold : ℕ
  pub cache_ttl_seconds : ℕ

abbrev pub default_risk_config : BasicRiskScorerConfig
default_risk_config = record {
  wallet_age_weight = 20;
  tx_count_weight = 20;
  volume_weight = 20;
  sanctions_weight = 40;
  high_risk_threshold = 6000;
  critical_risk_threshold = 8000;
  cache_ttl_seconds = 3600;
}

-- What the provider says of an address: on a list, on none, or the call throws.
pub data SanctionsAnswer : Type 0 where
  listed unlisted unavailable : SanctionsAnswer

pub record Env : Type 0 where
  pub now : ℕ
  pub to_lower_case : Name → Name
  pub codes : Name → List ℕ  -- `charCodeAt`
  pub sanctions_provider : Option (Name → Name → SanctionsAnswer)

-- `hash = (hash << 5) - hash + char; hash |= 0`, as an unsigned number of 32 bits.
unfoldable pub hash_from : ℕ → List ℕ → ℕ
hash_from h [] = h
hash_from h (c ∷ cs) = hash_from ((31 * h + c) % 2 ^ 32) cs

-- `Math.abs` of the signed number.
abbrev pub signed_abs : ℕ → ℕ
signed_abs h = if ltb h (2 ^ 31) then h else 2 ^ 32 - h

unfoldable pub simple_hash : List ℕ → ℕ
unfolding hash_from
simple_hash cs = signed_abs (hash_from 0 cs)

-- ':txcount' and ':volume'.
abbrev pub tx_count_suffix : List ℕ
tx_count_suffix = 58 ∷ 116 ∷ 120 ∷ 99 ∷ 111 ∷ 117 ∷ 110 ∷ 116 ∷ []

abbrev pub volume_suffix : List ℕ
volume_suffix = 58 ∷ 118 ∷ 111 ∷ 108 ∷ 117 ∷ 109 ∷ 101 ∷ []

unfoldable pub estimate_wallet_age : Env → Name → ℕ
unfolding simple_hash
estimate_wallet_age env address = simple_hash (env.codes address) % 60 + 20

unfoldable pub estimate_tx_count : Env → Name → ℕ
unfolding simple_hash
estimate_tx_count env address = simple_hash (env.codes address ++ tx_count_suffix) % 70 + 10

unfoldable pub estimate_volume : Env → Name → ℕ
unfolding simple_hash
estimate_volume env address = simple_hash (env.codes address ++ volume_suffix) % 60 + 20

pub data FactorType : Type 0 where
  wallet_age tx_count volume sanctions : FactorType

pub record RiskFactor : Type 0 where
  pub kind : FactorType
  pub score : ℕ
  pub weight : ℕ

abbrev pub factor : FactorType → ℕ → ℕ → RiskFactor
factor kind score weight = record { kind = kind; score = score; weight = weight }

-- A check that fails counts as one that finds nothing.
abbrev pub sanctions_score : SanctionsAnswer → ℕ
sanctions_score listed = 100
sanctions_score unlisted = 0
sanctions_score unavailable = 0

abbrev pub sanctions_factors :
    BasicRiskScorerConfig → Option (Name → Name → SanctionsAnswer) → Name → Name → List RiskFactor
sanctions_factors c none address chain = []
sanctions_factors c (some check) address chain =
    factor sanctions (sanctions_score (check address chain)) c.sanctions_weight ∷ []

unfoldable pub calculate_risk_factors : BasicRiskScorerConfig → Env → Name → Name → List RiskFactor
unfolding estimate_wallet_age estimate_tx_count estimate_volume
calculate_risk_factors c env address chain =
    sanctions_factors c env.sanctions_provider address chain
    ++ factor wallet_age (estimate_wallet_age env address) c.wallet_age_weight
      ∷ factor tx_count (estimate_tx_count env address) c.tx_count_weight
      ∷ factor volume (estimate_volume env address) c.volume_weight
      ∷ []

unfoldable pub total_weight : List RiskFactor → ℕ
total_weight [] = 0
total_weight (f ∷ fs) = f.weight + total_weight fs

unfoldable pub weighted_sum : List RiskFactor → ℕ
weighted_sum [] = 0
weighted_sum (f ∷ fs) = f.score * f.weight + weighted_sum fs

-- `Math.round((weightedSum / totalWeight) * 100)`, halves upwards.
unfoldable pub calculate_total_score : List RiskFactor → ℕ
unfolding total_weight weighted_sum
calculate_total_score fs =
    if total_weight fs == 0
    then 0
    else (200 * weighted_sum fs + total_weight fs) / (2 * total_weight fs)

unfoldable pub determine_risk_level : BasicRiskScorerConfig → ℕ → RiskLevel
determine_risk_level c score =
    if leb c.critical_risk_threshold score
    then critical
    else if leb c.high_risk_threshold score
    then high
    else if leb 3000 score
    then medium
    else low

abbrev pub flag_of : RiskFactor → List RiskFlag → List RiskFlag
flag_of f rest = flag_for f.kind (leb 80 f.score) rest
  where
    flag_for : FactorType → Bool → List RiskFlag → List RiskFlag
    flag_for sanctions true rest = sanctioned ∷ rest
    flag_for wallet_age true rest = new_address ∷ rest
    flag_for _ _ rest = rest

unfoldable pub extract_flags : List RiskFactor → List RiskFlag
extract_flags [] = []
extract_flags (f ∷ fs) = flag_of f (extract_flags fs)

abbrev pub is_match : RiskFactor → Bool
is_match f = is_sanctions f.kind && leb 80 f.score
  where
    is_sanctions : FactorType → Bool
    is_sanctions sanctions = true
    is_sanctions _ = false

-- The sanctions factor is the first, if there is one.
abbrev pub has_sanctions_match : List RiskFactor → Bool
has_sanctions_match [] = false
has_sanctions_match (f ∷ fs) = is_match f

unfoldable pub total_score : List RiskFactor → ℕ
unfolding calculate_total_score
total_score fs = if has_sanctions_match fs then 10000 else calculate_total_score fs
