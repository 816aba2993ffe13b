-- ===== src/Routing/Scorer.antt =====
-- packages/routing-engine/src/route-scorer.ts. A score that is a fraction in the code is its
-- numerator: the fee score over max_fee, the time score over max_time, the other two over 100, and
-- the total over the product of these and of 100 for the weights. So totals compare as the exact
-- fractions do, where the limits are positive.
use nexora_gateway.Prelude.{
  ℕ, ◌+◌, ◌-◌, ◌*◌, min, List, [], ◌∷◌, map, Option, none, some, leb, if◌then◌else◌,
}
use nexora_gateway.Prelude.Int.{ℤ, pos_part}
use nexora_gateway.Routing.Quotes.{RouteQuote, MerchantPreferences}

-- A fee limit of 100 USD, in 10⁻⁸ units.
abbrev pub default_preferences : MerchantPreferences
default_preferences = record {
  max_fee = 10000000000;
  max_time = 3600;
  fee_weight = 30;
  time_weight = 20;
  security_weight = 30;
  reliability_weight = 20;
}

pub record RouteScore : Type 0 where
  pub total_score : ℕ
  pub fee_score : ℕ
  pub time_score : ℕ
  pub security_score : ℕ
  pub reliability_score : ℕ

-- `Math.max(0, 1 - fee / max)`, and 1 for a fee that is not positive.
unfoldable pub normalize_fee_score : MerchantPreferences → ℤ → ℕ
normalize_fee_score p fee = p.max_fee - pos_part fee

unfoldable pub normalize_time_score : MerchantPreferences → ℤ → ℕ
normalize_time_score p time = p.max_time - pos_part time

-- `Math.max(0, Math.min(1, score / 100))`.
unfoldable pub normalize_security_score : ℤ → ℕ
normalize_security_score score = min 100 (pos_part score)

unfoldable pub normalize_reliability_score : ℤ → ℕ
normalize_reliability_score score = min 100 (pos_part score)

abbrev pub weighted : MerchantPreferences → ℕ → ℕ → ℕ → ℕ → ℕ
weighted p fee time security reliability =
    p.fee_weight * (fee * (p.max_time * 100))
    + p.time_weight * (time * (p.max_fee * 100))
    + p.security_weight * (security * (p.max_fee * p.max_time))
    + p.reliability_weight * (reliability * (p.max_fee * p.max_time))

unfoldable pub score : MerchantPreferences → RouteQuote → RouteScore
unfolding normalize_fee_score normalize_time_score normalize_security_score
    normalize_reliability_score
score p q =
    let fee = normalize_fee_score p q.estimated_fee in
    let time = normalize_time_score p q.estimated_time in
    let security = normalize_security_score q.security_score in
    let reliability = normalize_reliability_score q.reliability_score in
    record {
      total_score = weighted p fee time security reliability;
      fee_score = fee;
      time_score = time;
      security_score = security;
      reliability_score = reliability;
    }

abbrev pub Scored : Type 0
Scored = RouteQuote × RouteScore

-- A stable sort, the best first: among equal totals the earlier quote stays ahead.
unfoldable pub insert_by_total : Scored → List Scored → List Scored
insert_by_total x [] = x ∷ []
insert_by_total x (y ∷ ys) =
    if leb y.1.total_score x.1.total_score then x ∷ y ∷ ys else y ∷ insert_by_total x ys

unfoldable pub sort_by_total : List Scored → List Scored
unfolding insert_by_total
sort_by_total [] = []
sort_by_total (x ∷ xs) = insert_by_total x (sort_by_total xs)

unfoldable pub rank : MerchantPreferences → List RouteQuote → List Scored
unfolding score sort_by_total
rank p quotes = sort_by_total (map (λ q. (q, score p q)) quotes)

abbrev pub first : List Scored → Option Scored
first [] = none
first (x ∷ xs) = some x

unfoldable pub select_best : MerchantPreferences → List RouteQuote → Option Scored
unfolding rank
select_best p quotes = first (rank p quotes)
