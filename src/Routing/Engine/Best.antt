-- ===== src/Routing/Engine/Best.antt =====
-- The route that the engine chooses.
use nexora_gateway.Prelude.{
  ℕ, ◌≤◌, ◌<◌, ◌≡◌, refl, sym, ap, ◌∙◌, subst, Bool, true, false, List, [], ◌∷◌, map, none, some,
  arith, inl, inr, ◌⊎◌, Bool-cases, Option-cases, ltb→lt, ltb, leb, if◌then◌else◌, length, All,
  AnyOf, Occurs, All-Occurs, All-append, All-keep_if, keep_if-All, leb→le,
}
use nexora_gateway.Prelude.Action.{Result, ok, err}
use nexora_gateway.Routing.Quotes.{RouteQuote, RouteQuoteParams, MerchantPreferences}
use nexora_gateway.Routing.Scorer.{
  Scored, RouteScore, score, insert_by_total, sort_by_total, rank, first, select_best,
}
use nexora_gateway.Routing.Registry.{Answer, RouteProvider, Registry, quote, guarded}
use nexora_gateway.Routing.CircuitBreaker.{CircuitBreaker, enter}
use nexora_gateway.Routing.Engine.{
  RouteEngineConfig, no_valid_quotes, in_time, ask_provider, is_candidate, fetch_quotes, valid_at,
  select_best_route,
}

abbrev total : Scored → ℕ
total x = x.1.total_score

-- The first of a list after an insertion is the inserted one or the first before, the larger.
abbrev Larger : Scored → Scored → Scored → Type 0
Larger x c b = ((x ≡ b) × (total c ≤ total x)) ⊎ ((c ≡ b) × (total x ≤ total c))

Larger-branch :
    (x y b : Scored) (ys : List Scored) (t : Bool)
    → leb (total y) (total x) ≡ t
    → first (if t then x ∷ y ∷ ys else y ∷ insert_by_total x ys) ≡ some b
    → Larger x y b
Larger-branch x y b ys true e h = inl (cc, leb→le (total y) (total x) e)
Larger-branch x y b ys false e h = inr (cc, ground arith)

first-insert :
    (x b : Scored) (ys : List Scored)
    → first (insert_by_total x ys) ≡ some b
    → ((ys ≡ []) × (x ≡ b)) ⊎ ((c : Scored) × (first ys ≡ some c) × Larger x c b)
unfolding insert_by_total
first-insert x b [] h = inl (refl, cc)
first-insert x b (y ∷ ys) h = inr (y, refl, Larger-branch x y b ys (leb (total y) (total x)) refl h)

first-insert-none : (x : Scored) (ys : List Scored) → first (insert_by_total x ys) ≡ none → ⊥
unfolding insert_by_total
first-insert-none x [] h = cc
first-insert-none x (y ∷ ys) h = branch (leb (total y) (total x)) h
  where
    branch : (t : Bool) → first (if t then x ∷ y ∷ ys else y ∷ insert_by_total x ys) ≡ none → ⊥
    branch true q = cc
    branch false q = cc

sort_empty : (P : Scored → Type 0) (xs : List Scored) → sort_by_total xs ≡ [] → All P xs
unfolding sort_by_total
sort_empty P [] h = tt
sort_empty P (x ∷ xs) h = absurd (first-insert-none x (sort_by_total xs) (ap first h))

All-le :
    (xs : List Scored) (c b : Scored)
    → total c ≤ total b
    → All (λ y. total y ≤ total c) xs
    → All (λ y. total y ≤ total b) xs
All-le [] c b h a = tt
All-le (x ∷ xs) c b h (a, rest) = (omega arith, All-le xs c b h rest)

-- The first of the sorted list is one of the list, and none has a larger total.
first-sort :
    (xs : List Scored) (b : Scored)
    → first (sort_by_total xs) ≡ some b
    → Occurs b xs × All (λ y. total y ≤ total b) xs
unfolding sort_by_total
first-sort [] b h = absurd (cc)
first-sort (x ∷ xs) b h = elim (first-insert x b (sort_by_total xs) h) [
  | inl (none_left, same) ↦
      (inl same, (rw same (omega arith), sort_empty (λ y. total y ≤ total b) xs none_left))
  | inr (c, top, inl (same, le)) ↦
      let (_, below) = first-sort xs c top in
      (
        inl same,
        (rw same (omega arith), All-le xs c b (subst (λ z. total c ≤ total z) same le) below),
      )
  | inr (c, top, inr (same, le)) ↦
      let (there, below) = first-sort xs c top in
      (
        inr (subst (λ z. Occurs z xs) same there),
        (
          subst (λ z. total x ≤ total z) same le,
          subst (λ z. All (λ y. total y ≤ total z) xs) same below,
        ),
      )
]

module _ (prefs : MerchantPreferences) where
  abbrev pair : RouteQuote → Scored
  pair q = (q, score prefs q)

  unpair-Occurs :
      (q : RouteQuote) (s : RouteScore) (qs : List RouteQuote)
      → Occurs (q, s) (map pair qs)
      → Occurs q qs × (s ≡ score prefs q)
  unpair-Occurs q s [] o = absurd o
  unpair-Occurs q s (x ∷ qs) (inl e) =
      (inl (ap (λ z. z.0) e), sym (ap (λ z. z.1) e) ∙ ap (λ z. score prefs z.0) e)
  unpair-Occurs q s (x ∷ qs) (inr o) =
      let (there, same) = unpair-Occurs q s qs o in (inr there, same)

  unpair-All :
      (P : Scored → Type 0) (qs : List RouteQuote) → All P (map pair qs) → All (λ q. P (pair q)) qs
  unpair-All P [] a = tt
  unpair-All P (q ∷ qs) (a, rest) = (a, unpair-All P qs rest)

  -- A quote of the list, with its score, that no quote of the list exceeds.
  abbrev pub IsBest : Scored → List RouteQuote → Type 0
  IsBest (q, s) qs =
      Occurs q qs × (s ≡ score prefs q) × All (λ x. (score prefs x).total_score ≤ s.total_score) qs

  select_best-IsBest :
      (qs : List RouteQuote) (b : Scored) → select_best prefs qs ≡ some b → IsBest b qs
  unfolding select_best rank
  select_best-IsBest qs (q, s) h =
      let (there, below) = first-sort (map pair qs) (q, s) h in
      let (at, same) = unpair-Occurs q s qs there in
      (at, same, unpair-All (λ y. total y ≤ s.total_score) qs below)

module _ (c : RouteEngineConfig) (now : ℕ) (params : RouteQuoteParams) where
  -- The provider was a candidate, and answered with the quote before the timeout.
  abbrev pub Served : RouteQuote → RouteProvider → Type 0
  Served q p =
      ((is_candidate c now params p).0 ≡ true)
      × ((p.fetch_quote params).value ≡ some q)
      × ((p.fetch_quote params).took < c.quote_timeout_ms)

  abbrev Answered : Answer RouteQuote → RouteQuote → Type 0
  Answered a q = (a.value ≡ some q) × (a.took < c.quote_timeout_ms)

  in_time-Answered : (a : Answer RouteQuote) → All (Answered a) (in_time c a)
  in_time-Answered a = elim (Bool-cases (ltb a.took c.quote_timeout_ms)) [
    | inr e ↦ rw e tt
    | inl e ↦ elim (Option-cases a.value) [
      | inl n ↦ rw (e, n) tt
      | inr (q, n) ↦ rw (e, n) ((refl, ltb→lt a.took c.quote_timeout_ms e), tt)
    ]
  ]

  guarded-Answered :
      (p : RouteProvider) (a : Answer RouteQuote) (x : Result ℕ (Unit {0}) × CircuitBreaker)
      → All (Answered a) (in_time c (guarded now p a x).0)
  guarded-Answered p a (ok _, b) = in_time-Answered a
  guarded-Answered p a (err wait, b) = elim (Bool-cases (ltb 0 c.quote_timeout_ms)) [
    | inl e ↦ rw e tt
    | inr e ↦ rw e tt
  ]

  candidate_fetch :
      (p : RouteProvider) → (is_candidate c now params p).1.fetch_quote ≡ p.fetch_quote
  unfolding is_candidate
  candidate_fetch p = ground arith

  -- Some provider of the registry served the quote.
  abbrev pub IsServed : Registry → RouteQuote → Type 0
  IsServed r q = AnyOf (Served q) r

  IsServed-later :
      (p : RouteProvider) (r : Registry) (qs : List RouteQuote)
      → All (IsServed r) qs
      → All (IsServed (p ∷ r)) qs
  IsServed-later p r [] h = tt
  IsServed-later p r (q ∷ qs) (h, hs) = (inr h, IsServed-later p r qs hs)

  IsServed-here :
      (p : RouteProvider) (r : Registry) (qs : List RouteQuote)
      → (is_candidate c now params p).0 ≡ true
      → All (Answered (p.fetch_quote params)) qs
      → All (IsServed (p ∷ r)) qs
  IsServed-here p r [] e h = tt
  IsServed-here p r (q ∷ qs) e (h, hs) = (inl (e, h.0, h.1), IsServed-here p r qs e hs)

  asked-Answered :
      (p p' : RouteProvider)
      → p'.fetch_quote ≡ p.fetch_quote
      → All (Answered (p.fetch_quote params)) (ask_provider c now params p').0
  unfolding ask_provider quote
  asked-Answered p p' e =
      subst (λ f. All (Answered (f params)) (ask_provider c now params p').0) e
        (guarded-Answered p' (p'.fetch_quote params) (enter p'.options now p'.circuit))

  fetch_quotes-IsServed : (r : Registry) → All (IsServed r) (fetch_quotes c now params r).0
  unfolding fetch_quotes
  fetch_quotes-IsServed [] = tt
  fetch_quotes-IsServed (p ∷ ps) = elim (Bool-cases (is_candidate c now params p).0) [
    | inl e ↦ rw e (
        All-append (IsServed (p ∷ ps)) (ask_provider c now params (is_candidate c now params p).1).0
          (fetch_quotes c now params ps).0
          (IsServed-here p ps (ask_provider c now params (is_candidate c now params p).1).0 e
            (asked-Answered p (is_candidate c now params p).1 (candidate_fetch p)))
          (IsServed-later p ps (fetch_quotes c now params ps).0 (fetch_quotes-IsServed ps)))
    | inr e ↦ rw e (IsServed-later p ps (fetch_quotes c now params ps).0 (fetch_quotes-IsServed ps))
  ]

no_best :
    (prefs : MerchantPreferences) (qs : List RouteQuote) → select_best prefs qs ≡ none → qs ≡ []
unfolding select_best rank sort_by_total
no_best prefs [] e = refl
no_best prefs (q ∷ qs) e =
    absurd (first-insert-none (pair prefs q) (sort_by_total (map (pair prefs) qs)) e)

-- A route that is chosen comes, before the timeout, from a provider that supports both chains and
-- is healthy where that is asked for; it has not expired, and its total score is as high as that
-- of every other unexpired quote, of which there are as many as required. The call throws only
-- where there are fewer, or none.
pub select_best_route-IsBest :
    (c : RouteEngineConfig) (prefs : MerchantPreferences) (now done : ℕ) (params : RouteQuoteParams)
    (r : Registry)
    → let valid = valid_at done (fetch_quotes c now params r).0 in
      let result = (select_best_route c prefs now done params r).0 in
      ((q : RouteQuote) × (s : RouteScore) × (result ≡ ok (q, s))
        × IsServed c now params r q
        × (ltb done q.expires_at ≡ true)
        × IsBest prefs (q, s) valid
        × (ltb (length valid) c.min_quotes_required ≡ false))
      ⊎ ((result ≡ err no_valid_quotes) × ((length valid < c.min_quotes_required) ⊎ (valid ≡ [])))
unfolding select_best_route
select_best_route-IsBest c prefs now done params r =
    let valid = valid_at done (fetch_quotes c now params r).0 in
    elim (Bool-cases (ltb (length valid) c.min_quotes_required)) [
      | inl few ↦ rw few (inr (refl, inl (ltb→lt (length valid) c.min_quotes_required few)))
      | inr enough ↦ elim (Option-cases (select_best prefs valid)) [
        | inl e ↦ rw (enough, e) (inr (refl, inr (no_best prefs valid e)))
        | inr ((q, s), e) ↦
            let best = select_best-IsBest prefs valid (q, s) e in
            rw (enough, e)
              (inl (
                q,
                s,
                refl,
                All-Occurs (IsServed c now params r) q valid
                    (All-keep_if (IsServed c now params r) (λ x. ltb done x.expires_at)
                      (fetch_quotes c now params r).0 (fetch_quotes-IsServed c now params r))
                    best.0,
                All-Occurs (λ x. ltb done x.expires_at ≡ true) q valid
                    (keep_if-All (λ x. ltb done x.expires_at) (fetch_quotes c now params r).0)
                    best.0,
                best,
                refl,
              ))
      ]
    ]
