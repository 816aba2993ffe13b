-- ===== src/Prelude/Lists.antt =====
-- Lists as tables and sets of names: measured by native numbers, searched by Boolean tests.
use Prim.Native.Nat.{ℕ, zero, suc, ◌+◌, ◌≤◌}
use mathlib.Core.Path.{◌≡◌, refl, subst}
use mathlib.Core.Logic.{◌⊎◌, inl, inr}
use mathlib.Core.Bool.{Bool, true, false, ◌||◌}
use mathlib.Core.List.{List, [], ◌∷◌, ◌++◌}
use mathlib.Core.Option.{Option, none, some}
use native.Mathlib.Omega.{arith}
use nexora_gateway.Prelude.Tests.{if◌then◌else◌, ◌==◌, Bool-cases}

module _ {ℓ} {A : Type ℓ} where
  abbrev pub length : List A → ℕ
  length [] = 0
  length (x ∷ xs) = suc (length xs)

  abbrev pub get_elem? : List A → ℕ → Option A
  get_elem? [] i = none
  get_elem? (x ∷ xs) zero = some x
  get_elem? (x ∷ xs) (suc i) = get_elem? xs i

  abbrev pub take : ℕ → List A → List A
  take zero xs = []
  take (suc n) [] = []
  take (suc n) (x ∷ xs) = x ∷ take n xs

  -- `xs.find(p)`, and `rows[0]` of a query.
  abbrev pub find_first : (A → Bool) → List A → Option A
  find_first p [] = none
  find_first p (x ∷ xs) = if p x then some x else find_first p xs

  -- `xs.filter(p)`, and the rows of a query.
  abbrev pub keep_if : (A → Bool) → List A → List A
  keep_if p [] = []
  keep_if p (x ∷ xs) = if p x then x ∷ keep_if p xs else keep_if p xs

  abbrev pub any_of : (A → Bool) → List A → Bool
  any_of p [] = false
  any_of p (x ∷ xs) = p x || any_of p xs

  -- Every element satisfies a predicate.
  abbrev pub All {κ} : (A → Type κ) → List A → Type κ
  All P [] = Unit
  All P (x ∷ xs) = P x × All P xs

  pub length-append : (xs ys : List A) → length (xs ++ ys) ≡ length xs + length ys
  length-append [] ys = omega arith
  length-append (x ∷ xs) ys = omega (arith, length-append xs ys)

  pub keep_if-append :
      (p : A → Bool) (xs ys : List A) → keep_if p (xs ++ ys) ≡ keep_if p xs ++ keep_if p ys
  keep_if-append p [] ys = refl
  keep_if-append p (x ∷ xs) ys = ground (arith, keep_if-append p xs ys)

  pub length-keep_if-le : (p : A → Bool) (xs : List A) → length (keep_if p xs) ≤ length xs
  length-keep_if-le p [] = omega arith
  length-keep_if-le p (x ∷ xs) = ground (arith, length-keep_if-le p xs)

  pub length-take-le : (n : ℕ) (xs : List A) → length (take n xs) ≤ n
  length-take-le zero xs = omega arith
  length-take-le (suc n) [] = omega arith
  length-take-le (suc n) (x ∷ xs) = omega (arith, length-take-le n xs)

-- `xs.includes(k)`, for names.
abbrev pub includes : List ℕ → ℕ → Bool
includes [] k = false
includes (x ∷ xs) k = x == k || includes xs k

module _ {A : Type 0} where
  -- Some element satisfies a predicate.
  abbrev pub AnyOf : (A → Type 0) → List A → Type 0
  AnyOf P [] = ⊥
  AnyOf P (x ∷ xs) = P x ⊎ AnyOf P xs

  -- An element of a list.
  abbrev pub Occurs : A → List A → Type 0
  Occurs a = AnyOf (λ x. x ≡ a)

  pub All-Occurs : (P : A → Type 0) (a : A) (xs : List A) → All P xs → Occurs a xs → P a
  All-Occurs P a [] h o = absurd o
  All-Occurs P a (x ∷ xs) (h, hs) (inl e) = subst P e h
  All-Occurs P a (x ∷ xs) (h, hs) (inr o) = All-Occurs P a xs hs o

  pub All-append : (P : A → Type 0) (xs ys : List A) → All P xs → All P ys → All P (xs ++ ys)
  All-append P [] ys h k = k
  All-append P (x ∷ xs) ys (h, hs) k = (h, All-append P xs ys hs k)

  pub All-keep_if : (P : A → Type 0) (p : A → Bool) (xs : List A) → All P xs → All P (keep_if p xs)
  All-keep_if P p [] h = tt
  All-keep_if P p (x ∷ xs) (h, hs) = elim (Bool-cases (p x)) [
    | inl e ↦ rw e (h, All-keep_if P p xs hs)
    | inr e ↦ rw e (All-keep_if P p xs hs)
  ]

  -- The elements that a test keeps pass it.
  pub keep_if-All : (p : A → Bool) (xs : List A) → All (λ x. p x ≡ true) (keep_if p xs)
  keep_if-All p [] = tt
  keep_if-All p (x ∷ xs) = elim (Bool-cases (p x)) [
    | inl e ↦ rw e (e, keep_if-All p xs)
    | inr e ↦ rw e (keep_if-All p xs)
  ]
