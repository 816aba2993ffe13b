-- ===== src/Prelude/Selections.antt =====
-- When a selection from a list is empty, and predicates that agree on its elements.
use mathlib.Core.Path.{◌≡◌, refl}
use mathlib.Core.Logic.{◌↔◌, inl, inr}
use mathlib.Core.Bool.{Bool, true, false}
use mathlib.Core.List.{List, [], ◌∷◌, ◌++◌, map}
use nexora_gateway.Prelude.Tests.{Bool-cases}
use nexora_gateway.Prelude.Lists.{keep_if, any_of, All, AnyOf}

module _ {A : Type 0} where
  pub keep_if-none : (p : A → Bool) (xs : List A) → (keep_if p xs ≡ []) ↔ All (λ x. p x ≡ false) xs
  keep_if-none p [] = (λ h. tt, λ h. refl)
  keep_if-none p (x ∷ xs) = elim (Bool-cases (p x)) [
    | inl e ↦ rw e ((λ h. absurd (cons_nil h)), (λ h. absurd (true_false h.0)))
    | inr e ↦ rw e ((λ h. (refl, (keep_if-none p xs).0 h)), (λ h. (keep_if-none p xs).1 h.1))
  ]
    where
      cons_nil : {y : A} {ys : List A} → Path (List A) (y ∷ ys) [] → ⊥
      cons_nil h = cc

      true_false : true ≡ false → ⊥
      true_false h = cc

  pub map-none : {B : Type 0} (f : A → B) (xs : List A) → (map f xs ≡ []) ↔ (xs ≡ [])
  map-none f [] = (λ h. refl, λ h. refl)
  map-none f (x ∷ xs) = (λ h. absurd (cc), λ h. absurd (cc))

  pub append-none : (xs ys : List A) → (xs ++ ys ≡ []) ↔ ((xs ≡ []) × (ys ≡ []))
  append-none [] ys = (λ h. (refl, h), λ h. h.1)
  append-none (x ∷ xs) ys = (λ h. absurd (cc), λ h. absurd (cc (h.0)))

  pub All-iff : (P Q : A → Type 0) (xs : List A) → ((x : A) → P x ↔ Q x) → All P xs ↔ All Q xs
  All-iff P Q [] f = (λ h. tt, λ h. tt)
  All-iff P Q (x ∷ xs) f = (
    (λ h. ((f x).0 h.0, (All-iff P Q xs f).0 h.1)),
    (λ h. ((f x).1 h.0, (All-iff P Q xs f).1 h.1)),
  )

  pub any_of_iff :
      (p : A → Bool) (P : A → Type 0) (xs : List A)
      → ((x : A) → (p x ≡ true) ↔ P x)
      → (any_of p xs ≡ true) ↔ AnyOf P xs
  any_of_iff p P [] f = (λ h. cc, λ h. absurd h)
  any_of_iff p P (x ∷ xs) f = elim (Bool-cases (p x)) [
    | inl e ↦ rw e ((λ h. inl ((f x).0 e)), (λ h. refl))
    | inr e ↦ rw e (
      (λ h. inr ((any_of_iff p P xs f).0 h)),
      (λ h. elim h [
        | inl now ↦ absurd (clash ((f x).1 now) e)
        | inr later ↦ (any_of_iff p P xs f).1 later
      ]),
    )
  ]
    where
      clash : {b : Bool} → b ≡ true → b ≡ false → ⊥
      clash h k = cc

  -- The list that a check maps over a selection is empty when nothing is selected.
  pub selected-none :
      {B : Type 0} (f : A → B) (p : A → Bool) (P : A → Type 0) (xs : List A)
      → ((x : A) → (p x ≡ false) ↔ P x)
      → (map f (keep_if p xs) ≡ []) ↔ All P xs
  selected-none f p P xs h = (
    (λ e.
        (All-iff (λ x. p x ≡ false) P xs h).0
          ((keep_if-none p xs).0 ((map-none f (keep_if p xs)).0 e))),
    (λ a.
        (map-none f (keep_if p xs)).1
          ((keep_if-none p xs).1 ((All-iff (λ x. p x ≡ false) P xs h).1 a))),
  )
