-- ===== src/Reconciliation/Duplicates.antt =====
-- The groups of settlements by their intent.
use nexora_gateway.Prelude.{
  ℕ, ◌≤◌, ◌≡◌, ◌↔◌, refl, subst, Bool, true, false, ◌||◌, List, [], ◌∷◌, inl, inr, arith, ◌==◌, ltb,
  if◌then◌else◌, Bool-cases, keep_if, includes, All,
}
use nexora_gateway.Prelude.Selections.{keep_if-none}
use nexora_gateway.Intent.Data.{Name}
use nexora_gateway.Settlement.Repository.{Settlement}
use nexora_gateway.Reconciliation.Checks.{count_for, groups}

includes-All : (P : ℕ → Type 0) (xs : List ℕ) (a : ℕ) → All P xs → includes xs a ≡ true → P a
includes-All P [] a h i = absurd (cc)
includes-All P (x ∷ xs) a (h, hs) i = elim (Bool-cases (x == a)) [
  | inl same ↦ (let e : x ≡ a = ground arith in subst P e h)
  | inr other ↦ includes-All P xs a hs (rest other)
]
  where
    rest : (x == a) ≡ false → includes xs a ≡ true
    rest e = ground arith

All-intro : (P : ℕ → Type 0) (xs : List ℕ) → ((a : ℕ) → P a) → All P xs
All-intro P [] f = tt
All-intro P (x ∷ xs) f = (f x, All-intro P xs f)

-- An intent without a group has no settlement.
count_for-absent :
    (id : Name) (ss : List Settlement) → includes (groups ss) id ≡ false → count_for id ss ≡ 0
unfolding groups count_for
count_for-absent id [] h = refl
count_for-absent id (s ∷ ss) h = elim (Bool-cases (includes (groups ss) s.intent_id)) [
  | inl seen ↦ elim (Bool-cases (s.intent_id == id)) [
    | inl same ↦
        let e : s.intent_id ≡ id = ground arith in
        absurd (clash (subst (λ z. includes (groups ss) z ≡ true) e seen) (at_seen seen))
    | inr other ↦ rw other (count_for-absent id ss (at_seen seen))
  ]
  | inr new ↦ elim (Bool-cases (s.intent_id == id)) [
    | inl same ↦ absurd (first same (at_new new))
    | inr other ↦ rw other (count_for-absent id ss (later other (at_new new)))
  ]
]
  where
    clash : {b : Bool} → b ≡ true → b ≡ false → ⊥
    clash x y = cc

    at_seen : includes (groups ss) s.intent_id ≡ true → includes (groups ss) id ≡ false
    at_seen e =
        subst (λ t. includes (if t then groups ss else s.intent_id ∷ groups ss) id ≡ false) e h

    at_new :
        includes (groups ss) s.intent_id ≡ false
        → (s.intent_id == id || includes (groups ss) id) ≡ false
    at_new e =
        subst (λ t. includes (if t then groups ss else s.intent_id ∷ groups ss) id ≡ false) e h

    first : (s.intent_id == id) ≡ true → (s.intent_id == id || includes (groups ss) id) ≡ false → ⊥
    first e k = ground arith

    later :
        (s.intent_id == id) ≡ false
        → (s.intent_id == id || includes (groups ss) id) ≡ false
        → includes (groups ss) id ≡ false
    later e k = ground arith

-- No group has two rows exactly when no intent has two settlements.
pub unique_iff :
    (ss : List Settlement)
    → (keep_if (λ id. ltb 1 (count_for id ss)) (groups ss) ≡ [])
      ↔ ((id : Name) → count_for id ss ≤ 1)
unique_iff ss = (
  (λ e id. elim (Bool-cases (includes (groups ss) id)) [
    | inl there ↦ small (
        includes-All (λ a. ltb 1 (count_for a ss) ≡ false) (groups ss) id
          ((keep_if-none (λ a. ltb 1 (count_for a ss)) (groups ss)).0 e) there)
    | inr absent ↦ rw (count_for-absent id ss absent) (omega arith)
  ]),
  (λ h.
      (keep_if-none (λ a. ltb 1 (count_for a ss)) (groups ss)).1
        (All-intro (λ a. ltb 1 (count_for a ss) ≡ false) (groups ss) (λ a. large (h a)))),
)
  where
    small : {n : ℕ} → ltb 1 n ≡ false → n ≤ 1
    small e = ground arith

    large : {n : ℕ} → n ≤ 1 → ltb 1 n ≡ false
    large e = ground arith
