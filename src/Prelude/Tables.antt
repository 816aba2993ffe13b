-- ===== src/Prelude/Tables.antt =====
-- A table whose rows have a key: reading the first row of a key, and `UPDATE … WHERE key = …`.
use Prim.Native.Nat.{ℕ}
use mathlib.Core.Path.{◌≡◌}
use mathlib.Core.List.{List, [], ◌∷◌}
use mathlib.Core.Option.{Option, none, some}
use native.Mathlib.Omega.{arith}
use nexora_gateway.Prelude.Tests.{if◌then◌else◌, ◌==◌}

module _ {ℓ} {A : Type ℓ} (key : A → ℕ) where
  abbrev pub find_at : ℕ → List A → Option A
  find_at k [] = none
  find_at k (x ∷ xs) = if key x == k then some x else find_at k xs

  abbrev pub change_at : ℕ → (A → A) → List A → List A
  change_at k f [] = []
  change_at k f (x ∷ xs) = if key x == k then f x ∷ change_at k f xs else x ∷ change_at k f xs

module _ {ℓ} {A : Type ℓ} where
  abbrev pub on_found : (A → A) → Option A → Option A
  on_found f none = none
  on_found f (some x) = some (f x)

  pub find_at-change_at :
      (key : A → ℕ) (k j : ℕ) (f : A → A) (xs : List A)
      → ((x : A) → key (f x) ≡ key x)
      → find_at key j (change_at key k f xs)
        ≡ (if k == j then on_found f (find_at key j xs) else find_at key j xs)
  find_at-change_at key k j f [] keeps = ground arith
  find_at-change_at key k j f (x ∷ xs) keeps =
      ground (arith, keeps x, find_at-change_at key k j f xs keeps)

  pub find_at-key :
      (key : A → ℕ) (k : ℕ) (xs : List A) (x : A) → find_at key k xs ≡ some x → key x ≡ k
  find_at-key key k [] x h = cc
  find_at-key key k (y ∷ xs) x h = ground (arith, find_at-key key k xs x)
