-- ===== src/Prelude/Action.antt =====
-- Effects: a method that reads and writes a store and may throw. A `throw` keeps the writes made
-- before it; `transaction` undoes them.
use mathlib.Core.Bool.{Bool, true, false}
use mathlib.Core.Option.{Option, none, some}
use mathlib.Core.Path.{◌≡◌, refl}
use mathlib.Core.Logic.{◌⊎◌, inl, inr}

pub data Result (E A : Type 0) : Type 0 where
  ok : A → Result E A
  err : E → Result E A

-- The state is given last, and comes back with the result.
abbrev pub Action : Type 0 → Type 0 → Type 0 → Type 0
Action S E A = S → Result E A × S

abbrev pub and_then : {S E A B : Type 0} → Result E A × S → (A → Action S E B) → Result E B × S
and_then (ok a, s) f = f a s
and_then (err e, s) f = (err e, s)

infixl 5 ◌>>=◌ ◌>>◌
abbrev pub ◌>>=◌ : {S E A B : Type 0} → Action S E A → (A → Action S E B) → Action S E B
◌>>=◌ m f s = and_then (m s) f

abbrev pub ◌>>◌ : {S E A B : Type 0} → Action S E A → Action S E B → Action S E B
◌>>◌ m k s = and_then (m s) (λ _. k)

abbrev pub pure : {S E A : Type 0} → A → Action S E A
pure a s = (ok a, s)

abbrev pub throw : {S E A : Type 0} → E → Action S E A
throw e s = (err e, s)

abbrev pub gets : {S E A : Type 0} → (S → A) → Action S E A
gets f s = (ok (f s), s)

abbrev pub modify : {S E : Type 0} → (S → S) → Action S E (Unit {0})
modify f s = (ok tt, f s)

abbrev pub throw_unless : {S E : Type 0} → Bool → E → Action S E (Unit {0})
throw_unless true e s = (ok tt, s)
throw_unless false e s = (err e, s)

abbrev pub or_throw : {S E A : Type 0} → Option A → E → Action S E A
or_throw none e s = (err e, s)
or_throw (some a) e s = (ok a, s)

abbrev pub commit : {S E A : Type 0} → S → Result E A × S → Result E A × S
commit before (ok a, s) = (ok a, s)
commit before (err e, s) = (err e, before)

-- A database transaction: rolled back when its body throws.
abbrev pub transaction : {S E A : Type 0} → Action S E A → Action S E A
transaction m s = commit s (m s)

abbrev pub handle : {S E A : Type 0} → Result E A × S → (E → Action S E A) → Result E A × S
handle (ok a, s) h = (ok a, s)
handle (err e, s) h = h e s

-- `try { m } catch (e) { h e }`.
abbrev pub catching : {S E A : Type 0} → Action S E A → (E → Action S E A) → Action S E A
catching m h s = handle (m s) h

pub Result-cases :
    {E A : Type 0} (r : Result E A) → ((a : A) × (r ≡ ok a)) ⊎ ((e : E) × (r ≡ err e))
Result-cases (ok a) = inl (a, refl)
Result-cases (err e) = inr (e, refl)
