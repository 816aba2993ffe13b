-- ===== src/Ledger/Balances.antt =====
-- What one entry does to a balance, and the trial balance over all accounts.
use nexora_gateway.Prelude.{
  ℕ, ◌+◌, ◌≡◌, refl, true, false, List, [], ◌∷◌, ◌++◌, arith, ◌==◌, if◌then◌else◌, All, inl, inr,
  Bool-cases,
}
use nexora_gateway.Prelude.Int.{ℤ, pos, ◌+ℤ◌, ◌-ℤ◌, scale, int_laws}
use nexora_gateway.Intent.Data.{Name}
use nexora_gateway.Ledger.{Account, LedgerEntry, Ledger, same_account}
use nexora_gateway.Ledger.Queries.{sum_where, debits, credits, touches, get_balance}

-- The share of an entry in the balance of an account: debits count up and credits down.
abbrev pub signed : Account → Name → LedgerEntry → ℤ
signed a asset e =
    if e.asset == asset
    then (if debits a e then e.amount else pos 0) -ℤ (if credits a e then e.amount else pos 0)
    else pos 0

pub get_balance-cons :
    (a : Account) (asset : Name) (e : LedgerEntry) (es : Ledger)
    → get_balance a asset (e ∷ es) ≡ signed a asset e +ℤ get_balance a asset es
unfolding get_balance sum_where
get_balance-cons a asset e es = elim (Bool-cases (e.asset == asset)) [
  | inl here ↦ elim (Bool-cases (debits a e)) [
    | inl d ↦ elim (Bool-cases (credits a e)) [
      | inl c ↦ rw (d, here) (rw (d, c) (omega int_laws))
      | inr c ↦ rw (d, here) (rw (d, c) (omega int_laws))
    ]
    | inr d ↦ elim (Bool-cases (credits a e)) [
      | inl c ↦ rw (d, c, here) (rw (d, c) (omega int_laws))
      | inr c ↦ rw (d, c, here) (omega int_laws)
    ]
  ]
  | inr elsewhere ↦ rw (untouched elsewhere, elsewhere) (omega int_laws)
]
  where
    untouched : (e.asset == asset) ≡ false → touches a asset e ≡ false
    untouched h = ground arith

-- Appending an entry adds its share.
pub get_balance-append :
    (a : Account) (asset : Name) (es : Ledger) (e : LedgerEntry)
    → get_balance a asset (es ++ e ∷ []) ≡ get_balance a asset es +ℤ signed a asset e
get_balance-append a asset [] e =
    rw (get_balance-cons a asset e []) (swap (signed a asset e) (get_balance a asset []))
  where
    swap : (x y : ℤ) → x +ℤ y ≡ y +ℤ x
    swap x y = omega int_laws
get_balance-append a asset (x ∷ es) e =
    rw
      (
        get_balance-cons a asset x (es ++ e ∷ []),
        get_balance-cons a asset x es,
        get_balance-append a asset es e,
      )
      (regroup (signed a asset x) (get_balance a asset es) (signed a asset e))
  where
    regroup : (x y z : ℤ) → x +ℤ (y +ℤ z) ≡ x +ℤ y +ℤ z
    regroup x y z = omega int_laws

abbrev pub occurs : Account → List Account → ℕ
occurs d [] = 0
occurs d (a ∷ accts) = (if same_account d a then 1 else 0) + occurs d accts

-- The sum of the balances of a list of accounts.
abbrev pub trial_balance : List Account → Name → Ledger → ℤ
trial_balance [] asset es = pos 0
trial_balance (a ∷ accts) asset es = get_balance a asset es +ℤ trial_balance accts asset es

abbrev all_signed : List Account → Name → LedgerEntry → ℤ
all_signed [] asset e = pos 0
all_signed (a ∷ accts) asset e = signed a asset e +ℤ all_signed accts asset e

trial_balance-cons :
    (accts : List Account) (asset : Name) (e : LedgerEntry) (es : Ledger)
    → trial_balance accts asset (e ∷ es) ≡ all_signed accts asset e +ℤ trial_balance accts asset es
trial_balance-cons [] asset e es = omega int_laws
trial_balance-cons (a ∷ accts) asset e es =
    rw (get_balance-cons a asset e es, trial_balance-cons accts asset e es)
      (regroup (signed a asset e) (get_balance a asset es) (all_signed accts asset e)
        (trial_balance accts asset es))
  where
    regroup : (x y z w : ℤ) → x +ℤ y +ℤ (z +ℤ w) ≡ x +ℤ z +ℤ (y +ℤ w)
    regroup x y z w = omega int_laws

all_signed-elsewhere :
    (accts : List Account) (asset : Name) (e : LedgerEntry)
    → (e.asset == asset) ≡ false
    → all_signed accts asset e ≡ pos 0
all_signed-elsewhere [] asset e h = refl
all_signed-elsewhere (a ∷ accts) asset e h =
    rw (h, all_signed-elsewhere accts asset e h) (omega int_laws)

all_signed-here :
    (accts : List Account) (asset : Name) (e : LedgerEntry)
    → (e.asset == asset) ≡ true
    → all_signed accts asset e
      ≡ scale (occurs e.debit_account accts) e.amount
        -ℤ scale (occurs e.credit_account accts) e.amount
all_signed-here [] asset e h = omega int_laws
all_signed-here (a ∷ accts) asset e h =
    rw (h, all_signed-here accts asset e h)
      (elim (Bool-cases (debits a e)) [
        | inl d ↦ elim (Bool-cases (credits a e)) [
          | inl c ↦ rw (d, c) (omega int_laws)
          | inr c ↦ rw (d, c) (omega int_laws)
        ]
        | inr d ↦ elim (Bool-cases (credits a e)) [
          | inl c ↦ rw (d, c) (omega int_laws)
          | inr c ↦ rw (d, c) (omega int_laws)
        ]
      ])

-- The accounts of an entry are each on the list, once.
abbrev pub IsCharted : List Account → LedgerEntry → Type 0
IsCharted accts e = (occurs e.debit_account accts ≡ 1) × (occurs e.credit_account accts ≡ 1)

trial_balance-nil : (accts : List Account) (asset : Name) → trial_balance accts asset [] ≡ pos 0
unfolding get_balance sum_where
trial_balance-nil [] asset = refl
trial_balance-nil (a ∷ accts) asset = rw (trial_balance-nil accts asset) (omega int_laws)

-- Over a chart of accounts that has both accounts of every entry exactly once, the balances in
-- each asset, as the code computes them, add up to zero.
pub trial_balance_zero :
    (accts : List Account) (asset : Name) (es : Ledger)
    → All (IsCharted accts) es
    → trial_balance accts asset es ≡ pos 0
trial_balance_zero accts asset [] h = trial_balance-nil accts asset
trial_balance_zero accts asset (e ∷ es) h =
    rw (trial_balance-cons accts asset e es, trial_balance_zero accts asset es h.1)
      (elim (Bool-cases (e.asset == asset)) [
        | inl here ↦ rw (all_signed-here accts asset e here, h.0.0, h.0.1) (omega int_laws)
        | inr elsewhere ↦ rw (all_signed-elsewhere accts asset e elsewhere) (omega int_laws)
      ])
