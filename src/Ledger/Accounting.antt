-- ===== src/Ledger/Accounting.antt =====
-- What the ledger's queries promise, and what they do not.
use nexora_gateway.Prelude.{
  mul_le_mul, ℕ, ◌+◌, ◌*◌, ◌/◌, ◌-◌, ◌≤◌, ◌≡◌, refl, All, ==_self, ap, Bool, true, false, ◌&&◌, [],
  ◌∷◌, ◌++◌, arith, ◌==◌, if◌then◌else◌, keep_if, leb,
}
use nexora_gateway.Prelude.Int.{ℤ, pos, ◌+ℤ◌, ◌-ℤ◌, scale, ◌≤ℤ◌, int_laws}
use nexora_gateway.Intent.Data.{Name}
use nexora_gateway.Ledger.{
  Account, pending_intent, LedgerEntry, Ledger, abs, DepositRecord, PayoutRecord, record_deposit,
  record_settlement, create_entry, same_account, deposit_entry, payout_entry,
}
use nexora_gateway.Ledger.Queries.{
  sum_where, debits, credits, touches, get_balance, verify_consistency, add_totals, get_statement,
  find_by_account, calculate_settlement_amount, floor_div,
}
use nexora_gateway.Ledger.Balances.{get_balance-append}

minus_self : (x : ℤ) → x -ℤ x ≡ pos 0
minus_self x = omega int_laws

-- The consistency check passes on every ledger, with a difference of zero.
pub verify_consistency_blind :
    (es : Ledger)
    → ((verify_consistency es).is_consistent ≡ true) × ((verify_consistency es).difference ≡ pos 0)
unfolding verify_consistency abs
verify_consistency_blind es =
    (rw (minus_self (sum_where (λ e. true) es)) refl, minus_self (sum_where (λ e. true) es))

-- A deposit and then a settlement of the same intent and asset leave the balance of the intent's
-- pending account higher by both amounts.
pub record_settlement_adds :
    (i j : Name) (now later : ℕ) (d : DepositRecord) (p : PayoutRecord) (es : Ledger)
    → p.intent_id ≡ d.intent_id
    → p.asset ≡ d.asset
    → get_balance
        (pending_intent d.intent_id)
        d.asset
        (record_settlement j later p (record_deposit i now d es).1).1
      ≡ get_balance (pending_intent d.intent_id) d.asset es +ℤ d.amount +ℤ p.amount
unfolding record_deposit record_settlement create_entry same_account
record_settlement_adds i j now later d p es same_intent same_asset =
    rw
      (
        get_balance-append (pending_intent d.intent_id) d.asset (es ++ deposit_entry i now d ∷ [])
            (payout_entry j later p),
        get_balance-append (pending_intent d.intent_id) d.asset es (deposit_entry i now d),
        same_intent,
        same_asset,
        ==_self d.asset,
        ==_self d.intent_id,
      )
      (without_credits (get_balance (pending_intent d.intent_id) d.asset es) d.amount p.amount)
  where
    without_credits : (x y z : ℤ) → x +ℤ (y -ℤ pos 0) +ℤ (z -ℤ pos 0) ≡ x +ℤ y +ℤ z
    without_credits x y z = omega int_laws

totals_lem :
    (a : Account) (es : Ledger) (d c : ℤ)
    → add_totals a es (d, c) ≡ (d +ℤ sum_where (debits a) es, c +ℤ sum_where (credits a) es)
unfolding add_totals sum_where
totals_lem a [] d c = rw (plus_zero d, plus_zero c) refl
  where
    plus_zero : (x : ℤ) → x +ℤ pos 0 ≡ x
    plus_zero x = omega int_laws
totals_lem a (e ∷ es) d c =
    rw
      (totals_lem a es (if debits a e then d +ℤ e.amount else d)
        (if credits a e then c +ℤ e.amount else c))
      (rw
        (
          add_if (debits a e) d e.amount (sum_where (debits a) es),
          add_if (credits a e) c e.amount (sum_where (credits a) es),
        )
        refl)
  where
    add_if :
        (b : Bool) (x y z : ℤ)
        → (if b then x +ℤ y else x) +ℤ z ≡ x +ℤ ((if b then y else pos 0) +ℤ z)
    add_if true x y z = omega int_laws
    add_if false x y z = omega int_laws

-- The entries that a query on one asset and one period sees.
abbrev pub IsWithin : Name → ℕ → ℕ → LedgerEntry → Type 0
IsWithin asset from to e =
    ((e.asset == asset) ≡ true) × ((leb from e.created_at && leb e.created_at to) ≡ true)

same_rows :
    (a : Account) (asset : Name) (from to : ℕ) (es : Ledger)
    → All (IsWithin asset from to) es
    → find_by_account a from to es ≡ keep_if (touches a asset) es
unfolding find_by_account
same_rows a asset from to [] h = refl
same_rows a asset from to (e ∷ es) h = rw (h.0.0, h.0.1, same_rows a asset from to es h.1) refl

-- Where every entry is in one asset and falls in the period, the closing balance that a statement
-- adds up in its loop is the balance that the query computes.
pub get_statement-get_balance :
    (a : Account) (asset : Name) (from to : ℕ) (es : Ledger)
    → All (IsWithin asset from to) es
    → (get_statement a from to es).closing_balance ≡ get_balance a asset es
unfolding get_statement get_balance
get_statement-get_balance a asset from to es h =
    rw (same_rows a asset from to es h, totals_lem a (keep_if (touches a asset) es) (pos 0) (pos 0))
      (from_zero (sum_where (debits a) (keep_if (touches a asset) es))
        (sum_where (credits a) (keep_if (touches a asset) es)))
  where
    from_zero : (x y : ℤ) → (pos 0 +ℤ x) -ℤ (pos 0 +ℤ y) ≡ x -ℤ y
    from_zero x y = omega int_laws

settlement_lem :
    (target fee : ℕ)
    → fee ≤ 10000
    → calculate_settlement_amount (pos target) fee
      ≡ pos ((10000 * target - fee * target + 5000) / 10000)
unfolding calculate_settlement_amount floor_div
settlement_lem target fee h = rw exact refl
  where
    exact :
        scale 10000 (pos target) -ℤ scale fee (pos target) +ℤ pos 5000
        ≡ pos (10000 * target - fee * target + 5000)
    exact = omega (int_laws, mul_le_mul fee 10000 target h)

-- With a fee of at most 100 % the settlement of a target that is not negative is not negative and
-- at most the target, and without a fee it is the target.
pub calculate_settlement_amount_bounds :
    (target fee : ℕ)
    → fee ≤ 10000
    → (pos 0 ≤ℤ calculate_settlement_amount (pos target) fee)
      × (calculate_settlement_amount (pos target) fee ≤ℤ pos target)
      × (calculate_settlement_amount (pos target) 0 ≡ pos target)
calculate_settlement_amount_bounds target fee h = (
  rw (settlement_lem target fee h) (omega arith),
  rw (settlement_lem target fee h) (omega (arith, mul_le_mul fee 10000 target h)),
  rw (settlement_lem target 0 (omega arith)) (ap pos (omega arith)),
)
