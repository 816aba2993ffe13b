-- ===== src/Ledger/Queries.antt =====
-- The queries of packages/settlement/src/ledger.repository.ts and ledger.service.ts: balances,
-- statements, the consistency check, and the amount of a settlement.
use nexora_gateway.Prelude.{
  ℕ, ◌/◌, Bool, true, ◌&&◌, ◌||◌, [], ◌∷◌, ◌==◌, leb, if◌then◌else◌, keep_if,
}
use nexora_gateway.Prelude.Int.{ℤ, pos, negsuc, ◌+ℤ◌, ◌-ℤ◌, scale, ltb_ℤ}
use nexora_gateway.Intent.Data.{Name}
use nexora_gateway.Ledger.{Account, merchant, same_account, LedgerEntry, Ledger, abs}

-- `SUM(CASE WHEN test THEN amount ELSE 0 END)`, and 0 over no row.
unfoldable pub sum_where : (LedgerEntry → Bool) → Ledger → ℤ
sum_where p [] = pos 0
sum_where p (e ∷ es) = (if p e then e.amount else pos 0) +ℤ sum_where p es

abbrev pub debits : Account → LedgerEntry → Bool
debits a e = same_account e.debit_account a

abbrev pub credits : Account → LedgerEntry → Bool
credits a e = same_account e.credit_account a

abbrev pub touches : Account → Name → LedgerEntry → Bool
touches a asset e = (debits a e || credits a e) && e.asset == asset

unfoldable pub get_balance : Account → Name → Ledger → ℤ
get_balance a asset es =
    let rows = keep_if (touches a asset) es in
    sum_where (debits a) rows -ℤ sum_where (credits a) rows

unfoldable pub get_merchant_balance : Name → Name → Ledger → ℤ
unfolding get_balance
get_merchant_balance id = get_balance (merchant id)

-- `created_at BETWEEN $2 AND $3`.
abbrev between : ℕ → ℕ → ℕ → Bool
between from to t = leb from t && leb t to

unfoldable pub find_by_account : Account → ℕ → ℕ → Ledger → Ledger
find_by_account a from to =
    keep_if (λ e. (debits a e || credits a e) && between from to e.created_at)

pub record LedgerStatement : Type 0 where
  pub entries : Ledger
  pub total_debits : ℤ
  pub total_credits : ℤ
  pub closing_balance : ℤ

-- The loop of `getStatement`, on its two totals.
unfoldable pub add_totals : Account → Ledger → ℤ × ℤ → ℤ × ℤ
add_totals a [] totals = totals
add_totals a (e ∷ es) (total_debits, total_credits) = add_totals a es (
  if debits a e then total_debits +ℤ e.amount else total_debits,
  if credits a e then total_credits +ℤ e.amount else total_credits,
)

unfoldable pub get_statement : Account → ℕ → ℕ → Ledger → LedgerStatement
unfolding find_by_account add_totals
get_statement a from to es =
    let rows = find_by_account a from to es in
    let (total_debits, total_credits) = add_totals a rows (pos 0, pos 0) in
    record {
      entries = rows;
      total_debits = total_debits;
      total_credits = total_credits;
      closing_balance = total_debits -ℤ total_credits;
    }

pub record Consistency : Type 0 where
  pub is_consistent : Bool
  pub total_debits : ℤ
  pub total_credits : ℤ
  pub difference : ℤ

-- 0.0001 is 10 000 units.
unfoldable pub verify_consistency : Ledger → Consistency
unfolding abs
verify_consistency es =
    let total_debits = sum_where (λ e. true) es in
    let total_credits = sum_where (λ e. true) es in
    record {
      is_consistent = ltb_ℤ (abs (total_debits -ℤ total_credits)) (pos 10000);
      total_debits = total_debits;
      total_credits = total_credits;
      difference = total_debits -ℤ total_credits;
    }

unfoldable pub floor_div : ℤ → ℕ → ℤ
floor_div (pos n) d = pos (n / d)
floor_div (negsuc n) d = negsuc (n / d)

-- The fee is given in hundredths of a percent. `Math.round` takes a half upwards.
unfoldable pub calculate_settlement_amount : ℤ → ℕ → ℤ
unfolding floor_div
calculate_settlement_amount target fee_percentage =
    floor_div (scale 10000 target -ℤ scale fee_percentage target +ℤ pos 5000) 10000
