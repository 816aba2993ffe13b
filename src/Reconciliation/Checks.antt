-- ===== src/Reconciliation/Checks.antt =====
-- packages/reconciliation/src/reconciliation.service.ts: the five checks. A join on a primary key
-- reads one row.
use nexora_gateway.Prelude.{
  ℕ, ◌+◌, ◌-◌, Bool, true, false, ◌&&◌, not, List, [], ◌∷◌, ◌++◌, map, Option, none, some, ◌==◌,
  ltb, if◌then◌else◌, keep_if, any_of, includes,
}
use nexora_gateway.Prelude.Int.{ℤ, pos, ◌+ℤ◌, ◌-ℤ◌, scale, ltb_ℤ}
use nexora_gateway.Intent.State.{settled, same_state}
use nexora_gateway.Intent.Data.{Name, PaymentIntent, MerchantConfig}
use nexora_gateway.Intent.Repository.{find_row}
use nexora_gateway.Intent.Webhook.{get_merchant}
use nexora_gateway.Ledger.{EntryType, settlement, fx_gain_loss, Ledger, revenue_fx, expense_fx, abs}
use nexora_gateway.Ledger.Queries.{sum_where, debits}
use nexora_gateway.Settlement.Repository.{SettlementStatus, completed, Settlement}
use nexora_gateway.Reconciliation.{
  DiscrepancyType, DiscrepancySeverity, Evidence, text, money, number, gains_and_losses,
  Discrepancy, Tables, Window, within, within?, medium, high, critical, amount_mismatch,
  missing_settlement, missing_ledger_entry, duplicate_settlement, fx_gain_loss_mismatch,
}

-- `createDiscrepancy`.
abbrev pub create_discrepancy :
    Name
    → ℕ
    → DiscrepancyType
    → DiscrepancySeverity
    → Option Name
    → Evidence
    → Evidence
    → Option ℤ
    → Discrepancy
create_discrepancy record_id now kind severity intent_id expected actual difference = record {
  record_id = record_id;
  kind = kind;
  severity = severity;
  intent_id = intent_id;
  expected = expected;
  actual = actual;
  difference = difference;
  detected_at = now;
}

abbrev pub has_settlement : List Settlement → Name → Bool
has_settlement settlements id = any_of (λ s. s.intent_id == id) settlements

unfoldable pub lacks_settlement : Window → Tables → PaymentIntent → Bool
lacks_settlement p db row =
    same_state row.state settled
    && not (has_settlement db.settlements row.id)
    && within p row.updated_at

unfoldable pub check_missing_settlements : Name → ℕ → Window → Tables → List Discrepancy
unfolding lacks_settlement
check_missing_settlements record_id now p db =
    map
      (λ row. create_discrepancy record_id now missing_settlement high (some row.id) text text none)
      (keep_if (lacks_settlement p db) db.intents)

abbrev pub is_completed : SettlementStatus → Bool
is_completed completed = true
is_completed _ = false

abbrev pub paid_in : Window → Settlement → Bool
paid_in p s = is_completed s.status && within? p s.completed_at

-- `targetAmount * (1 - feePercentage / 100)`, in 10⁻¹² units.
unfoldable pub expected_amount : PaymentIntent → MerchantConfig → ℤ
expected_amount row m = scale 10000 row.target_amount -ℤ scale m.fee_percentage row.target_amount

unfoldable pub deviation : PaymentIntent → MerchantConfig → Settlement → ℤ
unfolding expected_amount
deviation row m s = expected_amount row m -ℤ scale 10000 s.amount

-- `Math.abs(expected - actual) > expected * 0.0001`, multiplied by 10000.
unfoldable pub is_off : PaymentIntent → MerchantConfig → Settlement → Bool
unfolding deviation
is_off row m s = ltb_ℤ (expected_amount row m) (scale 10000 (abs (deviation row m s)))

unfoldable pub mismatch_of :
    Name → ℕ → Settlement → Option PaymentIntent → Option MerchantConfig → List Discrepancy
unfolding is_off
mismatch_of record_id now s (some row) (some m) =
    if is_off row m s
    then create_discrepancy record_id now amount_mismatch high (some s.intent_id)
        (money (expected_amount row m)) (money (scale 10000 s.amount)) (some (deviation row m s))
      ∷ []
    else []
mismatch_of record_id now s _ _ = []

abbrev pub merchant_of : List MerchantConfig → Option PaymentIntent → Option MerchantConfig
merchant_of ms none = none
merchant_of ms (some row) = get_merchant row.merchant_id ms

unfoldable pub mismatch : Name → ℕ → Window → Tables → Settlement → List Discrepancy
unfolding mismatch_of
mismatch record_id now p db s =
    let row = find_row s.intent_id db.intents in
    if paid_in p s then mismatch_of record_id now s row (merchant_of db.merchants row) else []

unfoldable pub mismatches : Name → ℕ → Window → Tables → List Settlement → List Discrepancy
unfolding mismatch
mismatches record_id now p db [] = []
mismatches record_id now p db (s ∷ ss) =
    mismatch record_id now p db s ++ mismatches record_id now p db ss

unfoldable pub check_amount_mismatches : Name → ℕ → Window → Tables → List Discrepancy
unfolding mismatches
check_amount_mismatches record_id now p db = mismatches record_id now p db db.settlements

abbrev pub made_in : Window → List Settlement → List Settlement
made_in p = keep_if (λ s. within p s.created_at)

-- `COUNT(*)` of one group.
unfoldable pub count_for : Name → List Settlement → ℕ
count_for id [] = 0
count_for id (s ∷ ss) = if s.intent_id == id then 1 + count_for id ss else count_for id ss

-- `GROUP BY intent_id`: each intent once.
unfoldable pub groups : List Settlement → List Name
groups [] = []
groups (s ∷ ss) = if includes (groups ss) s.intent_id then groups ss else s.intent_id ∷ groups ss

unfoldable pub check_duplicate_settlements : Name → ℕ → Window → Tables → List Discrepancy
unfolding count_for groups
check_duplicate_settlements record_id now p db =
    let rows = made_in p db.settlements in
    map
      (λ id.
        create_discrepancy record_id now duplicate_settlement critical (some id) (number 1)
          (number (count_for id rows)) (some (pos (count_for id rows - 1))))
      (keep_if (λ id. ltb 1 (count_for id rows)) (groups rows))

abbrev pub is_settlement : EntryType → Bool
is_settlement settlement = true
is_settlement _ = false

abbrev pub has_entry : Ledger → Name → Bool
has_entry es id = any_of (λ e. e.intent_id == id && is_settlement e.entry_type) es

unfoldable pub lacks_entry : Window → Tables → Settlement → Bool
lacks_entry p db s = paid_in p s && not (has_entry db.ledger s.intent_id)

unfoldable pub check_missing_ledger_entries : Name → ℕ → Window → Tables → List Discrepancy
unfolding lacks_entry
check_missing_ledger_entries record_id now p db =
    map
      (λ s.
        create_discrepancy record_id now missing_ledger_entry high (some s.intent_id) text text
          none)
      (keep_if (lacks_entry p db) db.settlements)

abbrev pub is_fx : EntryType → Bool
is_fx fx_gain_loss = true
is_fx _ = false

abbrev pub fx_entries : Window → Ledger → Ledger
fx_entries p = keep_if (λ e. is_fx e.entry_type && within p e.created_at)

unfoldable pub total_gains : Window → Tables → ℤ
unfolding sum_where
total_gains p db = sum_where (debits revenue_fx) (fx_entries p db.ledger)

unfoldable pub total_losses : Window → Tables → ℤ
unfolding sum_where
total_losses p db = sum_where (debits expense_fx) (fx_entries p db.ledger)

-- `totalVolume > 0 && Math.abs(totalGains - totalLosses) / totalVolume > 0.1`.
unfoldable pub is_imbalanced : ℤ → ℤ → Bool
is_imbalanced gains losses =
    ltb_ℤ (pos 0) (gains +ℤ losses) && ltb_ℤ (gains +ℤ losses) (scale 10 (abs (gains -ℤ losses)))

unfoldable pub check_fx_gain_loss : Name → ℕ → Window → Tables → List Discrepancy
unfolding total_gains total_losses is_imbalanced
check_fx_gain_loss record_id now p db =
    let gains = total_gains p db in
    let losses = total_losses p db in
    if is_imbalanced gains losses
    then create_discrepancy record_id now fx_gain_loss_mismatch medium none text
        (gains_and_losses gains losses) (some (abs (gains -ℤ losses)))
      ∷ []
    else []
