-- ===== src/Reconciliation/Run.antt =====
-- packages/reconciliation/src/reconciliation.service.ts: a reconciliation of a period, and the
-- export of its record. The clock is read once in a run.
use nexora_gateway.Prelude.{
  ℕ, Bool, true, false, ◌&&◌, List, [], ◌∷◌, ◌++◌, Option, none, some, ◌==◌, ltb, leb,
  if◌then◌else◌, keep_if, find_at, change_at, length,
}
use nexora_gateway.Prelude.Int.{ℤ, pos, ◌+ℤ◌, ◌-ℤ◌}
use nexora_gateway.Prelude.Action.{Action, ◌>>=◌, ◌>>◌, pure, gets, modify, throw_unless, or_throw}
use nexora_gateway.Intent.State.{
  IntentState, created, quoted, awaiting_payment, detected, confirming, routing, settling, settled,
  same_state, state_in,
}
use nexora_gateway.Intent.State
use nexora_gateway.Intent.Data.{Name, PaymentIntent}
use nexora_gateway.Ledger.{EntryType, fee}
use nexora_gateway.Ledger.Queries.{sum_where}
use nexora_gateway.Settlement.Repository.{Settlement}
use nexora_gateway.Reconciliation.{
  ReconciliationPeriod, ReconciliationStatus, in_progress, completed, discrepancy_found,
  DiscrepancyType, DiscrepancySeverity, low, medium, high, critical, Discrepancy, RecordRow, Tables,
  Window, within, amount_mismatch, missing_settlement, missing_ledger_entry, duplicate_settlement,
  fx_gain_loss_mismatch, fee_calculation_error, on_chain_mismatch,
}
use nexora_gateway.Reconciliation.Checks.{
  is_completed, made_in, total_gains, total_losses, check_missing_settlements,
  check_amount_mismatches, check_duplicate_settlements, check_missing_ledger_entries,
  check_fx_gain_loss,
}

-- The record's key is taken, or no record has it.
pub data ReconciliationError : Type 0 where
  duplicate_record record_not_found_after_update record_not_found : Name → ReconciliationError

abbrev pub Run : Type 0 → Type 0
Run = Action Tables ReconciliationError

pub record IntentCounts : Type 0 where
  pub total : ℕ
  pub settled : ℕ
  pub pending : ℕ
  pub failed : ℕ

abbrev open_states : List IntentState
open_states = created ∷ quoted ∷ awaiting_payment ∷ detected ∷ confirming ∷ routing ∷ settling ∷ []

-- `getIntentCounts`.
unfoldable pub get_intent_counts : Window → List PaymentIntent → IntentCounts
get_intent_counts p intents =
    let rows = keep_if (λ r. within p r.created_at) intents in
    record {
      total = length rows;
      settled = length (keep_if (λ r. same_state r.state settled) rows);
      pending = length (keep_if (λ r. state_in open_states r.state) rows);
      failed = length (keep_if (λ r. same_state r.state State.failed) rows);
    }

unfoldable pub new_record :
    Name → ℕ → ReconciliationPeriod → Window → List PaymentIntent → RecordRow
unfolding get_intent_counts
new_record id now period p intents =
    let counts = get_intent_counts p intents in
    record {
      id = id;
      period = period;
      start_date = p.start_date;
      end_date = p.end_date;
      status = in_progress;
      total_intents = counts.total;
      total_settled = counts.settled;
      total_pending = counts.pending;
      total_failed = counts.failed;
      total_discrepancies = 0;
      created_at = now;
      completed_at = none;
    }

abbrev pub is_absent : Option RecordRow → Bool
is_absent none = true
is_absent (some r) = false

abbrev pub record_with : Name → List RecordRow → Option RecordRow
record_with = find_at (λ r. r.id)

unfoldable pub create_record : Name → ℕ → ReconciliationPeriod → Window → Run (Unit {0})
unfolding new_record
create_record id now period p = do
  found ← gets (λ (db : Tables). record_with id db.records)
  throw_unless (is_absent found) (duplicate_record id)
  modify (λ (db : Tables). record db {
    records = db.records ++ new_record id now period p db.intents ∷ [];
  })

pub record FinancialSummary : Type 0 where
  pub total_settled_usd : ℤ
  pub total_fees_usd : ℤ
  pub total_fx_gain_usd : ℤ
  pub total_fx_loss_usd : ℤ
  pub net_fx_impact_usd : ℤ
  pub completed_count : ℕ
  pub total_count : ℕ

abbrev is_fee : EntryType → Bool
is_fee fee = true
is_fee _ = false

unfoldable pub sum_amounts : List Settlement → ℤ
sum_amounts [] = pos 0
sum_amounts (s ∷ ss) = s.amount +ℤ sum_amounts ss

-- The success rate is the quotient of its two counts.
unfoldable pub calculate_financial_summary : Window → Tables → FinancialSummary
unfolding sum_amounts total_gains total_losses sum_where
calculate_financial_summary p db =
    let rows = made_in p db.settlements in
    record {
      total_settled_usd = sum_amounts rows;
      total_fees_usd = sum_where (λ e. is_fee e.entry_type && within p e.created_at) db.ledger;
      total_fx_gain_usd = total_gains p db;
      total_fx_loss_usd = total_losses p db;
      net_fx_impact_usd = total_gains p db -ℤ total_losses p db;
      completed_count = length (keep_if (λ s. is_completed s.status) rows);
      total_count = length rows;
    }

pub record DiscrepancySummary : Type 0 where
  pub total_discrepancies : ℕ
  pub by_type : DiscrepancyType → ℕ
  pub by_severity : DiscrepancySeverity → ℕ
  pub critical_discrepancies : List Discrepancy

abbrev type_index : DiscrepancyType → ℕ
type_index amount_mismatch = 0
type_index missing_settlement = 1
type_index missing_ledger_entry = 2
type_index duplicate_settlement = 3
type_index fx_gain_loss_mismatch = 4
type_index fee_calculation_error = 5
type_index on_chain_mismatch = 6

abbrev severity_index : DiscrepancySeverity → ℕ
severity_index low = 0
severity_index medium = 1
severity_index high = 2
severity_index critical = 3

-- A key that the code's records lack counts 0.
unfoldable pub build_discrepancy_summary : List Discrepancy → DiscrepancySummary
build_discrepancy_summary ds = record {
  total_discrepancies = length ds;
  by_type = λ t. length (keep_if (λ d. type_index d.kind == type_index t) ds);
  by_severity = λ s. length (keep_if (λ d. severity_index d.severity == severity_index s) ds);
  critical_discrepancies = keep_if (λ d. severity_index d.severity == severity_index critical) ds;
}

-- The record as it is returned: the row and the two summaries, which are not stored.
pub record ReconciliationRecord : Type 0 where
  pub row : RecordRow
  pub discrepancy_summary : DiscrepancySummary
  pub financial_summary : FinancialSummary

abbrev pub closed : ReconciliationStatus → ℕ → ℕ → RecordRow → RecordRow
closed status n now r = record r {
  status = status;
  total_discrepancies = n;
  completed_at = some now;
}

unfoldable pub update_record :
    Name
    → ReconciliationStatus
    → ℕ
    → ℕ
    → DiscrepancySummary
    → FinancialSummary
    → Run ReconciliationRecord
update_record id status n now summary financial = do
  modify (λ (db : Tables). record db {
    records = change_at (λ r. r.id) id (closed status n now) db.records;
  })
  found ← gets (λ (db : Tables). record_with id db.records)
  row ← or_throw found (record_not_found_after_update id)
  pure (record { row = row; discrepancy_summary = summary; financial_summary = financial })

pub record ReconciliationCheckResult : Type 0 where
  pub passed : Bool
  pub record_ : ReconciliationRecord
  pub discrepancies : List Discrepancy

-- The checks in their order.
unfoldable pub all_discrepancies : Name → ℕ → Window → Tables → List Discrepancy
unfolding check_missing_settlements check_amount_mismatches check_duplicate_settlements
    check_missing_ledger_entries check_fx_gain_loss
all_discrepancies id now p db =
    check_missing_settlements id now p db
    ++ check_amount_mismatches id now p db
    ++ check_duplicate_settlements id now p db
    ++ check_missing_ledger_entries id now p db
    ++ check_fx_gain_loss id now p db

unfoldable pub status_for : List Discrepancy → ReconciliationStatus
status_for ds = if ltb 0 (length ds) then discrepancy_found else completed

-- `runReconciliation`. The duration is left out.
unfoldable pub run_reconciliation :
    Name → ℕ → ReconciliationPeriod → Window → Run ReconciliationCheckResult
unfolding create_record all_discrepancies build_discrepancy_summary calculate_financial_summary
    update_record status_for
run_reconciliation id now period p = do
  create_record id now period p
  ds ← gets (all_discrepancies id now p)
  financial ← gets (calculate_financial_summary p)
  final ← update_record id (status_for ds) (length ds) now (build_discrepancy_summary ds) financial
  pure (record { passed = length ds == 0; record_ = final; discrepancies = ds })

abbrev newest_first : List RecordRow → List RecordRow
newest_first [] = []
newest_first (r ∷ rs) = newest_first rs ++ r ∷ []

unfoldable pub get_records : Window → Tables → List RecordRow
get_records p db =
    newest_first
      (keep_if (λ r. leb p.start_date r.start_date && leb r.end_date p.end_date) db.records)

unfoldable pub get_discrepancies : Name → Tables → List Discrepancy
get_discrepancies id db = keep_if (λ d. d.record_id == id) db.discrepancies

-- `exportData`: what the text of either format is made of.
unfoldable pub export_data : Name → Run (RecordRow × List Discrepancy)
unfolding get_discrepancies
export_data id = do
  found ← gets (λ (db : Tables). record_with id db.records)
  row ← or_throw found (record_not_found id)
  ds ← gets (get_discrepancies id)
  pure (row, ds)
