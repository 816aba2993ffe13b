-- ===== src/Reconciliation/Verdict.antt =====
-- A reconciliation passes exactly on a reconciled period.
use nexora_gateway.Prelude.{
  ℕ, ◌≤◌, ◌≡◌, ◌↔◌, refl, ◌∙◌, true, List, [], ◌∷◌, ◌++◌, none, some, arith, ◌==◌, ltb, length,
  ==_self, change_at, keep_if, All, find_at-change_at, if◌then◌else◌,
}
use nexora_gateway.Prelude.Selections.{map-none, append-none, selected-none}
use nexora_gateway.Prelude.Action.{ok}
use nexora_gateway.Intent.Data.{Name}
use nexora_gateway.Reconciliation.{
  ReconciliationPeriod, completed, discrepancy_found, Discrepancy, Tables, Window, RecordRow,
}
use nexora_gateway.Reconciliation.Checks.{
  check_missing_settlements, check_amount_mismatches, check_duplicate_settlements,
  check_missing_ledger_entries, check_fx_gain_loss, lacks_settlement, lacks_entry, made_in,
  is_imbalanced, total_gains, total_losses, count_for, groups, mismatches,
}
use nexora_gateway.Reconciliation.Run.{
  ReconciliationCheckResult, all_discrepancies, status_for, record_with, new_record, closed,
  create_record, update_record, run_reconciliation, build_discrepancy_summary,
  calculate_financial_summary,
}
use nexora_gateway.Reconciliation.Spec.{PaidIn, IsCovered, IsBooked, IsBalanced, IsReconciled}
use nexora_gateway.Reconciliation.Passing.{
  lacks_settlement_iff, lacks_entry_iff, mismatches_iff, imbalance_iff, one_iff,
}
use nexora_gateway.Reconciliation.Duplicates.{unique_iff}

missing_settlements_iff :
    (id : Name) (now : ℕ) (p : Window) (db : Tables)
    → (check_missing_settlements id now p db ≡ []) ↔ All (IsCovered p db) db.intents
unfolding check_missing_settlements
missing_settlements_iff id now p db =
    selected-none _ (lacks_settlement p db) (IsCovered p db) db.intents (lacks_settlement_iff p db)

duplicates_iff :
    (id : Name) (now : ℕ) (p : Window) (db : Tables)
    → (check_duplicate_settlements id now p db ≡ [])
      ↔ ((i : Name) → count_for i (made_in p db.settlements) ≤ 1)
unfolding check_duplicate_settlements
duplicates_iff id now p db =
    let rows = made_in p db.settlements in
    let none_left = map-none _ (keep_if (λ i. ltb 1 (count_for i rows)) (groups rows)) in
    let once = unique_iff rows in ((λ e. once.0 (none_left.0 e)), (λ h. none_left.1 (once.1 h)))

missing_ledger_iff :
    (id : Name) (now : ℕ) (p : Window) (db : Tables)
    → (check_missing_ledger_entries id now p db ≡ [])
      ↔ All (λ s. PaidIn p s → IsBooked db s) db.settlements
unfolding check_missing_ledger_entries
missing_ledger_iff id now p db =
    selected-none _ (lacks_entry p db) (λ s. PaidIn p s → IsBooked db s) db.settlements
      (lacks_entry_iff p db)

fx_iff :
    (id : Name) (now : ℕ) (p : Window) (db : Tables)
    → (check_fx_gain_loss id now p db ≡ []) ↔ IsBalanced p db
unfolding check_fx_gain_loss
fx_iff id now p db =
    one_iff (is_imbalanced (total_gains p db) (total_losses p db)) _ (IsBalanced p db)
      (imbalance_iff (total_gains p db) (total_losses p db))

all_discrepancies_iff :
    (id : Name) (now : ℕ) (p : Window) (db : Tables)
    → (all_discrepancies id now p db ≡ []) ↔ IsReconciled p db
unfolding all_discrepancies check_amount_mismatches
all_discrepancies_iff id now p db =
    let a = missing_settlements_iff id now p db in
    let b = mismatches_iff id now p db db.settlements in
    let c = duplicates_iff id now p db in
    let d = missing_ledger_iff id now p db in
    let e = fx_iff id now p db in
    let d' = check_missing_ledger_entries id now p db in
    let e' = check_fx_gain_loss id now p db in
    let c' = check_duplicate_settlements id now p db in
    let b' = mismatches id now p db db.settlements in
    let a' = check_missing_settlements id now p db in
    let two = append-none a' b' in
    let three = append-none (a' ++ b') c' in
    let four = append-none (a' ++ b' ++ c') d' in
    let five = append-none (a' ++ b' ++ c' ++ d') e' in
    (
      (λ h.
          let (h4, h5) = five.0 h in
          let (h3, h4') = four.0 h4 in
          let (h2, h3') = three.0 h3 in
          let (h1, h2') = two.0 h2 in (a.0 h1, b.0 h2', c.0 h3', d.0 h4', e.0 h5)),
      (λ h. five.1 (four.1 (three.1 (two.1 (a.1 h.0, b.1 h.1), c.1 h.2), d.1 h.3), e.1 h.4)),
    )

length_iff : (ds : List Discrepancy) → ((length ds == 0) ≡ true) ↔ (ds ≡ [])
length_iff [] = (λ h. refl, λ h. refl)
length_iff (d ∷ ds) = (λ h. absurd (ground arith), λ h. absurd (cc))

find_at-last :
    (id : Name) (rows : List RecordRow) (new : RecordRow)
    → new.id ≡ id
    → record_with id rows ≡ none
    → record_with id (rows ++ new ∷ []) ≡ some new
find_at-last id [] new e h = ground arith
find_at-last id (r ∷ rows) new e h = ground (arith, find_at-last id rows new e)

status_for_lem :
    (ds : List Discrepancy)
    → status_for ds ≡ (if length ds == 0 then completed else discrepancy_found)
unfolding status_for
status_for_lem [] = refl
status_for_lem (d ∷ ds) = ground arith

-- A run under an identifier that no record has returns, and passes exactly when the period is
-- reconciled in the tables that it found. The stored record then says completed, and otherwise that
-- a discrepancy was found, with their number. The table of discrepancies is left as it was.
pub run_reconciliation_verdict :
    (id : Name) (now : ℕ) (period : ReconciliationPeriod) (p : Window) (db : Tables)
    → record_with id db.records ≡ none
    → let (r, db') = run_reconciliation id now period p db in
      (result : ReconciliationCheckResult) × (r ≡ ok result)
      × ((result.passed ≡ true) ↔ IsReconciled p db)
      × (record_with id db'.records ≡ some result.record_.row)
      × (result.record_.row.status ≡ (if result.passed then completed else discrepancy_found))
      × (result.record_.row.total_discrepancies ≡ length result.discrepancies)
      × (db'.discrepancies ≡ db.discrepancies)
unfolding run_reconciliation create_record update_record new_record total_gains total_losses
run_reconciliation_verdict id now period p db fresh =
    rw (run_reconciliation, create_record, fresh)
      (rw (update_record, updated)
        (
          record {
            passed = length ds == 0;
            record_ = record {
              row = closed (status_for ds) (length ds) now new;
              discrepancy_summary = build_discrepancy_summary ds;
              financial_summary = calculate_financial_summary p later;
            };
            discrepancies = ds;
          },
          refl,
          passing,
          updated,
          status_for_lem ds,
          refl,
          refl,
        ))
  where
    new : RecordRow
    new = new_record id now period p db.intents

    later : Tables
    later = record db { records = db.records ++ new ∷ [] }

    ds : List Discrepancy
    ds = all_discrepancies id now p later

    updated :
        record_with id (
          change_at
            (λ r. r.id)
            id
            (closed (status_for ds) (length ds) now)
            (db.records ++ new ∷ []))
        ≡ some (closed (status_for ds) (length ds) now new)
    updated =
        find_at-change_at (λ r. r.id) id id (closed (status_for ds) (length ds) now)
          (db.records ++ new ∷ []) (λ r. refl)
        ∙ rw (==_self id, find_at-last id db.records new refl fresh) refl

    passing : ((length ds == 0) ≡ true) ↔ IsReconciled p db
    passing =
        let empty = length_iff ds in
        let all = all_discrepancies_iff id now p later in
        ((λ h. all.0 (empty.0 h)), (λ h. empty.1 (all.1 h)))
