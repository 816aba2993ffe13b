-- ===== src/Examples/Reconciling.antt =====
-- A period with one settled intent that has no settlement.
use nexora_gateway.Prelude.{◌≡◌, ◌↔◌, refl, true, [], ◌∷◌, some, length, if◌then◌else◌}
use nexora_gateway.Prelude.Int.{◌+ℤ◌, ◌-ℤ◌, scale}
use nexora_gateway.Ledger.{abs}
use nexora_gateway.Prelude.Action.{ok}
use nexora_gateway.Intent.State.{settled}
use nexora_gateway.Reconciliation.{daily, completed, discrepancy_found, Tables, Window}
use nexora_gateway.Reconciliation.Run.{
  ReconciliationCheckResult, record_with, all_discrepancies, run_reconciliation,
}
use nexora_gateway.Reconciliation.Spec.{IsReconciled}
use nexora_gateway.Reconciliation.Verdict.{run_reconciliation_verdict}
use nexora_gateway.Examples.Data.{shop, intent_in}

abbrev tables : Tables
tables = record {
  intents = intent_in settled ∷ [];
  merchants = shop ∷ [];
  settlements = [];
  ledger = [];
  records = [];
  discrepancies = [];
}

abbrev day : Window
day = record { start_date = 0; end_date = 1000 }

one_found : length (all_discrepancies 5 1000 day tables) ≡ 1
unfolding all_discrepancies ◌+ℤ◌ ◌-ℤ◌ abs scale
one_found = refl

run_reconciliation_verdict_example :
    let (r, db') = run_reconciliation 5 1000 daily day tables in
    (result : ReconciliationCheckResult) × (r ≡ ok result)
    × ((result.passed ≡ true) ↔ IsReconciled day tables)
    × (record_with 5 db'.records ≡ some result.record_.row)
    × (result.record_.row.status ≡ (if result.passed then completed else discrepancy_found))
    × (result.record_.row.total_discrepancies ≡ length result.discrepancies)
    × (db'.discrepancies ≡ [])
run_reconciliation_verdict_example = run_reconciliation_verdict 5 1000 daily day tables refl
