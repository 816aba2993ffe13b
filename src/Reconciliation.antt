-- ===== src/Reconciliation.antt =====
-- packages/reconciliation/src/reconciliation.service.ts, over the types of
-- packages/shared/src/types/reconciliation.ts: the tables, the records and the period.
pub mod Checks
pub mod Run
pub mod Reports
pub mod Spec
pub mod Passing
pub mod Duplicates
pub mod Verdict
use nexora_gateway.Prelude.{ℕ, Bool, true, false, ◌&&◌, List, Option, none, some, leb}
use nexora_gateway.Prelude.Int.{ℤ}
use nexora_gateway.Intent.Data.{Name, PaymentIntent, MerchantConfig}
use nexora_gateway.Ledger.{Ledger}
use nexora_gateway.Settlement.Repository.{Settlement}

pub data ReconciliationPeriod : Type 0 where
  hourly daily weekly monthly : ReconciliationPeriod

pub data ReconciliationStatus : Type 0 where
  pending in_progress completed discrepancy_found failed : ReconciliationStatus

pub data DiscrepancyType : Type 0 where
  amount_mismatch missing_settlement missing_ledger_entry duplicate_settlement : DiscrepancyType
  fx_gain_loss_mismatch fee_calculation_error on_chain_mismatch : DiscrepancyType

pub data DiscrepancySeverity : Type 0 where
  low medium high critical : DiscrepancySeverity

-- `expectedValue` and `actualValue`: a fixed text, a number, or two amounts in one text. Money is in
-- 10⁻¹² units, so that a percentage of an amount is exact.
pub data Evidence : Type 0 where
  text : Evidence
  money : ℤ → Evidence
  number : ℕ → Evidence
  gains_and_losses : ℤ → ℤ → Evidence

-- Without the generated id and the description, a text that the other fields determine. No intent is
-- the text 'aggregate'.
pub record Discrepancy : Type 0 where
  pub record_id : Name
  pub kind : DiscrepancyType
  pub severity : DiscrepancySeverity
  pub intent_id : Option Name
  pub expected : Evidence
  pub actual : Evidence
  pub difference : Option ℤ
  pub detected_at : ℕ

-- A row of `reconciliation_records`.
pub record RecordRow : Type 0 where
  pub id : Name
  pub period : ReconciliationPeriod
  pub start_date : ℕ
  pub end_date : ℕ
  pub status : ReconciliationStatus
  pub total_intents : ℕ
  pub total_settled : ℕ
  pub total_pending : ℕ
  pub total_failed : ℕ
  pub total_discrepancies : ℕ
  pub created_at : ℕ
  pub completed_at : Option ℕ

-- What the service reads, and the two tables of its own.
pub record Tables : Type 0 where
  pub intents : List PaymentIntent
  pub merchants : List MerchantConfig
  pub settlements : List Settlement
  pub ledger : Ledger
  pub records : List RecordRow
  pub discrepancies : List Discrepancy

pub record Window : Type 0 where
  pub start_date : ℕ
  pub end_date : ℕ

-- `BETWEEN $1 AND $2`.
abbrev pub within : Window → ℕ → Bool
within p t = leb p.start_date t && leb t p.end_date

-- A null time is in no window.
abbrev pub within? : Window → Option ℕ → Bool
within? p none = false
within? p (some t) = within p t
