-- ===== src/Reconciliation/Reports.antt =====
-- packages/reconciliation/src/reconciliation.service.ts: the financial report of a period. The
-- fields that the code fills with a constant, and the merchant's name, are left out.
use nexora_gateway.Prelude.{
  ℕ, Bool, true, false, List, [], ◌∷◌, map, Option, none, some, ◌==◌, if◌then◌else◌, keep_if,
  includes, length,
}
use nexora_gateway.Prelude.Int.{ℤ, pos}
use nexora_gateway.Intent.Data.{Name, Value, amount, field_of, MerchantConfig}
use nexora_gateway.Intent.Webhook.{get_merchant}
use nexora_gateway.Settlement.Repository.{Settlement}
use nexora_gateway.Reconciliation.{ReconciliationPeriod, Tables, Window}
use nexora_gateway.Reconciliation.Checks.{paid_in, fx_entries}
use nexora_gateway.Reconciliation.Run.{FinancialSummary, sum_amounts, calculate_financial_summary}

-- A line of a report: the settlements of one chain, or of one merchant.
pub record GroupSummary : Type 0 where
  pub group : Name
  pub total_settled : ℤ
  pub total_transactions : ℕ

-- `GROUP BY`: each key once.
unfoldable pub keys : (Settlement → Name) → List Settlement → List Name
keys key [] = []
keys key (s ∷ ss) = if includes (keys key ss) (key s) then keys key ss else key s ∷ keys key ss

unfoldable pub summarize : (Settlement → Name) → List Settlement → List GroupSummary
unfolding keys sum_amounts
summarize key rows =
    map
      (λ k.
        let group = keep_if (λ s. key s == k) rows in
        record { group = k; total_settled = sum_amounts group; total_transactions = length group })
      (keys key rows)

unfoldable pub get_financial_by_chain : Window → Tables → List GroupSummary
unfolding summarize
get_financial_by_chain p db = summarize (λ s. s.chain) (keep_if (paid_in p) db.settlements)

abbrev is_known : Option MerchantConfig → Bool
is_known none = false
is_known (some m) = true

-- The join leaves out a settlement whose merchant is unknown.
unfoldable pub get_financial_by_merchant : Window → Tables → List GroupSummary
unfolding summarize
get_financial_by_merchant p db =
    summarize (λ s. s.merchant_id)
      (keep_if (λ s. is_known (get_merchant s.merchant_id db.merchants))
        (keep_if (paid_in p) db.settlements))

pub record FxGainLossEntry : Type 0 where
  pub intent_id : Name
  pub asset : Name
  pub chain : Name
  pub gain_loss : ℤ

-- `Number(metadata?.amount) || 0`.
abbrev gain_of : Value → ℤ
gain_of (amount z) = z
gain_of _ = pos 0

unfoldable pub get_fx_gain_loss_details : Window → Tables → List FxGainLossEntry
get_fx_gain_loss_details p db =
    map
      (λ e. record {
        intent_id = e.intent_id;
        asset = e.asset;
        chain = e.chain;
        gain_loss = gain_of (field_of "amount" e.metadata);
      })
      (fx_entries p db.ledger)

pub record FinancialReport : Type 0 where
  pub id : Name
  pub period : ReconciliationPeriod
  pub start_date : ℕ
  pub end_date : ℕ
  pub generated_at : ℕ
  pub summary : FinancialSummary
  pub by_chain : List GroupSummary
  pub by_merchant : List GroupSummary
  pub fx_gain_loss_details : List FxGainLossEntry

unfoldable pub generate_financial_report :
    Name → ℕ → ReconciliationPeriod → Window → Tables → FinancialReport
unfolding calculate_financial_summary get_financial_by_chain get_financial_by_merchant
    get_fx_gain_loss_details
generate_financial_report id now period p db = record {
  id = id;
  period = period;
  start_date = p.start_date;
  end_date = p.end_date;
  generated_at = now;
  summary = calculate_financial_summary p db;
  by_chain = get_financial_by_chain p db;
  by_merchant = get_financial_by_merchant p db;
  fx_gain_loss_details = get_fx_gain_loss_details p db;
}
