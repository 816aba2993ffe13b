-- ===== src/Reconciliation/Spec.antt =====
-- What a period must satisfy to be reconciled, said of the tables without the checks' queries.
use nexora_gateway.Prelude.{ℕ, ◌≤◌, ◌≡◌, ◌⊎◌, Option, some, All, AnyOf}
use nexora_gateway.Prelude.Int.{pos, ◌+ℤ◌, ◌-ℤ◌, scale, ◌≤ℤ◌}
use nexora_gateway.Intent.State.{settled}
use nexora_gateway.Intent.Data.{Name, PaymentIntent, MerchantConfig}
use nexora_gateway.Intent.Repository.{find_row}
use nexora_gateway.Ledger.{settlement, abs}
use nexora_gateway.Settlement.Repository.{Settlement, completed}
use nexora_gateway.Reconciliation.{Tables, Window}
use nexora_gateway.Reconciliation.Checks.{
  expected_amount, deviation, merchant_of, made_in, count_for, total_gains, total_losses,
}

abbrev pub InWindow : Window → ℕ → Type 0
InWindow p t = (p.start_date ≤ t) × (t ≤ p.end_date)

abbrev pub PaidIn : Window → Settlement → Type 0
PaidIn p s = (s.status ≡ completed) × (t : ℕ) × (s.completed_at ≡ some t) × InWindow p t

-- An intent that was settled in the period has a settlement.
abbrev pub IsCovered : Window → Tables → PaymentIntent → Type 0
IsCovered p db row =
    row.state ≡ settled
    → InWindow p row.updated_at
    → AnyOf (λ s. s.intent_id ≡ row.id) db.settlements

-- The amount is the target less the fee, within a hundredth of a percent of it. A settlement whose
-- intent or merchant is unknown has nothing to match.
abbrev pub Matches : Option PaymentIntent → Option MerchantConfig → Settlement → Type 0
Matches (some row) (some m) s = scale 10000 (abs (deviation row m s)) ≤ℤ expected_amount row m
Matches _ _ s = Unit

abbrev pub IsExact : Tables → Settlement → Type 0
IsExact db s =
    let row = find_row s.intent_id db.intents in Matches row (merchant_of db.merchants row) s

abbrev pub IsBooked : Tables → Settlement → Type 0
IsBooked db s = AnyOf (λ e. (e.intent_id ≡ s.intent_id) × (e.entry_type ≡ settlement)) db.ledger

-- Gains and losses differ by at most a tenth of their sum, where that is positive.
abbrev pub IsBalanced : Window → Tables → Type 0
IsBalanced p db =
    let volume = total_gains p db +ℤ total_losses p db in
    (volume ≤ℤ pos 0) ⊎ (scale 10 (abs (total_gains p db -ℤ total_losses p db)) ≤ℤ volume)

abbrev pub IsReconciled : Window → Tables → Type 0
IsReconciled p db =
    All (IsCovered p db) db.intents
    × All (λ s. PaidIn p s → IsExact db s) db.settlements
    × ((id : Name) → count_for id (made_in p db.settlements) ≤ 1)
    × All (λ s. PaidIn p s → IsBooked db s) db.settlements
    × IsBalanced p db
