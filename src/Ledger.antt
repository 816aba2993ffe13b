-- ===== src/Ledger.antt =====
-- packages/settlement/src/ledger.repository.ts and ledger.service.ts: the double-entry ledger. An
-- account name such as `merchant:{id}` is a constructor; the names in use have different prefixes.
-- Amounts are integers of 10⁻⁸ units, in which SQL's SUM over the DECIMAL column is exact.
pub mod Queries
pub mod Balances
pub mod Accounting
use nexora_gateway.Prelude.{
  ℕ, suc, ◌+◌, ◌*◌, ◌/◌, Bool, true, false, ◌&&◌, ◌||◌, List, [], ◌∷◌, ◌++◌, Option, none, some,
  ◌==◌, ltb, leb, if◌then◌else◌, length, keep_if,
}
use nexora_gateway.Prelude.Int.{ℤ, pos, negsuc, pos_part, neg_part, ◌+ℤ◌, ◌-ℤ◌, scale, ltb_ℤ, leb_ℤ}
use nexora_gateway.Intent.Data.{Name, name, count, Payload}

pub data Account : Type 0 where
  customer merchant pending_intent : Name → Account
  revenue_fees revenue_fx expense_fx : Account

unfoldable pub same_account : Account → Account → Bool
same_account (customer a) (customer b) = a == b
same_account (merchant a) (merchant b) = a == b
same_account (pending_intent a) (pending_intent b) = a == b
same_account revenue_fees revenue_fees = true
same_account revenue_fx revenue_fx = true
same_account expense_fx expense_fx = true
same_account _ _ = false

pub data EntryType : Type 0 where
  deposit fee settlement refund fx_gain_loss : EntryType

pub record LedgerEntry : Type 0 where
  pub id : Name
  pub intent_id : Name
  pub entry_type : EntryType
  pub amount : ℤ
  pub asset : Name
  pub chain : Name
  pub debit_account : Account
  pub credit_account : Account
  pub metadata : Payload
  pub created_at : ℕ

-- Oldest first, the order of created_at.
abbrev pub Ledger : Type 0
Ledger = List LedgerEntry

-- `LedgerRepository.create`: the only write.
unfoldable pub create_entry : LedgerEntry → Ledger → LedgerEntry × Ledger
create_entry e es = (e, es ++ e ∷ [])

pub record DepositRecord : Type 0 where
  pub intent_id : Name
  pub amount : ℤ
  pub asset : Name
  pub chain : Name
  pub customer_id : Name
  pub tx_hash : Name
  pub source_address : Name

pub record FeeRecord : Type 0 where
  pub intent_id : Name
  pub amount : ℤ
  pub asset : Name
  pub chain : Name
  pub merchant_id : Name
  pub fee_type : Name
  pub percentage : ℕ

pub record PayoutRecord : Type 0 where
  pub intent_id : Name
  pub amount : ℤ
  pub asset : Name
  pub chain : Name
  pub merchant_id : Name
  pub tx_hash : Name
  pub destination_address : Name

pub record RefundRecord : Type 0 where
  pub intent_id : Name
  pub amount : ℤ
  pub asset : Name
  pub chain : Name
  pub merchant_id : Name
  pub customer_id : Name
  pub tx_hash : Name
  pub reason : Name

abbrev pub deposit_entry : Name → ℕ → DepositRecord → LedgerEntry
deposit_entry id now d = record {
  id = id;
  intent_id = d.intent_id;
  entry_type = deposit;
  amount = d.amount;
  asset = d.asset;
  chain = d.chain;
  debit_account = pending_intent d.intent_id;
  credit_account = customer d.customer_id;
  metadata = ("tx_hash", name d.tx_hash) ∷ ("source_address", name d.source_address) ∷ [];
  created_at = now;
}

unfoldable pub record_deposit : Name → ℕ → DepositRecord → Ledger → LedgerEntry × Ledger
unfolding create_entry
record_deposit id now d = create_entry (deposit_entry id now d)

abbrev pub fee_entry : Name → ℕ → FeeRecord → LedgerEntry
fee_entry id now f = record {
  id = id;
  intent_id = f.intent_id;
  entry_type = fee;
  amount = f.amount;
  asset = f.asset;
  chain = f.chain;
  debit_account = merchant f.merchant_id;
  credit_account = revenue_fees;
  metadata = ("fee_type", name f.fee_type) ∷ ("percentage", count f.percentage) ∷ [];
  created_at = now;
}

unfoldable pub record_fee : Name → ℕ → FeeRecord → Ledger → LedgerEntry × Ledger
unfolding create_entry
record_fee id now f = create_entry (fee_entry id now f)

abbrev pub payout_entry : Name → ℕ → PayoutRecord → LedgerEntry
payout_entry id now p = record {
  id = id;
  intent_id = p.intent_id;
  entry_type = settlement;
  amount = p.amount;
  asset = p.asset;
  chain = p.chain;
  debit_account = pending_intent p.intent_id;
  credit_account = merchant p.merchant_id;
  metadata = ("tx_hash", name p.tx_hash) ∷ ("destination_address", name p.destination_address) ∷ [];
  created_at = now;
}

unfoldable pub record_settlement : Name → ℕ → PayoutRecord → Ledger → LedgerEntry × Ledger
unfolding create_entry
record_settlement id now p = create_entry (payout_entry id now p)

abbrev pub refund_entry : Name → ℕ → RefundRecord → LedgerEntry
refund_entry id now r = record {
  id = id;
  intent_id = r.intent_id;
  entry_type = refund;
  amount = r.amount;
  asset = r.asset;
  chain = r.chain;
  debit_account = merchant r.merchant_id;
  credit_account = customer r.customer_id;
  metadata = ("tx_hash", name r.tx_hash) ∷ ("reason", name r.reason) ∷ [];
  created_at = now;
}

unfoldable pub record_refund : Name → ℕ → RefundRecord → Ledger → LedgerEntry × Ledger
unfolding create_entry
record_refund id now r = create_entry (refund_entry id now r)

-- `Math.abs`.
unfoldable pub abs : ℤ → ℤ
abs a = pos (pos_part a + neg_part a)

abbrev pub fx_entry : Name → ℕ → Name → Name → Name → ℤ → LedgerEntry
fx_entry id now intent asset chain gain =
    let is_gain = leb_ℤ (pos 0) gain in
    record {
      id = id;
      intent_id = intent;
      entry_type = fx_gain_loss;
      amount = abs gain;
      asset = asset;
      chain = chain;
      debit_account = if is_gain then revenue_fx else expense_fx;
      credit_account = if is_gain then expense_fx else revenue_fx;
      metadata = ("type", count (if is_gain then 1 else 0)) ∷ [];
      created_at = now;
    }

unfoldable pub record_fx_gain_loss :
    Name → ℕ → Name → Name → Name → ℤ → Ledger → LedgerEntry × Ledger
unfolding create_entry abs
record_fx_gain_loss id now intent asset chain gain =
    create_entry (fx_entry id now intent asset chain gain)
