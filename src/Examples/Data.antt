-- ===== src/Examples/Data.antt =====
-- The data of the examples: one merchant and one intent of 100 units, quoted until the time 1000.
use nexora_gateway.Prelude.{ℕ, true, false, [], ◌∷◌, some}
use nexora_gateway.Prelude.Int.{pos}
use nexora_gateway.Intent.State.{IntentState}
use nexora_gateway.Intent.Data.{PaymentIntent, NewPaymentIntent, MerchantConfig, Env, Store}
use nexora_gateway.Intent.Deposits.{Transfer}

abbrev pub shop : MerchantConfig
shop = record {
  id = 7;
  settlement_asset = 2;
  settlement_chain = 3;
  settlement_address = 9;
  accepted_chains = 3 ∷ [];
  accepted_assets = 2 ∷ [];
  fee_percentage = 50;
  quote_ttl_seconds = 300;
  webhook_url = some 8;
  compliant = true;
}

abbrev pub order : NewPaymentIntent
order = record {
  merchant_id = 7;
  order_ref = 5;
  target_amount = pos 10000000000;
  target_asset = 2;
  target_chain = 3;
  accepted_assets = 2 ∷ [];
}

abbrev pub intent_in : IntentState → PaymentIntent
intent_in s = record {
  id = 1;
  merchant_id = 7;
  order_ref = 5;
  target_amount = pos 10000000000;
  target_asset = 2;
  target_chain = 3;
  accepted_assets = 2 ∷ [];
  quoted_rate = some (pos 1);
  deposit_address = some 11;
  deposit_asset = some 2;
  deposit_chain = some 3;
  quote_expires_at = some 1000;
  state = s;
  version = 2;
  created_at = 0;
  updated_at = 0;
}

abbrev pub empty_store : Store
empty_store = record {
  merchants = shop ∷ [];
  intents = [];
  events = [];
  deliveries = [];
  sent = [];
}

abbrev pub store_in : IntentState → Store
store_in s = record {
  merchants = shop ∷ [];
  intents = intent_in s ∷ [];
  events = [];
  deliveries = [];
  sent = [];
}

-- No merchant answers.
abbrev pub at_time : ℕ → Env
at_time t = record { now = t; responds_ok = λ r. false; generate_signature = λ id type content. 0 }

abbrev pub transfer_of : ℕ → Transfer
transfer_of n = record { tx_hash = 4; received = pos n; source_chain = 3; source_asset = 2 }
