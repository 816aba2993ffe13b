-- ===== src/Intent/Service.antt =====
-- packages/payment-intent/src/payment-intent.service.ts, method by method. A webhook is delivered
-- after the transition has been committed.
use nexora_gateway.Prelude.{
  ℕ, ◌+◌, ◌*◌, not, List, [], ◌∷◌, Option, none, some, ltb, if◌then◌else◌, includes, length,
}
use nexora_gateway.Prelude.Int.{ℤ, pos, ltb_ℤ, leb_ℤ}
use nexora_gateway.Prelude.Action.{
  Action, ◌>>=◌, ◌>>◌, pure, throw, gets, modify, throw_unless, or_throw, catching,
}
use nexora_gateway.Intent.State.{
  EventType, quoted, awaiting_payment, intent_created, quote_generated, payment_awaited,
  quote_expired, confirmation_received, route_selected, settlement_initiated, settlement_confirmed,
  failure, is_valid_transition,
}
use nexora_gateway.Intent.Data.{
  Name, Value, null, name, amount, time, count, Payload, PaymentIntent, NewPaymentIntent,
  MerchantConfig, Env, Store, Error, merchant_not_found, target_asset_not_accepted,
  target_chain_not_accepted, amount_not_positive, amount_exceeds_maximum, cannot_generate_quote,
  cannot_await_payment, intent_not_found,
}
use nexora_gateway.Intent.Repository.{
  Deposit, find_by_id, create, transition, update_quote, find_expired_intents,
}
use nexora_gateway.Intent.Webhook.{get_merchant, deliver_webhook}

abbrev pub Method : Type 0 → Type 0
Method = Action Store Error

-- `if (!intent) throw new IntentNotFoundError(id)`.
unfoldable pub require_intent : Name → Method PaymentIntent
require_intent id = do found ← find_by_id id; or_throw found (intent_not_found id)

unfoldable pub notify : Env → PaymentIntent → EventType → Payload → Method (Unit {0})
notify env intent type content = modify (deliver_webhook env intent type content)

-- A transition, then its webhook.
unfoldable pub move_and_notify : Env → Name → EventType → Payload → Payload → Method PaymentIntent
unfolding notify
move_and_notify env id type payload content = do
  updated ← transition id type payload env.now
  notify env updated type content
  pure updated

-- 1 000 000, in 10⁻⁸ units.
abbrev pub max_amount : ℤ
max_amount = pos 100000000000000

-- The checks of `createIntent`, in their order.
unfoldable pub validate : NewPaymentIntent → Option MerchantConfig → Option Error
validate new none = some merchant_not_found
validate new (some m) =
    if not (includes m.accepted_assets new.target_asset)
    then some target_asset_not_accepted
    else if not (includes m.accepted_chains new.target_chain)
    then some target_chain_not_accepted
    else if leb_ℤ new.target_amount (pos 0)
    then some amount_not_positive
    else if ltb_ℤ max_amount new.target_amount
    then some amount_exceeds_maximum
    else none

abbrev refuse : Option Error → Method (Unit {0})
refuse none = pure tt
refuse (some e) = throw e

unfoldable pub create_intent : Env → Name → NewPaymentIntent → Method PaymentIntent
unfolding notify validate
create_intent env id new = do
  merchant ← gets (λ (db : Store). get_merchant new.merchant_id db.merchants)
  refuse (validate new merchant)
  intent ← create id env.now new
  notify env intent intent_created (
      ("merchant_id", name intent.merchant_id)
      ∷ ("order_ref", name intent.order_ref)
      ∷ ("target_amount", amount intent.target_amount)
      ∷ ("target_asset", name intent.target_asset)
      ∷ ("target_chain", name intent.target_chain)
      ∷ [])
  pure intent

-- `merchant?.quote_ttl_seconds || 300`: 0 is replaced too.
unfoldable pub quote_ttl : Option MerchantConfig → ℕ
quote_ttl none = 300
quote_ttl (some m) = if ltb 0 m.quote_ttl_seconds then m.quote_ttl_seconds else 300

pub record Quote : Type 0 where
  pub rate : ℤ
  pub expires_at : ℕ
  pub deposit : Deposit

abbrev quote_payload : Quote → Payload
quote_payload q =
    ("rate", amount q.rate)
    ∷ ("deposit_address", name q.deposit.address)
    ∷ ("deposit_asset", name q.deposit.asset)
    ∷ ("deposit_chain", name q.deposit.chain)
    ∷ ("expires_at", time q.expires_at)
    ∷ []

unfoldable pub generate_quote : Env → Name → ℤ → Deposit → Method (PaymentIntent × Quote)
unfolding require_intent notify quote_ttl
generate_quote env id rate deposit = do
  intent ← require_intent id
  throw_unless (is_valid_transition intent.state quoted) (cannot_generate_quote intent.state)
  merchant ← gets (λ (db : Store). get_merchant intent.merchant_id db.merchants)
  let quote : Quote = record {
    rate = rate;
    expires_at = env.now + quote_ttl merchant * 1000;
    deposit = deposit;
  }
  update_quote id rate quote.expires_at (some deposit) env.now
  moved ← transition id quote_generated (quote_payload quote) env.now
  notify env moved quote_generated (quote_payload quote)
  pure (moved, quote)

abbrev name_or_null : Option Name → Value
name_or_null none = null
name_or_null (some n) = name n

abbrev time_or_null : Option ℕ → Value
time_or_null none = null
time_or_null (some t) = time t

abbrev pub awaited_payload : Env → PaymentIntent → Payload
awaited_payload env intent =
    ("deposit_address", name_or_null intent.deposit_address)
    ∷ ("deposit_asset", name_or_null intent.deposit_asset)
    ∷ ("deposit_chain", name_or_null intent.deposit_chain)
    ∷ ("quote_expires_at", time_or_null intent.quote_expires_at)
    ∷ ("awaited_at", time env.now)
    ∷ []

unfoldable pub await_payment : Env → Name → Method PaymentIntent
unfolding require_intent
await_payment env id = do
  intent ← require_intent id
  throw_unless (is_valid_transition intent.state awaiting_payment)
      (cannot_await_payment intent.state)
  transition id payment_awaited (awaited_payload env intent) env.now

-- The methods that move an intent along one edge and notify the merchant.
unfoldable pub confirm_deposit : Env → Name → ℕ → Method PaymentIntent
unfolding require_intent
confirm_deposit env id confirmations =
    require_intent id
    >> move_and_notify env id confirmation_received
        (("confirmation_count", count confirmations) ∷ ("confirmed_at", time env.now) ∷ [])
        (("confirmation_count", count confirmations) ∷ [])

unfoldable pub select_route : Env → Name → Name → Name → ℤ → ℕ → Method PaymentIntent
unfolding require_intent
select_route env id route provider fee seconds =
    let chosen : Payload =
      ("route_id", name route)
      ∷ ("provider", name provider)
      ∷ ("estimated_fee", amount fee)
      ∷ ("estimated_time", count seconds)
      ∷ [] in
    require_intent id
    >> move_and_notify env id route_selected (("selected_at", time env.now) ∷ chosen) chosen

unfoldable pub initiate_settlement : Env → Name → ℤ → Method PaymentIntent
unfolding require_intent
initiate_settlement env id settled_amount =
    require_intent id
    >> move_and_notify env id settlement_initiated
        (("settlement_amount", amount settled_amount) ∷ ("initiated_at", time env.now) ∷ [])
        (("settlement_amount", amount settled_amount) ∷ [])

unfoldable pub confirm_settlement : Env → Name → Name → Method PaymentIntent
unfolding require_intent
confirm_settlement env id tx_hash =
    require_intent id
    >> move_and_notify env id settlement_confirmed
        (("settlement_tx_hash", name tx_hash) ∷ ("settled_at", time env.now) ∷ [])
        (("settlement_tx_hash", name tx_hash) ∷ [])

unfoldable pub fail_intent : Env → Name → Name → Option Name → Method PaymentIntent
unfolding require_intent
fail_intent env id reason error =
    require_intent id
    >> move_and_notify env id failure
        (("reason", name reason) ∷ ("error", name_or_null error) ∷ ("failed_at", time env.now) ∷ [])
        (("reason", name reason) ∷ ("error", name_or_null error) ∷ [])

-- The body of the loop of `processExpiredQuotes`: an error is logged and the loop goes on.
unfoldable pub expire_one : Env → PaymentIntent → Method (Unit {0})
unfolding notify
expire_one env intent =
    catching
      (do
        transition intent.id quote_expired (("expired_at", time env.now) ∷ []) env.now
        notify env intent quote_expired (("intent_id", name intent.id) ∷ []))
      (λ e. pure tt)

unfoldable pub expire_each : Env → List PaymentIntent → Method (Unit {0})
expire_each env [] = pure tt
expire_each env (intent ∷ rest) = expire_one env intent >> expire_each env rest

unfoldable pub process_expired_quotes : Env → Method ℕ
process_expired_quotes env = do
  expired ← find_expired_intents env.now
  expire_each env expired
  pure (length expired)
