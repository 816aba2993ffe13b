-- ===== src/Intent/Webhook.antt =====
-- packages/payment-intent/src/webhook-delivery.service.ts and the merchant lookup of
-- packages/payment-intent/src/merchant-config.service.ts.
-- The methods throw only where a query fails, so they are functions on the store.
mod Rows
pub mod Requests
use nexora_gateway.Prelude.{
  ℕ, suc, ◌+◌, ◌-◌, Bool, true, false, ◌&&◌, List, [], ◌∷◌, ◌++◌, Option, none, some, ◌==◌, ltb,
  leb, if◌then◌else◌, length, get_elem?, take, keep_if,
}
use nexora_gateway.Intent.State.{EventType, same_event}
use nexora_gateway.Intent.Data.{
  Name, Payload, PaymentIntent, MerchantConfig, DeliveryStatus, pending, delivered, undeliverable,
  WebhookPayload, Delivery, Request, Env, Store,
}

abbrev retry_delays_ms : List ℕ
retry_delays_ms = 0 ∷ 1000 ∷ 5000 ∷ 30000 ∷ 300000 ∷ []

abbrev pub max_attempts : ℕ
max_attempts = 5

abbrev or_else {ℓ} : {A : Type ℓ} → Option A → A → A
or_else none d = d
or_else (some a) d = a

-- `RETRY_DELAYS_MS[i] ?? RETRY_DELAYS_MS[RETRY_DELAYS_MS.length - 1] ?? 0`.
unfoldable pub retry_delay : ℕ → ℕ
retry_delay i =
    or_else (get_elem? retry_delays_ms i)
      (or_else (get_elem? retry_delays_ms (length retry_delays_ms - 1)) 0)

-- `MerchantConfigService.getById`.
unfoldable pub get_merchant : Name → List MerchantConfig → Option MerchantConfig
get_merchant id [] = none
get_merchant id (m ∷ ms) = if m.id == id then some m else get_merchant id ms

unfoldable pub has_key : Name → EventType → Delivery → Bool
has_key id type d = d.intent_id == id && same_event d.event_type type

unfoldable pub get_delivery : Name → EventType → List Delivery → Option Delivery
unfolding has_key
get_delivery id type [] = none
get_delivery id type (d ∷ ds) = if has_key id type d then some d else get_delivery id type ds

-- `UPDATE webhook_deliveries SET … WHERE id = …`, on the row that has the key.
unfoldable pub change_delivery :
    Name → EventType → (Delivery → Delivery) → List Delivery → List Delivery
unfolding has_key
change_delivery id type f [] = []
change_delivery id type f (d ∷ ds) =
    if has_key id type d then f d ∷ ds else d ∷ change_delivery id type f ds

abbrev refresh_payload : Name → WebhookPayload → Delivery → Delivery
refresh_payload url payload d = record d { payload = payload; webhook_url = url }

abbrev new_delivery : Name → EventType → Name → WebhookPayload → Delivery
new_delivery id type url payload = record {
  intent_id = id;
  event_type = type;
  webhook_url = url;
  payload = payload;
  status = pending;
  attempt_count = 0;
  next_retry_at = none;
  completed_at = none;
}

-- `INSERT … ON CONFLICT (intent_id, event_type) DO UPDATE SET payload, webhook_url`. Rows are kept
-- oldest first, the order of created_at.
unfoldable pub upsert_delivery :
    Name → EventType → Name → WebhookPayload → List Delivery → List Delivery
upsert_delivery id type url payload ds = elim (get_delivery id type ds) [
  | none ↦ ds ++ new_delivery id type url payload ∷ []
  | some d ↦ change_delivery id type (refresh_payload url payload) ds
]

abbrev is_terminal : DeliveryStatus → Bool
is_terminal pending = false
is_terminal delivered = true
is_terminal undeliverable = true

abbrev with_status : DeliveryStatus → ℕ → Option ℕ → ℕ → Delivery → Delivery
with_status status attempts next now d = record d {
  status = status;
  attempt_count = attempts;
  next_retry_at = next;
  completed_at = if is_terminal status then some now else d.completed_at;
}

unfoldable pub update_delivery_status :
    Name → EventType → DeliveryStatus → ℕ → Option ℕ → ℕ → List Delivery → List Delivery
update_delivery_status id type status attempts next now =
    change_delivery id type (with_status status attempts next now)

abbrev pub request_of : Delivery → Request
request_of d = record {
  url = d.webhook_url;
  intent_id = d.intent_id;
  event_type = d.event_type;
  body = d.payload;
}

-- What is written after a request, by its outcome.
unfoldable pub record_outcome : Env → Bool → Name → EventType → ℕ → List Delivery → List Delivery
record_outcome env true id type attempt ds =
    update_delivery_status id type delivered attempt none env.now ds
record_outcome env false id type attempt ds =
    if leb max_attempts attempt
    then update_delivery_status id type undeliverable attempt none env.now ds
    else update_delivery_status id type pending attempt (some (env.now + retry_delay attempt))
        env.now ds

-- `attemptDelivery`, once the row is read.
unfoldable pub attempt_row : Env → Name → EventType → Delivery → Store → Store
attempt_row env id type d db =
    let attempt = d.attempt_count + 1 in
    if ltb 1 attempt
    then record db {
      deliveries =
          update_delivery_status id type pending attempt
            (some (env.now + retry_delay (attempt - 1))) env.now db.deliveries;
    }
    else record db {
      sent = request_of d ∷ db.sent;
      deliveries =
          record_outcome env (env.responds_ok (request_of d)) id type attempt db.deliveries;
    }

unfoldable pub attempt_delivery : Env → Name → EventType → Store → Store
unfolding attempt_row
attempt_delivery env id type db = elim (get_delivery id type db.deliveries) [
  | none ↦ db
  | some d ↦ attempt_row env id type d db
]

abbrev not_empty : Option Name → Option Name
not_empty none = none
not_empty (some n) = if n == 0 then none else some n

-- `merchant?.webhook_url`, where the empty string counts as no URL.
abbrev pub webhook_url_of : Option MerchantConfig → Option Name
webhook_url_of none = none
webhook_url_of (some m) = not_empty m.webhook_url

abbrev webhook_payload : Env → PaymentIntent → EventType → Payload → WebhookPayload
webhook_payload env intent type content = record {
  intent_id = intent.id;
  event_type = type;
  state = intent.state;
  timestamp = env.now;
  content = content;
  signature = env.generate_signature intent.id type content;
}

unfoldable pub post_event : Env → Name → PaymentIntent → EventType → Payload → Store → Store
post_event env url intent type content db = attempt_delivery env intent.id type (record db {
  deliveries =
      upsert_delivery intent.id type url (webhook_payload env intent type content) db.deliveries;
})

unfoldable pub deliver_webhook : Env → PaymentIntent → EventType → Payload → Store → Store
unfolding post_event
deliver_webhook env intent type content db =
    elim (webhook_url_of (get_merchant intent.merchant_id db.merchants)) [
      | none ↦ db
      | some url ↦ post_event env url intent type content db
    ]

abbrev is_past : ℕ → Option ℕ → Bool
is_past now none = true
is_past now (some t) = leb t now

abbrev is_pending : DeliveryStatus → Bool
is_pending pending = true
is_pending delivered = false
is_pending undeliverable = false

unfoldable pub is_due : ℕ → Delivery → Bool
is_due now d =
    is_pending d.status && ltb d.attempt_count max_attempts && is_past now d.next_retry_at

unfoldable pub attempt_each : Env → List Delivery → ℕ → Store → ℕ × Store
attempt_each env [] processed db = (processed, db)
attempt_each env (d ∷ ds) processed db =
    attempt_each env ds (processed + 1) (attempt_delivery env d.intent_id d.event_type db)

-- `processRetries`, on at most 100 due rows.
unfoldable pub process_retries : Env → Store → ℕ × Store
unfolding attempt_each is_due
process_retries env db = attempt_each env (take 100 (keep_if (is_due env.now) db.deliveries)) 0 db
