-- ===== src/Intent/Data.antt =====
-- The rows of the payment-intent tables and the store that holds them
-- (packages/shared/src/types/payment-intent.ts, packages/shared/src/types/settlement.ts, and the
-- webhook table that packages/payment-intent/src/webhook-delivery.service.ts writes).
-- An identifier, address, asset, chain, hash or URL is a number: the code compares them and tests
-- them for emptiness, and 0 is the empty string. Times are milliseconds.
use Prim.Native.String.{String}
use text.Mathlib.Text.{◌==◌ as str_eq}
use nexora_gateway.Prelude.{ℕ, Bool, List, [], ◌∷◌, Option, if◌then◌else◌}
use nexora_gateway.Prelude.Int.{ℤ}
use nexora_gateway.Intent.State.{IntentState, EventType}

abbrev pub Name : Type 0
Name = ℕ

-- The values of a `Record<string, unknown>` payload.
pub data Value : Type 0 where
  null : Value
  name : Name → Value
  names : List Name → Value
  amount : ℤ → Value
  time : ℕ → Value
  count : ℕ → Value

abbrev pub Payload : Type 0
Payload = List (String × Value)

-- `payload[key]`.
unfoldable pub field_of : String → Payload → Value
field_of k [] = null
field_of k ((j, v) ∷ p) = if str_eq j k then v else field_of k p

pub record PaymentIntent : Type 0 where
  pub id : Name
  pub merchant_id : Name
  pub order_ref : Name
  pub target_amount : ℤ
  pub target_asset : Name
  pub target_chain : Name
  pub accepted_assets : List Name
  pub quoted_rate : Option ℤ
  pub deposit_address : Option Name
  pub deposit_asset : Option Name
  pub deposit_chain : Option Name
  pub quote_expires_at : Option ℕ
  pub state : IntentState
  pub version : ℕ
  pub created_at : ℕ
  pub updated_at : ℕ

pub record NewPaymentIntent : Type 0 where
  pub merchant_id : Name
  pub order_ref : Name
  pub target_amount : ℤ
  pub target_asset : Name
  pub target_chain : Name
  pub accepted_assets : List Name

pub record IntentEvent : Type 0 where
  pub intent_id : Name
  pub event_type : EventType
  pub payload : Payload
  pub version : ℕ
  pub created_at : ℕ

pub record MerchantConfig : Type 0 where
  pub id : Name
  pub settlement_asset : Name
  pub settlement_chain : Name
  pub settlement_address : Name
  pub accepted_chains : List Name
  pub accepted_assets : List Name
  pub fee_percentage : ℕ  -- in hundredths of a percent, the scale of DECIMAL(5, 2)
  pub quote_ttl_seconds : ℕ
  pub webhook_url : Option Name
  pub compliant : Bool

pub data DeliveryStatus : Type 0 where
  pending delivered undeliverable : DeliveryStatus

-- `WebhookPayload`.
pub record WebhookPayload : Type 0 where
  pub intent_id : Name
  pub event_type : EventType
  pub state : IntentState
  pub timestamp : ℕ
  pub content : Payload
  pub signature : Name

-- A row of `webhook_deliveries`, whose unique key is (intent_id, event_type).
pub record Delivery : Type 0 where
  pub intent_id : Name
  pub event_type : EventType
  pub webhook_url : Name
  pub payload : WebhookPayload
  pub status : DeliveryStatus
  pub attempt_count : ℕ
  pub next_retry_at : Option ℕ
  pub completed_at : Option ℕ

-- One `fetch` of the webhook service.
pub record Request : Type 0 where
  pub url : Name
  pub intent_id : Name
  pub event_type : EventType
  pub body : WebhookPayload

-- What a method meets outside the process: the clock, the merchants' servers and the HMAC.
pub record Env : Type 0 where
  pub now : ℕ
  pub responds_ok : Request → Bool  -- false for an HTTP error, a network error and a timeout
  pub generate_signature : Name → EventType → Payload → Name

pub record Store : Type 0 where
  pub merchants : List MerchantConfig
  pub intents : List PaymentIntent
  pub events : List IntentEvent  -- oldest first, the order of created_at
  pub deliveries : List Delivery
  pub sent : List Request  -- every request that left the process, newest first

pub data Error : Type 0 where
  merchant_not_found target_asset_not_accepted target_chain_not_accepted : Error
  amount_not_positive amount_exceeds_maximum : Error
  cannot_generate_quote cannot_await_payment : IntentState → Error
  intent_not_found : Name → Error
  row_not_found : Name → Error
  invalid_state_transition : IntentState → IntentState → Error
  concurrent_modification : Name → Error
  duplicate_key : Name → Error
  quote_expired_error : Name → Error
