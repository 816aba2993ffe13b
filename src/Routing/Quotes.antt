-- ===== src/Routing/Quotes.antt =====
-- packages/shared/src/types/routing.ts: quotes, their parameters and the merchant's preferences.
use nexora_gateway.Prelude.{ℕ, List}
use nexora_gateway.Prelude.Int.{ℤ}
use nexora_gateway.Intent.Data.{Name}

pub record RouteStep : Type 0 where
  pub chain : Name
  pub protocol : Name
  pub action : Name
  pub input_amount : ℤ
  pub output_amount : ℤ
  pub fee : ℤ

pub record RouteQuote : Type 0 where
  pub id : Name
  pub provider : Name
  pub source_chain : Name
  pub source_asset : Name
  pub source_amount : ℤ
  pub target_chain : Name
  pub target_asset : Name
  pub target_amount : ℤ
  pub steps : List RouteStep
  pub estimated_fee : ℤ
  pub estimated_time : ℤ
  pub security_score : ℤ
  pub reliability_score : ℤ
  pub expires_at : ℕ

pub record RouteQuoteParams : Type 0 where
  pub source_chain : Name
  pub source_asset : Name
  pub source_amount : ℤ
  pub target_chain : Name
  pub target_asset : Name
  pub target_amount : ℤ

pub data RouteStatus : Type 0 where
  pending executing completed failed refunded : RouteStatus

pub record RouteExecutionResult : Type 0 where
  pub execution_id : Name
  pub status : RouteStatus
  pub transaction_hashes : List Name
  pub actual_fee : ℤ
  pub actual_time : ℤ

-- The limits are positive, in the units of the fee and of the time. Weights are hundredths.
pub record MerchantPreferences : Type 0 where
  pub max_fee : ℕ
  pub max_time : ℕ
  pub fee_weight : ℕ
  pub time_weight : ℕ
  pub security_weight : ℕ
  pub reliability_weight : ℕ
