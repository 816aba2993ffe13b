-- ===== src/Intent/Deposits.antt =====
-- Deposits: `detectDeposit` and `recordDeposit` of
-- packages/payment-intent/src/payment-intent.service.ts.
pub mod Outcome
pub mod Laws
pub mod Recording
use nexora_gateway.Prelude.{ℕ, Bool, List, [], ◌∷◌, ◌++◌, Option, none, some, if◌then◌else◌}
use nexora_gateway.Prelude.Int.{ℤ, ◌-ℤ◌, scale, ltb_ℤ}
use nexora_gateway.Prelude.Action.{◌>>=◌, ◌>>◌, and_then, handle, pure, throw, catching, or_throw}
use nexora_gateway.Intent.State.{
  quoted, quote_expired, deposit_detected, underpayment_detected, overpayment_detected, same_state,
}
use nexora_gateway.Intent.Data.{
  Name, name, amount, time, Payload, PaymentIntent, Env, Error, quote_expired_error,
}
use nexora_gateway.Intent.Repository.{find_by_id, transition, accepts_deposit, expired_by}
use nexora_gateway.Intent.Service.{Method, require_intent, move_and_notify, await_payment}

-- A transfer as the watcher reports it.
pub record Transfer : Type 0 where
  pub tx_hash : Name
  pub received : ℤ
  pub source_chain : Name
  pub source_asset : Name

-- `amount < expected * (1 - 0.01)`, in exact arithmetic.
unfoldable pub is_short : ℤ → ℤ → Bool
is_short received expected = ltb_ℤ (scale 100 received) (scale 99 expected)

-- `amount > expected * (1 + 0.01)`.
unfoldable pub is_excess : ℤ → ℤ → Bool
is_excess received expected = ltb_ℤ (scale 101 expected) (scale 100 received)

abbrev shortfall_payload : ℤ → Transfer → Payload
shortfall_payload expected t =
    ("expected", amount expected)
    ∷ ("received", amount t.received)
    ∷ ("shortfall", amount (expected -ℤ t.received))
    ∷ ("tx_hash", name t.tx_hash)
    ∷ []

abbrev excess_payload : ℤ → Transfer → Payload
excess_payload expected t =
    ("expected", amount expected)
    ∷ ("received", amount t.received)
    ∷ ("excess", amount (t.received -ℤ expected))
    ∷ ("tx_hash", name t.tx_hash)
    ∷ []

abbrev source_payload : Transfer → Payload
source_payload t =
    ("source_chain", name t.source_chain) ∷ ("source_asset", name t.source_asset) ∷ []

abbrev deposit_payload : Transfer → Payload
deposit_payload t = ("tx_hash", name t.tx_hash) ∷ ("amount", amount t.received) ∷ source_payload t

-- The part of `detectDeposit` after the quote was found to be in force.
unfoldable pub judge_amount : Env → Name → Transfer → ℤ → Method PaymentIntent
judge_amount env id t expected =
    if is_short t.received expected
    then move_and_notify env id underpayment_detected
        (shortfall_payload expected t ++ source_payload t) (shortfall_payload expected t)
    else if is_excess t.received expected
    then move_and_notify env id overpayment_detected (excess_payload expected t ++ source_payload t)
        (excess_payload expected t)
    else move_and_notify env id deposit_detected (("detected_at", time env.now) ∷ deposit_payload t)
        (deposit_payload t)

unfoldable pub expire_quote : Env → Name → Method PaymentIntent
expire_quote env id =
    transition id quote_expired (("expired_at", time env.now) ∷ []) env.now
    >> throw (quote_expired_error id)

unfoldable pub detect_deposit : Env → Name → Transfer → Method PaymentIntent
unfolding require_intent expire_quote judge_amount
detect_deposit env id t = do
  intent ← require_intent id
  if expired_by env.now intent.quote_expires_at
      then expire_quote env id
      else judge_amount env id t intent.target_amount

-- The `catch` of `recordDeposit`.
unfoldable pub rescue : Name → Error → Method PaymentIntent
rescue id (quote_expired_error k) = do
  expired ← find_by_id id
  or_throw expired (quote_expired_error k)
rescue id e = throw e

-- `if (intent.state === 'QUOTED') await this.awaitPayment(intentId)`.
unfoldable pub catch_up : Env → Name → PaymentIntent → Method (Unit {0})
catch_up env id intent =
    if same_state intent.state quoted then await_payment env id >> pure tt else pure tt

unfoldable pub record_deposit : Env → Name → Transfer → Method PaymentIntent
unfolding require_intent catch_up
record_deposit env id t = do
  intent ← require_intent id
  if accepts_deposit intent.state
      then catch_up env id intent >> catching (detect_deposit env id t) (rescue id)
      else pure intent
