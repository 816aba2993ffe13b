-- ===== src/Settlement/Service.antt =====
-- packages/settlement/src/settlement.service.ts. The chain client, the clock while it polls and the
-- answer to each of the two writes to the ledger are parameters. The clock is read once for the other
-- steps of a call.
use nexora_gateway.Prelude.{
  ℕ, zero, suc, ◌+◌, ◌*◌, ◌^◌, Bool, true, false, ◌&&◌, ◌∷◌, Option, none, some, ltb, leb,
  if◌then◌else◌,
}
use nexora_gateway.Prelude.Int.{ℤ, ◌-ℤ◌}
use nexora_gateway.Prelude.Action.{
  Result, ok, err, Action, ◌>>=◌, ◌>>◌, pure, throw, gets, modify, or_throw, throw_unless, catching,
}
use nexora_gateway.Intent.Data.{Name, PaymentIntent, MerchantConfig}
use nexora_gateway.Ledger.{FeeRecord, PayoutRecord, Ledger, record_fee, record_settlement}
use nexora_gateway.Ledger.Queries.{calculate_settlement_amount}
use nexora_gateway.Settlement.Repository.{
  SettlementStatus, pending, processing, completed, failed, retrying, Settlement, SettlementError,
  network_error, timeout, insufficient_gas, econnreset, failed_on_chain, confirmation_timeout,
  out_of_fuel, settlement_not_found, cannot_retry, settlement_failed, Books, CreateSettlementParams,
  UpdateSettlementParams, create_settlement, find_settlement, update_settlement,
}

pub record Tx : Type 0 where
  pub from : Name
  pub to : Name
  pub value : ℤ

pub record SignedTx : Type 0 where
  pub from : Name
  pub to : Name

pub record TxStatus : Type 0 where
  pub confirmations : ℕ
  pub is_failed : Bool

-- `IChainClient`, the database's answers to the two writes of the ledger, and the time that one pass of
-- the polling loop takes beyond its delay.
pub record World : Type 0 where
  pub now : ℕ
  pub estimate_gas : Tx → Result SettlementError ℕ
  pub submit_transaction : SignedTx → Result SettlementError Name
  pub get_transaction_status : Name → ℕ → Result SettlementError TxStatus
  pub get_confirmation_depth : ℕ
  pub call_time : ℕ → ℕ
  pub fee_write : Option SettlementError  -- the error of the fee's entry, if it is refused
  pub payout_write : Option SettlementError  -- and of the payout's

abbrev pub max_retries : ℕ
max_retries = 3

abbrev pub base_retry_delay : ℕ
base_retry_delay = 1000

abbrev pub poll_interval : ℕ
poll_interval = 2000

abbrev pub max_wait_time : ℕ
max_wait_time = 300000

-- The zero address stands in for the hot wallet's.
unfoldable pub get_settlement_address : Name → Name
get_settlement_address chain = 0

unfoldable pub sign_transaction : Tx → SignedTx
sign_transaction tx = record { from = tx.from; to = tx.to }

abbrev pub on_ok : {E A B : Type 0} → Result E A → (A → Result E B) → Result E B
on_ok (ok a) f = f a
on_ok (err e) f = err e

unfoldable pub execute_transaction : World → Settlement → Result SettlementError Name
unfolding sign_transaction get_settlement_address
execute_transaction w s =
    let tx : Tx = record {
      from = get_settlement_address s.chain;
      to = s.destination_address;
      value = s.amount;
    } in
    on_ok (w.estimate_gas tx) (λ gas. w.submit_transaction (sign_transaction tx))

-- One answer of the chain in the loop, and what follows when it settles nothing.
abbrev pub after_status :
    World
    → Result SettlementError TxStatus
    → Option (Result SettlementError (Unit {0}))
    → Option (Result SettlementError (Unit {0}))
after_status w (err e) rest = some (err e)
after_status w (ok status) rest =
    if leb w.get_confirmation_depth status.confirmations
    then some (ok tt)
    else (if status.is_failed then some (err failed_on_chain) else rest)

-- The loop, from the elapsed time: `none` when the fuel runs out.
unfoldable pub wait_for_confirmation :
    World → Name → ℕ → ℕ → Option (Result SettlementError (Unit {0}))
wait_for_confirmation w tx zero elapsed = none
wait_for_confirmation w tx (suc fuel) elapsed =
    let rest = wait_for_confirmation w tx fuel (elapsed + w.call_time elapsed + poll_interval) in
    if ltb elapsed max_wait_time
    then after_status w (w.get_transaction_status tx elapsed) rest
    else some (err confirmation_timeout)

-- Enough passes for five minutes.
abbrev pub poll_fuel : ℕ
poll_fuel = 151

abbrev pub lift_result : {A : Type 0} → Result SettlementError A → Action Books SettlementError A
lift_result r b = (r, b)

abbrev pub finished : Option (Result SettlementError (Unit {0})) → Result SettlementError (Unit {0})
finished none = err out_of_fuel
finished (some r) = r

abbrev pub set_ledger : Ledger → Books → Books
set_ledger l b = record { settlements = b.settlements; ledger = l; scheduled = b.scheduled }

-- A write to the ledger, which the database may refuse with an error.
abbrev pub write_ledger :
    Option SettlementError → (Ledger → Ledger) → Action Books SettlementError (Unit {0})
write_ledger none f b = (ok tt, set_ledger (f b.ledger) b)
write_ledger (some e) f b = (err e, b)

abbrev pub fee_record : PaymentIntent → MerchantConfig → ℤ → FeeRecord
fee_record intent merchant amount = record {
  intent_id = intent.id;
  amount = intent.target_amount -ℤ amount;
  asset = merchant.settlement_asset;
  chain = merchant.settlement_chain;
  merchant_id = merchant.id;
  fee_type = 1;
  percentage = merchant.fee_percentage;
}

abbrev pub hash_of : Option Name → Name
hash_of none = 0
hash_of (some h) = h

abbrev pub payout_record : Settlement → PayoutRecord
payout_record s = record {
  intent_id = s.intent_id;
  amount = s.amount;
  asset = s.asset;
  chain = s.chain;
  merchant_id = s.merchant_id;
  tx_hash = hash_of s.tx_hash;
  destination_address = s.destination_address;
}

abbrev pub set_processing : Name → UpdateSettlementParams
set_processing hash = record { status = some processing; tx_hash = some hash; completed_at = none }

abbrev pub set_completed : ℕ → UpdateSettlementParams
set_completed now = record { status = some completed; tx_hash = none; completed_at = some now }

abbrev pub set_status : SettlementStatus → UpdateSettlementParams
set_status s = record { status = some s; tx_hash = none; completed_at = none }

-- The identifiers of the two ledger entries, in the order in which they are made.
abbrev pub EntryIds : Type 0
EntryIds = Name × Name

unfoldable pub record_ledger :
    World
    → EntryIds
    → PaymentIntent
    → MerchantConfig
    → ℤ
    → Settlement
    → Action Books SettlementError (Unit {0})
unfolding record_fee record_settlement
record_ledger w (fee_id, payout_id) intent merchant amount done =
    (if ltb 0 merchant.fee_percentage
      then write_ledger w.fee_write
          (λ l. (record_fee fee_id w.now (fee_record intent merchant amount) l).1)
      else pure tt)
    >> write_ledger w.payout_write
        (λ l. (record_settlement payout_id w.now (payout_record done) l).1)

-- The body of the `try` in `settleIntent`.
unfoldable pub pay_out :
    World
    → EntryIds
    → PaymentIntent
    → MerchantConfig
    → ℤ
    → Settlement
    → Action Books SettlementError Settlement
unfolding execute_transaction wait_for_confirmation update_settlement record_ledger
pay_out w ids intent merchant amount s = lift_result (execute_transaction w s) >>= λ hash.
    update_settlement s.id w.now (set_processing hash)
    >> lift_result (finished (wait_for_confirmation w hash poll_fuel 0))
    >> update_settlement s.id w.now (set_completed w.now)
    >>= λ done. record_ledger w ids intent merchant amount done >> pure done

abbrev pub is_retryable_error : SettlementError → Bool
is_retryable_error network_error = true
is_retryable_error timeout = true
is_retryable_error insufficient_gas = true
is_retryable_error econnreset = true
is_retryable_error _ = false

-- The count is a placeholder in the code.
unfoldable pub get_retry_count : Name → ℕ
get_retry_count id = 0

abbrev pub schedule : Name → ℕ → Books → Books
schedule id delay b = record {
  settlements = b.settlements;
  ledger = b.ledger;
  scheduled = (id, delay) ∷ b.scheduled;
}

unfoldable pub handle_settlement_failure :
    World → Name → SettlementError → Action Books SettlementError Settlement
unfolding get_retry_count update_settlement
handle_settlement_failure w id e =
    update_settlement id w.now (set_status failed)
    >> modify (λ b.
      if is_retryable_error e && ltb (get_retry_count id) max_retries
      then schedule id (base_retry_delay * 2 ^ get_retry_count id) b
      else b)
    >> throw (settlement_failed id e)

abbrev pub new_params : PaymentIntent → MerchantConfig → ℤ → CreateSettlementParams
new_params intent merchant amount = record {
  intent_id = intent.id;
  merchant_id = merchant.id;
  amount = amount;
  asset = merchant.settlement_asset;
  chain = merchant.settlement_chain;
  destination_address = merchant.settlement_address;
}

unfoldable pub settle_intent :
    World
    → Name
    → EntryIds
    → PaymentIntent
    → MerchantConfig
    → Action Books SettlementError Settlement
unfolding calculate_settlement_amount create_settlement pay_out handle_settlement_failure
settle_intent w id ids intent merchant b =
    let amount = calculate_settlement_amount intent.target_amount merchant.fee_percentage in
    let (s, created) = create_settlement id w.now (new_params intent merchant amount) b in
    catching (pay_out w ids intent merchant amount s) (handle_settlement_failure w s.id) created

abbrev pub may_retry : SettlementStatus → Bool
may_retry pending = false
may_retry processing = false
may_retry completed = false
may_retry failed = true
may_retry retrying = true

unfoldable pub retry_settlement : World → Name → Action Books SettlementError Settlement
unfolding find_settlement update_settlement
retry_settlement w id = gets (λ b. find_settlement id b.settlements) >>= λ found.
    or_throw found (settlement_failed id (settlement_not_found id)) >>= λ s.
    throw_unless (may_retry s.status) (settlement_failed id (cannot_retry s.status))
    >> update_settlement id w.now (set_status retrying)
