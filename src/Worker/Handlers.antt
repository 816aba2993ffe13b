-- ===== src/Worker/Handlers.antt =====
-- packages/worker/src/job-handlers.ts. A number of a payload is of the kind that the code which
-- enqueues the job writes: `amount` for an amount of money and `count` for confirmations. A number
-- that is not finite is stored as null.
use Prim.Native.String.{String}
use nexora_gateway.Prelude.{ℕ, Option, none, some, ◌==◌, if◌then◌else◌}
use nexora_gateway.Prelude.Int.{ℤ}
use nexora_gateway.Prelude.Action.{Result, ok, err, Action, ◌>>=◌, pure, or_throw}
use nexora_gateway.Intent.Data.{
  Name, Value, name, amount, count, Payload, field_of, PaymentIntent, Env, Store, Error,
}
use nexora_gateway.Intent.Service.{confirm_deposit}
use nexora_gateway.Intent.Deposits.{Transfer, record_deposit}
use nexora_gateway.Jobs.{Job}
use nexora_gateway.Jobs.Worker.{Handler, Handlers, register_handler}
use nexora_gateway.Worker.{job_deposit_record, job_deposit_confirm, job_deposit_unattributed}

pub data HandlerError : Type 0 where
  missing_string missing_number : String → HandlerError
  service_error : Error → HandlerError

abbrev non_empty : Name → Option Name
non_empty n = if n == 0 then none else some n

abbrev pub string_of : Value → Option Name
string_of (name n) = non_empty n
string_of _ = none

unfoldable pub require_string : String → Payload → Action Store HandlerError Name
require_string key payload = or_throw (string_of (field_of key payload)) (missing_string key)

abbrev pub amount_of : Value → Option ℤ
amount_of (amount z) = some z
amount_of _ = none

abbrev pub count_of : Value → Option ℕ
count_of (count n) = some n
count_of _ = none

unfoldable pub require_amount : String → Payload → Action Store HandlerError ℤ
require_amount key payload = or_throw (amount_of (field_of key payload)) (missing_number key)

unfoldable pub require_count : String → Payload → Action Store HandlerError ℕ
require_count key payload = or_throw (count_of (field_of key payload)) (missing_number key)

-- A call of the service: its error leaves the handler.
abbrev pub from_service :
    Result Error PaymentIntent × Store → Result HandlerError (Unit {0}) × Store
from_service (ok intent, db) = (ok tt, db)
from_service (err e, db) = (err (service_error e), db)

unfoldable pub handle_deposit_record : Env → Job → Action Store HandlerError (Unit {0})
unfolding require_string require_amount
handle_deposit_record env job = do
  intent_id ← require_string "intentId" job.payload
  tx_hash ← require_string "txHash" job.payload
  source_chain ← require_string "sourceChain" job.payload
  source_asset ← require_string "sourceAsset" job.payload
  received ← require_amount "amount" job.payload
  let t : Transfer = record {
    tx_hash = tx_hash;
    received = received;
    source_chain = source_chain;
    source_asset = source_asset;
  }
  λ db. from_service (record_deposit env intent_id t db)

unfoldable pub handle_deposit_confirm : Env → Job → Action Store HandlerError (Unit {0})
unfolding require_string require_count
handle_deposit_confirm env job = do
  intent_id ← require_string "intentId" job.payload
  confirmations ← require_count "confirmations" job.payload
  λ db. from_service (confirm_deposit env intent_id confirmations db)

-- It only logs.
unfoldable pub handle_deposit_unattributed : Job → Action Store HandlerError (Unit {0})
handle_deposit_unattributed job = pure tt

-- What the queue sees of a handler: the text of what it threw.
module _ (message : HandlerError → Name) where
  abbrev pub thrown : Result HandlerError (Unit {0}) × Store → Option Name × Store
  thrown (ok _, db) = (none, db)
  thrown (err e, db) = (some (message e), db)

  abbrev pub queued : (Job → Action Store HandlerError (Unit {0})) → Handler Store
  queued h job db = thrown (h job db)

  abbrev and_register : Name → Handler Store → Option (Handlers Store) → Option (Handlers Store)
  and_register t h none = none
  and_register t h (some hs) = register_handler Store t h hs

  -- `registerJobHandlers`.
  unfoldable pub register_job_handlers : Env → Handlers Store → Option (Handlers Store)
  register_job_handlers env hs =
      and_register job_deposit_unattributed (queued handle_deposit_unattributed) (
        and_register job_deposit_confirm (queued (handle_deposit_confirm env))
          (and_register job_deposit_record (queued (handle_deposit_record env)) (some hs)))
