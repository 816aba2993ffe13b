-- ===== src/Examples/Worker.antt =====
-- The worker: a watched address, a transfer on its way to the intent, a sweep, and a replayed job.
use nexora_gateway.Prelude.{
  ◌≡◌, refl, [], ◌∷◌, none, some, ◌⊎◌, inr, All, Occurs, includes, if◌then◌else◌, arith,
}
use nexora_gateway.Prelude.Int.{pos, scale}
use nexora_gateway.Prelude.Action.{err}
use nexora_gateway.Intent.State.{awaiting_payment, detected, confirming, is_valid_transition}
use nexora_gateway.Intent.Data.{
  Name, name, count, PaymentIntent, Store, field_of, invalid_state_transition,
}
use nexora_gateway.Intent.Repository.{find_row, find_awaiting_deposit_at, transition}
use nexora_gateway.Intent.Service.{confirm_deposit, move_and_notify}
use nexora_gateway.Intent.Deposits.{is_short, is_excess, record_deposit}
use nexora_gateway.Jobs.{Job, JobQueueOptions, Jitter, pending, succeeded}
use nexora_gateway.Jobs.Worker.{Handlers, handler_for, register_handler, run_once}
use nexora_gateway.Worker.{job_deposit_confirm, queue_deposits}
use nexora_gateway.Worker.Handlers.{
  HandlerError, service_error, queued, handle_deposit_record, handle_deposit_confirm,
  handle_deposit_unattributed, register_job_handlers,
}
use nexora_gateway.Worker.Watcher.{
  Text, DepositEvent, new_watcher, watched_on, refresh, awaiting_at,
}
use nexora_gateway.Worker.Tracker.{ChainClient, Tracker, confirmed, run_sweep}
use nexora_gateway.Worker.Replays.{handle_deposit_confirm_again}
use nexora_gateway.Worker.Subscriptions.{is_found, refresh_watched}
use nexora_gateway.Worker.Delivery.{observe, observed_detected}
use nexora_gateway.Worker.Sweeps.{IsSupported, run_sweep-IsSupported}
use nexora_gateway.Examples.Data.{store_in, intent_in, at_time}

abbrev text : Text
text = record {
  join = λ names. elim names [ [] ↦ 0 | ◌∷◌ x xs ↦ x ];
  to_lower_case = λ n. n;
  to_number = λ n. some n;
}

abbrev options : JobQueueOptions
options = record {
  worker_id = 1;
  concurrency = 2;
  default_max_attempts = 3;
  backoff_base_ms = 1000;
  backoff_max_ms = 60000;
  visibility_timeout_ms = 300000;
}

abbrev no_jitter : Jitter
no_jitter n = 0

abbrev no_message : HandlerError → Name
no_message e = 1

-- 100 units of a token of six decimals, sent to the address of the intent.
abbrev event : DepositEvent
event = record {
  tx_hash = 4;
  block_number = 77;
  from = 12;
  to = 11;
  asset = record { address = 13; symbol = 2; decimals = 6 };
  amount = 100000000;
  confirmations = 0;
}

abbrev waiting : Store
waiting = store_in awaiting_payment

refresh_watched_example :
    includes (watched_on 3 (refresh (3 ∷ []) waiting new_watcher).subscriptions) 11 ≡ (
      if includes (3 ∷ []) 3
      then is_found (awaiting_at 3 11 waiting)
      else includes (watched_on 3 new_watcher.subscriptions) 11)
refresh_watched_example = refresh_watched (3 ∷ []) waiting new_watcher 3 11 refl refl

abbrev handlers : Handlers Store
handlers =
    (3, queued no_message handle_deposit_unattributed)
    ∷ (2, queued no_message (handle_deposit_confirm (at_time 50)))
    ∷ (1, queued no_message (handle_deposit_record (at_time 50)))
    ∷ []

observed_detected_example :
    let jobs =
      (observe options text 3 event waiting ((21, 40) ∷ (22, 45) ∷ []) (new_watcher, [])).1 in
    let (ran, jobs', db') =
      run_once Store options no_jitter 50 0 queue_deposits handlers (jobs, waiting) in
    (job : Job) × (new : PaymentIntent) × (ran ≡ 1)
    × (jobs' ≡ job ∷ [])
    × (job.status ≡ succeeded)
    × (find_row 1 db'.intents ≡ some new)
    × (new.state ≡ detected)
unfolding register_job_handlers register_handler handler_for find_awaiting_deposit_at awaiting_at
    find_row is_short is_excess scale
observed_detected_example =
    observed_detected no_message (at_time 50) options no_jitter text 0 3 event waiting
      (intent_in awaiting_payment) 100000000 21 40 ((22, 45) ∷ []) handlers refl (omega arith)
      (omega arith) refl (refl, refl, refl, refl, refl) (refl, inr refl) refl refl refl

abbrev client : ChainClient
client = record {
  chain_id = 3;
  confirmation_depth = 6;
  get_transaction_status = λ hash. some (record { status = confirmed; confirmations = 9 });
}

abbrev idle : Tracker
idle = record { sweeps = 0; examined = 0; confirmed = 0; awaiting = 0; last_sweep_at = none }

-- The store after the transfer was recorded, where the sweep finds its hash.
abbrev paid : Store
paid =
    (record_deposit (at_time 50) 1
      (record { tx_hash = 4; received = pos 10000000000; source_chain = 3; source_asset = 2 })
      waiting).1

run_sweep-IsSupported_example :
    All
      (λ j. Occurs j [] ⊎ IsSupported (client ∷ []) paid j)
      (run_sweep options text (client ∷ []) (λ n. n) 100 60 paid (idle, [])).2
run_sweep-IsSupported_example =
    run_sweep-IsSupported options text (client ∷ []) (λ n. n) 100 60 paid idle []

abbrev confirmation : Job
confirmation = record {
  id = 31;
  queue = queue_deposits;
  job_type = job_deposit_confirm;
  payload = ("intentId", name 1) ∷ ("txHash", name 4) ∷ ("confirmations", count 9) ∷ [];
  idempotency_key = 32;
  status = pending;
  attempt_count = 1;
  max_attempts = 3;
  run_at = 0;
  locked_at = none;
  locked_by = none;
  last_error = [];
  created_at = 0;
  completed_at = none;
}

abbrev confirmed_store : Store
confirmed_store = (handle_deposit_confirm (at_time 70) confirmation (store_in detected)).1

handle_deposit_confirm_again_example :
    handle_deposit_confirm (at_time 90) confirmation confirmed_store
    ≡ (err (service_error (invalid_state_transition confirming confirming)), confirmed_store)
unfolding handle_deposit_confirm field_of confirm_deposit find_row move_and_notify transition
    is_valid_transition
handle_deposit_confirm_again_example =
    handle_deposit_confirm_again (at_time 70) (at_time 90) confirmation (store_in detected)
      confirmed_store refl
