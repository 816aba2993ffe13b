-- ===== src/Worker/Delivery.antt =====
-- A transfer from the watcher through the queue to the intent.
use nexora_gateway.Prelude.{
  ℕ, ◌*◌, ◌/◌, ◌^◌, ◌≤◌, ◌<◌, ◌≡◌, refl, ◌∙◌, subst, true, false, List, [], ◌∷◌, ◌++◌, Option, none,
  some, arith, ◌==◌,
}
use nexora_gateway.Prelude.Int.{pos}
use nexora_gateway.Prelude.Action.{Result, ok, err}
use nexora_gateway.Intent.State.{detected}
use nexora_gateway.Intent.Data.{Name, PaymentIntent, Env, Store, Error, field_of}
use nexora_gateway.Intent.Repository.{find_row, expired_by}
use nexora_gateway.Intent.Deposits.{Transfer, is_short, is_excess, record_deposit}
use nexora_gateway.Intent.Deposits.Recording.{Waits, record_deposit_detects}
use nexora_gateway.Jobs.{
  Job, JobQueueOptions, EnqueueOptions, Jitter, new_job, has_idempotency_key, claimed, finished,
  succeeded,
}
use nexora_gateway.Jobs.Claims.{enqueue_old, enqueue_new, has_idempotency_key-append}
use nexora_gateway.Jobs.Runs.{due_runnable}
use nexora_gateway.Jobs.Single.{run_once_single}
use nexora_gateway.Jobs.Worker.{Handler, Handlers, handler_for, register_handler, run_once}
use nexora_gateway.Worker.{job_deposit_record, queue_deposits}
use nexora_gateway.Worker.Handlers.{
  HandlerError, handle_deposit_record, require_string, require_amount, from_service, thrown, queued,
  register_job_handlers,
}
use nexora_gateway.Worker.Watcher.{
  Text, DepositEvent, Watcher, new_watcher, record_task, normalize_amount, on_deposit, task_of,
  counted, awaiting_at,
}

-- The same transfer reported again and again: each time with the job id that the database would
-- give and the time.
abbrev pub observe :
    JobQueueOptions
    → Text
    → Name
    → DepositEvent
    → Store
    → List (Name × ℕ)
    → Watcher × List Job
    → Watcher × List Job
observe o text chain event db [] s = s
observe o text chain event db ((id, now) ∷ times) s =
    observe o text chain event db times (on_deposit o text id now chain event db s)

module _ (o : JobQueueOptions) (text : Text) (chain : Name) (event : DepositEvent)
    (db : Store) where
  abbrev the_task : EnqueueOptions
  the_task = task_of text chain event (awaiting_at chain event.to db)

  observe-known :
      (times : List (Name × ℕ)) (w : Watcher) (jobs : List Job)
      → has_idempotency_key the_task.idempotency_key jobs ≡ true
      → (observe o text chain event db times (w, jobs)).1 ≡ jobs
  unfolding on_deposit
  observe-known [] w jobs known = refl
  observe-known ((id, now) ∷ times) w jobs known =
      rw (observe, on_deposit, enqueue_old o id now the_task jobs known)
        (observe-known times (counted now (awaiting_at chain event.to db) w) jobs known)

  -- On a queue that does not know the transfer, the first report adds its job, and further reports
  -- add nothing.
  observe-new :
      (id now : ℕ) (times : List (Name × ℕ)) (w : Watcher) (jobs : List Job)
      → has_idempotency_key the_task.idempotency_key jobs ≡ false
      → (observe o text chain event db ((id, now) ∷ times) (w, jobs)).1
        ≡ jobs ++ new_job o id now the_task ∷ []
  unfolding on_deposit
  observe-new id now times w jobs absent =
      rw (observe, on_deposit, enqueue_new o id now the_task jobs absent)
        (observe-known times (counted now (awaiting_at chain event.to db) w)
          (jobs ++ new_job o id now the_task ∷ [])
          (unfold new_job in
            has_idempotency_key-append the_task.idempotency_key jobs (new_job o id now the_task)
              refl))

-- The job's fields are there, and its amount is a number.
abbrev pub IsLegible : Text → Name → DepositEvent → PaymentIntent → ℕ → Type 0
IsLegible text chain event row n =
    ((row.id == 0) ≡ false)
    × ((event.tx_hash == 0) ≡ false)
    × ((chain == 0) ≡ false)
    × ((event.asset.symbol == 0) ≡ false)
    × (text.to_number event.amount ≡ some n)

-- The transfer that the handler reads back from the job.
abbrev pub delivered : Name → DepositEvent → ℕ → Transfer
delivered chain event n = record {
  tx_hash = event.tx_hash;
  received = pos (n * 10 ^ 8 / 10 ^ event.asset.decimals);
  source_chain = chain;
  source_asset = event.asset.symbol;
}

handle_deposit_record-task :
    (text : Text) (chain : Name) (event : DepositEvent) (row : PaymentIntent) (n : ℕ) (env : Env)
    (j : Job) (db : Store)
    → IsLegible text chain event row n
    → j.payload ≡ (record_task text chain event row).payload
    → handle_deposit_record env j db
      ≡ from_service (record_deposit env row.id (delivered chain event n) db)
unfolding handle_deposit_record require_string require_amount record_task field_of normalize_amount
handle_deposit_record-task text chain event row n env j db (a, b, c, d, e) same =
    rw same (rw (a, b, c, d, e) refl)

module _ (message : HandlerError → Name) (env : Env) where
  returned :
      (x : Result Error PaymentIntent × Store) (new : PaymentIntent)
      → x.0 ≡ ok new
      → thrown message (from_service x) ≡ (none, x.1)
  returned (ok intent, db) new h = refl
  returned (err e, db) new h = absurd (cc)

  abbrev found_in : Option (Handlers Store) → Option (Handler Store)
  found_in none = none
  found_in (some hs) = handler_for Store job_deposit_record hs

  handler_for-record :
      (hs : Handlers Store)
      → register_job_handlers message env [] ≡ some hs
      → handler_for Store job_deposit_record hs ≡ some (queued message (handle_deposit_record env))
  unfolding register_job_handlers register_handler handler_for
  handler_for-record hs h = found (some hs) h
    where
      found :
          (x : Option (Handlers Store))
          → register_job_handlers message env [] ≡ x
          → found_in x ≡ some (queued message (handle_deposit_record env))
      found x e = subst (λ y. found_in y ≡ some (queued message (handle_deposit_record env))) e refl

  -- A transfer that an intent awaits, reported once and then any number of times again to a watcher
  -- with an empty queue, makes one job. A batch of the worker with the registered handlers, run in
  -- time, runs it, and leaves that job as succeeded and the intent as DETECTED. The intent is
  -- quoted or awaits payment, its quote is in force, the amount is within one percent, and no text
  -- of the job is empty.
  pub observed_detected :
      (o : JobQueueOptions) (jitter : Jitter) (text : Text) (missing chain : Name)
      (event : DepositEvent) (db : Store) (row : PaymentIntent) (n id first : ℕ)
      (again : List (Name × ℕ)) (hs : Handlers Store)
      → register_job_handlers message env [] ≡ some hs
      → 0 < o.concurrency
      → first ≤ env.now
      → awaiting_at chain event.to db ≡ some row
      → IsLegible text chain event row n
      → Waits row.id db row
      → expired_by env.now row.quote_expires_at ≡ false
      → is_short (delivered chain event n).received row.target_amount ≡ false
      → is_excess (delivered chain event n).received row.target_amount ≡ false
      → let jobs = (observe o text chain event db ((id, first) ∷ again) (new_watcher, [])).1 in
        let (ran, jobs', db') =
          run_once Store o jitter env.now missing queue_deposits hs (jobs, db) in
        (job : Job) × (new : PaymentIntent) × (ran ≡ 1)
        × (jobs' ≡ job ∷ [])
        × (job.status ≡ succeeded)
        × (find_row row.id db'.intents ≡ some new)
        × (new.state ≡ detected)
  unfolding new_job claimed record_task
  observed_detected o jitter text missing chain event db row n id first again hs registered
        some_room due found legible waits early enough exact =
      let t = delivered chain event n in
      let j = new_job o id first (record_task text chain event row) in
      let (new, r, s, stored) =
        record_deposit_detects env row.id t db row waits early enough exact in
      let one : (observe o text chain event db ((id, first) ∷ again) (new_watcher, [])).1 ≡ j ∷ [] =
        observe-new o text chain event db id first again new_watcher [] refl ∙ rw found refl in
      let runs : queued message (handle_deposit_record env) (claimed o env.now j) db
          ≡ (none, (record_deposit env row.id t db).1) =
        rw
          (handle_deposit_record-task text chain event row n env (claimed o env.now j) db legible
            refl)
          (returned (record_deposit env row.id t db) new r) in
      rw one (
        rw
          (run_once_single o jitter env.now missing hs (queued message (handle_deposit_record env))
            j db (record_deposit env row.id t db).1 some_room
            (due_runnable env.now j refl (omega (arith, due))) (handler_for-record hs registered)
            runs)
          (finished env.now (claimed o env.now j), new, refl, refl, refl, stored, s))
