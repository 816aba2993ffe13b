-- ===== src/Jobs/Worker.antt =====
-- packages/worker/src/job-queue.ts: the handlers and one batch of a worker.
use nexora_gateway.Prelude.{ℕ, List, [], ◌∷◌, Option, none, some, ◌==◌, if◌then◌else◌, length}
use nexora_gateway.Intent.Data.{Name}
use nexora_gateway.Jobs.{Job, JobQueueOptions, Jitter, claim_batch, complete, fail, reclaim_stale}

-- The handlers: a job may change the world, and reports whether it returned or threw.
module _ (World : Type 0) where
  abbrev pub Handler : Type 0
  Handler = Job → World → Option Name × World

  abbrev pub Handlers : Type 0
  Handlers = List (Name × Handler)

  unfoldable pub handler_for : Name → Handlers → Option Handler
  handler_for t [] = none
  handler_for t ((u, h) ∷ hs) = if u == t then some h else handler_for t hs

  -- `registerHandler`; `none` is the error on a type that has a handler.
  unfoldable pub register_handler : Name → Handler → Handlers → Option Handlers
  unfolding handler_for
  register_handler t h hs = elim (handler_for t hs) [ none ↦ some ((t, h) ∷ hs) | some _ ↦ none ]

  -- After a handler ran: no message is a normal return.
  unfoldable pub settle :
      JobQueueOptions → Jitter → ℕ → Job → Option Name × World → List Job → List Job × World
  unfolding complete fail
  settle o jitter now j (none, w) jobs = (complete now j.id jobs, w)
  settle o jitter now j (some message, w) jobs = ((fail o jitter now j message none jobs).1, w)

  -- The body of the loop of `runOnce`. The message of a missing handler is `missing`.
  unfoldable pub process :
      JobQueueOptions
      → Jitter
      → ℕ
      → Name
      → Option Handler
      → Job
      → List Job × World
      → List Job × World
  unfolding settle fail
  process o jitter now missing none j (jobs, w) =
      ((fail o jitter now (record j { attempt_count = j.max_attempts }) missing none jobs).1, w)
  process o jitter now missing (some h) j (jobs, w) = settle o jitter now j (h j w) jobs

  unfoldable pub process_all :
      JobQueueOptions
      → Jitter
      → ℕ
      → Name
      → Handlers
      → List Job
      → List Job × World
      → List Job × World
  unfolding process handler_for
  process_all o jitter now missing hs [] s = s
  process_all o jitter now missing hs (j ∷ js) s =
      process_all o jitter now missing hs js
        (process o jitter now missing (handler_for j.job_type hs) j s)

  unfoldable pub run_once :
      JobQueueOptions
      → Jitter
      → ℕ
      → Name
      → Name
      → Handlers
      → List Job × World
      → ℕ × List Job × World
  unfolding claim_batch process_all
  run_once o jitter now missing queue hs (jobs, w) =
      let (batch, jobs') = claim_batch o now queue o.concurrency jobs in
      let (jobs'', w') = process_all o jitter now missing hs batch (jobs', w) in
      (length batch, jobs'', w')

  -- One cycle of the loop of `run`: what is stale goes back first.
  unfoldable pub run_cycle :
      JobQueueOptions
      → Jitter
      → ℕ
      → Name
      → Name
      → Handlers
      → List Job × World
      → ℕ × List Job × World
  unfolding reclaim_stale run_once
  run_cycle o jitter now missing queue hs (jobs, w) =
      run_once o jitter now missing queue hs ((reclaim_stale o now jobs).1, w)

  -- `run` until the signal: the times of its cycles.
  unfoldable pub run :
      JobQueueOptions
      → Jitter
      → Name
      → Name
      → Handlers
      → List ℕ
      → List Job × World
      → List Job × World
  unfolding run_cycle
  run o jitter missing queue hs [] s = s
  run o jitter missing queue hs (now ∷ times) s =
      run o jitter missing queue hs times
        (let (ran, jobs', w') = run_cycle o jitter now missing queue hs s in (jobs', w'))
