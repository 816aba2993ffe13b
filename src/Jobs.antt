-- ===== src/Jobs.antt =====
-- packages/worker/src/job-queue.ts: the durable job queue. Each method is one statement on the jobs
-- table; the clock is read once in a method. `updated_at` is written and never read, and is left out.
pub mod Backoff
pub mod Claims
pub mod Worker
pub mod Runs
pub mod Single
use nexora_gateway.Prelude.{
  ℕ, ◌+◌, ◌-◌, ◌*◌, ◌/◌, ◌^◌, Bool, true, false, ◌&&◌, List, [], ◌∷◌, ◌++◌, map, Option, none, some,
  ◌==◌, ltb, leb, if◌then◌else◌, length, take, keep_if, any_of, includes, find_at, change_at, min,
  max,
}
use nexora_gateway.Intent.Data.{Name, Payload}

pub data JobStatus : Type 0 where
  pending running succeeded failed dead_lettered : JobStatus

pub record Job : Type 0 where
  pub id : Name
  pub queue : Name
  pub job_type : Name
  pub payload : Payload
  pub idempotency_key : Name
  pub status : JobStatus
  pub attempt_count : ℕ
  pub max_attempts : ℕ
  pub run_at : ℕ
  pub locked_at : Option ℕ
  pub locked_by : Option Name
  pub last_error : List Name  -- the messages that ' | ' joins
  pub created_at : ℕ
  pub completed_at : Option ℕ

pub record JobQueueOptions : Type 0 where
  pub worker_id : Name
  pub concurrency : ℕ
  pub default_max_attempts : ℕ
  pub backoff_base_ms : ℕ
  pub backoff_max_ms : ℕ
  pub visibility_timeout_ms : ℕ

-- `Math.random`, as ⌊random() * n⌋.
abbrev pub Jitter : Type 0
Jitter = ℕ → ℕ

-- `attempt - 1` stops at 0, as `Math.max(0, attempt - 1)` does.
unfoldable pub exponential_ms : ℕ → ℕ → ℕ → ℕ
exponential_ms attempt base limit = min limit (base * 2 ^ (attempt - 1))

unfoldable pub compute_backoff_ms : ℕ → ℕ → ℕ → Jitter → ℕ
unfolding exponential_ms
compute_backoff_ms attempt base limit jitter =
    let half = max 1 (exponential_ms attempt base limit / 2) in half + jitter half

pub record EnqueueOptions : Type 0 where
  pub job_type : Name
  pub payload : Payload
  pub idempotency_key : Name
  pub queue : Name
  pub max_attempts : Option ℕ
  pub delay_ms : ℕ

abbrev given : Option ℕ → ℕ → ℕ
given none d = d
given (some n) d = n

abbrev pub has_idempotency_key : Name → List Job → Bool
has_idempotency_key key = any_of (λ j. j.idempotency_key == key)

unfoldable pub new_job : JobQueueOptions → Name → ℕ → EnqueueOptions → Job
new_job o id now e = record {
  id = id;
  queue = e.queue;
  job_type = e.job_type;
  payload = e.payload;
  idempotency_key = e.idempotency_key;
  status = pending;
  attempt_count = 0;
  max_attempts = given e.max_attempts o.default_max_attempts;
  run_at = now + e.delay_ms;
  locked_at = none;
  locked_by = none;
  last_error = [];
  created_at = now;
  completed_at = none;
}

-- `INSERT … ON CONFLICT (idempotency_key) DO NOTHING RETURNING id`. `id` is the generated one.
unfoldable pub enqueue : JobQueueOptions → Name → ℕ → EnqueueOptions → List Job → Bool × List Job
enqueue o id now e jobs =
    if has_idempotency_key e.idempotency_key jobs
    then (false, jobs)
    else (true, jobs ++ new_job o id now e ∷ [])

abbrev pub is_pending : JobStatus → Bool
is_pending pending = true
is_pending _ = false

abbrev pub is_running : JobStatus → Bool
is_running running = true
is_running _ = false

unfoldable pub is_runnable : ℕ → Name → Job → Bool
is_runnable now queue j = j.queue == queue && is_pending j.status && leb j.run_at now

-- `ORDER BY run_at ASC`.
unfoldable pub insert_by_run_at : Job → List Job → List Job
insert_by_run_at j [] = j ∷ []
insert_by_run_at j (k ∷ ks) =
    if leb j.run_at k.run_at then j ∷ k ∷ ks else k ∷ insert_by_run_at j ks

unfoldable pub order_by_run_at : List Job → List Job
unfolding insert_by_run_at
order_by_run_at [] = []
order_by_run_at (j ∷ js) = insert_by_run_at j (order_by_run_at js)

unfoldable pub select_claimed : ℕ → Name → ℕ → List Job → List Job
unfolding is_runnable order_by_run_at
select_claimed now queue limit jobs =
    take limit (order_by_run_at (keep_if (is_runnable now queue) jobs))

abbrev pub ids : List Job → List Name
ids = map λ j. j.id

unfoldable pub claimed : JobQueueOptions → ℕ → Job → Job
claimed o now j = record j {
  status = running;
  locked_at = some now;
  locked_by = some o.worker_id;
  attempt_count = j.attempt_count + 1;
}

-- `UPDATE … FROM claimed WHERE j.id = claimed.id`.
unfoldable pub mark_claimed : JobQueueOptions → ℕ → List Name → List Job → List Job
unfolding claimed
mark_claimed o now chosen [] = []
mark_claimed o now chosen (j ∷ js) =
    (if includes chosen j.id then claimed o now j else j) ∷ mark_claimed o now chosen js

unfoldable pub claim_batch : JobQueueOptions → ℕ → Name → ℕ → List Job → List Job × List Job
unfolding select_claimed mark_claimed
claim_batch o now queue limit jobs =
    let chosen = select_claimed now queue limit jobs in
    (map (claimed o now) chosen, mark_claimed o now (ids chosen) jobs)

abbrev pub finished : ℕ → Job → Job
finished now j = record j {
  status = succeeded;
  completed_at = some now;
  locked_at = none;
  locked_by = none;
  last_error = [];
}

unfoldable pub complete : ℕ → Name → List Job → List Job
complete now id = change_at (λ j. j.id) id (finished now)

abbrev pub buried : ℕ → Name → Job → Job
buried now message j = record j {
  status = dead_lettered;
  completed_at = some now;
  locked_at = none;
  locked_by = none;
  last_error = message ∷ [];
}

abbrev pub rescheduled : ℕ → Name → Job → Job
rescheduled at message j = record j {
  status = pending;
  run_at = at;
  locked_at = none;
  locked_by = none;
  last_error = message ∷ [];
}

pub data Verdict : Type 0 where
  retry dead_letter : Verdict

-- `delayMs ?? computeBackoffMs(…)`.
abbrev pub delay_for : JobQueueOptions → Jitter → Job → Option ℕ → ℕ
delay_for o jitter job delay_ms =
    given delay_ms (compute_backoff_ms job.attempt_count o.backoff_base_ms o.backoff_max_ms jitter)

-- `message` is the error as text, cut to 2000 characters. The attempts are those of the record in
-- hand, not of the row.
unfoldable pub fail :
    JobQueueOptions → Jitter → ℕ → Job → Name → Option ℕ → List Job → Verdict × List Job
unfolding compute_backoff_ms
fail o jitter now job message delay_ms jobs =
    if leb job.max_attempts job.attempt_count
    then (dead_letter, change_at (λ j. j.id) job.id (buried now message) jobs)
    else (
      retry,
      change_at (λ j. j.id) job.id (rescheduled (now + delay_for o jitter job delay_ms) message)
          jobs,
    )

abbrev is_older : ℕ → ℕ → Option ℕ → Bool
is_older now timeout none = false
is_older now timeout (some t) = ltb (t + timeout) now

-- The text 'reclaimed after visibility timeout'.
abbrev pub reclaimed_message : Name
reclaimed_message = 1

unfoldable pub is_stale : JobQueueOptions → ℕ → Job → Bool
is_stale o now j = is_running j.status && is_older now o.visibility_timeout_ms j.locked_at

unfoldable pub reclaimed : ℕ → Job → Job
reclaimed now j = record j {
  status = pending;
  run_at = now;
  locked_at = none;
  locked_by = none;
  last_error = j.last_error ++ reclaimed_message ∷ [];
}

unfoldable pub reclaim_stale : JobQueueOptions → ℕ → List Job → ℕ × List Job
unfolding is_stale reclaimed
reclaim_stale o now jobs = (
  length (keep_if (is_stale o now) jobs),
  map (λ j. if is_stale o now j then reclaimed now j else j) jobs,
)

pub record JobQueueStats : Type 0 where
  pub pending_count : ℕ
  pub running_count : ℕ
  pub succeeded_count : ℕ
  pub dead_lettered_count : ℕ

abbrev pub tally : JobStatus → JobQueueStats → JobQueueStats
tally pending s = record s { pending_count = s.pending_count + 1 }
tally failed s = record s { pending_count = s.pending_count + 1 }
tally running s = record s { running_count = s.running_count + 1 }
tally succeeded s = record s { succeeded_count = s.succeeded_count + 1 }
tally dead_lettered s = record s { dead_lettered_count = s.dead_lettered_count + 1 }

-- `SELECT status, COUNT(*) … GROUP BY status`, summed.
unfoldable pub stats : List Job → JobQueueStats
stats [] = record {
  pending_count = 0;
  running_count = 0;
  succeeded_count = 0;
  dead_lettered_count = 0;
}
stats (j ∷ js) = tally j.status (stats js)

abbrev pub is_dead_lettered : JobStatus → Bool
is_dead_lettered dead_lettered = true
is_dead_lettered _ = false

abbrev newest_first : List Job → List Job
newest_first [] = []
newest_first (j ∷ js) = newest_first js ++ j ∷ []

-- `ORDER BY created_at DESC LIMIT`, of rows in the order of insertion.
unfoldable pub dead_letters : ℕ → List Job → List Job
dead_letters limit jobs = take limit (newest_first (keep_if (λ j. is_dead_lettered j.status) jobs))
