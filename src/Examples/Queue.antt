-- ===== src/Examples/Queue.antt =====
-- The job queue and the circuit breaker.
use nexora_gateway.Prelude.{
  ℕ, ◌+◌, ◌≡◌, refl, false, not, List, [], ◌∷◌, none, some, All, includes, arith,
}
use nexora_gateway.Intent.Data.{Name}
use nexora_gateway.Jobs.{
  Job, JobQueueOptions, EnqueueOptions, pending, Jitter, ids, enqueue, claim_batch,
  has_idempotency_key,
}
use nexora_gateway.Jobs.Worker.{Handlers, run_once}
use nexora_gateway.Jobs.Claims.{claim_batch_disjoint, enqueue_twice}
use nexora_gateway.Jobs.Runs.{
  IsReleased, row, run_once-releases, crash_rounds, crash_rounds_unbounded,
}
use nexora_gateway.Routing.CircuitBreaker.{
  CircuitBreaker, open_, default_options, new_circuit, get_failure_count,
}
use nexora_gateway.Routing.CircuitBreaker.Steps.{
  Step, leaves, steps, failures_after, IsSound, steps-IsSound,
}

abbrev options : ℕ → JobQueueOptions
options worker = record {
  worker_id = worker;
  concurrency = 2;
  default_max_attempts = 3;
  backoff_base_ms = 1000;
  backoff_max_ms = 60000;
  visibility_timeout_ms = 300000;
}

abbrev no_jitter : Jitter
no_jitter n = 0

abbrev job : Name → ℕ → Job
job id attempts = record {
  id = id;
  queue = 1;
  job_type = 5;
  payload = [];
  idempotency_key = id;
  status = pending;
  attempt_count = attempts;
  max_attempts = 3;
  run_at = 0;
  locked_at = none;
  locked_by = none;
  last_error = [];
  created_at = 0;
  completed_at = none;
}

abbrev jobs : List Job
jobs = job 1 0 ∷ job 2 2 ∷ job 3 0 ∷ []

abbrev task : EnqueueOptions
task = record {
  job_type = 5;
  payload = [];
  idempotency_key = 4;
  queue = 1;
  max_attempts = none;
  delay_ms = 0;
}

-- A handler that counts its calls, and throws.
abbrev handlers : Handlers ℕ
handlers = (5, λ j w. (some 9, w + 1)) ∷ []

claim_batch_disjoint_example :
    let (batch, jobs') = claim_batch (options 1) 10 1 2 jobs in
    All (λ j. includes (ids batch) j.id ≡ false) (claim_batch (options 2) 10 1 2 jobs').0
claim_batch_disjoint_example = claim_batch_disjoint (options 1) (options 2) 10 10 1 1 2 2 jobs

enqueue_twice_example :
    let (created, jobs') = enqueue (options 1) 4 10 task jobs in
    (enqueue (options 2) 6 20 task jobs' ≡ (false, jobs'))
    × (created ≡ not (has_idempotency_key 4 jobs))
enqueue_twice_example = enqueue_twice (options 1) (options 2) 4 6 10 20 task task jobs refl

run_once-releases_example :
    All
      (λ j. IsReleased (row j.id (run_once ℕ (options 1) no_jitter 10 0 1 handlers (jobs, 0)).1))
      (claim_batch (options 1) 10 1 2 jobs).0
run_once-releases_example = run_once-releases (options 1) no_jitter 10 0 1 handlers jobs 0

crash_rounds_unbounded_example :
    (j' : Job) × (crash_rounds (options 1) 1 20 10 (job 1 0 ∷ []) ≡ j' ∷ [])
    × (j'.status ≡ pending)
    × (j'.attempt_count ≡ 20)
    × (j'.max_attempts ≡ 3)
crash_rounds_unbounded_example =
    crash_rounds_unbounded (options 1) 20 10 (job 1 0) (omega arith) refl (omega arith)

abbrev failing : List Step
failing = leaves 1 false ∷ leaves 2 false ∷ leaves 3 false ∷ leaves 4 false ∷ leaves 5 false ∷ []

steps-IsSound_example :
    (get_failure_count (steps default_options failing new_circuit) ≡ failures_after 0 failing)
    × IsSound default_options (steps default_options failing new_circuit)
steps-IsSound_example = steps-IsSound default_options failing (omega arith)

abbrev broken : CircuitBreaker
broken = record { state = open_; failures = 5; last_failure_time = some 100 }
