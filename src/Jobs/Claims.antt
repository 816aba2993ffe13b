-- ===== src/Jobs/Claims.antt =====
-- Who gets a job: at most one worker, and only when the job is due.
use nexora_gateway.Prelude.{
  not, some, ℕ, zero, suc, inl, inr, ◌≤◌, ◌<◌, ◌≡◌, refl, Bool, true, false, List, [], ◌∷◌, ◌++◌,
  map, arith, Bool-cases, length, length-take-le, take, keep_if, includes, All,
}
use nexora_gateway.Intent.Data.{Name}
use nexora_gateway.Jobs.{
  Job, JobQueueOptions, EnqueueOptions, running, is_runnable, insert_by_run_at, order_by_run_at,
  select_claimed, ids, claimed, mark_claimed, claim_batch, enqueue, new_job, has_idempotency_key,
}

module _ {κ} (P : Job → Type κ) where
  All-insert_by_run_at : (j : Job) (js : List Job) → P j → All P js → All P (insert_by_run_at j js)
  unfolding insert_by_run_at
  All-insert_by_run_at j [] p a = (p, tt)
  All-insert_by_run_at j (k ∷ ks) p a = ground (arith, All-insert_by_run_at j ks p a.1)

  All-order_by_run_at : (js : List Job) → All P js → All P (order_by_run_at js)
  unfolding order_by_run_at
  All-order_by_run_at [] a = tt
  All-order_by_run_at (j ∷ js) a =
      All-insert_by_run_at j (order_by_run_at js) a.0 (All-order_by_run_at js a.1)

  All-take : (n : ℕ) (js : List Job) → All P js → All P (take n js)
  All-take zero js a = tt
  All-take (suc n) [] a = tt
  All-take (suc n) (j ∷ js) a = (a.0, All-take n js a.1)

  All-keep_if :
      (p : Job → Bool) (js : List Job) → All (λ j. p j ≡ true → P j) js → All P (keep_if p js)
  All-keep_if p [] a = tt
  All-keep_if p (j ∷ js) a = ground (arith, a.0, All-keep_if p js a.1)

  All-map : (f : Job → Job) (js : List Job) → All (λ j. P (f j)) js → All P (map f js)
  All-map f [] a = tt
  All-map f (j ∷ js) a = (a.0, All-map f js a.1)

  All-select_claimed :
      (now : ℕ) (queue : Name) (limit : ℕ) (jobs : List Job)
      → All (λ j. is_runnable now queue j ≡ true → P j) jobs
      → All P (select_claimed now queue limit jobs)
  unfolding select_claimed
  All-select_claimed now queue limit jobs a =
      All-take limit (order_by_run_at (keep_if (is_runnable now queue) jobs)) (
        All-order_by_run_at (keep_if (is_runnable now queue) jobs)
          (All-keep_if (is_runnable now queue) jobs a))

ids-claimed :
    (o : JobQueueOptions) (now : ℕ) (js : List Job) → ids (map (claimed o now) js) ≡ ids js
unfolding claimed
ids-claimed o now [] = refl
ids-claimed o now (j ∷ js) = rw (ids-claimed o now js) refl

running_blocked :
    (o : JobQueueOptions) (now later : ℕ) (queue : Name) (j : Job)
    → is_runnable later queue (claimed o now j) ≡ false
unfolding is_runnable claimed
running_blocked o now later queue j = ground arith

-- A row that a claim has marked is running, so no later claim can take it.
mark_claimed-blocks :
    (o : JobQueueOptions) (now later : ℕ) (queue : Name) (chosen : List Name) (jobs : List Job)
    → All
        (λ j. is_runnable later queue j ≡ true → includes chosen j.id ≡ false)
        (mark_claimed o now chosen jobs)
unfolding mark_claimed
mark_claimed-blocks o now later queue chosen [] = tt
mark_claimed-blocks o now later queue chosen (j ∷ js) = elim (Bool-cases (includes chosen j.id)) [
  | inl taken ↦ rw taken (
    (λ h. cc (running_blocked o now later queue j, h)),
    mark_claimed-blocks o now later queue chosen js,
  )
  | inr free ↦ rw free (λ h. free, mark_claimed-blocks o now later queue chosen js)
]

-- Two claims, one directly after the other, by any workers, on any queues and at any times: none
-- of the jobs that the second returns was returned by the first.
pub claim_batch_disjoint :
    (o o' : JobQueueOptions) (now later : ℕ) (queue queue' : Name) (limit limit' : ℕ)
    (jobs : List Job)
    → let (batch, jobs') = claim_batch o now queue limit jobs in
      All (λ j. includes (ids batch) j.id ≡ false) (claim_batch o' later queue' limit' jobs').0
unfolding claim_batch
claim_batch_disjoint o o' now later queue queue' limit limit' jobs =
    let chosen = select_claimed now queue limit jobs in
    let jobs' = mark_claimed o now (ids chosen) jobs in
    rw (ids-claimed o now chosen) (
      All-map (λ j. includes (ids chosen) j.id ≡ false) (claimed o' later)
        (select_claimed later queue' limit' jobs')
        (unfold claimed in
          All-select_claimed (λ j. includes (ids chosen) j.id ≡ false) later queue' limit' jobs'
            (mark_claimed-blocks o now later queue' (ids chosen) jobs)))

-- A job as a worker receives it.
abbrev pub IsClaimed : JobQueueOptions → ℕ → Name → Job → Type 0
IsClaimed o now queue j =
    (j.status ≡ running)
    × (j.locked_by ≡ some o.worker_id)
    × (j.queue ≡ queue)
    × (j.run_at ≤ now)
    × (0 < j.attempt_count)

runnable_claimed :
    (o : JobQueueOptions) (now : ℕ) (queue : Name) (j : Job)
    → is_runnable now queue j ≡ true
    → IsClaimed o now queue (claimed o now j)
unfolding is_runnable claimed
runnable_claimed o now queue j h = ground arith

All-All {κ} : (P : Job → Type κ) (js : List Job) → ((j : Job) → P j) → All P js
All-All P [] f = tt
All-All P (j ∷ js) f = (f j, All-All P js f)

length-map_jobs : (f : Job → Job) (js : List Job) → length (map f js) ≡ length js
length-map_jobs f [] = refl
length-map_jobs f (j ∷ js) = omega (arith, length-map_jobs f js)

-- A claim returns at most `limit` jobs, and each of them is of the queue, is due, is locked by the
-- worker as running, and counts the attempt that begins.
pub claim_batch-IsClaimed :
    (o : JobQueueOptions) (now : ℕ) (queue : Name) (limit : ℕ) (jobs : List Job)
    → let batch = (claim_batch o now queue limit jobs).0 in
      All (IsClaimed o now queue) batch × (length batch ≤ limit)
unfolding claim_batch
claim_batch-IsClaimed o now queue limit jobs = (
  All-map (IsClaimed o now queue) (claimed o now) (select_claimed now queue limit jobs) (
      All-select_claimed (λ j. IsClaimed o now queue (claimed o now j)) now queue limit jobs
        (All-All (λ j. is_runnable now queue j ≡ true → IsClaimed o now queue (claimed o now j))
          jobs (runnable_claimed o now queue))),
  at_most,
)
  where
    at_most : length (map (claimed o now) (select_claimed now queue limit jobs)) ≤ limit
    at_most = rw (length-map_jobs (claimed o now) (select_claimed now queue limit jobs)) (
        unfold select_claimed in
        length-take-le limit (order_by_run_at (keep_if (is_runnable now queue) jobs)))

pub enqueue_old :
    (o : JobQueueOptions) (id now : ℕ) (e : EnqueueOptions) (jobs : List Job)
    → has_idempotency_key e.idempotency_key jobs ≡ true
    → enqueue o id now e jobs ≡ (false, jobs)
unfolding enqueue
enqueue_old o id now e jobs h = rw (h, enqueue) refl

pub enqueue_new :
    (o : JobQueueOptions) (id now : ℕ) (e : EnqueueOptions) (jobs : List Job)
    → has_idempotency_key e.idempotency_key jobs ≡ false
    → enqueue o id now e jobs ≡ (true, jobs ++ new_job o id now e ∷ [])
unfolding enqueue
enqueue_new o id now e jobs h = rw (h, enqueue) refl

pub has_idempotency_key-append :
    (key : Name) (jobs : List Job) (j : Job)
    → j.idempotency_key ≡ key
    → has_idempotency_key key (jobs ++ j ∷ []) ≡ true
has_idempotency_key-append key [] j h = ground arith
has_idempotency_key-append key (k ∷ jobs) j h =
    ground (arith, has_idempotency_key-append key jobs j h)

-- Enqueueing a key twice: the second call, with any other content, reports that the job is there
-- and leaves the table alone; the first reports a new job exactly when no job had the key.
pub enqueue_twice :
    (o o' : JobQueueOptions) (id id' now later : ℕ) (e e' : EnqueueOptions) (jobs : List Job)
    → e'.idempotency_key ≡ e.idempotency_key
    → let (created, jobs') = enqueue o id now e jobs in
      (enqueue o' id' later e' jobs' ≡ (false, jobs'))
      × (created ≡ not (has_idempotency_key e.idempotency_key jobs))
enqueue_twice o o' id id' now later e e' jobs same =
    elim (Bool-cases (has_idempotency_key e.idempotency_key jobs)) [
      | inl there ↦
          rw (enqueue_old o id now e jobs there)
            (enqueue_old o' id' later e' jobs (rw same there), rw there refl)
      | inr absent ↦ rw (enqueue_new o id now e jobs absent) (
        enqueue_old o' id' later e' (jobs ++ new_job o id now e ∷ []) (
            rw same (
              unfold new_job in
              has_idempotency_key-append e.idempotency_key jobs (new_job o id now e) refl)),
        rw absent refl,
      )
    ]
