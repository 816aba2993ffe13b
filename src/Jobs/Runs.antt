-- ===== src/Jobs/Runs.antt =====
-- What becomes of the jobs of a batch, and of a job whose worker dies.
use nexora_gateway.Prelude.{
  ℕ, zero, suc, ◌+◌, ◌≤◌, ◌<◌, ◌≡◌, refl, true, false, List, [], ◌∷◌, Option, none, some, inl, inr,
  arith, Bool-cases, Option-cases, find_at, change_at, find_at-change_at, ◌∙◌, ◌⊎◌, All, ◌==◌,
  ==_self, leb,
}
use nexora_gateway.Intent.Data.{Name}
use nexora_gateway.Jobs.{
  Job, JobQueueOptions, Jitter, retry, dead_letter, pending, is_running, fail, complete, finished,
  buried, rescheduled, is_runnable, is_stale, select_claimed, order_by_run_at, mark_claimed,
  claimed, reclaimed, claim_batch, delay_for, reclaim_stale,
}
use nexora_gateway.Jobs.Worker.{
  Handler, Handlers, handler_for, settle, process, process_all, run_once,
}

-- The row is in no worker's hands.
abbrev pub IsReleased : Option Job → Type 0
IsReleased none = Unit
IsReleased (some j) = (is_running j.status ≡ false) × (j.locked_at ≡ none)

abbrev pub row : Name → List Job → Option Job
row = find_at (λ j. j.id)

abbrev Releases : (Job → Job) → Type 0
Releases f =
    (x : Job) → ((f x).id ≡ x.id) × (is_running (f x).status ≡ false) × ((f x).locked_at ≡ none)

change_at-IsReleased :
    (id k : Name) (f : Job → Job) (jobs : List Job)
    → Releases f
    → IsReleased (row k jobs)
    → IsReleased (row k (change_at (λ j. j.id) id f jobs))
change_at-IsReleased id k f jobs frees h =
    rw (find_at-change_at (λ j. j.id) id k f jobs (λ x. (frees x).0)) (elim (Bool-cases (id == k)) [
      | inl same ↦ rw same (elim (Option-cases (row k jobs)) [
        | inl e ↦ rw e tt
        | inr (x, e) ↦ rw e ((frees x).1, (frees x).2)
      ])
      | inr other ↦ rw other h
    ])

change_at_self :
    (id : Name) (f : Job → Job) (jobs : List Job)
    → Releases f
    → IsReleased (row id (change_at (λ j. j.id) id f jobs))
change_at_self id f jobs frees =
    rw (find_at-change_at (λ j. j.id) id id f jobs (λ x. (frees x).0)) (
      rw (==_self id) (elim (Option-cases (row id jobs)) [
        | inl e ↦ rw e tt
        | inr (x, e) ↦ rw e ((frees x).1, (frees x).2)
      ]))

-- A failure writes the row of its job alone, and releases it.
fail_shape :
    (o : JobQueueOptions) (jitter : Jitter) (now : ℕ) (j : Job) (message : Name) (delay : Option ℕ)
    (jobs : List Job)
    → (f : Job → Job) × Releases f
      × ((fail o jitter now j message delay jobs).1 ≡ change_at (λ j. j.id) j.id f jobs)
unfolding fail
fail_shape o jitter now j message delay jobs =
    elim (Bool-cases (leb j.max_attempts j.attempt_count)) [
      | inl last ↦ (buried now message, (λ x. (refl, refl, refl)), rw (last, fail) refl)
      | inr more ↦ (
        rescheduled (now + delay_for o jitter j delay) message,
        (λ x. (refl, refl, refl)),
        rw (more, fail) refl,
      )
    ]

module _ {World : Type 0} where
  settle_shape :
      (o : JobQueueOptions) (jitter : Jitter) (now : ℕ) (j : Job) (r : Option Name × World)
      (jobs : List Job)
      → (f : Job → Job) × Releases f
        × ((settle World o jitter now j r jobs).0 ≡ change_at (λ j. j.id) j.id f jobs)
  unfolding settle complete
  settle_shape o jitter now j (none, w) jobs = (finished now, (λ x. (refl, refl, refl)), refl)
  settle_shape o jitter now j (some message, w) jobs = fail_shape o jitter now j message none jobs

  process_shape :
      (o : JobQueueOptions) (jitter : Jitter) (now : ℕ) (missing : Name)
      (h : Option (Handler World)) (j : Job) (s : List Job × World)
      → (f : Job → Job) × Releases f
        × ((process World o jitter now missing h j s).0 ≡ change_at (λ j. j.id) j.id f s.0)
  unfolding process
  process_shape o jitter now missing none j (jobs, w) =
      fail_shape o jitter now (record j { attempt_count = j.max_attempts }) missing none jobs
  process_shape o jitter now missing (some h) j (jobs, w) = settle_shape o jitter now j (h j w) jobs

  -- What was released stays so, and each job that is processed is released.
  process_all-keeps :
      (o : JobQueueOptions) (jitter : Jitter) (now : ℕ) (missing k : Name) (hs : Handlers World)
      (js : List Job) (s : List Job × World)
      → IsReleased (row k s.0)
      → IsReleased (row k (process_all World o jitter now missing hs js s).0)
  unfolding process_all
  process_all-keeps o jitter now missing k hs [] s h = h
  process_all-keeps o jitter now missing k hs (j ∷ js) s h =
      let (f, frees, e) =
        process_shape o jitter now missing (handler_for World j.job_type hs) j s in
      process_all-keeps o jitter now missing k hs js
        (process World o jitter now missing (handler_for World j.job_type hs) j s)
        (rw e (change_at-IsReleased j.id k f s.0 frees h))

  process_all-releases :
      (o : JobQueueOptions) (jitter : Jitter) (now : ℕ) (missing : Name) (hs : Handlers World)
      (js : List Job) (s : List Job × World)
      → All (λ j. IsReleased (row j.id (process_all World o jitter now missing hs js s).0)) js
  unfolding process_all
  process_all-releases o jitter now missing hs [] s = tt
  process_all-releases o jitter now missing hs (j ∷ js) s =
      let s' = process World o jitter now missing (handler_for World j.job_type hs) j s in
      let (f, frees, e) =
        process_shape o jitter now missing (handler_for World j.job_type hs) j s in
      (
        process_all-keeps o jitter now missing j.id hs js s'
            (rw e (change_at_self j.id f s.0 frees)),
        process_all-releases o jitter now missing hs js s',
      )

  -- After a batch has run, whatever its handlers do, and with handlers missing or not: the row of
  -- every job that was claimed is no longer running and is not locked.
  pub run_once-releases :
      (o : JobQueueOptions) (jitter : Jitter) (now : ℕ) (missing queue : Name) (hs : Handlers World)
      (jobs : List Job) (w : World)
      → All
          (λ j. IsReleased (row j.id (run_once World o jitter now missing queue hs (jobs, w)).1))
          (claim_batch o now queue o.concurrency jobs).0
  unfolding run_once
  run_once-releases o jitter now missing queue hs jobs w =
      let (batch, jobs') = claim_batch o now queue o.concurrency jobs in
      process_all-releases o jitter now missing hs batch (jobs', w)

-- A failure of a job that has a row: once the record in hand has used its attempts, the row is
-- dead-lettered and unlocked; before that it is pending again, unlocked, at the time that the
-- delay gives.
pub fail_verdict :
    (o : JobQueueOptions) (jitter : Jitter) (now : ℕ) (j old : Job) (message : Name)
    (delay : Option ℕ) (jobs : List Job)
    → row j.id jobs ≡ some old
    → let (verdict, jobs') = fail o jitter now j message delay jobs in
      ((j.max_attempts ≤ j.attempt_count)
        × (verdict ≡ dead_letter)
        × (row j.id jobs' ≡ some (buried now message old)))
      ⊎ ((j.attempt_count < j.max_attempts)
          × (verdict ≡ retry)
          × (row j.id jobs' ≡ some (rescheduled (now + delay_for o jitter j delay) message old)))
unfolding fail
fail_verdict o jitter now j old message delay jobs e =
    elim (Bool-cases (leb j.max_attempts j.attempt_count)) [
      | inl last ↦ rw last (inl (ground arith, refl, found (buried now message) (λ x. refl)))
      | inr more ↦ rw more (
          inr (
            ground arith,
            refl,
            found (rescheduled (now + delay_for o jitter j delay) message) (λ x. refl),
          ))
    ]
  where
    found :
        (f : Job → Job)
        → ((x : Job) → (f x).id ≡ x.id)
        → row j.id (change_at (λ j. j.id) j.id f jobs) ≡ some (f old)
    found f keeps = find_at-change_at (λ j. j.id) j.id j.id f jobs keeps ∙ rw (==_self j.id, e) refl

-- One round in which a worker claims from a queue and dies, and its jobs are reclaimed as soon as
-- the visibility timeout allows.
abbrev pub crash_round : JobQueueOptions → Name → ℕ → List Job → List Job
crash_round o queue now jobs =
    (reclaim_stale o (now + o.visibility_timeout_ms + 1)
      (claim_batch o now queue o.concurrency jobs).1).1

abbrev pub crash_rounds : JobQueueOptions → Name → ℕ → ℕ → List Job → List Job
crash_rounds o queue zero now jobs = jobs
crash_rounds o queue (suc n) now jobs =
    crash_rounds o queue n (now + o.visibility_timeout_ms + 1) (crash_round o queue now jobs)

pub due_runnable :
    (now : ℕ) (j : Job) → j.status ≡ pending → j.run_at ≤ now → is_runnable now j.queue j ≡ true
unfolding is_runnable
due_runnable now j p due = ground arith

pub claim_single :
    (o : JobQueueOptions) (now limit : ℕ) (j : Job)
    → 0 < limit
    → is_runnable now j.queue j ≡ true
    → (claim_batch o now j.queue limit (j ∷ [])).1 ≡ claimed o now j ∷ []
unfolding claim_batch select_claimed order_by_run_at mark_claimed
claim_single o now zero j c h = absurd (omega arith)
claim_single o now (suc limit) j c h = rw h (rw (==_self j.id) refl)

claimed_stale :
    (o : JobQueueOptions) (now : ℕ) (j : Job)
    → is_stale o (now + o.visibility_timeout_ms + 1) (claimed o now j) ≡ true
unfolding is_stale claimed
claimed_stale o now j = ground arith

abbrev survivor : JobQueueOptions → ℕ → Job → Job
survivor o now j = reclaimed (now + o.visibility_timeout_ms + 1) (claimed o now j)

crash_round_single :
    (o : JobQueueOptions) (now : ℕ) (j : Job)
    → 0 < o.concurrency
    → j.status ≡ pending
    → j.run_at ≤ now
    → crash_round o j.queue now (j ∷ []) ≡ survivor o now j ∷ []
unfolding reclaim_stale
crash_round_single o now j c p due =
    rw (claim_single o now o.concurrency j c (due_runnable now j p due))
      (rw (claimed_stale o now j) refl)

-- The only job of a table, pending and due, is claimed by a worker that takes at least one job and
-- dies, and is reclaimed when the visibility timeout allows. After any number of such rounds the
-- job is pending, has that many attempts more, and its largest number of attempts has not changed
-- and has not stopped it.
pub crash_rounds_unbounded :
    (o : JobQueueOptions) (n now : ℕ) (j : Job)
    → 0 < o.concurrency
    → j.status ≡ pending
    → j.run_at ≤ now
    → (j' : Job) × (crash_rounds o j.queue n now (j ∷ []) ≡ j' ∷ [])
      × (j'.status ≡ pending)
      × (j'.attempt_count ≡ j.attempt_count + n)
      × (j'.max_attempts ≡ j.max_attempts)
unfolding reclaimed claimed
crash_rounds_unbounded o zero now j c p due = (j, refl, p, omega arith, refl)
crash_rounds_unbounded o (suc n) now j c p due =
    let (j', e, p', a, m) =
      crash_rounds_unbounded o n (now + o.visibility_timeout_ms + 1) (survivor o now j) c refl
        (omega arith) in
    (j', rw (crash_round_single o now j c p due) e, p', omega arith, m)
