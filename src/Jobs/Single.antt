-- ===== src/Jobs/Single.antt =====
-- A batch on a table of one job.
use nexora_gateway.Prelude.{
  ℕ, zero, suc, ◌<◌, ◌≡◌, refl, true, [], ◌∷◌, none, some, arith, take, ==_self,
}
use nexora_gateway.Intent.Data.{Name}
use nexora_gateway.Jobs.{
  Job, JobQueueOptions, Jitter, finished, is_runnable, select_claimed, order_by_run_at,
  mark_claimed, claimed, claim_batch, complete,
}
use nexora_gateway.Jobs.Worker.{
  Handler, Handlers, handler_for, settle, process, process_all, run_once,
}

take-single : (n : ℕ) (j : Job) → 0 < n → take n (j ∷ []) ≡ j ∷ []
take-single zero j h = absurd (omega arith)
take-single (suc zero) j h = refl
take-single (suc (suc n)) j h = refl

-- The only job of the table, due, whose handler returns: the batch runs it once and completes it.
pub run_once_single :
    {World : Type 0} (o : JobQueueOptions) (jitter : Jitter) (now : ℕ) (missing : Name)
    (hs : Handlers World) (h : Handler World) (j : Job) (w w' : World)
    → 0 < o.concurrency
    → is_runnable now j.queue j ≡ true
    → handler_for World j.job_type hs ≡ some h
    → h (claimed o now j) w ≡ (none, w')
    → run_once World o jitter now missing j.queue hs (j ∷ [], w)
      ≡ (1, finished now (claimed o now j) ∷ [], w')
unfolding run_once process_all process settle complete claimed claim_batch select_claimed
    order_by_run_at mark_claimed
run_once_single o jitter now missing hs h j w w' c due found returns =
    rw (run_once, due)
      (rw (take-single o.concurrency j c)
        (rw (==_self j.id) (rw found (rw (returns, ==_self j.id) refl))))
