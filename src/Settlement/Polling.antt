-- ===== src/Settlement/Polling.antt =====
-- The polling loop ends.
use nexora_gateway.Prelude.{
  ℕ, zero, suc, ◌+◌, ◌*◌, ◌≤◌, ◌<◌, ltb→lt, ◌≡◌, refl, arith, Option, some, inl, inr, Bool-cases,
  ltb, leb,
}
use nexora_gateway.Prelude.Action.{Result, ok, err}
use nexora_gateway.Intent.Data.{Name}
use nexora_gateway.Settlement.Repository.{SettlementError, failed_on_chain, confirmation_timeout}
use nexora_gateway.Settlement.Service.{
  World, wait_for_confirmation, TxStatus, after_status, max_wait_time, poll_interval,
}

abbrev Ends : Option (Result SettlementError (Unit {0})) → Type 0
Ends o = (r : Result SettlementError (Unit {0})) × (o ≡ some r)

after_status-Ends :
    (w : World) (a : Result SettlementError TxStatus)
    (rest : Option (Result SettlementError (Unit {0})))
    → Ends rest
    → Ends (after_status w a rest)
after_status-Ends w (err e) rest h = (err e, refl)
after_status-Ends w (ok status) rest h =
    elim (Bool-cases (leb w.get_confirmation_depth status.confirmations)) [
      | inl e ↦ (ok tt, rw e refl)
      | inr e ↦ elim (Bool-cases status.is_failed) [
        | inl f ↦ (err failed_on_chain, rw (e, f) refl)
        | inr f ↦ (h.0, rw (e, f) h.1)
      ]
    ]

-- From any elapsed time, with fuel for the rest of the five minutes at one pass every two seconds
-- and for one pass more, the polling loop gives a result, whatever the chain answers and however
-- long it takes to answer.
pub wait_for_confirmation_ends :
    (w : World) (tx : Name) (fuel elapsed : ℕ)
    → 302000 ≤ elapsed + 2000 * fuel
    → 1 ≤ fuel
    → (r : Result SettlementError (Unit {0})) × (wait_for_confirmation w tx fuel elapsed ≡ some r)
unfolding wait_for_confirmation
wait_for_confirmation_ends w tx zero elapsed h p = absurd (omega arith)
wait_for_confirmation_ends w tx (suc fuel) elapsed h p =
    elim (Bool-cases (ltb elapsed max_wait_time)) [
      | inl e ↦
          let (r, q) =
            after_status-Ends w (w.get_transaction_status tx elapsed)
              (wait_for_confirmation w tx fuel (elapsed + w.call_time elapsed + poll_interval))
              (wait_for_confirmation_ends w tx fuel (elapsed + w.call_time elapsed + poll_interval)
                (omega arith) (room (ltb→lt elapsed max_wait_time e))) in
          (r, rw e q)
      | inr e ↦ (err confirmation_timeout, rw e refl)
    ]
  where
    room : elapsed < 300000 → 1 ≤ fuel
    room early = omega arith
