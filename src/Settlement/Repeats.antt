-- ===== src/Settlement/Repeats.antt =====
-- A payout that the chain confirmed and that is offered for payment again.
use nexora_gateway.Prelude.{
  ◌≡◌, refl, ap, ◌∙◌, Bool, true, false, Option, none, some, inl, inr, Bool-cases, ltb, ◌&&◌,
  if◌then◌else◌,
}
use nexora_gateway.Prelude.Int.{ℤ}
use nexora_gateway.Prelude.Action.{Result, ok, err, handle, pure, ◌>>◌}
use nexora_gateway.Intent.Data.{Name, PaymentIntent, MerchantConfig}
use nexora_gateway.Ledger.{Ledger, record_fee, record_settlement}
use nexora_gateway.Ledger.Queries.{calculate_settlement_amount}
use nexora_gateway.Settlement.Repository.{
  failed, retrying, Settlement, SettlementError, Books, new_settlement, create_settlement,
  find_settlement, changed, settlement_failed,
}
use nexora_gateway.Settlement.Service.{
  World, EntryIds, write_ledger, set_ledger, fee_record, payout_record, execute_transaction,
  wait_for_confirmation, poll_fuel, record_ledger, pay_out, set_processing, set_completed,
  set_status, handle_settlement_failure, settle_intent, retry_settlement, new_params,
  is_retryable_error, get_retry_count, max_retries,
}
use nexora_gateway.Settlement.Payout.{
  updated, IsAt, kept, update_settlement_lem, updated-IsAt, find_at-append,
}

abbrev first_of : Option SettlementError → Option SettlementError → Option SettlementError
first_of none o = o
first_of (some e) o = some e

-- The error of the first write to the ledger that is refused, if any. A fee of zero has no entry.
abbrev pub first_refusal : World → MerchantConfig → Option SettlementError
first_refusal w merchant =
    if ltb 0 merchant.fee_percentage then first_of w.fee_write w.payout_write else w.payout_write

thrown_by :
    {e f : SettlementError} (c : Books)
    → some f ≡ some e
    → Path (Result SettlementError (Unit {0}) × Books) (err f, c) (err e, c)
thrown_by c h = cc

writes_refused :
    (charged : Bool) (fee payout : Option SettlementError) (g h : Ledger → Ledger) (b : Books)
    (e : SettlementError)
    → (if charged then first_of fee payout else payout) ≡ some e
    → (c : Books) × (((if charged then write_ledger fee g else pure tt) >> write_ledger payout h) b
        ≡ (err e, c))
      × (c.settlements ≡ b.settlements)
writes_refused true none none g h b e p = cc
writes_refused true none (some f) g h b e p =
    (set_ledger (g b.ledger) b, thrown_by (set_ledger (g b.ledger) b) p, refl)
writes_refused true (some f) payout g h b e p = (b, thrown_by b p, refl)
writes_refused false fee none g h b e p = cc
writes_refused false fee (some f) g h b e p = (b, thrown_by b p, refl)

record_ledger_refused :
    (w : World) (ids : EntryIds) (intent : PaymentIntent) (merchant : MerchantConfig) (amount : ℤ)
    (s : Settlement) (b : Books) (e : SettlementError)
    → first_refusal w merchant ≡ some e
    → (c : Books) × (record_ledger w ids intent merchant amount s b ≡ (err e, c))
      × (c.settlements ≡ b.settlements)
unfolding record_ledger
record_ledger_refused w (fee_id, payout_id) intent merchant amount s b e =
    writes_refused (ltb 0 merchant.fee_percentage) w.fee_write w.payout_write
      (λ l. (record_fee fee_id w.now (fee_record intent merchant amount) l).1)
      (λ l. (record_settlement payout_id w.now (payout_record s) l).1) b e

-- A body of the `try` that threw after the chain confirmed.
abbrev Refused : Name → Name → SettlementError → Result SettlementError Settlement × Books → Type 0
Refused id hash e x = (x.0 ≡ err e) × ((t : Settlement) × IsAt id t x.1 × (t.tx_hash ≡ some hash))

pay_out-Refused :
    (w : World) (ids : EntryIds) (intent : PaymentIntent) (merchant : MerchantConfig) (amount : ℤ)
    (s : Settlement) (b : Books) (hash : Name) (e : SettlementError)
    → IsAt s.id s b
    → execute_transaction w s ≡ ok hash
    → wait_for_confirmation w hash poll_fuel 0 ≡ some (ok tt)
    → first_refusal w merchant ≡ some e
    → Refused s.id hash e (pay_out w ids intent merchant amount s b)
unfolding pay_out
pay_out-Refused w ids intent merchant amount s b hash e h submits confirms refused =
    let b1 = updated s.id w.now (set_processing hash) b in
    let s1 = changed w.now (set_processing hash) s in
    let h1 : IsAt s.id s1 b1 = updated-IsAt s.id w.now (set_processing hash) b s h in
    let b2 = updated s.id w.now (set_completed w.now) b1 in
    let s2 = changed w.now (set_completed w.now) s1 in
    let h2 : IsAt s.id s2 b2 = updated-IsAt s.id w.now (set_completed w.now) b1 s1 h1 in
    let (c, throws, same) = record_ledger_refused w ids intent merchant amount s2 b2 e refused in
    rw
      (
        submits,
        update_settlement_lem s.id w.now (set_processing hash) b s h,
        confirms,
        update_settlement_lem s.id w.now (set_completed w.now) b1 s1 h1,
        throws,
      )
      (refl, (s2, kept s.id s2 b2 c same h2, refl))

-- What the failure handler leaves.
failure_lem :
    (w : World) (id hash : Name) (e : SettlementError) (b : Books) (t : Settlement)
    → IsAt id t b
    → t.tx_hash ≡ some hash
    → ((handle_settlement_failure w id e b).0 ≡ err (settlement_failed id e))
      × ((u : Settlement) × IsAt id u (handle_settlement_failure w id e b).1
          × (u.status ≡ failed)
          × (u.tx_hash ≡ some hash))
unfolding handle_settlement_failure
failure_lem w id hash e b t h sent =
    elim (Bool-cases (is_retryable_error e && ltb (get_retry_count id) max_retries)) [
      | inl r ↦ rw (update_settlement_lem id w.now (set_status failed) b t h, r) (refl, stored)
      | inr r ↦ rw (update_settlement_lem id w.now (set_status failed) b t h, r) (refl, stored)
    ]
  where
    stored :
        (u : Settlement) × IsAt id u (updated id w.now (set_status failed) b)
        × (u.status ≡ failed)
        × (u.tx_hash ≡ some hash)
    stored = (
      changed w.now (set_status failed) t,
      updated-IsAt id w.now (set_status failed) b t h,
      refl,
      sent,
    )

retry_settlement_lem :
    (w : World) (id : Name) (b : Books) (t : Settlement)
    → IsAt id t b
    → t.status ≡ failed
    → (u : Settlement) × ((retry_settlement w id b).0 ≡ ok u) × (u.status ≡ retrying)
unfolding retry_settlement
retry_settlement_lem w id b t h is_failed = (
  changed w.now (set_status retrying) t,
  rw (h, is_failed, update_settlement_lem id w.now (set_status retrying) b t h) refl,
  refl,
)

-- The call after its body, and the retry.
abbrev Repeats :
    World → Name → Name → SettlementError → Result SettlementError Settlement × Books → Type 0
Repeats w id hash e after =
    (after.0 ≡ err (settlement_failed id e))
    × ((t : Settlement) × (find_settlement id after.1.settlements ≡ some t)
        × (t.status ≡ failed)
        × (t.tx_hash ≡ some hash))
    × ((t : Settlement) × ((retry_settlement w id after.1).0 ≡ ok t) × (t.status ≡ retrying))

repeats :
    (w : World) (id hash : Name) (e : SettlementError)
    (x : Result SettlementError Settlement × Books)
    → Refused id hash e x
    → Repeats w id hash e (handle x (handle_settlement_failure w id))
repeats w id hash e (ok s, b) (h, (t, at, sent)) = absurd (differ s e h)
  where
    differ : (s : Settlement) (e : SettlementError) → ok s ≡ err e → ⊥
    differ s e h = cc
repeats w id hash e (err f, b) (h, (t, at, sent)) =
    let (thrown, (u, here, is_failed, known)) = failure_lem w id hash f b t at sent in
    (
      thrown ∙ ap (λ r. err (settlement_failed id (error_of r))) h,
      (u, here, is_failed, known),
      retry_settlement_lem w id (handle_settlement_failure w id f b).1 u here is_failed,
    )
  where
    error_of : Result SettlementError Settlement → SettlementError
    error_of (ok s) = f
    error_of (err g) = g

-- Under a fresh identifier, where the chain takes every transaction under one hash and confirms
-- it, and the database refuses one of the writes to the ledger: the call throws, the settlement is stored as
-- failed with the hash of the confirmed transaction, and `retrySettlement` then accepts it and
-- returns it as retrying.
pub payout_repeats :
    (w : World) (id hash : Name) (ids : EntryIds) (intent : PaymentIntent)
    (merchant : MerchantConfig) (b : Books) (e : SettlementError)
    → find_settlement id b.settlements ≡ none
    → ((s : Settlement) → execute_transaction w s ≡ ok hash)
    → wait_for_confirmation w hash poll_fuel 0 ≡ some (ok tt)
    → first_refusal w merchant ≡ some e
    → let after = settle_intent w id ids intent merchant b in
      let again = retry_settlement w id after.1 in
      (after.0 ≡ err (settlement_failed id e))
      × ((t : Settlement) × (find_settlement id after.1.settlements ≡ some t)
          × (t.status ≡ failed)
          × (t.tx_hash ≡ some hash))
      × ((t : Settlement) × (again.0 ≡ ok t) × (t.status ≡ retrying))
unfolding settle_intent create_settlement find_settlement
payout_repeats w id hash ids intent merchant b e fresh submits confirms refused =
    let amount = calculate_settlement_amount intent.target_amount merchant.fee_percentage in
    let s = new_settlement id w.now (new_params intent merchant amount) in
    let created = (create_settlement id w.now (new_params intent merchant amount) b).1 in
    repeats w id hash e (pay_out w ids intent merchant amount s created) (
      pay_out-Refused w ids intent merchant amount s created hash e
        (find_at-append id b.settlements s fresh refl) (submits s) confirms refused)
