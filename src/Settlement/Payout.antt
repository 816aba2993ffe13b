-- ===== src/Settlement/Payout.antt =====
-- What `settleIntent` leaves behind, on every path.
use nexora_gateway.Prelude.{
  ℕ, ◌≡◌, refl, ◌∙◌, List, [], ◌∷◌, ◌++◌, none, some, arith, inl, inr, Bool-cases, Option-cases,
  find_at, change_at, find_at-change_at, ==_self, ltb, ◌&&◌,
}
use nexora_gateway.Prelude.Int.{ℤ}
use nexora_gateway.Prelude.Action.{Result, ok, err, Result-cases, and_then, pure, handle}
use nexora_gateway.Intent.Data.{Name, PaymentIntent, MerchantConfig}
use nexora_gateway.Ledger.Queries.{calculate_settlement_amount}
use nexora_gateway.Settlement.Repository.{
  completed, failed, Settlement, SettlementError, Books, UpdateSettlementParams, new_settlement,
  with_settlements, create_settlement, find_settlement, changed, update_settlement,
}
use nexora_gateway.Settlement.Service.{
  World, EntryIds, execute_transaction, wait_for_confirmation, poll_fuel, finished, record_ledger,
  pay_out, set_processing, set_completed, set_status, handle_settlement_failure, settle_intent,
  new_params, is_retryable_error, get_retry_count, max_retries,
}

-- The store in which one row is updated.
abbrev pub updated : Name → ℕ → UpdateSettlementParams → Books → Books
updated id now p b = with_settlements (change_at (λ s. s.id) id (changed now p) b.settlements) b

abbrev pub IsAt : Name → Settlement → Books → Type 0
IsAt id s b = find_settlement id b.settlements ≡ some s

pub update_settlement_lem :
    (id : Name) (now : ℕ) (p : UpdateSettlementParams) (b : Books) (s : Settlement)
    → IsAt id s b
    → update_settlement id now p b ≡ (ok (changed now p s), updated id now p b)
unfolding update_settlement
update_settlement_lem id now p b s h = rw (update_settlement, h) refl

pub updated-IsAt :
    (id : Name) (now : ℕ) (p : UpdateSettlementParams) (b : Books) (s : Settlement)
    → IsAt id s b
    → IsAt id (changed now p s) (updated id now p b)
unfolding find_settlement
updated-IsAt id now p b s h =
    find_at-change_at (λ s. s.id) id id (changed now p) b.settlements (λ s. refl)
    ∙ rw (==_self id, h) refl

pub find_at-append :
    (id : Name) (rows : List Settlement) (s : Settlement)
    → find_at (λ s. s.id) id rows ≡ none
    → s.id ≡ id
    → find_at (λ s. s.id) id (rows ++ s ∷ []) ≡ some s
find_at-append id [] s h same = rw (same, ==_self id) refl
find_at-append id (r ∷ rows) s h same = ground (arith, find_at-append id rows s)

record_ledger_settlements :
    (w : World) (ids : EntryIds) (intent : PaymentIntent) (merchant : MerchantConfig) (amount : ℤ)
    (s : Settlement) (b : Books)
    → (record_ledger w ids intent merchant amount s b).1.settlements ≡ b.settlements
unfolding record_ledger
record_ledger_settlements w ids intent merchant amount s b =
    elim (Bool-cases (ltb 0 merchant.fee_percentage)) [
      | inl charged ↦ elim (Option-cases w.fee_write) [
        | inl p ↦ elim (Option-cases w.payout_write) [
          | inl q ↦ rw (charged, p, q) refl
          | inr (x, q) ↦ rw (charged, p, q) refl
        ]
        | inr (x, p) ↦ rw (charged, p) refl
      ]
      | inr free ↦ elim (Option-cases w.payout_write) [
        | inl q ↦ rw (free, q) refl
        | inr (x, q) ↦ rw (free, q) refl
      ]
    ]

-- After a body of the `try`: the row is paid, or still there.
abbrev Tried : Name → ℤ → Result SettlementError Settlement × Books → Type 0
Tried id amount (ok t, b) = IsAt id t b × (t.status ≡ completed) × (t.amount ≡ amount)
Tried id amount (err e, b) = (t : Settlement) × IsAt id t b × (t.amount ≡ amount)

and_return-Tried :
    (id : Name) (amount : ℤ) (t : Settlement) (x : Result SettlementError (Unit {0}) × Books)
    → IsAt id t x.1
    → t.status ≡ completed
    → t.amount ≡ amount
    → Tried id amount (and_then x (λ _. pure t))
and_return-Tried id amount t (ok a, b) h paid same = (h, paid, same)
and_return-Tried id amount t (err e, b) h paid same = (t, h, same)

pub kept :
    (id : Name) (t : Settlement) (b c : Books)
    → c.settlements ≡ b.settlements
    → IsAt id t b
    → IsAt id t c
kept id t b c p h = rw p h

pay_out-Tried :
    (w : World) (ids : EntryIds) (intent : PaymentIntent) (merchant : MerchantConfig) (amount : ℤ)
    (s : Settlement) (b : Books)
    → IsAt s.id s b
    → Tried s.id s.amount (pay_out w ids intent merchant amount s b)
unfolding pay_out
pay_out-Tried w ids intent merchant amount s b h = elim (Result-cases (execute_transaction w s)) [
  | inr (e, p) ↦ rw p (s, h, refl)
  | inl (hash, p) ↦
      let b1 = updated s.id w.now (set_processing hash) b in
      let s1 = changed w.now (set_processing hash) s in
      let h1 : IsAt s.id s1 b1 = updated-IsAt s.id w.now (set_processing hash) b s h in
      let u1 = update_settlement_lem s.id w.now (set_processing hash) b s h in
      elim (Result-cases (finished (wait_for_confirmation w hash poll_fuel 0))) [
        | inr (e, q) ↦ rw (p, u1, q) (s1, h1, refl)
        | inl (_, q) ↦
            let b2 = updated s.id w.now (set_completed w.now) b1 in
            let s2 = changed w.now (set_completed w.now) s1 in
            let h2 : IsAt s.id s2 b2 = updated-IsAt s.id w.now (set_completed w.now) b1 s1 h1 in
            let u2 = update_settlement_lem s.id w.now (set_completed w.now) b1 s1 h1 in
            rw (p, u1, q, u2)
              (and_return-Tried s.id s.amount s2 (record_ledger w ids intent merchant amount s2 b2)
                (kept s.id s2 b2 (record_ledger w ids intent merchant amount s2 b2).1
                  (record_ledger_settlements w ids intent merchant amount s2 b2) h2)
                refl refl)
      ]
]

-- After a call of `settleIntent` under the identifier id: a payout that is reported is recorded as
-- completed, and one that is not is recorded as failed, each with its amount.
abbrev pub Settled : Name → ℤ → Result SettlementError Settlement × Books → Type 0
Settled id amount (ok t, b) =
    (find_settlement id b.settlements ≡ some t) × (t.status ≡ completed) × (t.amount ≡ amount)
Settled id amount (err e, b) =
    (t : Settlement) × (find_settlement id b.settlements ≡ some t)
    × (t.status ≡ failed)
    × (t.amount ≡ amount)

failure-Settled :
    (w : World) (id : Name) (e : SettlementError) (amount : ℤ) (b : Books) (t : Settlement)
    → IsAt id t b
    → t.amount ≡ amount
    → Settled id amount (handle_settlement_failure w id e b)
unfolding handle_settlement_failure
failure-Settled w id e amount b t h same =
    elim (Bool-cases (is_retryable_error e && ltb (get_retry_count id) max_retries)) [
      | inl r ↦
          rw (update_settlement_lem id w.now (set_status failed) b t h, r)
            (
              changed w.now (set_status failed) t,
              updated-IsAt id w.now (set_status failed) b t h,
              refl,
              same,
            )
      | inr r ↦
          rw (update_settlement_lem id w.now (set_status failed) b t h, r)
            (
              changed w.now (set_status failed) t,
              updated-IsAt id w.now (set_status failed) b t h,
              refl,
              same,
            )
    ]

caught-Settled :
    (w : World) (id : Name) (amount : ℤ) (x : Result SettlementError Settlement × Books)
    → Tried id amount x
    → Settled id amount (handle x (handle_settlement_failure w id))
caught-Settled w id amount (ok t, b) h = h
caught-Settled w id amount (err e, b) (t, h, same) = failure-Settled w id e amount b t h same

-- Under a fresh identifier, every call of `settleIntent` leaves one of two records, whatever the
-- chain answers and whichever of the two writes to the ledger is refused: it reports a settlement that is stored as completed, or it throws and
-- the settlement is stored as failed. The stored amount is the one that is calculated from the
-- target and the fee.
pub settle_intent-Settled :
    (w : World) (id : Name) (ids : EntryIds) (intent : PaymentIntent) (merchant : MerchantConfig)
    (b : Books)
    → find_settlement id b.settlements ≡ none
    → Settled id
        (calculate_settlement_amount intent.target_amount merchant.fee_percentage)
        (settle_intent w id ids intent merchant b)
unfolding settle_intent create_settlement find_settlement
settle_intent-Settled w id ids intent merchant b fresh =
    let amount = calculate_settlement_amount intent.target_amount merchant.fee_percentage in
    let s = new_settlement id w.now (new_params intent merchant amount) in
    let created = (create_settlement id w.now (new_params intent merchant amount) b).1 in
    caught-Settled w id amount (pay_out w ids intent merchant amount s created) (
      pay_out-Tried w ids intent merchant amount s created
        (find_at-append id b.settlements s fresh refl))
