-- ===== src/Intent/Deposits/Laws.antt =====
-- What `recordDeposit` does with a transfer, by the state of the intent, its quote and the amount.
use nexora_gateway.Prelude.{
  ℕ, ◌≡◌, refl, sym, ◌∙◌, true, false, [], ◌∷◌, ◌++◌, some, inl, inr, arith, if◌then◌else◌,
  Bool-cases, ==_self, ◌⊎◌, ◌≢◌,
}
use nexora_gateway.Prelude.Int.{ℤ}
use nexora_gateway.Prelude.Action.{ok, err, handle}
use nexora_gateway.Intent.State.{
  EventType, quoted, awaiting_payment, underpaid, quote_expired, payment_awaited, deposit_detected,
  underpayment_detected, overpayment_detected, is_valid_transition, get_expected_next_state,
}
use nexora_gateway.Intent.Data.{
  Name, Payload, PaymentIntent, Env, Store, invalid_state_transition, quote_expired_error, time,
}
use nexora_gateway.Intent.Repository.{find_row, log_event, accepts_deposit, expired_by}
use nexora_gateway.Intent.Repository.Rows.{find_row-id, find_row-put_row}
use nexora_gateway.Intent.Repository.Outcome.{moved, after_move, transition_lem}
use nexora_gateway.Intent.Service.{await_payment, awaited_payload}
use nexora_gateway.Intent.Deposits.{
  Transfer, shortfall_payload, excess_payload, source_payload, deposit_payload, is_short, is_excess,
  judge_amount, detect_deposit, expire_quote, record_deposit, rescue,
}
use nexora_gateway.Intent.Deposits.Outcome.{move_outcome, move_and_notify_lem, find_row-moved}

-- An intent that does not wait for a deposit is returned as it is.
pub record_deposit_ignored :
    (env : Env) (id : Name) (t : Transfer) (db : Store) (row : PaymentIntent)
    → find_row id db.intents ≡ some row
    → accepts_deposit row.state ≡ false
    → record_deposit env id t db ≡ (ok row, db)
unfolding record_deposit
record_deposit_ignored env id t db row e h = rw (e, record_deposit) (rw h refl)

pub find_row-after_move :
    (id : Name) (type : EventType) (payload : Payload) (now : ℕ) (row : PaymentIntent) (db : Store)
    → find_row id db.intents ≡ some row
    → find_row id (after_move id type payload now row db).intents ≡ some (moved type now row)
unfolding log_event
find_row-after_move id type payload now row db e =
    find_row-put_row id id (moved type now row) db.intents row (find_row-id id db.intents row e) e
    ∙ rw (==_self id) refl

abbrev pub caught_up : Env → Name → PaymentIntent → Store → Store
caught_up env id row db = after_move id payment_awaited (awaited_payload env row) env.now row db

await_payment_lem :
    (env : Env) (id : Name) (db : Store) (row : PaymentIntent)
    → find_row id db.intents ≡ some row
    → row.state ≡ quoted
    → await_payment env id db ≡ (ok (moved payment_awaited env.now row), caught_up env id row db)
unfolding await_payment is_valid_transition
await_payment_lem env id db row e q =
    rw (e, await_payment)
      (rw (q, transition_lem id payment_awaited (awaited_payload env row) env.now db)
        (rw e (rw q refl)))

record_deposit_awaiting :
    (env : Env) (id : Name) (t : Transfer) (db : Store) (row : PaymentIntent)
    → find_row id db.intents ≡ some row
    → row.state ≡ awaiting_payment
    → record_deposit env id t db ≡ handle (detect_deposit env id t db) (rescue id)
unfolding record_deposit
record_deposit_awaiting env id t db row e q = rw (e, record_deposit) (rw q refl)

pub record_deposit_underpaid :
    (env : Env) (id : Name) (t : Transfer) (db : Store) (row : PaymentIntent)
    → find_row id db.intents ≡ some row
    → row.state ≡ underpaid
    → record_deposit env id t db ≡ handle (detect_deposit env id t db) (rescue id)
unfolding record_deposit
record_deposit_underpaid env id t db row e q = rw (e, record_deposit) (rw q refl)

-- A quoted intent first moves to AWAITING_PAYMENT, and is then treated as an awaiting one.
pub record_deposit_quoted :
    (env : Env) (id : Name) (t : Transfer) (db : Store) (row : PaymentIntent)
    → find_row id db.intents ≡ some row
    → row.state ≡ quoted
    → record_deposit env id t db ≡ record_deposit env id t (caught_up env id row db)
unfolding record_deposit
record_deposit_quoted env id t db row e q =
    rw (e, record_deposit) (rw q (rw (await_payment_lem env id db row e q) refl))
    ∙ sym (
        record_deposit_awaiting env id t (caught_up env id row db)
          (moved payment_awaited env.now row)
          (find_row-after_move id payment_awaited (awaited_payload env row) env.now row db e) refl)

-- Each case of `detectDeposit`, on a row whose state is known.
pub detect_expired :
    (env : Env) (id : Name) (t : Transfer) (db : Store) (row : PaymentIntent)
    → find_row id db.intents ≡ some row
    → expired_by env.now row.quote_expires_at ≡ true
    → detect_deposit env id t db ≡ expire_quote env id db
unfolding detect_deposit
detect_expired env id t db row e late = rw (e, detect_deposit) (rw late refl)

pub detect_judged :
    (env : Env) (id : Name) (t : Transfer) (db : Store) (row : PaymentIntent)
    → find_row id db.intents ≡ some row
    → expired_by env.now row.quote_expires_at ≡ false
    → detect_deposit env id t db ≡ judge_amount env id t row.target_amount db
unfolding detect_deposit
detect_judged env id t db row e early = rw (e, detect_deposit) (rw early refl)

-- How the amount is judged: short before excess, and within one percent otherwise.
unfoldable pub judged : Transfer → ℤ → EventType
judged t expected =
    if is_short t.received expected
    then underpayment_detected
    else if is_excess t.received expected
    then overpayment_detected
    else deposit_detected

pub judged_cases :
    (t : Transfer) (expected : ℤ)
    → (judged t expected ≡ underpayment_detected)
      ⊎ (judged t expected ≡ overpayment_detected)
      ⊎ (judged t expected ≡ deposit_detected)
unfolding judged
judged_cases t expected = ground arith

pub judge_amount_lem :
    (env : Env) (id : Name) (t : Transfer) (db : Store) (row : PaymentIntent)
    → find_row id db.intents ≡ some row
    → (payload content : Payload) × (judge_amount env id t row.target_amount db
        ≡ move_outcome env id (judged t row.target_amount) payload content db row)
unfolding judge_amount judged
judge_amount_lem env id t db row e = elim (Bool-cases (is_short t.received row.target_amount)) [
  | inl short ↦
      let brief = shortfall_payload row.target_amount t in
      (
        brief ++ source_payload t,
        brief,
        rw (short, judge_amount, judged)
            (move_and_notify_lem env id underpayment_detected (brief ++ source_payload t) brief db
              row e),
      )
  | inr enough ↦ elim (Bool-cases (is_excess t.received row.target_amount)) [
    | inl over ↦
        let brief = excess_payload row.target_amount t in
        (
          brief ++ source_payload t,
          brief,
          rw (enough, over, judge_amount, judged)
              (move_and_notify_lem env id overpayment_detected (brief ++ source_payload t) brief db
                row e),
        )
    | inr exact ↦ (
      ("detected_at", time env.now) ∷ deposit_payload t,
      deposit_payload t,
      rw (enough, exact, judge_amount, judged)
          (move_and_notify_lem env id deposit_detected
            (("detected_at", time env.now) ∷ deposit_payload t) (deposit_payload t) db row e),
    )
  ]
]

-- What is left to decide for an awaiting row: by the quote, and then by the amount.
abbrev pub Awaits : Name → Store → PaymentIntent → Type 0
Awaits id db row = (find_row id db.intents ≡ some row) × (row.state ≡ awaiting_payment)

expire_quote_lem :
    (env : Env) (id : Name) (db : Store) (row : PaymentIntent)
    → Awaits id db row
    → expire_quote env id db ≡ (
      err (quote_expired_error id),
      after_move id quote_expired (("expired_at", time env.now) ∷ []) env.now row db,
    )
unfolding expire_quote is_valid_transition
expire_quote_lem env id db row (e, q) =
    rw
      (expire_quote, transition_lem id quote_expired (("expired_at", time env.now) ∷ []) env.now db)
      (rw (e, q) refl)

pub awaiting_late :
    (env : Env) (id : Name) (t : Transfer) (db : Store) (row : PaymentIntent)
    → Awaits id db row
    → expired_by env.now row.quote_expires_at ≡ true
    → let (r, db') = record_deposit env id t db in
      (r ≡ ok (moved quote_expired env.now row))
      × (find_row id db'.intents ≡ some (moved quote_expired env.now row))
unfolding rescue
awaiting_late env id t db row (e, q) late =
    let found =
      find_row-after_move id quote_expired (("expired_at", time env.now) ∷ []) env.now row db e in
    rw (record_deposit_awaiting env id t db row e q, detect_expired env id t db row e late)
      (rw (expire_quote_lem env id db row (e, q)) (rw (found, rescue) (refl, found)))

awaiting_judged :
    (env : Env) (id : Name) (t : Transfer) (db : Store) (row : PaymentIntent)
    → Awaits id db row
    → expired_by env.now row.quote_expires_at ≡ false
    → (payload content : Payload) × (record_deposit env id t db
        ≡ handle
            (move_outcome env id (judged t row.target_amount) payload content db row)
            (rescue id))
awaiting_judged env id t db row (e, q) early =
    let (payload, content, same) = judge_amount_lem env id t db row e in
    (
      payload,
      content,
      rw (record_deposit_awaiting env id t db row e q, detect_judged env id t db row e early, same)
          refl,
    )

pub awaiting_exact :
    (env : Env) (id : Name) (t : Transfer) (db : Store) (row : PaymentIntent)
    → Awaits id db row
    → expired_by env.now row.quote_expires_at ≡ false
    → judged t row.target_amount ≡ deposit_detected
    → let (r, db') = record_deposit env id t db in
      (r ≡ ok (moved deposit_detected env.now row))
      × (find_row id db'.intents ≡ some (moved deposit_detected env.now row))
unfolding is_valid_transition
awaiting_exact env id t db row (e, q) early exact =
    let (payload, content, same) = awaiting_judged env id t db row (e, q) early in
    let found = find_row-moved env id deposit_detected payload content db row e in
    rw (same, exact) (rw q (refl, found))

pub awaiting_off :
    (env : Env) (id : Name) (t : Transfer) (db : Store) (row : PaymentIntent)
    → Awaits id db row
    → expired_by env.now row.quote_expires_at ≡ false
    → judged t row.target_amount ≢ deposit_detected
    → record_deposit env id t db ≡ (
      err (
          invalid_state_transition awaiting_payment
            (get_expected_next_state (judged t row.target_amount))),
      db,
    )
unfolding is_valid_transition rescue judged
awaiting_off env id t db row (e, q) early off =
    let (payload, content, same) = awaiting_judged env id t db row (e, q) early in
    elim (Bool-cases (is_short t.received row.target_amount)) [
      | inl short ↦ rw same (rw (short, judged) (rw q refl))
      | inr enough ↦ elim (Bool-cases (is_excess t.received row.target_amount)) [
        | inl over ↦ rw same (rw (enough, over, judged) (rw q refl))
        | inr exact ↦ absurd (off (rw (enough, exact, judged) refl))
      ]
    ]
