-- ===== src/Intent/Deposits/Recording.antt =====
-- `recordDeposit` as its callers see it: the result and the intent that is stored afterwards.
use nexora_gateway.Prelude.{
  ◌≡◌, refl, ap, subst, true, false, some, none, inl, inr, ◌⊎◌, ◌≢◌, Bool-cases, Option-cases,
  arith,
}
use nexora_gateway.Prelude.Action.{Result, ok, err, handle}
use nexora_gateway.Intent.State.{
  IntentState, quoted, awaiting_payment, detected, underpaid, expired, deposit_detected,
  quote_expired, payment_awaited, underpayment_detected, overpayment_detected,
  get_expected_next_state, is_valid_transition,
}
use nexora_gateway.Intent.Data.{
  Name, Payload, PaymentIntent, Env, Store, Error, invalid_state_transition, intent_not_found,
}
use nexora_gateway.Intent.Repository.{find_row, accepts_deposit, expired_by}
use nexora_gateway.Intent.Repository.Outcome.{moved, transition_lem}
use nexora_gateway.Intent.Service.{awaited_payload}
use nexora_gateway.Intent.Deposits.{
  Transfer, is_short, is_excess, record_deposit, expire_quote, rescue,
}
use nexora_gateway.Intent.Deposits.Outcome.{move_outcome}
use nexora_gateway.Intent.Deposits.Laws.{
  Awaits, caught_up, judged, record_deposit_ignored, record_deposit_quoted,
  record_deposit_underpaid, awaiting_late, awaiting_exact, awaiting_off, find_row-after_move,
  detect_expired, detect_judged, judge_amount_lem, judged_cases,
}

-- The intent expects its first transfer: it is quoted, or the customer has accepted the quote.
abbrev pub Waits : Name → Store → PaymentIntent → Type 0
Waits id db row =
    (find_row id db.intents ≡ some row) × ((row.state ≡ quoted) ⊎ (row.state ≡ awaiting_payment))

to_awaiting :
    (env : Env) (id : Name) (t : Transfer) (db : Store) (row : PaymentIntent)
    → Waits id db row
    → (db' : Store) × (row' : PaymentIntent) × Awaits id db' row'
      × (record_deposit env id t db ≡ record_deposit env id t db')
      × (row'.quote_expires_at ≡ row.quote_expires_at)
      × (row'.target_amount ≡ row.target_amount)
to_awaiting env id t db row (e, inl q) = (
  caught_up env id row db,
  moved payment_awaited env.now row,
  (find_row-after_move id payment_awaited (awaited_payload env row) env.now row db e, refl),
  record_deposit_quoted env id t db row e q,
  refl,
  refl,
)
to_awaiting env id t db row (e, inr q) = (db, row, (e, q), refl, refl, refl)

-- A transfer within one percent of the amount, in time, for an intent that is quoted or awaiting:
-- the call returns the intent as DETECTED, and that is what the table holds afterwards.
pub record_deposit_detects :
    (env : Env) (id : Name) (t : Transfer) (db : Store) (row : PaymentIntent)
    → Waits id db row
    → expired_by env.now row.quote_expires_at ≡ false
    → is_short t.received row.target_amount ≡ false
    → is_excess t.received row.target_amount ≡ false
    → let (r, db') = record_deposit env id t db in
      (new : PaymentIntent) × (r ≡ ok new)
      × (new.state ≡ detected)
      × (find_row id db'.intents ≡ some new)
unfolding judged
record_deposit_detects env id t db row w early enough exact =
    let (db', row', a, same, e, f) = to_awaiting env id t db row w in
    let (r, stored) =
      awaiting_exact env id t db' row' a (rw e early) (rw (judged, f, enough, exact) refl) in
    rw same (moved deposit_detected env.now row', r, refl, stored)

-- A transfer after the quote has run out, for an intent that is quoted or awaiting: the call
-- succeeds, and returns and stores the intent as EXPIRED.
pub record_deposit_late :
    (env : Env) (id : Name) (t : Transfer) (db : Store) (row : PaymentIntent)
    → Waits id db row
    → expired_by env.now row.quote_expires_at ≡ true
    → let (r, db') = record_deposit env id t db in
      (new : PaymentIntent) × (r ≡ ok new)
      × (new.state ≡ expired)
      × (find_row id db'.intents ≡ some new)
record_deposit_late env id t db row w late =
    let (db', row', a, same, e, f) = to_awaiting env id t db row w in
    let (r, stored) = awaiting_late env id t db' row' a (rw e late) in
    rw same (moved quote_expired env.now row', r, refl, stored)

-- A transfer more than one percent off the amount, in time, for an intent that is quoted or
-- awaiting: the call throws an invalid transition, and the intent is left in AWAITING_PAYMENT.
pub record_deposit_off_amount :
    (env : Env) (id : Name) (t : Transfer) (db : Store) (row : PaymentIntent)
    → Waits id db row
    → expired_by env.now row.quote_expires_at ≡ false
    → (is_short t.received row.target_amount ≡ true)
      ⊎ (is_excess t.received row.target_amount ≡ true)
    → let (r, db') = record_deposit env id t db in
      (to : IntentState) × (r ≡ err (invalid_state_transition awaiting_payment to))
      × (kept : PaymentIntent) × (find_row id db'.intents ≡ some kept)
      × (kept.state ≡ awaiting_payment)
unfolding judged
record_deposit_off_amount env id t db row w early off =
    let (db', row', a, same, e, f) = to_awaiting env id t db row w in
    rw (same, awaiting_off env id t db' row' a (rw e early) (rw f (not_exact off)))
      (get_expected_next_state (judged t row'.target_amount), refl, row', a.0, a.1)
  where
    not_exact :
        (is_short t.received row.target_amount ≡ true)
          ⊎ (is_excess t.received row.target_amount ≡ true)
        → judged t row.target_amount ≢ deposit_detected
    not_exact h e = ground arith

-- Whatever the transfer, an intent in UNDERPAID makes the call throw an invalid transition, and
-- nothing is written.
pub record_deposit_top_up :
    (env : Env) (id : Name) (t : Transfer) (db : Store) (row : PaymentIntent)
    → find_row id db.intents ≡ some row
    → row.state ≡ underpaid
    → (to : IntentState) × (record_deposit env id t db
        ≡ (err (invalid_state_transition underpaid to), db))
unfolding expire_quote is_valid_transition rescue
record_deposit_top_up env id t db row e q =
    elim (Bool-cases (expired_by env.now row.quote_expires_at)) [
      | inl late ↦ (
        expired,
        rw (record_deposit_underpaid env id t db row e q, detect_expired env id t db row e late)
            (rw (expire_quote, transition_lem) (rw e (rw q refl))),
      )
      | inr early ↦
          let (payload, content, same) = judge_amount_lem env id t db row e in
          (
            get_expected_next_state (judged t row.target_amount),
            rw
                (
                  record_deposit_underpaid env id t db row e q,
                  detect_judged env id t db row e early,
                  same,
                )
                (underpaid_stuck payload content (judged_cases t row.target_amount)),
          )
    ]
  where
    underpaid_stuck :
        (payload content : Payload)
        → (judged t row.target_amount ≡ underpayment_detected)
          ⊎ (judged t row.target_amount ≡ overpayment_detected)
          ⊎ (judged t row.target_amount ≡ deposit_detected)
        → handle
            (move_outcome env id (judged t row.target_amount) payload content db row)
            (rescue id)
          ≡ (
            err (
                invalid_state_transition underpaid
                  (get_expected_next_state (judged t row.target_amount))),
            db,
          )
    underpaid_stuck payload content (inl j) = rw (j, q) refl
    underpaid_stuck payload content (inr (inl j)) = rw (j, q) refl
    underpaid_stuck payload content (inr (inr j)) = rw (j, q) refl

accepts_cases :
    (s : IntentState)
    → (accepts_deposit s ≡ false) ⊎ ((s ≡ quoted) ⊎ (s ≡ awaiting_payment)) ⊎ (s ≡ underpaid)
accepts_cases quoted = inr (inl (inl refl))
accepts_cases awaiting_payment = inr (inl (inr refl))
accepts_cases underpaid = inr (inr refl)
accepts_cases _ = inl refl

-- What a call that returned has stored: an intent that waits for no further deposit.
abbrev IsDone : Name → PaymentIntent → Result Error PaymentIntent × Store → Type 0
IsDone id new (r, db) = (find_row id db.intents ≡ some new) × (accepts_deposit new.state ≡ false)

waiting-IsDone :
    (env : Env) (id : Name) (t : Transfer) (db : Store) (row new : PaymentIntent)
    → Waits id db row
    → (record_deposit env id t db).0 ≡ ok new
    → IsDone id new (record_deposit env id t db)
waiting-IsDone env id t db row new w h =
    elim (Bool-cases (expired_by env.now row.quote_expires_at)) [
      | inl late ↦ closed expired (λ x e. rw e refl) (record_deposit_late env id t db row w late)
      | inr early ↦ elim (Bool-cases (is_short t.received row.target_amount)) [
        | inl short ↦ thrown (record_deposit_off_amount env id t db row w early (inl short))
        | inr enough ↦ elim (Bool-cases (is_excess t.received row.target_amount)) [
          | inl over ↦ thrown (record_deposit_off_amount env id t db row w early (inr over))
          | inr exact ↦
              closed detected (λ x e. rw e refl)
                (record_deposit_detects env id t db row w early enough exact)
        ]
      ]
    ]
  where
    closed :
        (s : IntentState)
        → ((x : PaymentIntent) → x.state ≡ s → accepts_deposit x.state ≡ false)
        → ((x : PaymentIntent) × ((record_deposit env id t db).0 ≡ ok x)
            × (x.state ≡ s)
            × (find_row id (record_deposit env id t db).1.intents ≡ some x))
        → IsDone id new (record_deposit env id t db)
    closed s shut (x, r, q, stored) =
        let same : x ≡ new = cc (r, h) in
        subst (λ n. IsDone id n (record_deposit env id t db)) same (stored, shut x q)

    thrown :
        ((to : IntentState) × ((record_deposit env id t db).0
            ≡ err (invalid_state_transition awaiting_payment to))
          × (kept : PaymentIntent) × (find_row id (record_deposit env id t db).1.intents
              ≡ some kept)
          × (kept.state ≡ awaiting_payment))
        → IsDone id new (record_deposit env id t db)
    thrown (to, r, kept, found, q) = cc

record_deposit-IsDone :
    (env : Env) (id : Name) (t : Transfer) (db : Store) (new : PaymentIntent)
    → (record_deposit env id t db).0 ≡ ok new
    → IsDone id new (record_deposit env id t db)
unfolding record_deposit
record_deposit-IsDone env id t db new h = elim (Option-cases (find_row id db.intents)) [
  | inl e ↦ cc (missing e)
  | inr (row, e) ↦ elim (accepts_cases row.state) [
    | inl ignored ↦
        let r = record_deposit_ignored env id t db row e ignored in
        let same : row ≡ new = cc (ap (λ p. p.0) r, h) in
        subst (λ n. IsDone id n (record_deposit env id t db)) same (rw r (e, ignored))
    | inr (inl waits) ↦ waiting-IsDone env id t db row new (e, waits) h
    | inr (inr stuck) ↦
        let (to, r) = record_deposit_top_up env id t db row e stuck in cc (ap (λ p. p.0) r)
  ]
]
  where
    missing :
        find_row id db.intents ≡ none → (record_deposit env id t db).0 ≡ err (intent_not_found id)
    missing e = rw (e, record_deposit) refl

-- After a call that succeeded, a second one for the same intent, by any transfer and at any time,
-- returns the same intent and writes nothing.
pub record_deposit_twice :
    (env later : Env) (id : Name) (t again : Transfer) (db : Store) (new : PaymentIntent)
    → (record_deposit env id t db).0 ≡ ok new
    → record_deposit later id again (record_deposit env id t db).1
      ≡ (ok new, (record_deposit env id t db).1)
record_deposit_twice env later id t again db new h =
    let (stored, closed) = record_deposit-IsDone env id t db new h in
    record_deposit_ignored later id again (record_deposit env id t db).1 new stored closed
