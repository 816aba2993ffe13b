-- ===== src/Intent/Webhook/Requests.antt =====
-- How often a merchant is told of an event. The delivery table promises five attempts; the sending
-- code makes one.
use nexora_gateway.Prelude.{
  ℕ, suc, ◌+◌, ◌-◌, ◌<◌, ◌≡◌, refl, ap, ◌∙◌, true, false, List, [], ◌∷◌, ◌++◌, Option, none, some,
  inl, inr, arith, if◌then◌else◌, take, keep_if, Bool-cases, Option-cases, lt→ltb, leb, ltb,
}
use nexora_gateway.Intent.State.{EventType}
use nexora_gateway.Intent.Data.{
  Name, Payload, PaymentIntent, pending, delivered, Delivery, Request, Env, Store,
}
use nexora_gateway.Intent.Webhook.Rows.{
  KeepsKey, same_key, get_delivery-change, get_delivery-append, same_key_eq, same_key_refl,
  first_row,
}
use nexora_gateway.Intent.Webhook.{
  has_key, get_delivery, change_delivery, upsert_delivery, update_delivery_status, request_of,
  record_outcome, attempt_row, attempt_delivery, post_event, deliver_webhook, attempt_each,
  process_retries, get_merchant, webhook_url_of, with_status, retry_delay, max_attempts,
  new_delivery, webhook_payload, refresh_payload, is_due,
}

-- The requests sent for one intent and one type of event.
abbrev pub count_sent : Name → EventType → List Request → ℕ
count_sent id type [] = 0
count_sent id type (r ∷ rs) =
    if same_key r.intent_id r.event_type id type
    then suc (count_sent id type rs)
    else count_sent id type rs

-- One request for the row of a key, if there is such a row, and none without.
abbrev pub tally : Option Delivery → ℕ
tally none = 0
tally (some d) = 1

abbrev pub Attempted : Option Delivery → Type 0
Attempted none = Unit
Attempted (some d) = 0 < d.attempt_count

-- Every row has been attempted, and exactly one request was ever sent for it.
abbrev pub IsSentOnce : Store → Type 0
IsSentOnce db =
    (id : Name) (type : EventType)
    → (count_sent id type db.sent ≡ tally (get_delivery id type db.deliveries))
      × Attempted (get_delivery id type db.deliveries)

-- A row that was attempted before is only rescheduled.
attempt_row_again :
    (env : Env) (id : Name) (type : EventType) (d : Delivery) (db : Store)
    → 0 < d.attempt_count
    → (attempt_row env id type d db).sent ≡ db.sent
unfolding attempt_row
attempt_row_again env id type d db h = ground arith

-- An attempt changes the row of its key alone, which then counts one attempt more, and sends a
-- request only where none was counted.
attempt_row_shape :
    (env : Env) (id : Name) (type : EventType) (d : Delivery) (db : Store)
    → (f : Delivery → Delivery) × KeepsKey f
      × ((x : Delivery) → (f x).attempt_count ≡ d.attempt_count + 1)
      × ((attempt_row env id type d db).deliveries ≡ change_delivery id type f db.deliveries)
      × ((attempt_row env id type d db).sent
          ≡ (if ltb 0 d.attempt_count then db.sent else request_of d ∷ db.sent))
unfolding attempt_row record_outcome update_delivery_status
attempt_row_shape env id type d db = elim (Bool-cases (ltb 1 (d.attempt_count + 1))) [
  | inl again ↦ (
    with_status pending (d.attempt_count + 1)
        (some (env.now + retry_delay (d.attempt_count + 1 - 1))) env.now,
    λ x. (refl, refl),
    λ x. refl,
    rw (attempt_row, again) refl,
    rw (attempt_row, again) (ground arith),
  )
  | inr first ↦ elim (Bool-cases (env.responds_ok (request_of d))) [
    | inl fine ↦ (
      with_status delivered (d.attempt_count + 1) none env.now,
      λ x. (refl, refl),
      λ x. refl,
      rw (attempt_row, first, fine) refl,
      rw (attempt_row, first) (ground arith),
    )
    | inr broken ↦ (
      with_status pending (d.attempt_count + 1) (some (env.now + retry_delay (d.attempt_count + 1)))
          env.now,
      λ x. (refl, refl),
      λ x. refl,
      rw (attempt_row, first, broken, few first) refl,
      rw (attempt_row, first) (ground arith),
    )
  ]
]
  where
    few : ltb 1 (d.attempt_count + 1) ≡ false → leb max_attempts (d.attempt_count + 1) ≡ false
    few h = ground arith

change_delivery-IsSentOnce :
    (id : Name) (type : EventType) (f : Delivery → Delivery) (db : Store)
    → KeepsKey f
    → ((x : Delivery) → 0 < x.attempt_count → 0 < (f x).attempt_count)
    → IsSentOnce db
    → IsSentOnce (record db { deliveries = change_delivery id type f db.deliveries })
change_delivery-IsSentOnce id type f db keeps live h k t =
    rw (get_delivery-change id k type t f db.deliveries keeps)
      (elim (Bool-cases (same_key id type k t)) [
        | inl same ↦ rw same (elim (Option-cases (get_delivery k t db.deliveries)) [
          | inl e ↦ rw e (rw e at (h k t))
          | inr (x, e) ↦ rw e ((rw e at (h k t)).0, live x (rw e at (h k t)).1)
        ])
        | inr other ↦ rw other (h k t)
      ])

-- A store that differs only in tables that the invariant does not read.
IsSentOnce-of :
    (db db' : Store)
    → db'.deliveries ≡ db.deliveries
    → db'.sent ≡ db.sent
    → IsSentOnce db
    → IsSentOnce db'
IsSentOnce-of db db' e f h k t = rw (e, f) (h k t)

-- Where every row was attempted, a further attempt sends nothing.
attempt_delivery_again :
    (env : Env) (id : Name) (type : EventType) (db : Store)
    → IsSentOnce db
    → ((attempt_delivery env id type db).sent ≡ db.sent)
      × IsSentOnce (attempt_delivery env id type db)
unfolding attempt_delivery
attempt_delivery_again env id type db h = elim (Option-cases (get_delivery id type db.deliveries)) [
  | inl e ↦ rw (e, attempt_delivery) (refl, h)
  | inr (d, e) ↦
      let (f, keeps, counts, changed, sent) = attempt_row_shape env id type d db in
      let positive : ltb 0 d.attempt_count ≡ true =
        lt→ltb 0 d.attempt_count (rw e at (h id type)).1 in
      let still : (attempt_row env id type d db).sent ≡ db.sent = rw positive at sent in
      rw (e, attempt_delivery)
        (
          still,
          IsSentOnce-of (record db { deliveries = change_delivery id type f db.deliveries })
              (attempt_row env id type d db) changed still
              (change_delivery-IsSentOnce id type f db keeps (λ x p. rw (counts x) (omega arith))
                h),
        )
]

abbrev new_row : Env → Name → PaymentIntent → EventType → Payload → Delivery
new_row env url intent type content =
    new_delivery intent.id type url (webhook_payload env intent type content)

attempt_found :
    (env : Env) (id : Name) (type : EventType) (d : Delivery) (db : Store)
    → get_delivery id type db.deliveries ≡ some d
    → attempt_delivery env id type db ≡ attempt_row env id type d db
unfolding attempt_delivery
attempt_found env id type d db e = rw (e, attempt_delivery) refl

abbrev with_new : Env → Name → PaymentIntent → EventType → Payload → Store → Store
with_new env url intent type content db = record db {
  deliveries = db.deliveries ++ new_row env url intent type content ∷ [];
}

post_new :
    (env : Env) (url : Name) (intent : PaymentIntent) (type : EventType) (content : Payload)
    (db : Store)
    → get_delivery intent.id type db.deliveries ≡ none
    → post_event env url intent type content db
      ≡ attempt_row env intent.id type
          (new_row env url intent type content)
          (with_new env url intent type content db)
unfolding post_event upsert_delivery has_key
post_new env url intent type content db fresh =
    rw (post_event, upsert_delivery, fresh)
      (attempt_found env intent.id type (new_row env url intent type content)
        (with_new env url intent type content db)
        (get_delivery-append intent.id type db.deliveries (new_row env url intent type content)
            fresh
          ∙ rw (same_key_refl intent.id type) refl))

-- The first event of its type for an intent: one request leaves, whatever the merchant answers.
post_first :
    (env : Env) (url : Name) (intent : PaymentIntent) (type : EventType) (content : Payload)
    (db : Store)
    → get_delivery intent.id type db.deliveries ≡ none
    → IsSentOnce db
    → IsSentOnce (post_event env url intent type content db)
post_first env url intent type content db fresh h k t =
    let d = new_row env url intent type content in
    let (f, keeps, counts, changed, sent) =
      attempt_row_shape env intent.id type d (with_new env url intent type content db) in
    rw (post_new env url intent type content db fresh) (
      rw (changed, sent)
        (rw (first_row intent.id k type t f db.deliveries d keeps fresh refl refl)
          (elim (Bool-cases (same_key intent.id type k t)) [
            | inl same ↦ rw same (ap suc (unsent same), rw (counts d) (omega arith))
            | inr other ↦ rw other (h k t)
          ])))
  where
    missing : same_key intent.id type k t ≡ true → get_delivery k t db.deliveries ≡ none
    missing same =
        rw (← (same_key_eq intent.id k type t same).0, ← (same_key_eq intent.id k type t same).1)
          fresh

    unsent : same_key intent.id type k t ≡ true → count_sent k t db.sent ≡ 0
    unsent same = (h k t).0 ∙ ap tally (missing same)

-- A later event of the same type only refreshes the row and reschedules it.
post_again :
    (env : Env) (url : Name) (intent : PaymentIntent) (type : EventType) (content : Payload)
    (db : Store) (old : Delivery)
    → get_delivery intent.id type db.deliveries ≡ some old
    → IsSentOnce db
    → ((post_event env url intent type content db).sent ≡ db.sent)
      × IsSentOnce (post_event env url intent type content db)
unfolding post_event upsert_delivery
post_again env url intent type content db old e h =
    rw (post_event, upsert_delivery, e)
      (attempt_delivery_again env intent.id type
        (record db {
          deliveries =
              change_delivery intent.id type
                (refresh_payload url (webhook_payload env intent type content)) db.deliveries;
        })
        (change_delivery-IsSentOnce intent.id type
          (refresh_payload url (webhook_payload env intent type content)) db (λ x. (refl, refl))
          (λ x p. p) h))

-- Posting an event, whatever the merchant's server answers, keeps this: each delivery row has had
-- exactly one request sent for it and at least one attempt counted, and none was sent for an
-- intent and an event without a row.
pub deliver_webhook-IsSentOnce :
    (env : Env) (intent : PaymentIntent) (type : EventType) (content : Payload) (db : Store)
    → IsSentOnce db
    → IsSentOnce (deliver_webhook env intent type content db)
unfolding deliver_webhook
deliver_webhook-IsSentOnce env intent type content db h =
    elim (Option-cases (webhook_url_of (get_merchant intent.merchant_id db.merchants))) [
      | inl e ↦ rw (e, deliver_webhook) h
      | inr (url, e) ↦
          rw (e, deliver_webhook)
            (elim (Option-cases (get_delivery intent.id type db.deliveries)) [
              | inl fresh ↦ post_first env url intent type content db fresh h
              | inr (old, found) ↦ (post_again env url intent type content db old found h).1
            ])
    ]

attempt_each_again :
    (env : Env) (ds : List Delivery) (n : ℕ) (db : Store)
    → IsSentOnce db
    → ((attempt_each env ds n db).1.sent ≡ db.sent) × IsSentOnce (attempt_each env ds n db).1
unfolding attempt_each
attempt_each_again env [] n db h = (refl, h)
attempt_each_again env (d ∷ ds) n db h =
    let (same, once) = attempt_delivery_again env d.intent_id d.event_type db h in
    let (same', once') =
      attempt_each_again env ds (n + 1) (attempt_delivery env d.intent_id d.event_type db) once in
    (same' ∙ same, once')

-- On a store in which each delivery row has had exactly one request sent for it and at least one
-- attempt counted, the retry processor sends no request at all, and the store stays so.
pub process_retries_silent :
    (env : Env) (db : Store)
    → IsSentOnce db
    → ((process_retries env db).1.sent ≡ db.sent) × IsSentOnce (process_retries env db).1
unfolding process_retries
process_retries_silent env db h =
    attempt_each_again env (take 100 (keep_if (is_due env.now) db.deliveries)) 0 db h
