-- ===== src/Intent/Repository/Trail.antt =====
-- The event log against the table: replaying the events of an intent gives its row's state and
-- version. The replay is an independent reading of the log, by the transition table alone.
use mathlib.Core.List.{append-nil}
use nexora_gateway.Prelude.{
  ℕ, ◌+◌, ◌≡◌, refl, true, ◌&&◌, List, [], ◌∷◌, ◌++◌, Option, none, some, inl, inr, arith, ◌==◌,
  if◌then◌else◌, Bool-cases, Option-cases,
}
use nexora_gateway.Prelude.Int.{ℤ}
use nexora_gateway.Intent.State.{
  IntentState, EventType, created, intent_created, is_valid_transition, get_expected_next_state,
  same_event,
}
use nexora_gateway.Intent.Data.{Name, Payload, PaymentIntent, NewPaymentIntent, IntentEvent, Store}
use nexora_gateway.Intent.Repository.{
  Deposit, find_row, new_row, creation_payload, log_event, trail, create, transition, update_quote,
}
use nexora_gateway.Intent.Repository.Rows.{find_row-id, find_row-put_row, trail-append}
use nexora_gateway.Intent.Repository.Outcome.{
  moved, after_move, quoted_row, transition_lem, create_lem, update_quote_lem,
}

-- What the log says of an intent: its state and its version.
abbrev pub View : Type 0
View = IntentState × ℕ

-- The first event creates the intent at version 1; each later one takes a permitted edge and
-- raises the version by one. Any other event makes the replay fail.
abbrev pub advance : Option View → IntentEvent → Option View
advance none e =
    if same_event e.event_type intent_created && e.version == 1 then some (created, 1) else none
advance (some (s, v)) e =
    if is_valid_transition s (get_expected_next_state e.event_type) && e.version == v + 1
    then some (get_expected_next_state e.event_type, e.version)
    else none

abbrev pub replay_from : Option View → List IntentEvent → Option View
replay_from v [] = v
replay_from v (e ∷ es) = replay_from (advance v e) es

abbrev pub replay : List IntentEvent → Option View
replay = replay_from none

abbrev pub view_of : Option PaymentIntent → Option View
view_of none = none
view_of (some row) = some (row.state, row.version)

-- The log and the table agree on every intent.
abbrev pub IsConsistent : Store → Type 0
IsConsistent db = (id : Name) → replay (trail id db.events) ≡ view_of (find_row id db.intents)

replay_from-append :
    (v : Option View) (es : List IntentEvent) (e : IntentEvent)
    → replay_from v (es ++ e ∷ []) ≡ advance (replay_from v es) e
replay_from-append v [] e = refl
replay_from-append v (x ∷ es) e = replay_from-append (advance v x) es e

-- One more event: it advances the replay of its own intent and of no other.
replay-trail :
    (k : Name) (es : List IntentEvent) (e : IntentEvent)
    → replay (trail k (es ++ e ∷ []))
      ≡ (if e.intent_id == k then advance (replay (trail k es)) e else replay (trail k es))
replay-trail k es e = elim (Bool-cases (e.intent_id == k)) [
  | inl same ↦ rw (trail-append k es e, same) (replay_from-append none (trail k es) e)
  | inr other ↦ rw (trail-append k es e, other) (simp append-nil)
]

after_move-IsConsistent :
    (id : Name) (type : EventType) (payload : Payload) (now : ℕ) (row : PaymentIntent) (db : Store)
    → find_row id db.intents ≡ some row
    → is_valid_transition row.state (get_expected_next_state type) ≡ true
    → IsConsistent db
    → IsConsistent (after_move id type payload now row db)
unfolding log_event
after_move-IsConsistent id type payload now row db e valid c k = ground (
  arith,
  replay-trail k db.events (record {
    intent_id = id;
    event_type = type;
    payload = payload;
    version = row.version + 1;
    created_at = now;
  }),
  find_row-put_row id k (moved type now row) db.intents row (find_row-id id db.intents row e) e,
  c k,
  e,
  valid,
)

-- Whatever a transition does, the log and the table agree after it if they did before.
pub transition-IsConsistent :
    (id : Name) (type : EventType) (payload : Payload) (now : ℕ) (db : Store)
    → IsConsistent db
    → IsConsistent (transition id type payload now db).1
transition-IsConsistent id type payload now db c =
    rw (transition_lem id type payload now db) (elim (Option-cases (find_row id db.intents)) [
      | inl e ↦ rw e c
      | inr (row, e) ↦
          elim (Bool-cases (is_valid_transition row.state (get_expected_next_state type))) [
            | inl v ↦ rw (e, v) (after_move-IsConsistent id type payload now row db e v c)
            | inr v ↦ rw (e, v) c
          ]
    ])

-- Creating an intent, or being refused its id, keeps the log and the table in agreement.
pub create-IsConsistent :
    (id : Name) (now : ℕ) (new : NewPaymentIntent) (db : Store)
    → IsConsistent db
    → IsConsistent (create id now new db).1
unfolding log_event new_row find_row same_event
create-IsConsistent id now new db c k =
    rw (create_lem id now new db) (elim (Option-cases (find_row id db.intents)) [
      | inl e ↦ rw e (
          ground (
            arith,
            replay-trail k db.events (record {
              intent_id = id;
              event_type = intent_created;
              payload = creation_payload new;
              version = 1;
              created_at = now;
            }),
            c k,
            e,
          ))
      | inr (row, e) ↦ rw e (c k)
    ])

-- A quote changes no state and no version.
pub update_quote-IsConsistent :
    (id : Name) (rate : ℤ) (expires_at : ℕ) (deposit : Option Deposit) (now : ℕ) (db : Store)
    → IsConsistent db
    → IsConsistent (update_quote id rate expires_at deposit now db).1
update_quote-IsConsistent id rate expires_at deposit now db c k =
    rw (update_quote_lem id rate expires_at deposit now db)
      (elim (Option-cases (find_row id db.intents)) [
        | inl e ↦ rw e (c k)
        | inr (row, e) ↦ rw e (
            ground (
              arith,
              find_row-put_row id k (quoted_row rate expires_at deposit now row) db.intents row
                  (find_row-id id db.intents row e) e,
              c k,
              e,
            ))
      ])
