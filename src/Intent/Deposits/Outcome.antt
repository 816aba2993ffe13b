-- ===== src/Intent/Deposits/Outcome.antt =====
-- What the methods around a deposit do to a row that is there, as equations.
use nexora_gateway.Prelude.{
  ◌≡◌, refl, ◌∙◌, some, inl, inr, arith, if◌then◌else◌, Bool-cases, ==_self,
}
use nexora_gateway.Prelude.Action.{Result, ok, err}
use nexora_gateway.Intent.State.{EventType, is_valid_transition, get_expected_next_state}
use nexora_gateway.Intent.Data.{
  Name, Payload, PaymentIntent, Env, Store, Error, invalid_state_transition,
}
use nexora_gateway.Intent.Repository.{find_row, log_event}
use nexora_gateway.Intent.Repository.Rows.{find_row-id, find_row-put_row}
use nexora_gateway.Intent.Repository.Outcome.{moved, after_move, transition_lem}
use nexora_gateway.Intent.Webhook.{deliver_webhook, attempt_delivery, attempt_row}
use nexora_gateway.Intent.Service.{move_and_notify}

-- Delivering a webhook writes none of the tables of intents, events and merchants.
pub deliver_webhook-intents :
    (env : Env) (intent : PaymentIntent) (type : EventType) (content : Payload) (db : Store)
    → (deliver_webhook env intent type content db).intents ≡ db.intents
unfolding deliver_webhook attempt_delivery attempt_row
deliver_webhook-intents env intent type content db = ground arith

abbrev pub notified : Env → EventType → Payload → PaymentIntent → Store → Store
notified env type content row db = deliver_webhook env (moved type env.now row) type content db

abbrev pub move_outcome :
    Env
    → Name
    → EventType
    → Payload
    → Payload
    → Store
    → PaymentIntent
    → Result Error PaymentIntent × Store
move_outcome env id type payload content db row =
    if is_valid_transition row.state (get_expected_next_state type)
    then (
      ok (moved type env.now row),
      notified env type content row (after_move id type payload env.now row db),
    )
    else (err (invalid_state_transition row.state (get_expected_next_state type)), db)

pub move_and_notify_lem :
    (env : Env) (id : Name) (type : EventType) (payload content : Payload) (db : Store)
    (row : PaymentIntent)
    → find_row id db.intents ≡ some row
    → move_and_notify env id type payload content db
      ≡ move_outcome env id type payload content db row
unfolding move_and_notify
move_and_notify_lem env id type payload content db row e =
    rw (move_and_notify, transition_lem id type payload env.now db, e)
      (elim (Bool-cases (is_valid_transition row.state (get_expected_next_state type))) [
        | inl v ↦ rw v refl
        | inr v ↦ rw v refl
      ])

-- The row that a transition wrote is found afterwards, also behind the webhook.
pub find_row-moved :
    (env : Env) (id : Name) (type : EventType) (payload content : Payload) (db : Store)
    (row : PaymentIntent)
    → find_row id db.intents ≡ some row
    → find_row id
        (notified env type content row (after_move id type payload env.now row db)).intents
      ≡ some (moved type env.now row)
unfolding log_event
find_row-moved env id type payload content db row e =
    rw
      (deliver_webhook-intents env (moved type env.now row) type content
        (after_move id type payload env.now row db))
      (find_row-put_row id id (moved type env.now row) db.intents row
          (find_row-id id db.intents row e) e
        ∙ rw (==_self id) refl)
