-- ===== src/Worker/Replays.antt =====
-- A confirmation job that is run again, as after a crash between the handler and its completion.
use nexora_gateway.Prelude.{
  ℕ, ◌≡◌, refl, sym, ap, subst, ◌∙◌, [], ◌∷◌, Option, none, some, inl, inr, Bool-cases,
  Option-cases,
}
use nexora_gateway.Prelude.Action.{Result, ok, err}
use nexora_gateway.Intent.State.{
  confirming, confirmation_received, is_valid_transition, get_expected_next_state,
}
use nexora_gateway.Intent.Data.{
  Name, time, count, field_of, PaymentIntent, Env, Store, Error, invalid_state_transition,
  intent_not_found,
}
use nexora_gateway.Intent.Repository.{find_row}
use nexora_gateway.Intent.Repository.Outcome.{moved}
use nexora_gateway.Intent.Deposits.Outcome.{move_outcome, move_and_notify_lem, find_row-moved}
use nexora_gateway.Intent.Service.{require_intent, confirm_deposit}
use nexora_gateway.Jobs.{Job}
use nexora_gateway.Worker.Handlers.{
  HandlerError, missing_string, missing_number, service_error, string_of, count_of, from_service,
  handle_deposit_confirm, require_string, require_count,
}

abbrev outcome : Env → Name → ℕ → Store → PaymentIntent → Result Error PaymentIntent × Store
outcome env id n db row =
    move_outcome env id confirmation_received
      (("confirmation_count", count n) ∷ ("confirmed_at", time env.now) ∷ [])
      (("confirmation_count", count n) ∷ []) db row

confirm_deposit_lem :
    (env : Env) (id : Name) (n : ℕ) (db : Store) (row : PaymentIntent)
    → find_row id db.intents ≡ some row
    → confirm_deposit env id n db ≡ outcome env id n db row
unfolding confirm_deposit require_intent
confirm_deposit_lem env id n db row e =
    rw (e, move_and_notify_lem env id confirmation_received _ _ db row e) refl

confirm_deposit_missing :
    (env : Env) (id : Name) (n : ℕ) (db : Store)
    → find_row id db.intents ≡ none
    → confirm_deposit env id n db ≡ (err (intent_not_found id), db)
unfolding confirm_deposit require_intent
confirm_deposit_missing env id n db e = rw e refl

abbrev IsConfirming : Name → Store → Type 0
IsConfirming id db =
    (row : PaymentIntent) × (find_row id db.intents ≡ some row) × (row.state ≡ confirming)

confirm_deposit-IsConfirming :
    (env : Env) (id : Name) (n : ℕ) (db db' : Store) (new : PaymentIntent)
    → confirm_deposit env id n db ≡ (ok new, db')
    → IsConfirming id db'
confirm_deposit-IsConfirming env id n db db' new h = elim (Option-cases (find_row id db.intents)) [
  | inl e ↦ absurd (no_error (sym (confirm_deposit_missing env id n db e) ∙ h))
  | inr (row, e) ↦
      elim (Bool-cases
        (is_valid_transition row.state (get_expected_next_state confirmation_received))) [
          | inl v ↦
              let stored : (outcome env id n db row).1 ≡ db' =
                ap (λ x. x.1) (sym (confirm_deposit_lem env id n db row e) ∙ h) in
              (
                moved confirmation_received env.now row,
                subst (λ d. find_row id d.intents ≡ some (moved confirmation_received env.now row))
                    stored (rw v (find_row-moved env id confirmation_received _ _ db row e)),
                refl,
              )
          | inr v ↦
              let refused : outcome env id n db row ≡ (
                err (
                    invalid_state_transition row.state
                      (get_expected_next_state confirmation_received)),
                db,
              ) =
                rw v refl in
              absurd (no_error (sym refused ∙ (sym (confirm_deposit_lem env id n db row e) ∙ h)))
        ]
]
  where
    no_error :
        {x : Error} {d : Store}
        → Path (Result Error PaymentIntent × Store) (err x, d) (ok new, db')
        → ⊥
    no_error q = absurd_of (ap (λ x. x.0) q)
      where
        absurd_of : {x : Error} → Path (Result Error PaymentIntent) (err x) (ok new) → ⊥
        absurd_of q = cc

confirm_deposit_stuck :
    (env : Env) (id : Name) (n : ℕ) (db : Store)
    → IsConfirming id db
    → confirm_deposit env id n db ≡ (err (invalid_state_transition confirming confirming), db)
unfolding is_valid_transition
confirm_deposit_stuck env id n db (row, e, q) = confirm_deposit_lem env id n db row e ∙ rw q refl

abbrev with_fields : Env → Store → Option Name → Option ℕ → Result HandlerError (Unit {0}) × Store
with_fields env db none m = (err (missing_string "intentId"), db)
with_fields env db (some id) none = (err (missing_number "confirmations"), db)
with_fields env db (some id) (some n) = from_service (confirm_deposit env id n db)

handle_deposit_confirm_lem :
    (env : Env) (j : Job) (db : Store)
    → handle_deposit_confirm env j db
      ≡ with_fields env db
          (string_of (field_of "intentId" j.payload))
          (count_of (field_of "confirmations" j.payload))
unfolding handle_deposit_confirm require_string require_count
handle_deposit_confirm_lem env j db =
    elim (Option-cases (string_of (field_of "intentId" j.payload))) [
      | inl e ↦ rw e refl
      | inr (id, e) ↦ rw e (elim (Option-cases (count_of (field_of "confirmations" j.payload))) [
        | inl f ↦ rw f refl
        | inr (n, f) ↦ rw f refl
      ])
    ]

service_returned :
    (x : Result Error PaymentIntent × Store) (db : Store)
    → from_service x ≡ (ok tt, db)
    → (new : PaymentIntent) × (x ≡ (ok new, db))
service_returned (ok new, d) db h = (new, λ i. (ok new, (h i).1))
service_returned (err e, d) db h = absurd (thrown_one (ap (λ x. x.0) h))
  where
    thrown_one : Path (Result HandlerError (Unit {0})) (err (service_error e)) (ok tt) → ⊥
    thrown_one q = cc

with_fields_again :
    (env later : Env) (db db' : Store) (id : Option Name) (n : Option ℕ)
    → with_fields env db id n ≡ (ok tt, db')
    → with_fields later db' id n
      ≡ (err (service_error (invalid_state_transition confirming confirming)), db')
with_fields_again env later db db' none n h = absurd (no_field (ap (λ x. x.0) h))
  where
    no_field : Path (Result HandlerError (Unit {0})) (err (missing_string "intentId")) (ok tt) → ⊥
    no_field q = cc
with_fields_again env later db db' (some id) none h = absurd (no_field (ap (λ x. x.0) h))
  where
    no_field :
        Path (Result HandlerError (Unit {0})) (err (missing_number "confirmations")) (ok tt) → ⊥
    no_field q = cc
with_fields_again env later db db' (some id) (some n) h =
    let (new, q) = service_returned (confirm_deposit env id n db) db' h in
    rw (confirm_deposit_stuck later id n db' (confirm_deposit-IsConfirming env id n db db' new q))
      refl

-- When the confirmation handler has returned, running it again on the same job, at any time, throws
-- an invalid transition and writes nothing.
pub handle_deposit_confirm_again :
    (env later : Env) (j : Job) (db db' : Store)
    → handle_deposit_confirm env j db ≡ (ok tt, db')
    → handle_deposit_confirm later j db'
      ≡ (err (service_error (invalid_state_transition confirming confirming)), db')
handle_deposit_confirm_again env later j db db' h =
    handle_deposit_confirm_lem later j db'
    ∙ with_fields_again env later db db' (string_of (field_of "intentId" j.payload))
        (count_of (field_of "confirmations" j.payload))
        (sym (handle_deposit_confirm_lem env j db) ∙ h)
