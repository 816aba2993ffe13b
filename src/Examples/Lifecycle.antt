-- ===== src/Examples/Lifecycle.antt =====
-- An intent from its creation to its settlement.
use nexora_gateway.Prelude.{none, ◌≡◌, refl, ◌⊎◌, some}
use nexora_gateway.Prelude.Int.{pos}
use nexora_gateway.Prelude.Action.{ok, err}
use nexora_gateway.Intent.State.{detected, settled}
use nexora_gateway.Intent.Data.{PaymentIntent, Error, duplicate_key}
use nexora_gateway.Intent.Repository.{find_row}
use nexora_gateway.Intent.Webhook.{get_merchant}
use nexora_gateway.Intent.Service.{
  validate, create_intent, confirm_deposit, select_route, initiate_settlement, confirm_settlement,
}
use nexora_gateway.Intent.Lifecycle.{settles, IsAccepted, IsNew, create_intent_outcome}
use nexora_gateway.Examples.Data.{order, empty_store, store_in, intent_in, at_time}

settles_example :
    let confirmed = (confirm_deposit (at_time 10) 1 12 (store_in detected)).1 in
    let routed = (select_route (at_time 20) 1 50 60 (pos 5) 30 confirmed).1 in
    let initiated = (initiate_settlement (at_time 30) 1 (pos 99) routed).1 in
    let (r, db') = confirm_settlement (at_time 40) 1 13 initiated in
    (new : PaymentIntent) × (r ≡ ok new)
    × (find_row 1 db'.intents ≡ some new)
    × (new.state ≡ settled)
    × (new.version ≡ 6)
unfolding find_row
settles_example =
    settles (at_time 10) (at_time 20) (at_time 30) (at_time 40) 1 12 30 50 60 13 (pos 5) (pos 99)
      (store_in detected) (intent_in detected) refl refl

create_intent_outcome_example :
    let merchant = get_merchant 7 empty_store.merchants in
    let (r, db') = create_intent (at_time 10) 1 order empty_store in
    ((e : Error) × (validate order merchant ≡ some e)
      × ¬ IsAccepted order merchant
      × (r ≡ err e)
      × (db' ≡ empty_store))
    ⊎ ((old : PaymentIntent) × (find_row 1 empty_store.intents ≡ some old)
        × IsAccepted order merchant
        × (r ≡ err (duplicate_key 1))
        × (db' ≡ empty_store))
    ⊎ ((row : PaymentIntent) × (find_row 1 empty_store.intents ≡ none)
        × IsAccepted order merchant
        × (r ≡ ok row)
        × (find_row 1 db'.intents ≡ some row)
        × IsNew 1 10 order row)
create_intent_outcome_example = create_intent_outcome (at_time 10) 1 order empty_store
