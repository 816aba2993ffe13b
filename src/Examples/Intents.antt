-- ===== src/Examples/Intents.antt =====
-- The life of one intent.
use nexora_gateway.Prelude.{◌≡◌, refl, List, [], ◌∷◌, some, inl, inr}
use nexora_gateway.Prelude.Int.{scale}
use nexora_gateway.Prelude.Action.{ok, err}
use nexora_gateway.Intent.State.{
  IntentState, created, quoted, awaiting_payment, detected, expired, settled, underpaid,
  deposit_detected, quote_generated, payment_awaited, intent_created,
}
use nexora_gateway.Intent.Data.{PaymentIntent, invalid_state_transition}
use nexora_gateway.Intent.Repository.{find_row}
use nexora_gateway.Intent.Repository.Trail.{IsConsistent, view_of}
use nexora_gateway.Intent.Repository.Histories.{
  Write, creates, transitions, Evolves, write, write_all, write_all-IsConsistent, write-Evolves,
  write_all-final,
}
use nexora_gateway.Intent.Repository.Refinement.{seen, spec_write_all, write_all_refines}
use nexora_gateway.Intent.Webhook.{deliver_webhook, process_retries, get_delivery}
use nexora_gateway.Intent.Webhook.Requests.{
  IsSentOnce, deliver_webhook-IsSentOnce, process_retries_silent,
}
use nexora_gateway.Intent.Deposits.{record_deposit, is_short, is_excess}
use nexora_gateway.Intent.Deposits.Recording.{
  record_deposit_detects, record_deposit_late, record_deposit_off_amount, record_deposit_top_up,
  record_deposit_twice,
}
use nexora_gateway.Examples.Data.{order, empty_store, store_in, intent_in, at_time, transfer_of}

-- A creation, a permitted transition and one that is refused.
abbrev history : List Write
history =
    creates 1 10 order
    ∷ transitions 1 quote_generated [] 20
    ∷ transitions 1 deposit_detected [] 30
    ∷ transitions 1 quote_generated [] 40
    ∷ []

write_all-IsConsistent_example : IsConsistent (write_all history empty_store)
unfolding find_row
write_all-IsConsistent_example = write_all-IsConsistent history empty_store (λ id. refl)

write-Evolves_example :
    Evolves
      (view_of (find_row 1 (store_in quoted).intents))
      (view_of (find_row 1 (write (transitions 1 payment_awaited [] 20) (store_in quoted)).intents))
write-Evolves_example = write-Evolves (transitions 1 payment_awaited [] 20) (store_in quoted) 1

write_all-final_example :
    view_of (find_row 1 (write_all history (store_in settled)).intents) ≡ some (settled, 2)
unfolding find_row
write_all-final_example = write_all-final history (store_in settled) 1 settled 2 refl (inl refl)

write_all_refines_example :
    seen (write_all history empty_store) ≡ spec_write_all history (seen empty_store)
write_all_refines_example = write_all_refines history empty_store

deliver_webhook-IsSentOnce_example :
    IsSentOnce
      (deliver_webhook (at_time 5) (intent_in created) intent_created [] (store_in created))
unfolding get_delivery
deliver_webhook-IsSentOnce_example =
    deliver_webhook-IsSentOnce (at_time 5) (intent_in created) intent_created [] (store_in created)
      (λ id type. (refl, tt))

process_retries_silent_example :
    let db = deliver_webhook (at_time 5) (intent_in created) intent_created [] (store_in created) in
    ((process_retries (at_time 99999) db).1.sent ≡ db.sent)
    × IsSentOnce (process_retries (at_time 99999) db).1
unfolding get_delivery
process_retries_silent_example =
    process_retries_silent (at_time 99999)
      (deliver_webhook (at_time 5) (intent_in created) intent_created [] (store_in created))
      (deliver_webhook-IsSentOnce (at_time 5) (intent_in created) intent_created []
        (store_in created) (λ id type. (refl, tt)))

record_deposit_detects_example :
    let (r, db') = record_deposit (at_time 5) 1 (transfer_of 10000000000) (store_in quoted) in
    (new : PaymentIntent) × (r ≡ ok new)
    × (new.state ≡ detected)
    × (find_row 1 db'.intents ≡ some new)
unfolding find_row is_short is_excess scale
record_deposit_detects_example =
    record_deposit_detects (at_time 5) 1 (transfer_of 10000000000) (store_in quoted)
      (intent_in quoted) (refl, inl refl) refl refl refl

record_deposit_late_example :
    let (r, db') =
      record_deposit (at_time 5000) 1 (transfer_of 10000000000) (store_in awaiting_payment) in
    (new : PaymentIntent) × (r ≡ ok new)
    × (new.state ≡ expired)
    × (find_row 1 db'.intents ≡ some new)
unfolding find_row
record_deposit_late_example =
    record_deposit_late (at_time 5000) 1 (transfer_of 10000000000) (store_in awaiting_payment)
      (intent_in awaiting_payment) (refl, inr refl) refl

record_deposit_off_amount_example :
    let (r, db') = record_deposit (at_time 5) 1 (transfer_of 9000000000) (store_in quoted) in
    (to : IntentState) × (r ≡ err (invalid_state_transition awaiting_payment to))
    × (kept : PaymentIntent) × (find_row 1 db'.intents ≡ some kept)
    × (kept.state ≡ awaiting_payment)
unfolding find_row is_short scale
record_deposit_off_amount_example =
    record_deposit_off_amount (at_time 5) 1 (transfer_of 9000000000) (store_in quoted)
      (intent_in quoted) (refl, inl refl) refl (inl refl)

record_deposit_top_up_example :
    (to : IntentState) × (record_deposit (at_time 5) 1 (transfer_of 1000000000) (store_in underpaid)
      ≡ (err (invalid_state_transition underpaid to), store_in underpaid))
unfolding find_row
record_deposit_top_up_example =
    record_deposit_top_up (at_time 5) 1 (transfer_of 1000000000) (store_in underpaid)
      (intent_in underpaid) refl refl

-- The intent after its first deposit.
abbrev first :
    (r : PaymentIntent) × ((record_deposit
        (at_time 5)
        1
        (transfer_of 10000000000)
        (store_in quoted)).0
      ≡ ok r)
unfolding find_row is_short is_excess scale
first =
    let (r, same, s, t) =
      record_deposit_detects (at_time 5) 1 (transfer_of 10000000000) (store_in quoted)
        (intent_in quoted) (refl, inl refl) refl refl refl in
    (r, same)

record_deposit_twice_example :
    record_deposit
      (at_time 9)
      1
      (transfer_of 1)
      (record_deposit (at_time 5) 1 (transfer_of 10000000000) (store_in quoted)).1
    ≡ (ok first.0, (record_deposit (at_time 5) 1 (transfer_of 10000000000) (store_in quoted)).1)
record_deposit_twice_example =
    record_deposit_twice (at_time 5) (at_time 9) 1 (transfer_of 10000000000) (transfer_of 1)
      (store_in quoted) first.0 first.1
