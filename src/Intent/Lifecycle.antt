-- ===== src/Intent/Lifecycle.antt =====
-- The methods of packages/payment-intent/src/payment-intent.service.ts in a row: the creation of an
-- intent, and its way from a deposit to the settlement.
use nexora_gateway.Prelude.{
  ℕ, ◌+◌, ◌≡◌, refl, sym, ap, ◌∙◌, ◌⊎◌, inl, inr, true, false, Option, none, some, arith,
  Option-cases, ==_self, includes,
}
use nexora_gateway.Prelude.Int.{ℤ, pos, leb_ℤ, ltb_ℤ}
use nexora_gateway.Prelude.Action.{Result, ok, err, ◌>>◌}
use nexora_gateway.Intent.State.{
  IntentState, EventType, created, detected, confirming, routing, settling, settled,
  is_valid_transition, get_expected_next_state, confirmation_received, route_selected,
  settlement_initiated, settlement_confirmed, intent_created,
}
use nexora_gateway.Intent.Data.{
  Name, Payload, PaymentIntent, NewPaymentIntent, MerchantConfig, Env, Store, Error, duplicate_key,
}
use nexora_gateway.Intent.Repository.{find_row, new_row, log_event}
use nexora_gateway.Intent.Repository.Outcome.{moved, create_lem}
use nexora_gateway.Intent.Webhook.{get_merchant}
use nexora_gateway.Intent.Service.{
  require_intent, move_and_notify, max_amount, validate, create_intent, confirm_deposit,
  select_route, initiate_settlement, confirm_settlement, notify,
}
use nexora_gateway.Intent.Deposits.Outcome.{
  deliver_webhook-intents, move_and_notify_lem, find_row-moved,
}

-- A call that took one edge: it returns the intent that the table then holds.
abbrev Advances : Name → PaymentIntent → IntentState → Result Error PaymentIntent × Store → Type 0
Advances id row next x =
    (new : PaymentIntent) × (x.0 ≡ ok new)
    × (find_row id x.1.intents ≡ some new)
    × (new.state ≡ next)
    × (new.version ≡ row.version + 1)

move-Advances :
    (env : Env) (id : Name) (type : EventType) (payload content : Payload) (db : Store)
    (row : PaymentIntent)
    → find_row id db.intents ≡ some row
    → is_valid_transition row.state (get_expected_next_state type) ≡ true
    → Advances id row
        (get_expected_next_state type)
        ((require_intent id >> move_and_notify env id type payload content) db)
unfolding require_intent
move-Advances env id type payload content db row e v =
    rw (e, move_and_notify_lem env id type payload content db row e, v)
      (
        moved type env.now row,
        refl,
        find_row-moved env id type payload content db row e,
        refl,
        refl,
      )

confirm_deposit-Advances :
    (env : Env) (id : Name) (confirmations : ℕ) (db : Store) (row : PaymentIntent)
    → find_row id db.intents ≡ some row
    → row.state ≡ detected
    → Advances id row confirming (confirm_deposit env id confirmations db)
unfolding confirm_deposit is_valid_transition
confirm_deposit-Advances env id confirmations db row e q =
    move-Advances env id confirmation_received _ _ db row e (rw q refl)

select_route-Advances :
    (env : Env) (id route provider : Name) (fee : ℤ) (seconds : ℕ) (db : Store)
    (row : PaymentIntent)
    → find_row id db.intents ≡ some row
    → row.state ≡ confirming
    → Advances id row routing (select_route env id route provider fee seconds db)
unfolding select_route is_valid_transition
select_route-Advances env id route provider fee seconds db row e q =
    move-Advances env id route_selected _ _ db row e (rw q refl)

initiate_settlement-Advances :
    (env : Env) (id : Name) (amount : ℤ) (db : Store) (row : PaymentIntent)
    → find_row id db.intents ≡ some row
    → row.state ≡ routing
    → Advances id row settling (initiate_settlement env id amount db)
unfolding initiate_settlement is_valid_transition
initiate_settlement-Advances env id amount db row e q =
    move-Advances env id settlement_initiated _ _ db row e (rw q refl)

confirm_settlement-Advances :
    (env : Env) (id tx_hash : Name) (db : Store) (row : PaymentIntent)
    → find_row id db.intents ≡ some row
    → row.state ≡ settling
    → Advances id row settled (confirm_settlement env id tx_hash db)
unfolding confirm_settlement is_valid_transition
confirm_settlement-Advances env id tx_hash db row e q =
    move-Advances env id settlement_confirmed _ _ db row e (rw q refl)

-- From a detected deposit, the four calls that follow, at any times, take the intent to SETTLED:
-- the last returns it, the table holds it, and its version has grown by four.
pub settles :
    (e1 e2 e3 e4 : Env) (id : Name) (confirmations seconds : ℕ) (route provider tx_hash : Name)
    (fee amount : ℤ) (db : Store) (row : PaymentIntent)
    → find_row id db.intents ≡ some row
    → row.state ≡ detected
    → let confirmed = (confirm_deposit e1 id confirmations db).1 in
      let routed = (select_route e2 id route provider fee seconds confirmed).1 in
      let initiated = (initiate_settlement e3 id amount routed).1 in
      let (r, db') = confirm_settlement e4 id tx_hash initiated in
      (new : PaymentIntent) × (r ≡ ok new)
      × (find_row id db'.intents ≡ some new)
      × (new.state ≡ settled)
      × (new.version ≡ row.version + 4)
settles e1 e2 e3 e4 id confirmations seconds route provider tx_hash fee amount db row e q =
    let confirmed = (confirm_deposit e1 id confirmations db).1 in
    let routed = (select_route e2 id route provider fee seconds confirmed).1 in
    let initiated = (initiate_settlement e3 id amount routed).1 in
    let (r1, _, f1, q1, v1) = confirm_deposit-Advances e1 id confirmations db row e q in
    let (r2, _, f2, q2, v2) =
      select_route-Advances e2 id route provider fee seconds confirmed r1 f1 q1 in
    let (r3, _, f3, q3, v3) = initiate_settlement-Advances e3 id amount routed r2 f2 q2 in
    let (r4, o4, f4, q4, v4) = confirm_settlement-Advances e4 id tx_hash initiated r3 f3 q3 in
    (r4, o4, f4, q4, omega arith)

-- What `createIntent` checks, as facts.
abbrev pub IsAccepted : NewPaymentIntent → Option MerchantConfig → Type 0
IsAccepted new merchant =
    (m : MerchantConfig) × (merchant ≡ some m)
    × (includes m.accepted_assets new.target_asset ≡ true)
    × (includes m.accepted_chains new.target_chain ≡ true)
    × (leb_ℤ new.target_amount (pos 0) ≡ false)
    × (ltb_ℤ max_amount new.target_amount ≡ false)

validate-IsAccepted :
    (new : NewPaymentIntent) (merchant : Option MerchantConfig)
    → validate new merchant ≡ none
    → IsAccepted new merchant
unfolding validate
validate-IsAccepted new none h = cc
validate-IsAccepted new (some m) h =
    (m, refl, ground arith, ground arith, ground arith, ground arith)

IsAccepted-validate :
    (new : NewPaymentIntent) (merchant : Option MerchantConfig)
    → IsAccepted new merchant
    → validate new merchant ≡ none
unfolding validate
IsAccepted-validate new merchant (m, there, asset, chain, positive, small) =
    rw there (rw (asset, chain, positive, small) refl)

-- A row of a new intent: the input under the identifier, in CREATED, at version 1, without a quote.
abbrev pub IsNew : Name → ℕ → NewPaymentIntent → PaymentIntent → Type 0
IsNew id now new row =
    (row.id ≡ id)
    × (row.merchant_id ≡ new.merchant_id)
    × (row.order_ref ≡ new.order_ref)
    × (row.target_amount ≡ new.target_amount)
    × (row.target_asset ≡ new.target_asset)
    × (row.target_chain ≡ new.target_chain)
    × (row.accepted_assets ≡ new.accepted_assets)
    × (row.quoted_rate ≡ none)
    × (row.deposit_address ≡ none)
    × (row.state ≡ created)
    × (row.version ≡ 1)
    × (row.created_at ≡ now)

-- Creating an intent has three results. Where the merchant is missing or does not accept the input, and
-- where the identifier is taken, the call throws and nothing is written; the second error is the
-- database's duplicate key. Else the merchant exists and accepts the asset and the chain, the amount is
-- positive and at most a million, no row had the identifier, and the call returns the new intent, in
-- CREATED and with the input's fields, which is what the table then holds.
pub create_intent_outcome :
    (env : Env) (id : Name) (new : NewPaymentIntent) (db : Store)
    → let merchant = get_merchant new.merchant_id db.merchants in
      let (r, db') = create_intent env id new db in
      ((e : Error) × (validate new merchant ≡ some e)
        × ¬ IsAccepted new merchant
        × (r ≡ err e)
        × (db' ≡ db))
      ⊎ ((old : PaymentIntent) × (find_row id db.intents ≡ some old)
          × IsAccepted new merchant
          × (r ≡ err (duplicate_key id))
          × (db' ≡ db))
      ⊎ ((row : PaymentIntent) × (find_row id db.intents ≡ none)
          × IsAccepted new merchant
          × (r ≡ ok row)
          × (find_row id db'.intents ≡ some row)
          × IsNew id env.now new row)
unfolding create_intent notify new_row log_event find_row
create_intent_outcome env id new db =
    elim (Option-cases (validate new (get_merchant new.merchant_id db.merchants))) [
      | inr (e, p) ↦ rw (p, create_intent) (inl (e, refl, refused e p, refl, refl))
      | inl p ↦
          let accepted = validate-IsAccepted new (get_merchant new.merchant_id db.merchants) p in
          elim (Option-cases (find_row id db.intents)) [
            | inr (row, q) ↦
                rw (p, create_intent, create_lem id env.now new db, q)
                  (inr (inl (row, refl, accepted, refl, refl)))
            | inl q ↦
                rw (p, create_intent, create_lem id env.now new db, q)
                  (inr (
                    inr (
                      new_row id env.now new,
                      refl,
                      accepted,
                      refl,
                      ap (find_row id) (
                            deliver_webhook-intents env (new_row id env.now new) intent_created _ _)
                          ∙ rw (==_self id) refl,
                      (refl, refl, refl, refl, refl, refl, refl, refl, refl, refl, refl, refl),
                    )))
          ]
    ]
  where
    refused :
        (e : Error)
        → validate new (get_merchant new.merchant_id db.merchants) ≡ some e
        → ¬ IsAccepted new (get_merchant new.merchant_id db.merchants)
    refused e p h =
        differ (sym (IsAccepted-validate new (get_merchant new.merchant_id db.merchants) h) ∙ p)
      where
        differ : Path (Option Error) none (some e) → ⊥
        differ q = cc
