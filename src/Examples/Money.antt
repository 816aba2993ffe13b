-- ===== src/Examples/Money.antt =====
-- The ledger and the payout.
use nexora_gateway.Prelude.{
  length, ◌≡◌, refl, true, false, List, [], ◌∷◌, Option, none, some, arith,
}
use nexora_gateway.Prelude.Int.{pos, ◌+ℤ◌, ◌≤ℤ◌}
use nexora_gateway.Prelude.Action.{Result, ok, err}
use nexora_gateway.Intent.State.{settling}
use nexora_gateway.Ledger.{
  Account, customer, merchant, pending_intent, revenue_fees, Ledger, DepositRecord, PayoutRecord,
  record_deposit, record_settlement, deposit_entry, payout_entry, same_account,
}
use nexora_gateway.Ledger.Queries.{
  get_balance, get_statement, verify_consistency, calculate_settlement_amount,
}
use nexora_gateway.Ledger.Balances.{trial_balance, trial_balance_zero}
use nexora_gateway.Ledger.Accounting.{
  verify_consistency_blind, record_settlement_adds, get_statement-get_balance,
  calculate_settlement_amount_bounds,
}
use nexora_gateway.Settlement.Repository.{
  Settlement, SettlementError, Books, network_error, failed, retrying, settlement_failed,
  find_settlement,
}
use nexora_gateway.Settlement.Service.{
  World, pay_out, record_ledger, settle_intent, retry_settlement, wait_for_confirmation,
  execute_transaction, poll_fuel,
}
use nexora_gateway.Settlement.Polling.{wait_for_confirmation_ends}
use nexora_gateway.Settlement.Payout.{Settled, settle_intent-Settled}
use nexora_gateway.Settlement.Repeats.{payout_repeats}
use nexora_gateway.Examples.Data.{shop, intent_in}

abbrev deposited : DepositRecord
deposited = record {
  intent_id = 1;
  amount = pos 100;
  asset = 2;
  chain = 3;
  customer_id = 6;
  tx_hash = 4;
  source_address = 12;
}

abbrev paid : PayoutRecord
paid = record {
  intent_id = 1;
  amount = pos 90;
  asset = 2;
  chain = 3;
  merchant_id = 7;
  tx_hash = 13;
  destination_address = 9;
}

abbrev entries : Ledger
entries = deposit_entry 1 10 deposited ∷ payout_entry 2 20 paid ∷ []

abbrev chart : List Account
chart = pending_intent 1 ∷ customer 6 ∷ merchant 7 ∷ revenue_fees ∷ []

trial_balance_zero_example : trial_balance chart 2 entries ≡ pos 0
unfolding same_account
trial_balance_zero_example = trial_balance_zero chart 2 entries ((refl, refl), ((refl, refl), tt))

verify_consistency_blind_example :
    ((verify_consistency entries).is_consistent ≡ true)
    × ((verify_consistency entries).difference ≡ pos 0)
verify_consistency_blind_example = verify_consistency_blind entries

record_settlement_adds_example :
    get_balance
      (pending_intent 1)
      2
      (record_settlement 2 20 paid (record_deposit 1 10 deposited []).1).1
    ≡ get_balance (pending_intent 1) 2 [] +ℤ pos 100 +ℤ pos 90
record_settlement_adds_example = record_settlement_adds 1 2 10 20 deposited paid [] refl refl

get_statement-get_balance_example :
    (get_statement (pending_intent 1) 0 100 entries).closing_balance
    ≡ get_balance (pending_intent 1) 2 entries
get_statement-get_balance_example =
    get_statement-get_balance (pending_intent 1) 2 0 100 entries ((refl, refl), ((refl, refl), tt))

calculate_settlement_amount_bounds_example :
    (pos 0 ≤ℤ calculate_settlement_amount (pos 10000000000) 50)
    × (calculate_settlement_amount (pos 10000000000) 50 ≤ℤ pos 10000000000)
    × (calculate_settlement_amount (pos 10000000000) 0 ≡ pos 10000000000)
calculate_settlement_amount_bounds_example =
    calculate_settlement_amount_bounds 10000000000 50 (omega arith)

abbrev no_books : Books
no_books = record { settlements = []; ledger = []; scheduled = [] }

-- A chain that takes every transaction as 13 and confirms it after ten seconds.
abbrev chain_with : Option SettlementError → World
chain_with e = record {
  now = 50;
  estimate_gas = λ tx. ok 21000;
  submit_transaction = λ tx. ok 13;
  get_transaction_status = λ tx t. ok (record { confirmations = t; is_failed = false });
  get_confirmation_depth = 10000;
  call_time = λ t. 100;
  fee_write = none;
  payout_write = e;
}

wait_for_confirmation_ends_example :
    (r : Result SettlementError (Unit {0})) × (wait_for_confirmation
        (chain_with none)
        13
        poll_fuel
        0
      ≡ some r)
wait_for_confirmation_ends_example =
    wait_for_confirmation_ends (chain_with none) 13 poll_fuel 0 (omega arith) (omega arith)

settle_intent-Settled_example :
    Settled 30
      (calculate_settlement_amount (pos 10000000000) 50)
      (settle_intent (chain_with none) 30 (1, 2) (intent_in settling) shop no_books)
unfolding find_settlement
settle_intent-Settled_example =
    settle_intent-Settled (chain_with none) 30 (1, 2) (intent_in settling) shop no_books refl

payout_repeats_example :
    let after =
      settle_intent
        (chain_with (some network_error))
        30
        (1, 2)
        (intent_in settling)
        shop
        no_books in
    let again = retry_settlement (chain_with (some network_error)) 30 after.1 in
    (after.0 ≡ err (settlement_failed 30 network_error))
    × ((t : Settlement) × (find_settlement 30 after.1.settlements ≡ some t)
        × (t.status ≡ failed)
        × (t.tx_hash ≡ some 13))
    × ((t : Settlement) × (again.0 ≡ ok t) × (t.status ≡ retrying))
unfolding find_settlement execute_transaction wait_for_confirmation
payout_repeats_example =
    payout_repeats (chain_with (some network_error)) 30 13 (1, 2) (intent_in settling) shop no_books
      network_error refl (λ s. refl) refl refl

-- The entry of the fee stays when the entry of the payout is refused.
partial_ledger :
    length
      (settle_intent
        (chain_with (some network_error))
        30
        (1, 2)
        (intent_in settling)
        shop
        no_books).1.ledger
    ≡ 1
unfolding settle_intent pay_out execute_transaction wait_for_confirmation record_ledger
partial_ledger = refl
