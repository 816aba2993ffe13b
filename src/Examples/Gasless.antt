-- ===== src/Examples/Gasless.antt =====
-- The gas abstraction on a chain with a relayer, and on the default configurations.
use nexora_gateway.Prelude.{◌≡◌, refl, true, false, [], ◌∷◌, none, some, ◌==◌}
use nexora_gateway.Prelude.Action.{ok}
use nexora_gateway.Gas.{
  relayer, Configs, Env, GasEstimate, Transaction, Request, default_chain_configs, matic,
  is_payable_with, is_accepted_fee_token,
}
use nexora_gateway.Gas.Service.{
  estimate_gas_cost, is_gasless_available, prepare_gasless, prepare_paymaster_request,
  execute_gasless, execute_paymaster,
}
use nexora_gateway.Gas.Execution.{IsCheap, available_executes}

abbrev answered : GasEstimate
answered = record { total_cost = 5; total_cost_usd = 400; limit = 21000; price = 30 }

abbrev env : Env
env = record {
  estimate_gas = λ id tx. some answered;
  to_upper_case = λ n. n;
  is_empty = λ n. n == 0;
  hash = 77;
}

abbrev polygon : Configs
polygon =
    record {
      config_id = 137;
      strategy = relayer;
      native_symbol = matic;
      native_decimals = 18;
      native_price_usd = 80;
      paymaster_address = none;
      fee_percentage = some 2;
    }
    ∷ []

abbrev transfer : Transaction
transfer = record { from = 21; to = 22; value = 9; data_of = 23 }

usdc_available : (estimate_gas_cost env polygon 137 transfer (some 11)).gasless_available ≡ true
unfolding estimate_gas_cost is_gasless_available is_payable_with is_accepted_fee_token
usdc_available = refl

available_executes_example :
    (request : Request) × (prepare_gasless polygon 137 transfer 21 (some 11) ≡ ok request)
    × IsCheap
        (estimate_gas_cost env polygon 137 transfer (some 11)).cost_strategy
        (execute_gasless env polygon 137 request)
available_executes_example = available_executes env polygon 137 transfer 21 (some 11) usdc_available

-- No chain of the defaults has a paymaster; a request goes through all the same.
mainnet_unavailable : is_gasless_available env default_chain_configs 1 none ≡ false
unfolding is_gasless_available default_chain_configs
mainnet_unavailable = refl

mainnet_executes :
    (execute_gasless env default_chain_configs 1 (
      prepare_paymaster_request 1 transfer 21 none (record {
        config_id = 1;
        strategy = relayer;
        native_symbol = matic;
        native_decimals = 18;
        native_price_usd = 0;
        paymaster_address = none;
        fee_percentage = none;
      }))).success
    ≡ true
unfolding execute_gasless execute_paymaster prepare_paymaster_request default_chain_configs
mainnet_executes = refl
