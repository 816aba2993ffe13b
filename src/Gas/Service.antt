-- ===== src/Gas/Service.antt =====
-- packages/gas-abstraction/src/gas-abstraction.service.ts: the estimate of a cost, and the preparation
-- and the execution of a transaction without gas.
use nexora_gateway.Prelude.{
  ℕ, ◌*◌, ◌/◌, ◌^◌, Bool, true, false, ◌&&◌, Option, none, some, if◌then◌else◌,
}
use nexora_gateway.Prelude.Action.{Result, ok, err}
use nexora_gateway.Intent.Data.{Name}
use nexora_gateway.Gas.{
  Strategy, erc4337_paymaster, relayer, resource_model, priority_fee_relay, ChainGasConfig, Configs,
  GaslessFee, GasCostEstimate, Transaction, Request, paymaster_request, relayer_request, GasError,
  no_config, unsupported_strategy, thrown, ExecutionResult, GasEstimate, Env, eth, config_of,
  get_strategy, is_payable_with, is_present,
}

abbrev pub available_with : Env → Option Name → ChainGasConfig → Strategy → Bool
available_with env token c erc4337_paymaster = is_present c.paymaster_address
available_with env token c relayer = is_present c.fee_percentage && is_payable_with env token
available_with env token c resource_model = false
available_with env token c priority_fee_relay = is_present c.fee_percentage

abbrev pub available_on : Env → Option Name → Option ChainGasConfig → Bool
available_on env token none = false
available_on env token (some c) = available_with env token c c.strategy

unfoldable pub is_gasless_available : Env → Configs → Name → Option Name → Bool
is_gasless_available env configs id token = available_on env token (config_of id configs)

unfoldable pub estimate_default_gas_cost : Name → GasCostEstimate
estimate_default_gas_cost id = record {
  chain_id = id;
  cost_strategy = relayer;
  native_cost = 10 ^ 15;
  cost_symbol = eth;
  usd_cost = 350 * 10 ^ 18;
  token_cost = none;
  token_symbol = none;
  gas_limit = 21000;
  gas_price = 20000000000;
  gasless_available = false;
  gasless_fee = none;
}

-- `gasToken ?? nativeSymbol`.
abbrev symbol_or : Name → Option Name → Name
symbol_or symbol none = symbol
symbol_or symbol (some token) = token

abbrev fee_of : ℕ → Name → Option Name → Option ℕ → Option GaslessFee
fee_of usd symbol token none = none
fee_of usd symbol token (some percentage) = some record {
  percentage = percentage;
  usd_amount = usd * percentage / 100;
  token_amount = 0;
  fee_symbol = symbol_or symbol token;
}

-- `if (params.gasToken)`.
abbrev given : Env → Option Name → Option Name
given env none = none
given env (some token) = if env.is_empty token then none else some token

abbrev cost_in : ℕ → Option Name → Option ℕ
cost_in usd none = none
cost_in usd (some token) = some usd

abbrev pub priced : Env → Name → Option Name → Bool → ChainGasConfig → GasEstimate → GasCostEstimate
priced env id token available c g = record {
  chain_id = id;
  cost_strategy = c.strategy;
  native_cost = g.total_cost;
  cost_symbol = c.native_symbol;
  usd_cost = g.total_cost_usd;
  token_cost = cost_in g.total_cost_usd (given env token);
  token_symbol = given env token;
  gas_limit = g.limit;
  gas_price = g.price;
  gasless_available = available;
  gasless_fee =
      if available then fee_of g.total_cost_usd c.native_symbol token c.fee_percentage else none;
}

abbrev pub estimate_with :
    Env → Name → Option Name → Bool → Option ChainGasConfig → Option GasEstimate → GasCostEstimate
estimate_with env id token available none g = estimate_default_gas_cost id
estimate_with env id token available (some c) none = estimate_default_gas_cost id
estimate_with env id token available (some c) (some g) = priced env id token available c g

unfoldable pub estimate_gas_cost :
    Env → Configs → Name → Transaction → Option Name → GasCostEstimate
estimate_gas_cost env configs id tx token =
    estimate_with env id token (is_gasless_available env configs id token) (config_of id configs)
      (env.estimate_gas id tx)

unfoldable pub prepare_paymaster_request :
    Name → Transaction → Name → Option Name → ChainGasConfig → Request
prepare_paymaster_request id tx sender token c =
    paymaster_request
      record {
        sender = sender;
        call_data = tx.data_of;
        call_gas_limit = 200000;
        verification_gas_limit = 50000;
        pre_verification_gas = 21000;
        max_fee_per_gas = 20000000000;
        max_priority_fee_per_gas = 2000000000;
        paymaster_and_data = c.paymaster_address;
      }
      id token

unfoldable pub prepare_relayer_request : Transaction → Name → Request
prepare_relayer_request tx sender = relayer_request tx sender (some (10 ^ 17))

abbrev pub prepare_by :
    Name → Transaction → Name → Option Name → ChainGasConfig → Strategy → Result GasError Request
prepare_by id tx sender token c erc4337_paymaster =
    ok (prepare_paymaster_request id tx sender token c)
prepare_by id tx sender token c relayer = ok (prepare_relayer_request tx sender)
prepare_by id tx sender token c priority_fee_relay = ok (prepare_relayer_request tx sender)
prepare_by id tx sender token c resource_model = err (unsupported_strategy resource_model)

abbrev pub prepare_on :
    Name → Transaction → Name → Option Name → Option ChainGasConfig → Result GasError Request
prepare_on id tx sender token none = err (no_config id)
prepare_on id tx sender token (some c) = prepare_by id tx sender token c c.strategy

unfoldable pub prepare_gasless :
    Configs → Name → Transaction → Name → Option Name → Result GasError Request
prepare_gasless configs id tx sender token = prepare_on id tx sender token (config_of id configs)

abbrev symbol_or_eth : Option ChainGasConfig → Name
symbol_or_eth none = eth
symbol_or_eth (some c) = c.native_symbol

unfoldable pub create_default_cost_estimate : Configs → Name → GasCostEstimate
create_default_cost_estimate configs id = record {
  chain_id = id;
  cost_strategy = get_strategy configs id;
  native_cost = 0;
  cost_symbol = symbol_or_eth (config_of id configs);
  usd_cost = 0;
  token_cost = none;
  token_symbol = none;
  gas_limit = 0;
  gas_price = 0;
  gasless_available = false;
  gasless_fee = none;
}

abbrev pub failed : Configs → Name → GasError → ExecutionResult
failed configs id e = record {
  success = false;
  tx_hash = none;
  cost = create_default_cost_estimate configs id;
  error = some e;
}

abbrev done : Name → GasCostEstimate → ExecutionResult
done hash cost = record { success = true; tx_hash = some hash; cost = cost; error = none }

-- `feePercentage ?? 1`.
abbrev percentage_or_one : Option ℕ → ℕ
percentage_or_one none = 1
percentage_or_one (some n) = n

-- A request of the other kind has no `userOperation`, and the read throws.
unfoldable pub execute_paymaster : Name → ChainGasConfig → Request → Result GasError ExecutionResult
execute_paymaster hash c (relayer_request tx sender fee) = err thrown
execute_paymaster hash c (paymaster_request op id token) = ok (
    done hash record {
      chain_id = c.config_id;
      cost_strategy = c.strategy;
      native_cost = 0;
      cost_symbol = c.native_symbol;
      usd_cost = 0;
      token_cost = none;
      token_symbol = none;
      gas_limit = op.call_gas_limit;
      gas_price = op.max_fee_per_gas;
      gasless_available = true;
      gasless_fee =
          some record {
            percentage = 0;
            usd_amount = 0;
            token_amount = 0;
            fee_symbol = c.native_symbol;
          };
    })

abbrev relayed : Name → ChainGasConfig → ℕ → ExecutionResult
relayed hash c fee = done hash record {
  chain_id = c.config_id;
  cost_strategy = c.strategy;
  native_cost = fee;
  cost_symbol = c.native_symbol;
  usd_cost = fee * c.native_price_usd;
  token_cost = none;
  token_symbol = none;
  gas_limit = 200000;
  gas_price = 20000000000;
  gasless_available = true;
  gasless_fee = some record {
    percentage = percentage_or_one c.fee_percentage;
    usd_amount = fee * c.native_price_usd;
    token_amount = fee;
    fee_symbol = c.native_symbol;
  };
}

-- `BigInt(request.maxFeeWei) / 10n`, which throws on the fee of a request of the other kind.
unfoldable pub execute_relayer : Name → ChainGasConfig → Request → Result GasError ExecutionResult
execute_relayer hash c (paymaster_request op id token) = err thrown
execute_relayer hash c (relayer_request tx sender none) = err thrown
execute_relayer hash c (relayer_request tx sender (some fee)) = ok (relayed hash c (fee / 10))

abbrev pub execute_by : Name → ChainGasConfig → Request → Strategy → Result GasError ExecutionResult
execute_by hash c request erc4337_paymaster = execute_paymaster hash c request
execute_by hash c request relayer = execute_relayer hash c request
execute_by hash c request priority_fee_relay = execute_relayer hash c request
execute_by hash c request resource_model = err (unsupported_strategy resource_model)

abbrev pub caught : Configs → Name → Result GasError ExecutionResult → ExecutionResult
caught configs id (ok r) = r
caught configs id (err e) = failed configs id e

abbrev pub execute_on : Env → Configs → Name → Request → Option ChainGasConfig → ExecutionResult
execute_on env configs id request none = failed configs id (no_config id)
execute_on env configs id request (some c) =
    caught configs id (execute_by env.hash c request c.strategy)

unfoldable pub execute_gasless : Env → Configs → Name → Request → ExecutionResult
execute_gasless env configs id request = execute_on env configs id request (config_of id configs)
