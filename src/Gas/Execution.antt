-- ===== src/Gas/Execution.antt =====
-- packages/gas-abstraction/src/gas-abstraction.service.ts: what an estimate promises of an execution.
use nexora_gateway.Prelude.{◌≡◌, refl, ◌≤◌, ◌^◌, leb→le, true, Option, none, some}
use nexora_gateway.Prelude.Action.{ok}
use nexora_gateway.Intent.Data.{Name}
use nexora_gateway.Gas.{
  Strategy, erc4337_paymaster, relayer, resource_model, priority_fee_relay, ChainGasConfig, Configs,
  Transaction, Request, ExecutionResult, GasEstimate, Env, config_of,
}
use nexora_gateway.Gas.Service.{
  available_with, available_on, is_gasless_available, estimate_with, estimate_gas_cost,
  estimate_default_gas_cost, prepare_by, prepare_on, prepare_gasless, prepare_paymaster_request,
  prepare_relayer_request, execute_by, execute_on, execute_gasless, execute_paymaster,
  execute_relayer, caught,
}

-- A success that costs at most a hundredth of the native currency, by a strategy.
abbrev pub IsCheap : Strategy → ExecutionResult → Type 0
IsCheap s r = (r.success ≡ true) × (r.cost.native_cost ≤ 10 ^ 16) × (r.cost.cost_strategy ≡ s)

module _ (env : Env) (configs : Configs) (id : Name) (tx : Transaction) (sender : Name)
    (token : Option Name) where
  by_strategy :
      (c : ChainGasConfig) (s : Strategy)
      → available_with env token c s ≡ true
      → (request : Request) × (prepare_by id tx sender token c s ≡ ok request)
        × IsCheap c.strategy (caught configs id (execute_by env.hash c request s))
  unfolding prepare_paymaster_request prepare_relayer_request execute_paymaster execute_relayer
  by_strategy c erc4337_paymaster h =
      (prepare_paymaster_request id tx sender token c, refl, (refl, leb→le 0 (10 ^ 16) refl, refl))
  by_strategy c relayer h =
      (prepare_relayer_request tx sender, refl, (refl, leb→le (10 ^ 16) (10 ^ 16) refl, refl))
  by_strategy c priority_fee_relay h =
      (prepare_relayer_request tx sender, refl, (refl, leb→le (10 ^ 16) (10 ^ 16) refl, refl))
  by_strategy c resource_model h = cc

  with_config :
      (o : Option ChainGasConfig) (g : Option GasEstimate)
      → (estimate_with env id token (available_on env token o) o g).gasless_available ≡ true
      → (request : Request) × (prepare_on id tx sender token o ≡ ok request)
        × IsCheap
            (estimate_with env id token (available_on env token o) o g).cost_strategy
            (execute_on env configs id request o)
  unfolding estimate_default_gas_cost
  with_config none g h = cc
  with_config (some c) none h = cc
  with_config (some c) (some g) h = by_strategy c c.strategy h

  -- Where the estimate of a transaction says that it can do without gas, its preparation gives a request,
  -- and the execution of that request succeeds by the estimated strategy, at a native cost of at most a
  -- tenth of the maximum fee.
  pub available_executes :
      (estimate_gas_cost env configs id tx token).gasless_available ≡ true
      → (request : Request) × (prepare_gasless configs id tx sender token ≡ ok request)
        × IsCheap
            (estimate_gas_cost env configs id tx token).cost_strategy
            (execute_gasless env configs id request)
  unfolding estimate_gas_cost is_gasless_available prepare_gasless execute_gasless
  available_executes = with_config (config_of id configs) (env.estimate_gas id tx)
