-- ===== src/Gas.antt =====
-- packages/gas-abstraction/src/gas-abstraction.service.ts and packages/shared/src/types/gas-abstraction.ts.
-- The Map of the configurations is an argument; the merge of custom ones is left out. The chain clients,
-- the upper case of a text, the empty text and a generated hash are parameters. An amount of a native
-- currency is in 10^-18 of it, a price in cents, an amount of USD in 10^-20 of a dollar; what a quotient
-- leaves below is cut off.
pub mod Service
pub mod Execution
use nexora_gateway.Prelude.{
  ℕ, ◌+◌, ◌*◌, ◌/◌, ◌^◌, Bool, true, false, not, ◌||◌, List, [], ◌∷◌, Option, none, some, includes,
  if◌then◌else◌, find_at,
}
use nexora_gateway.Prelude.Action.{Result, ok, err}
use nexora_gateway.Intent.Data.{Name}

pub data Strategy : Type 0 where
  erc4337_paymaster : Strategy
  relayer : Strategy
  resource_model : Strategy
  priority_fee_relay : Strategy

pub record ChainGasConfig : Type 0 where
  pub config_id : Name
  pub strategy : Strategy
  pub native_symbol : Name
  pub native_decimals : ℕ
  pub native_price_usd : ℕ
  pub paymaster_address : Option Name  -- paymasterConfig?.address
  pub fee_percentage : Option ℕ  -- relayerConfig?.feePercentage

abbrev pub Configs : Type 0
Configs = List ChainGasConfig

pub record GaslessFee : Type 0 where
  pub percentage : ℕ
  pub usd_amount : ℕ
  pub token_amount : ℕ
  pub fee_symbol : Name

pub record GasCostEstimate : Type 0 where
  pub chain_id : Name
  pub cost_strategy : Strategy
  pub native_cost : ℕ
  pub cost_symbol : Name
  pub usd_cost : ℕ
  pub token_cost : Option ℕ
  pub token_symbol : Option Name
  pub gas_limit : ℕ
  pub gas_price : ℕ
  pub gasless_available : Bool
  pub gasless_fee : Option GaslessFee

pub record Transaction : Type 0 where
  pub from : Name
  pub to : Name
  pub value : ℕ
  pub data_of : Name

pub record UserOperation : Type 0 where
  pub sender : Name
  pub call_data : Name
  pub call_gas_limit : ℕ
  pub verification_gas_limit : ℕ
  pub pre_verification_gas : ℕ
  pub max_fee_per_gas : ℕ
  pub max_priority_fee_per_gas : ℕ
  pub paymaster_and_data : Option Name  -- none is '0x'

-- Of a relayer's request the fee is the number that BigInt reads in the text, `none` where it throws.
pub data Request : Type 0 where
  paymaster_request : UserOperation → Name → Option Name → Request
  relayer_request : Transaction → Name → Option ℕ → Request

pub data GasError : Type 0 where
  no_config : Name → GasError
  unsupported_strategy : Strategy → GasError
  thrown : GasError

pub record ExecutionResult : Type 0 where
  pub success : Bool
  pub tx_hash : Option Name
  pub cost : GasCostEstimate
  pub error : Option GasError

-- The answer of a chain client.
pub record GasEstimate : Type 0 where
  pub total_cost : ℕ
  pub total_cost_usd : ℕ
  pub limit : ℕ
  pub price : ℕ

-- `estimate_gas` is none where the chain has no client or its client throws.
pub record Env : Type 0 where
  pub estimate_gas : Name → Transaction → Option GasEstimate
  pub to_upper_case : Name → Name
  pub is_empty : Name → Bool
  pub hash : Name

abbrev pub eth : Name
eth = 1

abbrev pub matic : Name
matic = 2

abbrev pub trx : Name
trx = 3

abbrev pub sol : Name
sol = 4

abbrev pub tron : Name
tron = 5

abbrev pub solana : Name
solana = 6

abbrev pub accepted_tokens : List Name
accepted_tokens = 11 ∷ 12 ∷ 13 ∷ []  -- USDC, USDT, DAI

abbrev chain_config : Name → Strategy → Name → ℕ → ℕ → ChainGasConfig
chain_config id s symbol decimals price = record {
  config_id = id;
  strategy = s;
  native_symbol = symbol;
  native_decimals = decimals;
  native_price_usd = price;
  paymaster_address = none;
  fee_percentage = none;
}

unfoldable pub default_chain_configs : Configs
default_chain_configs =
    chain_config 1 erc4337_paymaster eth 18 350000
    ∷ chain_config 8453 erc4337_paymaster eth 18 350000
    ∷ chain_config 42161 erc4337_paymaster eth 18 350000
    ∷ chain_config 137 relayer matic 18 80
    ∷ chain_config tron resource_model trx 6 12
    ∷ chain_config solana priority_fee_relay sol 9 15000
    ∷ []

abbrev pub config_of : Name → Configs → Option ChainGasConfig
config_of = find_at (λ c. c.config_id)

abbrev strategy_or_relayer : Option ChainGasConfig → Strategy
strategy_or_relayer none = relayer
strategy_or_relayer (some c) = c.strategy

unfoldable pub get_strategy : Configs → Name → Strategy
get_strategy configs id = strategy_or_relayer (config_of id configs)

unfoldable pub is_accepted_fee_token : Env → Name → Bool
is_accepted_fee_token env token = includes accepted_tokens (env.to_upper_case token)

abbrev pub is_present : {A : Type 0} → Option A → Bool
is_present none = false
is_present (some a) = true

-- `!token || this.isAcceptedFeeToken(token)`.
unfoldable pub is_payable_with : Env → Option Name → Bool
is_payable_with env none = true
is_payable_with env (some token) = env.is_empty token || is_accepted_fee_token env token
