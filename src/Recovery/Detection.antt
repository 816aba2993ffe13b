-- ===== src/Recovery/Detection.antt =====
-- packages/recovery/src/recovery.service.ts: the detections and the proof of ownership. The pattern of
-- a signature and the address check of a chain's client are parameters, and so is a generated hash.
use nexora_gateway.Prelude.{
  ℕ, Bool, false, ◌&&◌, not, List, [], ◌∷◌, Option, none, some, ◌==◌, if◌then◌else◌,
}
use nexora_gateway.Prelude.Int.{ℤ}
use nexora_gateway.Intent.Data.{Name}
use nexora_gateway.Recovery.{
  RecoveryCaseType, misdirected, underpaid, overpaid, stuck, RecoveryCase, CreateRecoveryCaseParams,
  Method, create_case,
}

pub record ChainClient : Type 0 where
  pub chain_id : Name
  pub validate_address : Name → Option Bool  -- none where the call throws

-- What the service holds and meets.
pub record Env : Type 0 where
  pub now : ℕ
  pub chain_clients : List ChainClient
  pub stuck_transaction_timeout_ms : ℕ
  pub top_up_link_ttl_seconds : ℕ
  pub is_signature : Name → Bool
  pub fresh_hash : Name → Name  -- the hash that is generated for a case

-- The parameters of the four detections; `amount` is what was received.
pub record Payment : Type 0 where
  pub intent_id : Option Name
  pub customer_address : Name
  pub customer_chain : Name
  pub intended_chain : Name
  pub asset : Name
  pub amount : ℤ
  pub tx_hash : Name

abbrev pub params_of : RecoveryCaseType → Payment → CreateRecoveryCaseParams
params_of t p = record {
  related_intent_id = p.intent_id;
  case_type = t;
  customer_address = p.customer_address;
  customer_chain = p.customer_chain;
  intended_chain = p.intended_chain;
  asset = p.asset;
  amount = p.amount;
  tx_hash = some p.tx_hash;
}

unfoldable pub detect_misdirected : Env → Name → Payment → Method RecoveryCase
unfolding create_case
detect_misdirected env id p = create_case id env.now (params_of misdirected p)

unfoldable pub detect_underpayment : Env → Name → Payment → Method RecoveryCase
unfolding create_case
detect_underpayment env id p = create_case id env.now (params_of underpaid p)

unfoldable pub detect_overpayment : Env → Name → Payment → Method RecoveryCase
unfolding create_case
detect_overpayment env id p = create_case id env.now (params_of overpaid p)

unfoldable pub detect_stuck : Env → Name → Payment → Method RecoveryCase
unfolding create_case
detect_stuck env id p = create_case id env.now (params_of stuck p)

unfoldable pub chain_client : Name → List ChainClient → Option ChainClient
chain_client chain [] = none
chain_client chain (c ∷ cs) = if c.chain_id == chain then some c else chain_client chain cs

pub record OwnershipProof : Type 0 where
  pub address : Name
  pub signature : Name
  pub message : Name
  pub verified : Bool
  pub verified_at : Option ℕ

abbrev pub proof : Env → Name → Name → Name → Bool → OwnershipProof
proof env address signature message verified = record {
  address = address;
  signature = signature;
  message = message;
  verified = verified;
  verified_at = if verified then some env.now else none;
}

-- A check that throws verifies nothing.
abbrev pub is_verified : Env → Name → Name → Option Bool → Bool
is_verified env signature message none = false
is_verified env signature message (some valid) =
    env.is_signature signature && valid && not (message == 0)

abbrev pub verified_by : Env → Name → Name → Name → Option ChainClient → Bool
verified_by env address signature message none = false
verified_by env address signature message (some c) =
    is_verified env signature message (c.validate_address address)

unfoldable pub verify_ownership : Env → Name → Name → Name → Name → OwnershipProof
unfolding chain_client
verify_ownership env address signature message chain =
    proof env address signature message
      (verified_by env address signature message (chain_client chain env.chain_clients))
