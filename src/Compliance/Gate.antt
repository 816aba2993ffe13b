-- ===== src/Compliance/Gate.antt =====
-- packages/rate-lock/src/compliance-gate.ts. What the scorer answers is an argument; an error of it
-- leaves the gate. Texts of reasons are constructors, and a factor's details are left out.
use nexora_gateway.Prelude.{
  ℕ, ◌+◌, Bool, true, false, ◌&&◌, ◌||◌, not, List, [], ◌∷◌, ◌++◌, Option, none, some, ◌==◌,
  if◌then◌else◌, keep_if, any_of, includes,
}
use nexora_gateway.Prelude.Int.{ℤ, ltb_ℤ}
use nexora_gateway.Prelude.Action.{Result, ok, err}
use nexora_gateway.Intent.Data.{Name}
use nexora_gateway.Compliance.{
  RiskLevel, critical, RiskFlag, sanctioned, mixer, darknet, new_address, RiskResult, RiskScorer,
  TransactionInfo, ScreeningError,
}
use nexora_gateway.Compliance.Orchestrator.{is_sanctioned, is_critical, is_high, large_amount}

pub data FactorKind : Type 0 where
  sanctions wallet_age mixing darknet_use : FactorKind

pub record Factor : Type 0 where
  pub kind : FactorKind
  pub score : ℕ
  pub weight : ℕ  -- in hundredths

pub record RiskAssessment : Type 0 where
  pub address : Name
  pub chain : Name
  pub total_score : ℕ
  pub risk_level : RiskLevel
  pub factors : List Factor
  pub flags : List RiskFlag
  pub assessed_at : ℕ
  pub expires_at : ℕ

pub data GateReason : Type 0 where
  address_blocked on_sanctions_list source_on_sanctions_list mixer_or_darknet : GateReason
  chain_not_supported : Name → GateReason
  address_critical transaction_critical : ℕ → GateReason
  high_risk_large_amount : ℤ → GateReason

pub record ComplianceGateResult : Type 0 where
  pub allowed : Bool
  pub reason : Option GateReason
  pub risk_assessment : RiskAssessment

pub record Gate : Type 0 where
  pub blocked_addresses : List Name
  pub blocked_chains : List Name

abbrev is_mixer : RiskFlag → Bool
is_mixer mixer = true
is_mixer _ = false

abbrev is_darknet : RiskFlag → Bool
is_darknet darknet = true
is_darknet _ = false

abbrev is_new : RiskFlag → Bool
is_new new_address = true
is_new _ = false

abbrev factor_if : Bool → FactorKind → ℕ → ℕ → List Factor
factor_if true kind score weight = record { kind = kind; score = score; weight = weight } ∷ []
factor_if false kind score weight = []

unfoldable pub build_risk_assessment : ℕ → Name → Name → RiskResult → RiskAssessment
build_risk_assessment now address chain r = record {
  address = address;
  chain = chain;
  total_score = r.risk_score;
  risk_level = r.risk_level;
  factors =
      factor_if (any_of is_sanctioned r.flags) sanctions 100 40
      ++ factor_if (any_of is_new r.flags) wallet_age 80 20
      ++ factor_if (any_of is_mixer r.flags) mixing 90 30
      ++ factor_if (any_of is_darknet r.flags) darknet_use 95 30;
  flags = r.flags;
  assessed_at = now;
  expires_at = now + 3600000;
}

unfoldable pub build_blocked_assessment : ℕ → Name → Name → RiskAssessment
build_blocked_assessment now address chain = record {
  address = address;
  chain = chain;
  total_score = 10000;
  risk_level = critical;
  factors = [];
  flags = sanctioned ∷ [];
  assessed_at = now;
  expires_at = now + 3600000;
}

abbrev refused : GateReason → RiskAssessment → ComplianceGateResult
refused reason a = record { allowed = false; reason = some reason; risk_assessment = a }

abbrev passed : RiskAssessment → ComplianceGateResult
passed a = record { allowed = true; reason = none; risk_assessment = a }

-- The tests of `checkAddress` after the screening.
unfoldable pub judge_address : RiskResult → ℤ → RiskAssessment → ComplianceGateResult
judge_address r amount a =
    if any_of is_sanctioned r.flags
    then refused on_sanctions_list a
    else if is_critical r.risk_level
    then refused (address_critical r.risk_score) a
    else if is_high r.risk_level && ltb_ℤ large_amount amount
    then refused (high_risk_large_amount amount) a
    else passed a

unfoldable pub address_answer :
    ℕ
    → Name
    → Name
    → ℤ
    → Result ScreeningError RiskResult
    → Result ScreeningError ComplianceGateResult
unfolding judge_address build_risk_assessment
address_answer now address chain amount (err e) = err e
address_answer now address chain amount (ok r) =
    ok (judge_address r amount (build_risk_assessment now address chain r))

unfoldable pub check_address :
    (Name → Name)
    → RiskScorer
    → ℕ
    → Name
    → Name
    → ℤ
    → Gate
    → Result ScreeningError ComplianceGateResult
unfolding build_blocked_assessment address_answer
check_address lower scorer now address chain amount g =
    if includes g.blocked_addresses (lower address)
    then ok (refused address_blocked (build_blocked_assessment now address chain))
    else if includes g.blocked_chains chain
    then ok (refused (chain_not_supported chain) (build_blocked_assessment now address chain))
    else address_answer now address chain amount (scorer.screen_address address chain)

unfoldable pub judge_transaction : RiskResult → RiskAssessment → ComplianceGateResult
judge_transaction r a =
    if is_critical r.risk_level
    then refused (transaction_critical r.risk_score) a
    else if any_of is_sanctioned r.flags
    then refused source_on_sanctions_list a
    else if any_of is_mixer r.flags || any_of is_darknet r.flags
    then refused mixer_or_darknet a
    else passed a

unfoldable pub transaction_answer :
    ℕ
    → TransactionInfo
    → Result ScreeningError RiskResult
    → Result ScreeningError ComplianceGateResult
unfolding judge_transaction build_risk_assessment
transaction_answer now tx (err e) = err e
transaction_answer now tx (ok r) =
    ok (judge_transaction r (build_risk_assessment now tx.from tx.chain r))

unfoldable pub check_transaction :
    RiskScorer → ℕ → TransactionInfo → Result ScreeningError ComplianceGateResult
unfolding transaction_answer
check_transaction scorer now tx = transaction_answer now tx (scorer.screen_transaction tx)

abbrev add_name : Name → List Name → List Name
add_name n names = if includes names n then names else names ++ n ∷ []

abbrev remove_name : Name → List Name → List Name
remove_name n = keep_if (λ m. not (m == n))

unfoldable pub block_address : (Name → Name) → Name → Gate → Gate
block_address lower a g = record g { blocked_addresses = add_name (lower a) g.blocked_addresses }

unfoldable pub unblock_address : (Name → Name) → Name → Gate → Gate
unblock_address lower a g = record g {
  blocked_addresses = remove_name (lower a) g.blocked_addresses;
}

unfoldable pub block_chain : Name → Gate → Gate
block_chain c g = record g { blocked_chains = add_name c g.blocked_chains }

unfoldable pub unblock_chain : Name → Gate → Gate
unblock_chain c g = record g { blocked_chains = remove_name c g.blocked_chains }
