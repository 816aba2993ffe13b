-- ===== src/Compliance.antt =====
-- packages/shared/src/types/compliance.ts: what a risk scorer answers. The scorers are clients of HTTP
-- services, and are arguments. The details of a risk are left
-- out: no decision reads them. A risk score, and each threshold of one, is in hundredths.
pub mod Velocity
pub mod Records
pub mod Orchestrator
pub mod Audit
pub mod Decisions
pub mod Factors
pub mod BasicScorer
pub mod Gate
pub mod Listing
use nexora_gateway.Prelude.{ℕ, Bool, List, [], ◌∷◌, ◌||◌, false, ◌==◌}
use nexora_gateway.Prelude.Int.{ℤ}
use nexora_gateway.Prelude.Action.{Result}
use nexora_gateway.Intent.Data.{Name}

pub data RiskLevel : Type 0 where
  low medium high critical : RiskLevel

pub data RiskFlag : Type 0 where
  sanctioned mixer darknet scam high_risk_jurisdiction velocity_anomaly new_address : RiskFlag

pub record RiskResult : Type 0 where
  pub address : Name
  pub chain : Name
  pub risk_score : ℕ
  pub risk_level : RiskLevel
  pub flags : List RiskFlag

pub record TransactionInfo : Type 0 where
  pub from : Name
  pub to : Name
  pub amount : ℤ
  pub asset : Name
  pub chain : Name
  pub timestamp : ℕ

-- What a scorer throws: the error on a service that does not answer, or another.
pub data ScreeningError : Type 0 where
  screening_unavailable other_error : Name → ScreeningError

pub record RiskScorer : Type 0 where
  pub screen_address : Name → Name → Result ScreeningError RiskResult
  pub screen_transaction : TransactionInfo → Result ScreeningError RiskResult
