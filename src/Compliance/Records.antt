-- ===== src/Compliance/Records.antt =====
-- packages/compliance/src/compliance-orchestrator.ts: the configuration, the results and the entries of
-- the audit log. The texts of a reason are constructors; a log entry's generated id is left out.
use nexora_gateway.Prelude.{ℕ, Bool, true, List, Option}
use nexora_gateway.Prelude.Int.{ℤ, pos}
use nexora_gateway.Intent.Data.{Name}
use nexora_gateway.Compliance.{RiskLevel, RiskFlag, RiskResult}
use nexora_gateway.Compliance.Velocity.{VelocityWindow, History}

pub record ComplianceConfig : Type 0 where
  pub auto_block_threshold : ℕ
  pub review_threshold : ℕ
  pub enable_velocity_checks : Bool
  pub velocity_window : VelocityWindow

-- 20 transactions and 100000 USD in an hour.
abbrev pub default_config : ComplianceConfig
default_config = record {
  auto_block_threshold = 9000;
  review_threshold = 7000;
  enable_velocity_checks = true;
  velocity_window = record {
    duration_ms = 3600000;
    max_transactions = 20;
    max_amount = pos 10000000000000;
  };
}

pub data ScreeningPoint : Type 0 where
  intent_creation deposit_detection settlement : ScreeningPoint

pub data AuditDecision : Type 0 where
  allow block review : AuditDecision

pub data Reason : Type 0 where
  on_sanctions_list velocity_limit_exceeded requires_manual_review : Reason
  critical_risk : ℕ → Reason
  high_risk_with_large_amount : ℤ → Reason
  unavailable_fail_closed : Name → Reason

pub record AuditLogEntry : Type 0 where
  pub intent_id : Name
  pub address : Name
  pub chain : Name
  pub action : ScreeningPoint
  pub decision : AuditDecision
  pub risk_score : ℤ
  pub risk_level : Option RiskLevel  -- none for 'UNKNOWN'
  pub flags : List RiskFlag
  pub amount : ℤ
  pub fail_closed : Bool
  pub timestamp : ℕ

pub record ComplianceResult : Type 0 where
  pub intent_id : Name
  pub source_risk : Option RiskResult
  pub destination_risk : Option RiskResult
  pub kyc_required : Bool
  pub kyc_verified : Bool
  pub blocked : Bool
  pub block_reason : Option Reason
  pub screened_at : ℕ

pub record Desk : Type 0 where
  pub windows : List History
  pub audit_log : List AuditLogEntry
