-- ===== src/Compliance/Orchestrator.antt =====
-- packages/compliance/src/compliance-orchestrator.ts: the three screenings and the decision. The clock
-- is read once in a screening.
use nexora_gateway.Prelude.{
  ℕ, Bool, true, false, ◌&&◌, List, [], ◌∷◌, ◌++◌, Option, none, some, leb, if◌then◌else◌, any_of,
}
use nexora_gateway.Prelude.Int.{ℤ, pos, negsuc, ltb_ℤ}
use nexora_gateway.Prelude.Action.{Result, ok, err}
use nexora_gateway.Intent.Data.{Name}
use nexora_gateway.Compliance.{
  RiskLevel, high, critical, RiskFlag, sanctioned, RiskResult, TransactionInfo, ScreeningError,
  screening_unavailable, other_error, RiskScorer,
}
use nexora_gateway.Compliance.Velocity.{History, VelocityCheckResult, check_velocity}
use nexora_gateway.Compliance.Records.{
  AuditDecision, AuditLogEntry, ComplianceConfig, ComplianceResult, Desk, Reason, ScreeningPoint,
  allow, block, critical_risk, deposit_detection, high_risk_with_large_amount, intent_creation,
  on_sanctions_list, requires_manual_review, settlement, unavailable_fail_closed,
  velocity_limit_exceeded,
}

abbrev pub is_sanctioned : RiskFlag → Bool
is_sanctioned sanctioned = true
is_sanctioned _ = false

abbrev pub is_critical : RiskLevel → Bool
is_critical critical = true
is_critical _ = false

abbrev pub is_high : RiskLevel → Bool
is_high high = true
is_high _ = false

-- 50000 and 10000 USD in 10⁻⁸ units.
abbrev pub large_amount : ℤ
large_amount = pos 5000000000000

abbrev pub kyc_threshold : ℤ
kyc_threshold = pos 1000000000000

abbrev pub was_exceeded : Option VelocityCheckResult → Bool
was_exceeded none = false
was_exceeded (some v) = v.exceeded

abbrev flags_of : Option VelocityCheckResult → List RiskFlag
flags_of none = []
flags_of (some v) = v.flags

unfoldable pub make_decision :
    ComplianceConfig → RiskResult → Option VelocityCheckResult → ℤ → Bool × Option Reason
make_decision c risk velocity amount =
    if any_of is_sanctioned risk.flags
    then (true, some on_sanctions_list)
    else if is_critical risk.risk_level
    then (true, some (critical_risk risk.risk_score))
    else if is_high risk.risk_level && ltb_ℤ large_amount amount
    then (true, some (high_risk_with_large_amount amount))
    else if was_exceeded velocity
    then (true, some velocity_limit_exceeded)
    else if leb c.review_threshold risk.risk_score
    then (false, some requires_manual_review)
    else (false, none)

-- What is screened: the address or the sender, and what the entry says of it.
pub record Subject : Type 0 where
  pub point : ScreeningPoint
  pub intent_id : Name
  pub address : Name
  pub chain : Name
  pub amount : ℤ

abbrev pub decision_of : Bool → AuditDecision
decision_of true = block
decision_of false = allow

-- `logAuditEntry`.
abbrev pub log_audit_entry : AuditLogEntry → Desk → Desk
log_audit_entry e d = record d { audit_log = d.audit_log ++ e ∷ [] }

abbrev pub screened_entry :
    ℕ → Subject → RiskResult → Option VelocityCheckResult → Bool → AuditLogEntry
screened_entry now s risk velocity blocked = record {
  intent_id = s.intent_id;
  address = s.address;
  chain = s.chain;
  action = s.point;
  decision = decision_of blocked;
  risk_score = pos risk.risk_score;
  risk_level = some risk.risk_level;
  flags = risk.flags ++ flags_of velocity;
  amount = s.amount;
  fail_closed = false;
  timestamp = now;
}

abbrev pub closed_entry : ℕ → Subject → AuditLogEntry
closed_entry now s = record {
  intent_id = s.intent_id;
  address = s.address;
  chain = s.chain;
  action = s.point;
  decision = block;
  risk_score = negsuc 99;
  risk_level = none;
  flags = [];
  amount = s.amount;
  fail_closed = true;
  timestamp = now;
}

abbrev source_of : ScreeningPoint → RiskResult → Option RiskResult
source_of settlement risk = none
source_of _ risk = some risk

abbrev destination_of : ScreeningPoint → RiskResult → Option RiskResult
destination_of settlement risk = some risk
destination_of _ risk = none

abbrev pub screened_result : ℕ → Subject → RiskResult → Bool × Option Reason → ComplianceResult
screened_result now s risk (blocked, reason) = record {
  intent_id = s.intent_id;
  source_risk = source_of s.point risk;
  destination_risk = destination_of s.point risk;
  kyc_required = ltb_ℤ kyc_threshold s.amount;
  kyc_verified = false;
  blocked = blocked;
  block_reason = reason;
  screened_at = now;
}

-- The `catch` on an unavailable service.
abbrev pub closed_result : ℕ → Subject → Name → ComplianceResult
closed_result now s message = record {
  intent_id = s.intent_id;
  source_risk = none;
  destination_risk = none;
  kyc_required = true;
  kyc_verified = false;
  blocked = true;
  block_reason = some (unavailable_fail_closed message);
  screened_at = now;
}

-- The velocity check of a screening, when it has one and it is enabled.
unfoldable pub velocity_of :
    ComplianceConfig
    → (Name → Name)
    → ℕ
    → Option TransactionInfo
    → List History
    → Option VelocityCheckResult × List History
unfolding check_velocity
velocity_of c lower now none hs = (none, hs)
velocity_of c lower now (some tx) hs =
    if c.enable_velocity_checks
    then (let (v, hs') = check_velocity c.velocity_window lower now tx hs in (some v, hs'))
    else (none, hs)

-- The body that the three screenings share.
unfoldable pub conclude :
    ComplianceConfig
    → (Name → Name)
    → ℕ
    → Subject
    → Option TransactionInfo
    → Result ScreeningError RiskResult
    → Desk
    → Result ScreeningError ComplianceResult × Desk
unfolding velocity_of make_decision
conclude c lower now s tx (ok risk) d =
    let (velocity, hs) = velocity_of c lower now tx d.windows in
    let decision = make_decision c risk velocity s.amount in
    (
      ok (screened_result now s risk decision),
      log_audit_entry (screened_entry now s risk velocity decision.0) (record d { windows = hs }),
    )
conclude c lower now s tx (err (screening_unavailable m)) d =
    (ok (closed_result now s m), log_audit_entry (closed_entry now s) d)
conclude c lower now s tx (err (other_error m)) d = (err (other_error m), d)

unfoldable pub screen_intent_creation :
    ComplianceConfig
    → (Name → Name)
    → RiskScorer
    → ℕ
    → Name
    → Name
    → Name
    → ℤ
    → Desk
    → Result ScreeningError ComplianceResult × Desk
unfolding conclude
screen_intent_creation c lower scorer now intent source chain amount =
    conclude c lower now
      (record {
        point = intent_creation;
        intent_id = intent;
        address = source;
        chain = chain;
        amount = amount;
      })
      (some (record {
        from = source;
        to = 0;
        amount = amount;
        asset = 0;
        chain = chain;
        timestamp = now;
      }))
      (scorer.screen_address source chain)

unfoldable pub screen_deposit :
    ComplianceConfig
    → (Name → Name)
    → RiskScorer
    → ℕ
    → Name
    → TransactionInfo
    → Desk
    → Result ScreeningError ComplianceResult × Desk
unfolding conclude
screen_deposit c lower scorer now intent tx =
    conclude c lower now
      (record {
        point = deposit_detection;
        intent_id = intent;
        address = tx.from;
        chain = tx.chain;
        amount = tx.amount;
      })
      (some tx) (scorer.screen_transaction tx)

unfoldable pub screen_settlement :
    ComplianceConfig
    → (Name → Name)
    → RiskScorer
    → ℕ
    → Name
    → Name
    → Name
    → ℤ
    → Desk
    → Result ScreeningError ComplianceResult × Desk
unfolding conclude
screen_settlement c lower scorer now intent destination chain amount =
    conclude c lower now
      (record {
        point = settlement;
        intent_id = intent;
        address = destination;
        chain = chain;
        amount = amount;
      })
      none (scorer.screen_address destination chain)
