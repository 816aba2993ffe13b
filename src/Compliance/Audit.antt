-- ===== src/Compliance/Audit.antt =====
-- The audit log of packages/compliance/src/compliance-orchestrator.ts: its queries, and what it
-- says of the screenings.
use nexora_gateway.Prelude.{
  ℕ, Bool, true, ◌&&◌, ◌||◌, List, Option, none, some, ◌==◌, leb, keep_if, length,
}
use nexora_gateway.Intent.Data.{Name}
use nexora_gateway.Compliance.Records.{
  ScreeningPoint, intent_creation, deposit_detection, settlement, AuditDecision, allow, block,
  review, AuditLogEntry, Desk,
}

pub record Filters : Type 0 where
  pub intent_id : Option Name
  pub address : Option Name
  pub action : Option ScreeningPoint
  pub decision : Option AuditDecision
  pub start_date : Option ℕ
  pub end_date : Option ℕ

abbrev decision_index : AuditDecision → ℕ
decision_index allow = 0
decision_index block = 1
decision_index review = 2

abbrev point_index : ScreeningPoint → ℕ
point_index intent_creation = 0
point_index deposit_detection = 1
point_index settlement = 2

abbrev asks : {A : Type 0} → Option A → (A → Bool) → Bool
asks none test = true
asks (some a) test = test a

-- An empty name filters nothing.
unfoldable pub passes : Filters → AuditLogEntry → Bool
passes f e =
    asks f.intent_id (λ n. n == 0 || e.intent_id == n)
    && asks f.address (λ n. n == 0 || e.address == n)
    && asks f.action (λ a. point_index e.action == point_index a)
    && asks f.decision (λ d. decision_index e.decision == decision_index d)
    && asks f.start_date (λ t. leb t e.timestamp)
    && asks f.end_date (λ t. leb e.timestamp t)

unfoldable pub get_audit_log : Filters → Desk → List AuditLogEntry
unfolding passes
get_audit_log f d = keep_if (passes f) d.audit_log

pub record ComplianceStats : Type 0 where
  pub total_screenings : ℕ
  pub allowed : ℕ
  pub blocked : ℕ
  pub reviewed : ℕ

abbrev pub count_of : AuditDecision → List AuditLogEntry → ℕ
count_of d log = length (keep_if (λ e. decision_index e.decision == decision_index d) log)

-- The rate is the quotient of its counts.
unfoldable pub get_stats : Desk → ComplianceStats
get_stats d = record {
  total_screenings = length d.audit_log;
  allowed = count_of allow d.audit_log;
  blocked = count_of block d.audit_log;
  reviewed = count_of review d.audit_log;
}
