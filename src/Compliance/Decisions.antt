-- ===== src/Compliance/Decisions.antt =====
-- What the screenings of packages/compliance/src/compliance-orchestrator.ts decide, and what they
-- leave in the audit log.
use nexora_gateway.Prelude.{
  ℕ, ◌≡◌, ◌≢◌, ◌⊎◌, ◌↔◌, refl, sym, subst, ◌∙◌, Bool, true, false, ◌&&◌, ◌||◌, [], ◌∷◌, ◌++◌,
  Option, none, some, inl, inr, arith, any_of,
}
use nexora_gateway.Prelude.Int.{ℤ, ltb_ℤ}
use nexora_gateway.Prelude.Action.{Result, ok, err}
use nexora_gateway.Intent.Data.{Name}
use nexora_gateway.Compliance.{
  RiskLevel, high, critical, RiskResult, RiskScorer, TransactionInfo, ScreeningError,
  screening_unavailable, other_error,
}
use nexora_gateway.Compliance.Velocity.{VelocityCheckResult}
use nexora_gateway.Compliance.Orchestrator.{
  Subject, is_sanctioned, is_critical, is_high, large_amount, was_exceeded, make_decision,
  decision_of, velocity_of, conclude, screen_intent_creation, screen_deposit, screen_settlement,
}
use nexora_gateway.Compliance.Records.{
  ComplianceConfig, ComplianceResult, intent_creation, deposit_detection, settlement, AuditLogEntry,
  Desk,
}

-- A call of one of the three screenings.
pub data Screening : Type 0 where
  of_intent of_settlement : Name → Name → Name → ℤ → Screening
  of_deposit : Name → TransactionInfo → Screening

module _ (c : ComplianceConfig) (lower : Name → Name) (scorer : RiskScorer) (now : ℕ) where
  abbrev pub screen : Screening → Desk → Result ScreeningError ComplianceResult × Desk
  screen (of_intent intent source chain amount) =
      screen_intent_creation c lower scorer now intent source chain amount
  screen (of_settlement intent destination chain amount) =
      screen_settlement c lower scorer now intent destination chain amount
  screen (of_deposit intent tx) = screen_deposit c lower scorer now intent tx

  -- What the scorer says.
  abbrev pub answer : Screening → Result ScreeningError RiskResult
  answer (of_intent intent source chain amount) = scorer.screen_address source chain
  answer (of_settlement intent destination chain amount) = scorer.screen_address destination chain
  answer (of_deposit intent tx) = scorer.screen_transaction tx

  abbrev pub subject : Screening → Subject
  subject (of_intent intent source chain amount) = record {
    point = intent_creation;
    intent_id = intent;
    address = source;
    chain = chain;
    amount = amount;
  }
  subject (of_settlement intent destination chain amount) = record {
    point = settlement;
    intent_id = intent;
    address = destination;
    chain = chain;
    amount = amount;
  }
  subject (of_deposit intent tx) = record {
    point = deposit_detection;
    intent_id = intent;
    address = tx.from;
    chain = tx.chain;
    amount = tx.amount;
  }

  -- The transaction whose velocity is checked; a settlement has none.
  abbrev pub measured : Screening → Option TransactionInfo
  measured (of_intent intent source chain amount) =
      some (record {
        from = source;
        to = 0;
        amount = amount;
        asset = 0;
        chain = chain;
        timestamp = now;
      })
  measured (of_settlement intent destination chain amount) = none
  measured (of_deposit intent tx) = some tx

  -- Not sanctioned, not critical, not high on a large amount, and within the velocity limits.
  abbrev pub IsCleared : RiskResult → Bool → ℤ → Type 0
  IsCleared risk exceeded amount =
      (any_of is_sanctioned risk.flags ≡ false)
      × (risk.risk_level ≢ critical)
      × (risk.risk_level ≡ high → ltb_ℤ large_amount amount ≡ false)
      × (exceeded ≡ false)

  is_critical_iff : (l : RiskLevel) → (is_critical l ≡ false) ↔ (l ≢ critical)
  is_critical_iff critical = (λ h. absurd (cc), λ h. absurd (h refl))
  is_critical_iff _ = (λ h e. cc, λ h. refl)

  is_high_iff : (l : RiskLevel) → (is_high l ≡ true) ↔ (l ≡ high)
  is_high_iff high = (λ h. refl, λ h. refl)
  is_high_iff _ = (λ h. absurd (cc), λ h. absurd (cc))

  -- The four tests as one.
  blocks :
      (risk : RiskResult) (v : Option VelocityCheckResult) (amount : ℤ)
      → (make_decision c risk v amount).0 ≡ (
          any_of is_sanctioned risk.flags
          || (is_critical risk.risk_level
              || (is_high risk.risk_level && ltb_ℤ large_amount amount || was_exceeded v)))
  unfolding make_decision
  blocks risk v amount = ground arith

  all_false :
      (s k l a w : Bool)
      → ((s || (k || (l && a || w))) ≡ false)
        ↔ ((s ≡ false) × (k ≡ false) × (l ≡ true → a ≡ false) × (w ≡ false))
  all_false true k l a w = (λ h. absurd (cc), λ h. cc)
  all_false false true l a w = (λ h. absurd (cc), λ h. cc)
  all_false false false true true w = (λ h. absurd (cc), λ h. h.2 refl)
  all_false false false true false w = (λ h. (refl, refl, (λ e. refl), h), λ h. h.3)
  all_false false false false a w = (λ h. (refl, refl, (λ e. absurd (cc)), h), λ h. h.3)

  IsCleared-iff :
      (risk : RiskResult) (v : Option VelocityCheckResult) (amount : ℤ)
      → ((make_decision c risk v amount).0 ≡ false) ↔ IsCleared risk (was_exceeded v) amount
  IsCleared-iff risk v amount =
      let all =
        all_false (any_of is_sanctioned risk.flags) (is_critical risk.risk_level)
          (is_high risk.risk_level) (ltb_ℤ large_amount amount) (was_exceeded v) in
      let crit = is_critical_iff risk.risk_level in
      let hi = is_high_iff risk.risk_level in
      let b = blocks risk v amount in
      (
        (λ h. let (s, k, l, w) = all.0 (sym b ∙ h) in (s, crit.0 k, (λ e. l (hi.1 e)), w)),
        (λ h. b ∙ all.1 (h.0, crit.1 h.1, (λ e. h.2 (hi.0 e)), h.3)),
      )

  -- Either the scorer threw something other than its unavailability, and so does the screening.
  abbrev pub Throws : Screening → Desk → Type 0
  Throws q d =
      (m : Name) × (answer q ≡ err (other_error m)) × (screen q d ≡ (err (other_error m), d))

  -- Or a result comes back and one entry is added to the log, which tells the decision.
  abbrev pub Decides : Screening → Desk → Type 0
  Decides q d =
      (result : ComplianceResult) × (e : AuditLogEntry) × ((screen q d).0 ≡ ok result)
      × ((screen q d).1.audit_log ≡ d.audit_log ++ e ∷ [])
      × (e.decision ≡ decision_of result.blocked)
      × (e.intent_id ≡ result.intent_id)
      × ((result.blocked ≡ false) ↔ (
          (risk : RiskResult) × (answer q ≡ ok risk)
          × IsCleared risk (was_exceeded (velocity_of c lower now (measured q) d.windows).0)
              (subject q).amount))

  conclude_cases :
      (s : Subject) (tx : Option TransactionInfo) (a : Result ScreeningError RiskResult) (d : Desk)
      → ((m : Name) × (a ≡ err (other_error m))
          × (conclude c lower now s tx a d ≡ (err (other_error m), d)))
        ⊎ ((result : ComplianceResult) × (e : AuditLogEntry) × ((conclude c lower now s tx a d).0
              ≡ ok result)
            × ((conclude c lower now s tx a d).1.audit_log ≡ d.audit_log ++ e ∷ [])
            × (e.decision ≡ decision_of result.blocked)
            × (e.intent_id ≡ result.intent_id)
            × ((result.blocked ≡ false) ↔ (
                (risk : RiskResult) × (a ≡ ok risk)
                × IsCleared risk (was_exceeded (velocity_of c lower now tx d.windows).0) s.amount)))
  unfolding conclude
  conclude_cases s tx (ok risk) d =
      let v = (velocity_of c lower now tx d.windows).0 in
      let same = IsCleared-iff risk v s.amount in
      inr (
        _,
        _,
        refl,
        refl,
        refl,
        refl,
        (
          (λ h. (risk, refl, same.0 h)),
          (λ h.
              same.1
                (subst (λ z. IsCleared z (was_exceeded v) s.amount) (sym (answered h.0 h.1)) h.2)),
        ),
      )
    where
      answered :
          (other : RiskResult)
          → Path (Result ScreeningError RiskResult) (ok risk) (ok other)
          → risk ≡ other
      answered other e = cc
  conclude_cases s tx (err (screening_unavailable m)) d =
      inr (_, _, refl, refl, refl, refl, ((λ h. absurd (cc)), (λ h. absurd (silent h.0 h.1))))
    where
      silent :
          (other : RiskResult)
          → Path (Result ScreeningError RiskResult) (err (screening_unavailable m)) (ok other)
          → ⊥
      silent other e = cc
  conclude_cases s tx (err (other_error m)) d = inl (m, refl, refl)

-- A screening throws only where its scorer threw something other than its unavailability, and then
-- changes nothing. Otherwise it adds one entry to the log, whose decision is that of the result;
-- and it lets through exactly when the scorer answered with a risk that is not sanctioned, not
-- critical and not high on more than 50000 USD, and the velocity check, if there is one, passed.
pub screen_fails_closed :
    (c : ComplianceConfig) (lower : Name → Name) (scorer : RiskScorer) (now : ℕ) (q : Screening)
    (d : Desk)
    → Throws c lower scorer now q d ⊎ Decides c lower scorer now q d
unfolding screen_intent_creation screen_deposit screen_settlement
screen_fails_closed c lower scorer now (of_intent intent source chain amount) d =
    let q = of_intent intent source chain amount in
    conclude_cases c lower scorer now (subject c lower scorer now q) (measured c lower scorer now q)
      (scorer.screen_address source chain) d
screen_fails_closed c lower scorer now (of_settlement intent destination chain amount) d =
    let q = of_settlement intent destination chain amount in
    conclude_cases c lower scorer now (subject c lower scorer now q) (measured c lower scorer now q)
      (scorer.screen_address destination chain) d
screen_fails_closed c lower scorer now (of_deposit intent tx) d =
    let q = of_deposit intent tx in
    conclude_cases c lower scorer now (subject c lower scorer now q) (measured c lower scorer now q)
      (scorer.screen_transaction tx) d
