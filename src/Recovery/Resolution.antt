-- ===== src/Recovery/Resolution.antt =====
-- What resolving a recovery case does.
use nexora_gateway.Prelude.{
  ℕ, ◌≡◌, refl, ap, ◌∙◌, Bool, true, false, Option, none, some, inl, inr, ◌==◌, ==_self,
  Option-cases, Bool-cases, change_at, find_at-change_at, if◌then◌else◌,
}
use nexora_gateway.Prelude.Action.{ok}
use nexora_gateway.Intent.Data.{Name}
use nexora_gateway.Recovery.{
  ResolutionAction, auto_refund, auto_credit, top_up_link, re_quote, fee_bump, relayer_acceleration,
  RecoveryCase, UpdateRecoveryCaseParams, Cases, case_with, amended, update_case, same_type,
  underpaid, resolved, failed,
}
use nexora_gateway.Recovery.Service.{
  ResolutionResult, begun, ended, execute, execute_auto_refund, execute_auto_credit,
  execute_top_up_link, execute_re_quote, execute_fee_bump, execute_relayer_acceleration,
  generate_top_up_link, get_related_intent, link_of, attempt, resolve_found, resolve_if, resolve,
}
use nexora_gateway.Recovery.Detection.{ChainClient, Env, chain_client}

abbrev is_there : Option ChainClient → Bool
is_there none = false
is_there (some c) = true

-- Which actions can succeed: a refund and an acceleration where the customer's chain has a client,
-- a top-up link never, the others always.
abbrev pub succeeds : Env → ResolutionAction → RecoveryCase → Bool
succeeds env auto_refund r = is_there (chain_client r.customer_chain env.chain_clients)
succeeds env relayer_acceleration r = is_there (chain_client r.customer_chain env.chain_clients)
succeeds env top_up_link r = false
succeeds env _ r = true

-- The transaction that an action reports: a generated hash for a refund and for an acceleration that
-- succeed, and none for the others.
abbrev pub sends : Env → ResolutionAction → RecoveryCase → Option Name
sends env auto_refund r =
    if is_there (chain_client r.customer_chain env.chain_clients)
    then some (env.fresh_hash r.id)
    else none
sends env relayer_acceleration r =
    if is_there (chain_client r.customer_chain env.chain_clients)
    then some (env.fresh_hash r.id)
    else none
sends env _ r = none

-- A result names its action, whether it succeeded, and its transaction.
abbrev pub IsResultOf : Env → ResolutionAction → RecoveryCase → ResolutionResult → Type 0
IsResultOf env a r x = (x.action ≡ a) × (x.success ≡ succeeds env a r) × (x.tx_hash ≡ sends env a r)

execute-IsResultOf :
    (env : Env) (a : ResolutionAction) (r : RecoveryCase) (db : Cases)
    → IsResultOf env a r (execute env a r db)
unfolding execute execute_auto_refund execute_auto_credit execute_top_up_link execute_re_quote
    execute_fee_bump execute_relayer_acceleration generate_top_up_link link_of get_related_intent
execute-IsResultOf env auto_refund r db =
    elim (Option-cases (chain_client r.customer_chain env.chain_clients)) [
      | inl e ↦ rw e (refl, refl, refl)
      | inr (c, e) ↦ rw e (refl, refl, refl)
    ]
execute-IsResultOf env relayer_acceleration r db =
    elim (Option-cases (chain_client r.customer_chain env.chain_clients)) [
      | inl e ↦ rw e (refl, refl, refl)
      | inr (c, e) ↦ rw e (refl, refl, refl)
    ]
execute-IsResultOf env top_up_link r db = elim (Option-cases (case_with r.id db)) [
  | inl e ↦ rw e (refl, refl, refl)
  | inr (q, e) ↦ elim (Bool-cases (same_type q.case_type underpaid)) [
    | inl t ↦ rw (e, t) (refl, refl, refl)
    | inr t ↦ rw (e, t) (refl, refl, refl)
  ]
]
execute-IsResultOf env auto_credit r db = (refl, refl, refl)
execute-IsResultOf env re_quote r db = (refl, refl, refl)
execute-IsResultOf env fee_bump r db = (refl, refl, refl)

case_with-change_at :
    (id k : Name) (f : RecoveryCase → RecoveryCase) (db : Cases)
    → ((r : RecoveryCase) → (f r).id ≡ r.id)
    → (id == k) ≡ false
    → case_with k (change_at (λ r. r.id) id f db) ≡ case_with k db
case_with-change_at id k f db keeps other =
    find_at-change_at (λ r. r.id) id k f db keeps ∙ rw other refl

case_with-changed :
    (id now : ℕ) (p : UpdateRecoveryCaseParams) (r : RecoveryCase) (db : Cases)
    → case_with id db ≡ some r
    → case_with id (change_at (λ r. r.id) id (amended now p) db) ≡ some (amended now p r)
case_with-changed id now p r db e =
    find_at-change_at (λ r. r.id) id id (amended now p) db (λ r. refl) ∙ rw (==_self id, e) refl

update_case_lem :
    (id now : ℕ) (p : UpdateRecoveryCaseParams) (r : RecoveryCase) (db : Cases)
    → case_with id db ≡ some r
    → update_case id now p db ≡ (ok (amended now p r), change_at (λ r. r.id) id (amended now p) db)
unfolding update_case
update_case_lem id now p r db e = rw (update_case, e) (rw (case_with-changed id now p r db e) refl)

abbrev changed : Name → ℕ → UpdateRecoveryCaseParams → Cases → Cases
changed id now p = change_at (λ r. r.id) id (amended now p)

-- The two writes of a resolution.
resolve_lem :
    (env : Env) (id : Name) (a : ResolutionAction) (r : RecoveryCase) (db : Cases)
    → case_with id db ≡ some r
    → let started = changed id env.now (begun a) db in
      let x = execute env a r started in
      resolve env id a db ≡ (ok x, changed id env.now (ended env.now x) started)
unfolding resolve resolve_if resolve_found attempt
resolve_lem env id a r db e =
    let started = changed id env.now (begun a) db in
    let there = case_with-changed id env.now (begun a) r db e in
    rw (resolve, e)
      (rw (update_case_lem id env.now (begun a) r db e) (
        rw
          (update_case_lem id env.now (ended env.now (execute env a r started))
            (amended env.now (begun a) r) started there)
          refl))

-- The row of a case after an action: resolved with the time, or failed without; the action, and its
-- transaction if it has one; and the rest as before.
abbrev pub IsResolutionOf : Env → ResolutionAction → RecoveryCase → RecoveryCase → Type 0
IsResolutionOf env a r q =
    (q.status ≡ (if succeeds env a r then resolved else failed))
    × (q.resolved_at ≡ (if succeeds env a r then some env.now else none))
    × (q.resolution_action ≡ some a)
    × (q.resolution_tx_hash ≡ sends env a r)
    × (q.updated_at ≡ env.now)
    × (q.id ≡ r.id)
    × (q.related_intent_id ≡ r.related_intent_id)
    × (q.case_type ≡ r.case_type)
    × (q.customer_address ≡ r.customer_address)
    × (q.customer_chain ≡ r.customer_chain)
    × (q.intended_chain ≡ r.intended_chain)
    × (q.asset ≡ r.asset)
    × (q.amount ≡ r.amount)
    × (q.tx_hash ≡ r.tx_hash)
    × (q.created_at ≡ r.created_at)

ended-IsResolutionOf :
    (env : Env) (a : ResolutionAction) (r : RecoveryCase) (x : ResolutionResult)
    → IsResultOf env a r x
    → IsResolutionOf env a r (amended env.now (ended env.now x) (amended env.now (begun a) r))
ended-IsResolutionOf env a r x (_, success, sent) = (
  ap (λ b. if b then resolved else failed) success,
  ap (λ b. if b then some env.now else none) success,
  refl,
  sent,
  refl,
  refl,
  refl,
  refl,
  refl,
  refl,
  refl,
  refl,
  refl,
  refl,
  refl,
)

-- Resolving a case that is there, whatever its status and its type: the call returns a result of the
-- action, which succeeds exactly where the action can, without any proof of ownership. The row then has
-- the action and its transaction; it is resolved, with the time, where the action succeeded, and failed,
-- without one, where it did not. Its other fields stay, and no other row changes.
pub resolve_outcome :
    (env : Env) (id : Name) (a : ResolutionAction) (r : RecoveryCase) (db : Cases)
    → case_with id db ≡ some r
    → let (result, db') = resolve env id a db in
      ((x : ResolutionResult) × (result ≡ ok x) × IsResultOf env a r x)
      × ((q : RecoveryCase) × (case_with id db' ≡ some q) × IsResolutionOf env a r q)
      × ((k : Name) → (id == k) ≡ false → case_with k db' ≡ case_with k db)
resolve_outcome env id a r db e =
    let started = changed id env.now (begun a) db in
    let x = execute env a r started in
    let done = execute-IsResultOf env a r started in
    rw (resolve_lem env id a r db e) (
      (x, refl, done),
      (
        amended env.now (ended env.now x) (amended env.now (begun a) r),
        case_with-changed id env.now (ended env.now x) (amended env.now (begun a) r) started
            (case_with-changed id env.now (begun a) r db e),
        ended-IsResolutionOf env a r x done,
      ),
      λ k other.
          case_with-change_at id k (amended env.now (ended env.now x)) started (λ r. refl) other
          ∙ case_with-change_at id k (amended env.now (begun a)) db (λ r. refl) other,
    )
