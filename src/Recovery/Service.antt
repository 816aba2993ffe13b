-- ===== src/Recovery/Service.antt =====
-- packages/recovery/src/recovery.service.ts: the resolution of a case, its six actions, the top-up link
-- and the stuck transactions. Messages are constructors.
use nexora_gateway.Prelude.{
  ℕ, ◌+◌, ◌*◌, Bool, true, false, List, [], ◌∷◌, Option, none, some, if◌then◌else◌,
}
use nexora_gateway.Prelude.Int.{ℤ, ◌-ℤ◌}
use nexora_gateway.Prelude.Action.{Result, ok, err, ◌>>=◌, ◌>>◌, catching, pure, gets}
use nexora_gateway.Intent.Data.{Name, PaymentIntent}
use nexora_gateway.Recovery.{
  underpaid, resolving, resolved, failed, ResolutionAction, auto_refund, auto_credit, top_up_link,
  re_quote, fee_bump, relayer_acceleration, RecoveryCase, UpdateRecoveryCaseParams, RecoveryError,
  Cases, Method, case_with, update_case, same_type, find_stuck_transactions,
}
use nexora_gateway.Recovery.Detection.{ChainClient, Env, chain_client}

pub data Message : Type 0 where
  recovery_case_not_found no_chain_client : Name → Message
  refund_sent merchant_credited re_quoted : ℤ → Name → Message
  top_up_link_failed : Message
  top_up_link_generated : Name → ℕ → Message
  fee_bump_initiated acceleration_submitted : Option Name → Message
  thrown : RecoveryError → Message

pub record ResolutionResult : Type 0 where
  pub action : ResolutionAction
  pub success : Bool
  pub tx_hash : Option Name
  pub message : Message

abbrev pub outcome : ResolutionAction → Bool → Option Name → Message → ResolutionResult
outcome a success hash m = record { action = a; success = success; tx_hash = hash; message = m }

-- `executeAutoRefund` and `executeRelayerAcceleration` ask for a client of the customer's chain.
abbrev on_client : Option ChainClient → ResolutionAction → Name → Name → Message → ResolutionResult
on_client none a chain hash m = outcome a false none (no_chain_client chain)
on_client (some c) a chain hash m = outcome a true (some hash) m

unfoldable pub execute_auto_refund : Env → RecoveryCase → ResolutionResult
unfolding chain_client
execute_auto_refund env r =
    on_client (chain_client r.customer_chain env.chain_clients) auto_refund r.customer_chain
      (env.fresh_hash r.id) (refund_sent r.amount r.customer_address)

unfoldable pub execute_auto_credit : RecoveryCase → ResolutionResult
execute_auto_credit r = outcome auto_credit true none (merchant_credited r.amount r.asset)

unfoldable pub execute_re_quote : RecoveryCase → ResolutionResult
execute_re_quote r = outcome re_quote true none (re_quoted r.amount r.asset)

unfoldable pub execute_fee_bump : RecoveryCase → ResolutionResult
execute_fee_bump r = outcome fee_bump true none (fee_bump_initiated r.tx_hash)

unfoldable pub execute_relayer_acceleration : Env → RecoveryCase → ResolutionResult
unfolding chain_client
execute_relayer_acceleration env r =
    on_client (chain_client r.customer_chain env.chain_clients) relayer_acceleration
      r.customer_chain (env.fresh_hash r.id) (acceleration_submitted r.tx_hash)

-- It is null for every case.
unfoldable pub get_related_intent : RecoveryCase → Option PaymentIntent
get_related_intent r = none

pub record TopUpLink : Type 0 where
  pub recovery_case_id : Name
  pub amount : ℤ
  pub asset : Name
  pub chain : Name
  pub address : Name
  pub expires_at : ℕ
  pub created_at : ℕ

abbrev link_for : Env → Name → RecoveryCase → Option PaymentIntent → Option TopUpLink
link_for env id r none = none
link_for env id r (some intent) = some (record {
  recovery_case_id = id;
  amount = intent.target_amount -ℤ r.amount;
  asset = r.asset;
  chain = r.customer_chain;
  address = env.fresh_hash id;
  expires_at = env.now + env.top_up_link_ttl_seconds * 1000;
  created_at = env.now;
})

unfoldable pub link_of : Env → Name → Option RecoveryCase → Option TopUpLink
unfolding get_related_intent
link_of env id none = none
link_of env id (some r) =
    if same_type r.case_type underpaid then link_for env id r (get_related_intent r) else none

unfoldable pub generate_top_up_link : Env → Name → Cases → Option TopUpLink
unfolding link_of
generate_top_up_link env id db = link_of env id (case_with id db)

abbrev linked : Option TopUpLink → ResolutionResult
linked none = outcome top_up_link false none top_up_link_failed
linked (some l) = outcome top_up_link true none (top_up_link_generated l.address l.expires_at)

unfoldable pub execute_top_up_link : Env → RecoveryCase → Cases → ResolutionResult
unfolding generate_top_up_link
execute_top_up_link env r db = linked (generate_top_up_link env r.id db)

-- The switch of `resolve`.
unfoldable pub execute : Env → ResolutionAction → RecoveryCase → Cases → ResolutionResult
unfolding execute_auto_refund execute_auto_credit execute_top_up_link execute_re_quote
    execute_fee_bump execute_relayer_acceleration
execute env auto_refund r db = execute_auto_refund env r
execute env auto_credit r db = execute_auto_credit r
execute env top_up_link r db = execute_top_up_link env r db
execute env re_quote r db = execute_re_quote r
execute env fee_bump r db = execute_fee_bump r
execute env relayer_acceleration r db = execute_relayer_acceleration env r

abbrev pub begun : ResolutionAction → UpdateRecoveryCaseParams
begun a = record {
  status = some resolving;
  resolution_action = some a;
  resolution_tx_hash = none;
  resolved_at = none;
}

abbrev pub ended : ℕ → ResolutionResult → UpdateRecoveryCaseParams
ended now x = record {
  status = some (if x.success then resolved else failed);
  resolution_action = none;
  resolution_tx_hash = some x.tx_hash;
  resolved_at = some (if x.success then some now else none);
}

abbrev broken : UpdateRecoveryCaseParams
broken = record {
  status = some failed;
  resolution_action = none;
  resolution_tx_hash = none;
  resolved_at = none;
}

-- The body of the `try`.
unfoldable pub attempt : Env → Name → ResolutionAction → RecoveryCase → Method ResolutionResult
unfolding update_case execute
attempt env id a r = do
  result ← gets (execute env a r)
  update_case id env.now (ended env.now result)
  pure result

-- Its `catch`.
unfoldable pub give_up : Env → Name → ResolutionAction → RecoveryError → Method ResolutionResult
unfolding update_case
give_up env id a e = update_case id env.now broken >> pure (outcome a false none (thrown e))

-- `resolve` of a case that was found.
unfoldable pub resolve_found :
    Env → Name → ResolutionAction → RecoveryCase → Method ResolutionResult
unfolding update_case attempt give_up
resolve_found env id a r =
    update_case id env.now (begun a) >> catching (attempt env id a r) (give_up env id a)

unfoldable pub resolve_if :
    Env → Name → ResolutionAction → Option RecoveryCase → Method ResolutionResult
unfolding resolve_found
resolve_if env id a none = pure (outcome a false none (recovery_case_not_found id))
resolve_if env id a (some r) = resolve_found env id a r

unfoldable pub resolve : Env → Name → ResolutionAction → Method ResolutionResult
unfolding resolve_if
resolve env id a = do found ← gets (case_with id); resolve_if env id a found

-- `processStuckTransactions`: an error of one case is left behind.
abbrev succeeded : Result RecoveryError ResolutionResult → ℕ
succeeded (ok x) = if x.success then 1 else 0
succeeded (err e) = 0

unfoldable pub accelerate_each : Env → List RecoveryCase → Cases → ℕ × Cases
unfolding resolve
accelerate_each env [] db = (0, db)
accelerate_each env (r ∷ rs) db =
    let (result, db') = resolve env r.id relayer_acceleration db in
    let (n, db'') = accelerate_each env rs db' in (succeeded result + n, db'')

unfoldable pub process_stuck_transactions : Env → Cases → ℕ × Cases
unfolding find_stuck_transactions accelerate_each
process_stuck_transactions env db =
    accelerate_each env (find_stuck_transactions env.stuck_transaction_timeout_ms env.now db) db
