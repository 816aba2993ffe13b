-- ===== src/Worker/Tracker.antt =====
-- packages/worker/src/confirmation-tracker.ts. A sweep reads the store of the intents and does not
-- write it. A chain client is its identifier, its depth and its answers.
use nexora_gateway.Prelude.{
  ℕ, ◌+◌, Bool, true, false, List, [], ◌∷◌, Option, none, some, ◌==◌, ltb, if◌then◌else◌, length,
}
use nexora_gateway.Prelude.Action.{ok, err}
use nexora_gateway.Intent.State.{detected, deposit_detected, same_event}
use nexora_gateway.Intent.Data.{Name, name, count, field_of, PaymentIntent, IntentEvent, Store}
use nexora_gateway.Intent.Repository.{find_by_state, trail}
use nexora_gateway.Jobs.{Job, JobQueueOptions, EnqueueOptions, enqueue}
use nexora_gateway.Worker.{queue_deposits, job_deposit_confirm}
use nexora_gateway.Worker.Handlers.{string_of}
use nexora_gateway.Worker.Watcher.{Text}

pub data TxStatusState : Type 0 where
  pending confirming confirmed failed : TxStatusState

pub record TxStatus : Type 0 where
  pub status : TxStatusState
  pub confirmations : ℕ

pub record ChainClient : Type 0 where
  pub chain_id : Name
  pub confirmation_depth : ℕ
  pub get_transaction_status : Name → Option TxStatus  -- none where the call throws

pub record Tracker : Type 0 where
  pub sweeps : ℕ
  pub examined : ℕ
  pub confirmed : ℕ
  pub awaiting : ℕ
  pub last_sweep_at : Option ℕ

abbrev hash_in : IntentEvent → Option Name
hash_in e =
    if same_event e.event_type deposit_detected
    then string_of (field_of "tx_hash" e.payload)
    else none

abbrev or_else : Option Name → Option Name → Option Name
or_else none b = b
or_else (some a) b = some a

-- `findDepositTxHash`: of the events in order, the last that has a hash.
unfoldable pub last_hash : List IntentEvent → Option Name
last_hash [] = none
last_hash (e ∷ es) = or_else (last_hash es) (hash_in e)

unfoldable pub find_deposit_tx_hash : Name → Store → Option Name
unfolding last_hash
find_deposit_tx_hash id db = last_hash (trail id db.events)

-- Why the sweep leaves an intent alone, or the confirmations that it has found.
pub data Finding : Type 0 where
  no_chain chain_not_enabled no_hash lookup_failed transaction_failed too_shallow : Finding
  deep_enough : Name → Name → ℕ → Finding

abbrev pub is_failed : TxStatusState → Bool
is_failed failed = true
is_failed _ = false

abbrev pub judge_status : ChainClient → Name → Option TxStatus → Finding
judge_status client hash none = lookup_failed
judge_status client hash (some s) =
    if is_failed s.status
    then transaction_failed
    else if ltb s.confirmations client.confirmation_depth
    then too_shallow
    else deep_enough client.chain_id hash s.confirmations

abbrev pub look_up : ChainClient → Option Name → Finding
look_up client none = no_hash
look_up client (some hash) = judge_status client hash (client.get_transaction_status hash)

abbrev pub on_client : Option Name → Option ChainClient → Finding
on_client hash none = chain_not_enabled
on_client hash (some client) = look_up client hash

abbrev pub later_or : Option ChainClient → Option ChainClient → Option ChainClient
later_or none c = c
later_or (some d) c = some d

-- `chainIndex.get`: of two clients with one identifier, the Map keeps the later.
abbrev pub client_at : Name → List ChainClient → Option ChainClient
client_at chain [] = none
client_at chain (c ∷ cs) =
    later_or (client_at chain cs) (if c.chain_id == chain then some c else none)

abbrev pub on_chain : List ChainClient → Option Name → Option Name → Finding
on_chain clients hash none = no_chain
on_chain clients hash (some chain) =
    if chain == 0 then no_chain else on_client hash (client_at chain clients)

-- The tests of the loop's body, in its order.
unfoldable pub examine : List ChainClient → Store → PaymentIntent → Finding
unfolding find_deposit_tx_hash
examine clients db intent =
    on_chain clients (find_deposit_tx_hash intent.id db) intent.deposit_chain

-- The text 'confirm'.
abbrev confirm_text : Name
confirm_text = 3

unfoldable pub confirm_task : Text → Name → Name → Name → ℕ → EnqueueOptions
confirm_task text id chain hash confirmations = record {
  job_type = job_deposit_confirm;
  payload =
      ("intentId", name id) ∷ ("txHash", name hash) ∷ ("confirmations", count confirmations) ∷ [];
  idempotency_key = text.join (confirm_text ∷ chain ∷ hash ∷ []);
  queue = queue_deposits;
  max_attempts = none;
  delay_ms = 0;
}

abbrev tally : Finding → Tracker → Tracker
tally too_shallow t = record t { examined = t.examined + 1; awaiting = t.awaiting + 1 }
tally (deep_enough _ _ _) t = record t { examined = t.examined + 1; confirmed = t.confirmed + 1 }
tally _ t = record t { examined = t.examined + 1 }

-- What a finding does to the queue. `id` is the one that the database generates.
unfoldable pub act_on :
    JobQueueOptions → Text → Name → ℕ → PaymentIntent → Finding → List Job → List Job
unfolding enqueue confirm_task
act_on o text id now intent (deep_enough chain hash n) jobs =
    (enqueue o id now (confirm_task text intent.id chain hash n) jobs).1
act_on o text id now intent _ jobs = jobs

-- The loop. `fresh` gives the generated id of an intent's job.
unfoldable pub examine_each :
    JobQueueOptions
    → Text
    → List ChainClient
    → (Name → Name)
    → ℕ
    → Store
    → List PaymentIntent
    → Tracker × List Job
    → Tracker × List Job
unfolding examine act_on
examine_each o text clients fresh now db [] s = s
examine_each o text clients fresh now db (intent ∷ rest) (t, jobs) =
    let finding = examine clients db intent in
    examine_each o text clients fresh now db rest
      (tally finding t, act_on o text (fresh intent.id) now intent finding jobs)

abbrev begin_sweep : ℕ → Tracker → Tracker
begin_sweep now t = record t { sweeps = t.sweeps + 1; last_sweep_at = some now }

unfoldable pub detected_rows : ℕ → Store → List PaymentIntent
unfolding find_by_state
detected_rows batch_size db = elim (find_by_state detected batch_size db).0 [
  | ok rows ↦ rows
  | err e ↦ []
]

-- `runOnce`, with the number of intents examined.
unfoldable pub run_sweep :
    JobQueueOptions
    → Text
    → List ChainClient
    → (Name → Name)
    → ℕ
    → ℕ
    → Store
    → Tracker × List Job
    → ℕ × Tracker × List Job
unfolding detected_rows examine_each
run_sweep o text clients fresh batch_size now db (t, jobs) =
    let rows = detected_rows batch_size db in
    let (t', jobs') = examine_each o text clients fresh now db rows (begin_sweep now t, jobs) in
    (length rows, t', jobs')
