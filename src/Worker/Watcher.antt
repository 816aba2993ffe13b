-- ===== src/Worker/Watcher.antt =====
-- packages/worker/src/deposit-watcher.ts. The texts of identifiers are numbers, so joining texts,
-- the lower case of one and the number that one denotes are parameters. A refresh and an observed
-- transfer read the store of the intents and do not write it.
use nexora_gateway.Prelude.{
  ℕ, ◌+◌, ◌*◌, ◌/◌, ◌^◌, Bool, true, false, ◌&&◌, not, List, [], ◌∷◌, ◌++◌, Option, none, some,
  ◌==◌, if◌then◌else◌, keep_if, includes, length,
}
use nexora_gateway.Prelude.Int.{pos}
use nexora_gateway.Prelude.Action.{ok, err}
use nexora_gateway.Intent.Data.{
  Name, Value, null, name, amount, count, Payload, PaymentIntent, Store,
}
use nexora_gateway.Intent.Repository.{find_awaiting_deposit_at, find_awaiting_deposits}
use nexora_gateway.Jobs.{Job, JobQueueOptions, EnqueueOptions, enqueue}
use nexora_gateway.Worker.{queue_deposits, job_deposit_record, job_deposit_unattributed}

-- What the language and its texts provide: `join(':')`, `toLowerCase` and `Number(…)`, which is
-- `none` for a text that denotes no finite number. Amounts on a chain are whole numbers.
pub record Text : Type 0 where
  pub join : List Name → Name
  pub to_lower_case : Name → Name
  pub to_number : Name → Option ℕ

-- The texts 'deposit' and 'unattributed'.
abbrev deposit_text : Name
deposit_text = 1

abbrev unattributed_text : Name
unattributed_text = 2

pub record AssetInfo : Type 0 where
  pub address : Name
  pub symbol : Name
  pub decimals : ℕ

pub record DepositEvent : Type 0 where
  pub tx_hash : Name
  pub block_number : ℕ
  pub from : Name
  pub to : Name
  pub asset : AssetInfo
  pub amount : Name
  pub confirmations : ℕ

unfoldable pub deposit_idempotency_key : Text → Name → DepositEvent → Name
deposit_idempotency_key text chain event = text.join (
    deposit_text
    ∷ chain
    ∷ text.to_lower_case event.tx_hash
    ∷ text.to_lower_case event.to
    ∷ text.to_lower_case event.asset.address
    ∷ event.amount
    ∷ [])

-- Not a number is null in the stored payload. The quotient is cut to 10⁻⁸ units.
abbrev pub decimal_amount : Option ℕ → ℕ → Value
decimal_amount none decimals = null
decimal_amount (some n) decimals = amount (pos (n * 10 ^ 8 / 10 ^ decimals))

unfoldable pub normalize_amount : Text → Name → ℕ → Value
normalize_amount text n decimals = decimal_amount (text.to_number n) decimals

-- The watched addresses of each chain.
abbrev pub Subscriptions : Type 0
Subscriptions = List (Name × List Name)

pub record Watcher : Type 0 where
  pub subscriptions : Subscriptions
  pub started : Bool
  pub received : ℕ
  pub attributed : ℕ
  pub unattributed : ℕ
  pub last_event_at : Option ℕ

abbrev pub new_watcher : Watcher
new_watcher = record {
  subscriptions = [];
  started = false;
  received = 0;
  attributed = 0;
  unattributed = 0;
  last_event_at = none;
}

-- `this.subscriptions.get(chain) ?? new Map()`.
abbrev pub watched_on : Name → Subscriptions → List Name
watched_on chain [] = []
watched_on chain ((c, addresses) ∷ subs) = if c == chain then addresses else watched_on chain subs

-- `this.subscriptions.set(chain, addresses)`.
abbrev pub set_watched : Name → List Name → Subscriptions → Subscriptions
set_watched chain new [] = (chain, new) ∷ []
set_watched chain new ((c, addresses) ∷ subs) =
    if c == chain then (c, new) ∷ subs else (c, addresses) ∷ set_watched chain new subs

-- `!intent.deposit_address || !intent.deposit_chain` skips the intent.
abbrev pub add_wanted : Name → Option Name → Option Name → List Name → List Name
add_wanted chain (some c) (some address) rest =
    if not (address == 0) && not (c == 0) && c == chain then address ∷ rest else rest
add_wanted chain _ _ rest = rest

-- `byChain.get(chain) ?? new Set()`.
unfoldable pub wanted_on : Name → List PaymentIntent → List Name
wanted_on chain [] = []
wanted_on chain (row ∷ rows) =
    add_wanted chain row.deposit_chain row.deposit_address (wanted_on chain rows)

unfoldable pub add_new : List Name → List Name → List Name
add_new current [] = current
add_new current (address ∷ wanted) =
    if includes current address
    then add_new current wanted
    else add_new (current ++ address ∷ []) wanted

-- The subscriptions of one chain: first the new addresses, then those no longer wanted go.
unfoldable pub refresh_chain : List PaymentIntent → Name → Subscriptions → Subscriptions
unfolding wanted_on add_new
refresh_chain awaiting chain subs =
    let wanted = wanted_on chain awaiting in
    set_watched chain (keep_if (includes wanted) (add_new (watched_on chain subs) wanted)) subs

unfoldable pub refresh_chains : List PaymentIntent → List Name → Subscriptions → Subscriptions
unfolding refresh_chain
refresh_chains awaiting [] subs = subs
refresh_chains awaiting (chain ∷ chains) subs =
    refresh_chains awaiting chains (refresh_chain awaiting chain subs)

unfoldable pub awaited_rows : Store → List PaymentIntent
unfolding find_awaiting_deposits
awaited_rows db = elim (find_awaiting_deposits none db).0 [ ok rows ↦ rows | err e ↦ [] ]

-- `refresh`, for the chains of the configured clients.
unfoldable pub refresh : List Name → Store → Watcher → Watcher
unfolding awaited_rows refresh_chains
refresh chains db w = record w {
  subscriptions = refresh_chains (awaited_rows db) chains w.subscriptions;
}

unfoldable pub start : List Name → Store → Watcher → Watcher
unfolding refresh
start chains db w = if w.started then w else refresh chains db (record w { started = true })

unfoldable pub stop : Watcher → Watcher
stop w = record w { subscriptions = []; started = false }

abbrev pub sum_lengths : Subscriptions → ℕ
sum_lengths [] = 0
sum_lengths ((c, addresses) ∷ subs) = length addresses + sum_lengths subs

pub record DepositWatcherStats : Type 0 where
  pub watched_addresses : ℕ
  pub chains : ℕ
  pub received : ℕ
  pub attributed : ℕ
  pub unattributed : ℕ
  pub last_event_at : Option ℕ

unfoldable pub get_stats : Watcher → DepositWatcherStats
get_stats w = record {
  watched_addresses = sum_lengths w.subscriptions;
  chains = length w.subscriptions;
  received = w.received;
  attributed = w.attributed;
  unattributed = w.unattributed;
  last_event_at = w.last_event_at;
}

abbrev task : Name → Payload → Name → EnqueueOptions
task type payload key = record {
  job_type = type;
  payload = payload;
  idempotency_key = key;
  queue = queue_deposits;
  max_attempts = none;
  delay_ms = 0;
}

unfoldable pub unattributed_task : Text → Name → DepositEvent → EnqueueOptions
unfolding deposit_idempotency_key
unattributed_task text chain event =
    task job_deposit_unattributed
      (("chainId", name chain)
        ∷ ("address", name event.to)
        ∷ ("txHash", name event.tx_hash)
        ∷ ("amount", name event.amount)
        ∷ ("asset", name event.asset.symbol)
        ∷ ("blockNumber", count event.block_number)
        ∷ [])
      (text.join (deposit_idempotency_key text chain event ∷ unattributed_text ∷ []))

unfoldable pub record_task : Text → Name → DepositEvent → PaymentIntent → EnqueueOptions
unfolding deposit_idempotency_key normalize_amount
record_task text chain event intent =
    task job_deposit_record
      (("intentId", name intent.id)
        ∷ ("txHash", name event.tx_hash)
        ∷ ("amount", normalize_amount text event.amount event.asset.decimals)
        ∷ ("sourceChain", name chain)
        ∷ ("sourceAsset", name event.asset.symbol)
        ∷ ("blockNumber", count event.block_number)
        ∷ [])
      (deposit_idempotency_key text chain event)

abbrev pub counted : ℕ → Option PaymentIntent → Watcher → Watcher
counted now none w = record w {
  received = w.received + 1;
  unattributed = w.unattributed + 1;
  last_event_at = some now;
}
counted now (some intent) w = record w {
  received = w.received + 1;
  attributed = w.attributed + 1;
  last_event_at = some now;
}

abbrev pub task_of : Text → Name → DepositEvent → Option PaymentIntent → EnqueueOptions
task_of text chain event none = unattributed_task text chain event
task_of text chain event (some intent) = record_task text chain event intent

unfoldable pub awaiting_at : Name → Name → Store → Option PaymentIntent
unfolding find_awaiting_deposit_at
awaiting_at chain address db = elim (find_awaiting_deposit_at chain address db).0 [
  | ok found ↦ found
  | err e ↦ none
]

-- `onDeposit`. `id` is the one that the database generates for the job.
unfoldable pub on_deposit :
    JobQueueOptions
    → Text
    → Name
    → ℕ
    → Name
    → DepositEvent
    → Store
    → Watcher × List Job
    → Watcher × List Job
unfolding awaiting_at enqueue unattributed_task record_task
on_deposit o text id now chain event db (w, jobs) =
    let found = awaiting_at chain event.to db in
    (counted now found w, (enqueue o id now (task_of text chain event found) jobs).1)
