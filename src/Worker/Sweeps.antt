-- ===== src/Worker/Sweeps.antt =====
-- Which confirmations a sweep of the tracker asks for.
use nexora_gateway.Prelude.{
  if◌then◌else◌, ℕ, zero, suc, ◌≤◌, ◌≡◌, ◌≢◌, refl, sym, ap, subst, ◌∙◌, List, [], ◌∷◌, Option,
  none, some, inl, inr, ◌⊎◌, arith, ◌==◌, ltb, Bool-cases, take, keep_if, All, Occurs, All-append,
}
use nexora_gateway.Intent.State.{detected, same_state, same_state_iff}
use nexora_gateway.Intent.Data.{Name, name, count, PaymentIntent, Store}
use nexora_gateway.Intent.Repository.{find_by_state, insert_by_updated_at, order_by_updated_at}
use nexora_gateway.Jobs.{
  Job, JobQueueOptions, EnqueueOptions, enqueue, new_job, has_idempotency_key,
}
use nexora_gateway.Jobs.Claims.{enqueue_old, enqueue_new}
use nexora_gateway.Worker.{job_deposit_confirm}
use nexora_gateway.Worker.Watcher.{Text}
use nexora_gateway.Worker.Tracker.{
  TxStatus, failed, ChainClient, Tracker, Finding, deep_enough, find_deposit_tx_hash, examine,
  confirm_task, act_on, examine_each, detected_rows, run_sweep, is_failed, judge_status, on_client,
  on_chain, later_or, client_at,
}

module _ (P : PaymentIntent → Type 0) where
  All-insert_by_updated_at :
      (x : PaymentIntent) (xs : List PaymentIntent)
      → P x
      → All P xs
      → All P (insert_by_updated_at x xs)
  unfolding insert_by_updated_at
  All-insert_by_updated_at x [] p a = (p, tt)
  All-insert_by_updated_at x (y ∷ ys) p a = ground (arith, All-insert_by_updated_at x ys p a.1)

  All-order_by_updated_at : (xs : List PaymentIntent) → All P xs → All P (order_by_updated_at xs)
  unfolding order_by_updated_at
  All-order_by_updated_at [] a = tt
  All-order_by_updated_at (x ∷ xs) a =
      All-insert_by_updated_at x (order_by_updated_at xs) a.0 (All-order_by_updated_at xs a.1)

  All-take_rows : (n : ℕ) (xs : List PaymentIntent) → All P xs → All P (take n xs)
  All-take_rows zero xs a = tt
  All-take_rows (suc n) [] a = tt
  All-take_rows (suc n) (x ∷ xs) a = (a.0, All-take_rows n xs a.1)

-- The client's answer on the deposit of an intent: not failed, and as deep as the chain asks.
abbrev pub IsDeep : List ChainClient → Store → PaymentIntent → Name → Name → ℕ → Type 0
IsDeep clients db row chain hash n =
    (client : ChainClient) × (s : TxStatus) × (row.deposit_chain ≡ some chain)
    × (find_deposit_tx_hash row.id db ≡ some hash)
    × (client_at chain clients ≡ some client)
    × (client.get_transaction_status hash ≡ some s)
    × (s.status ≢ failed)
    × (client.confirmation_depth ≤ s.confirmations)
    × (n ≡ s.confirmations)

later_or-cases :
    (o c : Option ChainClient) (d : ChainClient)
    → later_or o c ≡ some d
    → (o ≡ some d) ⊎ (c ≡ some d)
later_or-cases none c d h = inr h
later_or-cases (some e) c d h = inl h

client_at-key :
    (chain : Name) (clients : List ChainClient) (client : ChainClient)
    → client_at chain clients ≡ some client
    → client.chain_id ≡ chain
client_at-key chain [] client h = cc
client_at-key chain (c ∷ cs) client h =
    elim (later_or-cases (client_at chain cs) (if c.chain_id == chain then some c else none) client
      h) [ inl later ↦ client_at-key chain cs client later | inr here ↦ ground arith ]

judge_status-deep :
    (client : ChainClient) (hash c h : Name) (n : ℕ) (x : Option TxStatus)
    → judge_status client hash x ≡ deep_enough c h n
    → (s : TxStatus) × (x ≡ some s)
      × (s.status ≢ failed)
      × (client.confirmation_depth ≤ s.confirmations)
      × (n ≡ s.confirmations)
      × (hash ≡ h)
      × (client.chain_id ≡ c)
judge_status-deep client hash c h n none e = absurd (cc)
judge_status-deep client hash c h n (some s) e = elim (Bool-cases (is_failed s.status)) [
  | inl gone ↦ absurd (ground arith)
  | inr there ↦ elim (Bool-cases (ltb s.confirmations client.confirmation_depth)) [
    | inl shallow ↦ absurd (ground arith)
    | inr deep ↦
        (s, refl, (λ q. ground arith), ground arith, ground arith, ground arith, ground arith)
  ]
]

on_client-deep :
    (chain c h : Name) (n : ℕ) (clients : List ChainClient) (hash : Option Name)
    (x : Option ChainClient)
    → client_at chain clients ≡ x
    → on_client hash x ≡ deep_enough c h n
    → (client : ChainClient) × (s : TxStatus) × (hash ≡ some h)
      × (x ≡ some client)
      × (chain ≡ c)
      × (client.get_transaction_status h ≡ some s)
      × (s.status ≢ failed)
      × (client.confirmation_depth ≤ s.confirmations)
      × (n ≡ s.confirmations)
on_client-deep chain c h n clients hash none at e = absurd (cc)
on_client-deep chain c h n clients none (some client) at e = absurd (cc)
on_client-deep chain c h n clients (some k) (some client) at e =
    let (s, answer, there, deep, same, hash, of) =
      judge_status-deep client k c h n (client.get_transaction_status k) e in
    (
      client,
      s,
      ap some hash,
      refl,
      sym (client_at-key chain clients client at) ∙ of,
      subst (λ z. client.get_transaction_status z ≡ some s) hash answer,
      there,
      deep,
      same,
    )

examine-IsDeep :
    (clients : List ChainClient) (db : Store) (row : PaymentIntent) (c h : Name) (n : ℕ)
    → examine clients db row ≡ deep_enough c h n
    → IsDeep clients db row c h n
unfolding examine
examine-IsDeep clients db row c h n e = by_chain row.deposit_chain refl e
  where
    by_chain :
        (chain : Option Name)
        → row.deposit_chain ≡ chain
        → on_chain clients (find_deposit_tx_hash row.id db) chain ≡ deep_enough c h n
        → IsDeep clients db row c h n
    by_chain none q e = absurd (cc)
    by_chain (some chain) q e = elim (Bool-cases (chain == 0)) [
      | inl empty ↦ absurd (ground arith)
      | inr given ↦
          let enabled : on_client (find_deposit_tx_hash row.id db) (client_at chain clients)
              ≡ deep_enough c h n =
            ground arith in
          let (client, s, hash, at, same, answer, there, deep, seen) =
            on_client-deep chain c h n clients (find_deposit_tx_hash row.id db)
              (client_at chain clients) refl enabled in
          (
            client,
            s,
            (q ∙ ap some same),
            hash,
            subst (λ z. client_at z clients ≡ some client) same at,
            answer,
            there,
            deep,
            seen,
          )
    ]

-- A job that asks to confirm the deposit of an intent which the table holds as DETECTED, on its
-- client's word.
abbrev pub IsSupported : List ChainClient → Store → Job → Type 0
IsSupported clients db j =
    (row : PaymentIntent) × (chain : Name) × (hash : Name) × (n : ℕ) × Occurs row db.intents
    × (row.state ≡ detected)
    × IsDeep clients db row chain hash n
    × (j.job_type ≡ job_deposit_confirm)
    × (j.payload
        ≡ ("intentId", name row.id) ∷ ("txHash", name hash) ∷ ("confirmations", count n) ∷ [])

module _ (o : JobQueueOptions) (text : Text) (clients : List ChainClient) (fresh : Name → Name)
    (now : ℕ) (db : Store) (old : List Job) where
  abbrev Accounted : Job → Type 0
  Accounted j = Occurs j old ⊎ IsSupported clients db j

  enqueue-Accounted :
      (id : Name) (e : EnqueueOptions) (jobs : List Job)
      → Accounted (new_job o id now e)
      → All Accounted jobs
      → All Accounted (enqueue o id now e jobs).1
  enqueue-Accounted id e jobs new a =
      elim (Bool-cases (has_idempotency_key e.idempotency_key jobs)) [
        | inl there ↦ rw (enqueue_old o id now e jobs there) a
        | inr absent ↦
            rw (enqueue_new o id now e jobs absent)
              (All-append Accounted jobs (new_job o id now e ∷ []) a (new, tt))
      ]

  act_on-Accounted :
      (row : PaymentIntent) (x : Finding) (jobs : List Job)
      → examine clients db row ≡ x
      → Occurs row db.intents
      → row.state ≡ detected
      → All Accounted jobs
      → All Accounted (act_on o text (fresh row.id) now row x jobs)
  unfolding act_on confirm_task new_job
  act_on-Accounted row (deep_enough c h n) jobs e there s a =
      enqueue-Accounted (fresh row.id) (confirm_task text row.id c h n) jobs
        (inr (row, c, h, n, there, s, examine-IsDeep clients db row c h n e, refl, refl)) a
  act_on-Accounted row _ jobs e there s a = a

  abbrev IsDetectedRow : PaymentIntent → Type 0
  IsDetectedRow row = Occurs row db.intents × (row.state ≡ detected)

  examine_each-Accounted :
      (rows : List PaymentIntent) (s : Tracker × List Job)
      → All IsDetectedRow rows
      → All Accounted s.1
      → All Accounted (examine_each o text clients fresh now db rows s).1
  unfolding examine_each
  examine_each-Accounted [] s h a = a
  examine_each-Accounted (row ∷ rows) (t, jobs) ((there, d), hs) a =
      examine_each-Accounted rows _ hs
        (act_on-Accounted row (examine clients db row) jobs refl there d a)

  detected_rows-IsDetectedRow : (batch_size : ℕ) → All IsDetectedRow (detected_rows batch_size db)
  unfolding detected_rows find_by_state
  detected_rows-IsDetectedRow batch_size =
      All-take_rows IsDetectedRow batch_size
        (order_by_updated_at (keep_if (λ row. same_state row.state detected) db.intents))
        (All-order_by_updated_at IsDetectedRow
          (keep_if (λ row. same_state row.state detected) db.intents)
          (found db.intents (λ row o. o)))
    where
      found :
          (rows : List PaymentIntent)
          → ((row : PaymentIntent) → Occurs row rows → Occurs row db.intents)
          → All IsDetectedRow (keep_if (λ row. same_state row.state detected) rows)
      found [] h = tt
      found (row ∷ rows) h = elim (Bool-cases (same_state row.state detected)) [
        | inl e ↦ rw e (
          (h row (inl refl), (same_state_iff row.state detected).0 e),
          found rows (λ x o. h x (inr o)),
        )
        | inr e ↦ rw e (found rows (λ x o. h x (inr o)))
      ]

Occurs-self : (jobs : List Job) → All (λ j. Occurs j jobs) jobs
Occurs-self jobs = within jobs (λ j o. o)
  where
    within :
        (js : List Job) → ((j : Job) → Occurs j js → Occurs j jobs) → All (λ j. Occurs j jobs) js
    within [] h = tt
    within (j ∷ js) h = (h j (inl refl), within js (λ x o. h x (inr o)))

-- Every job after a sweep was there before it, or asks to confirm the deposit of an intent that the
-- table holds as DETECTED, whose transaction its chain's client reports as not failed and with at
-- least the confirmations that the chain asks for.
pub run_sweep-IsSupported :
    (o : JobQueueOptions) (text : Text) (clients : List ChainClient) (fresh : Name → Name)
    (batch_size now : ℕ) (db : Store) (t : Tracker) (jobs : List Job)
    → All
        (λ j. Occurs j jobs ⊎ IsSupported clients db j)
        (run_sweep o text clients fresh batch_size now db (t, jobs)).2
unfolding run_sweep
run_sweep-IsSupported o text clients fresh batch_size now db t jobs =
    examine_each-Accounted o text clients fresh now db jobs (detected_rows batch_size db) _
      (detected_rows-IsDetectedRow o text clients fresh now db jobs batch_size)
      (left jobs (Occurs-self jobs))
  where
    left :
        (js : List Job)
        → All (λ j. Occurs j jobs) js
        → All (λ j. Occurs j jobs ⊎ IsSupported clients db j) js
    left [] a = tt
    left (j ∷ js) (h, hs) = (inl h, left js hs)
