-- ===== src/Intent/Repository/Histories.antt =====
-- Any order of repository writes, by any number of gateways and workers. Each write is one database
-- transaction, or one statement, so an interleaving of services is a sequence of writes.
use nexora_gateway.Prelude.{
  ℕ, ◌+◌, ◌<◌, ◌≡◌, refl, false, true, List, [], ◌∷◌, Option, none, some, inl, inr, arith, ◌==◌,
  Bool-cases, Option-cases, ◌⊎◌,
}
use nexora_gateway.Prelude.Int.{ℤ}
use nexora_gateway.Intent.State.{
  IntentState, EventType, created, settled, expired, failed, is_valid_transition,
  get_expected_next_state,
}
use nexora_gateway.Intent.Data.{Name, Payload, PaymentIntent, NewPaymentIntent, Store}
use nexora_gateway.Intent.Repository.{
  Deposit, find_row, put_row, new_row, log_event, create, transition, update_quote,
}
use nexora_gateway.Intent.Repository.Rows.{find_row-id, find_row-put_row}
use nexora_gateway.Intent.Repository.Outcome.{
  moved, quoted_row, transition_lem, create_lem, update_quote_lem,
}
use nexora_gateway.Intent.Repository.Trail.{
  View, view_of, IsConsistent, create-IsConsistent, transition-IsConsistent,
  update_quote-IsConsistent,
}

pub data Write : Type 0 where
  creates : Name → ℕ → NewPaymentIntent → Write
  transitions : Name → EventType → Payload → ℕ → Write
  quotes : Name → ℤ → ℕ → Option Deposit → ℕ → Write

unfoldable pub write : Write → Store → Store
write (creates id now new) db = (create id now new db).1
write (transitions id type payload now) db = (transition id type payload now db).1
write (quotes id rate expires_at deposit now) db =
    (update_quote id rate expires_at deposit now db).1

unfoldable pub write_all : List Write → Store → Store
unfolding write
write_all [] db = db
write_all (w ∷ ws) db = write_all ws (write w db)

write-IsConsistent : (w : Write) (db : Store) → IsConsistent db → IsConsistent (write w db)
unfolding write
write-IsConsistent (creates id now new) db c = create-IsConsistent id now new db c
write-IsConsistent (transitions id type payload now) db c =
    transition-IsConsistent id type payload now db c
write-IsConsistent (quotes id rate expires_at deposit now) db c =
    update_quote-IsConsistent id rate expires_at deposit now db c

-- After any sequence of writes, failed ones included, replaying the events of each intent gives
-- the state and the version in its row, and nothing for an id without a row, if that was so at
-- the start.
pub write_all-IsConsistent :
    (ws : List Write) (db : Store) → IsConsistent db → IsConsistent (write_all ws db)
unfolding write_all
write_all-IsConsistent [] db c = c
write_all-IsConsistent (w ∷ ws) db c =
    write_all-IsConsistent ws (write w db) (write-IsConsistent w db c)

-- How one write may change what the table says of an intent.
pub data Evolves : Option View → Option View → Type 0 where
  stays : {v : Option View} → Evolves v v
  begins : Evolves none (some (created, 1))
  moves :
      {s t : IntentState} {v : ℕ}
      → is_valid_transition s t ≡ true
      → Evolves (some (s, v)) (some (t, v + 1))

same_key :
    (id k : Name) (rows : List PaymentIntent) (row : PaymentIntent)
    → (id == k) ≡ true
    → find_row id rows ≡ some row
    → find_row k rows ≡ some row
same_key id k rows row same e = ground (arith, e)

put_row-Evolves :
    (id k : Name) (new row : PaymentIntent) (rows : List PaymentIntent)
    → new.id ≡ id
    → find_row id rows ≡ some row
    → Evolves (view_of (some row)) (view_of (some new))
    → Evolves (view_of (find_row k rows)) (view_of (find_row k (put_row id new rows)))
put_row-Evolves id k new row rows key e step =
    rw (find_row-put_row id k new rows row key e) (elim (Bool-cases (id == k)) [
      | inl same ↦ rw (same, same_key id k rows row same e) step
      | inr other ↦ rw other stays
    ])

new_row-Evolves :
    (id k now : ℕ) (new : NewPaymentIntent) (rows : List PaymentIntent)
    → find_row id rows ≡ none
    → Evolves (view_of (find_row k rows)) (view_of (find_row k (new_row id now new ∷ rows)))
unfolding find_row new_row
new_row-Evolves id k now new rows e = elim (Bool-cases (id == k)) [
  | inl same ↦ rw (same, fresh) begins
  | inr other ↦ rw other stays
]
  where
    fresh : (id == k) ≡ true → find_row k rows ≡ none
    fresh same = ground (arith, e)

-- One write leaves an intent's state and version, or creates it, or takes one permitted edge.
pub write-Evolves :
    (w : Write) (db : Store) (k : Name)
    → Evolves (view_of (find_row k db.intents)) (view_of (find_row k (write w db).intents))
unfolding write log_event
write-Evolves (creates id now new) db k =
    rw (write, create_lem id now new db)
      (elim (Option-cases (find_row id db.intents)) [
        | inl e ↦ rw e (new_row-Evolves id k now new db.intents e)
        | inr (row, e) ↦ rw e stays
      ])
write-Evolves (transitions id type payload now) db k =
    rw (write, transition_lem id type payload now db)
      (elim (Option-cases (find_row id db.intents)) [
        | inl e ↦ rw e stays
        | inr (row, e) ↦
            elim (Bool-cases (is_valid_transition row.state (get_expected_next_state type))) [
              | inl v ↦
                  rw (e, v)
                    (put_row-Evolves id k (moved type now row) row db.intents
                      (find_row-id id db.intents row e) e (moves v))
              | inr v ↦ rw (e, v) stays
            ]
      ])
write-Evolves (quotes id rate expires_at deposit now) db k =
    rw (write, update_quote_lem id rate expires_at deposit now db)
      (elim (Option-cases (find_row id db.intents)) [
        | inl e ↦ rw e stays
        | inr (row, e) ↦ rw e (
            put_row-Evolves id k (quoted_row rate expires_at deposit now row) row db.intents
              (find_row-id id db.intents row e) e stays)
      ])

abbrev pub IsFinal : IntentState → Type 0
IsFinal s = (s ≡ settled) ⊎ (s ≡ expired) ⊎ (s ≡ failed)

final_stuck : (s t : IntentState) → IsFinal s → is_valid_transition s t ≡ false
unfolding is_valid_transition
final_stuck s t (inl e) = rw e refl
final_stuck s t (inr (inl e)) = rw e refl
final_stuck s t (inr (inr e)) = rw e refl

Evolves-final :
    {v w : Option View} (s : IntentState) (n : ℕ)
    → Evolves v w
    → v ≡ some (s, n)
    → IsFinal s
    → w ≡ some (s, n)
Evolves-final s n stays e f = e
Evolves-final s n begins e f = cc
Evolves-final s n (moves {s = a} {t = b} valid) e f = cc (final_stuck s b f)

-- Settled, expired and failed are final: no sequence of writes changes the state or the version of
-- an intent that is in one of them.
pub write_all-final :
    (ws : List Write) (db : Store) (k : Name) (s : IntentState) (n : ℕ)
    → view_of (find_row k db.intents) ≡ some (s, n)
    → IsFinal s
    → view_of (find_row k (write_all ws db).intents) ≡ some (s, n)
unfolding write_all
write_all-final [] db k s n e f = e
write_all-final (w ∷ ws) db k s n e f =
    write_all-final ws (write w db) k s n (Evolves-final s n (write-Evolves w db k) e f) f

Evolves-version :
    {v w : Option View} (s : IntentState) (n : ℕ)
    → Evolves v w
    → v ≡ some (s, n)
    → (t : IntentState) × (m : ℕ) × (w ≡ some (t, m)) × (((m ≡ n) × (t ≡ s)) ⊎ (n < m))
Evolves-version s n stays e = (s, n, e, inl (refl, refl))
Evolves-version s n begins e = cc
Evolves-version s n (moves {t = b} valid) e = (b, n + 1, ground arith, inr (omega arith))

-- An intent with a state and a version still has a row after any sequence of writes, and that row
-- shows the same version and the same state, or a higher version.
pub write_all-version :
    (ws : List Write) (db : Store) (k : Name) (s : IntentState) (n : ℕ)
    → view_of (find_row k db.intents) ≡ some (s, n)
    → (t : IntentState) × (m : ℕ) × (view_of (find_row k (write_all ws db).intents) ≡ some (t, m))
      × (((m ≡ n) × (t ≡ s)) ⊎ (n < m))
unfolding write_all
write_all-version [] db k s n e = (s, n, e, inl (refl, refl))
write_all-version (w ∷ ws) db k s n e =
    let (t, m, e', step) = Evolves-version s n (write-Evolves w db k) e in
    let (u, j, e'', steps) = write_all-version ws (write w db) k t m e' in
    (u, j, e'', ground (arith, step, steps))
