-- ===== src/Intent/Repository/Refinement.antt =====
-- The repository against an abstract machine that keeps a state and a version for each intent and
-- neither rows nor a log.
use nexora_gateway.Prelude.{
  ℕ, ◌+◌, ◌≡◌, refl, sym, ap, ◌∙◌, true, List, [], ◌∷◌, Option, none, some, inl, inr, arith, ◌==◌,
  if◌then◌else◌, Bool-cases, Option-cases,
}
use nexora_gateway.Intent.State.{IntentState, created, is_valid_transition, get_expected_next_state}
use nexora_gateway.Intent.Data.{Name, PaymentIntent, NewPaymentIntent, Store}
use nexora_gateway.Intent.Repository.{find_row, put_row, new_row, log_event}
use nexora_gateway.Intent.Repository.Rows.{find_row-id, find_row-put_row}
use nexora_gateway.Intent.Repository.Outcome.{
  moved, quoted_row, transition_lem, create_lem, update_quote_lem,
}
use nexora_gateway.Intent.Repository.Trail.{View, view_of}
use nexora_gateway.Intent.Repository.Histories.{
  Write, creates, transitions, quotes, write, write_all,
}

-- The abstract state: what is known of each identifier.
abbrev pub Board : Type 0
Board = Name → Option View

abbrev pub seen : Store → Board
seen db k = view_of (find_row k db.intents)

abbrev begun : Option View → Option View
begun none = some (created, 1)
begun (some v) = some v

abbrev pushed : IntentState → Option View → Option View
pushed next none = none
pushed next (some (s, v)) = if is_valid_transition s next then some (next, v + 1) else some (s, v)

-- A creation begins an unknown intent, a transition takes a permitted edge, a quote is not seen.
-- Anything else changes nothing.
abbrev pub spec_write : Write → Board → Board
spec_write (creates id now new) f k = if id == k then begun (f id) else f k
spec_write (transitions id type payload now) f k =
    if id == k then pushed (get_expected_next_state type) (f id) else f k
spec_write (quotes id rate expires_at deposit now) f k = f k

abbrev pub spec_write_all : List Write → Board → Board
spec_write_all [] f = f
spec_write_all (w ∷ ws) f = spec_write_all ws (spec_write w f)

same_seen :
    (id k : Name) (rows : List PaymentIntent)
    → (id == k) ≡ true
    → view_of (find_row k rows) ≡ view_of (find_row id rows)
same_seen id k rows same = ground arith

put_row_seen :
    (id k : Name) (new row : PaymentIntent) (rows : List PaymentIntent)
    → new.id ≡ id
    → find_row id rows ≡ some row
    → view_of (find_row k (put_row id new rows))
      ≡ (if id == k then view_of (some new) else view_of (find_row k rows))
put_row_seen id k new row rows key e =
    rw (find_row-put_row id k new rows row key e)
      (elim (Bool-cases (id == k)) [ inl same ↦ rw same refl | inr other ↦ rw other refl ])

-- What is not written stays as it was, whether or not it is the identifier in question.
unchanged : (id k : Name) (db : Store) → seen db k ≡ (if id == k then seen db id else seen db k)
unchanged id k db = elim (Bool-cases (id == k)) [
  | inl same ↦ rw same (same_seen id k db.intents same)
  | inr other ↦ rw other refl
]

new_row_seen :
    (id k : Name) (now : ℕ) (new : NewPaymentIntent) (rows : List PaymentIntent)
    → view_of (find_row k (new_row id now new ∷ rows))
      ≡ (if id == k then some (created, 1) else view_of (find_row k rows))
unfolding find_row new_row
new_row_seen id k now new rows = elim (Bool-cases (id == k)) [
  | inl same ↦ rw same refl
  | inr other ↦ rw other refl
]

pub seen-write :
    (w : Write) (db : Store) (k : Name) → seen (write w db) k ≡ spec_write w (seen db) k
unfolding write log_event
seen-write (creates id now new) db k =
    rw (write, create_lem id now new db)
      (elim (Option-cases (find_row id db.intents)) [
        | inl e ↦ rw e (new_row_seen id k now new db.intents)
        | inr (row, e) ↦ rw e (unchanged id k db ∙ rw e refl)
      ])
seen-write (transitions id type payload now) db k =
    rw (write, transition_lem id type payload now db)
      (elim (Option-cases (find_row id db.intents)) [
        | inl e ↦ rw e (unchanged id k db ∙ rw e refl)
        | inr (row, e) ↦
            elim (Bool-cases (is_valid_transition row.state (get_expected_next_state type))) [
              | inl v ↦
                  rw (e, v)
                    (put_row_seen id k (moved type now row) row db.intents
                      (find_row-id id db.intents row e) e)
              | inr v ↦ rw (e, v) (unchanged id k db ∙ rw e refl)
            ]
      ])
seen-write (quotes id rate expires_at deposit now) db k =
    rw (write, update_quote_lem id rate expires_at deposit now db)
      (elim (Option-cases (find_row id db.intents)) [
        | inl e ↦ rw e refl
        | inr (row, e) ↦ rw e (
            put_row_seen id k (quoted_row rate expires_at deposit now row) row db.intents
              (find_row-id id db.intents row e) e
            ∙ sym (unchanged id k db ∙ rw e refl))
      ])

-- Any sequence of writes, seen as a state and a version for each identifier, is the run of the
-- abstract machine from what was seen at the start.
pub write_all_refines :
    (ws : List Write) (db : Store) → seen (write_all ws db) ≡ spec_write_all ws (seen db)
unfolding write_all
write_all_refines [] db = refl
write_all_refines (w ∷ ws) db =
    write_all_refines ws (write w db) ∙ ap (spec_write_all ws) (λ i k. seen-write w db k i)
