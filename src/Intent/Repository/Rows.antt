-- ===== src/Intent/Repository/Rows.antt =====
-- Finding and replacing a row by its primary key, and the log of one intent.
use nexora_gateway.Prelude.{
  ◌≡◌, ◌++◌, List, [], ◌∷◌, some, arith, ◌==◌, if◌then◌else◌, keep_if-append,
}
use nexora_gateway.Intent.Data.{Name, PaymentIntent, IntentEvent}
use nexora_gateway.Intent.Repository.{find_row, put_row, trail}

pub find_row-id :
    (id : Name) (rows : List PaymentIntent) (row : PaymentIntent)
    → find_row id rows ≡ some row
    → row.id ≡ id
unfolding find_row
find_row-id id [] row h = cc
find_row-id id (r ∷ rows) row h = ground (arith, find_row-id id rows row)

-- A replaced row is found under its own key, and every other row as before.
pub find_row-put_row :
    (id k : Name) (new : PaymentIntent) (rows : List PaymentIntent) (old : PaymentIntent)
    → new.id ≡ id
    → find_row id rows ≡ some old
    → find_row k (put_row id new rows) ≡ (if id == k then some new else find_row k rows)
unfolding find_row put_row
find_row-put_row id k new [] old e h = cc
find_row-put_row id k new (r ∷ rows) old e h = ground (arith, find_row-put_row id k new rows old e)

pub trail-append :
    (k : Name) (es : List IntentEvent) (e : IntentEvent)
    → trail k (es ++ e ∷ []) ≡ trail k es ++ (if e.intent_id == k then e ∷ [] else [])
trail-append k es e = keep_if-append (λ e. e.intent_id == k) es (e ∷ [])
