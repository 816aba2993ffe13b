-- ===== src/Reconciliation/Passing.antt =====
-- Each check's test against what the specification says of one row.
use nexora_gateway.Prelude.{
  ℕ, ◌≡◌, ◌↔◌, ◌⊎◌, refl, sym, subst, Bool, true, false, ◌&&◌, not, List, [], ◌∷◌, Option, none,
  some, arith, ◌==◌, if◌then◌else◌, All, AnyOf, ==_iff,
}
use nexora_gateway.Prelude.Selections.{append-none, any_of_iff}
use nexora_gateway.Prelude.Int.{ℤ, pos, ◌+ℤ◌, ◌-ℤ◌, scale, ◌≤ℤ◌}
use nexora_gateway.Intent.State.{settled, same_state, same_state_iff}
use nexora_gateway.Intent.Data.{Name, PaymentIntent, MerchantConfig}
use nexora_gateway.Intent.Repository.{find_row}
use nexora_gateway.Ledger.{EntryType, settlement, abs}
use nexora_gateway.Settlement.Repository.{Settlement, SettlementStatus, completed}
use nexora_gateway.Reconciliation.{Tables, Window, within, within?, Discrepancy}
use nexora_gateway.Reconciliation.Checks.{
  lacks_settlement, has_settlement, is_completed, paid_in, is_off, mismatch_of, merchant_of,
  mismatch, mismatches, has_entry, is_settlement, lacks_entry, is_imbalanced, expected_amount,
  deviation,
}
use nexora_gateway.Reconciliation.Spec.{InWindow, PaidIn, IsCovered, Matches, IsExact, IsBooked}

implied : (a b c : Bool) → ((a && not b && c) ≡ false) ↔ (a ≡ true → c ≡ true → b ≡ true)
implied true true c = (λ h x y. refl, λ f. refl)
implied true false true = (λ h x y. absurd (cc), λ f. sym (f refl refl))
implied true false false = (λ h x y. absurd (cc), λ f. refl)
implied false b c = (λ h x y. absurd (cc), λ f. refl)

within_iff : (p : Window) (t : ℕ) → (within p t ≡ true) ↔ InWindow p t
within_iff p t = ground arith

is_completed_iff : (s : SettlementStatus) → (is_completed s ≡ true) ↔ (s ≡ completed)
is_completed_iff completed = (λ h. refl, λ h. refl)
is_completed_iff _ = (λ h. absurd (cc), λ h. absurd (cc))

is_settlement_iff : (t : EntryType) → (is_settlement t ≡ true) ↔ (t ≡ settlement)
is_settlement_iff settlement = (λ h. refl, λ h. refl)
is_settlement_iff _ = (λ h. absurd (cc), λ h. absurd (cc))

both : (a b : Bool) → ((a && b) ≡ true) ↔ ((a ≡ true) × (b ≡ true))
both a b = ground arith

within?_iff :
    (p : Window) (o : Option ℕ) → (within? p o ≡ true) ↔ ((t : ℕ) × (o ≡ some t) × InWindow p t)
within?_iff p none = (λ h. absurd (cc), λ h. absurd (nothing h.0 h.1))
  where
    nothing : (t : ℕ) → Path (Option ℕ) none (some t) → ⊥
    nothing t e = cc
within?_iff p (some t) = (
  (λ h. (t, refl, (within_iff p t).0 h)),
  (λ h. (within_iff p t).1 (subst (InWindow p) (sym (same h.0 h.1)) h.2)),
)
  where
    same : (u : ℕ) → Path (Option ℕ) (some t) (some u) → t ≡ u
    same u e = cc

paid_in_iff : (p : Window) (s : Settlement) → (paid_in p s ≡ true) ↔ PaidIn p s
paid_in_iff p s = (
  (λ h.
      let (c, w) = (both (is_completed s.status) (within? p s.completed_at)).0 h in
      let (t, e, i) = (within?_iff p s.completed_at).0 w in
      ((is_completed_iff s.status).0 c, t, e, i)),
  (λ h.
      (both (is_completed s.status) (within? p s.completed_at)).1
        ((is_completed_iff s.status).1 h.0, (within?_iff p s.completed_at).1 (h.1, h.2, h.3))),
)

has_settlement_iff :
    (settlements : List Settlement) (id : Name)
    → (has_settlement settlements id ≡ true) ↔ AnyOf (λ s. s.intent_id ≡ id) settlements
has_settlement_iff settlements id =
    any_of_iff (λ s. s.intent_id == id) (λ s. s.intent_id ≡ id) settlements
      (λ s. ==_iff s.intent_id id)

pub lacks_settlement_iff :
    (p : Window) (db : Tables) (row : PaymentIntent)
    → (lacks_settlement p db row ≡ false) ↔ IsCovered p db row
unfolding lacks_settlement
lacks_settlement_iff p db row =
    let i =
      implied (same_state row.state settled) (has_settlement db.settlements row.id)
        (within p row.updated_at) in
    let st = same_state_iff row.state settled in
    let w = within_iff p row.updated_at in
    let has = has_settlement_iff db.settlements row.id in
    ((λ h a b. has.0 (i.0 h (st.1 a) (w.1 b))), (λ f. i.1 (λ a b. has.1 (f (st.0 a) (w.0 b)))))

has_entry_iff :
    (db : Tables) (s : Settlement) → (has_entry db.ledger s.intent_id ≡ true) ↔ IsBooked db s
has_entry_iff db s =
    any_of_iff (λ e. e.intent_id == s.intent_id && is_settlement e.entry_type)
      (λ e. (e.intent_id ≡ s.intent_id) × (e.entry_type ≡ settlement)) db.ledger
      (λ e.
        let b = both (e.intent_id == s.intent_id) (is_settlement e.entry_type) in
        let i = ==_iff e.intent_id s.intent_id in
        let t = is_settlement_iff e.entry_type in
        ((λ h. (i.0 (b.0 h).0, t.0 (b.0 h).1)), (λ h. b.1 (i.1 h.0, t.1 h.1))))

implied_by : (a b : Bool) → ((a && not b) ≡ false) ↔ (a ≡ true → b ≡ true)
implied_by true true = (λ h x. refl, λ f. refl)
implied_by true false = (λ h x. absurd (cc), λ f. sym (f refl))
implied_by false b = (λ h x. absurd (cc), λ f. refl)

pub lacks_entry_iff :
    (p : Window) (db : Tables) (s : Settlement)
    → (lacks_entry p db s ≡ false) ↔ (PaidIn p s → IsBooked db s)
unfolding lacks_entry
lacks_entry_iff p db s =
    let i = implied_by (paid_in p s) (has_entry db.ledger s.intent_id) in
    let paid = paid_in_iff p s in
    let has = has_entry_iff db s in
    ((λ h a. has.0 (i.0 h (paid.1 a))), (λ f. i.1 (λ a. has.1 (f (paid.0 a)))))

exact_iff :
    (row : PaymentIntent) (m : MerchantConfig) (s : Settlement)
    → (is_off row m s ≡ false) ↔ (scale 10000 (abs (deviation row m s)) ≤ℤ expected_amount row m)
unfolding is_off
exact_iff row m s = ground arith

pub one_iff :
    (t : Bool) (d : Discrepancy) (P : Type 0)
    → (t ≡ false) ↔ P
    → ((if t then d ∷ [] else []) ≡ []) ↔ P
one_iff true d P h = (λ e. absurd (cc), λ q. absurd (clash (h.1 q)))
  where
    clash : true ≡ false → ⊥
    clash e = cc
one_iff false d P h = (λ e. h.0 refl, λ q. refl)

mismatch_of_iff :
    (id : Name) (now : ℕ) (s : Settlement) (row : Option PaymentIntent) (m : Option MerchantConfig)
    → (mismatch_of id now s row m ≡ []) ↔ Matches row m s
unfolding mismatch_of
mismatch_of_iff id now s none m = (λ e. tt, λ h. refl)
mismatch_of_iff id now s (some row) none = (λ e. tt, λ h. refl)
mismatch_of_iff id now s (some row) (some m) =
    one_iff (is_off row m s) _ (scale 10000 (abs (deviation row m s)) ≤ℤ expected_amount row m)
      (exact_iff row m s)

mismatch_iff :
    (id : Name) (now : ℕ) (p : Window) (db : Tables) (s : Settlement)
    → (mismatch id now p db s ≡ []) ↔ (PaidIn p s → IsExact db s)
unfolding mismatch
mismatch_iff id now p db s = by_payment (paid_in p s) (paid_in_iff p s)
  where
    by_payment :
        (t : Bool)
        → (t ≡ true) ↔ PaidIn p s
        → ((if t
              then mismatch_of id now s
                  (find_row s.intent_id db.intents)
                  (merchant_of db.merchants (find_row s.intent_id db.intents))
              else [])
            ≡ [])
          ↔ (PaidIn p s → IsExact db s)
    by_payment true paid =
        let inner =
          mismatch_of_iff id now s (find_row s.intent_id db.intents)
            (merchant_of db.merchants (find_row s.intent_id db.intents)) in
        ((λ e h. inner.0 e), (λ f. inner.1 (f (paid.0 refl))))
    by_payment false paid = ((λ e h. absurd (unpaid (paid.1 h))), (λ f. refl))
      where
        unpaid : false ≡ true → ⊥
        unpaid e = cc

pub mismatches_iff :
    (id : Name) (now : ℕ) (p : Window) (db : Tables) (ss : List Settlement)
    → (mismatches id now p db ss ≡ []) ↔ All (λ s. PaidIn p s → IsExact db s) ss
unfolding mismatches
mismatches_iff id now p db [] = (λ e. tt, λ h. refl)
mismatches_iff id now p db (s ∷ ss) =
    let here = mismatch_iff id now p db s in
    let rest = mismatches_iff id now p db ss in
    let split = append-none (mismatch id now p db s) (mismatches id now p db ss) in
    ((λ e. (here.0 (split.0 e).0, rest.0 (split.0 e).1)), (λ h. split.1 (here.1 h.0, rest.1 h.1)))

pub imbalance_iff :
    (g l : ℤ)
    → (is_imbalanced g l ≡ false) ↔ ((g +ℤ l ≤ℤ pos 0) ⊎ (scale 10 (abs (g -ℤ l)) ≤ℤ g +ℤ l))
unfolding is_imbalanced
imbalance_iff g l = ground arith
