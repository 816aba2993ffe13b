-- ===== src/Intent/Webhook/Rows.antt =====
-- Finding, adding and changing delivery rows by their key.
use nexora_gateway.Prelude.{
  ◌≡◌, refl, true, ◌&&◌, List, [], ◌∷◌, ◌++◌, Option, none, some, inl, inr, arith, ◌==◌,
  if◌then◌else◌, Bool, Bool-cases, Option-cases, ==_iff, &&-eq-true,
}
use nexora_gateway.Intent.State.{
  EventType, same_event, same_event_eq, same_event_refl, same_event_congr, same_event_join,
}
use nexora_gateway.Intent.Data.{Name, Delivery}
use nexora_gateway.Intent.Webhook.{has_key, get_delivery, change_delivery}

abbrev pub on_row : (Delivery → Delivery) → Option Delivery → Option Delivery
on_row f none = none
on_row f (some d) = some (f d)

abbrev pub KeepsKey : (Delivery → Delivery) → Type 0
KeepsKey f = (d : Delivery) → ((f d).intent_id ≡ d.intent_id) × ((f d).event_type ≡ d.event_type)

abbrev pub same_key : Name → EventType → Name → EventType → Bool
same_key id type k t = id == k && same_event type t

pub get_delivery-key :
    (id : Name) (type : EventType) (ds : List Delivery) (d : Delivery)
    → get_delivery id type ds ≡ some d
    → same_key d.intent_id d.event_type id type ≡ true
unfolding get_delivery
get_delivery-key id type [] d h = cc
get_delivery-key id type (x ∷ ds) d h = ground (arith, get_delivery-key id type ds d)

cong_key :
    (a b : Delivery) (t : EventType)
    → ((a.intent_id ≡ b.intent_id) × (a.event_type ≡ b.event_type))
    → same_event a.event_type t ≡ same_event b.event_type t
cong_key a b t (e, f) = rw f

pub get_delivery-change :
    (id k : Name) (type t : EventType) (f : Delivery → Delivery) (ds : List Delivery)
    → KeepsKey f
    → get_delivery k t (change_delivery id type f ds)
      ≡ (if same_key id type k t then on_row f (get_delivery k t ds) else get_delivery k t ds)
unfolding get_delivery change_delivery
get_delivery-change id k type t f [] keeps = ground arith
get_delivery-change id k type t f (d ∷ ds) keeps = ground (
  arith,
  keeps d,
  same_event_congr d.event_type type t,
  same_event_join d.event_type type t,
  cong_key (f d) d t (keeps d),
  get_delivery-change id k type t f ds keeps,
)

pub get_delivery-append :
    (k : Name) (t : EventType) (ds : List Delivery) (d : Delivery)
    → get_delivery k t ds ≡ none
    → get_delivery k t (ds ++ d ∷ []) ≡ (if has_key k t d then some d else none)
unfolding get_delivery
get_delivery-append k t [] d h = refl
get_delivery-append k t (x ∷ ds) d h = ground (arith, get_delivery-append k t ds d)

pub get_delivery-append_old :
    (k : Name) (t : EventType) (ds : List Delivery) (d old : Delivery)
    → get_delivery k t ds ≡ some old
    → get_delivery k t (ds ++ d ∷ []) ≡ some old
unfolding get_delivery
get_delivery-append_old k t [] d old h = cc
get_delivery-append_old k t (x ∷ ds) d old h = ground (arith, get_delivery-append_old k t ds d old)

pub same_key_eq :
    (id k : Name) (type t : EventType) → same_key id type k t ≡ true → (id ≡ k) × (type ≡ t)
same_key_eq id k type t h =
    ((==_iff id k).0 (&&-eq-true _ _ h).0, same_event_eq type t (&&-eq-true _ _ h).1)

pub same_key_refl : (id : Name) (type : EventType) → same_key id type id type ≡ true
same_key_refl id type = ground (arith, same_event_refl type)

pub first_row :
    (id k : Name) (type t : EventType) (f : Delivery → Delivery) (ds : List Delivery) (d : Delivery)
    → KeepsKey f
    → get_delivery id type ds ≡ none
    → d.intent_id ≡ id
    → d.event_type ≡ type
    → get_delivery k t (change_delivery id type f (ds ++ d ∷ []))
      ≡ (if same_key id type k t then some (f d) else get_delivery k t ds)
unfolding has_key
first_row id k type t f ds d keeps fresh e e' =
    rw (get_delivery-change id k type t f (ds ++ d ∷ []) keeps)
      (elim (Bool-cases (same_key id type k t)) [
        | inl same ↦
            rw
              (
                same,
                ← (same_key_eq id k type t same).0,
                ← (same_key_eq id k type t same).1,
                get_delivery-append id type ds d fresh,
              )
              (rw (e, e', same_key_refl id type) refl)
        | inr other ↦ rw other (elim (Option-cases (get_delivery k t ds)) [
          | inl none_yet ↦ rw (get_delivery-append k t ds d none_yet, e, e', other, none_yet) refl
          | inr (x, found) ↦ rw (get_delivery-append_old k t ds d x found, found) refl
        ])
      ])
