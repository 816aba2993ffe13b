-- ===== src/Intent/State.antt =====
-- The intent state machine: packages/shared/src/types/payment-intent.ts, `isValidTransition` of
-- packages/shared/src/utils/index.ts, and the event table of
-- packages/payment-intent/src/payment-intent.repository.ts.
use nexora_gateway.Prelude.{
  ℕ, ◌≡◌, refl, ap, ◌↔◌, Bool, true, false, ◌||◌, List, [], ◌∷◌, some, get_elem?, ◌==◌, ==_iff,
  ==_self, arith,
}

pub data IntentState : Type 0 where
  created quoted awaiting_payment detected confirming routing settling settled : IntentState
  underpaid overpaid misdirected expired refunding failed : IntentState

pub data EventType : Type 0 where
  intent_created quote_generated payment_awaited quote_expired deposit_detected : EventType
  confirmation_received route_selected settlement_initiated settlement_confirmed : EventType
  underpayment_detected overpayment_detected misdirected_payment : EventType
  refund_initiated refund_confirmed failure : EventType

abbrev all_states : List IntentState
all_states =
    created ∷ quoted ∷ awaiting_payment ∷ detected ∷ confirming ∷ routing ∷ settling ∷ settled
    ∷ underpaid ∷ overpaid ∷ misdirected ∷ expired ∷ refunding ∷ failed ∷ []

-- The place of a state in `all_states`.
abbrev pub index : IntentState → ℕ
index created = 0
index quoted = 1
index awaiting_payment = 2
index detected = 3
index confirming = 4
index routing = 5
index settling = 6
index settled = 7
index underpaid = 8
index overpaid = 9
index misdirected = 10
index expired = 11
index refunding = 12
index failed = 13

index_lem : (s : IntentState) → get_elem? all_states (index s) ≡ some s
index_lem created = refl
index_lem _ = refl

index_injective : (s t : IntentState) → index s ≡ index t → s ≡ t
index_injective s t e = cc (index_lem s, index_lem t, e)

-- `a === b` on states.
abbrev pub same_state : IntentState → IntentState → Bool
same_state s t = index s == index t

pub same_state_iff : (s t : IntentState) → (same_state s t ≡ true) ↔ (s ≡ t)
same_state_iff s t = (λ h. index_injective s t ((==_iff _ _).0 h), λ e. (==_iff _ _).1 (ap index e))

abbrev pub state_in : List IntentState → IntentState → Bool
state_in [] t = false
state_in (s ∷ ss) t = same_state s t || state_in ss t

-- `VALID_TRANSITIONS`.
abbrev pub valid_transitions : IntentState → List IntentState
valid_transitions created = quoted ∷ expired ∷ failed ∷ []
valid_transitions quoted = awaiting_payment ∷ expired ∷ failed ∷ []
valid_transitions awaiting_payment = detected ∷ expired ∷ failed ∷ []
valid_transitions detected = confirming ∷ underpaid ∷ overpaid ∷ misdirected ∷ []
valid_transitions confirming = routing ∷ failed ∷ []
valid_transitions routing = settling ∷ failed ∷ []
valid_transitions settling = settled ∷ failed ∷ []
valid_transitions settled = []
valid_transitions underpaid = awaiting_payment ∷ refunding ∷ failed ∷ []
valid_transitions overpaid = settling ∷ refunding ∷ failed ∷ []
valid_transitions misdirected = refunding ∷ failed ∷ []
valid_transitions expired = []
valid_transitions refunding = settled ∷ failed ∷ []
valid_transitions failed = []

unfoldable pub is_valid_transition : IntentState → IntentState → Bool
is_valid_transition from to = state_in (valid_transitions from) to

abbrev pub get_expected_next_state : EventType → IntentState
get_expected_next_state intent_created = created
get_expected_next_state quote_generated = quoted
get_expected_next_state payment_awaited = awaiting_payment
get_expected_next_state quote_expired = expired
get_expected_next_state deposit_detected = detected
get_expected_next_state confirmation_received = confirming
get_expected_next_state route_selected = routing
get_expected_next_state settlement_initiated = settling
get_expected_next_state settlement_confirmed = settled
get_expected_next_state underpayment_detected = underpaid
get_expected_next_state overpayment_detected = overpaid
get_expected_next_state misdirected_payment = misdirected
get_expected_next_state refund_initiated = refunding
get_expected_next_state refund_confirmed = settled
get_expected_next_state failure = failed

-- The place of an event type in its declaration, by which event types are compared.
abbrev event_index : EventType → ℕ
event_index intent_created = 0
event_index quote_generated = 1
event_index payment_awaited = 2
event_index quote_expired = 3
event_index deposit_detected = 4
event_index confirmation_received = 5
event_index route_selected = 6
event_index settlement_initiated = 7
event_index settlement_confirmed = 8
event_index underpayment_detected = 9
event_index overpayment_detected = 10
event_index misdirected_payment = 11
event_index refund_initiated = 12
event_index refund_confirmed = 13
event_index failure = 14

abbrev all_events : List EventType
all_events =
    intent_created ∷ quote_generated ∷ payment_awaited ∷ quote_expired ∷ deposit_detected
    ∷ confirmation_received ∷ route_selected ∷ settlement_initiated ∷ settlement_confirmed
    ∷ underpayment_detected ∷ overpayment_detected ∷ misdirected_payment ∷ refund_initiated
    ∷ refund_confirmed ∷ failure ∷ []

event_index_lem : (a : EventType) → get_elem? all_events (event_index a) ≡ some a
event_index_lem intent_created = refl
event_index_lem _ = refl

event_index_injective : (a b : EventType) → event_index a ≡ event_index b → a ≡ b
event_index_injective a b e = cc (event_index_lem a, event_index_lem b, e)

unfoldable pub same_event : EventType → EventType → Bool
same_event a b = event_index a == event_index b

pub same_event_eq : (a b : EventType) → same_event a b ≡ true → a ≡ b
unfolding same_event
same_event_eq a b h = event_index_injective a b ((==_iff _ _).0 h)

pub same_event_refl : (a : EventType) → same_event a a ≡ true
unfolding same_event
same_event_refl a = ==_self (event_index a)

-- A type that compares equal to another compares as it does with every third.
pub same_event_congr : (a b c : EventType) → same_event a b ≡ true → same_event a c ≡ same_event b c
unfolding same_event
same_event_congr a b c h = rw ((==_iff (event_index a) (event_index b)).0 h)

pub same_event_join :
    (a b c : EventType) → same_event a c ≡ true → same_event b c ≡ true → same_event a b ≡ true
unfolding same_event
same_event_join a b c h k = ground (arith, ==_iff (event_index a) (event_index c))
