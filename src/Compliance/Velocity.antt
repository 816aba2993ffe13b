-- ===== src/Compliance/Velocity.antt =====
-- packages/compliance/src/velocity-checker.ts. A comparison with an average is multiplied by the
-- count, one with four fifths by five. The score of a check, which no decision reads, is left out.
use nexora_gateway.Prelude.{
  ℕ, ◌+◌, ◌-◌, ◌*◌, Bool, true, false, ◌&&◌, ◌||◌, not, List, [], ◌∷◌, ◌++◌, Option, none, some,
  ◌==◌, ltb, leb, if◌then◌else◌, keep_if, length,
}
use nexora_gateway.Prelude.Int.{ℤ, pos, ◌+ℤ◌, scale, ltb_ℤ}
use nexora_gateway.Intent.Data.{Name}
use nexora_gateway.Compliance.{RiskFlag, velocity_anomaly, TransactionInfo}

pub record VelocityWindow : Type 0 where
  pub duration_ms : ℕ
  pub max_transactions : ℕ
  pub max_amount : ℤ

pub record TransactionRecord : Type 0 where
  pub amount : ℤ
  pub timestamp : ℕ

-- The records of each address on a chain; the address is in lower case.
pub record History : Type 0 where
  pub address : Name
  pub chain : Name
  pub entries : List TransactionRecord

abbrev is_key : Name → Name → History → Bool
is_key address chain h = h.address == address && h.chain == chain

unfoldable pub get_window_records : Name → Name → List History → List TransactionRecord
get_window_records address chain [] = []
get_window_records address chain (h ∷ hs) =
    if is_key address chain h then h.entries else get_window_records address chain hs

unfoldable pub set_window_records :
    Name → Name → List TransactionRecord → List History → List History
set_window_records address chain rows [] =
    record { address = address; chain = chain; entries = rows } ∷ []
set_window_records address chain rows (h ∷ hs) =
    if is_key address chain h
    then record { address = address; chain = chain; entries = rows } ∷ hs
    else h ∷ set_window_records address chain rows hs

-- `clearHistory`.
unfoldable pub clear_history : (Name → Name) → Name → Name → List History → List History
clear_history lower address chain = keep_if (λ h. not (is_key (lower address) chain h))

-- `now - r.timestamp <= durationMs`.
unfoldable pub is_recent : VelocityWindow → ℕ → TransactionRecord → Bool
is_recent w now r = leb now (r.timestamp + w.duration_ms)

unfoldable pub sum_amounts : List TransactionRecord → ℤ
sum_amounts [] = pos 0
sum_amounts (r ∷ rs) = r.amount +ℤ sum_amounts rs

-- A stable sort, the latest first.
unfoldable pub insert_by_time : TransactionRecord → List TransactionRecord → List TransactionRecord
insert_by_time r [] = r ∷ []
insert_by_time r (q ∷ qs) =
    if leb q.timestamp r.timestamp then r ∷ q ∷ qs else q ∷ insert_by_time r qs

unfoldable pub sort_by_time : List TransactionRecord → List TransactionRecord
unfolding insert_by_time
sort_by_time [] = []
sort_by_time (r ∷ rs) = insert_by_time r (sort_by_time rs)

-- The time between the two latest; none is infinity.
abbrev gap : List TransactionRecord → Option ℕ
gap (a ∷ b ∷ rs) = some (a.timestamp - b.timestamp)
gap _ = none

pub record VelocityCheckResult : Type 0 where
  pub exceeded : Bool
  pub flags : List RiskFlag
  pub transaction_count : ℕ
  pub total_amount : ℤ
  pub time_since_last_transaction : Option ℕ

abbrev is_below : ℕ → Option ℕ → Bool
is_below n none = false
is_below n (some t) = ltb t n

-- 10000 USD in 10⁻⁸ units.
abbrev ten_thousand : ℤ
ten_thousand = pos 1000000000000

abbrev nine_thousand : ℤ
nine_thousand = pos 900000000000

abbrev flag_if : Bool → List RiskFlag
flag_if true = velocity_anomaly ∷ []
flag_if false = []

unfoldable pub determine_flags : VelocityWindow → ℕ → ℤ → Option ℕ → List RiskFlag
determine_flags w n total since =
    flag_if (ltb (4 * w.max_transactions) (5 * n))
    ++ flag_if
        (ltb 5 n && ltb_ℤ (scale n nine_thousand) total && ltb_ℤ total (scale n ten_thousand))
    ++ flag_if (is_below 60000 since && ltb 3 n)

unfoldable pub is_exceeded : VelocityWindow → ℕ → ℤ → Bool
is_exceeded w n total = ltb w.max_transactions n || ltb_ℤ w.max_amount total

-- The records that a check keeps: the address's records and the new one, if they are recent.
unfoldable pub valid_records :
    VelocityWindow → (Name → Name) → ℕ → TransactionInfo → List History → List TransactionRecord
unfolding is_recent get_window_records
valid_records w lower now tx hs = keep_if (is_recent w now) (
    get_window_records (lower tx.from) tx.chain hs
    ++ record { amount = tx.amount; timestamp = tx.timestamp } ∷ [])

-- `checkVelocity`. `lower` is `toLowerCase`.
unfoldable pub check_velocity :
    VelocityWindow
    → (Name → Name)
    → ℕ
    → TransactionInfo
    → List History
    → VelocityCheckResult × List History
unfolding valid_records set_window_records sum_amounts sort_by_time determine_flags is_exceeded
check_velocity w lower now tx hs =
    let rows = valid_records w lower now tx hs in
    let n = length rows in
    let total = sum_amounts rows in
    let since = gap (sort_by_time rows) in
    (
      record {
        exceeded = is_exceeded w n total;
        flags = determine_flags w n total since;
        transaction_count = n;
        total_amount = total;
        time_since_last_transaction = since;
      },
      set_window_records (lower tx.from) tx.chain rows hs,
    )
