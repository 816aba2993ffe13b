-- ===== src/Examples/Locks.antt =====
-- Rate locks.
use nexora_gateway.Prelude.{◌+◌, ◌≡◌, refl, false, [], ◌∷◌, none, some, arith}
use nexora_gateway.Prelude.Int.{pos, scale}
use nexora_gateway.Prelude.Action.{ok, err}
use nexora_gateway.RateLock.{
  RateLock, active, consumed, lock_already_consumed, SpreadConfig, Market, LockRequest, create_lock,
  new_lock, clamp_ttl, calculate_spread, get_lock, taken, consume_lock, consume_found, cancel_lock,
  is_lock_valid,
}
use nexora_gateway.RateLock.Consumption.{consume_lock_once, cancel_lock_revives}
use nexora_gateway.RateLock.Creation.{IsConsumedFrom, create_lock_consumable}

abbrev spreads : SpreadConfig
spreads = record {
  base_spread_bps = 50;
  volatility_spread_bps = 100;
  max_spread_bps = 120;
  min_ttl_seconds = 60;
  max_ttl_seconds = 900;
  default_ttl_seconds = 300;
  high_volatility_assets = 2 ∷ [];
}

abbrev market : Market
market = record { get_price = λ a b. ok (pos 3000); to_upper = λ a. a }

abbrev request : LockRequest
request = record {
  intent_id = 1;
  merchant_id = 7;
  asset = 2;
  base_asset = 5;
  ttl_seconds = some 10;
}

abbrev lock : RateLock
lock = record {
  id = 40;
  intent_id = 1;
  merchant_id = 7;
  asset = 2;
  base_asset = 5;
  locked_rate = pos 30360000;
  live_rate = pos 3000;
  spread_bps = 120;
  ttl_seconds = 60;
  status = active;
  created_at = 100;
  expires_at = 60100;
  consumed_at = none;
}

consume_lock_once_example :
    let after = (consume_lock 200 1 (lock ∷ [])).1 in
    consume_lock 300 1 after ≡ (err (lock_already_consumed 40), after)
unfolding consume_lock get_lock consume_found
consume_lock_once_example = consume_lock_once 200 300 1 (taken 200 lock) (lock ∷ []) refl

cancel_lock_revives_example :
    let after = cancel_lock 1 (taken 150 lock ∷ []) in
    ((is_lock_valid 200 1 after).0 ≡ false)
    × ((new : RateLock) × ((consume_lock 200 1 after).0 ≡ ok new) × (new.status ≡ consumed))
unfolding get_lock
cancel_lock_revives_example =
    cancel_lock_revives 200 1 (taken 150 lock) (taken 150 lock ∷ []) refl (omega arith)

create_lock_consumable_example :
    let after = consume_lock 200 1 (create_lock spreads market 40 100 request []).1 in
    (lock.locked_rate ≡ scale (10000 + lock.spread_bps) lock.live_rate)
    × ((k : RateLock) × (after.0 ≡ ok k)
        × (get_lock 1 after.1 ≡ some k)
        × IsConsumedFrom 200 lock k)
unfolding create_lock new_lock calculate_spread clamp_ttl scale get_lock
create_lock_consumable_example =
    create_lock_consumable spreads market 40 100 200 request lock [] refl refl (omega arith)
