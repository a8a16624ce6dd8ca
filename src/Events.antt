-- ===== src/Events.antt =====
-- matching_engine_service/src/events.rs and gateway/src/events.rs: the market events, which the two
-- services declare alike. Their enum `Side` is the engine's. Sequences and timestamps are u64.
use Prim.Native.String.{String}
use mexchange_study.Common.{ℕ, Option, List, ℤ}
use mexchange_study.Engine.Orders.{Side}

pub data DeltaAction : Type 0 where
  add update remove : DeltaAction

pub record LevelDelta : Type 0 where
  pub action : DeltaAction
  pub side : Side
  pub price : ℤ
  pub quantity : ℤ

-- A `PriceLevel` of the events: a price and the quantity there.
pub record Level : Type 0 where
  pub price : ℤ
  pub quantity : ℤ

pub data MarketEvent : Type 0 where
  -- symbol, buy_order_id, sell_order_id, price, quantity, timestamp
  fill : String → ℕ → ℕ → ℤ → ℤ → ℕ → MarketEvent
  -- symbol, sequence, bids, asks
  order_book_snapshot : String → ℕ → List Level → List Level → MarketEvent
  -- symbol, sequence, deltas
  order_book_delta : String → ℕ → List LevelDelta → MarketEvent
  -- order_id, side, order_type, price, quantity
  order_accepted : ℕ → Side → String → Option ℤ → ℤ → MarketEvent
  -- order_id, filled_quantity
  order_cancelled : ℕ → ℤ → MarketEvent
  -- order_id
  order_filled : ℕ → MarketEvent

pub data OrderCommand : Type 0 where
  -- order_id, side, order_type, price, quantity, user_id
  place_order : ℕ → Side → String → Option ℤ → ℤ → Option ℕ → OrderCommand
  -- order_id, user_id
  cancel_order : ℕ → Option ℕ → OrderCommand
