-- ===== src/Codec/Convert.antt =====
-- matching_engine_service/src/udp_transport.rs: `send_event`; gateway/src/udp_transport.rs:
-- `handle_message`. The numbers go through texts on both sides; those conversions are parameters.
use Prim.Native.String
use Prim.Native.String.{String}
use mexchange_study.Common.{Bool, true, false, Option, none, some, map, ℤ}
use mexchange_study.Accounts.Tables.{Outcome, fine, failure}
use mexchange_study.Events.{
  LevelDelta, Level, MarketEvent, fill, order_book_snapshot, order_book_delta, order_accepted,
  order_cancelled, order_filled,
}
use mexchange_study.Codec.Flat.{FlatBuffers}
use mexchange_study.Codec.Binary.{
  BinaryLevel, BinaryDelta, BinaryEvent, binary_fill, binary_snapshot, binary_delta,
  binary_cancelled, binary_filled, encode, decode_market_event,
}

pub record Texts : Type 1 where
  pub F : Type 0
  -- `to_string().parse().unwrap_or(0.0)`
  pub to_double : ℤ → F
  -- `Decimal::from_str(&f.to_string()).unwrap_or_default()`
  pub of_double : F → ℤ

-- How `send_event` ends: with nothing to send, with an error as long as there is no sender, with the
-- panic, or with a payload for the sender.
pub data Sending (B : Type 0) : Type 0 where
  skipped not_ready panicked : Sending B
  payload : B → Sending B

unfoldable pub is_accepted : MarketEvent → Bool
is_accepted (order_accepted order side order_type price quantity) = true
is_accepted _ = false

module _ (t : Texts) where
  open t use {F, to_double, of_double}

  unfoldable pub level_to_binary : Level → BinaryLevel F
  level_to_binary l = record { price = to_double l.price; quantity = to_double l.quantity }

  unfoldable pub delta_to_binary : LevelDelta → BinaryDelta F
  delta_to_binary d = record {
    action = d.action;
    side = d.side;
    price = to_double d.price;
    quantity = to_double d.quantity;
  }

  -- `None` is the panic at an event that `send_event` has filtered out.
  unfoldable pub convert_to_binary : MarketEvent → Option (BinaryEvent F)
  convert_to_binary (fill symbol buy sell price quantity timestamp) =
      some (binary_fill symbol buy sell (to_double price) (to_double quantity) timestamp)
  convert_to_binary (order_book_snapshot symbol sequence bids asks) =
      some (binary_snapshot symbol sequence (map level_to_binary bids) (map level_to_binary asks))
  convert_to_binary (order_book_delta symbol sequence deltas) =
      some (binary_delta symbol sequence (map delta_to_binary deltas))
  convert_to_binary (order_accepted order side order_type price quantity) = none
  convert_to_binary (order_cancelled order quantity) =
      some (binary_cancelled order (to_double quantity))
  convert_to_binary (order_filled order) = some (binary_filled order)

  unfoldable pub level_of_binary : BinaryLevel F → Level
  level_of_binary l = record { price = of_double l.price; quantity = of_double l.quantity }

  unfoldable pub delta_of_binary : BinaryDelta F → LevelDelta
  delta_of_binary d = record {
    action = d.action;
    side = d.side;
    price = of_double d.price;
    quantity = of_double d.quantity;
  }

  unfoldable pub convert_from_binary : BinaryEvent F → MarketEvent
  convert_from_binary (binary_fill symbol buy sell price quantity timestamp) =
      fill symbol buy sell (of_double price) (of_double quantity) timestamp
  convert_from_binary (binary_snapshot symbol sequence bids asks) =
      order_book_snapshot symbol sequence (map level_of_binary bids) (map level_of_binary asks)
  convert_from_binary (binary_delta symbol sequence deltas) =
      order_book_delta symbol sequence (map delta_of_binary deltas)
  convert_from_binary (binary_cancelled order quantity) = order_cancelled order (of_double quantity)
  convert_from_binary (binary_filled order) = order_filled order

  module _ (fb : FlatBuffers F) where
    unfoldable pub send_event : Bool → MarketEvent → Sending fb.Buffer
    send_event ready e = elim (is_accepted e) [
      | true ↦ skipped
      | false ↦ elim ready [
        | false ↦ not_ready
        | true ↦ elim (convert_to_binary e) [ none ↦ panicked | some b ↦ payload (encode fb b) ]
      ]
    ]

    -- The event that is passed on, or the error.
    unfoldable pub handle_message : fb.Buffer → Outcome String MarketEvent
    handle_message bytes = elim (decode_market_event fb bytes) [
      | failure e ↦ failure (String.◌++◌ "FlatBuffer decode error: " e)
      | fine b ↦ fine (convert_from_binary b)
    ]
