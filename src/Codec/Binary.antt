-- ===== src/Codec/Binary.antt =====
-- udp_proto/src/binary.rs: the events with doubles, `MarketEventEncoder` and `decode_market_event`. The
-- encoder's buffer is reset for each event, so it has no state of its own.
use Prim.Native.String.{String}
use mexchange_study.Common.{
  ℕ, ◌+◌, ◌*◌, ◌/◌, ◌%◌, ◌^◌, Option, none, some, List, [], ◌∷◌, map, ℤ, pos, eqb_ℤ, if◌then◌else◌,
  same_text,
}
use mexchange_study.Accounts.Tables.{Outcome, fine, failure}
use mexchange_study.Engine.Orders.{Side, bid, ask}
use mexchange_study.Events.{DeltaAction, add, update, remove}
use mexchange_study.Codec.Flat.{
  FbUuid, FbLevel, FbDelta, fill_type, snapshot_type, delta_type, cancelled_type, filled_type,
  FbEvent, fb_fill, fb_snapshot, fb_delta, fb_cancelled, fb_filled, fb_missing, fb_unknown,
  FlatBuffers,
}

-- Its `Side` and `DeltaAction` are spelled like those of the events, and are the same here.
pub record BinaryLevel (F : Type 0) : Type 0 where
  pub price : F
  pub quantity : F

pub record BinaryDelta (F : Type 0) : Type 0 where
  pub action : DeltaAction
  pub side : Side
  pub price : F
  pub quantity : F

pub data BinaryEvent (F : Type 0) : Type 0 where
  -- symbol, buy_order_id, sell_order_id, price, quantity, timestamp
  binary_fill : String → ℕ → ℕ → F → F → ℕ → BinaryEvent F
  -- symbol, sequence, bids, asks
  binary_snapshot : String → ℕ → List (BinaryLevel F) → List (BinaryLevel F) → BinaryEvent F
  -- symbol, sequence, deltas
  binary_delta : String → ℕ → List (BinaryDelta F) → BinaryEvent F
  -- order_id, filled_quantity
  binary_cancelled : ℕ → F → BinaryEvent F
  binary_filled : ℕ → BinaryEvent F

-- `From<Side>` and `TryFrom<fb::Side>`
unfoldable pub side_to_fb : Side → ℤ
side_to_fb bid = pos 0
side_to_fb ask = pos 1

unfoldable pub side_of_fb : ℤ → Option Side
side_of_fb s = if eqb_ℤ s (pos 0) then some bid else if eqb_ℤ s (pos 1) then some ask else none

unfoldable pub action_to_fb : DeltaAction → ℤ
action_to_fb add = pos 0
action_to_fb update = pos 1
action_to_fb remove = pos 2

unfoldable pub action_of_fb : ℤ → Option DeltaAction
action_of_fb a =
    if eqb_ℤ a (pos 0)
    then some add
    else if eqb_ℤ a (pos 1)
    then some update
    else if eqb_ℤ a (pos 2)
    then some remove
    else none

-- The halves of a u128; `(high << 64) | low` is their sum, since `low` is a u64.
unfoldable pub uuid_to_fb : ℕ → FbUuid
uuid_to_fb uuid = record { high = uuid / 2 ^ 64 % 2 ^ 64; low = uuid % 2 ^ 64 }

unfoldable pub fb_to_uuid : FbUuid → ℕ
fb_to_uuid u = u.high * 2 ^ 64 + u.low

-- A symbol is required, and not empty.
unfoldable pub read_symbol : String → String → Option String → Outcome String String
read_symbol missing empty none = failure missing
read_symbol missing empty (some symbol) = if same_text symbol "" then failure empty else fine symbol

unfoldable pub read_uuid : String → Option FbUuid → Outcome String ℕ
read_uuid missing none = failure missing
read_uuid missing (some u) = fine (fb_to_uuid u)

infixl 5 ◌>>=◌
abbrev pub ◌>>=◌ : {A B : Type 0} → Outcome String A → (A → Outcome String B) → Outcome String B
(fine a) >>= k = k a
(failure e) >>= k = failure e

module _ {F : Type 0} where
  unfoldable pub level_to_fb : BinaryLevel F → FbLevel F
  level_to_fb l = record { price = l.price; quantity = l.quantity }

  unfoldable pub level_of_fb : FbLevel F → BinaryLevel F
  level_of_fb l = record { price = l.price; quantity = l.quantity }

  unfoldable pub delta_to_fb : BinaryDelta F → FbDelta F
  delta_to_fb d = record {
    action = action_to_fb d.action;
    side = side_to_fb d.side;
    price = d.price;
    quantity = d.quantity;
  }

  unfoldable pub delta_of_fb : FbDelta F → Outcome String (BinaryDelta F)
  delta_of_fb d = elim (action_of_fb d.action) [
    | none ↦ failure "Invalid delta action"
    | some action ↦ elim (side_of_fb d.side) [
      | none ↦ failure "Invalid side"
      | some side ↦
          fine (record { action = action; side = side; price = d.price; quantity = d.quantity })
    ]
  ]

  -- `collect` into a Result: the first error, if any.
  unfoldable pub deltas_of_fb : List (FbDelta F) → Outcome String (List (BinaryDelta F))
  deltas_of_fb [] = fine []
  deltas_of_fb (d ∷ ds) = elim (delta_of_fb d) [
    | failure e ↦ failure e
    | fine x ↦ elim (deltas_of_fb ds) [ failure e ↦ failure e | fine xs ↦ fine (x ∷ xs) ]
  ]

  -- The tables that `encode` builds.
  unfoldable pub event_to_fb : BinaryEvent F → FbEvent F
  event_to_fb (binary_fill symbol buy sell price quantity timestamp) =
      fb_fill (some symbol) (some (uuid_to_fb buy)) (some (uuid_to_fb sell)) price quantity
        timestamp
  event_to_fb (binary_snapshot symbol sequence bids asks) =
      fb_snapshot (some symbol) sequence (some (map level_to_fb bids)) (some (map level_to_fb asks))
  event_to_fb (binary_delta symbol sequence deltas) =
      fb_delta (some symbol) sequence (some (map delta_to_fb deltas))
  event_to_fb (binary_cancelled order quantity) = fb_cancelled (some (uuid_to_fb order)) quantity
  event_to_fb (binary_filled order) = fb_filled (some (uuid_to_fb order))

  -- `unwrap_or_default` on a vector of levels
  unfoldable pub read_levels : Option (List (FbLevel F)) → List (BinaryLevel F)
  read_levels none = []
  read_levels (some ls) = map level_of_fb ls

  unfoldable pub read_deltas : Option (List (FbDelta F)) → Outcome String (List (BinaryDelta F))
  read_deltas none = fine []
  read_deltas (some ds) = deltas_of_fb ds

  unfoldable pub event_of_fb : FbEvent F → Outcome String (BinaryEvent F)
  event_of_fb (fb_fill symbol buy sell price quantity timestamp) = do
    s ← read_symbol "Missing symbol in Fill" "Empty symbol in Fill" symbol
    b ← read_uuid "Missing buy_order_id in Fill" buy
    a ← read_uuid "Missing sell_order_id in Fill" sell
    fine (binary_fill s b a price quantity timestamp)
  event_of_fb (fb_snapshot symbol sequence bids asks) = do
    s ← read_symbol "Missing symbol in OrderBookSnapshot" "Empty symbol in OrderBookSnapshot" symbol
    fine (binary_snapshot s sequence (read_levels bids) (read_levels asks))
  event_of_fb (fb_delta symbol sequence deltas) = do
    s ← read_symbol "Missing symbol in OrderBookDelta" "Empty symbol in OrderBookDelta" symbol
    ds ← read_deltas deltas
    fine (binary_delta s sequence ds)
  event_of_fb (fb_cancelled order quantity) = do
    o ← read_uuid "Missing order_id in OrderCancelled" order
    fine (binary_cancelled o quantity)
  event_of_fb (fb_filled order) = do
    o ← read_uuid "Missing order_id in OrderFilled" order
    fine (binary_filled o)
  event_of_fb (fb_missing fill_type) = failure "Missing Fill payload"
  event_of_fb (fb_missing snapshot_type) = failure "Missing OrderBookSnapshot payload"
  event_of_fb (fb_missing delta_type) = failure "Missing OrderBookDelta payload"
  event_of_fb (fb_missing cancelled_type) = failure "Missing OrderCancelled payload"
  event_of_fb (fb_missing filled_type) = failure "Missing OrderFilled payload"
  event_of_fb fb_unknown = failure "Unknown event type"

  module _ (fb : FlatBuffers F) where
    unfoldable pub encode : BinaryEvent F → fb.Buffer
    encode e = fb.finished_data (event_to_fb e)

    unfoldable pub decode_market_event : fb.Buffer → Outcome String (BinaryEvent F)
    decode_market_event bytes = elim (fb.root_as_market_event bytes) [
      | none ↦ failure "Invalid FlatBuffer"
      | some e ↦ event_of_fb e
    ]
