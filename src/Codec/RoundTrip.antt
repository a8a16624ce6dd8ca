-- ===== src/Codec/RoundTrip.antt =====
-- What the gateway reads of an event that the engine's service has sent.
use mexchange_study.Common.{
  ℕ, ◌^◌, ◌<◌, ◌≡◌, refl, ap, false, some, List, [], ◌∷◌, map, arith, ℤ, All, same_text,
}
use mexchange_study.Accounts.Tables.{fine}
use mexchange_study.Engine.Orders.{Side, bid, ask}
use mexchange_study.Events.{
  DeltaAction, add, update, remove, LevelDelta, Level, MarketEvent, fill, order_book_snapshot,
  order_book_delta, order_accepted, order_cancelled, order_filled,
}
use mexchange_study.Codec.Flat.{FlatBuffers}
use mexchange_study.Codec.Binary.{
  BinaryLevel, BinaryDelta, BinaryEvent, binary_fill, binary_snapshot, binary_delta,
  binary_cancelled, binary_filled, side_to_fb, side_of_fb, action_to_fb, action_of_fb, uuid_to_fb,
  fb_to_uuid, level_to_fb, level_of_fb, delta_to_fb, delta_of_fb, deltas_of_fb, event_to_fb,
  event_of_fb, read_symbol, read_uuid, read_levels, read_deltas, encode, decode_market_event,
}
use mexchange_study.Codec.Convert.{Texts, convert_to_binary, convert_from_binary}

uuid-trip : (n : ℕ) → n < 2 ^ 128 → fb_to_uuid (uuid_to_fb n) ≡ n
unfolding fb_to_uuid uuid_to_fb
uuid-trip n h = omega arith

side-trip : (s : Side) → side_of_fb (side_to_fb s) ≡ some s
unfolding side_of_fb side_to_fb
side-trip bid = refl
side-trip ask = refl

action-trip : (a : DeltaAction) → action_of_fb (action_to_fb a) ≡ some a
unfolding action_of_fb action_to_fb
action-trip add = refl
action-trip update = refl
action-trip remove = refl

module _ {F : Type 0} where
  levels-trip : (ls : List (BinaryLevel F)) → map level_of_fb (map level_to_fb ls) ≡ ls
  unfolding level_of_fb level_to_fb
  levels-trip [] = refl
  levels-trip (l ∷ ls) = ap (λ (r : List (BinaryLevel F)). l ∷ r) (levels-trip ls)

  deltas-trip : (ds : List (BinaryDelta F)) → deltas_of_fb (map delta_to_fb ds) ≡ fine ds
  unfolding deltas_of_fb delta_of_fb delta_to_fb
  deltas-trip [] = refl
  deltas-trip (d ∷ ds) = ground (arith, action-trip d.action, side-trip d.side, deltas-trip ds)

  -- The symbol is not empty, and the ids are UUIDs.
  abbrev pub IsSendable : BinaryEvent F → Type 0
  IsSendable (binary_fill symbol buy sell price quantity timestamp) =
      (same_text symbol "" ≡ false) × (buy < 2 ^ 128) × (sell < 2 ^ 128)
  IsSendable (binary_snapshot symbol sequence bids asks) = same_text symbol "" ≡ false
  IsSendable (binary_delta symbol sequence deltas) = same_text symbol "" ≡ false
  IsSendable (binary_cancelled order quantity) = order < 2 ^ 128
  IsSendable (binary_filled order) = order < 2 ^ 128

  event-trip : (e : BinaryEvent F) → IsSendable e → event_of_fb (event_to_fb e) ≡ fine e
  unfolding event_of_fb event_to_fb read_symbol read_uuid read_levels read_deltas
  event-trip (binary_fill symbol buy sell price quantity timestamp) (named, b, s) =
      rw (named, uuid-trip buy b, uuid-trip sell s) refl
  event-trip (binary_snapshot symbol sequence bids asks) named =
      rw (named, levels-trip bids, levels-trip asks) refl
  event-trip (binary_delta symbol sequence deltas) named = rw (named, deltas-trip deltas) refl
  event-trip (binary_cancelled order quantity) small = rw (uuid-trip order small) refl
  event-trip (binary_filled order) small = rw (uuid-trip order small) refl

  -- Decoding what was encoded gives the event back, when its symbol is not empty.
  pub decode_market_event-encode :
      (fb : FlatBuffers F) (e : BinaryEvent F)
      → IsSendable e
      → decode_market_event fb (encode fb e) ≡ fine e
  unfolding decode_market_event encode
  decode_market_event-encode fb e h =
      rw (fb.built_is_read (event_to_fb e), decode_market_event) (event-trip e h)

module _ (t : Texts) where
  open t use {F, to_double, of_double}

  -- The decimal comes back from the double, as it does when it has at most 15 significant digits.
  abbrev pub IsExact : ℤ → Type 0
  IsExact q = of_double (to_double q) ≡ q

  abbrev pub LevelExact : Level → Type 0
  LevelExact l = IsExact l.price × IsExact l.quantity

  abbrev pub DeltaExact : LevelDelta → Type 0
  DeltaExact d = IsExact d.price × IsExact d.quantity

  -- An event that can cross: not one for the client only, with a symbol, UUIDs and exact decimals.
  abbrev pub CanCross : MarketEvent → Type 0
  CanCross (fill symbol buy sell price quantity timestamp) =
      (same_text symbol "" ≡ false)
      × (buy < 2 ^ 128)
      × (sell < 2 ^ 128)
      × IsExact price
      × IsExact quantity
  CanCross (order_book_snapshot symbol sequence bids asks) =
      (same_text symbol "" ≡ false) × All LevelExact bids × All LevelExact asks
  CanCross (order_book_delta symbol sequence deltas) =
      (same_text symbol "" ≡ false) × All DeltaExact deltas
  CanCross (order_accepted order side order_type price quantity) = ⊥
  CanCross (order_cancelled order quantity) = (order < 2 ^ 128) × IsExact quantity
  CanCross (order_filled order) = order < 2 ^ 128

  -- The conversion gives an event that the encoding takes, and that converts back.
  record Converted (e : MarketEvent) : Type 0 where
    binary : BinaryEvent F
    converts : convert_to_binary t e ≡ some binary
    sendable : IsSendable binary
    back : convert_from_binary t binary ≡ e
