-- ===== src/Gateway/Updates.antt =====
-- gateway/src/channel_updates.rs: `apply_orderbook_update` and the snapshots it serves.
use Prim.Native.String.{String}
use mexchange_study.Common.{
  ℕ, Bool, true, false, ◌&&◌, Option, none, some, List, [], ◌∷◌, ◌++◌, map, ℤ, pos, eqb_ℤ,
  if◌then◌else◌,
}
use mexchange_study.Common.SortedMap
use mexchange_study.Common.SortedMap.{SortedMap}
use mexchange_study.Engine.Orders.{Side, bid, ask}
use mexchange_study.Events.{
  DeltaAction, add, update, remove, LevelDelta, Level, MarketEvent, fill, order_book_snapshot,
  order_book_delta,
}
use mexchange_study.Gateway.State.{
  Doubles, TradeData, PriceLevelChange, ChannelNotification, OrderBookState, update_stats,
  push_trade, get_stats_24h, total_amount,
}

-- The loop that builds one side of an incoming snapshot: levels of zero quantity are left out.
unfoldable pub build_side : List Level → SortedMap ℤ → SortedMap ℤ
build_side [] m = m
build_side (l ∷ ls) m =
    build_side ls (if eqb_ℤ l.quantity (pos 0) then m else SortedMap.insert l.price l.quantity m)

-- `==` of two maps.
unfoldable pub same_map : SortedMap ℤ → SortedMap ℤ → Bool
same_map [] [] = true
same_map ((p, q) ∷ m) ((p', q') ∷ n) = eqb_ℤ p p' && eqb_ℤ q q' && same_map m n
same_map _ _ = false

-- The match on the action, for the side that it changes.
unfoldable pub apply_action : DeltaAction → ℤ → ℤ → SortedMap ℤ → SortedMap ℤ
apply_action add price quantity book = SortedMap.insert price quantity book
apply_action update price quantity book = SortedMap.insert price quantity book
apply_action remove price quantity book = SortedMap.remove price book

unfoldable pub apply_delta : LevelDelta → SortedMap ℤ → SortedMap ℤ
apply_delta d book = apply_action d.action d.price d.quantity book

-- `book.get(&delta.price).copied().unwrap_or(Decimal::ZERO)`
unfoldable pub quantity_or_zero : ℤ → SortedMap ℤ → ℤ
quantity_or_zero price book = elim (SortedMap.get price book) [ none ↦ pos 0 | some q ↦ q ]

module _ (d : Doubles) where
  open d use {F, of_decimal, of_u64, zero_f, thousand, div_f}

  -- The locals of the delta branch.
  pub record DeltaLoop : Type 0 where
    pub bids : SortedMap ℤ
    pub asks : SortedMap ℤ
    pub bid_changes : List (PriceLevelChange F)
    pub ask_changes : List (PriceLevelChange F)

  -- The `PriceLevelChange` for a delta; a removal reports a new quantity of zero.
  unfoldable pub delta_change : LevelDelta → SortedMap ℤ → PriceLevelChange F
  delta_change l book = record {
    price = of_decimal l.price;
    old_quantity = of_decimal (quantity_or_zero l.price book);
    new_quantity = elim l.action [
      | add ↦ of_decimal l.quantity
      | update ↦ of_decimal l.quantity
      | remove ↦ zero_f
    ];
  }

  -- One round of the loop, for the delta's side.
  unfoldable pub apply_to : Side → LevelDelta → DeltaLoop → DeltaLoop
  apply_to bid l s = record s {
    bids = apply_delta l s.bids;
    bid_changes = s.bid_changes ++ delta_change l s.bids ∷ [];
  }
  apply_to ask l s = record s {
    asks = apply_delta l s.asks;
    ask_changes = s.ask_changes ++ delta_change l s.asks ∷ [];
  }

  unfoldable pub apply_deltas : List LevelDelta → DeltaLoop → DeltaLoop
  apply_deltas [] s = s
  apply_deltas (l ∷ ls) s = apply_deltas ls (apply_to l.side l s)

  -- A whole side as changes from zero.
  unfoldable pub all_levels : SortedMap ℤ → List (PriceLevelChange F)
  all_levels = map λ (e : ℤ × ℤ). record {
    price = of_decimal e.0;
    old_quantity = zero_f;
    new_quantity = of_decimal e.1;
  }

  unfoldable pub build_notification :
      F
      → String
      → List (PriceLevelChange F)
      → List (PriceLevelChange F)
      → List (TradeData F)
      → Bool
      → OrderBookState F
      → ChannelNotification F
  build_notification now symbol bid_changes ask_changes trades is_snapshot s = record {
    symbol = symbol;
    trades = trades;
    bid_changes = bid_changes;
    ask_changes = ask_changes;
    total_bid_amount = total_amount d s.bids;
    total_ask_amount = total_amount d s.asks;
    time = now;
    stats_24h = get_stats_24h d s;
    snapshot = if is_snapshot then some true else none;
  }

  unfoldable pub apply_snapshot :
      F
      → String
      → ℕ
      → List Level
      → List Level
      → OrderBookState F
      → OrderBookState F × Option (ChannelNotification F)
  apply_snapshot now symbol sequence bids asks s =
      let new_bids = build_side bids [] in
      let new_asks = build_side asks [] in
      let s' = record s { bids = new_bids; asks = new_asks; last_sequence = sequence } in
      if same_map new_bids s.bids && same_map new_asks s.asks then (s', none) else (
        s',
        some (build_notification now symbol (all_levels new_bids) (all_levels new_asks) [] true s'),
      )

  unfoldable pub apply_delta_event :
      F
      → String
      → ℕ
      → List LevelDelta
      → OrderBookState F
      → OrderBookState F × Option (ChannelNotification F)
  apply_delta_event now symbol sequence deltas s =
      let done =
        apply_deltas deltas
          (record { bids = s.bids; asks = s.asks; bid_changes = []; ask_changes = [] }) in
      let s' = record s { bids = done.bids; asks = done.asks; last_sequence = sequence } in
      (
        s',
        elim (done.bid_changes ++ done.ask_changes) [
          | [] ↦ none
          | _ ↦ some (build_notification now symbol done.bid_changes done.ask_changes [] false s')
        ],
      )

  unfoldable pub trade_of : ℤ → ℤ → ℕ → ℕ → ℕ → TradeData F
  trade_of price quantity timestamp buy sell = record {
    price = of_decimal price;
    quantity = of_decimal quantity;
    side = "buy";
    timestamp = div_f (of_u64 timestamp) thousand;
    is_liquidation = false;
    buy_order_id = some buy;
    sell_order_id = some sell;
  }

  unfoldable pub apply_fill :
      F
      → String
      → ℕ
      → ℕ
      → ℤ
      → ℤ
      → ℕ
      → OrderBookState F
      → OrderBookState F × Option (ChannelNotification F)
  apply_fill now symbol buy sell price quantity timestamp s =
      let trade = trade_of price quantity timestamp buy sell in
      let s' = update_stats (of_decimal price) (of_decimal quantity) timestamp s in
      let s'' = record s' { last_trades = push_trade trade s'.last_trades } in
      (s'', some (build_notification now symbol [] [] (trade ∷ []) false s''))

  unfoldable pub apply_orderbook_update :
      F → MarketEvent → OrderBookState F → OrderBookState F × Option (ChannelNotification F)
  apply_orderbook_update now (order_book_snapshot symbol sequence bids asks) s =
      apply_snapshot now symbol sequence bids asks s
  apply_orderbook_update now (order_book_delta symbol sequence deltas) s =
      apply_delta_event now symbol sequence deltas s
  apply_orderbook_update now (fill symbol buy sell price quantity timestamp) s =
      apply_fill now symbol buy sell price quantity timestamp s
  apply_orderbook_update now _ s = (s, none)

  -- `get_orderbook_snapshot`
  unfoldable pub get_orderbook_snapshot : F → String → OrderBookState F → ChannelNotification F
  get_orderbook_snapshot now symbol s =
      build_notification now symbol (all_levels s.bids) (all_levels s.asks) s.last_trades true s
