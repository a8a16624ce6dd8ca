-- ===== src/Gateway/State.antt =====
-- gateway/src/channel_updates.rs and the notification types of gateway/src/websocket.rs: the state,
-- the trades of the last 24 hours and their statistics.
use Prim.Native.String.{String}
use mexchange_study.Common.{
  ℕ, ◌-◌, ◌*◌, Bool, Option, none, some, List, [], ◌∷◌, ◌++◌, ℤ, ltb, length, if◌then◌else◌,
}
use mexchange_study.Common.SortedMap.{SortedMap}

-- IEEE doubles with what the gateway does to them.
pub record Doubles : Type 1 where
  pub F : Type 0
  -- `Decimal::to_f64().unwrap_or(0.0)`
  pub of_decimal : ℤ → F
  -- `timestamp as f64`
  pub of_u64 : ℕ → F
  pub zero_f : F
  pub one : F
  pub two : F
  pub thousand : F
  -- `0.99` and `1.01`
  pub collar_down : F
  pub collar_up : F
  -- `f64::MIN` and `f64::MAX`
  pub lowest : F
  pub highest : F
  pub add_f : F → F → F
  pub sub_f : F → F → F
  pub mul_f : F → F → F
  pub div_f : F → F → F
  pub lt_f : F → F → Bool

abbrev pub twenty_four_hours_ms : ℕ
twenty_four_hours_ms = 24 * 60 * 60 * 1000

pub record StatsTradeRecord (F : Type 0) : Type 0 where
  pub price : F
  pub quantity : F
  pub timestamp : ℕ

pub record TradeData (F : Type 0) : Type 0 where
  pub price : F
  pub quantity : F
  pub side : String
  pub timestamp : F
  pub is_liquidation : Bool
  -- The ids are printed in the source.
  pub buy_order_id : Option ℕ
  pub sell_order_id : Option ℕ

pub record PriceLevelChange (F : Type 0) : Type 0 where
  pub price : F
  pub old_quantity : F
  pub new_quantity : F

pub record Stats24h (F : Type 0) : Type 0 where
  pub high_24h : F
  pub low_24h : F
  pub volume_24h : F
  pub open_24h : F
  pub last_price : F

-- `ChannelNotification` with its data; the channel's name is made from the symbol.
pub record ChannelNotification (F : Type 0) : Type 0 where
  pub symbol : String
  pub trades : List (TradeData F)
  pub bid_changes : List (PriceLevelChange F)
  pub ask_changes : List (PriceLevelChange F)
  pub total_bid_amount : F
  pub total_ask_amount : F
  pub time : F
  pub stats_24h : Option (Stats24h F)
  pub snapshot : Option Bool

pub record OrderBookState (F : Type 0) : Type 0 where
  pub bids : SortedMap ℤ
  pub asks : SortedMap ℤ
  pub last_trades : List (TradeData F)
  pub last_sequence : ℕ
  pub stats_trades : List (StatsTradeRecord F)
  pub last_price : F

module _ {F : Type 0} where
  -- The loop of `expire_old_trades` for a cutoff.
  unfoldable pub expire : ℕ → List (StatsTradeRecord F) → List (StatsTradeRecord F)
  expire cutoff [] = []
  expire cutoff (front ∷ rest) =
      if ltb front.timestamp cutoff then expire cutoff rest else front ∷ rest

  -- `saturating_sub` stops at 0.
  unfoldable pub expire_old_trades : ℕ → OrderBookState F → OrderBookState F
  expire_old_trades current s = record s {
    stats_trades = expire (current - twenty_four_hours_ms) s.stats_trades;
  }

  unfoldable pub update_stats : F → F → ℕ → OrderBookState F → OrderBookState F
  unfolding expire_old_trades
  update_stats price quantity timestamp s = expire_old_trades timestamp (record s {
    stats_trades =
        s.stats_trades ++ record { price = price; quantity = quantity; timestamp = timestamp } ∷ [];
    last_price = price;
  })

  -- `last_trades.push(..)`, then `remove(0)` when there are more than 100.
  unfoldable pub remove_first : List (TradeData F) → List (TradeData F)
  remove_first [] = []
  remove_first (t ∷ ts) = ts

  unfoldable pub push_trade : TradeData F → List (TradeData F) → List (TradeData F)
  push_trade trade trades =
      let pushed = trades ++ trade ∷ [] in
      if ltb 100 (length pushed) then remove_first pushed else pushed

module _ (d : Doubles) where
  open d use {F, zero_f, lowest, highest, add_f, mul_f, lt_f, of_decimal}

  -- `OrderBookState::new`
  unfoldable pub new_state : OrderBookState F
  new_state = record {
    bids = [];
    asks = [];
    last_trades = [];
    last_sequence = 0;
    stats_trades = [];
    last_price = zero_f;
  }

  -- The loop of `get_stats_24h` over high, low and volume.
  unfoldable pub fold_stats : List (StatsTradeRecord F) → F × F × F → F × F × F
  fold_stats [] acc = acc
  fold_stats (t ∷ ts) (high, low, volume) = fold_stats ts (
    (if lt_f high t.price then t.price else high),
    (if lt_f t.price low then t.price else low),
    add_f volume (mul_f t.price t.quantity),
  )

  unfoldable pub get_stats_24h : OrderBookState F → Option (Stats24h F)
  get_stats_24h s = elim s.stats_trades [
    | [] ↦ none
    | t ∷ ts ↦
        let (high, low, volume) = fold_stats (t ∷ ts) (lowest, highest, zero_f) in
        some (record {
          high_24h = high;
          low_24h = low;
          volume_24h = volume;
          open_24h = t.price;
          last_price = s.last_price;
        })
  ]

  -- `values().map(..).sum()`, from the left.
  unfoldable pub sum_from : F → SortedMap ℤ → F
  sum_from total [] = total
  sum_from total ((price, quantity) ∷ book) = sum_from (add_f total (of_decimal quantity)) book

  unfoldable pub total_amount : SortedMap ℤ → F
  total_amount book = sum_from zero_f book
