-- ===== src/Gateway/Quotes.antt =====
-- gateway/src/channel_updates.rs: the ticker and the short `lwt` notification.
use Prim.Native.String.{String}
use mexchange_study.Common.{◌&&◌, Option, none, some, [], ◌∷◌, if◌then◌else◌, ℤ}
use mexchange_study.Common.SortedMap.{SortedMap}
use mexchange_study.Gateway.State.{Doubles, OrderBookState, get_stats_24h, total_amount}

pub record TickerData (F : Type 0) : Type 0 where
  pub symbol : String
  pub interval : String
  pub mark_price : F
  pub mark_timestamp : F
  pub best_bid_price : F
  pub best_bid_amount : F
  pub best_ask_price : F
  pub best_ask_amount : F
  pub last_price : F
  pub delta : F
  pub volume_24h : F
  pub value_24h : F
  pub low_price_24h : F
  pub high_price_24h : F
  pub change_24h : F
  pub index : F
  pub forward : F
  pub funding_mark : F
  pub funding_rate : F
  pub collar_low : F
  pub collar_high : F
  pub realised_funding_24h : F
  pub average_funding_rate_24h : F
  pub open_interest : F

pub record LwtData (F : Type 0) : Type 0 where
  pub symbol : String
  pub interval : String
  pub b : F × F × F
  pub a : F × F × F
  pub l : F
  pub m : F

-- `iter().next()` and `iter().rev().next()`
unfoldable pub first_entry : SortedMap ℤ → Option (ℤ × ℤ)
first_entry [] = none
first_entry (e ∷ book) = some e

unfoldable pub last_entry : SortedMap ℤ → Option (ℤ × ℤ)
last_entry [] = none
last_entry (e ∷ book) = elim (last_entry book) [ none ↦ some e | some x ↦ some x ]

module _ (d : Doubles) where
  open d use {
    F, of_decimal, zero_f, one, two, collar_down, collar_up, add_f, sub_f, mul_f, div_f, lt_f,
  }

  unfoldable pub best_of : Option (ℤ × ℤ) → F × F
  best_of none = (zero_f, zero_f)
  best_of (some (price, quantity)) = (of_decimal price, of_decimal quantity)

  unfoldable pub mark_of : OrderBookState F → F
  mark_of s =
      let (best_bid, bid_amount) = best_of (last_entry s.bids) in
      let (best_ask, ask_amount) = best_of (first_entry s.asks) in
      if lt_f zero_f best_bid && lt_f zero_f best_ask
      then div_f (add_f best_bid best_ask) two
      else s.last_price

  -- high, low, volume and open, or their values before any trade
  unfoldable pub stats_or_last : OrderBookState F → F × F × F × F
  stats_or_last s = elim (get_stats_24h d s) [
    | some t ↦ (t.high_24h, t.low_24h, t.volume_24h, t.open_24h)
    | none ↦ (s.last_price, s.last_price, zero_f, s.last_price)
  ]

  unfoldable pub get_ticker_notification : F → String → String → OrderBookState F → TickerData F
  get_ticker_notification now symbol interval s =
      let best_bid = best_of (last_entry s.bids) in
      let best_ask = best_of (first_entry s.asks) in
      let mark = mark_of s in
      let (high, low, volume, open_price) = stats_or_last s in
      record {
        symbol = symbol;
        interval = interval;
        mark_price = mark;
        mark_timestamp = now;
        best_bid_price = best_bid.0;
        best_bid_amount = best_bid.1;
        best_ask_price = best_ask.0;
        best_ask_amount = best_ask.1;
        last_price = s.last_price;
        delta = one;
        volume_24h = volume;
        value_24h = volume;
        low_price_24h = low;
        high_price_24h = high;
        change_24h = sub_f s.last_price open_price;
        index = mark;
        forward = mark;
        funding_mark = zero_f;
        funding_rate = zero_f;
        collar_low = mul_f mark collar_down;
        collar_high = mul_f mark collar_up;
        realised_funding_24h = zero_f;
        average_funding_rate_24h = zero_f;
        open_interest = zero_f;
      }

  unfoldable pub get_lwt_notification : String → String → OrderBookState F → LwtData F
  get_lwt_notification symbol interval s =
      let best_bid = best_of (last_entry s.bids) in
      let best_ask = best_of (first_entry s.asks) in
      record {
        symbol = symbol;
        interval = interval;
        b = (best_bid.0, best_bid.1, total_amount d s.bids);
        a = (best_ask.0, best_ask.1, total_amount d s.asks);
        l = s.last_price;
        m = mark_of s;
      }
