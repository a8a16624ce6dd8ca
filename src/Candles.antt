-- ===== src/Candles.antt =====
-- accounts/src/models/ohlcv.rs and market_data/src/ohlcv.rs: the candles of six intervals, which a
-- settled trade updates in the accounts service and a received one in the market data service. Times are
-- in milliseconds, as integers; chrono's range of times is a parameter.
use Prim.Native.String.{String}
use mexchange_study.Common.{
  ℕ, suc, ◌+◌, ◌-◌, ◌*◌, ◌/◌, Bool, true, false, ◌&&◌, Option, none, some, List, [], ◌∷◌, ltb,
  if◌then◌else◌, ℤ, pos, negsuc, ◌+ℤ◌, leb_ℤ, eqb_ℤ, min_ℤ, max_ℤ, same_text,
}
pub mod Aggregates
pub mod Summaries
pub mod Describing
pub mod Agreeing
mod Tests

-- The primary key of the table `ohlcv`.
pub record Key : Type 0 where
  pub symbol : String
  pub interval : String
  pub open_time : ℤ

-- A row of the table; the prices and the volume are decimals, in units of 10^-28.
pub record Ohlcv : Type 0 where
  pub key : Key
  pub open_ : ℤ
  pub high : ℤ
  pub low : ℤ
  pub close : ℤ
  pub volume : ℤ
  pub trade_count : ℕ

unfoldable pub same_key : Key → Key → Bool
same_key k l =
    same_text k.interval l.interval
    && (same_text k.symbol l.symbol && eqb_ℤ k.open_time l.open_time)

unfoldable pub find_bar : Key → List Ohlcv → Option Ohlcv
find_bar k [] = none
find_bar k (c ∷ cs) = if same_key k c.key then some c else find_bar k cs

-- The `DO UPDATE SET` of an upsert, for the row that is there and the one that is inserted.
unfoldable pub merge : Ohlcv → Ohlcv → Ohlcv
merge c new = record c {
  high = max_ℤ c.high new.high;
  low = min_ℤ c.low new.low;
  close = new.close;
  volume = c.volume +ℤ new.volume;
  trade_count = c.trade_count + new.trade_count;
}

unfoldable pub put_bar : Ohlcv → List Ohlcv → List Ohlcv
put_bar new [] = new ∷ []
put_bar new (c ∷ cs) =
    let rest = put_bar new cs in if same_key new.key c.key then merge c new ∷ cs else c ∷ rest

-- `trade_count` is an `INTEGER`, which a statement may not take beyond 2^31 - 1.
unfoldable pub count_fits : Ohlcv → Option Ohlcv → Bool
count_fits new none = ltb new.trade_count 2147483648
count_fits new (some c) = ltb (c.trade_count + new.trade_count) 2147483648

-- `upsert`: `none` is the error of the statement.
unfoldable pub upsert : Ohlcv → List Ohlcv → Option (List Ohlcv)
upsert new t = if count_fits new (find_bar new.key t) then some (put_bar new t) else none

-- The names and the seconds of the intervals.
abbrev pub intervals : List (String × ℕ)
intervals =
    ("1m", 60) ∷ ("5m", 300) ∷ ("15m", 900) ∷ ("1h", 3600) ∷ ("4h", 14400) ∷ ("1d", 86400) ∷ []

-- A trade at a time.
pub record Trade : Type 0 where
  pub symbol : String
  pub price : ℤ
  pub quantity : ℤ
  pub time : ℤ

-- `DateTime::timestamp`: the seconds, rounded down
unfoldable pub timestamp : ℤ → ℤ
timestamp (pos n) = pos (n / 1000)
timestamp (negsuc n) = negsuc (n / 1000)

-- A number of units as an integer that is not positive.
abbrev pub minus_nat : ℕ → ℤ
minus_nat n = if ltb 0 n then negsuc (n - 1) else pos 0

-- `(seconds / n) * n` as a time; the division of `i64` rounds towards 0.
unfoldable pub truncated : ℕ → ℤ → ℤ
truncated n (pos s) = pos (s / n * n * 1000)
truncated n (negsuc s) = minus_nat (suc s / n * n * 1000)

-- The row that a trade inserts.
unfoldable pub bar_of : Trade → String → ℤ → Ohlcv
bar_of x interval open_time = record {
  key = record { symbol = x.symbol; interval = interval; open_time = open_time };
  open_ = x.price;
  high = x.price;
  low = x.price;
  close = x.price;
  volume = x.quantity;
  trade_count = 1;
}

pub data Updated : Type 0 where
  updated sql_failed panicked : Updated

-- The times that chrono has, in milliseconds.
module _ (is_time : ℤ → Bool) where
  -- `OhlcvAggregator::truncate_to_interval`
  unfoldable pub truncate_to_interval : ℤ → ℕ → ℤ
  truncate_to_interval time seconds =
      let start = truncated seconds (timestamp time) in if is_time start then start else time

  -- The loop of `process_trade`, which goes on after an error.
  unfoldable pub process_intervals : List (String × ℕ) → Trade → List Ohlcv → List Ohlcv
  process_intervals [] x t = t
  process_intervals ((interval, seconds) ∷ is) x t =
      elim (upsert (bar_of x interval (truncate_to_interval x.time seconds)) t) [
        | none ↦ process_intervals is x t
        | some t' ↦ process_intervals is x t'
      ]

  -- `timestamp_ms as i64`
  unfoldable pub as_i64 : ℕ → ℤ
  as_i64 ms = if ltb ms 9223372036854775808 then pos ms else negsuc (18446744073709551615 - ms)

  -- `DateTime::from_timestamp_millis(..).unwrap_or_else(Utc::now)`
  unfoldable pub time_of : ℤ → ℕ → ℤ
  time_of now ms = if is_time (as_i64 ms) then as_i64 ms else now

  -- `OhlcvAggregator::process_trade`
  unfoldable pub process_trade : ℤ → String → ℤ → ℤ → ℕ → List Ohlcv → List Ohlcv
  process_trade now symbol price quantity ms t =
      process_intervals intervals
        (record { symbol = symbol; price = price; quantity = quantity; time = time_of now ms }) t

  -- The loop of `update_from_trade`, which an error ends.
  unfoldable pub update_intervals : List (String × ℕ) → Trade → List Ohlcv → List Ohlcv × Updated
  update_intervals [] x t = (t, updated)
  update_intervals ((interval, seconds) ∷ is) x t =
      let start = truncated seconds (timestamp x.time) in
      elim (is_time start) [
        | false ↦ (t, panicked)
        | true ↦ elim (upsert (bar_of x interval start) t) [
          | none ↦ (t, sql_failed)
          | some t' ↦ update_intervals is x t'
        ]
      ]

  -- `OHLCV::update_from_trade`
  unfoldable pub update_from_trade : String → ℤ → ℤ → ℤ → List Ohlcv → List Ohlcv × Updated
  update_from_trade symbol price quantity ms t = elim (is_time ms) [
    | false ↦ (t, panicked)
    | true ↦
        update_intervals intervals
          (record { symbol = symbol; price = price; quantity = quantity; time = ms }) t
  ]
