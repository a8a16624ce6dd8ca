-- ===== src/Candles/Describing.antt =====
-- market_data/src/ohlcv.rs: what the rows of the table say of the trades.
use Prim.Native.String.{String}
use mexchange_study.Common.{ℕ, Bool, Option, List, [], ◌∷◌, if◌then◌else◌, ℤ}
use mexchange_study.Candles.{
  Key, Ohlcv, same_key, Trade, bar_of, truncate_to_interval, time_of, process_trade,
}
use mexchange_study.Candles.Aggregates.{advance}

module _ (is_time : ℤ → Bool) where
  abbrev pub start_of : ℕ → Trade → ℤ
  start_of seconds x = truncate_to_interval is_time x.time seconds

  -- What the loop over the intervals makes of a row.
  abbrev advance_all : Key → List (String × ℕ) → Trade → Option Ohlcv → Option Ohlcv
  advance_all k [] x o = o
  advance_all k ((name, seconds) ∷ is) x o =
      let new = bar_of x name (start_of seconds x) in
      advance_all k is x (if same_key k new.key then advance new o else o)

  abbrev pub key_at : String → String → ℤ → Key
  key_at symbol name at = record { symbol = symbol; interval = name; open_time = at }

  -- What the market data service is told of a trade; `now` is its clock then.
  pub record Received : Type 0 where
    pub now : ℤ
    pub symbol : String
    pub price : ℤ
    pub quantity : ℤ
    pub timestamp_ms : ℕ

  abbrev pub trade_of : Received → Trade
  trade_of r = record {
    symbol = r.symbol;
    price = r.price;
    quantity = r.quantity;
    time = time_of is_time r.now r.timestamp_ms;
  }

  -- The table after these trades, newest first.
  abbrev pub after : List Received → List Ohlcv
  after [] = []
  after (r ∷ rs) = process_trade is_time r.now r.symbol r.price r.quantity r.timestamp_ms (after rs)

  abbrev pub trades_of : List Received → List Trade
  trades_of [] = []
  trades_of (r ∷ rs) = trade_of r ∷ trades_of rs
