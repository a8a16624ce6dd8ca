-- ===== src/Candles/Tests.antt =====
-- The theorems about the candles, at concrete trades.
use Prim.Native.String.{String}
use mexchange_study.Common.{
  ◌≡◌, refl, Bool, true, some, List, [], ◌∷◌, arith, ℤ, pos, ◌+ℤ◌, min_ℤ, max_ℤ,
}
use mexchange_study.Common.{max_ℤ}
use mexchange_study.Candles.{
  Ohlcv, same_key, find_bar, merge, put_bar, count_fits, upsert, timestamp, truncated, bar_of,
  truncate_to_interval, process_intervals, as_i64, time_of, process_trade, update_from_trade,
}
use mexchange_study.Candles.Describing.{Received, key_at, after}
use mexchange_study.Candles.Agreeing.{WhenUpdated, update_from_trade-process}

abbrev any_time : ℤ → Bool
any_time time = true

-- Three trades in two minutes, newest first.
abbrev received : List (Received any_time)
received =
    (record {
      now = pos 0;
      symbol = "KCN/EUR";
      price = pos 90;
      quantity = pos 1;
      timestamp_ms = 61000;
    })
    ∷ (record {
      now = pos 0;
      symbol = "KCN/EUR";
      price = pos 120;
      quantity = pos 2;
      timestamp_ms = 59999;
    })
    ∷ (record {
      now = pos 0;
      symbol = "KCN/EUR";
      price = pos 100;
      quantity = pos 5;
      timestamp_ms = 1000;
    })
    ∷ []

first_minute :
    find_bar (key_at any_time "KCN/EUR" "1m" (pos 0)) (after any_time received)
    ≡ some (record {
      key = record { symbol = "KCN/EUR"; interval = "1m"; open_time = pos 0 };
      open_ = pos 100;
      high = pos 120;
      low = pos 100;
      close = pos 120;
      volume = pos 7;
      trade_count = 2;
    })
unfolding process_trade process_intervals upsert count_fits find_bar put_bar merge same_key max_ℤ
    bar_of truncate_to_interval truncated timestamp time_of as_i64 min_ℤ ◌+ℤ◌
first_minute = refl

update_from_trade-process_example :
    WhenUpdated
      (λ (t' : List Ohlcv). process_trade any_time (pos 0) "KCN/EUR" (pos 90) (pos 1) 61000 [] ≡ t')
      (update_from_trade any_time "KCN/EUR" (pos 90) (pos 1) (pos 61000) [])
update_from_trade-process_example =
    update_from_trade-process any_time "KCN/EUR" (pos 90) (pos 1) (pos 0) 61000 [] (omega arith)
