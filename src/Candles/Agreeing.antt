-- ===== src/Candles/Agreeing.antt =====
-- accounts/src/models/ohlcv.rs and market_data/src/ohlcv.rs: the candles of the two services.
use Prim.Native.String.{String}
use mexchange_study.Common.{
  ℕ, ◌<◌, ◌≡◌, refl, inl, inr, Bool, true, List, [], ◌∷◌, arith, ltb, Bool-cases, Option-cases, ℤ,
  pos, if_true,
}
use mexchange_study.Candles.{
  Ohlcv, upsert, intervals, Trade, bar_of, truncate_to_interval, process_intervals, time_of,
  process_trade,
}
use mexchange_study.Candles.{
  updated, update_intervals, update_from_trade, Updated, as_i64, sql_failed, panicked, truncated,
  timestamp,
}

-- What holds of the table when all the candles are updated.
abbrev pub WhenUpdated : (List Ohlcv → Type 0) → List Ohlcv × Updated → Type 0
WhenUpdated P (t, updated) = P t
WhenUpdated P (t, sql_failed) = Unit
WhenUpdated P (t, panicked) = Unit

module _ (is_time : ℤ → Bool) where
  within_range :
      (n : ℕ) (x : Trade)
      → is_time (truncated n (timestamp x.time)) ≡ true
      → truncate_to_interval is_time x.time n ≡ truncated n (timestamp x.time)
  unfolding truncate_to_interval
  within_range n x h = rw h refl

  update_intervals-process :
      (is : List (String × ℕ)) (x : Trade) (t : List Ohlcv)
      → WhenUpdated
          (λ (t' : List Ohlcv). process_intervals is_time is x t ≡ t')
          (update_intervals is_time is x t)
  unfolding update_intervals process_intervals
  update_intervals-process [] x t = refl
  update_intervals-process ((name, seconds) ∷ is) x t =
      let start = truncated seconds (timestamp x.time) in
      elim (Bool-cases (is_time start)) [
        | inr out ↦ rw (update_intervals, out) tt
        | inl ok ↦ elim (Option-cases (upsert (bar_of x name start) t)) [
          | inl full ↦ rw (update_intervals, ok, full) tt
          | inr (t1, e) ↦
              rw (update_intervals, process_intervals, ok, within_range seconds x ok, e)
                (update_intervals-process is x t1)
        ]
      ]

  -- When the accounts service has updated its candles for a trade at a time that an `i64` holds, the market
  -- data service makes the same candles of the same trade, whatever its clock shows.
  pub update_from_trade-process :
      (symbol : String) (price quantity now : ℤ) (ms : ℕ) (t : List Ohlcv)
      → ms < 9223372036854775808
      → WhenUpdated
          (λ (t' : List Ohlcv). process_trade is_time now symbol price quantity ms t ≡ t')
          (update_from_trade is_time symbol price quantity (pos ms) t)
  unfolding update_from_trade process_trade time_of as_i64
  update_from_trade-process symbol price quantity now ms t small =
      let fits : as_i64 is_time ms ≡ pos ms =
        if_true (ltb ms 9223372036854775808) (pos ms) _ (ground (arith, small)) in
      elim (Bool-cases (is_time (pos ms))) [
        | inr out ↦ rw (out, update_from_trade) tt
        | inl ok ↦
            rw (update_from_trade, ok, fits, ok)
              (update_intervals-process intervals
                (record { symbol = symbol; price = price; quantity = quantity; time = pos ms }) t)
      ]
