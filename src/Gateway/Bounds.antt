-- ===== src/Gateway/Bounds.antt =====
-- gateway/src/channel_updates.rs: the trades that the gateway keeps.
use Prim.Native.String.{String}
use mexchange_study.Common.{
  ℕ, ◌+◌, ◌-◌, ◌≤◌, ◌<◌, ◌≡◌, refl, sym, subst, List, [], ◌∷◌, ◌++◌, arith, ltb, if◌then◌else◌,
  length, length-append, All, ℤ,
}
use mexchange_study.Events.{
  Level, MarketEvent, fill, order_book_snapshot, order_book_delta, order_accepted, order_cancelled,
  order_filled,
}
use mexchange_study.Gateway.State.{
  Doubles, twenty_four_hours_ms, OrderBookState, TradeData, StatsTradeRecord, expire,
  expire_old_trades, update_stats, remove_first, push_trade,
}
use mexchange_study.Gateway.Updates.{
  apply_orderbook_update, apply_fill, apply_snapshot, apply_delta_event, trade_of,
}

module _ {F : Type 0} where
  length-remove_first : (ts : List (TradeData F)) → length (remove_first ts) + 1 ≤ length ts + 1
  unfolding remove_first
  length-remove_first [] = omega arith
  length-remove_first (t ∷ ts) = omega arith

  length-remove_first_suc :
      (ts : List (TradeData F)) → 0 < length ts → length (remove_first ts) + 1 ≡ length ts
  unfolding remove_first
  length-remove_first_suc [] h = omega (arith, h)
  length-remove_first_suc (t ∷ ts) h = omega arith

  length-push_trade :
      (t : TradeData F) (ts : List (TradeData F)) → length ts ≤ 100 → length (push_trade t ts) ≤ 100
  unfolding push_trade
  length-push_trade t ts h =
      let n = length-append ts (t ∷ []) in ground (arith, length-remove_first_suc (ts ++ t ∷ []))

  -- Timestamps ascend, from `lo` on.
  abbrev pub Ascends : ℕ → List (StatsTradeRecord F) → Type 0
  Ascends lo [] = Unit
  Ascends lo (t ∷ ts) = (lo ≤ t.timestamp) × Ascends t.timestamp ts

  -- The trades at or after the cutoff, in order.
  abbrev pub within : ℕ → List (StatsTradeRecord F) → List (StatsTradeRecord F)
  within cutoff [] = []
  within cutoff (t ∷ ts) = if ltb t.timestamp cutoff then within cutoff ts else t ∷ within cutoff ts

  within_all :
      (cutoff lo : ℕ) (ts : List (StatsTradeRecord F))
      → cutoff ≤ lo
      → Ascends lo ts
      → within cutoff ts ≡ ts
  within_all cutoff lo [] h a = refl
  within_all cutoff lo (t ∷ ts) h a = ground (arith, within_all cutoff t.timestamp ts)

  expire-within :
      (cutoff lo : ℕ) (ts : List (StatsTradeRecord F))
      → Ascends lo ts
      → expire cutoff ts ≡ within cutoff ts
  unfolding expire
  expire-within cutoff lo [] a = refl
  expire-within cutoff lo (t ∷ ts) a =
      ground (arith, expire-within cutoff t.timestamp ts, within_all cutoff t.timestamp ts)

module _ (d : Doubles) where
  apply_snapshot-trades :
      (now : d.F) (symbol : String) (n : ℕ) (bids asks : List Level) (s : OrderBookState d.F)
      → let s' = (apply_snapshot d now symbol n bids asks s).0 in
        (s'.last_trades ≡ s.last_trades)
        × (s'.stats_trades ≡ s.stats_trades)
        × (s'.last_price ≡ s.last_price)
  unfolding apply_snapshot
  apply_snapshot-trades now symbol n bids asks s = ground arith

  -- The gateway never keeps more than 100 trades, whatever event arrives.
  pub apply_orderbook_update-length :
      (now : d.F) (e : MarketEvent) (s : OrderBookState d.F)
      → length s.last_trades ≤ 100
      → length (apply_orderbook_update d now e s).0.last_trades ≤ 100
  unfolding apply_orderbook_update apply_delta_event apply_fill update_stats expire_old_trades
  apply_orderbook_update-length now (fill symbol buy sell price quantity timestamp) s h =
      length-push_trade (trade_of d price quantity timestamp buy sell) s.last_trades h
  apply_orderbook_update-length now (order_book_snapshot symbol n bids asks) s h =
      subst (λ (ts : List (TradeData d.F)). length ts ≤ 100)
        (sym (apply_snapshot-trades now symbol n bids asks s).0) h
  apply_orderbook_update-length now (order_book_delta symbol n deltas) s h = h
  apply_orderbook_update-length now (order_accepted id side kind price quantity) s h = h
  apply_orderbook_update-length now (order_cancelled id quantity) s h = h
  apply_orderbook_update-length now (order_filled id) s h = h

  Ascends-append :
      (lo : ℕ) (ts : List (StatsTradeRecord d.F)) (t : StatsTradeRecord d.F)
      → Ascends lo ts
      → All (λ (x : StatsTradeRecord d.F). x.timestamp ≤ t.timestamp) ts
      → lo ≤ t.timestamp
      → Ascends lo (ts ++ t ∷ [])
  Ascends-append lo [] t a h l = (l, tt)
  Ascends-append lo (x ∷ ts) t a h l = (a.0, Ascends-append x.timestamp ts t a.1 h.1 h.0)

  -- After a fill that is not older than the trades kept, the statistics are over exactly the trades
  -- of the 24 hours before it, the fill included.
  pub apply_fill-within :
      (now : d.F) (symbol : String) (buy sell : ℕ) (price quantity : ℤ) (timestamp : ℕ)
      (s : OrderBookState d.F)
      → Ascends 0 s.stats_trades
      → All (λ (x : StatsTradeRecord d.F). x.timestamp ≤ timestamp) s.stats_trades
      → let s' =
          (apply_orderbook_update d now (fill symbol buy sell price quantity timestamp) s).0 in
        let added : StatsTradeRecord d.F = record {
          price = d.of_decimal price;
          quantity = d.of_decimal quantity;
          timestamp = timestamp;
        } in
        s'.stats_trades ≡ within (timestamp - twenty_four_hours_ms) (s.stats_trades ++ added ∷ [])
  unfolding apply_orderbook_update apply_fill update_stats expire_old_trades
  apply_fill-within now symbol buy sell price quantity timestamp s a h =
      let added : StatsTradeRecord d.F = record {
        price = d.of_decimal price;
        quantity = d.of_decimal quantity;
        timestamp = timestamp;
      } in
      expire-within (timestamp - twenty_four_hours_ms) 0 (s.stats_trades ++ added ∷ [])
        (Ascends-append 0 s.stats_trades added a h (omega arith))
