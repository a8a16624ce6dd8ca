-- ===== src/Gateway/Tests.antt =====
-- The theorems about publishing, at concrete books.
use mexchange_study.Common.{
  ℕ, ◌+◌, ◌-◌, ◌*◌, ◌≡◌, refl, Bool, true, false, List, [], ◌∷◌, arith, ltb, pos, pos_part,
}
use mexchange_study.Engine.Orders.{OrderBook}
use mexchange_study.Engine.Samples.{sample_book}
use mexchange_study.Events.{MarketEvent}
use mexchange_study.Publisher.{Publisher, collect, compute_deltas}
use mexchange_study.Gateway.State.{Doubles, OrderBookState}
use mexchange_study.Gateway.Updates.{DeltaLoop, apply_deltas}
use mexchange_study.Gateway.Sync.{compute_deltas-apply}

-- Whole numbers in place of the doubles.
abbrev pub numbers : Doubles
numbers = record {
  F = ℕ;
  of_decimal = pos_part;
  of_u64 = λ n. n;
  zero_f = 0;
  one = 1;
  two = 2;
  thousand = 1000;
  collar_down = 1;
  collar_up = 1;
  lowest = 0;
  highest = 1000000;
  add_f = λ a b. a + b;
  sub_f = λ a b. a - b;
  mul_f = λ a b. a * b;
  div_f = λ a b. a;
  lt_f = ltb;
}

abbrev gateway : OrderBookState ℕ
gateway = record {
  bids = (pos 8, pos 3) ∷ [];
  asks = (pos 10, pos 7) ∷ (pos 12, pos 1) ∷ [];
  last_trades = [];
  last_sequence = 4;
  stats_trades = record { price = 9; quantity = 2; timestamp = 5 } ∷ [];
  last_price = 9;
}

-- The publisher sent these levels before and no snapshot is due.
abbrev publisher : Publisher
publisher = record {
  prev_bids = (pos 8, pos 3) ∷ [];
  prev_asks = (pos 10, pos 7) ∷ (pos 12, pos 1) ∷ [];
  sequence = 4;
  updates_since_snapshot = 4;
}

abbrev accepting : MarketEvent → Bool
accepting e = true

abbrev earlier : List ((MarketEvent → Bool) × OrderBook)
earlier = (accepting, sample_book) ∷ ((λ e. false), sample_book) ∷ []

abbrev loop_start : DeltaLoop numbers
loop_start = record { bids = gateway.bids; asks = gateway.asks; bid_changes = []; ask_changes = [] }

compute_deltas-apply_example :
    let done =
      apply_deltas numbers
        (compute_deltas publisher ((pos 9, pos 1) ∷ (pos 8, pos 2) ∷ []) ((pos 12, pos 1) ∷ []))
        loop_start in
    (done.bids ≡ collect ((pos 9, pos 1) ∷ (pos 8, pos 2) ∷ []))
    × (done.asks ≡ collect ((pos 12, pos 1) ∷ []))
compute_deltas-apply_example =
    compute_deltas-apply numbers publisher ((pos 9, pos 1) ∷ (pos 8, pos 2) ∷ [])
      ((pos 12, pos 1) ∷ []) loop_start tt (omega arith, tt) refl refl
