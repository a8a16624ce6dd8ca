-- ===== src/Engine/Tests.antt =====
-- The theorems about the matching engine, at a concrete book.
use mexchange_study.Common.{none, ◌≡◌, refl, ◌⊎◌, some, [], ◌∷◌, arith, All, pos, ◌-ℤ◌, ◌≤ℤ◌, ◌<ℤ◌}
use mexchange_study.Engine.Orders.{bid, ask, limit, Order, new_market, OrderResult, OrderBook}
use mexchange_study.Engine.Operations.{own_book, add_market_order, cancel_order}
use mexchange_study.Engine.Validity.{IsValid}
use mexchange_study.Engine.Levels.{GoodFill, sum_fills}
use mexchange_study.Common.SortedMap
use mexchange_study.Common.IdMap
use mexchange_study.Engine.Matching.{opposite_book}
use mexchange_study.Engine.Queries.{
  get_order, order_exists, best_bid, best_ask, first_key, last_key, spread,
}
use mexchange_study.Engine.Spreads.{spread-positive}
use mexchange_study.Engine.Validity.Cancelling.{DistinctIds, cancel_order-IsValid}
use mexchange_study.Engine.Validity.Cancelling.Leaving.{count_at, cancel_order-leaves}
use mexchange_study.Common.SortedMap.{Each}
use mexchange_study.Engine.Validity.Fills.{add_market_order-fills}
use mexchange_study.Engine.Samples.{
  sample_ask, sample_bid, ask_level, bid_level, sample_book, sample_book-IsValid,
}

-- Five of the nine are bought at 10, and four are left in the book.
abbrev left_over : Order
left_over = record {
  id = 7;
  side = bid;
  order_type = limit;
  price = some (pos 10);
  quantity = pos 9;
  remaining_quantity = pos 4;
}

abbrev bought : OrderBook × OrderResult
bought = (
  record {
    bids =
        (pos 8, bid_level)
        ∷ (pos 10, record { price = pos 10; orders = left_over ∷ []; total_quantity = pos 4 })
        ∷ [];
    asks = [];
    orders = (7, left_over) ∷ (2, sample_bid) ∷ [];
  },
  record {
    order_id = 7;
    fills = record { buy_order_id = 7; sell_order_id = 1; price = pos 10; quantity = pos 5 } ∷ [];
    completed_orders = 1 ∷ [];
  },
)

add_market_order-fills_example :
    All (GoodFill (new_market 7 bid (pos 4))) (add_market_order 7 bid (pos 4) sample_book).1.fills
    × (sum_fills (add_market_order 7 bid (pos 4) sample_book).1.fills ≤ℤ pos 4)
    × ((sum_fills (add_market_order 7 bid (pos 4) sample_book).1.fills ≡ pos 4)
        ⊎ (opposite_book bid (add_market_order 7 bid (pos 4) sample_book).0 ≡ []))
add_market_order-fills_example =
    add_market_order-fills 7 bid (pos 4) sample_book (omega arith) sample_book-IsValid

spread-positive_example :
    Each (λ q l. q ≤ℤ pos 8) sample_book.bids
    × Each (λ q l. pos 10 ≤ℤ q) sample_book.asks
    × (spread sample_book ≡ some (pos 10 -ℤ pos 8))
    × (pos 0 <ℤ pos 10 -ℤ pos 8)
unfolding best_bid best_ask first_key last_key
spread-positive_example = spread-positive sample_book (pos 8) (pos 10) sample_book-IsValid refl refl

sample_book-DistinctIds : DistinctIds sample_book
sample_book-DistinctIds = record {
  once_bid = λ id. (ground arith, tt);
  once_ask = λ id. (ground arith, tt);
}

cancel_order-IsValid_example :
    IsValid (cancel_order 1 sample_book).0
    × (get_order 1 (cancel_order 1 sample_book).0 ≡ none)
    × ((cancel_order 1 sample_book).1 ≡ order_exists 1 sample_book)
cancel_order-IsValid_example =
    cancel_order-IsValid 1 sample_book sample_book-DistinctIds sample_book-IsValid

cancel_order-leaves_example :
    (count_at 1 (pos 10) (own_book ask (cancel_order 1 sample_book).0) ≡ 0)
    × (SortedMap.get (pos 11) (own_book ask (cancel_order 1 sample_book).0)
        ≡ SortedMap.get (pos 11) (own_book ask sample_book))
    × (opposite_book ask (cancel_order 1 sample_book).0 ≡ opposite_book ask sample_book)
unfolding get_order IdMap.get
cancel_order-leaves_example =
    cancel_order-leaves 1 sample_book sample_ask (pos 10) (pos 11) sample_book-IsValid refl refl
      refl

-- The order 1 of the sample alone in a book.
abbrev one_ask : OrderBook
one_ask = record { bids = []; asks = (pos 10, ask_level) ∷ []; orders = (1, sample_ask) ∷ [] }
