-- ===== src/Engine/Operations.antt =====
-- matching_engine/src/lib.rs: the public methods that change the book. A method takes the book and
-- returns the new one; `none` is the panic of `add_order_to_book` on an order with no price.
use mexchange_study.Common.{
  ℕ, Bool, true, false, Option, none, some, List, [], ◌∷◌, ◌++◌, ℤ, pos, ◌-ℤ◌, ◌==◌, if◌then◌else◌,
}
use mexchange_study.Common.SortedMap
use mexchange_study.Common.SortedMap.{SortedMap}
use mexchange_study.Common.IdMap
use mexchange_study.Engine.Orders.{
  Side, bid, ask, limit, market, Order, new_limit, new_market, is_filled, PriceLevel, new_level,
  add_order, is_empty, OrderResult, OrderBook,
}
use mexchange_study.Engine.Matching.{Progress, match_order}

unfoldable pub own_book : Side → OrderBook → SortedMap PriceLevel
own_book bid b = b.bids
own_book ask b = b.asks

unfoldable pub set_own : Side → SortedMap PriceLevel → OrderBook → OrderBook
set_own bid levels b = record b { bids = levels }
set_own ask levels b = record b { asks = levels }

-- `book.entry(price).or_insert_with(..).add_order(order)`
unfoldable pub enqueue : ℤ → Order → SortedMap PriceLevel → SortedMap PriceLevel
enqueue price o book = elim (SortedMap.get price book) [
  | none ↦ SortedMap.insert price (add_order (new_level price) o) book
  | some level ↦ SortedMap.insert price (add_order level o) book
]

unfoldable pub add_order_to_book : Order → OrderBook → Option OrderBook
add_order_to_book o b = elim o.price [
  | none ↦ none
  | some price ↦ some (
      set_own o.side (enqueue price o (own_book o.side b))
        (record b { orders = IdMap.insert o.id o b.orders }))
]

unfoldable pub result_of : ℕ → Progress → OrderResult
result_of id s = record {
  order_id = id;
  fills = s.fills;
  completed_orders =
      if is_filled s.taker then s.completed_orders ++ id ∷ [] else s.completed_orders;
}

unfoldable pub add_limit_order : ℕ → Side → ℤ → ℤ → OrderBook → Option (OrderBook × OrderResult)
add_limit_order id side price quantity b =
    let (b', s) = match_order (new_limit id side price quantity) b in
    if is_filled s.taker
    then some (b', result_of id s)
    else elim (add_order_to_book s.taker b') [ none ↦ none | some b'' ↦ some (b'', result_of id s) ]

unfoldable pub add_market_order : ℕ → Side → ℤ → OrderBook → OrderBook × OrderResult
add_market_order id side quantity b =
    let (b', s) = match_order (new_market id side quantity) b in (b', result_of id s)

unfoldable pub restore_order : Order → OrderBook → Option OrderBook
restore_order o b = elim o.order_type [
  | market ↦ some b
  | limit ↦ elim (is_filled o) [ true ↦ some b | false ↦ add_order_to_book o b ]
]

-- `level.orders.retain(..)`: the orders with another id, and the quantity of the last one removed.
unfoldable pub retain_others : ℕ → List Order → ℤ → List Order × ℤ
retain_others id [] removed = ([], removed)
retain_others id (o ∷ os) removed =
    let found = o.id == id in
    let (kept, quantity) = retain_others id os (if found then o.remaining_quantity else removed) in
    (if found then kept else o ∷ kept, quantity)

-- What `remove_order_from_book` does to the level of the order's price.
unfoldable pub without_order : ℕ → PriceLevel → PriceLevel
without_order id level =
    let (kept, removed) = retain_others id level.orders (pos 0) in
    record level { orders = kept; total_quantity = level.total_quantity -ℤ removed }

unfoldable pub remove_from_levels : ℕ → ℤ → SortedMap PriceLevel → SortedMap PriceLevel
remove_from_levels id price book = elim (SortedMap.get price book) [
  | none ↦ book
  | some level ↦
      let level' = without_order id level in
      if is_empty level' then SortedMap.remove price book else SortedMap.insert price level' book
]

unfoldable pub remove_order_from_book : Order → OrderBook → OrderBook
remove_order_from_book o b = elim o.price [
  | none ↦ b
  | some price ↦ set_own o.side (remove_from_levels o.id price (own_book o.side b)) b
]

unfoldable pub cancel_order : ℕ → OrderBook → OrderBook × Bool
cancel_order id b = elim (IdMap.get id b.orders) [
  | none ↦ (b, false)
  | some o ↦ (remove_order_from_book o (record b { orders = IdMap.remove id b.orders }), true)
]
