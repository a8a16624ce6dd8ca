-- ===== src/Engine/Matching.antt =====
-- matching_engine/src/lib.rs: `match_order` and its loops. What the method changes through `&mut`
-- comes back as the new state.
use mexchange_study.Common.{
  ℕ, zero, suc, Bool, true, false, ◌&&◌, not, none, some, List, [], ◌∷◌, ◌++◌, reverse, ℤ, ◌-ℤ◌,
  min_ℤ, leb_ℤ, length, if◌then◌else◌,
}
use mexchange_study.Common.SortedMap
use mexchange_study.Common.SortedMap.{SortedMap}
use mexchange_study.Common.IdMap
use mexchange_study.Common.IdMap.{IdMap}
use mexchange_study.Engine.Orders.{
  Side, bid, ask, limit, market, Order, is_filled, PriceLevel, is_empty, Fill, OrderBook,
}

-- What `match_order` changes besides the levels: the order, the index and the two reports.
pub record Progress : Type 0 where
  pub taker : Order
  pub orders : IdMap Order
  pub fills : List Fill
  pub completed_orders : List ℕ

-- The `Fill` that the loop pushes: the taker is the buyer if it is a bid.
unfoldable pub fill_of : Order → Order → ℤ → ℤ → Fill
fill_of taker maker price quantity = elim taker.side [
  | bid ↦ record {
    buy_order_id = taker.id;
    sell_order_id = maker.id;
    price = price;
    quantity = quantity;
  }
  | ask ↦ record {
    buy_order_id = maker.id;
    sell_order_id = taker.id;
    price = price;
    quantity = quantity;
  }
]

-- One round of `while !level.orders.is_empty() && !order.is_filled()`, with the popped order and
-- the queue behind it.
unfoldable pub match_front : ℤ → Progress → PriceLevel → Order → List Order → Progress × PriceLevel
match_front price s level front rest =
    let quantity = min_ℤ s.taker.remaining_quantity front.remaining_quantity in
    let taker = record s.taker { remaining_quantity = s.taker.remaining_quantity -ℤ quantity } in
    let maker = record front { remaining_quantity = front.remaining_quantity -ℤ quantity } in
    let total = level.total_quantity -ℤ quantity in
    let fills = s.fills ++ fill_of taker maker price quantity ∷ [] in
    if is_filled maker
    then (
      record {
        taker = taker;
        orders = IdMap.remove maker.id s.orders;
        fills = fills;
        completed_orders = s.completed_orders ++ maker.id ∷ [];
      },
      record level { orders = rest; total_quantity = total },
    )
    else (
      record {
        taker = taker;
        orders = IdMap.insert maker.id maker s.orders;
        fills = fills;
        completed_orders = s.completed_orders;
      },
      record level { orders = maker ∷ rest; total_quantity = total },
    )

-- The `while` loop on one level, on fuel.
unfoldable pub match_level : ℕ → ℤ → Progress → PriceLevel → Progress × PriceLevel
match_level zero price s level = (s, level)
match_level (suc fuel) price s level = elim level.orders [
  | [] ↦ (s, level)
  | front ∷ rest ↦ elim (is_filled s.taker) [
    | true ↦ (s, level)
    | false ↦
        let (s', level') = match_front price s level front rest in match_level fuel price s' level'
  ]
]

-- A round either uses up the front order or fills the taker, so there is at most one round for each
-- order of the level, and a last test.
unfoldable pub level_fuel : PriceLevel → ℕ
level_fuel level = suc (length level.orders)

-- `can_match`. A limit order with no price would panic there; `match_order` gets orders of
-- `new_limit` and `new_market` only, and changes nothing of them but the remaining quantity.
unfoldable pub can_match : Order → ℤ → Bool
can_match o price = elim o.order_type [
  | market ↦ true
  | limit ↦ elim o.price [
    | none ↦ false
    | some order_price ↦ elim o.side [
      | bid ↦ leb_ℤ price order_price
      | ask ↦ leb_ℤ order_price price
    ]
  ]
]

-- The state of the `for` loop of `match_order`.
pub record Matching : Type 0 where
  pub progress : Progress
  pub book : SortedMap PriceLevel
  pub prices_to_remove : List ℤ

-- The body of the `for` loop behind its two `break`s.
unfoldable pub match_price : ℤ → Matching → Matching
match_price price m = elim (SortedMap.get price m.book) [
  | none ↦ m
  | some level ↦
      let (s, level') = match_level (level_fuel level) price m.progress level in
      record {
        progress = s;
        book = SortedMap.insert price level' m.book;
        prices_to_remove =
            if is_empty level' then m.prices_to_remove ++ price ∷ [] else m.prices_to_remove;
      }
]

unfoldable pub match_prices : List ℤ → Matching → Matching
match_prices [] m = m
match_prices (price ∷ prices) m =
    elim (not (is_filled m.progress.taker) && can_match m.progress.taker price) [
      | true ↦ match_prices prices (match_price price m)
      | false ↦ m
    ]

unfoldable pub remove_levels : List ℤ → SortedMap PriceLevel → SortedMap PriceLevel
remove_levels [] book = book
remove_levels (price ∷ prices) book = remove_levels prices (SortedMap.remove price book)

unfoldable pub prices_to_match : Side → SortedMap PriceLevel → List ℤ
prices_to_match bid book = SortedMap.keys book
prices_to_match ask book = reverse (SortedMap.keys book)

unfoldable pub opposite_book : Side → OrderBook → SortedMap PriceLevel
opposite_book bid b = b.asks
opposite_book ask b = b.bids

unfoldable pub set_opposite : Side → SortedMap PriceLevel → OrderBook → OrderBook
set_opposite bid levels b = record b { asks = levels }
set_opposite ask levels b = record b { bids = levels }

unfoldable pub start : Order → OrderBook → Matching
start o b = record {
  progress = record { taker = o; orders = b.orders; fills = []; completed_orders = [] };
  book = opposite_book o.side b;
  prices_to_remove = [];
}

-- The book and the locals when `match_order` returns.
unfoldable pub match_order : Order → OrderBook → OrderBook × Progress
match_order o b =
    let m = match_prices (prices_to_match o.side (opposite_book o.side b)) (start o b) in
    let levels = remove_levels m.prices_to_remove m.book in
    (set_opposite o.side levels (record b { orders = m.progress.orders }), m.progress)
