-- ===== src/Engine/Queries.antt =====
-- matching_engine/src/lib.rs: the methods that read the book.
use mexchange_study.Common.{
  ℕ, Bool, true, false, Option, none, some, List, [], ◌∷◌, map, reverse, ℤ, pos, ◌-ℤ◌, ltb_ℤ, take,
  if◌then◌else◌,
}
use mexchange_study.Common.SortedMap
use mexchange_study.Common.SortedMap.{SortedMap}
use mexchange_study.Common.IdMap
use mexchange_study.Engine.Orders.{Side, bid, ask, Order, PriceLevel, OrderBook}

unfoldable pub get_order : ℕ → OrderBook → Option Order
get_order id b = IdMap.get id b.orders

unfoldable pub order_exists : ℕ → OrderBook → Bool
order_exists id b = elim (IdMap.get id b.orders) [ none ↦ false | some _ ↦ true ]

-- `keys().next()` and `keys().next_back()`
unfoldable pub first_key : SortedMap PriceLevel → Option ℤ
first_key [] = none
first_key ((price, level) ∷ book) = some price

unfoldable pub last_key : SortedMap PriceLevel → Option ℤ
last_key [] = none
last_key ((price, level) ∷ book) = elim (last_key book) [ none ↦ some price | some p ↦ some p ]

unfoldable pub best_bid : OrderBook → Option ℤ
best_bid b = last_key b.bids

unfoldable pub best_ask : OrderBook → Option ℤ
best_ask b = first_key b.asks

unfoldable pub spread : OrderBook → Option ℤ
spread b = elim (best_ask b) [
  | none ↦ none
  | some a ↦ elim (best_bid b) [ none ↦ none | some p ↦ if ltb_ℤ p a then some (a -ℤ p) else none ]
]

unfoldable pub quantity_at_price : Side → ℤ → OrderBook → ℤ
quantity_at_price side price b =
    let book : SortedMap PriceLevel = elim side [ bid ↦ b.bids | ask ↦ b.asks ] in
    elim (SortedMap.get price book) [ none ↦ pos 0 | some level ↦ level.total_quantity ]

abbrev pub level_entry : ℤ × PriceLevel → ℤ × ℤ
level_entry (price, level) = (price, level.total_quantity)

-- Best bid first.
unfoldable pub get_bids : ℕ → OrderBook → List (ℤ × ℤ)
get_bids max_levels b = map level_entry (take max_levels (reverse b.bids))

-- Best ask first.
unfoldable pub get_asks : ℕ → OrderBook → List (ℤ × ℤ)
get_asks max_levels b = map level_entry (take max_levels b.asks)
