-- ===== src/Engine/Orders.antt =====
-- matching_engine/src/lib.rs: orders, price levels, fills and the book's fields.
-- A price or a quantity is a Decimal (see Common/Int.antt), an order id a UUID, read as the number
-- that `Uuid::as_u128` gives. `Vec` and `VecDeque` are lists, front first.
use mexchange_study.Common.{
  ℕ, Bool, true, false, Option, none, some, List, [], ◌∷◌, ◌++◌, ℤ, pos, ◌+ℤ◌, eqb_ℤ,
}
use mexchange_study.Common.SortedMap.{SortedMap}
use mexchange_study.Common.IdMap.{IdMap}

pub data Side : Type 0 where
  bid ask : Side

pub data OrderType : Type 0 where
  limit market : OrderType

pub record Order : Type 0 where
  pub id : ℕ
  pub side : Side
  pub order_type : OrderType
  pub price : Option ℤ
  pub quantity : ℤ
  pub remaining_quantity : ℤ

unfoldable pub new_limit : ℕ → Side → ℤ → ℤ → Order
new_limit id side price quantity = record {
  id = id;
  side = side;
  order_type = limit;
  price = some price;
  quantity = quantity;
  remaining_quantity = quantity;
}

unfoldable pub new_market : ℕ → Side → ℤ → Order
new_market id side quantity = record {
  id = id;
  side = side;
  order_type = market;
  price = none;
  quantity = quantity;
  remaining_quantity = quantity;
}

unfoldable pub is_filled : Order → Bool
is_filled o = eqb_ℤ o.remaining_quantity (pos 0)

pub record PriceLevel : Type 0 where
  pub price : ℤ
  pub orders : List Order
  pub total_quantity : ℤ

-- `PriceLevel::new`
unfoldable pub new_level : ℤ → PriceLevel
new_level price = record { price = price; orders = []; total_quantity = pos 0 }

unfoldable pub add_order : PriceLevel → Order → PriceLevel
add_order l o = record l {
  orders = l.orders ++ o ∷ [];
  total_quantity = l.total_quantity +ℤ o.remaining_quantity;
}

unfoldable pub is_empty : PriceLevel → Bool
is_empty l = elim l.orders [ [] ↦ true | _ ↦ false ]

pub record Fill : Type 0 where
  pub buy_order_id : ℕ
  pub sell_order_id : ℕ
  pub price : ℤ
  pub quantity : ℤ

pub record OrderResult : Type 0 where
  pub order_id : ℕ
  pub fills : List Fill
  pub completed_orders : List ℕ

pub record OrderBook : Type 0 where
  pub bids : SortedMap PriceLevel
  pub asks : SortedMap PriceLevel
  pub orders : IdMap Order

-- `OrderBook::new`
unfoldable pub new_book : OrderBook
new_book = record { bids = []; asks = []; orders = [] }
