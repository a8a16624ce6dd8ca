-- ===== src/Engine/Reachable.antt =====
-- The books that the engine can come to.
use mexchange_study.Common.{ℕ, ◌≡◌, some, ℤ, pos, ◌<ℤ◌}
use mexchange_study.Engine.Orders.{Side, OrderResult, OrderBook, new_book}
use mexchange_study.Engine.Operations.{add_limit_order, add_market_order, cancel_order}
use mexchange_study.Engine.Validity.Counts.{AtMostIn}

-- A book that is reached from the empty one by orders of positive quantity, the limit orders under ids
-- that stand in no queue, and by cancellations. `restore_order` is no step of it.
pub data Reachable : OrderBook → Type 0 where
  empty : Reachable new_book
  added_limit :
      (id : ℕ) (side : Side) (price quantity : ℤ) (b b' : OrderBook) (r : OrderResult)
      → AtMostIn id 0 b
      → pos 0 <ℤ quantity
      → add_limit_order id side price quantity b ≡ some (b', r)
      → Reachable b
      → Reachable b'
  added_market :
      (id : ℕ) (side : Side) (quantity : ℤ) (b : OrderBook)
      → pos 0 <ℤ quantity
      → Reachable b
      → Reachable (add_market_order id side quantity b).0
  cancelled : (id : ℕ) (b : OrderBook) → Reachable b → Reachable (cancel_order id b).0
