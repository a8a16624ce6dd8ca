-- ===== src/Engine/Validity/Cancelling/Leaving.antt =====
-- A cancelled order leaves its queue.
use mexchange_study.Common.{
  ℕ, ◌≡◌, refl, inl, inr, false, none, some, List, [], ◌∷◌, ◌==◌, Bool-cases, Option-cases, ℤ, pos,
  eqb_ℤ,
}
use mexchange_study.Engine.Orders.{Side, bid, ask, Order, PriceLevel, is_empty, OrderBook}
use mexchange_study.Engine.Operations.{
  own_book, set_own, retain_others, without_order, remove_from_levels, remove_order_from_book,
  cancel_order,
}
use mexchange_study.Common.SortedMap
use mexchange_study.Common.SortedMap.{
  SortedMap, IsSorted, Each, get-Each, get-remove_self, get-remove_ne, get-insert, get-insert_self,
}
use mexchange_study.Common.IdMap
use mexchange_study.Common.IdMap.{IdMap}
use mexchange_study.Engine.Matching.{opposite_book}
use mexchange_study.Engine.Queries.{get_order}
use mexchange_study.Engine.Validity.{IsValid}
use mexchange_study.Engine.Validity.Cancelling.{count_id}

retain_others-count : (id : ℕ) (os : List Order) (r : ℤ) → count_id id (retain_others id os r).0 ≡ 0
unfolding retain_others
retain_others-count id [] r = refl
retain_others-count id (o ∷ os) r = elim (Bool-cases (o.id == id)) [
  | inl same ↦ rw same (retain_others-count id os o.remaining_quantity)
  | inr other ↦ rw (other, other, retain_others-count id os r) refl
]

without_order-count : (id : ℕ) (l : PriceLevel) → count_id id (without_order id l).orders ≡ 0
unfolding without_order
without_order-count id l = retain_others-count id l.orders (pos 0)

-- How many orders with the id wait at the price.
abbrev pub count_at : ℕ → ℤ → SortedMap PriceLevel → ℕ
count_at id p m = elim (SortedMap.get p m) [ none ↦ 0 | some l ↦ count_id id l.orders ]

remove_from_levels-count :
    (id : ℕ) (p : ℤ) (m : SortedMap PriceLevel)
    → IsSorted m
    → count_at id p (remove_from_levels id p m) ≡ 0
unfolding remove_from_levels
remove_from_levels-count id p m s = elim (Option-cases (SortedMap.get p m)) [
  | inl e ↦ rw (e, remove_from_levels, count_at, e) refl
  | inr (l, e) ↦ elim (Bool-cases (is_empty (without_order id l))) [
    | inl none_left ↦ rw (e, remove_from_levels, none_left, count_at, get-remove_self p m s) refl
    | inr some_left ↦
        rw (e, remove_from_levels, some_left, count_at, get-insert_self p (without_order id l) m)
          (without_order-count id l)
  ]
]

remove_from_levels-get :
    (id : ℕ) (p q : ℤ) (m : SortedMap PriceLevel)
    → eqb_ℤ q p ≡ false
    → SortedMap.get q (remove_from_levels id p m) ≡ SortedMap.get q m
unfolding remove_from_levels
remove_from_levels-get id p q m other = elim (Option-cases (SortedMap.get p m)) [
  | inl e ↦ rw (e, remove_from_levels) refl
  | inr (l, e) ↦ elim (Bool-cases (is_empty (without_order id l))) [
    | inl none_left ↦ rw (e, remove_from_levels, none_left) (get-remove_ne q p m other)
    | inr some_left ↦
        rw (e, remove_from_levels, some_left, get-insert q p (without_order id l) m, other) refl
  ]
]

module _ (id : ℕ) (p q : ℤ) (b : OrderBook) (index : IdMap Order) where
  -- The same on the side of the order, with the index that is left.
  Left : Side → OrderBook → Type 0
  Left side b' =
      (count_at id p (own_book side b') ≡ 0)
      × (SortedMap.get q (own_book side b') ≡ SortedMap.get q (own_book side b))
      × (opposite_book side b' ≡ opposite_book side b)

  remove_from_side-Left :
      (side : Side)
      → IsValid b
      → eqb_ℤ q p ≡ false
      → Left side (
          set_own side
            (remove_from_levels id p (own_book side (record b { orders = index })))
            (record b { orders = index }))
  unfolding set_own own_book opposite_book Left
  remove_from_side-Left bid v other = (
    remove_from_levels-count id p b.bids v.bids_hold.sorted,
    remove_from_levels-get id p q b.bids other,
    refl,
  )
  remove_from_side-Left ask v other = (
    remove_from_levels-count id p b.asks v.asks_hold.sorted,
    remove_from_levels-get id p q b.asks other,
    refl,
  )

-- When the index of a well-formed book gives an order with a price for the id, cancelling leaves
-- no order with that order's id at its price, and changes neither the levels at the other prices
-- of its side nor the opposite side.
pub cancel_order-leaves :
    (id : ℕ) (b : OrderBook) (o : Order) (p q : ℤ)
    → IsValid b
    → get_order id b ≡ some o
    → o.price ≡ some p
    → eqb_ℤ q p ≡ false
    → (count_at o.id p (own_book o.side (cancel_order id b).0) ≡ 0)
      × (SortedMap.get q (own_book o.side (cancel_order id b).0)
          ≡ SortedMap.get q (own_book o.side b))
      × (opposite_book o.side (cancel_order id b).0 ≡ opposite_book o.side b)
unfolding cancel_order get_order remove_order_from_book Left
cancel_order-leaves id b o p q v found priced other =
    rw (found, cancel_order, priced, remove_order_from_book)
      (remove_from_side-Left o.id p q b (IdMap.remove id b.orders) o.side v other)
