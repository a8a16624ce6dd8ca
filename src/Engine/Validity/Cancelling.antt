-- ===== src/Engine/Validity/Cancelling.antt =====
-- A cancelled order leaves the book in shape.
pub mod Leaving
use mexchange_study.Common.{
  ℕ, zero, suc, ◌+◌, ◌-◌, ◌*◌, ◌/◌, ◌%◌, ◌^◌, ◌≤◌, ◌<◌, ◌≡◌, refl, sym, ap, ◌∙◌, subst, ◌≢◌, ◌↔◌,
  ◌⊎◌, inl, inr, Bool, true, false, ◌&&◌, ◌||◌, not, Option, none, some, List, [], ◌∷◌, ◌++◌, map,
  reverse, append-nil, append_assoc, arith, ltb, leb, ◌==◌, if◌then◌else◌, Bool-cases, Option-cases,
  List-cases, length, take, drop, length-append, All, All-append, ℤ, pos, negsuc, pos_part,
  neg_part, ◌+ℤ◌, ◌-ℤ◌, ◌≤ℤ◌, ◌<ℤ◌, ltb_ℤ, leb_ℤ, eqb_ℤ, min_ℤ, +ℤ_parts, -ℤ_parts, eq_of_parts,
  eqb_ℤ→eq, eqb_ℤ-self, min_ℤ-cases, int_laws, same_text, codes, same_codes, lower_all, if_true,
  if_false, if-both,
}
use mexchange_study.Engine.Orders.{Side, bid, ask, Order, PriceLevel, is_empty, OrderBook}
use mexchange_study.Engine.Operations.{
  own_book, set_own, retain_others, without_order, remove_from_levels, remove_order_from_book,
  cancel_order,
}
use mexchange_study.Engine.Queries.{get_order, order_exists}
use mexchange_study.Common.SortedMap
use mexchange_study.Common.SortedMap.{
  SortedMap, Each, Each-map, get-Each, insert-Each, remove-Each, insert-IsSorted, remove-IsSorted,
}
use mexchange_study.Common.IdMap
use mexchange_study.Common.IdMap.{get-remove}
use mexchange_study.Engine.Levels.{Rests, sum_remaining, LevelHolds}
use mexchange_study.Engine.Validity.{SideHolds, IsOpen, Uncrossed, IsValid}

-- How many orders of a queue have the id.
abbrev pub count_id : ℕ → List Order → ℕ
count_id id [] = 0
count_id id (o ∷ os) = (if o.id == id then 1 else 0) + count_id id os

abbrev pub AtMostOnce : ℕ → ℤ → PriceLevel → Type 0
AtMostOnce id p l = count_id id l.orders ≤ 1

retain_others-none :
    (id : ℕ) (os : List Order) (r : ℤ) → count_id id os ≡ 0 → retain_others id os r ≡ (os, r)
unfolding retain_others
retain_others-none id [] r h = refl
retain_others-none id (o ∷ os) r h = elim (Bool-cases (o.id == id)) [
  | inl same ↦ absurd (ground arith)
  | inr other ↦ rw (other, retain_others-none id os r (ground arith)) refl
]

add_left : (a b c d : ℤ) → b +ℤ c ≡ d → (a +ℤ b) +ℤ c ≡ a +ℤ d
add_left a b c d h = rw (sym h) (omega int_laws)

take_off : (a c d : ℤ) → a +ℤ c ≡ d → d -ℤ c ≡ a
take_off a c d h = rw (sym h) (omega int_laws)

-- The quantity taken off is that of the order taken out.
retain_others-sum :
    (id : ℕ) (os : List Order)
    → count_id id os ≤ 1
    → sum_remaining (retain_others id os (pos 0)).0 +ℤ (retain_others id os (pos 0)).1
      ≡ sum_remaining os
unfolding retain_others
retain_others-sum id [] h = omega int_laws
retain_others-sum id (o ∷ os) h = elim (Bool-cases (o.id == id)) [
  | inl same ↦
      rw (same, retain_others-none id os o.remaining_quantity (ground arith)) (omega int_laws)
  | inr other ↦ rw other (
      add_left o.remaining_quantity (sum_remaining (retain_others id os (pos 0)).0)
        (retain_others id os (pos 0)).1 (sum_remaining os) (retain_others-sum id os (ground arith)))
]

retain_others-All :
    (P : Order → Type 0) (id : ℕ) (os : List Order) (r : ℤ)
    → All P os
    → All P (retain_others id os r).0
unfolding retain_others
retain_others-All P id [] r h = tt
retain_others-All P id (o ∷ os) r h = elim (Bool-cases (o.id == id)) [
  | inl same ↦ rw same (retain_others-All P id os o.remaining_quantity h.1)
  | inr other ↦ rw other (h.0, retain_others-All P id os r h.1)
]

without_order-LevelHolds :
    (id : ℕ) (side : Side) (p : ℤ) (l : PriceLevel)
    → AtMostOnce id p l
    → LevelHolds side p l
    → LevelHolds side p (without_order id l)
unfolding without_order
without_order-LevelHolds id side p l once v = record {
  resting = retain_others-All (Rests side p) id l.orders (pos 0) v.resting;
  totalled = rw v.totalled (
      take_off (sum_remaining (retain_others id l.orders (pos 0)).0)
        (retain_others id l.orders (pos 0)).1 (sum_remaining l.orders)
        (retain_others-sum id l.orders once));
}

is_empty-IsOpen : (p : ℤ) (l : PriceLevel) → is_empty l ≡ false → IsOpen p l
unfolding is_empty
is_empty-IsOpen p l e h = ground arith

remove_from_levels-SideHolds :
    (id : ℕ) (side : Side) (p : ℤ) (m : SortedMap PriceLevel)
    → Each (AtMostOnce id) m
    → SideHolds side m
    → SideHolds side (remove_from_levels id p m)
unfolding remove_from_levels
remove_from_levels-SideHolds id side p m once v = elim (Option-cases (SortedMap.get p m)) [
  | inl e ↦ rw (e, remove_from_levels) v
  | inr (l, e) ↦ elim (Bool-cases (is_empty (without_order id l))) [
    | inl none_left ↦
        rw (e, remove_from_levels, none_left)
          (record {
            sorted = remove-IsSorted p m v.sorted;
            levels = remove-Each (LevelHolds side) p m v.levels;
            open_levels = remove-Each IsOpen p m v.open_levels;
          })
    | inr some_left ↦
        rw (e, remove_from_levels, some_left)
          (record {
            sorted = insert-IsSorted p (without_order id l) m v.sorted;
            levels =
                insert-Each (LevelHolds side) p (without_order id l) m
                  (without_order-LevelHolds id side p l (get-Each (AtMostOnce id) p m once e)
                    (get-Each (LevelHolds side) p m v.levels e))
                  v.levels;
            open_levels =
                insert-Each IsOpen p (without_order id l) m
                  (is_empty-IsOpen p (without_order id l) some_left) v.open_levels;
          })
  ]
]

remove_from_levels-Each :
    (K : ℤ → Type 0) (id : ℕ) (p : ℤ) (m : SortedMap PriceLevel)
    → Each (λ q l. K q) m
    → Each (λ q l. K q) (remove_from_levels id p m)
unfolding remove_from_levels
remove_from_levels-Each K id p m h = elim (Option-cases (SortedMap.get p m)) [
  | inl e ↦ rw (e, remove_from_levels) h
  | inr (l, e) ↦ elim (Bool-cases (is_empty (without_order id l))) [
    | inl none_left ↦ rw (e, remove_from_levels, none_left) (remove-Each (λ q l. K q) p m h)
    | inr some_left ↦
        rw (e, remove_from_levels, some_left)
          (insert-Each (λ q l. K q) p (without_order id l) m (get-Each (λ q l. K q) p m h e) h)
  ]
]

-- No queue of the book has an order twice.
pub record DistinctIds (b : OrderBook) : Type 0 where
  pub once_bid : (id : ℕ) → Each (AtMostOnce id) b.bids
  pub once_ask : (id : ℕ) → Each (AtMostOnce id) b.asks

-- Taking a bid or an ask off its level keeps the book in shape.
remove_from_side-IsValid :
    (id : ℕ) (side : Side) (p : ℤ) (b : OrderBook)
    → DistinctIds b
    → IsValid b
    → IsValid (set_own side (remove_from_levels id p (own_book side b)) b)
unfolding set_own own_book
remove_from_side-IsValid id bid p b once v = record {
  bids_hold = remove_from_levels-SideHolds id bid p b.bids (once.once_bid id) v.bids_hold;
  asks_hold = v.asks_hold;
  uncrossed = remove_from_levels-Each (λ q. Each (λ a l. q <ℤ a) b.asks) id p b.bids v.uncrossed;
}
remove_from_side-IsValid id ask p b once v = record {
  bids_hold = v.bids_hold;
  asks_hold = remove_from_levels-SideHolds id ask p b.asks (once.once_ask id) v.asks_hold;
  uncrossed =
      Each-map (λ q l. Each (λ a l'. q <ℤ a) b.asks)
        (λ q l. Each (λ a l'. q <ℤ a) (remove_from_levels id p b.asks)) b.bids
        (λ q l h. remove_from_levels-Each (λ a. q <ℤ a) id p b.asks h) v.uncrossed;
}

remove_order_from_book-IsValid :
    (o : Order) (b : OrderBook) → DistinctIds b → IsValid b → IsValid (remove_order_from_book o b)
unfolding remove_order_from_book
remove_order_from_book-IsValid o b once v = elim (Option-cases o.price) [
  | inl e ↦ rw (e, remove_order_from_book) v
  | inr (p, e) ↦ rw (e, remove_order_from_book) (remove_from_side-IsValid o.id o.side p b once v)
]

remove_order_from_book-orders :
    (o : Order) (b : OrderBook) → (remove_order_from_book o b).orders ≡ b.orders
unfolding remove_order_from_book set_own
remove_order_from_book-orders o b = elim (Option-cases o.price) [
  | inl e ↦ rw (e, remove_order_from_book) refl
  | inr (p, e) ↦
      rw (e, remove_order_from_book)
        (set_own-orders o.side (remove_from_levels o.id p (own_book o.side b)))
]
  where
    set_own-orders : (side : Side) (m : SortedMap PriceLevel) → (set_own side m b).orders ≡ b.orders
    set_own-orders bid m = refl
    set_own-orders ask m = refl

-- In a well-formed book whose queues have no order twice, cancelling by id succeeds exactly when
-- the book knows the id, and leaves a well-formed book that no longer knows it.
pub cancel_order-IsValid :
    (id : ℕ) (b : OrderBook)
    → DistinctIds b
    → IsValid b
    → IsValid (cancel_order id b).0
      × (get_order id (cancel_order id b).0 ≡ none)
      × ((cancel_order id b).1 ≡ order_exists id b)
unfolding cancel_order get_order order_exists remove_order_from_book
cancel_order-IsValid id b once v = elim (Option-cases (IdMap.get id b.orders)) [
  | inl e ↦ rw (e, cancel_order, order_exists) (v, e, refl)
  | inr (o, e) ↦
      let b' : OrderBook = record b { orders = IdMap.remove id b.orders } in
      let once' : DistinctIds b' = record { once_bid = once.once_bid; once_ask = once.once_ask } in
      let v' : IsValid b' = record {
        bids_hold = v.bids_hold;
        asks_hold = v.asks_hold;
        uncrossed = v.uncrossed;
      } in
      rw (e, cancel_order, order_exists, remove_order_from_book-orders o b')
        (
          remove_order_from_book-IsValid o b' once' v',
          ground (get-remove id id b.orders, arith),
          refl,
        )
]
