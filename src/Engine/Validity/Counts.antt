-- ===== src/Engine/Validity/Counts.antt =====
-- How often an order id stands in the queues of a book, and what the operations do to that.
use mexchange_study.Common.{
  ℕ, ◌+◌, ◌≤◌, ◌≡◌, sym, ap, subst, inl, inr, some, List, [], ◌∷◌, ◌++◌, arith, ◌==◌, if◌then◌else◌,
  Bool-cases, Option-cases, ℤ, pos,
}
use mexchange_study.Engine.Orders.{
  Side, bid, ask, Order, PriceLevel, new_level, add_order, is_empty, OrderBook,
}
use mexchange_study.Engine.Matching.{
  Progress, Matching, match_front, match_level, level_fuel, match_price, prices_to_match,
  opposite_book, set_opposite, start, match_order,
}
use mexchange_study.Engine.Operations.{
  own_book, set_own, enqueue, add_order_to_book, retain_others, without_order, remove_from_levels,
  remove_order_from_book, cancel_order,
}
use mexchange_study.Common.SortedMap
use mexchange_study.Common.SortedMap.{SortedMap, Each, Each-map, get-Each, insert-Each, remove-Each}
use mexchange_study.Common.IdMap
use mexchange_study.Engine.Loops.{LevelState, match_level_inv, match_prices_inv}
use mexchange_study.Engine.Sweep.{visit, match_price-visit, match_price-none}
use mexchange_study.Engine.Validity.{swept, left_levels, remove_levels-Each, match_order_lem}
use mexchange_study.Engine.Validity.Cancelling.{count_id}

abbrev pub AtMost : ℕ → ℕ → ℤ → PriceLevel → Type 0
AtMost id n p l = count_id id l.orders ≤ n

-- No queue of the book has the id more often.
pub record AtMostIn (id n : ℕ) (b : OrderBook) : Type 0 where
  pub in_bids : Each (AtMost id n) b.bids
  pub in_asks : Each (AtMost id n) b.asks

-- The share of one order.
abbrev pub own_count : ℕ → Order → ℕ
own_count id o = if o.id == id then 1 else 0

count_id-append :
    (id : ℕ) (os ps : List Order) → count_id id (os ++ ps) ≡ count_id id os + count_id id ps
count_id-append id [] ps = omega arith
count_id-append id (o ∷ os) ps = rw (count_id-append id os ps) (omega arith)

module _ (id n : ℕ) where
  match_front-AtMost :
      (price : ℤ) (s : Progress) (l : PriceLevel) (front : Order) (rest : List Order)
      → l.orders ≡ front ∷ rest
      → AtMost id n price l
      → AtMost id n price (match_front price s l front rest).1
  unfolding match_front
  match_front-AtMost price s l front rest e h =
      let split : count_id id l.orders ≡ own_count id front + count_id id rest =
        ap (count_id id) e in
      ground arith

  match_level-AtMost :
      (price : ℤ) (fuel : ℕ) (s : Progress) (l : PriceLevel)
      → AtMost id n price l
      → AtMost id n price (match_level fuel price s l).1
  match_level-AtMost price fuel s l h =
      match_level_inv (λ (st : LevelState). AtMost id n price st.1) price
        (λ s l front rest e more h. match_front-AtMost price s l front rest e h) fuel s l h

  match_price-AtMost :
      (price : ℤ) (m : Matching)
      → Each (AtMost id n) m.book
      → Each (AtMost id n) (match_price price m).book
  unfolding visit
  match_price-AtMost price m h = elim (Option-cases (SortedMap.get price m.book)) [
    | inl e ↦ rw (match_price-none price m e) h
    | inr (l, e) ↦ rw (match_price-visit price m l e) (
        insert-Each (AtMost id n) price (match_level (level_fuel l) price m.progress l).1 m.book
          (match_level-AtMost price (level_fuel l) m.progress l
            (get-Each (AtMost id n) price m.book h e))
          h)
  ]

  left_levels-AtMost :
      (o : Order) (b : OrderBook)
      → Each (AtMost id n) (opposite_book o.side b)
      → Each (AtMost id n) (left_levels o b)
  unfolding left_levels swept start
  left_levels-AtMost o b h =
      remove_levels-Each (AtMost id n) (swept o b).prices_to_remove (swept o b).book (
        match_prices_inv (λ (m : Matching). Each (AtMost id n) m.book)
          (λ price m more ok k. match_price-AtMost price m k)
          (prices_to_match o.side (opposite_book o.side b)) (start o b) h)

  pub match_order-AtMostIn :
      (o : Order) (side : Side) (b : OrderBook)
      → o.side ≡ side
      → AtMostIn id n b
      → AtMostIn id n (match_order o b).0
  unfolding set_opposite opposite_book
  match_order-AtMostIn o bid b e v = rw (match_order_lem o bid b e) (record {
    in_bids = v.in_bids;
    in_asks =
        left_levels-AtMost o b
          (subst (λ (s : Side). Each (AtMost id n) (opposite_book s b)) (sym e) v.in_asks);
  })
  match_order-AtMostIn o ask b e v = rw (match_order_lem o ask b e) (record {
    in_bids =
        left_levels-AtMost o b
          (subst (λ (s : Side). Each (AtMost id n) (opposite_book s b)) (sym e) v.in_bids);
    in_asks = v.in_asks;
  })

  AtMost-more :
      (k : ℕ) (m : SortedMap PriceLevel) → Each (AtMost id n) m → Each (AtMost id (n + k)) m
  AtMost-more k m h = Each-map (AtMost id n) (AtMost id (n + k)) m (λ p l h. omega arith) h

  pub AtMostIn-more : (k : ℕ) (b : OrderBook) → AtMostIn id n b → AtMostIn id (n + k) b
  AtMostIn-more k b v = record {
    in_bids = AtMost-more k b.bids v.in_bids;
    in_asks = AtMost-more k b.asks v.in_asks;
  }

  enqueue-AtMost :
      (price : ℤ) (o : Order) (m : SortedMap PriceLevel)
      → Each (AtMost id n) m
      → Each (AtMost id (n + own_count id o)) (enqueue price o m)
  unfolding enqueue add_order new_level
  enqueue-AtMost price o m h = elim (Option-cases (SortedMap.get price m)) [
    | inl e ↦ rw (e, enqueue) (put (add_order (new_level price) o) (omega arith))
    | inr (l, e) ↦
        let at_most : count_id id l.orders ≤ n = get-Each (AtMost id n) price m h e in
        let split = count_id-append id l.orders (o ∷ []) in
        rw (e, enqueue) (put (add_order l o) (omega (arith, split)))
  ]
    where
      put :
          (l : PriceLevel)
          → AtMost id (n + own_count id o) price l
          → Each (AtMost id (n + own_count id o)) (SortedMap.insert price l m)
      put l k =
          insert-Each (AtMost id (n + own_count id o)) price l m k
            (AtMost-more (own_count id o) m h)

  pub add_order_to_book-AtMostIn :
      (o : Order) (b b' : OrderBook)
      → add_order_to_book o b ≡ some b'
      → AtMostIn id n b
      → AtMostIn id (n + own_count id o) b'
  unfolding add_order_to_book set_own own_book
  add_order_to_book-AtMostIn o b b' e v = elim (Option-cases o.price) [
    | inl none_given ↦ absurd (ground arith)
    | inr (p, given) ↦ subst (AtMostIn id (n + own_count id o)) (ground arith) (put o.side p)
  ]
    where
      put :
          (side : Side) (p : ℤ)
          → AtMostIn id (n + own_count id o) (
              set_own side
                (enqueue p o (own_book side b))
                (record b { orders = IdMap.insert o.id o b.orders }))
      put bid p = record {
        in_bids = enqueue-AtMost p o b.bids v.in_bids;
        in_asks = AtMost-more (own_count id o) b.asks v.in_asks;
      }
      put ask p = record {
        in_bids = AtMost-more (own_count id o) b.bids v.in_bids;
        in_asks = enqueue-AtMost p o b.asks v.in_asks;
      }

-- An order that is taken out only lowers the counts.
retain_others-count_le :
    (id i : ℕ) (os : List Order) (r : ℤ) → count_id id (retain_others i os r).0 ≤ count_id id os
unfolding retain_others
retain_others-count_le id i [] r = omega arith
retain_others-count_le id i (o ∷ os) r = elim (Bool-cases (o.id == i)) [
  | inl same ↦
      let rest = retain_others-count_le id i os o.remaining_quantity in
      rw same (omega (arith, rest))
  | inr other ↦ let rest = retain_others-count_le id i os r in rw other (omega (arith, rest))
]

without_order-count_le :
    (id i : ℕ) (l : PriceLevel) → count_id id (without_order i l).orders ≤ count_id id l.orders
unfolding without_order
without_order-count_le id i l = retain_others-count_le id i l.orders (pos 0)

module _ (id n : ℕ) where
  remove_from_levels-AtMost :
      (i : ℕ) (p : ℤ) (m : SortedMap PriceLevel)
      → Each (AtMost id n) m
      → Each (AtMost id n) (remove_from_levels i p m)
  unfolding remove_from_levels
  remove_from_levels-AtMost i p m h = elim (Option-cases (SortedMap.get p m)) [
    | inl e ↦ rw (e, remove_from_levels) h
    | inr (l, e) ↦
        let at_most : count_id id l.orders ≤ n = get-Each (AtMost id n) p m h e in
        let less = without_order-count_le id i l in
        elim (Bool-cases (is_empty (without_order i l))) [
          | inl none_left ↦ rw (e, remove_from_levels, none_left) (remove-Each (AtMost id n) p m h)
          | inr some_left ↦
              rw (e, remove_from_levels, some_left)
                (insert-Each (AtMost id n) p (without_order i l) m (omega (arith, at_most, less)) h)
        ]
  ]

  remove_from_side-AtMostIn :
      (i : ℕ) (side : Side) (p : ℤ) (b : OrderBook)
      → AtMostIn id n b
      → AtMostIn id n (set_own side (remove_from_levels i p (own_book side b)) b)
  unfolding set_own own_book
  remove_from_side-AtMostIn i bid p b v = record {
    in_bids = remove_from_levels-AtMost i p b.bids v.in_bids;
    in_asks = v.in_asks;
  }
  remove_from_side-AtMostIn i ask p b v = record {
    in_bids = v.in_bids;
    in_asks = remove_from_levels-AtMost i p b.asks v.in_asks;
  }

  remove_order_from_book-AtMostIn :
      (o : Order) (b : OrderBook) → AtMostIn id n b → AtMostIn id n (remove_order_from_book o b)
  unfolding remove_order_from_book
  remove_order_from_book-AtMostIn o b v = elim (Option-cases o.price) [
    | inl e ↦ rw (e, remove_order_from_book) v
    | inr (p, e) ↦ rw (e, remove_order_from_book) (remove_from_side-AtMostIn o.id o.side p b v)
  ]

  pub cancel_order-AtMostIn :
      (i : ℕ) (b : OrderBook) → AtMostIn id n b → AtMostIn id n (cancel_order i b).0
  unfolding cancel_order
  cancel_order-AtMostIn i b v = elim (Option-cases (IdMap.get i b.orders)) [
    | inl e ↦ rw (e, cancel_order) v
    | inr (o, e) ↦
        rw (e, cancel_order)
          (remove_order_from_book-AtMostIn o (record b { orders = IdMap.remove i b.orders })
            (record { in_bids = v.in_bids; in_asks = v.in_asks }))
  ]
