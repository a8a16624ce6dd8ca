-- ===== src/Engine/Validity/Adding.antt =====
-- `add_limit_order` and `add_market_order` on a well-formed book.
use mexchange_study.Common.{
  ℕ, ◌≡◌, refl, sym, ◌∙◌, subst, inl, inr, false, arith, ℤ, pos, ◌≤ℤ◌, ◌<ℤ◌,
}
use mexchange_study.Engine.Orders.{
  Side, bid, ask, Order, new_market, is_filled, PriceLevel, OrderBook,
}
use mexchange_study.Engine.Matching.{Progress, can_match, opposite_book, set_opposite, match_order}
use mexchange_study.Engine.Operations.{add_market_order}
use mexchange_study.Common.SortedMap.{SortedMap}
use mexchange_study.Common.IdMap
use mexchange_study.Common.IdMap.{IdMap}
use mexchange_study.Common.SortedMap.{Each, Each-map}
use mexchange_study.Engine.Levels.{can_match-SameOrder}
use mexchange_study.Engine.Validity.{
  SideHolds, Uncrossed, IsValid, other, Matched, left_levels, match_order-Matched, left_levels-Each,
  match_order_lem,
}

-- Replacing the asks by ones at some of their prices keeps the book uncrossed, and likewise the bids.
module _ (o : Order) (b : OrderBook) where
  left_asks-Uncrossed : o.side ≡ bid → Uncrossed b.bids b.asks → Uncrossed b.bids (left_levels o b)
  unfolding opposite_book
  left_asks-Uncrossed e u =
      Each-map (λ p l. Each (λ a l'. p <ℤ a) b.asks)
        (λ p l. Each (λ a l'. p <ℤ a) (left_levels o b)) b.bids
        (λ p l h. left_levels-Each (λ a. p <ℤ a) o b (rw e h)) u

  left_bids-Uncrossed : o.side ≡ ask → Uncrossed b.bids b.asks → Uncrossed (left_levels o b) b.asks
  unfolding opposite_book
  left_bids-Uncrossed e u = left_levels-Each (λ p. Each (λ a l'. p <ℤ a) b.asks) o b (rw e u)

-- The book between matching and the rest of the call.
pub match_order-IsValid :
    (o : Order) (side : Side) (b : OrderBook)
    → o.side ≡ side
    → pos 0 ≤ℤ o.remaining_quantity
    → IsValid b
    → IsValid (match_order o b).0
      × Matched o (other side) (match_order o b).1 (opposite_book side (match_order o b).0)
unfolding set_opposite opposite_book
match_order-IsValid o bid b e h v =
    let side_ok : SideHolds ask (opposite_book o.side b) =
      subst (λ (s : Side). SideHolds ask (opposite_book s b)) (sym e) v.asks_hold in
    let done = match_order-Matched o ask b h side_ok in
    rw (match_order_lem o bid b e) (
      record {
        bids_hold = v.bids_hold;
        asks_hold = done.holds;
        uncrossed = left_asks-Uncrossed o b e v.uncrossed;
      },
      done,
    )
match_order-IsValid o ask b e h v =
    let side_ok : SideHolds bid (opposite_book o.side b) =
      subst (λ (s : Side). SideHolds bid (opposite_book s b)) (sym e) v.bids_hold in
    let done = match_order-Matched o bid b h side_ok in
    rw (match_order_lem o ask b e) (
      record {
        bids_hold = done.holds;
        asks_hold = v.asks_hold;
        uncrossed = left_bids-Uncrossed o b e v.uncrossed;
      },
      done,
    )

pub not_filled-positive :
    (o : Order)
    → is_filled o ≡ false
    → pos 0 ≤ℤ o.remaining_quantity
    → pos 0 <ℤ o.remaining_quantity
unfolding is_filled
not_filled-positive o e h = ground arith

-- When the order is not filled, what is left of it accepts no price on the other side.
pub still_refused :
    (o : Order) (side : Side) (s : Progress) (m : SortedMap PriceLevel)
    → Matched o side s m
    → is_filled s.taker ≡ false
    → Each (λ p l. can_match s.taker p ≡ false) m
still_refused o side s m matched more = elim matched.cleared [
  | inl full ↦ cc
  | inr far ↦
      Each-map (λ p l. can_match o p ≡ false) (λ p l. can_match s.taker p ≡ false) m
        (λ p l h. can_match-SameOrder o s.taker p matched.accounted.same ∙ h) far
]

-- A market order of positive quantity leaves a well-formed book too.
pub add_market_order-IsValid :
    (id : ℕ) (side : Side) (quantity : ℤ) (b : OrderBook)
    → pos 0 <ℤ quantity
    → IsValid b
    → IsValid (add_market_order id side quantity b).0
unfolding add_market_order new_market
add_market_order-IsValid id side quantity b h v =
    (match_order-IsValid (new_market id side quantity) side b refl (omega arith) v).0
