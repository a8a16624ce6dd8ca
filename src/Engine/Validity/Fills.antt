-- ===== src/Engine/Validity/Fills.antt =====
-- The fills that an order gets, and what becomes of the rest.
use mexchange_study.Common.{
  ℕ, ◌≡◌, refl, ap, ◌⊎◌, inl, inr, true, false, [], ◌∷◌, arith, All, ℤ, pos, pos_part, neg_part,
  ◌≤ℤ◌, ◌<ℤ◌, eqb_ℤ→eq, int_laws,
}
use mexchange_study.Engine.Orders.{Side, Order, new_market, is_filled, PriceLevel, OrderBook}
use mexchange_study.Engine.Matching.{Progress, can_match, opposite_book, match_order}
use mexchange_study.Engine.Operations.{result_of, add_market_order}
use mexchange_study.Common.SortedMap.{SortedMap}
use mexchange_study.Common.IdMap
use mexchange_study.Common.IdMap.{IdMap}
use mexchange_study.Common.SortedMap.{Each}
use mexchange_study.Engine.Levels.{sum_fills, GoodFill, Accounted}
use mexchange_study.Engine.Validity.{IsValid}
use mexchange_study.Engine.Validity.Adding.{match_order-IsValid}

filled-sum :
    (o : Order) (s : Progress)
    → Accounted o s
    → is_filled s.taker ≡ true
    → sum_fills s.fills ≡ o.remaining_quantity
unfolding is_filled
filled-sum o s a e =
    let left : s.taker.remaining_quantity ≡ pos 0 = eqb_ℤ→eq s.taker.remaining_quantity (pos 0) e in
    omega
      (int_laws, ap pos_part left, ap neg_part left, ap pos_part a.balanced, ap neg_part a.balanced)

fills-le : (o : Order) (s : Progress) → Accounted o s → sum_fills s.fills ≤ℤ o.remaining_quantity
fills-le o s a = omega (int_laws, a.left_over, ap pos_part a.balanced, ap neg_part a.balanced)

market_accepts :
    (id : ℕ) (side : Side) (quantity p : ℤ) → can_match (new_market id side quantity) p ≡ true
unfolding new_market can_match
market_accepts id side quantity p = refl

no_level :
    (id : ℕ) (side : Side) (quantity : ℤ) (m : SortedMap PriceLevel)
    → Each (λ p l. can_match (new_market id side quantity) p ≡ false) m
    → m ≡ []
no_level id side quantity [] h = refl
no_level id side quantity ((p, l) ∷ m) h = cc (market_accepts id side quantity p, h.0)

-- The fills of a market order are of positive quantities, with the order on its own side, and add up
-- to its quantity, unless the other side of the book is used up; they never exceed it.
pub add_market_order-fills :
    (id : ℕ) (side : Side) (quantity : ℤ) (b : OrderBook)
    → pos 0 <ℤ quantity
    → IsValid b
    → let (b', r) = add_market_order id side quantity b in
      All (GoodFill (new_market id side quantity)) r.fills
      × (sum_fills r.fills ≤ℤ quantity)
      × ((sum_fills r.fills ≡ quantity) ⊎ (opposite_book side b' ≡ []))
unfolding add_market_order new_market result_of
add_market_order-fills id side quantity b h v =
    let o = new_market id side quantity in
    let matched = (match_order-IsValid o side b refl (omega arith) v).1 in
    let s = (match_order o b).1 in
    (
      matched.accounted.good,
      fills-le o s matched.accounted,
      elim matched.cleared [
        | inl full ↦ inl (filled-sum o s matched.accounted full)
        | inr far ↦ inr (no_level id side quantity (opposite_book side (match_order o b).0) far)
      ],
    )
