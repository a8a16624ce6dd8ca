-- ===== src/Engine/Validity/Enqueue.antt =====
-- An order that joins its side of the book.
use mexchange_study.Common.{
  ◌≡◌, refl, ◌≢◌, inl, inr, false, some, List, [], ◌∷◌, ◌++◌, arith, Option-cases, All-append, ℤ,
  ◌+ℤ◌, ◌<ℤ◌, int_laws,
}
use mexchange_study.Engine.Orders.{Side, bid, ask, limit, Order, PriceLevel, new_level, add_order}
use mexchange_study.Engine.Matching.{can_match}
use mexchange_study.Engine.Operations.{enqueue}
use mexchange_study.Common.SortedMap
use mexchange_study.Common.SortedMap.{SortedMap}
use mexchange_study.Common.SortedMap.{
  SortedFrom, IsSorted, IsSorted-of_from, Each, Each-map, Each-zip, get-Each, insert-Each,
  remove-Each, insert-IsSorted, remove-IsSorted, remove-Each_ne, get-none-Each, SortedFrom-Each,
  get-insert, get-insert_self,
}
use mexchange_study.Engine.Levels.{Rests, sum_remaining, LevelHolds}
use mexchange_study.Engine.Validity.{SideHolds, IsOpen}

sum_remaining-append :
    (os ps : List Order) → sum_remaining (os ++ ps) ≡ sum_remaining os +ℤ sum_remaining ps
sum_remaining-append [] ps = omega int_laws
sum_remaining-append (o ∷ os) ps = rw (sum_remaining-append os ps) (omega int_laws)

append-ne_nil : (os : List Order) (o : Order) → os ++ o ∷ [] ≢ []
append-ne_nil [] o e = cc
append-ne_nil (x ∷ xs) o e = cc

add_order-LevelHolds :
    (side : Side) (price : ℤ) (l : PriceLevel) (o : Order)
    → Rests side price o
    → LevelHolds side price l
    → LevelHolds side price (add_order l o)
unfolding add_order
add_order-LevelHolds side price l o r v = record {
  resting = All-append (Rests side price) l.orders (o ∷ []) v.resting (r, tt);
  totalled = rw (sum_remaining-append l.orders (o ∷ []), v.totalled) (omega int_laws);
}

new_level-LevelHolds : (side : Side) (price : ℤ) → LevelHolds side price (new_level price)
unfolding new_level
new_level-LevelHolds side price = record { resting = tt; totalled = refl }

-- An order that rests on its side leaves that side in shape.
pub enqueue-SideHolds :
    (side : Side) (price : ℤ) (o : Order) (m : SortedMap PriceLevel)
    → Rests side price o
    → SideHolds side m
    → SideHolds side (enqueue price o m)
unfolding enqueue add_order new_level
enqueue-SideHolds side price o m r v = elim (Option-cases (SortedMap.get price m)) [
  | inl e ↦
      rw (e, enqueue)
        (put (add_order (new_level price) o)
          (add_order-LevelHolds side price (new_level price) o r (new_level-LevelHolds side price))
          (append-ne_nil [] o))
  | inr (l, e) ↦
      rw (e, enqueue)
        (put (add_order l o)
          (add_order-LevelHolds side price l o r (get-Each (LevelHolds side) price m v.levels e))
          (append-ne_nil l.orders o))
]
  where
    put :
        (l : PriceLevel)
        → LevelHolds side price l
        → IsOpen price l
        → SideHolds side (SortedMap.insert price l m)
    put l holds full = record {
      sorted = insert-IsSorted price l m v.sorted;
      levels = insert-Each (LevelHolds side) price l m holds v.levels;
      open_levels = insert-Each IsOpen price l m full v.open_levels;
    }

pub enqueue-Each :
    (K : ℤ → Type 0) (price : ℤ) (o : Order) (m : SortedMap PriceLevel)
    → K price
    → Each (λ p l. K p) m
    → Each (λ p l. K p) (enqueue price o m)
unfolding enqueue
enqueue-Each K price o m k h = elim (Option-cases (SortedMap.get price m)) [
  | inl e ↦ rw (e, enqueue) (insert-Each (λ p l. K p) price (add_order (new_level price) o) m k h)
  | inr (l, e) ↦ rw (e, enqueue) (insert-Each (λ p l. K p) price (add_order l o) m k h)
]

pub refused_bid :
    (o : Order) (p a : ℤ)
    → o.side ≡ bid
    → o.order_type ≡ limit
    → o.price ≡ some p
    → can_match o a ≡ false
    → p <ℤ a
unfolding can_match
refused_bid o p a s t e h = ground arith

pub refused_ask :
    (o : Order) (p a : ℤ)
    → o.side ≡ ask
    → o.order_type ≡ limit
    → o.price ≡ some p
    → can_match o a ≡ false
    → a <ℤ p
unfolding can_match
refused_ask o p a s t e h = ground arith
