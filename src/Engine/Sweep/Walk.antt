-- ===== src/Engine/Sweep/Walk.antt =====
-- The order in which `match_order` walks the prices: the best for the order first, and each once.
use mexchange_study.Common.{
  ◌≡◌, refl, inl, inr, false, List, [], ◌∷◌, ◌++◌, reverse, arith, All, All-append, ℤ, ◌<ℤ◌,
}
use mexchange_study.Engine.Orders.{Side, bid, ask, Order, PriceLevel}
use mexchange_study.Engine.Matching.{can_match, prices_to_match}
use mexchange_study.Common.SortedMap
use mexchange_study.Common.SortedMap.{SortedMap}
use mexchange_study.Common.SortedMap.{
  SortedFrom, IsSorted, IsSorted-of_from, Each, Each-map, Each-zip, get-Each, insert-Each,
  remove-Each, insert-IsSorted, remove-IsSorted, remove-Each_ne, get-none-Each, SortedFrom-Each,
  get-insert, get-insert_self,
}
use mexchange_study.Engine.Sweep.{In, In-append}
use mexchange_study.Engine.Sweep.Clearing.{BestFirst}
use mathlib.Core.List.{reverse-cons}

-- Behind a price that a bid refuses the higher ones are refused, and for an ask the lower ones.
refused_above :
    (o : Order) (p q : ℤ) → o.side ≡ bid → p <ℤ q → can_match o p ≡ false → can_match o q ≡ false
unfolding can_match
refused_above o p q e lt h = ground arith

refused_below :
    (o : Order) (p q : ℤ) → o.side ≡ ask → q <ℤ p → can_match o p ≡ false → can_match o q ≡ false
unfolding can_match
refused_below o p q e lt h = ground arith

module _ (o : Order) where
  keys-refused :
      (p : ℤ) (m : SortedMap PriceLevel)
      → o.side ≡ bid
      → Each (λ q l. p <ℤ q) m
      → can_match o p ≡ false
      → All (λ q. can_match o q ≡ false) (SortedMap.keys m)
  keys-refused p [] e h no_match = tt
  keys-refused p ((q, l) ∷ m) e h no_match =
      (refused_above o p q e h.0 no_match, keys-refused p m e h.1 no_match)

  keys-BestFirst :
      (m : SortedMap PriceLevel) → o.side ≡ bid → IsSorted m → BestFirst o (SortedMap.keys m)
  keys-BestFirst [] e s = tt
  keys-BestFirst ((p, l) ∷ m) e s =
      (keys-refused p m e (SortedFrom-Each p m s), keys-BestFirst m e (IsSorted-of_from p m s))

  BestFirst-snoc :
      (xs : List ℤ) (k : ℤ)
      → All (λ x. can_match o x ≡ false → can_match o k ≡ false) xs
      → BestFirst o xs
      → BestFirst o (xs ++ k ∷ [])
  BestFirst-snoc [] k h b = ((λ _. tt), tt)
  BestFirst-snoc (x ∷ xs) k h b = (
    (λ no_match.
        All-append (λ q. can_match o q ≡ false) xs (k ∷ []) (b.0 no_match) (h.0 no_match, tt)),
    BestFirst-snoc xs k h.1 b.1,
  )

  lower-refused :
      (k : ℤ) (m : SortedMap PriceLevel)
      → o.side ≡ ask
      → Each (λ q l. k <ℤ q) m
      → All (λ x. can_match o x ≡ false → can_match o k ≡ false) (reverse (SortedMap.keys m))
  lower-refused k [] e h = tt
  lower-refused k ((q, l) ∷ m) e h = rw (reverse-cons q (SortedMap.keys m)) (
      All-append (λ x. can_match o x ≡ false → can_match o k ≡ false) (reverse (SortedMap.keys m))
        (q ∷ []) (lower-refused k m e h.1) (refused_below o q k e h.0, tt))

  reverse-BestFirst :
      (m : SortedMap PriceLevel)
      → o.side ≡ ask
      → IsSorted m
      → BestFirst o (reverse (SortedMap.keys m))
  reverse-BestFirst [] e s = tt
  reverse-BestFirst ((p, l) ∷ m) e s = rw (reverse-cons p (SortedMap.keys m)) (
      BestFirst-snoc (reverse (SortedMap.keys m)) p (lower-refused p m e (SortedFrom-Each p m s))
        (reverse-BestFirst m e (IsSorted-of_from p m s)))

  pub prices_to_match-BestFirst :
      (side : Side) (m : SortedMap PriceLevel)
      → o.side ≡ side
      → IsSorted m
      → BestFirst o (prices_to_match side m)
  unfolding prices_to_match
  prices_to_match-BestFirst bid m e s = keys-BestFirst m e s
  prices_to_match-BestFirst ask m e s = reverse-BestFirst m e s

In-append_right : (p : ℤ) (xs ys : List ℤ) → In p ys → In p (xs ++ ys)
In-append_right p [] ys h = h
In-append_right p (x ∷ xs) ys h = inr (In-append_right p xs ys h)

In-reverse : (p : ℤ) (xs : List ℤ) → In p xs → In p (reverse xs)
In-reverse p [] h = elim h [ ]
In-reverse p (x ∷ xs) (inl e) =
    rw (reverse-cons x xs) (In-append_right p (reverse xs) (x ∷ []) (inl e))
In-reverse p (x ∷ xs) (inr h) =
    rw (reverse-cons x xs) (In-append p (reverse xs) (x ∷ []) (In-reverse p xs h))

Each-In-keys : (m : SortedMap PriceLevel) → Each (λ p l. In p (SortedMap.keys m)) m
Each-In-keys [] = tt
Each-In-keys ((p, l) ∷ m) = (
  inl refl,
  Each-map (λ q l. In q (SortedMap.keys m)) (λ q l. In q (p ∷ SortedMap.keys m)) m (λ q l i. inr i)
      (Each-In-keys m),
)

-- Every level is visited.
pub prices_to_match-In :
    (side : Side) (m : SortedMap PriceLevel) → Each (λ p l. In p (prices_to_match side m)) m
unfolding prices_to_match
prices_to_match-In bid m = Each-In-keys m
prices_to_match-In ask m =
    Each-map (λ q l. In q (SortedMap.keys m)) (λ q l. In q (reverse (SortedMap.keys m))) m
      (λ q l. In-reverse q (SortedMap.keys m)) (Each-In-keys m)
