-- ===== src/Engine/Sweep/Clearing.antt =====
-- When the `for` loop leaves the order unfilled, every level that it accepts is on the list to remove.
use mexchange_study.Common.{
  suc, ◌≡◌, refl, sym, ◌∙◌, subst, ◌≢◌, ◌⊎◌, inl, inr, true, false, List, [], ◌∷◌, arith,
  Bool-cases, Option-cases, length, All, ℤ,
}
use mexchange_study.Engine.Orders.{Side, Order, is_filled, PriceLevel, is_empty}
use mexchange_study.Engine.Matching.{
  match_level, level_fuel, can_match, Matching, match_price, match_prices,
}
use mexchange_study.Engine.Loops.{match_level_ends}
use mexchange_study.Common.SortedMap
use mexchange_study.Common.SortedMap.{SortedMap}
use mexchange_study.Common.SortedMap.{
  SortedFrom, IsSorted, Each, Each-map, Each-zip, get-Each, insert-Each, remove-Each,
  insert-IsSorted, remove-IsSorted, remove-Each_ne, get-none-Each,
}
use mexchange_study.Engine.Levels.{can_match-SameOrder}
use mexchange_study.Engine.Sweep.{
  In, In-append_last, SweepHolds, visit, match_price-visit, match_price-none, removed_after,
  removed_after-In, match_price-SweepHolds,
}

-- Best price first: behind a price that the order refuses there are only such.
abbrev pub BestFirst : Order → List ℤ → Type 0
BestFirst o [] = Unit {0}
BestFirst o (p ∷ ps) =
    (can_match o p ≡ false → All (λ q. can_match o q ≡ false) ps) × BestFirst o ps

-- The level is refused or on the list to remove.
abbrev pub OutOfReach : Order → List ℤ → ℤ → PriceLevel → Type 0
OutOfReach o removed p l = (can_match o p ≡ false) ⊎ In p removed

-- The level is still to be visited, or on the list to remove.
abbrev pub Tracked : List ℤ → List ℤ → ℤ → PriceLevel → Type 0
Tracked prices removed p l = In p prices ⊎ In p removed

All-In : (P : ℤ → Type 0) (p : ℤ) (ps : List ℤ) → All P ps → In p ps → P p
All-In P p [] h i = elim i [ ]
All-In P p (q ∷ qs) h (inl e) = subst P (sym e) h.0
All-In P p (q ∷ qs) h (inr i) = All-In P p qs h.1 i

match_prices-filled :
    (prices : List ℤ) (m : Matching) → is_filled m.progress.taker ≡ true → match_prices prices m ≡ m
unfolding match_prices
match_prices-filled [] m h = refl
match_prices-filled (p ∷ ps) m h = rw (h, match_prices)

-- After a visit the order is filled or the level is on the list to remove.
visit-clears :
    (price : ℤ) (level : PriceLevel) (m : Matching)
    → let m' = visit price level m in
      (is_filled m'.progress.taker ≡ true) ⊎ In price m'.prices_to_remove
unfolding visit level_fuel is_empty match_level
visit-clears price level m =
    elim (match_level_ends price (suc (length level.orders)) m.progress level (inl (omega arith))) [
      | inl empty ↦ inr (rw empty (In-append_last price m.prices_to_remove))
      | inr full ↦ inl full
    ]

visit-Tracked :
    (price : ℤ) (prices : List ℤ) (level : PriceLevel) (m : Matching)
    → In price (visit price level m).prices_to_remove
    → Each (Tracked (price ∷ prices) m.prices_to_remove) m.book
    → Each (Tracked prices (visit price level m).prices_to_remove) (visit price level m).book
unfolding visit removed_after
visit-Tracked price prices level m gone h =
    let level' = (match_level (level_fuel level) price m.progress level).1 in
    let removed' = (visit price level m).prices_to_remove in
    insert-Each (Tracked prices removed') price level' m.book (inr gone) (
      Each-map (Tracked (price ∷ prices) m.prices_to_remove) (Tracked prices removed') m.book
        (λ q l k. elim k [
          | inl (inl e) ↦ inr (subst (λ (r : ℤ). In r removed') (sym e) gone)
          | inl (inr i) ↦ inl i
          | inr r ↦ inr (removed_after-In q price level' m.prices_to_remove r)
        ])
        h)

-- One visit: the order is filled, or one price less is to be visited.
match_price-Tracked :
    (price : ℤ) (prices : List ℤ) (m : Matching)
    → Each (Tracked (price ∷ prices) m.prices_to_remove) m.book
    → let m' = match_price price m in
      (is_filled m'.progress.taker ≡ true) ⊎ Each (Tracked prices m'.prices_to_remove) m'.book
match_price-Tracked price prices m t = elim (Option-cases (SortedMap.get price m.book)) [
  | inl e ↦ rw (match_price-none price m e) (
      inr (
        Each-zip (λ q l. q ≢ price) (Tracked (price ∷ prices) m.prices_to_remove)
          (Tracked prices m.prices_to_remove) m.book
          (λ q l other k. elim k [
            | inl (inl same) ↦ absurd (other same)
            | inl (inr i) ↦ inl i
            | inr r ↦ inr r
          ])
          (get-none-Each price m.book e) t))
  | inr (level, e) ↦ rw (match_price-visit price m level e) (elim (visit-clears price level m) [
    | inl full ↦ inl full
    | inr gone ↦ inr (visit-Tracked price prices level m gone t)
  ])
]

-- At a price that the order refuses, all that is left to visit is out of its reach.
refused-OutOfReach :
    (o : Order) (price : ℤ) (prices : List ℤ) (m : Matching)
    → can_match o price ≡ false
    → BestFirst o (price ∷ prices)
    → Each (Tracked (price ∷ prices) m.prices_to_remove) m.book
    → Each (OutOfReach o m.prices_to_remove) m.book
refused-OutOfReach o price prices m no_match b =
    Each-map (Tracked (price ∷ prices) m.prices_to_remove) (OutOfReach o m.prices_to_remove) m.book
      λ q l k. elim k [
        | inl (inl e) ↦ inl (subst (λ (r : ℤ). can_match o r ≡ false) (sym e) no_match)
        | inl (inr i) ↦ inl (All-In (λ r. can_match o r ≡ false) q prices (b.0 no_match) i)
        | inr r ↦ inr r
      ]

abbrev pub Cleared : Order → Matching → Type 0
Cleared o m = (is_filled m.progress.taker ≡ true) ⊎ Each (OutOfReach o m.prices_to_remove) m.book

pub match_prices-Cleared :
    (o : Order) (side : Side) (prices : List ℤ) (m : Matching)
    → SweepHolds o side m
    → BestFirst o prices
    → Each (Tracked prices m.prices_to_remove) m.book
    → Cleared o (match_prices prices m)
unfolding match_prices
match_prices-Cleared o side [] m h b t = inr (
    Each-map (Tracked [] m.prices_to_remove) (OutOfReach o m.prices_to_remove) m.book
      (λ q l k. elim k [ inl i ↦ absurd i | inr r ↦ inr r ]) t)
match_prices-Cleared o side (price ∷ prices) m h b t =
    elim (Bool-cases (is_filled m.progress.taker)) [
      | inl done ↦ rw (done, match_prices) (inl done)
      | inr more ↦ elim (Bool-cases (can_match m.progress.taker price)) [
        | inl ok ↦
            rw (more, ok, match_prices)
              (elim (match_price-Tracked price prices m t) [
                | inl full ↦ rw (match_prices-filled prices (match_price price m) full) (inl full)
                | inr left ↦
                    match_prices-Cleared o side prices (match_price price m)
                      (match_price-SweepHolds o side price m ok h) b.1 left
              ])
        | inr refused ↦
            rw (more, refused, match_prices)
              (inr (
                refused-OutOfReach o price prices m
                  (sym (can_match-SameOrder o m.progress.taker price h.accounted.same) ∙ refused) b
                  t))
      ]
    ]
