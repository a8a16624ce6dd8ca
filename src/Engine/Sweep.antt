-- ===== src/Engine/Sweep.antt =====
-- The `for` loop of `match_order`: what it keeps of the opposite levels, and which it clears.
pub mod Clearing
pub mod Walk
use mexchange_study.Common.{
  ◌≡◌, refl, sym, ◌∙◌, ◌≢◌, ◌⊎◌, inl, inr, true, none, some, List, [], ◌∷◌, ◌++◌, if◌then◌else◌,
  Bool-cases, Option-cases, List-cases, ℤ,
}
use mexchange_study.Engine.Orders.{Side, Order, PriceLevel, is_empty}
use mexchange_study.Engine.Matching.{
  match_level, level_fuel, can_match, Matching, match_price, match_prices,
}
use mexchange_study.Engine.Loops.{match_prices_inv}
use mexchange_study.Common.SortedMap
use mexchange_study.Common.SortedMap.{SortedMap}
use mexchange_study.Common.SortedMap.{
  IsSorted, Each, Each-map, get-Each, insert-Each, remove-Each, insert-IsSorted, remove-IsSorted,
  remove-Each_ne, get-none-Each,
}
use mexchange_study.Engine.Levels.{LevelHolds, Accounted, can_match-SameOrder, match_level-keeps}

abbrev pub In : ℤ → List ℤ → Type 0
In p [] = ⊥
In p (q ∷ qs) = (p ≡ q) ⊎ In p qs

pub In-append : (p : ℤ) (xs ys : List ℤ) → In p xs → In p (xs ++ ys)
In-append p [] ys h = elim h [ ]
In-append p (x ∷ xs) ys (inl e) = inl e
In-append p (x ∷ xs) ys (inr h) = inr (In-append p xs ys h)

pub In-append_last : (p : ℤ) (xs : List ℤ) → In p (xs ++ p ∷ [])
In-append_last p [] = inl refl
In-append_last p (x ∷ xs) = inr (In-append_last p xs)

-- A level that is used up is on the list of those to remove.
abbrev pub Kept : List ℤ → ℤ → PriceLevel → Type 0
Kept removed p l = (l.orders ≢ []) ⊎ In p removed

pub record SweepHolds (o : Order) (side : Side) (m : Matching) : Type 0 where
  pub accounted : Accounted o m.progress
  pub sorted : IsSorted m.book
  pub levels : Each (LevelHolds side) m.book
  pub kept : Each (Kept m.prices_to_remove) m.book

-- The state after a visit to a level that is there.
unfoldable pub visit : ℤ → PriceLevel → Matching → Matching
visit price level m =
    let (s, level') = match_level (level_fuel level) price m.progress level in
    record {
      progress = s;
      book = SortedMap.insert price level' m.book;
      prices_to_remove =
          if is_empty level' then m.prices_to_remove ++ price ∷ [] else m.prices_to_remove;
    }

pub match_price-visit :
    (price : ℤ) (m : Matching) (level : PriceLevel)
    → SortedMap.get price m.book ≡ some level
    → match_price price m ≡ visit price level m
unfolding match_price visit
match_price-visit price m level e = rw (e, match_price)

pub match_price-none :
    (price : ℤ) (m : Matching) → SortedMap.get price m.book ≡ none → match_price price m ≡ m
unfolding match_price
match_price-none price m e = rw (e, match_price)

-- The list of levels to remove after a visit.
pub removed_after : ℤ → PriceLevel → List ℤ → List ℤ
removed_after price level ps = if is_empty level then ps ++ price ∷ [] else ps

pub removed_after-In :
    (q price : ℤ) (l : PriceLevel) (ps : List ℤ) → In q ps → In q (removed_after price l ps)
unfolding removed_after
removed_after-In q price l ps h = elim (Bool-cases (is_empty l)) [
  | inl e ↦ rw e (In-append q ps (price ∷ []) h)
  | inr e ↦ rw e h
]

removed_after-Kept :
    (price : ℤ) (l : PriceLevel) (ps : List ℤ) → Kept (removed_after price l ps) price l
unfolding removed_after is_empty
removed_after-Kept price l ps = elim (List-cases l.orders) [
  | inl e ↦ inr (rw e (In-append_last price ps))
  | inr (x, r, e) ↦ inl (λ n. cc)
]

module _ (o : Order) (side : Side) (price : ℤ) (m : Matching) where
  visit-SweepHolds :
      (level : PriceLevel)
      → can_match o price ≡ true
      → LevelHolds side price level
      → SweepHolds o side m
      → SweepHolds o side (visit price level m)
  unfolding visit removed_after
  visit-SweepHolds level ok v h =
      let kept =
        match_level-keeps o side price (level_fuel level) m.progress level ok h.accounted v in
      let level' = (match_level (level_fuel level) price m.progress level).1 in
      record {
        accounted = kept.0;
        sorted = insert-IsSorted price level' m.book h.sorted;
        levels = insert-Each (LevelHolds side) price level' m.book kept.1 h.levels;
        kept =
            insert-Each (Kept (removed_after price level' m.prices_to_remove)) price level' m.book
              (removed_after-Kept price level' m.prices_to_remove)
              (Each-map (Kept m.prices_to_remove)
                (Kept (removed_after price level' m.prices_to_remove)) m.book
                (λ q l k. elim k [
                  | inl full ↦ inl full
                  | inr gone ↦ inr (removed_after-In q price level' m.prices_to_remove gone)
                ])
                h.kept);
      }

  match_price-SweepHolds :
      can_match m.progress.taker price ≡ true
      → SweepHolds o side m
      → SweepHolds o side (match_price price m)
  match_price-SweepHolds ok h = elim (Option-cases (SortedMap.get price m.book)) [
    | inl e ↦ rw (match_price-none price m e) h
    | inr (level, e) ↦ rw (match_price-visit price m level e) (
        visit-SweepHolds level
          (sym (can_match-SameOrder o m.progress.taker price h.accounted.same) ∙ ok)
          (get-Each (LevelHolds side) price m.book h.levels e) h)
  ]

-- The loop keeps all of it.
pub match_prices-SweepHolds :
    (o : Order) (side : Side) (prices : List ℤ) (m : Matching)
    → SweepHolds o side m
    → SweepHolds o side (match_prices prices m)
match_prices-SweepHolds o side =
    match_prices_inv (SweepHolds o side)
      (λ price m more ok h. match_price-SweepHolds o side price m ok h)
