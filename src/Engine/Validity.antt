-- ===== src/Engine/Validity.antt =====
-- A well-formed book, and what `match_order` does to one.
pub mod Enqueue
pub mod Adding
pub mod Fills
pub mod Cancelling
pub mod Counts
use mexchange_study.Common.{
  ℕ, zero, suc, ◌+◌, ◌-◌, ◌*◌, ◌/◌, ◌%◌, ◌^◌, ◌≤◌, ◌<◌, ◌≡◌, refl, sym, ap, ◌∙◌, subst, ◌≢◌, ◌↔◌,
  ◌⊎◌, inl, inr, Bool, true, false, ◌&&◌, ◌||◌, not, Option, none, some, List, [], ◌∷◌, ◌++◌, map,
  reverse, append-nil, append_assoc, arith, ltb, leb, ◌==◌, if◌then◌else◌, Bool-cases, Option-cases,
  List-cases, length, take, drop, length-append, All, All-append, ℤ, pos, negsuc, pos_part,
  neg_part, ◌+ℤ◌, ◌-ℤ◌, ◌≤ℤ◌, ◌<ℤ◌, ltb_ℤ, leb_ℤ, eqb_ℤ, min_ℤ, +ℤ_parts, -ℤ_parts, eq_of_parts,
  eqb_ℤ→eq, eqb_ℤ-self, min_ℤ-cases, int_laws,
}
use mexchange_study.Engine.Orders.{
  Side, bid, ask, OrderType, limit, market, Order, new_limit, new_market, is_filled, PriceLevel,
  new_level, add_order, is_empty, Fill, OrderResult, OrderBook, new_book,
}
use mexchange_study.Engine.Matching.{
  Progress, fill_of, match_front, match_level, level_fuel, can_match, Matching, match_price,
  match_prices, remove_levels, prices_to_match, opposite_book, set_opposite, start, match_order,
}
use mexchange_study.Engine.Operations.{
  own_book, set_own, enqueue, add_order_to_book, result_of, add_limit_order, add_market_order,
  restore_order, retain_others, without_order, remove_from_levels, remove_order_from_book,
  cancel_order,
}
use mexchange_study.Engine.Queries.{
  get_order, order_exists, first_key, last_key, best_bid, best_ask, spread, quantity_at_price,
  get_bids, get_asks,
}
use mexchange_study.Engine.Loops.{
  LevelState, match_level_inv, match_front_progress, match_level_ends, match_prices_inv,
}
use mexchange_study.Common.SortedMap
use mexchange_study.Common.SortedMap.{SortedMap}
use mexchange_study.Common.IdMap
use mexchange_study.Common.IdMap.{IdMap}
use mexchange_study.Common.SortedMap.{
  SortedFrom, IsSorted, IsSorted-of_from, Each, Each-map, Each-zip, get-Each, insert-Each,
  remove-Each, insert-IsSorted, remove-IsSorted, remove-Each_ne, get-none-Each, SortedFrom-Each,
  get-insert, get-insert_self,
}
use mexchange_study.Engine.Levels.{
  Rests, sum_remaining, sum_fills, LevelHolds, SameOrder, GoodFill, Accounted, can_match-SameOrder,
  match_level-keeps,
}
use mexchange_study.Engine.Sweep.{
  In, In-append, In-append_last, Kept, SweepHolds, visit, match_price-visit, match_price-none,
  removed_after, removed_after-In, match_prices-SweepHolds,
}
use mexchange_study.Engine.Sweep.Clearing.{
  BestFirst, OutOfReach, Tracked, Cleared, match_prices-Cleared,
}
use mexchange_study.Engine.Sweep.Walk.{prices_to_match-BestFirst, prices_to_match-In}

abbrev pub IsOpen : ℤ → PriceLevel → Type 0
IsOpen p l = l.orders ≢ []

-- One side: prices ascend, every level is in shape and none is empty.
pub record SideHolds (side : Side) (m : SortedMap PriceLevel) : Type 0 where
  pub sorted : IsSorted m
  pub levels : Each (LevelHolds side) m
  pub open_levels : Each IsOpen m

abbrev pub Uncrossed : SortedMap PriceLevel → SortedMap PriceLevel → Type 0
Uncrossed bids asks = Each (λ p l. Each (λ a l'. p <ℤ a) asks) bids

-- Both sides hold, and every bid is below every ask.
pub record IsValid (b : OrderBook) : Type 0 where
  pub bids_hold : SideHolds bid b.bids
  pub asks_hold : SideHolds ask b.asks
  pub uncrossed : Uncrossed b.bids b.asks

abbrev pub other : Side → Side
other bid = ask
other ask = bid

module _ {κ} (P : ℤ → PriceLevel → Type κ) where
  remove_levels-Each :
      (ks : List ℤ) (m : SortedMap PriceLevel) → Each P m → Each P (remove_levels ks m)
  unfolding remove_levels
  remove_levels-Each [] m h = h
  remove_levels-Each (k ∷ ks) m h =
      remove_levels-Each ks (SortedMap.remove k m) (remove-Each P k m h)

  -- What holds of every level that is not on the list holds of every level once those are removed.
  remove_levels-drops :
      (ks : List ℤ) (m : SortedMap PriceLevel)
      → IsSorted m
      → Each (λ p l. P p l ⊎ In p ks) m
      → Each P (remove_levels ks m)
  unfolding remove_levels
  remove_levels-drops [] m s h =
      Each-map (λ p l. P p l ⊎ ⊥) P m (λ p l e. elim e [ inl x ↦ x | inr x ↦ absurd x ]) h
  remove_levels-drops (k ∷ ks) m s h =
      remove_levels-drops ks (SortedMap.remove k m) (remove-IsSorted k m s) (
        Each-zip (λ p l. P p l ⊎ In p (k ∷ ks)) (λ p l. p ≢ k) (λ p l. P p l ⊎ In p ks)
          (SortedMap.remove k m)
          (λ p l e ne. elim e [
            | inl x ↦ inl x
            | inr (inl same) ↦ absurd (ne same)
            | inr (inr i) ↦ inr i
          ])
          (remove-Each (λ p l. P p l ⊎ In p (k ∷ ks)) k m h) (remove-Each_ne k m s))

remove_levels-IsSorted :
    (ks : List ℤ) (m : SortedMap PriceLevel) → IsSorted m → IsSorted (remove_levels ks m)
unfolding remove_levels
remove_levels-IsSorted [] m s = s
remove_levels-IsSorted (k ∷ ks) m s =
    remove_levels-IsSorted ks (SortedMap.remove k m) (remove-IsSorted k m s)

-- What `match_order` leaves of the opposite side: a side in shape, on which an unfilled order
-- accepts no price.
pub record Matched (o : Order) (side : Side) (s : Progress) (m : SortedMap PriceLevel)
    : Type 0 where
  pub accounted : Accounted o s
  pub holds : SideHolds side m
  pub cleared : (is_filled s.taker ≡ true) ⊎ Each (λ p l. can_match o p ≡ false) m

-- The state of the loop when it ends.
pub swept : Order → OrderBook → Matching
swept o b = match_prices (prices_to_match o.side (opposite_book o.side b)) (start o b)

pub left_levels : Order → OrderBook → SortedMap PriceLevel
left_levels o b = remove_levels (swept o b).prices_to_remove (swept o b).book

start-SweepHolds :
    (o : Order) (side : Side) (b : OrderBook)
    → pos 0 ≤ℤ o.remaining_quantity
    → SideHolds side (opposite_book o.side b)
    → SweepHolds o side (start o b)
unfolding start
start-SweepHolds o side b h v = record {
  accounted = record {
    same = record {
      same_id = refl;
      same_side = refl;
      same_type = refl;
      same_price = refl;
      same_quantity = refl;
    };
    left_over = h;
    balanced = omega int_laws;
    good = tt;
  };
  sorted = v.sorted;
  levels = v.levels;
  kept = Each-map IsOpen (Kept []) (opposite_book o.side b) (λ p l x. inl x) v.open_levels;
}

swept-Cleared :
    (o : Order) (side : Side) (b : OrderBook)
    → SweepHolds o side (start o b)
    → IsSorted (opposite_book o.side b)
    → Cleared o (swept o b)
unfolding swept start
swept-Cleared o side b holds s =
    let before = opposite_book o.side b in
    match_prices-Cleared o side (prices_to_match o.side before) (start o b) holds
      (prices_to_match-BestFirst o o.side before refl s)
      (Each-map (λ p l. In p (prices_to_match o.side before))
        (Tracked (prices_to_match o.side before) []) before (λ p l i. inl i)
        (prices_to_match-In o.side before))

pub match_order-Matched :
    (o : Order) (side : Side) (b : OrderBook)
    → pos 0 ≤ℤ o.remaining_quantity
    → SideHolds side (opposite_book o.side b)
    → Matched o side (swept o b).progress (left_levels o b)
unfolding swept left_levels
match_order-Matched o side b h v =
    let before = opposite_book o.side b in
    let prices = prices_to_match o.side before in
    let holds = match_prices-SweepHolds o side prices (start o b) (start-SweepHolds o side b h v) in
    let m = match_prices prices (start o b) in
    record {
      accounted = holds.accounted;
      holds = record {
        sorted = remove_levels-IsSorted m.prices_to_remove m.book holds.sorted;
        levels = remove_levels-Each (LevelHolds side) m.prices_to_remove m.book holds.levels;
        open_levels = remove_levels-drops IsOpen m.prices_to_remove m.book holds.sorted holds.kept;
      };
      cleared = elim (swept-Cleared o side b (start-SweepHolds o side b h v) v.sorted) [
        | inl full ↦ inl full
        | inr far ↦ inr (
            remove_levels-drops (λ p l. can_match o p ≡ false) m.prices_to_remove m.book
              holds.sorted far)
      ];
    }

visit-Each :
    (K : ℤ → Type 0) (price : ℤ) (level : PriceLevel) (m : Matching)
    → SortedMap.get price m.book ≡ some level
    → Each (λ p l. K p) m.book
    → Each (λ p l. K p) (visit price level m).book
unfolding visit
visit-Each K price level m e k =
    insert-Each (λ p l. K p) price (match_level (level_fuel level) price m.progress level).1 m.book
      (get-Each (λ p l. K p) price m.book k e) k

-- Matching brings in no new price.
pub left_levels-Each :
    (K : ℤ → Type 0) (o : Order) (b : OrderBook)
    → Each (λ p l. K p) (opposite_book o.side b)
    → Each (λ p l. K p) (left_levels o b)
unfolding left_levels swept start
left_levels-Each K o b h =
    remove_levels-Each (λ p l. K p) (swept o b).prices_to_remove (swept o b).book
      (match_prices_inv (λ (m : Matching). Each (λ p l. K p) m.book)
        (λ price m more ok k. elim (Option-cases (SortedMap.get price m.book)) [
          | inl e ↦ rw (match_price-none price m e) k
          | inr (level, e) ↦ rw (match_price-visit price m level e) (visit-Each K price level m e k)
        ])
        (prices_to_match o.side (opposite_book o.side b)) (start o b) h)

-- The result of `match_order` in these terms.
pub match_order_lem :
    (o : Order) (side : Side) (b : OrderBook)
    → o.side ≡ side
    → match_order o b ≡ (
      set_opposite side (left_levels o b) (record b { orders = (swept o b).progress.orders }),
      (swept o b).progress,
    )
unfolding match_order left_levels swept
match_order_lem o side b e =
    ap {B = OrderBook × Progress}
      (λ (s : Side). (
        set_opposite s (left_levels o b) (record b { orders = (swept o b).progress.orders }),
        (swept o b).progress,
      ))
      e
