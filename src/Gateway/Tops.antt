-- ===== src/Gateway/Tops.antt =====
-- matching_engine/src/lib.rs: the levels that a well-formed book reports are not empty.
use mexchange_study.Common.{
  ℕ, zero, suc, ◌≡◌, ap, ◌∙◌, subst, inl, inr, List, [], ◌∷◌, map, reverse, arith, List-cases, take,
  All, All-append, ℤ, pos, pos_part, neg_part, ◌≤ℤ◌, +ℤ_parts,
}
use mexchange_study.Common.SortedMap.{SortedMap, Each}
use mexchange_study.Engine.Orders.{Side, bid, ask, Order, OrderBook, PriceLevel}
use mexchange_study.Engine.Levels.{LevelHolds, Rests, sum_remaining}
use mexchange_study.Engine.Validity.{SideHolds, IsOpen}
use mexchange_study.Engine.Queries.{level_entry, get_bids, get_asks}
use mathlib.Core.List.{reverse-cons}
use mexchange_study.Gateway.Sync.{NonZero}

sum-positive :
    (side : Side) (p : ℤ) (os : List Order) → All (Rests side p) os → pos 0 ≤ℤ sum_remaining os
sum-positive side p [] h = omega arith
sum-positive side p (o ∷ os) h =
    let first = h.0.open_quantity in
    omega (arith, +ℤ_parts o.remaining_quantity (sum_remaining os), sum-positive side p os h.1)

-- The levels of a valid side are not empty.
open-NonZero :
    (side : Side) (p : ℤ) (l : PriceLevel)
    → LevelHolds side p l
    → IsOpen p l
    → NonZero (p, l.total_quantity)
open-NonZero side p l h o = elim (List-cases l.orders) [
  | inl e ↦ absurd (o e)
  | inr (x, r, e) ↦
      let q : l.total_quantity ≡ sum_remaining (x ∷ r) = h.totalled ∙ ap sum_remaining e in
      let rests : All (Rests side p) (x ∷ r) = subst (All (Rests side p)) e h.resting in
      let positive = sum-positive side p r rests.1 in
      let first = rests.0.open_quantity in
      ground (arith, +ℤ_parts x.remaining_quantity (sum_remaining r), ap pos_part q, ap neg_part q)
]

entry-NonZero :
    (side : Side) (m : SortedMap PriceLevel)
    → Each (LevelHolds side) m
    → Each IsOpen m
    → All (λ (e : ℤ × PriceLevel). NonZero (level_entry e)) m
entry-NonZero side [] h o = tt
entry-NonZero side ((p, l) ∷ m) h o = (open-NonZero side p l h.0 o.0, entry-NonZero side m h.1 o.1)

All-take {ℓ κ} : {A : Type ℓ} (P : A → Type κ) (n : ℕ) (xs : List A) → All P xs → All P (take n xs)
All-take P zero xs h = tt
All-take P (suc n) [] h = tt
All-take P (suc n) (x ∷ xs) h = (h.0, All-take P n xs h.1)

All-reverse {ℓ κ} : {A : Type ℓ} (P : A → Type κ) (xs : List A) → All P xs → All P (reverse xs)
All-reverse P [] h = tt
All-reverse P (x ∷ xs) h =
    rw (reverse-cons x xs) (All-append P (reverse xs) (x ∷ []) (All-reverse P xs h.1) (h.0, tt))

All-entries :
    (m : List (ℤ × PriceLevel))
    → All (λ (e : ℤ × PriceLevel). NonZero (level_entry e)) m
    → All NonZero (map level_entry m)
All-entries [] h = tt
All-entries ((p, l) ∷ m) h = (h.0, All-entries m h.1)

pub get_bids-NonZero :
    (n : ℕ) (book : OrderBook) → SideHolds bid book.bids → All NonZero (get_bids n book)
unfolding get_bids
get_bids-NonZero n book v =
    let P = λ (e : ℤ × PriceLevel). NonZero (level_entry e) in
    All-entries (take n (reverse book.bids)) (
      All-take P n (reverse book.bids)
        (All-reverse P book.bids (entry-NonZero bid book.bids v.levels v.open_levels)))

pub get_asks-NonZero :
    (n : ℕ) (book : OrderBook) → SideHolds ask book.asks → All NonZero (get_asks n book)
unfolding get_asks
get_asks-NonZero n book v =
    let P = λ (e : ℤ × PriceLevel). NonZero (level_entry e) in
    All-entries (take n book.asks)
      (All-take P n book.asks (entry-NonZero ask book.asks v.levels v.open_levels))
