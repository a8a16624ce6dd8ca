-- ===== src/Gateway/Sync.antt =====
-- The publisher of matching_engine_service/src/main.rs and the gateway's copy of the book, together.
use mexchange_study.Common.{
  ◌≡◌, refl, sym, ap, ◌∙◌, false, Option, none, some, List, [], ◌∷◌, ◌++◌, map, append_assoc, arith,
  All, All-append, ℤ, pos, eqb_ℤ,
}
use mexchange_study.Common.SortedMap
use mexchange_study.Common.SortedMap.{SortedMap, IsSorted, insert-IsSorted, Each}
use mexchange_study.Engine.Orders.{Side, bid, ask}
use mexchange_study.Events.{LevelDelta}
use mexchange_study.Publisher.{
  Publisher, collect, collect_from, change, changes, removal, removals, compute_deltas, level_of,
}
use mexchange_study.Gateway.State.{Doubles}
use mexchange_study.Gateway.Updates.{apply_delta, DeltaLoop, apply_to, apply_deltas, build_side}
use mexchange_study.Gateway.Deltas.{play, play-new}

abbrev IsFor : Side → LevelDelta → Type 0
IsFor side d = d.side ≡ side

change-side : (side : Side) (old : Option ℤ) (p q : ℤ) → All (IsFor side) (change side old p q)
unfolding change
change-side side none p q = (refl, tt)
change-side side (some o) p q = ground arith

removal-side : (side : Side) (o : Option ℤ) (p : ℤ) → All (IsFor side) (removal side o p)
unfolding removal
removal-side side none p = (refl, tt)
removal-side side (some o) p = tt

changes-side : (side : Side) (prev new : SortedMap ℤ) → All (IsFor side) (changes side prev new)
unfolding changes
changes-side side prev [] = tt
changes-side side prev ((p, q) ∷ new) =
    All-append (IsFor side) (change side (SortedMap.get p prev) p q) (changes side prev new)
      (change-side side (SortedMap.get p prev) p q) (changes-side side prev new)

removals-side : (side : Side) (prev new : SortedMap ℤ) → All (IsFor side) (removals side prev new)
unfolding removals
removals-side side [] new = tt
removals-side side ((p, q) ∷ prev) new =
    All-append (IsFor side) (removal side (SortedMap.get p new) p) (removals side prev new)
      (removal-side side (SortedMap.get p new) p) (removals-side side prev new)

collect_from-IsSorted :
    (ls : List (ℤ × ℤ)) (m : SortedMap ℤ) → IsSorted m → IsSorted (collect_from ls m)
unfolding collect_from
collect_from-IsSorted [] m s = s
collect_from-IsSorted ((p, q) ∷ ls) m s =
    collect_from-IsSorted ls (SortedMap.insert p q m) (insert-IsSorted p q m s)

pub collect-IsSorted : (ls : List (ℤ × ℤ)) → IsSorted (collect ls)
unfolding collect
collect-IsSorted ls = collect_from-IsSorted ls [] tt

abbrev pub NonZero : ℤ × ℤ → Type 0
NonZero (p, q) = eqb_ℤ q (pos 0) ≡ false

-- A snapshot without empty levels is read as it was written.
pub build_side-collect :
    (ls : List (ℤ × ℤ)) (m : SortedMap ℤ)
    → All NonZero ls
    → build_side (map level_of ls) m ≡ collect_from ls m
unfolding build_side collect_from
build_side-collect [] m h = refl
build_side-collect ((p, q) ∷ ls) m h =
    rw (h.0, build_side) (build_side-collect ls (SortedMap.insert p q m) h.1)

module _ (d : Doubles) where
  apply_deltas-append :
      (xs ys : List LevelDelta) (s : DeltaLoop d)
      → apply_deltas d (xs ++ ys) s ≡ apply_deltas d ys (apply_deltas d xs s)
  unfolding apply_deltas
  apply_deltas-append [] ys s = refl
  apply_deltas-append (x ∷ xs) ys s = apply_deltas-append xs ys (apply_to d x.side x s)

  apply_to-bid :
      (x : LevelDelta) (s : DeltaLoop d)
      → x.side ≡ bid
      → ((apply_to d x.side x s).bids ≡ apply_delta x s.bids)
        × ((apply_to d x.side x s).asks ≡ s.asks)
  unfolding apply_to
  apply_to-bid x s e = rw e (refl, refl)

  apply_to-ask :
      (x : LevelDelta) (s : DeltaLoop d)
      → x.side ≡ ask
      → ((apply_to d x.side x s).asks ≡ apply_delta x s.asks)
        × ((apply_to d x.side x s).bids ≡ s.bids)
  unfolding apply_to
  apply_to-ask x s e = rw e (refl, refl)

  apply_deltas-bids :
      (xs : List LevelDelta) (s : DeltaLoop d)
      → All (IsFor bid) xs
      → ((apply_deltas d xs s).bids ≡ play xs s.bids) × ((apply_deltas d xs s).asks ≡ s.asks)
  unfolding apply_deltas
  apply_deltas-bids [] s h = (refl, refl)
  apply_deltas-bids (x ∷ xs) s h =
      let one = apply_to-bid x s h.0 in
      let rest = apply_deltas-bids xs (apply_to d x.side x s) h.1 in
      (rest.0 ∙ ap (play xs) one.0, rest.1 ∙ one.1)

  apply_deltas-asks :
      (xs : List LevelDelta) (s : DeltaLoop d)
      → All (IsFor ask) xs
      → ((apply_deltas d xs s).asks ≡ play xs s.asks) × ((apply_deltas d xs s).bids ≡ s.bids)
  unfolding apply_deltas
  apply_deltas-asks [] s h = (refl, refl)
  apply_deltas-asks (x ∷ xs) s h =
      let one = apply_to-ask x s h.0 in
      let rest = apply_deltas-asks xs (apply_to d x.side x s) h.1 in
      (rest.0 ∙ ap (play xs) one.0, rest.1 ∙ one.1)

  -- When the gateway has the publisher's old levels, the computed deltas leave it with the new ones.
  pub compute_deltas-apply :
      (p : Publisher) (bids asks : List (ℤ × ℤ)) (s : DeltaLoop d)
      → IsSorted p.prev_bids
      → IsSorted p.prev_asks
      → s.bids ≡ p.prev_bids
      → s.asks ≡ p.prev_asks
      → let done = apply_deltas d (compute_deltas p bids asks) s in
        (done.bids ≡ collect bids) × (done.asks ≡ collect asks)
  unfolding compute_deltas
  compute_deltas-apply p bids asks s sb sa eb ea =
      let nb = collect bids in
      let na = collect asks in
      let bs = changes bid p.prev_bids nb ++ removals bid p.prev_bids nb in
      let as_ = changes ask p.prev_asks na ++ removals ask p.prev_asks na in
      let split : compute_deltas p bids asks ≡ bs ++ as_ =
        sym (append_assoc (changes bid p.prev_bids nb) (removals bid p.prev_bids nb) as_) in
      let mid = apply_deltas d bs s in
      let first = apply_deltas-bids bs s (
        All-append (IsFor bid) (changes bid p.prev_bids nb) (removals bid p.prev_bids nb)
          (changes-side bid p.prev_bids nb) (removals-side bid p.prev_bids nb)) in
      let second = apply_deltas-asks as_ mid (
        All-append (IsFor ask) (changes ask p.prev_asks na) (removals ask p.prev_asks na)
          (changes-side ask p.prev_asks na) (removals-side ask p.prev_asks na)) in
      let whole : apply_deltas d (compute_deltas p bids asks) s ≡ apply_deltas d as_ mid =
        ap (λ ds. apply_deltas d ds s) split ∙ apply_deltas-append bs as_ s in
      (
        ap (λ (r : DeltaLoop d). r.bids) whole
            ∙ second.1
            ∙ first.0
            ∙ ap (play bs) eb
            ∙ play-new bid p.prev_bids nb sb (collect-IsSorted bids),
        ap (λ (r : DeltaLoop d). r.asks) whole
            ∙ second.0
            ∙ ap (play as_) (first.1 ∙ ea)
            ∙ play-new ask p.prev_asks na sa (collect-IsSorted asks),
      )
