-- ===== src/Gateway/Deltas.antt =====
-- The deltas of matching_engine_service/src/main.rs, applied by gateway/src/channel_updates.rs to a
-- book that equals the old one.
use mexchange_study.Common.{
  ◌≡◌, refl, sym, ap, ◌∙◌, subst, inl, inr, Option, none, some, List, [], ◌∷◌, ◌++◌, arith,
  if◌then◌else◌, Bool-cases, Option-cases, ℤ, ◌<ℤ◌, eqb_ℤ, eqb_ℤ→eq,
}
use mexchange_study.Common.SortedMap
use mexchange_study.Common.SortedMap.{
  SortedMap, IsSorted, SortedFrom, SortedFrom-Each, IsSorted-of_from, Each, Each-zip, Each-map,
  get-Each, get-insert, get-remove_self, get-remove_ne, get_below, get_tail, get-ext,
  insert-IsSorted, remove-IsSorted,
}
use mexchange_study.Engine.Orders.{Side}
use mexchange_study.Events.{DeltaAction, add, update, remove, LevelDelta}
use mexchange_study.Publisher.{change, changes, removal, removals}
use mexchange_study.Gateway.Updates.{apply_action, apply_delta}

-- All deltas applied to one side.
abbrev pub play : List LevelDelta → SortedMap ℤ → SortedMap ℤ
play [] book = book
play (d ∷ ds) book = play ds (apply_delta d book)

play-append :
    (xs ys : List LevelDelta) (book : SortedMap ℤ) → play (xs ++ ys) book ≡ play ys (play xs book)
play-append [] ys book = refl
play-append (x ∷ xs) ys book = play-append xs ys (apply_delta x book)

apply_action-IsSorted :
    (a : DeltaAction) (p q : ℤ) (book : SortedMap ℤ)
    → IsSorted book
    → IsSorted (apply_action a p q book)
unfolding apply_action
apply_action-IsSorted add p q book s = insert-IsSorted p q book s
apply_action-IsSorted update p q book s = insert-IsSorted p q book s
apply_action-IsSorted remove p q book s = remove-IsSorted p book s

apply_delta-IsSorted :
    (d : LevelDelta) (book : SortedMap ℤ) → IsSorted book → IsSorted (apply_delta d book)
unfolding apply_delta
apply_delta-IsSorted d book s = apply_action-IsSorted d.action d.price d.quantity book s

play-IsSorted :
    (ds : List LevelDelta) (book : SortedMap ℤ) → IsSorted book → IsSorted (play ds book)
play-IsSorted [] book s = s
play-IsSorted (d ∷ ds) book s =
    play-IsSorted ds (apply_delta d book) (apply_delta-IsSorted d book s)

-- After the entry for a changed price the book has the new quantity there.
get-change :
    (side : Side) (k price quantity : ℤ) (old : Option ℤ) (book : SortedMap ℤ)
    → SortedMap.get price book ≡ old
    → SortedMap.get k (play (change side old price quantity) book)
      ≡ (if eqb_ℤ k price then some quantity else SortedMap.get k book)
unfolding change apply_delta apply_action
get-change side k price quantity none book e = get-insert k price quantity book
get-change side k price quantity (some old) book e = elim (Bool-cases (eqb_ℤ old quantity)) [
  | inl same ↦ elim (Bool-cases (eqb_ℤ k price)) [
    | inl here ↦ rw (same, here, eqb_ℤ→eq k price here, e, eqb_ℤ→eq old quantity same) refl
    | inr other ↦ rw (same, other) refl
  ]
  | inr differs ↦ rw differs (get-insert k price quantity book)
]

abbrev pub or_else : Option ℤ → Option ℤ → Option ℤ
or_else (some v) o = some v
or_else none o = o

ap₂_or : {o o' : Option ℤ} → o ≡ none → o' ≡ none → or_else o o' ≡ none
ap₂_or {o' = o'} e f = ap (λ (x : Option ℤ). or_else x o') e ∙ f

other_price : (p j q : ℤ) → p <ℤ j → (o : Option ℤ) → (if eqb_ℤ j p then some q else o) ≡ o
other_price p j q lt o = ground arith

-- A map extended above its first key.
get_first :
    (k p q : ℤ) (new : SortedMap ℤ) (o : Option ℤ)
    → SortedFrom p new
    → or_else (SortedMap.get k new) (if eqb_ℤ k p then some q else o)
      ≡ or_else (SortedMap.get k ((p, q) ∷ new)) o
unfolding SortedMap.get
get_first k p q new o s = elim (Bool-cases (eqb_ℤ k p)) [
  | inl here ↦ rw (here, eqb_ℤ→eq k p here, get_below p new s) refl
  | inr other ↦ rw other refl
]

-- The new map's entries, played over a book that agrees with the old map at their prices.
play-changes :
    (side : Side) (prev new book : SortedMap ℤ)
    → IsSorted new
    → Each (λ k v. SortedMap.get k book ≡ SortedMap.get k prev) new
    → (k : ℤ)
    → SortedMap.get k (play (changes side prev new) book)
      ≡ or_else (SortedMap.get k new) (SortedMap.get k book)
unfolding changes SortedMap.get
play-changes side prev [] book s h k = refl
play-changes side prev ((p, q) ∷ new) book s h k =
    let first = change side (SortedMap.get p prev) p q in
    let book' = play first book in
    let at : (j : ℤ)
        → SortedMap.get j book' ≡ (if eqb_ℤ j p then some q else SortedMap.get j book) =
      λ j. get-change side j p q (SortedMap.get p prev) book h.0 in
    let above : Each (λ j v. p <ℤ j) new = SortedFrom-Each p new s in
    let agree : Each (λ j v. SortedMap.get j book' ≡ SortedMap.get j prev) new =
      Each-zip (λ j v. p <ℤ j) (λ j v. SortedMap.get j book ≡ SortedMap.get j prev)
        (λ j v. SortedMap.get j book' ≡ SortedMap.get j prev) new
        (λ j v lt e. at j ∙ other_price p j q lt (SortedMap.get j book) ∙ e) above h.1 in
    ap (SortedMap.get k) (play-append first (changes side prev new) book)
    ∙ play-changes side prev new book' (IsSorted-of_from p new s) agree k
    ∙ ap (or_else (SortedMap.get k new)) (at k)
    ∙ get_first k p q new (SortedMap.get k book) s

abbrev pub SameAt : SortedMap ℤ → SortedMap ℤ → ℤ → Type 0
SameAt m n k = SortedMap.get k m ≡ SortedMap.get k n

-- A price of the new map is kept by the removals.
play-removals_kept :
    (side : Side) (prev new book : SortedMap ℤ) (k v : ℤ)
    → SortedMap.get k new ≡ some v
    → SameAt (play (removals side prev new) book) book k
unfolding removals removal apply_delta apply_action
play-removals_kept side [] new book k v e = refl
play-removals_kept side ((p, q) ∷ prev) new book k v e = elim (Option-cases (SortedMap.get p new)) [
  | inl absent ↦ elim (Bool-cases (eqb_ℤ k p)) [
    | inl here ↦
        absurd (cc (sym e ∙ ap (λ (x : ℤ). SortedMap.get x new) (eqb_ℤ→eq k p here) ∙ absent))
    | inr other ↦ rw absent (
        play-removals_kept side prev new (SortedMap.remove p book) k v e
        ∙ get-remove_ne k p book other)
  ]
  | inr (w, present) ↦ rw present (play-removals_kept side prev new book k v e)
]

-- Any other price is gone, when it was the old map's or nowhere in the book.
play-removals_gone :
    (side : Side) (prev new book : SortedMap ℤ) (k : ℤ)
    → IsSorted book
    → SortedMap.get k new ≡ none
    → (SortedMap.get k prev ≡ none → SortedMap.get k book ≡ none)
    → SortedMap.get k (play (removals side prev new) book) ≡ none
unfolding removals removal apply_delta apply_action SortedMap.get
play-removals_gone side [] new book k s e h = h refl
play-removals_gone side ((p, q) ∷ prev) new book k s e h = elim (Bool-cases (eqb_ℤ k p)) [
  | inl here ↦
      let same = eqb_ℤ→eq k p here in
      let absent : SortedMap.get p new ≡ none =
        subst (λ (x : ℤ). SortedMap.get x new ≡ none) same e in
      rw absent (
        play-removals_gone side prev new (SortedMap.remove p book) k (remove-IsSorted p book s) e
          (λ x.
            ap (λ (j : ℤ). SortedMap.get j (SortedMap.remove p book)) same
            ∙ get-remove_self p book s))
  | inr other ↦
      let h' : SortedMap.get k prev ≡ none → SortedMap.get k book ≡ none =
        λ x. h (get_tail k p q prev other ∙ x) in
      elim (Option-cases (SortedMap.get p new)) [
        | inl absent ↦ rw absent (
            play-removals_gone side prev new (SortedMap.remove p book) k (remove-IsSorted p book s)
              e (λ x. get-remove_ne k p book other ∙ h' x))
        | inr (w, present) ↦ rw present (play-removals_gone side prev new book k s e h')
      ]
]

Each-true : (P : ℤ → Type 0) (m : SortedMap ℤ) → ((k : ℤ) → P k) → Each (λ k v. P k) m
Each-true P [] h = tt
Each-true P ((k, v) ∷ m) h = (h k, Each-true P m h)

-- The old map with a side's deltas applied is the new map.
pub play-new :
    (side : Side) (prev new : SortedMap ℤ)
    → IsSorted prev
    → IsSorted new
    → play (changes side prev new ++ removals side prev new) prev ≡ new
play-new side prev new s t =
    let changed = play (changes side prev new) prev in
    let all : (k : ℤ)
        → SortedMap.get k changed ≡ or_else (SortedMap.get k new) (SortedMap.get k prev) =
      λ k.
        play-changes side prev new prev t
          (Each-true (λ i. SortedMap.get i prev ≡ SortedMap.get i prev) new (λ i. refl)) k in
    let sorted = play-IsSorted (changes side prev new) prev s in
    play-append (changes side prev new) (removals side prev new) prev
    ∙ get-ext (play (removals side prev new) changed) new
        (play-IsSorted (removals side prev new) changed sorted) t
        (λ k. elim (Option-cases (SortedMap.get k new)) [
          | inl absent ↦
              play-removals_gone side prev new changed k sorted absent
                (λ x. all k ∙ ap₂_or absent x)
              ∙ sym absent
          | inr (v, present) ↦
              play-removals_kept side prev new changed k v present
              ∙ all k
              ∙ ap (λ o. or_else o (SortedMap.get k prev)) present
              ∙ sym present
        ])
