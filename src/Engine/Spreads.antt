-- ===== src/Engine/Spreads.antt =====
-- The top of the book.
use mexchange_study.Common.{
  ◌≡◌, refl, sym, subst, inl, inr, none, some, [], ◌∷◌, arith, Option-cases, ℤ, pos, ◌-ℤ◌, ◌≤ℤ◌,
  ◌<ℤ◌, int_laws,
}
use mexchange_study.Engine.Orders.{PriceLevel, OrderBook}
use mexchange_study.Engine.Queries.{first_key, last_key, best_bid, best_ask, spread}
use mexchange_study.Common.SortedMap.{
  SortedMap, IsSorted, IsSorted-of_from, Each, Each-map, SortedFrom-Each,
}
use mexchange_study.Engine.Validity.{IsValid}

first_key-Each :
    (m : SortedMap PriceLevel) (k : ℤ) → IsSorted m → first_key m ≡ some k → Each (λ j l. k ≤ℤ j) m
unfolding first_key
first_key-Each [] k s e = tt
first_key-Each ((j, l) ∷ m) k s e =
    let same : j ≡ k = ground arith in
    subst (λ (i : ℤ). Each {V = PriceLevel} (λ q l. i ≤ℤ q) ((j, l) ∷ m)) same
      (
        omega arith,
        Each-map (λ i l. j <ℤ i) (λ i l. j ≤ℤ i) m (λ i l h. omega arith) (SortedFrom-Each j m s),
      )

first_key-holds :
    (K : ℤ → Type 0) (m : SortedMap PriceLevel) (k : ℤ)
    → Each (λ j l. K j) m
    → first_key m ≡ some k
    → K k
unfolding first_key
first_key-holds K [] k h e = cc
first_key-holds K ((j, l) ∷ m) k h e = subst K (ground arith) h.0

last_key-nil : (m : SortedMap PriceLevel) → last_key m ≡ none → m ≡ []
unfolding last_key
last_key-nil [] e = refl
last_key-nil ((j, l) ∷ m) e = elim (Option-cases (last_key m)) [
  | inl h ↦ absurd (ground arith)
  | inr (p, h) ↦ absurd (ground arith)
]

last_key-holds :
    (K : ℤ → Type 0) (m : SortedMap PriceLevel) (k : ℤ)
    → Each (λ j l. K j) m
    → last_key m ≡ some k
    → K k
unfolding last_key
last_key-holds K [] k h e = cc
last_key-holds K ((j, l) ∷ m) k h e = elim (Option-cases (last_key m)) [
  | inl end ↦ subst K (ground arith) h.0
  | inr (p, more) ↦ last_key-holds K m k h.1 (ground arith)
]

last_key-Each :
    (m : SortedMap PriceLevel) (k : ℤ) → IsSorted m → last_key m ≡ some k → Each (λ j l. j ≤ℤ k) m
unfolding last_key
last_key-Each [] k s e = tt
last_key-Each ((j, l) ∷ m) k s e = elim (Option-cases (last_key m)) [
  | inl end ↦
      let same : j ≡ k = ground arith in
      let le : j ≤ℤ k = subst (λ (i : ℤ). j ≤ℤ i) same (omega arith) in
      (le, subst (Each (λ j l. j ≤ℤ k)) (sym (last_key-nil m end)) tt)
  | inr (p, more) ↦
      let last : last_key m ≡ some k = ground arith in
      let below : j <ℤ k = last_key-holds (λ (i : ℤ). j <ℤ i) m k (SortedFrom-Each j m s) last in
      (omega arith, last_key-Each m k (IsSorted-of_from j m s) last)
]

-- In a valid book the best bid is the highest bid, the best ask the lowest ask, and when both
-- sides have orders the spread is there, is their difference and is positive.
pub spread-positive :
    (b : OrderBook) (p a : ℤ)
    → IsValid b
    → best_bid b ≡ some p
    → best_ask b ≡ some a
    → Each (λ q l. q ≤ℤ p) b.bids
      × Each (λ q l. a ≤ℤ q) b.asks
      × (spread b ≡ some (a -ℤ p))
      × (pos 0 <ℤ a -ℤ p)
unfolding best_bid best_ask spread
spread-positive b p a v e f =
    let below : p <ℤ a =
      first_key-holds (λ (q : ℤ). p <ℤ q) b.asks a
        (last_key-holds (λ (r : ℤ). Each (λ q l. r <ℤ q) b.asks) b.bids p v.uncrossed e) f in
    (
      last_key-Each b.bids p v.bids_hold.sorted e,
      first_key-Each b.asks a v.asks_hold.sorted f,
      ground arith,
      omega int_laws,
    )
