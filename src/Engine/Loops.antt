-- ===== src/Engine/Loops.antt =====
-- The loops of `match_order`: one rule for what each round keeps, and how they end.
use mexchange_study.Common.{
  ℕ, zero, suc, ◌<◌, ◌≡◌, ap, ◌⊎◌, inl, inr, true, false, List, [], ◌∷◌, ℤ, min_ℤ, min_ℤ-cases,
  -ℤ_parts, arith, length, Bool-cases, List-cases,
}
use mexchange_study.Engine.Orders.{Order, is_filled, PriceLevel}
use mexchange_study.Engine.Matching.{
  Progress, match_front, match_level, can_match, Matching, match_price, match_prices,
}

-- The state of the `while` loop.
abbrev pub LevelState : Type 0
LevelState = Progress × PriceLevel

-- What each round keeps, the loop keeps, on any fuel.
pub match_level_inv {ℓ} :
    (P : LevelState → Type ℓ) (price : ℤ)
    → ((s : Progress) (l : PriceLevel) (front : Order) (rest : List Order)
        → l.orders ≡ front ∷ rest
        → is_filled s.taker ≡ false
        → P (s, l)
        → P (match_front price s l front rest))
    → (fuel : ℕ) (s : Progress) (l : PriceLevel) → P (s, l)
    → P (match_level fuel price s l)
unfolding match_level
match_level_inv P price keep zero s l h = h
match_level_inv P price keep (suc fuel) s l h = elim (List-cases l.orders) [
  | inl e ↦ rw (e, match_level) h
  | inr (front, rest, e) ↦ elim (Bool-cases (is_filled s.taker)) [
    | inl done ↦ rw (e, done, match_level) h
    | inr more ↦
        rw (e, more, match_level)
          (match_level_inv P price keep fuel (match_front price s l front rest).0
            (match_front price s l front rest).1 (keep s l front rest e more h))
  ]
]

-- A round uses up the front order or fills the taker.
pub match_front_progress :
    (price : ℤ) (s : Progress) (l : PriceLevel) (front : Order) (rest : List Order)
    → let (s', l') = match_front price s l front rest in
      (l'.orders ≡ rest) ⊎ (is_filled s'.taker ≡ true)
unfolding match_front is_filled
match_front_progress price s l front rest =
    let a = s.taker.remaining_quantity in
    let b = front.remaining_quantity in
    ground (arith, min_ℤ-cases a b, -ℤ_parts a (min_ℤ a b), -ℤ_parts b (min_ℤ a b))

-- The loop ends by its test: the level is used up or the taker is filled.
pub match_level_ends :
    (price : ℤ) (fuel : ℕ) (s : Progress) (l : PriceLevel)
    → (length l.orders < fuel) ⊎ (is_filled s.taker ≡ true)
    → let (s', l') = match_level fuel price s l in (l'.orders ≡ []) ⊎ (is_filled s'.taker ≡ true)
unfolding match_level
match_level_ends price zero s l (inl h) = absurd (omega arith)
match_level_ends price zero s l (inr h) = inr h
match_level_ends price (suc fuel) s l h = elim (List-cases l.orders) [
  | inl e ↦ rw (e, match_level) (inl e)
  | inr (front, rest, e) ↦ elim (Bool-cases (is_filled s.taker)) [
    | inl done ↦ rw (e, done, match_level) (inr done)
    | inr more ↦
        rw (e, more, match_level)
          (match_level_ends price fuel (match_front price s l front rest).0
            (match_front price s l front rest).1
            (elim h [
              | inr full ↦ cc
              | inl short ↦ elim (match_front_progress price s l front rest) [
                | inl used ↦ inl (rw used (omega (arith, ap length e)))
                | inr full ↦ inr full
              ]
            ]))
  ]
]

-- What each visited price keeps, the `for` loop keeps.
pub match_prices_inv {ℓ} :
    (P : Matching → Type ℓ)
    → ((price : ℤ) (m : Matching)
        → is_filled m.progress.taker ≡ false
        → can_match m.progress.taker price ≡ true
        → P m
        → P (match_price price m))
    → (prices : List ℤ) (m : Matching) → P m
    → P (match_prices prices m)
unfolding match_prices
match_prices_inv P keep [] m h = h
match_prices_inv P keep (price ∷ prices) m h = elim (Bool-cases (is_filled m.progress.taker)) [
  | inl done ↦ rw (done, match_prices) h
  | inr more ↦ elim (Bool-cases (can_match m.progress.taker price)) [
    | inl yes_it_can ↦
        rw (more, yes_it_can, match_prices)
          (match_prices_inv P keep prices (match_price price m) (keep price m more yes_it_can h))
    | inr no_it_cannot ↦ rw (more, no_it_cannot, match_prices) h
  ]
]
