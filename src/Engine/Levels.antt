-- ===== src/Engine/Levels.antt =====
-- What holds of every level, and what one round of matching keeps.
use mexchange_study.Common.{
  ℕ, ◌≡◌, ap, ◌∙◌, subst, true, false, some, List, [], ◌∷◌, ◌++◌, arith, All, All-append, ℤ, pos,
  ◌+ℤ◌, ◌-ℤ◌, ◌≤ℤ◌, ◌<ℤ◌, min_ℤ, +ℤ_parts, -ℤ_parts, eq_of_parts, min_ℤ-cases, int_laws,
}
use mexchange_study.Engine.Orders.{Side, bid, ask, limit, Order, is_filled, PriceLevel, Fill}
use mexchange_study.Engine.Matching.{Progress, fill_of, match_front, match_level, can_match}
use mexchange_study.Engine.Loops.{LevelState, match_level_inv}

-- The order can rest at this price on this side of the book.
pub record Rests (side : Side) (price : ℤ) (o : Order) : Type 0 where
  pub on_side : o.side ≡ side
  pub is_limit : o.order_type ≡ limit
  pub at_price : o.price ≡ some price
  pub open_quantity : pos 0 <ℤ o.remaining_quantity

abbrev pub sum_remaining : List Order → ℤ
sum_remaining [] = pos 0
sum_remaining (o ∷ os) = o.remaining_quantity +ℤ sum_remaining os

abbrev pub sum_fills : List Fill → ℤ
sum_fills [] = pos 0
sum_fills (f ∷ fs) = f.quantity +ℤ sum_fills fs

-- The queue holds open orders of this side and price, and the level's total is their sum.
pub record LevelHolds (side : Side) (price : ℤ) (l : PriceLevel) : Type 0 where
  pub resting : All (Rests side price) l.orders
  pub totalled : l.total_quantity ≡ sum_remaining l.orders

-- Of an order that is being matched only the remaining quantity changes.
pub record SameOrder (o o' : Order) : Type 0 where
  pub same_id : o'.id ≡ o.id
  pub same_side : o'.side ≡ o.side
  pub same_type : o'.order_type ≡ o.order_type
  pub same_price : o'.price ≡ o.price
  pub same_quantity : o'.quantity ≡ o.quantity

abbrev pub taker_id : Side → Fill → ℕ
taker_id bid f = f.buy_order_id
taker_id ask f = f.sell_order_id

-- A fill of a positive quantity, at a price that the order accepts, with the order on its side.
pub record GoodFill (o : Order) (f : Fill) : Type 0 where
  pub positive : pos 0 <ℤ f.quantity
  pub accepted : can_match o f.price ≡ true
  pub for_taker : taker_id o.side f ≡ o.id

-- What matching an order `o` has done so far: the fills and the rest make up its quantity.
pub record Accounted (o : Order) (s : Progress) : Type 0 where
  pub same : SameOrder o s.taker
  pub left_over : pos 0 ≤ℤ s.taker.remaining_quantity
  pub balanced : sum_fills s.fills +ℤ s.taker.remaining_quantity ≡ o.remaining_quantity
  pub good : All (GoodFill o) s.fills

-- Whether an order accepts a price does not depend on what is left of it.
pub can_match-SameOrder :
    (o o' : Order) (price : ℤ) → SameOrder o o' → can_match o' price ≡ can_match o price
unfolding can_match
can_match-SameOrder o o' price h = ground arith

pub sum_fills-append : (fs gs : List Fill) → sum_fills (fs ++ gs) ≡ sum_fills fs +ℤ sum_fills gs
sum_fills-append [] gs = omega int_laws
sum_fills-append (f ∷ fs) gs = rw (sum_fills-append fs gs) (omega int_laws)

fill_of-quantity : (t m : Order) (p q : ℤ) → (fill_of t m p q).quantity ≡ q
unfolding fill_of
fill_of-quantity t m p q = ground arith

fill_of-GoodFill :
    (o t m : Order) (price quantity : ℤ)
    → SameOrder o t
    → can_match o price ≡ true
    → pos 0 <ℤ quantity
    → GoodFill o (fill_of t m price quantity)
unfolding fill_of
fill_of-GoodFill o t m price quantity same ok h = ground arith

module _ (o : Order) (price : ℤ) (s : Progress) (l : PriceLevel) (front : Order)
    (rest : List Order) where
  match_front-Accounted :
      pos 0 <ℤ front.remaining_quantity
      → can_match o price ≡ true
      → is_filled s.taker ≡ false
      → Accounted o s
      → Accounted o (match_front price s l front rest).0
  unfolding match_front is_filled
  match_front-Accounted h ok more a =
      let t = s.taker.remaining_quantity in
      let q = min_ℤ t front.remaining_quantity in
      let taker = record s.taker { remaining_quantity = t -ℤ q } in
      let maker = record front { remaining_quantity = front.remaining_quantity -ℤ q } in
      let same : SameOrder o taker = record {
        same_id = a.same.same_id;
        same_side = a.same.same_side;
        same_type = a.same.same_type;
        same_price = a.same.same_price;
        same_quantity = a.same.same_quantity;
      } in
      let cases = min_ℤ-cases t front.remaining_quantity in
      let good : All (GoodFill o) (s.fills ++ fill_of taker maker price q ∷ []) =
        All-append (GoodFill o) s.fills (fill_of taker maker price q ∷ []) a.good
          (fill_of-GoodFill o taker maker price q same ok (ground (arith, cases)), tt) in
      grind (int_laws, good, same, sum_fills-append, fill_of-quantity, min_ℤ-cases)

  match_front-LevelHolds :
      {side : Side}
      → l.orders ≡ front ∷ rest
      → pos 0 ≤ℤ s.taker.remaining_quantity
      → LevelHolds side price l
      → LevelHolds side price (match_front price s l front rest).1
  unfolding match_front is_filled
  match_front-LevelHolds {side} e h v =
      let r : All (Rests side price) (front ∷ rest) = subst (All (Rests side price)) e v.resting in
      let t : l.total_quantity ≡ front.remaining_quantity +ℤ sum_remaining rest =
        v.totalled ∙ ap sum_remaining e in
      let a = s.taker.remaining_quantity in
      let b = front.remaining_quantity in
      ground (
        arith,
        min_ℤ-cases a b,
        -ℤ_parts b (min_ℤ a b),
        -ℤ_parts l.total_quantity (min_ℤ a b),
        +ℤ_parts b (sum_remaining rest),
        +ℤ_parts (b -ℤ min_ℤ a b) (sum_remaining rest),
        eq_of_parts (l.total_quantity -ℤ min_ℤ a b) (sum_remaining rest),
        eq_of_parts (l.total_quantity -ℤ min_ℤ a b) ((b -ℤ min_ℤ a b) +ℤ sum_remaining rest),
      )

  -- One round keeps both.
  round-keeps :
      {side : Side}
      → l.orders ≡ front ∷ rest
      → can_match o price ≡ true
      → is_filled s.taker ≡ false
      → Accounted o s × LevelHolds side price l
      → Accounted o (match_front price s l front rest).0
        × LevelHolds side price (match_front price s l front rest).1
  round-keeps {side} e ok more (a, v) = (
    match_front-Accounted (subst (All (Rests side price)) e v.resting).0.open_quantity ok more a,
    match_front-LevelHolds e a.left_over v,
  )

-- The loop on a level keeps the order accounted for and the level in shape.
pub match_level-keeps :
    (o : Order) (side : Side) (price : ℤ) (fuel : ℕ) (s : Progress) (l : PriceLevel)
    → can_match o price ≡ true
    → Accounted o s
    → LevelHolds side price l
    → let (s', l') = match_level fuel price s l in Accounted o s' × LevelHolds side price l'
match_level-keeps o side price fuel s l ok a v =
    match_level_inv (λ (st : LevelState). Accounted o st.0 × LevelHolds side price st.1) price
      (λ s l front rest e more h. round-keeps o price s l front rest e ok more h) fuel s l (a, v)
