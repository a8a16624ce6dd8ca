-- ===== src/Candles/Summaries.antt =====
-- market_data/src/ohlcv.rs: what it means that a candle describes trades, and a further trade.
use Prim.Native.String.{String}
use mexchange_study.Common.{
  suc, ◌+◌, ◌≤◌, ◌<◌, ◌≡◌, refl, sym, ap, subst, ◌⊎◌, inl, inr, Bool, true, false, ◌&&◌, Option,
  none, some, List, [], ◌∷◌, arith, ltb, if◌then◌else◌, length, All, ℤ, pos, ◌+ℤ◌, ◌≤ℤ◌, eqb_ℤ,
  min_ℤ, max_ℤ, int_laws, same_text, if-both,
}
use mexchange_study.Candles.{Ohlcv, merge, count_fits, Trade, bar_of}
use mexchange_study.Candles.Aggregates.{advance, merged}

-- The trades, newest first.
abbrev pub Traded : ℤ → List Trade → Type 0
Traded p [] = ⊥
Traded p (x ∷ xs) = (x.price ≡ p) ⊎ Traded p xs

abbrev pub first_price : List Trade → Option ℤ
first_price [] = none
first_price (x ∷ []) = some x.price
first_price (x ∷ y ∷ ys) = first_price (y ∷ ys)

abbrev pub last_price : List Trade → Option ℤ
last_price [] = none
last_price (x ∷ xs) = some x.price

abbrev pub total_quantity : List Trade → ℤ
total_quantity [] = pos 0
total_quantity (x ∷ xs) = total_quantity xs +ℤ x.quantity

-- The candle opens at the first and closes at the last price, its high and low are prices that were paid
-- and that bound the others, and it counts the trades and their quantities.
pub record Summarizes (c : Ohlcv) (xs : List Trade) : Type 0 where
  pub opens : first_price xs ≡ some c.open_
  pub closes : last_price xs ≡ some c.close
  pub within : All (λ (x : Trade). (c.low ≤ℤ x.price) × (x.price ≤ℤ c.high)) xs
  pub high_traded : Traded c.high xs
  pub low_traded : Traded c.low xs
  pub volume : total_quantity xs ≡ c.volume
  pub count : c.trade_count ≡ length xs

abbrev pub Describes : Option Ohlcv → List Trade → Type 0
Describes none xs = xs ≡ []
Describes (some c) xs = Summarizes c xs

max_either : (a b : ℤ) → (max_ℤ a b ≡ a) ⊎ (max_ℤ a b ≡ b)
unfolding max_ℤ
max_either a b = ground arith

min_either : (a b : ℤ) → (min_ℤ a b ≡ a) ⊎ (min_ℤ a b ≡ b)
unfolding min_ℤ
min_either a b = ground arith

Traded-either :
    (x : Trade) (xs : List Trade) (a m : ℤ)
    → Traded a xs
    → (m ≡ a) ⊎ (m ≡ x.price)
    → Traded m (x ∷ xs)
Traded-either x xs a m h (inl e) = inr (subst (λ (z : ℤ). Traded z xs) (sym e) h)
Traded-either x xs a m h (inr e) = inl (sym e)

max_above : (a b : ℤ) → (a ≤ℤ max_ℤ a b) × (b ≤ℤ max_ℤ a b)
unfolding max_ℤ
max_above a b = ground arith

min_below : (a b : ℤ) → (min_ℤ a b ≤ℤ a) × (min_ℤ a b ≤ℤ b)
unfolding min_ℤ
min_below a b = ground arith

wider :
    (low low' high high' : ℤ) (xs : List Trade)
    → low' ≤ℤ low
    → high ≤ℤ high'
    → All (λ (x : Trade). (low ≤ℤ x.price) × (x.price ≤ℤ high)) xs
    → All (λ (x : Trade). (low' ≤ℤ x.price) × (x.price ≤ℤ high')) xs
wider low low' high high' [] l h a = tt
wider low low' high high' (x ∷ xs) l h ((a, b), rest) =
    ((omega (arith, l, a), omega (arith, h, b)), wider low low' high high' xs l h rest)

first_price_later :
    (x : Trade) (xs : List Trade) (p : ℤ) → first_price xs ≡ some p → first_price (x ∷ xs) ≡ some p
first_price_later x [] p h = absurd (cc h)
first_price_later x (y ∷ ys) p h = h

add_zero : (a : ℤ) → pos 0 +ℤ a ≡ a
add_zero a = omega int_laws

-- One more trade.
merged-Summarizes :
    (x : Trade) (name : String) (at : ℤ) (o : Option Ohlcv) (xs : List Trade)
    → Describes o xs
    → Summarizes (merged (bar_of x name at) o) (x ∷ xs)
unfolding bar_of merge
merged-Summarizes x name at none xs h =
    subst (λ (ys : List Trade). Summarizes (merged (bar_of x name at) none) (x ∷ ys)) (sym h)
      (record {
        opens = refl;
        closes = refl;
        within = ((omega arith, omega arith), tt);
        high_traded = inl refl;
        low_traded = inl refl;
        volume = add_zero x.quantity;
        count = refl;
      })
merged-Summarizes x name at (some c) xs h = record {
  opens = first_price_later x xs c.open_ h.opens;
  closes = refl;
  within =
      let (a, b) = max_above c.high x.price in
      let (e, f) = min_below c.low x.price in
      ((f, b), wider c.low (min_ℤ c.low x.price) c.high (max_ℤ c.high x.price) xs e a h.within);
  high_traded =
      Traded-either x xs c.high (max_ℤ c.high x.price) h.high_traded (max_either c.high x.price);
  low_traded =
      Traded-either x xs c.low (min_ℤ c.low x.price) h.low_traded (min_either c.low x.price);
  volume = ap (λ (z : ℤ). z +ℤ x.quantity) h.volume;
  count = omega (arith, h.count);
}

-- The trades of a symbol whose interval starts at this time.
abbrev pub during : (Trade → ℤ) → String → ℤ → List Trade → List Trade
during start symbol at [] = []
during start symbol at (x ∷ xs) =
    let rest = during start symbol at xs in
    if same_text symbol x.symbol && eqb_ℤ at (start x) then x ∷ rest else rest

pub length-during :
    (start : Trade → ℤ) (symbol : String) (at : ℤ) (xs : List Trade)
    → length (during start symbol at xs) ≤ length xs
length-during start symbol at [] = omega arith
length-during start symbol at (x ∷ xs) =
    let rest = length-during start symbol at xs in
    if-both (λ (ys : List Trade). length ys ≤ suc (length xs))
      (same_text symbol x.symbol && eqb_ℤ at (start x)) (x ∷ during start symbol at xs)
      (during start symbol at xs) (omega (arith, rest)) (omega (arith, rest))

-- While there are fewer than 2^31 - 1 trades, the counts fit.
pub advance-Describes :
    (x : Trade) (name : String) (at : ℤ) (o : Option Ohlcv) (xs : List Trade)
    → Describes o xs
    → length xs < 2147483647
    → Describes (advance (bar_of x name at) o) (x ∷ xs)
unfolding bar_of count_fits
advance-Describes x name at none xs h few = merged-Summarizes x name at none xs h
advance-Describes x name at (some c) xs h few =
    let fits : ltb (c.trade_count + 1) 2147483648 ≡ true = ground (arith, h.count, few) in
    rw fits (merged-Summarizes x name at (some c) xs h)

pub either_Describes :
    (b : Bool) (x : Trade) (new old : Option Ohlcv) (xs : List Trade)
    → Describes new (x ∷ xs)
    → Describes old xs
    → Describes (if b then new else old) (if b then x ∷ xs else xs)
either_Describes true x new old xs h k = h
either_Describes false x new old xs h k = k
