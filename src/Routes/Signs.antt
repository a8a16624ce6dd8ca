-- ===== src/Routes/Signs.antt =====
-- accounts/src/routes/orders.rs: the quantities, prices and locks of a request that passes the checks.
use Prim.Native.String.{String}
use mexchange_study.Common.{
  ℕ, ◌≡◌, refl, sym, ◌∙◌, subst, inl, inr, false, Option, none, some, arith, Bool-cases,
  Option-cases, pos, ◌≤ℤ◌, if_true, if-both,
}
use mexchange_study.Engine.Orders.{Side, bid, ask, OrderType, limit, market}
use mexchange_study.Accounts.Tables.{Amount, Decimals, minus, lock, Tables}
use mexchange_study.Accounts.Ledger.{append_in_tx, round_to_precision}
use mexchange_study.Accounts.Orders.{
  PlaceOrderRequest, PlaceOrderResult, parse_symbol, or_amount, lock_price, lock_for,
  calculate_lock_amount, has_price, place,
}
use mexchange_study.Accounts.Reconciling.{WhenFine, Outcome-cases}
use mexchange_study.Routes.Replies.{Prints, plain, bad_request}
use mexchange_study.Routes.Placing.{
  PlaceOrderHttpRequest, is_market_buy, not_positive, is_zero, quote_quantity, given_quantity,
  determine_quantity, check_price,
}

abbrev pub IsNonNegative : Amount → Type 0
IsNonNegative a = pos 0 ≤ℤ a.value

-- The arithmetic of decimals keeps to numbers that are not negative.
pub record KeepsSigns (d : Decimals) : Type 0 where
  pub times_sign : (a b : Amount) → IsNonNegative a → IsNonNegative b → IsNonNegative (d.times a b)
  pub round_dp_sign : (n : ℕ) (a : Amount) → IsNonNegative a → IsNonNegative (d.round_dp n a)
  pub divided_sign :
      (a b : Amount) → IsNonNegative a → IsNonNegative b → IsNonNegative (d.divided a b)
  pub thousand_sign : IsNonNegative d.thousand

-- What holds of an amount that is given.
abbrev pub WhenGiven : (Amount → Type 0) → Option Amount → Type 0
WhenGiven P none = Unit
WhenGiven P (some a) = P a

or_amount-IsNonNegative :
    (o : Option Amount) (a : Amount)
    → WhenGiven IsNonNegative o
    → IsNonNegative a
    → IsNonNegative (or_amount o a)
unfolding or_amount
or_amount-IsNonNegative none a h k = k
or_amount-IsNonNegative (some b) a h k = h

positive : (a : Amount) → not_positive a ≡ false → IsNonNegative a
positive a h = ground arith

-- What locks an order that the service may lock.
pub record Lockable (req : PlaceOrderRequest) : Type 0 where
  pub quantity_sign : IsNonNegative req.quantity
  pub price_sign : req.order_type ≡ limit → WhenGiven IsNonNegative req.price
  pub slippage_sign : WhenGiven IsNonNegative req.max_slippage_price

module _ (d : Decimals) (p : Prints) (signs : KeepsSigns d) where
  quote_quantity-IsNonNegative :
      (req : PlaceOrderHttpRequest) (qa : Amount)
      → WhenFine (λ (r : Amount × Option Amount). IsNonNegative r.0) (quote_quantity d p req qa)
  unfolding quote_quantity
  quote_quantity-IsNonNegative req qa =
      let price = or_amount req.max_slippage_price d.thousand in
      elim (Bool-cases (is_market_buy req.order_type req.side)) [
        | inr e ↦ rw (quote_quantity, e) tt
        | inl m ↦ elim (Bool-cases (not_positive qa)) [
          | inl e ↦ rw (quote_quantity, m, e) tt
          | inr q ↦ elim (Bool-cases (not_positive price)) [
            | inl e ↦ rw (quote_quantity, m, q, e) tt
            | inr r ↦
                rw (quote_quantity, m, q, r)
                  (signs.round_dp_sign 8 (d.divided qa price)
                    (signs.divided_sign qa price (positive qa q) (positive price r)))
          ]
        ]
      ]

  given_quantity-IsNonNegative :
      (qty : Amount)
      → WhenFine (λ (r : Amount × Option Amount). IsNonNegative r.0) (given_quantity d p qty)
  unfolding given_quantity
  given_quantity-IsNonNegative qty = elim (Bool-cases (not_positive qty)) [
    | inl e ↦ rw (given_quantity, e) tt
    | inr q ↦ rw (given_quantity, q) (positive qty q)
  ]

  pub determine_quantity-IsNonNegative :
      (req : PlaceOrderHttpRequest) (quantity quote_amount : Option Amount)
      → WhenFine
          (λ (r : Amount × Option Amount). IsNonNegative r.0)
          (determine_quantity d p req quantity quote_amount)
  unfolding determine_quantity
  determine_quantity-IsNonNegative req none none = tt
  determine_quantity-IsNonNegative req none (some qa) = quote_quantity-IsNonNegative req qa
  determine_quantity-IsNonNegative req (some qty) none = given_quantity-IsNonNegative qty
  determine_quantity-IsNonNegative req (some qty) (some qa) =
      if-both (WhenFine (λ (r : Amount × Option Amount). IsNonNegative r.0)) (is_zero qty)
        (quote_quantity d p req qa) (given_quantity d p qty) (quote_quantity-IsNonNegative req qa)
        (given_quantity-IsNonNegative qty)

  pub check_price-IsNonNegative :
      (kind : OrderType) (price : Option Amount)
      → check_price d p kind price ≡ none
      → kind ≡ limit
      → WhenGiven IsNonNegative price
  unfolding check_price
  check_price-IsNonNegative limit none h e = tt
  check_price-IsNonNegative limit (some price) h e = elim (Bool-cases (not_positive price)) [
    | inl bad ↦
        let refused =
          if_true (not_positive price) (some (plain bad_request "Price must be positive")) none
            bad in
        absurd (cc (sym h ∙ refused))
    | inr good ↦ positive price good
  ]
  check_price-IsNonNegative market price h e = absurd (cc e)

  lock_price-IsNonNegative :
      (req : PlaceOrderRequest) (kind : OrderType)
      → req.order_type ≡ kind
      → Lockable req
      → WhenGiven IsNonNegative (lock_price d req)
  unfolding lock_price
  lock_price-IsNonNegative req limit e ok = rw (lock_price, e) (ok.price_sign e)
  lock_price-IsNonNegative req market e ok =
      rw (lock_price, e)
        (or_amount-IsNonNegative req.max_slippage_price d.thousand ok.slippage_sign
          signs.thousand_sign)

  lock_for-IsNonNegative :
      (base quote : String) (req : PlaceOrderRequest) (side : Side)
      → Lockable req
      → WhenFine (λ (r : String × Amount). IsNonNegative r.1) (lock_for d base quote req side)
  unfolding lock_for lock_price round_to_precision
  lock_for-IsNonNegative base quote req ask ok = signs.round_dp_sign _ req.quantity ok.quantity_sign
  lock_for-IsNonNegative base quote req bid ok = elim (Option-cases (lock_price d req)) [
    | inl e ↦ rw (lock_for, e) tt
    | inr (price, e) ↦
        rw (lock_for, e)
          (signs.round_dp_sign _ (d.times price req.quantity) (
            signs.times_sign price req.quantity
              (subst (WhenGiven IsNonNegative) e
                (lock_price-IsNonNegative req req.order_type refl ok))
              ok.quantity_sign))
  ]

  calculate-IsNonNegative :
      (req : PlaceOrderRequest)
      → Lockable req
      → WhenFine (λ (r : String × Amount). IsNonNegative r.1) (calculate_lock_amount d req)
  unfolding calculate_lock_amount
  calculate-IsNonNegative req ok = elim (Option-cases (parse_symbol req.symbol)) [
    | inl e ↦ rw (calculate_lock_amount, e) tt
    | inr ((base, quote), e) ↦
        rw (calculate_lock_amount, e) (lock_for-IsNonNegative base quote req req.side ok)
  ]

  pub place-IsNonNegative :
      (id user : ℕ) (req : PlaceOrderRequest) (t : Tables)
      → Lockable req
      → WhenFine
          (λ (r : Tables × PlaceOrderResult). IsNonNegative r.1.locked_amount)
          (place d id user req t)
  unfolding place
  place-IsNonNegative id user req t ok = elim (Bool-cases (has_price d req)) [
    | inr bad ↦ rw (bad, place) tt
    | inl good ↦ elim (Outcome-cases (calculate_lock_amount d req)) [
      | inr (e, h) ↦ rw (good, place, h) tt
      | inl ((asset, amount), h) ↦
          elim (Outcome-cases (append_in_tx user asset (minus amount) lock (some id) t)) [
            | inr (e, k) ↦ rw (good, place, h, k) tt
            | inl ((t', e), k) ↦
                rw (good, place, h, k)
                  (subst (WhenFine (λ (r : String × Amount). IsNonNegative r.1)) h
                    (calculate-IsNonNegative req ok))
          ]
    ]
  ]
