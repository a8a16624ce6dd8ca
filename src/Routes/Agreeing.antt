-- ===== src/Routes/Agreeing.antt =====
-- accounts/src/routes/orders.rs and internal.rs: the two ways to place an order.
use Prim.Native.String.{String}
use mexchange_study.Common.{
  ℕ, ◌≡◌, refl, sym, ◌∙◌, subst, inl, inr, false, not, Option, none, some, [], ◌∷◌, ◌++◌, arith,
  if◌then◌else◌, Bool-cases, Option-cases, pos,
}
use mexchange_study.Engine.Orders.{Side, bid, ask, OrderType, limit, market}
use mexchange_study.Accounts.Tables.{Amount, Decimals, Tables, Outcome, fine, failure}
use mexchange_study.Accounts.Orders.{
  parse_symbol, PlaceOrderResult, or_amount, has_price, calculate_lock_amount, lock_for, lock_price,
  stored_price, place,
}
use mexchange_study.Accounts.Ledger.{append_in_tx}
use mexchange_study.Accounts.Orders.{OrderError, limit_order_requires_price, lock_error}
use mexchange_study.Accounts.Tables.{OrderRow, lock, minus, pending}
use mexchange_study.Accounts.Reconciling.{WhenFine, Outcome-cases}
use mexchange_study.Routes.Replies.{Prints, order_to_response}
use mexchange_study.Routes.Placing.{
  PlaceOrderHttpRequest, PlaceOrderResponse, is_market_buy, not_positive, is_zero, quote_quantity,
  given_quantity, determine_quantity, check_price, with_quantity, place_order,
}
use mexchange_study.Routes.Internal.{replied, user_of}
use mexchange_study.Routes.Internal.Orders.{
  PlaceOrderInternalRequest, quantity_internal, request_internal, place_order_internal,
}

-- The same fields for the internal route.
abbrev pub internal : PlaceOrderHttpRequest → PlaceOrderInternalRequest
internal req = record {
  symbol = req.symbol;
  side = req.side;
  order_type = req.order_type;
  price = req.price;
  quantity = req.quantity;
  quote_amount = req.quote_amount;
  max_slippage_price = req.max_slippage_price;
}

-- A quantity that is written is not 0.
abbrev pub NotWrittenZero : Option Amount → Type 0
NotWrittenZero none = Unit
NotWrittenZero (some q) = is_zero q ≡ false

module _ (d : Decimals) (p : Prints) where
  abbrev SameQuantity :
      PlaceOrderHttpRequest → Option Amount → Option Amount → Amount × Option Amount → Type 0
  SameQuantity req quantity quote_amount r =
      (qa : Option Amount) × (quantity_internal d p (internal req) quantity quote_amount
        ≡ replied (fine (r.0, qa)))

  quote_quantity-internal :
      (req : PlaceOrderHttpRequest) (qa : Amount)
      → WhenFine (SameQuantity req none (some qa)) (quote_quantity d p req qa)
  unfolding quote_quantity quantity_internal
  quote_quantity-internal req qa =
      let price = or_amount req.max_slippage_price d.thousand in
      elim (Bool-cases (is_market_buy req.order_type req.side)) [
        | inr e ↦ rw (quote_quantity, e) tt
        | inl m ↦ elim (Bool-cases (not_positive qa)) [
          | inl e ↦ rw (quote_quantity, m, e) tt
          | inr q ↦ elim (Bool-cases (not_positive price)) [
            | inl e ↦ rw (quote_quantity, m, q, e) tt
            | inr r ↦
                let nonzero : is_zero price ≡ false = ground arith in
                rw (quote_quantity, m, q, r) (some qa, rw (m, nonzero) refl)
          ]
        ]
      ]

  given_quantity-internal :
      (req : PlaceOrderHttpRequest) (qty : Amount) (qa : Option Amount)
      → WhenFine (SameQuantity req (some qty) qa) (given_quantity d p qty)
  unfolding given_quantity quantity_internal
  given_quantity-internal req qty qa = elim (Bool-cases (not_positive qty)) [
    | inl e ↦ rw (given_quantity, e) tt
    | inr q ↦ rw (given_quantity, q) (none, refl)
  ]

  determine_quantity-internal :
      (req : PlaceOrderHttpRequest) (quantity qa : Option Amount)
      → NotWrittenZero quantity
      → WhenFine (SameQuantity req quantity qa) (determine_quantity d p req quantity qa)
  unfolding determine_quantity
  determine_quantity-internal req none none h = tt
  determine_quantity-internal req none (some qa) h = quote_quantity-internal req qa
  determine_quantity-internal req (some qty) none h = given_quantity-internal req qty none
  determine_quantity-internal req (some qty) (some qa) h =
      rw h (given_quantity-internal req qty (some qa))

  lock_for_any_quote :
      (base quote : String) (side : Side) (req : PlaceOrderHttpRequest) (q : Amount)
      (qa qa' : Option Amount)
      → lock_for d base quote (with_quantity d p req q qa) side
        ≡ lock_for d base quote (request_internal d p (internal req) q qa') side
  unfolding lock_for lock_price with_quantity request_internal
  lock_for_any_quote base quote bid req q qa qa' = refl
  lock_for_any_quote base quote ask req q qa qa' = refl

  calculate_any_quote :
      (req : PlaceOrderHttpRequest) (q : Amount) (qa qa' : Option Amount)
      → calculate_lock_amount d (with_quantity d p req q qa)
        ≡ calculate_lock_amount d (request_internal d p (internal req) q qa')
  unfolding calculate_lock_amount with_quantity request_internal
  calculate_any_quote req q qa qa' = elim (Option-cases (parse_symbol req.symbol)) [
    | inl e ↦ rw (calculate_lock_amount, e) refl
    | inr ((base, quote), e) ↦
        rw (calculate_lock_amount, e) (lock_for_any_quote base quote req.side req q qa qa')
  ]

  stored_any_quote :
      (kind : OrderType) (side : Side) (req : PlaceOrderHttpRequest) (q : Amount)
      (qa qa' : Option Amount)
      → stored_price d kind side (with_quantity d p req q qa)
        ≡ stored_price d kind side (request_internal d p (internal req) q qa')
  unfolding stored_price with_quantity request_internal
  stored_any_quote limit side req q qa qa' = refl
  stored_any_quote market bid req q qa qa' = refl
  stored_any_quote market ask req q qa qa' = refl

  -- Placing an order, for the lock and the price that is stored.
  abbrev placing :
      ℕ
      → ℕ
      → PlaceOrderHttpRequest
      → Amount
      → Tables
      → Outcome OrderError (String × Amount)
      → Option Amount
      → Outcome OrderError (Tables × PlaceOrderResult)
  placing id user req q t locked price =
      if not (has_price d (with_quantity d p req q none))
      then failure limit_order_requires_price
      else elim locked [
        | failure e ↦ failure e
        | fine (asset, amount) ↦ elim (append_in_tx user asset (minus amount) lock (some id) t) [
          | failure e ↦ failure (lock_error d amount e)
          | fine (t', entry) ↦
              let order : OrderRow = record {
                id = id;
                user_id = user;
                symbol = req.symbol;
                side = req.side;
                order_type = req.order_type;
                price = price;
                quantity = q;
                filled_quantity = record { value = pos 0; scale = 0 };
                status = pending;
              } in
              fine (
                record t' { orders = t'.orders ++ order ∷ [] },
                record { order = order; locked_asset = asset; locked_amount = amount },
              )
        ]
      ]

  -- The quote amount of a request plays no part in placing the order.
  place_any_quote :
      (id user : ℕ) (req : PlaceOrderHttpRequest) (q : Amount) (qa qa' : Option Amount) (t : Tables)
      → place d id user (with_quantity d p req q qa) t
        ≡ place d id user (request_internal d p (internal req) q qa') t
  unfolding place has_price with_quantity request_internal
  place_any_quote id user req q qa qa' t = λ i.
      placing id user req q t (calculate_any_quote req q qa qa' i)
        (stored_any_quote req.order_type req.side req q qa qa' i)

  -- What the internal route answers and leaves, as the public one does.
  abbrev pub SameOrder :
      ℕ → String → PlaceOrderHttpRequest → Tables → Tables × PlaceOrderResponse → Type 0
  SameOrder id header req t r =
      place_order_internal d p id (some header) (internal req) t
      ≡ replied (fine (r.0, record { id = r.1.order.id; quantity = r.1.order.quantity }))

  -- An order that the public route accepts for a user, with a quantity that is not a written 0, is accepted
  -- by the internal route as well, when its header names that user: it makes the same change and answers
  -- with the same id and quantity.
  pub place_order-internal :
      (id user : ℕ) (header : String) (req : PlaceOrderHttpRequest) (t : Tables)
      → p.parse_uuid header ≡ some user
      → NotWrittenZero req.quantity
      → WhenFine (SameOrder id header req t) (place_order d p id user req t)
  unfolding place_order place_order_internal user_of order_to_response
  place_order-internal id user header req t parsed written =
      elim (Outcome-cases (determine_quantity d p req req.quantity req.quote_amount)) [
        | inr (e, h) ↦ rw (place_order, h) tt
        | inl ((q, qa), h) ↦ elim (Option-cases (check_price d p req.order_type req.price)) [
          | inr (e, k) ↦ rw (place_order, h, k) tt
          | inl k ↦ elim (Outcome-cases (place d id user (with_quantity d p req q qa) t)) [
            | inr (e, m) ↦ rw (place_order, h, k, m) tt
            | inl ((t', r), m) ↦
                let (qa', same) =
                  subst (WhenFine (SameQuantity req req.quantity req.quote_amount)) h
                    (determine_quantity-internal req req.quantity req.quote_amount written) in
                let placed = sym (place_any_quote id user req q qa qa' t) ∙ m in
                rw (place_order, h, k, m)
                  (rw (place_order_internal, user_of, parsed, same, placed) refl)
          ]
        ]
      ]
