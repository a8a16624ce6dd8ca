-- ===== src/Routes/Placing.antt =====
-- accounts/src/routes/orders.rs: `place_order`.
use Prim.Native.String.{String}
use mexchange_study.Common.{
  ℕ, Bool, true, false, not, Option, none, some, if◌then◌else◌, pos, leb_ℤ, eqb_ℤ,
}
use mexchange_study.Engine.Orders.{Side, bid, ask, OrderType, limit, market}
use mexchange_study.Accounts.Tables.{Amount, Decimals, Tables, Outcome, fine, failure}
use mexchange_study.Accounts.Orders.{
  PlaceOrderRequest, OrderError, insufficient, limit_order_requires_price, invalid_symbol,
  or_amount, place,
}
use mexchange_study.Routes.Replies.{
  Prints, Status, bad_request, internal_server_error, ErrorResponse, OrderResponse, plain,
  order_to_response,
}

pub record PlaceOrderHttpRequest : Type 0 where
  pub symbol : String
  pub side : Side
  pub order_type : OrderType
  pub price : Option Amount
  pub quantity : Option Amount
  pub quote_amount : Option Amount
  pub max_slippage_price : Option Amount

pub record PlaceOrderResponse : Type 0 where
  pub order : OrderResponse
  pub locked_asset : String
  pub locked_amount : String

abbrev pub is_market_buy : OrderType → Side → Bool
is_market_buy market bid = true
is_market_buy market ask = false
is_market_buy limit side = false

-- `<= Decimal::ZERO`
abbrev pub not_positive : Amount → Bool
not_positive a = leb_ℤ a.value (pos 0)

-- `is_zero`
abbrev pub is_zero : Amount → Bool
is_zero a = eqb_ℤ a.value (pos 0)

abbrev pub Refused : Type 0
Refused = Status × ErrorResponse

module _ (d : Decimals) (p : Prints) where
  -- An order to spend this much of the quote asset: both arms of the match are the same.
  unfoldable pub quote_quantity :
      PlaceOrderHttpRequest → Amount → Outcome Refused (Amount × Option Amount)
  quote_quantity req qa =
      let price = or_amount req.max_slippage_price d.thousand in
      if not (is_market_buy req.order_type req.side)
      then failure (
          plain bad_request
            "Quote currency orders (quote_amount) are only supported for market buy orders")
      else if not_positive qa
      then failure (plain bad_request "Quote amount must be positive")
      else if not_positive price
      then failure
          (plain bad_request "max_slippage_price must be positive for quote currency orders")
      else fine (d.round_dp 8 (d.divided qa price), some qa)

  unfoldable pub given_quantity : Amount → Outcome Refused (Amount × Option Amount)
  given_quantity qty =
      if not_positive qty
      then failure (plain bad_request "Quantity must be positive")
      else fine (qty, none)

  -- The quantity to buy or sell, and the quote amount.
  unfoldable pub determine_quantity :
      PlaceOrderHttpRequest
      → Option Amount
      → Option Amount
      → Outcome Refused (Amount × Option Amount)
  determine_quantity req none (some qa) = quote_quantity req qa
  determine_quantity req (some qty) (some qa) =
      if is_zero qty then quote_quantity req qa else given_quantity qty
  determine_quantity req (some qty) none = given_quantity qty
  determine_quantity req none none =
      failure (plain bad_request "Either quantity or quote_amount must be provided")

  -- The check of a limit order's price: what is refused.
  unfoldable pub check_price : OrderType → Option Amount → Option Refused
  check_price limit (some price) =
      if not_positive price then some (plain bad_request "Price must be positive") else none
  check_price limit none = some (plain bad_request "Limit order requires price")
  check_price market price = none

  unfoldable pub place_error : OrderError → Refused
  place_error (insufficient available required) = (
    bad_request,
    record {
      error = "Insufficient balance";
      available = some (p.print_decimal (record { value = available; scale = 0 }));
      required = some (p.print_decimal required);
    },
  )
  place_error limit_order_requires_price = plain bad_request "Limit order requires price"
  place_error invalid_symbol = plain bad_request "Invalid symbol format (expected BASE/QUOTE)"
  place_error _ = plain internal_server_error "Failed to place order"

  -- The request that is passed on.
  unfoldable pub with_quantity : PlaceOrderHttpRequest → Amount → Option Amount → PlaceOrderRequest
  with_quantity req quantity quote_amount = record {
    symbol = req.symbol;
    side = req.side;
    order_type = req.order_type;
    price = req.price;
    quantity = quantity;
    quote_amount = quote_amount;
    max_slippage_price = req.max_slippage_price;
  }

  -- `place_order`, with the id of the new order
  unfoldable pub place_order :
      ℕ → ℕ → PlaceOrderHttpRequest → Tables → Outcome Refused (Tables × PlaceOrderResponse)
  place_order id user req t = elim (determine_quantity req req.quantity req.quote_amount) [
    | failure e ↦ failure e
    | fine (quantity, quote_amount) ↦ elim (check_price req.order_type req.price) [
      | some e ↦ failure e
      | none ↦ elim (place d id user (with_quantity req quantity quote_amount) t) [
        | failure e ↦ failure (place_error e)
        | fine (t', r) ↦ fine (
          t',
          record {
            order = order_to_response p r.order;
            locked_asset = r.locked_asset;
            locked_amount = p.print_decimal r.locked_amount;
          },
        )
      ]
    ]
  ]
