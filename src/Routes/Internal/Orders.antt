-- ===== src/Routes/Internal/Orders.antt =====
-- accounts/src/routes/internal.rs: the order that the gateway places for a user.
use Prim.Native.String
use Prim.Native.String.{String}
use mexchange_study.Common.{ℕ, not, Option, none, some, if◌then◌else◌}
use mexchange_study.Engine.Orders.{Side, OrderType}
use mexchange_study.Accounts.Tables.{Amount, Decimals, Tables, fine, failure}
use mexchange_study.Accounts.Orders.{
  PlaceOrderRequest, OrderError, insufficient, limit_order_requires_price, or_amount, place,
}
use mexchange_study.Routes.Replies.{Prints, Status, bad_request, SettleErrorResponse, coded}
use mexchange_study.Routes.Placing.{is_market_buy, is_zero}
use mexchange_study.Routes.Internal.{Reply, replied, no_reply, invalid_user, user_of}

pub record PlaceOrderInternalRequest : Type 0 where
  pub symbol : String
  pub side : Side
  pub order_type : OrderType
  pub price : Option Amount
  pub quantity : Option Amount
  pub quote_amount : Option Amount
  pub max_slippage_price : Option Amount

pub record OrderResponseInternal : Type 0 where
  pub id : String
  pub quantity : String

module _ (d : Decimals) (p : Prints) where
  -- The quantity to buy or sell and the quote amount; a division by zero panics.
  unfoldable pub quantity_internal :
      PlaceOrderInternalRequest → Option Amount → Option Amount → Reply (Amount × Option Amount)
  quantity_internal req none (some qa) =
      let price = or_amount req.max_slippage_price d.thousand in
      if not (is_market_buy req.order_type req.side)
      then replied (
          failure (
            coded bad_request "INVALID_ORDER_TYPE"
              "Quote currency orders are only supported for market buy orders"))
      else if is_zero price
      then no_reply
      else replied (fine (d.round_dp 8 (d.divided qa price), some qa))
  quantity_internal req (some qty) quote_amount = replied (fine (qty, none))
  quantity_internal req none none = replied (
      failure
        (coded bad_request "MISSING_QUANTITY" "Either quantity or quote_amount must be provided"))

  unfoldable pub place_error_internal : OrderError → Status × SettleErrorResponse
  place_error_internal (insufficient available required) =
      coded bad_request "INSUFFICIENT_BALANCE" (
        String.◌++◌ "Insufficient balance: available=" (
          String.◌++◌ (p.print_decimal (record { value = available; scale = 0 }))
            (String.◌++◌ ", required=" (p.print_decimal required))))
  place_error_internal limit_order_requires_price =
      coded bad_request "LIMIT_REQUIRES_PRICE" "Limit order requires price"
  place_error_internal OrderError.invalid_symbol =
      coded bad_request "INVALID_SYMBOL" "Invalid symbol format"
  place_error_internal _ = coded bad_request "INTERNAL_ERROR" "Internal error"

  unfoldable pub request_internal :
      PlaceOrderInternalRequest → Amount → Option Amount → PlaceOrderRequest
  request_internal req quantity quote_amount = record {
    symbol = req.symbol;
    side = req.side;
    order_type = req.order_type;
    price = req.price;
    quantity = quantity;
    quote_amount = quote_amount;
    max_slippage_price = req.max_slippage_price;
  }

  -- `place_order_internal`, with the id of the new order
  unfoldable pub place_order_internal :
      ℕ
      → Option String
      → PlaceOrderInternalRequest
      → Tables
      → Reply (Tables × OrderResponseInternal)
  place_order_internal id header req t = elim (user_of d p header) [
    | none ↦ replied (failure invalid_user)
    | some user ↦ elim (quantity_internal req req.quantity req.quote_amount) [
      | no_reply ↦ no_reply
      | replied (failure e) ↦ replied (failure e)
      | replied (fine (quantity, quote_amount)) ↦
          elim (place d id user (request_internal req quantity quote_amount) t) [
            | failure e ↦ replied (failure (place_error_internal e))
            | fine (t', r) ↦ replied (
                fine (
                  t',
                  record {
                    id = p.print_uuid r.order.id;
                    quantity = p.print_column r.order.quantity.value;
                  },
                ))
          ]
    ]
  ]
