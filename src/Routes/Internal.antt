-- ===== src/Routes/Internal.antt =====
-- accounts/src/routes/internal.rs: what the gateway and the matching engine call.
pub mod Orders
use Prim.Native.String
use Prim.Native.String.{String}
use mexchange_study.Common.{ℕ, Bool, true, not, Option, none, some, List, if◌then◌else◌, ℤ}
use mexchange_study.Engine.Orders.{Side, OrderType}
use mexchange_study.Accounts.Tables.{
  Amount, Decimals, deposit, TradeRow, Tables, Outcome, fine, failure, find_order,
}
use mexchange_study.Accounts.Ledger.{append_in_tx}
use mexchange_study.Accounts.Orders.{
  PlaceOrderRequest, OrderError, insufficient, limit_order_requires_price, invalid_symbol,
  not_found, cannot_cancel, or_amount, place, cancel, cancel_internal,
}
use mexchange_study.Accounts.Trades.{
  Fill, SettlementError, partial_settlement, invalid_symbol, database, settle,
}
use mexchange_study.Candles.{Ohlcv, Updated, updated, sql_failed, panicked, update_from_trade}
use mexchange_study.Routes.Replies.{
  Prints, Status, bad_request, internal_server_error, SettleErrorResponse, coded, status_text,
}
use mexchange_study.Routes.Placing.{is_market_buy, is_zero}

-- A handler that panics sends no answer.
pub data Reply {ℓ} (A : Type ℓ) : Type ℓ where
  replied : Outcome (Status × SettleErrorResponse) A → Reply A
  no_reply : Reply A

pub record SettleFillRequest : Type 0 where
  pub symbol : String
  pub buy_order_id : ℕ
  pub sell_order_id : ℕ
  pub price : Amount
  pub quantity : Amount
  pub timestamp : ℤ

pub record SettleFillResponse : Type 0 where
  pub buyer_id : String
  pub seller_id : String
  pub settled : Bool

pub record CancelOrderInternalResponse : Type 0 where
  pub success : Bool
  pub order_id : String
  pub status : String

pub record MintInternalResponse : Type 0 where
  pub success : Bool
  pub asset : String
  pub amount : String
  pub new_balance : String

abbrev pub invalid_user : Status × SettleErrorResponse
invalid_user = coded bad_request "INVALID_USER_ID" "Missing or invalid X-User-Id header"

module _ (d : Decimals) (p : Prints) where
  -- The user of the header `X-User-Id`.
  unfoldable pub user_of : Option String → Option ℕ
  user_of none = none
  user_of (some s) = p.parse_uuid s

  unfoldable pub printed : Option ℕ → String
  printed none = ""
  printed (some id) = p.print_uuid id

  unfoldable pub fill_of : SettleFillRequest → Fill
  fill_of req = record {
    buy_order_id = req.buy_order_id;
    sell_order_id = req.sell_order_id;
    price = req.price;
    quantity = req.quantity;
    timestamp = req.timestamp;
  }

  unfoldable pub settle_error : SettleFillRequest → SettlementError → Status × SettleErrorResponse
  settle_error req partial_settlement = coded bad_request "PARTIAL_SETTLEMENT" (
      String.◌++◌ "Neither order found: buy=" (
        String.◌++◌ (p.print_uuid req.buy_order_id)
          (String.◌++◌ ", sell=" (p.print_uuid req.sell_order_id))))
  settle_error req invalid_symbol =
      coded bad_request "INVALID_SYMBOL" (String.◌++◌ "Invalid symbol format: " req.symbol)
  settle_error req (database e) = coded bad_request "DATABASE_ERROR" "Database error"

  unfoldable pub settled_response : TradeRow → SettleFillResponse
  settled_response r = record {
    buyer_id = printed r.buyer_id;
    seller_id = printed r.seller_id;
    settled = true;
  }

  -- After the settlement: an error of the candles is only logged.
  unfoldable pub after_candles :
      Tables → TradeRow → List Ohlcv × Updated → Tables × List Ohlcv × Reply SettleFillResponse
  after_candles t r (c, updated) = (t, c, replied (fine (settled_response r)))
  after_candles t r (c, sql_failed) = (t, c, replied (fine (settled_response r)))
  after_candles t r (c, panicked) = (t, c, no_reply)

  -- `settle_fill`, with the times that chrono has
  unfoldable pub settle_fill :
      (ℤ → Bool)
      → SettleFillRequest
      → Tables
      → List Ohlcv
      → Tables × List Ohlcv × Reply SettleFillResponse
  settle_fill is_time req t candles = elim (settle d req.symbol (fill_of req) t) [
    | failure e ↦ (t, candles, replied (failure (settle_error req e)))
    | fine (t', r) ↦ after_candles t' r (
        update_from_trade is_time req.symbol req.price.value req.quantity.value req.timestamp
          candles)
  ]

  unfoldable pub cancel_error_internal : ℕ → OrderError → Status × SettleErrorResponse
  cancel_error_internal id not_found =
      coded bad_request "ORDER_NOT_FOUND" (String.◌++◌ "Order not found: " (p.print_uuid id))
  cancel_error_internal id (cannot_cancel status) =
      coded bad_request "CANNOT_CANCEL"
        (String.◌++◌ "Cannot cancel order with status: " (status_text status))
  cancel_error_internal id _ = coded bad_request "INTERNAL_ERROR" "Internal error"

  -- The row that a cancellation returns, after the update.
  unfoldable pub cancelled_response :
      ℕ → Tables → Outcome (Status × SettleErrorResponse) (Tables × CancelOrderInternalResponse)
  cancelled_response id t = elim (find_order id t.orders) [
    | none ↦ failure (coded bad_request "INTERNAL_ERROR" "Internal error")
    | some o ↦
        fine (
          t,
          record { success = true; order_id = p.print_uuid o.id; status = status_text o.status },
        )
  ]

  unfoldable pub cancel_order_internal :
      ℕ
      → Amount
      → Tables
      → Outcome (Status × SettleErrorResponse) (Tables × CancelOrderInternalResponse)
  cancel_order_internal id filled_quantity t = elim (cancel_internal d id filled_quantity t) [
    | failure e ↦ failure (cancel_error_internal id e)
    | fine t' ↦ cancelled_response id t'
  ]

  unfoldable pub cancel_order_by_id_internal :
      Option String
      → ℕ
      → Tables
      → Outcome (Status × SettleErrorResponse) (Tables × CancelOrderInternalResponse)
  cancel_order_by_id_internal header id t = elim (user_of header) [
    | none ↦ failure invalid_user
    | some user ↦ elim (cancel d user id t) [
      | failure e ↦ failure (cancel_error_internal id e)
      | fine t' ↦ cancelled_response id t'
    ]
  ]

  unfoldable pub mint_internal :
      Option String
      → String
      → Amount
      → Tables
      → Outcome (Status × SettleErrorResponse) (Tables × MintInternalResponse)
  mint_internal header asset amount t = elim (user_of header) [
    | none ↦ failure invalid_user
    | some user ↦ elim (append_in_tx user asset amount deposit none t) [
      | failure e ↦ failure (coded internal_server_error "MINT_FAILED" "Failed to mint tokens")
      | fine (t', entry) ↦ fine (
        t',
        record {
          success = true;
          asset = asset;
          amount = p.print_decimal amount;
          new_balance = p.print_column entry.balance_after;
        },
      )
    ]
  ]
