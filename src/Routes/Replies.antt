-- ===== src/Routes/Replies.antt =====
-- accounts/src/routes: what the handlers answer. Printing and reading UUIDs and decimals are parameters.
use Prim.Native.String.{String}
use mathlib.Core.Option
use mexchange_study.Common.{ℕ, Bool, false, Option, none, some, ◌==◌, if◌then◌else◌, ℤ}
use mexchange_study.Engine.Orders.{Side, bid, ask, OrderType, limit, market}
use mexchange_study.Accounts.Tables.{
  Amount, Decimals, OrderStatus, pending, open_, partially_filled, filled, cancelled, rejected,
  expired, OrderRow, TradeRow,
}

pub record Prints : Type 0 where
  pub print_uuid : ℕ → String
  pub parse_uuid : String → Option ℕ
  -- a decimal of a request, and one that is read from a column of the tables
  pub print_decimal : Amount → String
  pub print_column : ℤ → String

pub data Status : Type 0 where
  bad_request not_found too_many_requests internal_server_error : Status

pub record ErrorResponse : Type 0 where
  pub error : String
  pub available : Option String
  pub required : Option String

pub record SettleErrorResponse : Type 0 where
  pub error : String
  pub code : String

pub record OrderResponse : Type 0 where
  pub id : String
  pub symbol : String
  pub side : String
  pub order_type : String
  pub price : Option String
  pub quantity : String
  pub filled_quantity : String
  pub status : String

pub record TradeResponse : Type 0 where
  pub symbol : String
  pub side : String
  pub price : String
  pub quantity : String
  pub total : String
  pub fee : String

-- An error with no balances.
unfoldable pub plain : Status → String → Status × ErrorResponse
plain status error = (status, record { error = error; available = none; required = none })

unfoldable pub coded : Status → String → String → Status × SettleErrorResponse
coded status code error = (status, record { error = error; code = code })

-- The `Display` of the three types.
abbrev pub side_text : Side → String
side_text bid = "bid"
side_text ask = "ask"

abbrev pub order_type_text : OrderType → String
order_type_text limit = "limit"
order_type_text market = "market"

abbrev pub status_text : OrderStatus → String
status_text pending = "pending"
status_text open_ = "open"
status_text partially_filled = "partially_filled"
status_text filled = "filled"
status_text cancelled = "cancelled"
status_text rejected = "rejected"
status_text expired = "expired"

abbrev pub is_user : ℕ → Option ℕ → Bool
is_user user none = false
is_user user (some id) = user == id

module _ (p : Prints) where
  unfoldable pub order_to_response : OrderRow → OrderResponse
  order_to_response o = record {
    id = p.print_uuid o.id;
    symbol = o.symbol;
    side = side_text o.side;
    order_type = order_type_text o.order_type;
    price = Option.map (λ (a : Amount). p.print_column a.value) o.price;
    quantity = p.print_column o.quantity.value;
    filled_quantity = p.print_column o.filled_quantity.value;
    status = status_text o.status;
  }

  unfoldable pub trade_to_response : Decimals → TradeRow → ℕ → TradeResponse
  trade_to_response d r user =
      let is_buyer = is_user user r.buyer_id in
      record {
        symbol = r.symbol;
        side = if is_buyer then "buy" else "sell";
        price = p.print_column r.price.value;
        quantity = p.print_column r.quantity.value;
        total = p.print_decimal (d.times r.price r.quantity);
        fee = p.print_column (if is_buyer then r.buyer_fee else r.seller_fee).value;
      }
