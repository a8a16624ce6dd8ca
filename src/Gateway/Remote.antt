-- ===== src/Gateway/Remote.antt =====
-- gateway/src/websocket.rs: the requests and replies of a connection, and the calls of the accounts
-- service. Reading and printing JSON, UUIDs and decimals, and the answers of the HTTP client, are
-- parameters; serializing a reply does not fail.
use Prim.Native.String
use Prim.Native.String.{String}
use mexchange_study.Common.{ℕ, Bool, true, false, Option, none, some, List, ℤ, pos, negsuc}
use mexchange_study.Accounts.Tables.{Outcome, fine, failure}
use mexchange_study.Events.{OrderCommand}
use mexchange_study.Gateway.State.{ChannelNotification}
use mexchange_study.Gateway.Quotes.{TickerData, LwtData}
use mexchange_study.Gateway.Clients.{StrategyStatus}

pub record PlaceOrderParams : Type 0 where
  pub symbol : String
  pub side : String
  pub order_type : String
  pub price : Option ℤ
  pub quantity : Option ℤ
  pub quote_amount : Option ℤ
  pub max_slippage_price : Option ℤ

pub record ClientRequest (V : Type 0) : Type 0 where
  pub id : String
  pub method : String
  pub params : V

-- serde_json, with a JSON value and `from_value` at each type of parameters, and the reading and
-- printing of UUIDs and decimals. A body that is read wrongly gives the text of the error.
pub record Formats : Type 1 where
  pub Value : Type 0
  pub request_of_text : String → Option (ClientRequest Value)
  pub auth_params : Value → Option String
  pub subscribe_params : Value → Option (List String)
  pub place_order_params : Value → Option PlaceOrderParams
  pub cancel_order_params : Value → Option String
  pub bot_status_params : Value → Option (List StrategyStatus)
  -- `MeResponse`: the id
  pub me_of_body : String → Outcome String String
  -- `AccountsOrderResponse`: the id and the quantity
  pub order_of_body : String → Outcome String (String × String)
  -- `None` if it is no JSON, else `get("error").and_then(as_str)`
  pub error_of_body : String → Option (Option String)
  pub parse_uuid : String → Option ℕ
  pub print_uuid : ℕ → String
  pub parse_decimal : String → Option ℤ

-- How an HTTP request ends: with the text of an error, or with whether the status is a success, and
-- the body, empty if it cannot be read.
pub data Answer : Type 0 where
  send_failed : String → Answer
  answered : Bool → String → Answer

abbrev pub err_invalid_params : ℤ
err_invalid_params = negsuc 32601

abbrev pub err_method_not_found : ℤ
err_method_not_found = negsuc 32600

abbrev pub err_unauthorized : ℤ
err_unauthorized = pos 10000

abbrev pub err_order_rejected : ℤ
err_order_rejected = pos 10001

abbrev pub err_cancel_failed : ℤ
err_cancel_failed = pos 10002

-- What is sent to a client.
pub data Message (F : Type 0) : Type 0 where
  -- id, access_token, token_type, user_id
  auth_reply : String → String → String → String → Message F
  channels_reply : String → List String → Message F
  -- id, order_id: `OrderResult` and `CancelResult`
  order_reply : String → String → Message F
  ok_reply : String → Message F
  -- id, code, message
  error_reply : String → ℤ → String → Message F
  -- channel_name, notification
  book_message : String → ChannelNotification F → Message F
  ticker_message : TickerData F → Message F
  lwt_message : LwtData F → Message F

-- What a request makes the gateway do, in order.
pub data Action (F : Type 0) : Type 0 where
  send : Message F → Action F
  -- the call of the accounts service for a new order, with the user
  order_requested : PlaceOrderParams → ℕ → Action F
  -- the call that cancels an order, with its id and the user
  cancel_requested : String → ℕ → Action F
  -- a command handed to the sender of the matching engine
  commanded : OrderCommand → Action F

module _ (f : Formats) where
  -- `validate_token`
  unfoldable pub validate_token : Answer → Outcome String ℕ
  validate_token (send_failed e) = failure (String.◌++◌ "Failed to validate token: " e)
  validate_token (answered success body) = elim success [
    | false ↦ failure "Invalid or expired token"
    | true ↦ elim (f.me_of_body body) [
      | failure e ↦ failure (String.◌++◌ "Failed to parse response: " e)
      | fine id ↦ elim (f.parse_uuid id) [
        | none ↦ failure "Invalid user ID in response"
        | some user ↦ fine user
      ]
    ]
  ]

  -- The error of a request that was answered with no success.
  unfoldable pub rejection : String → String → String
  rejection otherwise body = elim (f.error_of_body body) [
    | none ↦ otherwise
    | some none ↦ otherwise
    | some (some message) ↦ message
  ]

  unfoldable pub create_order_in_accounts : Answer → Outcome String (ℕ × ℤ)
  create_order_in_accounts (send_failed e) = failure (String.◌++◌ "Failed to create order: " e)
  create_order_in_accounts (answered success body) = elim success [
    | false ↦ failure (rejection "Order rejected" body)
    | true ↦ elim (f.order_of_body body) [
      | failure e ↦ failure (String.◌++◌ "Failed to parse response: " e)
      | fine (id, quantity) ↦ elim (f.parse_uuid id) [
        | none ↦ failure "Invalid order ID"
        | some order ↦ elim (f.parse_decimal quantity) [
          | none ↦ failure "Invalid quantity"
          | some q ↦ fine (order, q)
        ]
      ]
    ]
  ]

  -- The error, if any.
  unfoldable pub cancel_order_in_accounts : Answer → Option String
  cancel_order_in_accounts (send_failed e) = some (String.◌++◌ "Failed to cancel order: " e)
  cancel_order_in_accounts (answered success body) = elim success [
    | true ↦ none
    | false ↦ some (rejection "Cancel failed" body)
  ]
