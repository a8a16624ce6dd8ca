-- ===== src/Routes/Orders.antt =====
-- accounts/src/routes/orders.rs and the queries of accounts/src/models/order.rs and trade.rs that its
-- handlers read with. Rows stand in the tables in the order of their times; `reads` says whether the
-- database answers a query.
use Prim.Native.String
use Prim.Native.String.{String}
use mexchange_study.Common.{
  ℕ, Bool, ◌||◌, Option, none, some, List, [], ◌∷◌, map, reverse, ◌==◌, if◌then◌else◌, ℤ, pos,
  pos_part, min_ℤ, max_ℤ, length, take, drop, same_text,
}
use mexchange_study.Accounts.Tables.{
  Decimals, OrderRow, TradeRow, Tables, Outcome, fine, failure, find_order,
}
use mexchange_study.Accounts.Orders.{OrderError, not_found, cannot_cancel, cancel}
use mexchange_study.Routes.Replies.{
  Prints, Status, bad_request, internal_server_error, OrderResponse, TradeResponse, plain,
  order_to_response, trade_to_response, status_text, is_user,
}
use mexchange_study.Routes.Replies as Replies
use mexchange_study.Routes.Placing.{Refused}

pub record Page {ℓ} (A : Type ℓ) : Type ℓ where
  pub rows : List A
  pub total : ℕ
  pub limit : ℤ
  pub offset : ℤ

-- `SELECT * FROM orders WHERE user_id = ..`, and a status if one is given
unfoldable pub orders_of : ℕ → Option String → List OrderRow → List OrderRow
orders_of user status [] = []
orders_of user none (o ∷ os) =
    let rest = orders_of user none os in if user == o.user_id then o ∷ rest else rest
orders_of user (some s) (o ∷ os) =
    let rest = orders_of user (some s) os in
    if user == o.user_id
    then if same_text s (status_text o.status) then o ∷ rest else rest
    else rest

-- `ORDER BY created_at DESC LIMIT .. OFFSET ..`
unfoldable pub newest {ℓ} : {A : Type ℓ} → ℤ → ℤ → List A → List A
newest limit offset rows = take (pos_part limit) (drop (pos_part offset) (reverse rows))

-- `Order::list_for_user`
unfoldable pub list_for_user : ℕ → Option String → ℤ → ℤ → Tables → List OrderRow
list_for_user user status limit offset t = newest limit offset (orders_of user status t.orders)

-- `Order::count_for_user`
unfoldable pub count_for_user : ℕ → Tables → ℕ
count_for_user user t = length (orders_of user none t.orders)

unfoldable pub trades_of : ℕ → List TradeRow → List TradeRow
trades_of user [] = []
trades_of user (r ∷ rs) =
    let rest = trades_of user rs in
    if is_user user r.buyer_id || is_user user r.seller_id then r ∷ rest else rest

-- `Trade::list_for_order`
unfoldable pub list_for_order : ℕ → List TradeRow → List TradeRow
list_for_order id [] = []
list_for_order id (r ∷ rs) =
    let rest = list_for_order id rs in
    if is_user id r.buy_order_id || is_user id r.sell_order_id then r ∷ rest else rest

-- `Order::get`
unfoldable pub get : ℕ → ℕ → Tables → Option OrderRow
get user id t = elim (find_order id t.orders) [
  | none ↦ none
  | some o ↦ if user == o.user_id then some o else none
]

-- `query.limit.min(100).max(1)`
unfoldable pub page_limit : ℤ → ℤ
page_limit limit = max_ℤ (min_ℤ limit (pos 100)) (pos 1)

-- `query.offset.max(0)`
unfoldable pub page_offset : ℤ → ℤ
page_offset offset = max_ℤ offset (pos 0)

module _ (d : Decimals) (p : Prints) where
  unfoldable pub list_orders : Bool → ℕ → ℤ → ℤ → Tables → Outcome Refused (Page OrderResponse)
  list_orders reads user limit offset t =
      if reads
      then fine (record {
        rows =
            map (order_to_response p)
              (list_for_user user none (page_limit limit) (page_offset offset) t);
        total = count_for_user user t;
        limit = page_limit limit;
        offset = page_offset offset;
      })
      else failure (plain internal_server_error "Failed to list orders")

  unfoldable pub get_order : Bool → ℕ → ℕ → Tables → Outcome Refused OrderResponse
  get_order reads user id t =
      if reads
      then elim (get user id t) [
        | none ↦ failure (plain Replies.not_found "Order not found")
        | some o ↦ fine (order_to_response p o)
      ]
      else failure (plain internal_server_error "Failed to get order")

  unfoldable pub cancel_error : OrderError → Refused
  cancel_error not_found = plain Replies.not_found "Order not found"
  cancel_error (cannot_cancel status) =
      plain bad_request (String.◌++◌ "Cannot cancel order with status: " (status_text status))
  cancel_error _ = plain internal_server_error "Failed to cancel order"

  -- The row that `Order::cancel` returns, after the update.
  unfoldable pub answer_order : ℕ → Tables → Outcome Refused (Tables × OrderResponse)
  answer_order id t = elim (find_order id t.orders) [
    | none ↦ failure (plain internal_server_error "Failed to cancel order")
    | some o ↦ fine (t, order_to_response p o)
  ]

  -- `cancel_order`, whose answer names no unlocked amount
  unfoldable pub cancel_order : ℕ → ℕ → Tables → Outcome Refused (Tables × OrderResponse)
  cancel_order user id t = elim (cancel d user id t) [
    | failure e ↦ failure (cancel_error e)
    | fine t' ↦ answer_order id t'
  ]

  unfoldable pub list_trades : Bool → ℕ → ℤ → ℤ → Tables → Outcome Refused (Page TradeResponse)
  list_trades reads user limit offset t =
      if reads
      then fine (record {
        rows =
            map (λ (r : TradeRow). trade_to_response p d r user)
              (newest (page_limit limit) (page_offset offset) (trades_of user t.trades));
        total = length (trades_of user t.trades);
        limit = page_limit limit;
        offset = page_offset offset;
      })
      else failure (plain internal_server_error "Failed to list trades")

  -- `get_order_fills`: whether the first and the second query are answered
  unfoldable pub get_order_fills :
      Bool → Bool → ℕ → ℕ → Tables → Outcome Refused (List TradeResponse)
  get_order_fills reads reads_fills user id t =
      if reads
      then elim (get user id t) [
        | none ↦ failure (plain Replies.not_found "Order not found")
        | some o ↦
            if reads_fills
            then fine
                (map (λ (r : TradeRow). trade_to_response p d r user) (list_for_order id t.trades))
            else failure (plain internal_server_error "Failed to get fills")
      ]
      else failure (plain internal_server_error "Failed to get order")
