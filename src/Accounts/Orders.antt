-- ===== src/Accounts/Orders.antt =====
-- accounts/src/models/order.rs: placing, cancelling and filling an order.
use Prim.Native.String.{String}
use Prim.Native.Char.{Char, code}
use mexchange_study.Common.{
  ℕ, Bool, true, false, not, Option, none, some, List, [], ◌∷◌, ◌++◌, ◌==◌, if◌then◌else◌, ℤ, pos,
  ◌+ℤ◌, ◌-ℤ◌, ltb_ℤ, leb_ℤ,
}
use mexchange_study.Engine.Orders.{Side, bid, ask, OrderType, limit, market}
use mexchange_study.Accounts.Tables.{
  Amount, Decimals, minus, lock, unlock, OrderStatus, pending, open_, partially_filled, filled,
  cancelled, OrderRow, Tables, SqlError, insufficient_balance, check_violation, row_not_found,
  Outcome, fine, failure, find_order, update_order,
}
use mexchange_study.Accounts.Ledger.{append_in_tx, round_to_precision}

pub record PlaceOrderRequest : Type 0 where
  pub symbol : String
  pub side : Side
  pub order_type : OrderType
  pub price : Option Amount
  pub quantity : Amount
  pub quote_amount : Option Amount
  pub max_slippage_price : Option Amount

pub record PlaceOrderResult : Type 0 where
  pub order : OrderRow
  pub locked_asset : String
  pub locked_amount : Amount

pub data OrderError : Type 0 where
  -- available and required
  insufficient : ℤ → Amount → OrderError
  limit_order_requires_price : OrderError
  invalid_symbol : OrderError
  not_found : OrderError
  cannot_cancel : OrderStatus → OrderError
  database : SqlError → OrderError

-- `split('/')`
abbrev pub push_front : Char → List String → List String
push_front c [] = (String.◌∷◌ c String.[]) ∷ []
push_front c (p ∷ ps) = (String.◌∷◌ c p) ∷ ps

abbrev pub split_slash : String → List String
split_slash String.[] = "" ∷ []
split_slash (String.◌∷◌ c s) =
    let rest = split_slash s in if code c == 47 then "" ∷ rest else push_front c rest

unfoldable pub two_parts : List String → Option (String × String)
two_parts (base ∷ quote ∷ []) = some (base, quote)
two_parts _ = none

unfoldable pub parse_symbol : String → Option (String × String)
parse_symbol symbol = two_parts (split_slash symbol)

unfoldable pub or_amount : Option Amount → Amount → Amount
or_amount none a = a
or_amount (some b) a = b

module _ (d : Decimals) where
  -- The price that a buy order's funds are locked at; `none` when a limit order has no price.
  unfoldable pub lock_price : PlaceOrderRequest → Option Amount
  lock_price req = elim req.order_type [
    | limit ↦ req.price
    | market ↦ some (or_amount req.max_slippage_price d.thousand)
  ]

  unfoldable pub lock_for :
      String → String → PlaceOrderRequest → Side → Outcome OrderError (String × Amount)
  lock_for base quote req bid = elim (lock_price req) [
    | none ↦ failure limit_order_requires_price
    | some price ↦ fine (quote, round_to_precision d quote (d.times price req.quantity))
  ]
  lock_for base quote req ask = fine (base, round_to_precision d base req.quantity)

  unfoldable pub calculate_lock_amount : PlaceOrderRequest → Outcome OrderError (String × Amount)
  calculate_lock_amount req = elim (parse_symbol req.symbol) [
    | none ↦ failure invalid_symbol
    | some (base, quote) ↦ lock_for base quote req req.side
  ]

  unfoldable pub stored_price : OrderType → Side → PlaceOrderRequest → Option Amount
  stored_price limit side req = req.price
  stored_price market bid req = some (or_amount req.max_slippage_price d.thousand)
  stored_price market ask req = none

  unfoldable pub lock_error : Amount → SqlError → OrderError
  lock_error required insufficient_balance = insufficient (pos 0) required
  lock_error required check_violation = insufficient (pos 0) required
  lock_error required e = database e

  unfoldable pub has_price : PlaceOrderRequest → Bool
  has_price req = elim req.order_type [
    | market ↦ true
    | limit ↦ elim req.price [ none ↦ false | some p ↦ true ]
  ]

  -- `place`, with the new order's id
  unfoldable pub place :
      ℕ → ℕ → PlaceOrderRequest → Tables → Outcome OrderError (Tables × PlaceOrderResult)
  place id user req t =
      if not (has_price req)
      then failure limit_order_requires_price
      else elim (calculate_lock_amount req) [
        | failure e ↦ failure e
        | fine (asset, amount) ↦ elim (append_in_tx user asset (minus amount) lock (some id) t) [
          | failure e ↦ failure (lock_error amount e)
          | fine (t', entry) ↦
              let order : OrderRow = record {
                id = id;
                user_id = user;
                symbol = req.symbol;
                side = req.side;
                order_type = req.order_type;
                price = stored_price req.order_type req.side req;
                quantity = req.quantity;
                filled_quantity = record { value = pos 0; scale = 0 };
                status = pending;
              } in
              fine (
                record t' { orders = t'.orders ++ order ∷ [] },
                record { order = order; locked_asset = asset; locked_amount = amount },
              )
        ]
      ]

  unfoldable pub is_cancellable : OrderStatus → Bool
  is_cancellable pending = true
  is_cancellable open_ = true
  is_cancellable partially_filled = true
  is_cancellable _ = false

  -- The request whose lock a cancellation computes again.
  unfoldable pub request_of : OrderRow → PlaceOrderRequest
  request_of o = record {
    symbol = o.symbol;
    side = o.side;
    order_type = o.order_type;
    price = o.price;
    quantity = o.quantity;
    quote_amount = none;
    max_slippage_price = o.price;
  }

  -- What is still locked when this much of the order is filled.
  unfoldable pub still_locked : OrderRow → Amount → String → Amount → Amount
  still_locked o done asset total =
      let ratio = d.divided done o.quantity in
      let left : Amount = record { value = d.one.value -ℤ ratio.value; scale = ratio.scale } in
      round_to_precision d asset (d.times total left)

  unfoldable pub release : ℕ → String → Amount → ℕ → Tables → Outcome OrderError Tables
  release user asset amount id t =
      if ltb_ℤ (pos 0) amount.value
      then elim (append_in_tx user asset amount unlock (some id) t) [
        | failure e ↦ failure (database e)
        | fine (t', entry) ↦ fine t'
      ]
      else fine t

  -- What `cancel` and `cancel_internal` share: `update` is what the last query sets.
  unfoldable pub cancel_row :
      OrderRow → Amount → (OrderRow → OrderRow) → Tables → Outcome OrderError Tables
  cancel_row o done update t =
      if not (is_cancellable o.status)
      then failure (cannot_cancel o.status)
      else elim (calculate_lock_amount (request_of o)) [
        | failure e ↦ failure e
        | fine (asset, total) ↦
            elim (release o.user_id asset (still_locked o done asset total) o.id t) [
              | failure e ↦ failure e
              | fine t' ↦ fine (record t' { orders = update_order o.id update t'.orders })
            ]
      ]

  unfoldable pub cancel : ℕ → ℕ → Tables → Outcome OrderError Tables
  cancel user id t = elim (find_order id t.orders) [
    | none ↦ failure not_found
    | some o ↦
        if user == o.user_id
        then cancel_row o o.filled_quantity (λ x. record x { status = cancelled }) t
        else failure not_found
  ]

  unfoldable pub cancel_internal : ℕ → Amount → Tables → Outcome OrderError Tables
  cancel_internal id done t = elim (find_order id t.orders) [
    | none ↦ failure not_found
    | some o ↦ cancel_row o done (λ x. record x { status = cancelled; filled_quantity = done }) t
  ]

abbrev is_cancelled : OrderStatus → Bool
is_cancelled cancelled = true
is_cancelled _ = false

-- The CASEs of `add_fill`.
unfoldable pub fill_row : ℤ → OrderRow → OrderRow
fill_row quantity o =
    let total = o.filled_quantity.value +ℤ quantity in
    if is_cancelled o.status then o else record o {
      filled_quantity = record { value = total; scale = o.filled_quantity.scale };
      status = if leb_ℤ o.quantity.value total then filled else partially_filled;
    }

unfoldable pub add_fill : ℕ → ℤ → Tables → Outcome SqlError Tables
add_fill id quantity t = elim (find_order id t.orders) [
  | none ↦ failure row_not_found
  | some o ↦ fine (record t { orders = update_order id (fill_row quantity) t.orders })
]
