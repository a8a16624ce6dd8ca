-- ===== src/Accounts/Trades.antt =====
-- accounts/src/models/trade.rs: the settlement of a fill.
use Prim.Native.String.{String}
use mexchange_study.Common.{
  ℕ, Bool, ◌&&◌, Option, none, some, List, [], ◌∷◌, ◌++◌, ◌==◌, if◌then◌else◌, ℤ, eqb_ℤ,
}
use mathlib.Core.Option
use mexchange_study.Accounts.Tables.{
  Amount, Decimals, minus, EntryType, trade, unlock, OrderRow, TradeRow, Tables, SqlError, Outcome,
  fine, failure, find_order,
}
use mexchange_study.Accounts.Ledger.{append_in_tx, round_to_precision}
use mexchange_study.Accounts.Orders.{parse_symbol, add_fill}

pub record Fill : Type 0 where
  pub buy_order_id : ℕ
  pub sell_order_id : ℕ
  pub price : Amount
  pub quantity : Amount
  pub timestamp : ℤ

pub data SettlementError : Type 0 where
  -- no order of the fill is known
  partial_settlement : SettlementError
  invalid_symbol : SettlementError
  database : SqlError → SettlementError

-- The numbers that the fill id is printed from.
unfoldable pub fill_id : Fill → ℕ × ℕ × ℤ
fill_id f = (f.buy_order_id, f.sell_order_id, f.timestamp)

unfoldable pub same_fill_id : ℕ × ℕ × ℤ → ℕ × ℕ × ℤ → Bool
same_fill_id (b, s, n) (b', s', n') = b == b' && (s == s' && eqb_ℤ n n')

-- `get_by_fill_id`
unfoldable pub find_trade : ℕ × ℕ × ℤ → List TradeRow → Option TradeRow
find_trade id [] = none
find_trade id (r ∷ rs) = if same_fill_id id r.fill_id then some r else find_trade id rs

-- One entry after another, in the transaction: the asset, the amount and the kind of each.
unfoldable pub append_entries :
    ℕ → ℕ → List (String × Amount × EntryType) → Tables → Outcome SqlError Tables
append_entries user order [] t = fine t
append_entries user order ((asset, amount, kind) ∷ es) t =
    elim (append_in_tx user asset amount kind (some order) t) [
      | failure e ↦ failure e
      | fine (t', entry) ↦ append_entries user order es t'
    ]

-- The entries of one side: what was locked is released and paid, and the other asset is received.
unfoldable pub side_entries : String → Amount → String → Amount → List (String × Amount × EntryType)
side_entries paid paid_amount received received_amount =
    (paid, paid_amount, unlock)
    ∷ (paid, minus paid_amount, trade)
    ∷ (received, received_amount, trade)
    ∷ []

-- One side of the settlement, if its order is known.
unfoldable pub settle_side :
    Option OrderRow → String → Amount → String → Amount → Amount → Tables → Outcome SqlError Tables
settle_side none paid paid_amount received received_amount quantity t = fine t
settle_side (some o) paid paid_amount received received_amount quantity t =
    elim (append_entries o.user_id o.id (side_entries paid paid_amount received received_amount)
      t) [ failure e ↦ failure e | fine t' ↦ add_fill o.id quantity.value t' ]

module _ (d : Decimals) where
  unfoldable pub trade_row :
      String → Fill → Option OrderRow → Option OrderRow → String → Amount → TradeRow
  trade_row symbol f buy sell quote quote_amount =
      let fee = round_to_precision d quote (d.times quote_amount d.fee_rate) in
      record {
        symbol = symbol;
        buy_order_id = Option.map (λ (o : OrderRow). o.id) buy;
        sell_order_id = Option.map (λ (o : OrderRow). o.id) sell;
        buyer_id = Option.map (λ (o : OrderRow). o.user_id) buy;
        seller_id = Option.map (λ (o : OrderRow). o.user_id) sell;
        price = f.price;
        quantity = f.quantity;
        buyer_fee = fee;
        seller_fee = fee;
        fill_id = fill_id f;
      }

  -- The transaction, for the two assets.
  unfoldable pub settle_orders :
      String
      → Fill
      → Option OrderRow
      → Option OrderRow
      → String
      → String
      → Tables
      → Outcome SqlError (Tables × TradeRow)
  settle_orders symbol f buy sell base quote t =
      let quote_amount = round_to_precision d quote (d.times f.price f.quantity) in
      let row = trade_row symbol f buy sell quote quote_amount in
      elim (settle_side buy quote quote_amount base f.quantity f.quantity t) [
        | failure e ↦ failure e
        | fine t1 ↦ elim (settle_side sell base f.quantity quote quote_amount f.quantity t1) [
          | failure e ↦ failure e
          | fine t2 ↦ fine (record t2 { trades = t2.trades ++ row ∷ [] }, row)
        ]
      ]

  unfoldable pub settle_new :
      String
      → Fill
      → Option OrderRow
      → Option OrderRow
      → Tables
      → Outcome SettlementError (Tables × TradeRow)
  settle_new symbol f buy sell t = elim (parse_symbol symbol) [
    | none ↦ failure invalid_symbol
    | some (base, quote) ↦ elim (settle_orders symbol f buy sell base quote t) [
      | failure e ↦ failure (database e)
      | fine r ↦ fine r
    ]
  ]

  -- `settle`, when no other settlement runs at the same time
  unfoldable pub settle : String → Fill → Tables → Outcome SettlementError (Tables × TradeRow)
  settle symbol f t = elim (find_trade (fill_id f) t.trades) [
    | some existing ↦ fine (t, existing)
    | none ↦ elim (find_order f.buy_order_id t.orders) [
      | some buy ↦ settle_new symbol f (some buy) (find_order f.sell_order_id t.orders) t
      | none ↦ elim (find_order f.sell_order_id t.orders) [
        | none ↦ failure partial_settlement
        | some sell ↦ settle_new symbol f none (some sell) t
      ]
    ]
  ]
