-- ===== src/Accounts/Tables.antt =====
-- accounts/src/models: the rows of the tables, and what the queries do with them.
use Prim.Native.String.{String}
use mexchange_study.Common.{
  ℕ, Bool, ◌&&◌, Option, none, some, List, [], ◌∷◌, ◌==◌, if◌then◌else◌, ℤ, pos, ◌+ℤ◌, ◌-ℤ◌,
  same_text,
}
use mexchange_study.Engine.Orders.{Side, OrderType}

-- A Decimal with its scale, which the precision checks look at. The value is in units of 10^-28.
pub record Amount : Type 0 where
  pub value : ℤ
  pub scale : ℕ

-- What the accounts service uses of rust_decimal beyond sums and comparisons.
pub record Decimals : Type 0 where
  pub round_dp : ℕ → Amount → Amount
  pub times : Amount → Amount → Amount
  pub divided : Amount → Amount → Amount
  pub one : Amount
  -- `Decimal::from(1000)` and `dec!(0.001)`
  pub thousand : Amount
  pub fee_rate : Amount

abbrev pub negate : ℤ → ℤ
negate z = pos 0 -ℤ z

abbrev pub minus : Amount → Amount
minus a = record { value = negate a.value; scale = a.scale }

pub data EntryType : Type 0 where
  deposit withdrawal trade fee lock unlock : EntryType

pub record LedgerEntry : Type 0 where
  pub user_id : ℕ
  pub asset : String
  pub amount : ℤ
  pub balance_after : ℤ
  pub entry_type : EntryType
  pub reference_id : Option ℕ

pub data OrderStatus : Type 0 where
  pending open_ partially_filled filled cancelled rejected expired : OrderStatus

-- A row of `orders`.
pub record OrderRow : Type 0 where
  pub id : ℕ
  pub user_id : ℕ
  pub symbol : String
  pub side : Side
  pub order_type : OrderType
  pub price : Option Amount
  pub quantity : Amount
  pub filled_quantity : Amount
  pub status : OrderStatus

-- A row of `trades`; the fill id is the text of the three numbers.
pub record TradeRow : Type 0 where
  pub symbol : String
  pub buy_order_id : Option ℕ
  pub sell_order_id : Option ℕ
  pub buyer_id : Option ℕ
  pub seller_id : Option ℕ
  pub price : Amount
  pub quantity : Amount
  pub buyer_fee : Amount
  pub seller_fee : Amount
  pub fill_id : ℕ × ℕ × ℤ

-- A row of `balances`, of which the program uses `available`.
pub record BalanceRow : Type 0 where
  pub user_id : ℕ
  pub asset : String
  pub available : ℤ

pub record Tables : Type 0 where
  pub balances : List BalanceRow
  pub ledger : List LedgerEntry
  pub orders : List OrderRow
  pub trades : List TradeRow

pub data SqlError : Type 0 where
  -- `sqlx::Error::Protocol` with the program's texts
  asset_length asset_characters precision insufficient_balance : SqlError
  -- a CHECK of the table `balances`
  check_violation : SqlError
  row_not_found : SqlError

pub data Outcome {ℓ κ} (E : Type ℓ) (A : Type κ) : Type (ℓ ⊔ κ) where
  fine : A → Outcome E A
  failure : E → Outcome E A

-- The row's user and asset are these.
unfoldable pub is_for : ℕ → String → ℕ → String → Bool
is_for user asset u a = user == u && same_text asset a

-- `SELECT available FROM balances`, with 0 when there is no row
unfoldable pub available_of : ℕ → String → List BalanceRow → ℤ
available_of user asset [] = pos 0
available_of user asset (r ∷ rs) =
    if is_for user asset r.user_id r.asset then r.available else available_of user asset rs

-- `INSERT INTO balances .. ON CONFLICT (user_id, asset) DO UPDATE`
unfoldable pub upsert_balance : ℕ → String → ℤ → List BalanceRow → List BalanceRow
upsert_balance user asset v [] = record { user_id = user; asset = asset; available = v } ∷ []
upsert_balance user asset v (r ∷ rs) =
    let rest = upsert_balance user asset v rs in
    if is_for user asset r.user_id r.asset then record r { available = v } ∷ rs else r ∷ rest

-- `SELECT COALESCE(SUM(amount), 0) FROM ledger`
unfoldable pub sum_amounts : ℕ → String → List LedgerEntry → ℤ
sum_amounts user asset [] = pos 0
sum_amounts user asset (e ∷ es) =
    let rest = sum_amounts user asset es in
    if is_for user asset e.user_id e.asset then e.amount +ℤ rest else rest

-- `SELECT * FROM orders WHERE id = ..`
unfoldable pub find_order : ℕ → List OrderRow → Option OrderRow
find_order id [] = none
find_order id (o ∷ os) = if id == o.id then some o else find_order id os

-- `UPDATE orders SET .. WHERE id = ..`
unfoldable pub update_order : ℕ → (OrderRow → OrderRow) → List OrderRow → List OrderRow
update_order id f [] = []
update_order id f (o ∷ os) =
    let rest = update_order id f os in if id == o.id then f o ∷ rest else o ∷ rest
