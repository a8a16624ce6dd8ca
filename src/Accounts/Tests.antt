-- ===== src/Accounts/Tests.antt =====
-- The theorems about the accounts, at concrete tables.
use mexchange_study.Common.{ℕ, ◌*◌, ◌≡◌, refl, none, some, [], ◌∷◌, arith, pos, pos_part, ◌+ℤ◌}
use mexchange_study.Engine.Orders.{Side, bid, ask, limit}
use mexchange_study.Accounts.Tables.{
  Amount, Decimals, deposit, LedgerEntry, OrderRow, pending, Tables, fine, available_of,
  upsert_balance, sum_amounts,
}
use mexchange_study.Accounts.Ledger.{
  append_in_tx, append_checked, validate_asset, all_alphanumeric, is_alphanumeric,
  validate_precision, max_decimals_for_asset, is_lock, derive_balance,
}
use mexchange_study.Accounts.Orders.{parse_symbol, two_parts}
use mexchange_study.Accounts.Trades.{
  Fill, fill_id, find_trade, append_entries, side_entries, settle_side, trade_row, settle_orders,
  settle_new, settle,
}
use mexchange_study.Accounts.Again.{settle-again}
use mexchange_study.Accounts.Otps.{Otp, generate_code, create, verify}
use mexchange_study.Accounts.Otps.Uses.{verify-once, verify-create}
use mexchange_study.Common.{List, true, false}
use mexchange_study.Accounts.Tables.{
  EntryType, TradeRow, unlock, trade, filled, update_order, is_for,
}
use mexchange_study.Accounts.Ledger.{round_to_precision}
use mexchange_study.Accounts.Orders.{add_fill, fill_row}
use Prim.Native.String.{String}
use mexchange_study.Common.{ℤ, negsuc, ◌-ℤ◌}
use mexchange_study.Accounts.Tables.{find_order}
use mexchange_study.Accounts.Reconciling.{WhenFine, IsSound}
use mexchange_study.Accounts.Histories.{appends, now, then_, History-IsSound}
use mexchange_study.Accounts.Nets.{MovesBoth, settle-Moves}

abbrev amount : ℕ → Amount
amount n = record { value = pos n; scale = 0 }

-- Whole numbers, rounded by leaving them alone.
abbrev whole : Decimals
whole = record {
  round_dp = λ n a. a;
  times = λ a b. record { value = pos (pos_part a.value * pos_part b.value); scale = 0 };
  divided = λ a b. amount 0;
  one = amount 1;
  thousand = amount 1000;
  fee_rate = amount 0;
}

abbrev empty_tables : Tables
empty_tables = record { balances = []; ledger = []; orders = []; trades = [] }

abbrev deposited : LedgerEntry
deposited = record {
  user_id = 1;
  asset = "EUR";
  amount = pos 100;
  balance_after = pos 100;
  entry_type = deposit;
  reference_id = none;
}

abbrev funded : Tables
funded = record {
  balances = record { user_id = 1; asset = "EUR"; available = pos 100 } ∷ [];
  ledger = deposited ∷ [];
  orders = [];
  trades = [];
}

funded_run : append_in_tx 1 "EUR" (amount 100) deposit none empty_tables ≡ fine (funded, deposited)
unfolding append_in_tx append_checked validate_asset all_alphanumeric is_alphanumeric
    validate_precision max_decimals_for_asset available_of upsert_balance is_lock ◌+ℤ◌
funded_run = refl

empty_tables-IsSound : IsSound empty_tables
unfolding derive_balance sum_amounts available_of
empty_tables-IsSound = record { reconciled = λ u a. refl; not_negative = λ u a. omega arith }

History-IsSound_example : IsSound funded
History-IsSound_example =
    History-IsSound whole
      (then_ (appends 1 "EUR" (amount 100) deposit none deposited funded_run) now)
      empty_tables-IsSound

abbrev order_of : ℕ → ℕ → Side → OrderRow
order_of id user side = record {
  id = id;
  user_id = user;
  symbol = "KCN/EUR";
  side = side;
  order_type = limit;
  price = some (amount 10);
  quantity = amount 5;
  filled_quantity = amount 0;
  status = pending;
}

abbrev trading : Tables
trading = record {
  balances = record { user_id = 1; asset = "EUR"; available = pos 50 } ∷ [];
  ledger = deposited ∷ [];
  orders = order_of 7 1 bid ∷ order_of 8 2 ask ∷ [];
  trades = [];
}

-- The order at 10 is filled at 9.
abbrev better_fill : Fill
better_fill = record {
  buy_order_id = 7;
  sell_order_id = 8;
  price = amount 9;
  quantity = amount 5;
  timestamp = pos 99;
}

symbol_parts : parse_symbol "KCN/EUR" ≡ some ("KCN", "EUR")
unfolding parse_symbol two_parts
symbol_parts = refl

settle-Moves_example :
    WhenFine
      (MovesBoth whole "KCN" "EUR" better_fill (order_of 7 1 bid) (order_of 8 2 ask) trading)
      (settle whole "KCN/EUR" better_fill trading)
unfolding find_trade find_order
settle-Moves_example =
    settle-Moves whole "KCN/EUR" "KCN" "EUR" better_fill (order_of 7 1 bid) (order_of 8 2 ask)
      trading symbol_parts refl refl refl

abbrev entry_of : ℕ → String → ℤ → ℤ → EntryType → ℕ → LedgerEntry
entry_of user asset moved balance kind order = record {
  user_id = user;
  asset = asset;
  amount = moved;
  balance_after = balance;
  entry_type = kind;
  reference_id = some order;
}

abbrev filled_order : ℕ → ℕ → Side → OrderRow
filled_order id user side = record (order_of id user side) {
  filled_quantity = amount 5;
  status = filled;
}

abbrev better_trade : TradeRow
better_trade = record {
  symbol = "KCN/EUR";
  buy_order_id = some 7;
  sell_order_id = some 8;
  buyer_id = some 1;
  seller_id = some 2;
  price = amount 9;
  quantity = amount 5;
  buyer_fee = amount 0;
  seller_fee = amount 0;
  fill_id = (7, 8, pos 99);
}

abbrev settled : Tables
settled = record {
  balances =
      record { user_id = 1; asset = "EUR"; available = pos 50 }
      ∷ record { user_id = 1; asset = "KCN"; available = pos 5 }
      ∷ record { user_id = 2; asset = "KCN"; available = pos 0 }
      ∷ record { user_id = 2; asset = "EUR"; available = pos 45 }
      ∷ [];
  ledger =
      deposited
      ∷ entry_of 1 "EUR" (pos 45) (pos 95) unlock 7
      ∷ entry_of 1 "EUR" (negsuc 44) (pos 50) trade 7
      ∷ entry_of 1 "KCN" (pos 5) (pos 5) trade 7
      ∷ entry_of 2 "KCN" (pos 5) (pos 5) unlock 8
      ∷ entry_of 2 "KCN" (negsuc 4) (pos 0) trade 8
      ∷ entry_of 2 "EUR" (pos 45) (pos 45) trade 8
      ∷ [];
  orders = filled_order 7 1 bid ∷ filled_order 8 2 ask ∷ [];
  trades = better_trade ∷ [];
}

settled_run : settle whole "KCN/EUR" better_fill trading ≡ fine (settled, better_trade)
unfolding settle settle_new settle_orders settle_side side_entries append_entries append_in_tx
    append_checked validate_asset all_alphanumeric is_alphanumeric validate_precision
    max_decimals_for_asset available_of upsert_balance is_lock round_to_precision trade_row fill_id
    find_trade find_order parse_symbol two_parts add_fill fill_row update_order is_for ◌-ℤ◌ ◌+ℤ◌
settled_run = refl

settle-again_example : settle whole "KCN/EUR" better_fill settled ≡ fine (settled, better_trade)
settle-again_example =
    settle-again whole "KCN/EUR" better_fill trading settled better_trade settled_run

-- Every digit is 4.
abbrev fours : ℕ → ℕ
fours i = 4

abbrev code_sent : List Otp
code_sent = (create fours "a@b.c" 1000 []).0

verify-once_example :
    verify "a@b.c"
      (generate_code fours)
      3000
      (verify "a@b.c" (generate_code fours) 2000 code_sent).0
    ≡ ((verify "a@b.c" (generate_code fours) 2000 code_sent).0, false)
verify-once_example = verify-once "a@b.c" (generate_code fours) 2000 3000 code_sent (omega arith)

verify-create_example :
    (verify "a@b.c" (create fours "a@b.c" 1000 []).1.code 2000 code_sent).1 ≡ true
verify-create_example = verify-create fours "a@b.c" 1000 2000 [] (omega arith)
