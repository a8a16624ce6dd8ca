-- ===== src/Routes/Tests.antt =====
-- The theorems about the routes, at concrete requests.
use mexchange_study.Common.{
  ℕ, ◌+◌, ◌*◌, ◌/◌, ◌≤◌, ◌≡◌, refl, ap, true, Option, none, some, [], ◌∷◌, map, reverse, arith,
  length, pos, pos_part, ◌≤ℤ◌,
}
use mexchange_study.Engine.Orders.{bid, limit}
use mexchange_study.Accounts.Tables.{
  Amount, Decimals, OrderRow, TradeRow, pending, Tables, failure, is_for, available_of, find_order,
}
use mexchange_study.Accounts.Reconciling.{WhenFine}
use mexchange_study.Routes.Replies.{
  Prints, plain, coded, bad_request, OrderResponse, order_to_response,
}
use mexchange_study.Routes.Replies as Replies
use mexchange_study.Routes.Placing.{PlaceOrderHttpRequest, place_order}
use mexchange_study.Routes.Orders.{get_order, get_order_fills, cancel_order, orders_of}
use mexchange_study.Routes.Internal.{cancel_order_by_id_internal}
use mexchange_study.Routes.Money.{BalanceResponse, deposit_, withdraw}
use mexchange_study.Routes.Agreeing.{SameOrder, place_order-internal}
use mexchange_study.Routes.Pages.{pages, pages-all}
use mexchange_study.Routes.Privacy.{IsForeign, orders-Private}
use mexchange_study.Routes.Returning.{Returns, SameBalances, withdraw-deposit}
use mexchange_study.Routes.Claims.{Attempt, IsSpaced, attempts, attempts-IsSpaced}

abbrev amount : ℕ → Amount
amount n = record { value = pos n; scale = 0 }

-- Whole numbers, rounded by leaving them alone.
abbrev whole : Decimals
whole = record {
  round_dp = λ n a. a;
  times = λ a b. record { value = pos (pos_part a.value * pos_part b.value); scale = 0 };
  divided = λ a b. amount (pos_part a.value / pos_part b.value);
  one = amount 1;
  thousand = amount 1000;
  fee_rate = amount 0;
}

-- The texts name one user and one order.
abbrev prints : Prints
prints = record {
  print_uuid = λ n. "1";
  parse_uuid = λ s. some 1;
  print_decimal = λ a. "0";
  print_column = λ z. "0";
}

abbrev order_of : ℕ → ℕ → OrderRow
order_of id user = record {
  id = id;
  user_id = user;
  symbol = "KCN/EUR";
  side = bid;
  order_type = limit;
  price = some (amount 10);
  quantity = amount 3;
  filled_quantity = amount 0;
  status = pending;
}

abbrev earlier_trade : TradeRow
earlier_trade = record {
  symbol = "KCN/EUR";
  buy_order_id = some 7;
  sell_order_id = none;
  buyer_id = some 1;
  seller_id = none;
  price = amount 10;
  quantity = amount 3;
  buyer_fee = amount 0;
  seller_fee = amount 0;
  fill_id = (7, 8, pos 1000);
}

abbrev tables : Tables
tables = record {
  balances = record { user_id = 1; asset = "EUR"; available = pos 100 } ∷ [];
  ledger = [];
  orders = order_of 4 1 ∷ order_of 5 2 ∷ order_of 6 1 ∷ [];
  trades = earlier_trade ∷ [];
}

abbrev request : PlaceOrderHttpRequest
request = record {
  symbol = "KCN/EUR";
  side = bid;
  order_type = limit;
  price = some (amount 10);
  quantity = some (amount 3);
  quote_amount = none;
  max_slippage_price = none;
}

place_order-internal_example :
    WhenFine
      (SameOrder whole prints 9 "1" request tables)
      (place_order whole prints 9 1 request tables)
place_order-internal_example = place_order-internal whole prints 9 1 "1" request tables refl refl

two_own : length (orders_of 1 none tables.orders) ≤ 2 * 1
unfolding orders_of
two_own = omega arith

pages-all_example :
    pages whole prints 2 1 0 1 tables
    ≡ map (order_to_response prints) (reverse (orders_of 1 none tables.orders))
pages-all_example = pages-all whole prints 2 1 1 tables (omega arith) (omega arith) two_own

abbrev owner : Option OrderRow → ℕ
owner none = 0
owner (some o) = o.user_id

other_order : IsForeign 1 5 tables
unfolding find_order
other_order o found e =
    let same : 2 ≡ o.user_id = ap (λ (x : Option OrderRow). owner x) found in
    absurd (omega (arith, same, e))

orders-Private_example :
    (get_order whole prints true 1 5 tables ≡ failure (plain Replies.not_found "Order not found"))
    × (get_order_fills whole prints true true 1 5 tables
        ≡ failure (plain Replies.not_found "Order not found"))
    × (cancel_order whole prints 1 5 tables ≡ failure (plain Replies.not_found "Order not found"))
    × (cancel_order_by_id_internal whole prints (some "1") 5 tables
        ≡ failure (coded bad_request "ORDER_NOT_FOUND" "Order not found: 1"))
orders-Private_example = orders-Private whole prints 1 5 "1" tables other_order refl

not_in_debt : pos 0 ≤ℤ available_of 1 "EUR" tables.balances
unfolding available_of is_for
not_in_debt = omega arith

withdraw-deposit_example :
    WhenFine
      (λ (r : Tables × BalanceResponse).
        Returns
          (λ (r' : Tables × BalanceResponse). SameBalances tables r'.0)
          (withdraw whole prints 1 "EUR" (amount 50) r.0))
      (deposit_ whole prints 1 "EUR" (amount 50) tables)
withdraw-deposit_example = withdraw-deposit whole prints 1 "EUR" (amount 50) tables not_in_debt

-- Two calls within a day and one after it.
abbrev call_at : ℕ → Attempt whole prints
call_at n = record {
  reads = true;
  records = true;
  now = n;
  claimed_at = n + 1;
  user = 1;
  asset = none;
}

attempts-IsSpaced_example :
    IsSpaced
      (attempts whole prints (call_at 10 ∷ call_at 50000 ∷ call_at 90000000 ∷ []) (tables, [])).1
attempts-IsSpaced_example =
    attempts-IsSpaced whole prints (call_at 10 ∷ call_at 50000 ∷ call_at 90000000 ∷ []) (tables, [])
      (omega arith, (omega arith, (omega arith, tt))) tt
