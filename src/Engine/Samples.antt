-- ===== src/Engine/Samples.antt =====
-- A book to try the theorems on.
use mexchange_study.Common.{refl, ◌≢◌, some, List, [], ◌∷◌, arith, pos, ◌+ℤ◌}
use mexchange_study.Engine.Orders.{bid, ask, limit, Order, PriceLevel, OrderBook}
use mexchange_study.Engine.Validity.{IsValid}

abbrev pub sample_ask : Order
sample_ask = record {
  id = 1;
  side = ask;
  order_type = limit;
  price = some (pos 10);
  quantity = pos 5;
  remaining_quantity = pos 5;
}

abbrev pub sample_bid : Order
sample_bid = record {
  id = 2;
  side = bid;
  order_type = limit;
  price = some (pos 8);
  quantity = pos 4;
  remaining_quantity = pos 3;
}

abbrev pub ask_level : PriceLevel
ask_level = record { price = pos 10; orders = sample_ask ∷ []; total_quantity = pos 5 }

abbrev pub bid_level : PriceLevel
bid_level = record { price = pos 8; orders = sample_bid ∷ []; total_quantity = pos 3 }

-- Five for sale at 10, three wanted at 8.
abbrev pub sample_book : OrderBook
sample_book = record {
  bids = (pos 8, bid_level) ∷ [];
  asks = (pos 10, ask_level) ∷ [];
  orders = (1, sample_ask) ∷ (2, sample_bid) ∷ [];
}

not_empty {ℓ} : {A : Type ℓ} (x : A) (xs : List A) → x ∷ xs ≢ []
not_empty x xs e = cc e

pub sample_book-IsValid : IsValid sample_book
unfolding ◌+ℤ◌
sample_book-IsValid = record {
  bids_hold = record {
    sorted = tt;
    levels = (
      record {
        resting = (
          record { on_side = refl; is_limit = refl; at_price = refl; open_quantity = omega arith },
          tt,
        );
        totalled = refl;
      },
      tt,
    );
    open_levels = (not_empty sample_bid [], tt);
  };
  asks_hold = record {
    sorted = tt;
    levels = (
      record {
        resting = (
          record { on_side = refl; is_limit = refl; at_price = refl; open_quantity = omega arith },
          tt,
        );
        totalled = refl;
      },
      tt,
    );
    open_levels = (not_empty sample_ask [], tt);
  };
  uncrossed = ((omega arith, tt), tt);
}
