-- ===== src/Accounts/Histories.antt =====
-- accounts/src/models: the changes that the service makes, one after the other.
use Prim.Native.String.{String}
use mexchange_study.Common.{
  ℕ, ◌≡◌, subst, inl, inr, Option, none, some, ◌==◌, Bool-cases, Option-cases,
}
use mexchange_study.Accounts.Tables.{
  Amount, Decimals, EntryType, LedgerEntry, OrderRow, TradeRow, cancelled, Tables, fine, find_order,
}
use mexchange_study.Accounts.Ledger.{append_in_tx, round_to_precision}
use mexchange_study.Accounts.Orders.{
  PlaceOrderRequest, PlaceOrderResult, parse_symbol, place, cancel, cancel_internal,
}
use mexchange_study.Accounts.Trades.{
  Fill, fill_id, find_trade, settle_side, settle_orders, settle_new, settle,
}
use mexchange_study.Accounts.Reconciling.{
  WhenFine, Outcome-cases, IsSound, result-IsSound, with_rows-IsSound, settle_side-IsSound,
  place-IsSound, cancel_row-IsSound,
}

module _ (d : Decimals) where
  cancel-IsSound : (user id : ℕ) (t : Tables) → IsSound t → WhenFine IsSound (cancel d user id t)
  unfolding cancel
  cancel-IsSound user id t s = elim (Option-cases (find_order id t.orders)) [
    | inl e ↦ rw (cancel, e) tt
    | inr (o, e) ↦ elim (Bool-cases (user == o.user_id)) [
      | inl mine ↦
          rw (cancel, e, mine)
            (cancel_row-IsSound d o o.filled_quantity (λ x. record x { status = cancelled }) t s)
      | inr other ↦ rw (cancel, e, other) tt
    ]
  ]

  cancel_internal-IsSound :
      (id : ℕ) (done : Amount) (t : Tables)
      → IsSound t
      → WhenFine IsSound (cancel_internal d id done t)
  unfolding cancel_internal
  cancel_internal-IsSound id done t s = elim (Option-cases (find_order id t.orders)) [
    | inl e ↦ rw (cancel_internal, e) tt
    | inr (o, e) ↦
        rw (cancel_internal, e)
          (cancel_row-IsSound d o done
            (λ x. record x { status = cancelled; filled_quantity = done }) t s)
  ]

  abbrev FirstIsSound : Tables × TradeRow → Type 0
  FirstIsSound r = IsSound r.0

  settle_orders-IsSound :
      (symbol : String) (f : Fill) (buy sell : Option OrderRow) (base quote : String) (t : Tables)
      → IsSound t
      → WhenFine FirstIsSound (settle_orders d symbol f buy sell base quote t)
  unfolding settle_orders
  settle_orders-IsSound symbol f buy sell base quote t s =
      let qa = round_to_precision d quote (d.times f.price f.quantity) in
      elim (Outcome-cases (settle_side buy quote qa base f.quantity f.quantity t)) [
        | inr (e, h) ↦ rw (settle_orders, h) tt
        | inl (t1, h) ↦
            let s1 : IsSound t1 =
              subst (WhenFine IsSound) h
                (settle_side-IsSound buy quote qa base f.quantity f.quantity t s) in
            elim (Outcome-cases (settle_side sell base f.quantity quote qa f.quantity t1)) [
              | inr (e, k) ↦ rw (settle_orders, h, k) tt
              | inl (t2, k) ↦
                  rw (settle_orders, h, k)
                    (with_rows-IsSound t2 t2.orders _ (
                      subst (WhenFine IsSound) k
                        (settle_side-IsSound sell base f.quantity quote qa f.quantity t1 s1)))
            ]
      ]

  settle_new-IsSound :
      (symbol : String) (f : Fill) (buy sell : Option OrderRow) (t : Tables)
      → IsSound t
      → WhenFine FirstIsSound (settle_new d symbol f buy sell t)
  unfolding settle_new
  settle_new-IsSound symbol f buy sell t s = elim (Option-cases (parse_symbol symbol)) [
    | inl e ↦ rw (settle_new, e) tt
    | inr ((base, quote), e) ↦
        elim (Outcome-cases (settle_orders d symbol f buy sell base quote t)) [
          | inr (x, h) ↦ rw (settle_new, e, h) tt
          | inl (r, h) ↦
              rw (settle_new, e, h)
                (subst (WhenFine FirstIsSound) h
                  (settle_orders-IsSound symbol f buy sell base quote t s))
        ]
  ]

  settle-IsSound :
      (symbol : String) (f : Fill) (t : Tables)
      → IsSound t
      → WhenFine FirstIsSound (settle d symbol f t)
  unfolding settle
  settle-IsSound symbol f t s = elim (Option-cases (find_trade (fill_id f) t.trades)) [
    | inr (r, e) ↦ rw (settle, e) s
    | inl new ↦ elim (Option-cases (find_order f.buy_order_id t.orders)) [
      | inr (buy, b) ↦
          rw (settle, new, b)
            (settle_new-IsSound symbol f (some buy) (find_order f.sell_order_id t.orders) t s)
      | inl b ↦ elim (Option-cases (find_order f.sell_order_id t.orders)) [
        | inl c ↦ rw (settle, new, b, c) tt
        | inr (sell, c) ↦ rw (settle, new, b, c) (settle_new-IsSound symbol f none (some sell) t s)
      ]
    ]
  ]

  -- A change that the service makes to its tables.
  pub data Change (t t' : Tables) : Type 0 where
    appends :
        (user : ℕ) (asset : String) (amount : Amount) (kind : EntryType) (ref : Option ℕ)
        (e : LedgerEntry)
        → append_in_tx user asset amount kind ref t ≡ fine (t', e)
        → Change t t'
    places :
        (id user : ℕ) (req : PlaceOrderRequest) (r : PlaceOrderResult)
        → place d id user req t ≡ fine (t', r)
        → Change t t'
    cancels : (user id : ℕ) → cancel d user id t ≡ fine t' → Change t t'
    cancels_internal :
        (id : ℕ) (done : Amount) → cancel_internal d id done t ≡ fine t' → Change t t'
    settles :
        (symbol : String) (f : Fill) (r : TradeRow)
        → settle d symbol f t ≡ fine (t', r)
        → Change t t'

  Change-IsSound : (t t' : Tables) → Change t t' → IsSound t → IsSound t'
  Change-IsSound t t' (appends user asset amount kind ref e h) s =
      result-IsSound user asset amount kind ref t t' e h s
  Change-IsSound t t' (places id user req r h) s =
      subst (WhenFine (λ (x : Tables × PlaceOrderResult). IsSound x.0)) h
        (place-IsSound d id user req t s)
  Change-IsSound t t' (cancels user id h) s =
      subst (WhenFine IsSound) h (cancel-IsSound user id t s)
  Change-IsSound t t' (cancels_internal id done h) s =
      subst (WhenFine IsSound) h (cancel_internal-IsSound id done t s)
  Change-IsSound t t' (settles symbol f r h) s =
      subst (WhenFine FirstIsSound) h (settle-IsSound symbol f t s)

  -- Changes one after the other.
  pub data History : Tables → Tables → Type 0 where
    now : {t : Tables} → History t t
    then_ : {t t' t'' : Tables} → Change t t' → History t' t'' → History t t''

  -- Whatever deposits, orders, cancellations and settlements succeed, in whatever order, every cached
  -- balance stays the sum of its ledger entries and never becomes negative.
  pub History-IsSound : {t t' : Tables} → History t t' → IsSound t → IsSound t'
  History-IsSound now s = s
  History-IsSound {t} (then_ {t' = t1} c h) s = History-IsSound h (Change-IsSound t t1 c s)
