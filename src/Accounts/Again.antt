-- ===== src/Accounts/Again.antt =====
-- accounts/src/models/trade.rs: a fill that is reported again.
use mexchange_study.Common.{
  ℕ, ◌≡◌, refl, ap, ◌∙◌, subst, inl, inr, true, Option, none, some, List, [], ◌∷◌, ◌++◌, arith,
  Bool-cases, Option-cases, ℤ, eqb_ℤ-self,
}
use Prim.Native.String.{String}
use mexchange_study.Accounts.Tables.{
  Amount, Decimals, EntryType, OrderRow, TradeRow, Tables, fine, find_order,
}
use mexchange_study.Accounts.Ledger.{append_in_tx, append_checked, round_to_precision}
use mexchange_study.Accounts.Orders.{parse_symbol, add_fill}
use mexchange_study.Accounts.Trades.{
  Fill, fill_id, same_fill_id, find_trade, append_entries, side_entries, settle_side, trade_row,
  settle_orders, settle_new, settle,
}
use mexchange_study.Accounts.Reconciling.{WhenFine, Outcome-cases}

-- What the entries and the orders' rows leave alone.
abbrev SameTrades : Tables → Tables → Type 0
SameTrades t t' = t'.trades ≡ t.trades

append_in_tx-trades :
    (user : ℕ) (asset : String) (amount : Amount) (kind : EntryType) (reference : Option ℕ)
    (t : Tables)
    → WhenFine (λ r. SameTrades t r.0) (append_in_tx user asset amount kind reference t)
unfolding append_in_tx append_checked
append_in_tx-trades user asset amount kind reference t = ground arith

append_entries-trades :
    (user order : ℕ) (es : List (String × Amount × EntryType)) (t : Tables)
    → WhenFine (SameTrades t) (append_entries user order es t)
unfolding append_entries
append_entries-trades user order [] t = refl
append_entries-trades user order ((asset, amount, kind) ∷ es) t =
    elim (Outcome-cases (append_in_tx user asset amount kind (some order) t)) [
      | inr (e, h) ↦ rw (append_entries, h) tt
      | inl ((t1, e), h) ↦
          let one : SameTrades t t1 =
            subst (WhenFine (λ r. SameTrades t r.0)) h
              (append_in_tx-trades user asset amount kind (some order) t) in
          rw (append_entries, h)
            (subst
              (λ (x : List TradeRow).
                WhenFine (λ (t' : Tables). t'.trades ≡ x) (append_entries user order es t1))
              one (append_entries-trades user order es t1))
    ]

add_fill-trades : (id : ℕ) (q : ℤ) (t : Tables) → WhenFine (SameTrades t) (add_fill id q t)
unfolding add_fill
add_fill-trades id q t = elim (Option-cases (find_order id t.orders)) [
  | inl e ↦ rw (add_fill, e) tt
  | inr (o, e) ↦ rw (add_fill, e) refl
]

settle_side-trades :
    (o : Option OrderRow) (paid : String) (pa : Amount) (got : String) (ga q : Amount) (t : Tables)
    → WhenFine (SameTrades t) (settle_side o paid pa got ga q t)
unfolding settle_side
settle_side-trades none paid pa got ga q t = refl
settle_side-trades (some o) paid pa got ga q t =
    let es = side_entries paid pa got ga in
    elim (Outcome-cases (append_entries o.user_id o.id es t)) [
      | inr (e, h) ↦ rw (settle_side, h) tt
      | inl (t1, h) ↦
          let one : SameTrades t t1 =
            subst (WhenFine (SameTrades t)) h (append_entries-trades o.user_id o.id es t) in
          rw (settle_side, h)
            (subst
              (λ (x : List TradeRow).
                WhenFine (λ (t' : Tables). t'.trades ≡ x) (add_fill o.id q.value t1))
              one (add_fill-trades o.id q.value t1))
    ]

same_fill_id_self : (id : ℕ × ℕ × ℤ) → same_fill_id id id ≡ true
unfolding same_fill_id
same_fill_id_self (b, s, n) = ground (arith, eqb_ℤ-self n)

find_trade-append :
    (id : ℕ × ℕ × ℤ) (ts : List TradeRow) (row : TradeRow)
    → find_trade id ts ≡ none
    → row.fill_id ≡ id
    → find_trade id (ts ++ row ∷ []) ≡ some row
unfolding find_trade
find_trade-append id [] row none_yet same = rw (same, same_fill_id_self id) refl
find_trade-append id (t ∷ ts) row none_yet same = elim (Bool-cases (same_fill_id id t.fill_id)) [
  | inl found ↦ absurd (ground arith)
  | inr other ↦ rw other (find_trade-append id ts row (ground arith) same)
]

module _ (d : Decimals) (symbol : String) (f : Fill) where
  -- The trade is recorded under the id of the fill.
  abbrev Recorded : Tables × TradeRow → Type 0
  Recorded r = find_trade (fill_id f) r.0.trades ≡ some r.1

  settle_orders-Recorded :
      (buy sell : Option OrderRow) (base quote : String) (t : Tables)
      → find_trade (fill_id f) t.trades ≡ none
      → WhenFine Recorded (settle_orders d symbol f buy sell base quote t)
  unfolding settle_orders trade_row
  settle_orders-Recorded buy sell base quote t new =
      let qa = round_to_precision d quote (d.times f.price f.quantity) in
      let q = f.quantity in
      elim (Outcome-cases (settle_side buy quote qa base q q t)) [
        | inr (e, h) ↦ rw (settle_orders, h) tt
        | inl (t1, h) ↦
            let first : SameTrades t t1 =
              subst (WhenFine (SameTrades t)) h (settle_side-trades buy quote qa base q q t) in
            elim (Outcome-cases (settle_side sell base q quote qa q t1)) [
              | inr (e, k) ↦ rw (settle_orders, h, k) tt
              | inl (t2, k) ↦
                  let second : SameTrades t1 t2 =
                    subst (WhenFine (SameTrades t1)) k
                      (settle_side-trades sell base q quote qa q t1) in
                  let still : find_trade (fill_id f) t2.trades ≡ none =
                    ap (find_trade (fill_id f)) (second ∙ first) ∙ new in
                  rw (settle_orders, h, k)
                    (find_trade-append (fill_id f) t2.trades
                      (trade_row d symbol f buy sell quote qa) still refl)
            ]
      ]

  settle_new-Recorded :
      (buy sell : Option OrderRow) (t : Tables)
      → find_trade (fill_id f) t.trades ≡ none
      → WhenFine Recorded (settle_new d symbol f buy sell t)
  unfolding settle_new
  settle_new-Recorded buy sell t new = elim (Option-cases (parse_symbol symbol)) [
    | inl e ↦ rw (settle_new, e) tt
    | inr ((base, quote), e) ↦
        elim (Outcome-cases (settle_orders d symbol f buy sell base quote t)) [
          | inr (x, h) ↦ rw (settle_new, e, h) tt
          | inl (r, h) ↦
              rw (settle_new, e, h)
                (subst (WhenFine Recorded) h (settle_orders-Recorded buy sell base quote t new))
        ]
  ]

  settle-Recorded : (t : Tables) → WhenFine Recorded (settle d symbol f t)
  unfolding settle
  settle-Recorded t = elim (Option-cases (find_trade (fill_id f) t.trades)) [
    | inr (existing, e) ↦ rw (settle, e) e
    | inl new ↦ elim (Option-cases (find_order f.buy_order_id t.orders)) [
      | inr (buy, b) ↦
          rw (settle, new, b)
            (settle_new-Recorded (some buy) (find_order f.sell_order_id t.orders) t new)
      | inl no_buy ↦ elim (Option-cases (find_order f.sell_order_id t.orders)) [
        | inl no_sell ↦ rw (settle, new, no_buy, no_sell) tt
        | inr (sell, s) ↦ rw (settle, new, no_buy, s) (settle_new-Recorded none (some sell) t new)
      ]
    ]
  ]

-- Once a fill is settled, settling it again succeeds, returns the same trade and changes no table.
pub settle-again :
    (d : Decimals) (symbol : String) (f : Fill) (t t' : Tables) (row : TradeRow)
    → settle d symbol f t ≡ fine (t', row)
    → settle d symbol f t' ≡ fine (t', row)
unfolding settle
settle-again d symbol f t t' row e =
    let recorded : find_trade (fill_id f) t'.trades ≡ some row =
      subst (WhenFine (Recorded d symbol f)) e (settle-Recorded d symbol f t) in
    rw (settle, recorded) refl
