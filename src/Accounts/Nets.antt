-- ===== src/Accounts/Nets.antt =====
-- accounts/src/models: what placing an order and settling a fill move on a user's balances.
use Prim.Native.String.{String}
use mexchange_study.Common.{
  ℕ, ◌≡◌, refl, sym, ap, ◌∙◌, subst, inl, inr, Bool, true, false, Option, none, some, List, [], ◌∷◌,
  if◌then◌else◌, Bool-cases, Option-cases, ℤ, pos, ◌+ℤ◌, int_laws,
}
use mexchange_study.Accounts.Tables.{
  Amount, Decimals, negate, minus, EntryType, lock, OrderRow, TradeRow, Tables, is_for,
  available_of, find_order,
}
use mexchange_study.Accounts.Ledger.{append_in_tx, round_to_precision}
use mexchange_study.Accounts.Orders.{
  PlaceOrderRequest, PlaceOrderResult, parse_symbol, has_price, calculate_lock_amount, place,
  add_fill,
}
use mexchange_study.Accounts.Trades.{
  Fill, fill_id, find_trade, append_entries, side_entries, settle_side, settle_orders, settle_new,
  settle,
}
use mexchange_study.Accounts.Books.{append_in_tx-Appended, if_for}
use mexchange_study.Accounts.Tables.{EntryType}
use mexchange_study.Accounts.Reconciling.{WhenFine, Outcome-cases}

-- The balances that an operation changes: by how much, for a user and an asset.
abbrev pub Moves : (ℕ → String → ℤ) → Tables → Tables → Type 0
Moves f t t' =
    (u : ℕ) (a : String) → available_of u a t'.balances ≡ available_of u a t.balances +ℤ f u a

-- The sum of the entries' amounts for a user and an asset.
abbrev pub total_for : ℕ → List (String × Amount × EntryType) → ℕ → String → ℤ
total_for user [] u a = pos 0
total_for user ((asset, amount, kind) ∷ es) u a =
    if_for u a user asset amount.value +ℤ total_for user es u a

add_assoc_ℤ : (x y z : ℤ) → (x +ℤ y) +ℤ z ≡ x +ℤ (y +ℤ z)
add_assoc_ℤ x y z = omega int_laws

add_zero_ℤ : (x : ℤ) → x ≡ x +ℤ pos 0
add_zero_ℤ x = omega int_laws

entries-Moves :
    (user order : ℕ) (es : List (String × Amount × EntryType)) (t : Tables)
    → WhenFine (Moves (total_for user es) t) (append_entries user order es t)
unfolding append_entries
entries-Moves user order [] t = λ u a. add_zero_ℤ (available_of u a t.balances)
entries-Moves user order ((asset, amount, kind) ∷ es) t =
    elim (Outcome-cases (append_in_tx user asset amount kind (some order) t)) [
      | inr (e, h) ↦ rw (append_entries, h) tt
      | inl ((t1, e), h) ↦
          let one = (append_in_tx-Appended user asset amount kind (some order) t t1 e h).balance in
          elim (Outcome-cases (append_entries user order es t1)) [
            | inr (x, k) ↦ rw (append_entries, h, k) tt
            | inl (t2, k) ↦
                let rest : Moves (total_for user es) t1 t2 =
                  subst (WhenFine (Moves (total_for user es) t1)) k
                    (entries-Moves user order es t1) in
                rw (append_entries, h, k)
                  (λ u a.
                    rest u a
                    ∙ ap (λ (z : ℤ). z +ℤ total_for user es u a) (one u a)
                    ∙ add_assoc_ℤ (available_of u a t.balances) (if_for u a user asset amount.value)
                        (total_for user es u a))
          ]
    ]

add_fill-Moves :
    (id : ℕ) (q : ℤ) (t : Tables)
    → WhenFine (λ (t' : Tables). t'.balances ≡ t.balances) (add_fill id q t)
unfolding add_fill
add_fill-Moves id q t = elim (Option-cases (find_order id t.orders)) [
  | inl e ↦ rw (add_fill, e) tt
  | inr (o, e) ↦ rw (add_fill, e) refl
]

-- The release and the payment cancel out, so one side's settlement only brings in what is received.
side_total :
    (paid got : ℤ) (b c : Bool)
    → (if b then paid else pos 0)
        +ℤ ((if b then negate paid else pos 0) +ℤ ((if c then got else pos 0) +ℤ pos 0))
      ≡ (if c then got else pos 0)
side_total paid got true c = omega int_laws
side_total paid got false c = omega int_laws

-- Settling one side moves nothing but what it receives: the release of what was locked for the fill and
-- the payment for it are of the same amount. So the rest of what the order had locked stays locked.
pub settle_side-Moves :
    (o : OrderRow) (paid : String) (pa : Amount) (got : String) (ga q : Amount) (t : Tables)
    → WhenFine
        (Moves (λ u a. if_for u a o.user_id got ga.value) t)
        (settle_side (some o) paid pa got ga q t)
unfolding settle_side side_entries
settle_side-Moves o paid pa got ga q t =
    let es = side_entries paid pa got ga in
    elim (Outcome-cases (append_entries o.user_id o.id es t)) [
      | inr (e, h) ↦ rw (settle_side, h) tt
      | inl (t1, h) ↦
          let moved : Moves (total_for o.user_id es) t t1 =
            subst (WhenFine (Moves (total_for o.user_id es) t)) h
              (entries-Moves o.user_id o.id es t) in
          elim (Outcome-cases (add_fill o.id q.value t1)) [
            | inr (e, k) ↦ rw (settle_side, h, k) tt
            | inl (t2, k) ↦
                let same : t2.balances ≡ t1.balances =
                  subst (WhenFine (λ (x : Tables). x.balances ≡ t1.balances)) k
                    (add_fill-Moves o.id q.value t1) in
                rw (settle_side, h, k)
                  (λ u a.
                    ap (available_of u a) same
                    ∙ moved u a
                    ∙ ap (λ (z : ℤ). available_of u a t.balances +ℤ z)
                        (side_total pa.value ga.value (is_for u a o.user_id paid)
                          (is_for u a o.user_id got)))
          ]
    ]

module _ (d : Decimals) where
  -- A placed order takes exactly what it locks from its user, in the asset that it locks.
  pub place-Moves :
      (id user : ℕ) (req : PlaceOrderRequest) (t : Tables)
      → WhenFine
          (λ (r : Tables × PlaceOrderResult).
            Moves (λ u a. if_for u a user r.1.locked_asset (negate r.1.locked_amount.value)) t r.0)
          (place d id user req t)
  unfolding place
  place-Moves id user req t = elim (Bool-cases (has_price d req)) [
    | inr bad ↦ rw (bad, place) tt
    | inl good ↦ elim (Outcome-cases (calculate_lock_amount d req)) [
      | inr (e, h) ↦ rw (good, place, h) tt
      | inl ((asset, amount), h) ↦
          elim (Outcome-cases (append_in_tx user asset (minus amount) lock (some id) t)) [
            | inr (e, k) ↦ rw (good, place, h, k) tt
            | inl ((t', e), k) ↦
                rw (good, place, h, k)
                  (append_in_tx-Appended user asset (minus amount) lock (some id) t t' e k).balance
          ]
    ]
  ]

  abbrev pub quote_value : String → Fill → Amount
  quote_value quote f = round_to_precision d quote (d.times f.price f.quantity)

  -- The buyer receives the quantity and the seller its value, and nothing else moves.
  abbrev pub MovesBoth :
      String → String → Fill → OrderRow → OrderRow → Tables → Tables × TradeRow → Type 0
  MovesBoth base quote f buy sell t r =
      Moves
        (λ u a.
          if_for u a buy.user_id base f.quantity.value
          +ℤ if_for u a sell.user_id quote (quote_value quote f).value)
        t r.0

  settle_orders-Moves :
      (symbol : String) (f : Fill) (buy sell : OrderRow) (base quote : String) (t : Tables)
      → WhenFine
          (MovesBoth base quote f buy sell t)
          (settle_orders d symbol f (some buy) (some sell) base quote t)
  unfolding settle_orders
  settle_orders-Moves symbol f buy sell base quote t =
      let qa = quote_value quote f in
      let q = f.quantity in
      elim (Outcome-cases (settle_side (some buy) quote qa base q q t)) [
        | inr (e, h) ↦ rw (settle_orders, h) tt
        | inl (t1, h) ↦
            let first : Moves (λ u a. if_for u a buy.user_id base q.value) t t1 =
              subst (WhenFine (Moves (λ u a. if_for u a buy.user_id base q.value) t)) h
                (settle_side-Moves buy quote qa base q q t) in
            elim (Outcome-cases (settle_side (some sell) base q quote qa q t1)) [
              | inr (e, k) ↦ rw (settle_orders, h, k) tt
              | inl (t2, k) ↦
                  let second : Moves (λ u a. if_for u a sell.user_id quote qa.value) t1 t2 =
                    subst (WhenFine (Moves (λ u a. if_for u a sell.user_id quote qa.value) t1)) k
                      (settle_side-Moves sell base q quote qa q t1) in
                  rw (settle_orders, h, k)
                    (λ u a.
                      second u a
                      ∙ ap (λ (z : ℤ). z +ℤ if_for u a sell.user_id quote qa.value) (first u a)
                      ∙ add_assoc_ℤ (available_of u a t.balances)
                          (if_for u a buy.user_id base q.value)
                          (if_for u a sell.user_id quote qa.value))
            ]
      ]

  settle_known :
      (symbol : String) (f : Fill) (buy : OrderRow) (t : Tables)
      → find_trade (fill_id f) t.trades ≡ none
      → find_order f.buy_order_id t.orders ≡ some buy
      → settle d symbol f t
        ≡ settle_new d symbol f (some buy) (find_order f.sell_order_id t.orders) t
  unfolding settle
  settle_known symbol f buy t new b = rw (settle, new, b) refl

  settle_new-Moves :
      (symbol base quote : String) (f : Fill) (buy sell : OrderRow) (t : Tables)
      → parse_symbol symbol ≡ some (base, quote)
      → WhenFine
          (MovesBoth base quote f buy sell t)
          (settle_new d symbol f (some buy) (some sell) t)
  unfolding settle_new
  settle_new-Moves symbol base quote f buy sell t parsed =
      elim (Outcome-cases (settle_orders d symbol f (some buy) (some sell) base quote t)) [
        | inr (e, h) ↦ rw (settle_new, parsed, h) tt
        | inl (r, h) ↦
            rw (settle_new, parsed, h)
              (subst (WhenFine (MovesBoth base quote f buy sell t)) h
                (settle_orders-Moves symbol f buy sell base quote t))
      ]

  -- Settling a new fill of two known orders brings the buyer the quantity of the base asset and the seller
  -- the rounded value in the quote asset, and moves nothing else: neither fees nor what the orders had
  -- locked beyond the fill.
  pub settle-Moves :
      (symbol base quote : String) (f : Fill) (buy sell : OrderRow) (t : Tables)
      → parse_symbol symbol ≡ some (base, quote)
      → find_trade (fill_id f) t.trades ≡ none
      → find_order f.buy_order_id t.orders ≡ some buy
      → find_order f.sell_order_id t.orders ≡ some sell
      → WhenFine (MovesBoth base quote f buy sell t) (settle d symbol f t)
  unfolding settle
  settle-Moves symbol base quote f buy sell t parsed new b s =
      subst (WhenFine (MovesBoth base quote f buy sell t))
        (sym (
          settle_known symbol f buy t new b
          ∙ ap (λ (o : Option OrderRow). settle_new d symbol f (some buy) o t) s))
        (settle_new-Moves symbol base quote f buy sell t parsed)
