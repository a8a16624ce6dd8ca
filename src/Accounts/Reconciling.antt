-- ===== src/Accounts/Reconciling.antt =====
-- accounts/src/models: the cached balances are the sums of the ledger, and none is negative, after
-- every operation on orders and trades.
use Prim.Native.String.{String}
use mexchange_study.Common.{
  ℕ, ◌≡◌, refl, sym, ap, ◌∙◌, subst, ◌⊎◌, inl, inr, Bool, false, Option, none, some, List, [], ◌∷◌,
  if◌then◌else◌, Bool-cases, Option-cases, ℤ, pos, ◌+ℤ◌, ◌≤ℤ◌, ltb_ℤ, int_laws,
}
use mexchange_study.Accounts.Tables.{
  Amount, Decimals, minus, EntryType, lock, unlock, LedgerEntry, OrderRow, TradeRow, Tables,
  Outcome, fine, failure, is_for, available_of, find_order, update_order,
}
use mexchange_study.Accounts.Ledger.{append_in_tx, derive_balance}
use mexchange_study.Accounts.Orders.{
  PlaceOrderRequest, PlaceOrderResult, has_price, calculate_lock_amount, place, is_cancellable,
  request_of, still_locked, release, cancel_row, fill_row, add_fill,
}
use mexchange_study.Accounts.Trades.{append_entries, side_entries, settle_side}
use mexchange_study.Accounts.Books.{Appended, append_in_tx-Appended, if_for}

-- What holds of a result holds when there is one.
abbrev pub WhenFine {ℓ κ ι} : {E : Type ℓ} {A : Type κ} → (A → Type ι) → Outcome E A → Type ι
WhenFine P (fine a) = P a
WhenFine P (failure e) = Unit

pub Outcome-cases {ℓ κ} :
    {E : Type ℓ} {A : Type κ} (o : Outcome E A)
    → ((a : A) × (o ≡ fine a)) ⊎ ((e : E) × (o ≡ failure e))
Outcome-cases (fine a) = inl (a, refl)
Outcome-cases (failure e) = inr (e, refl)

-- Every balance is the sum of its entries and is not negative.
pub record IsSound (t : Tables) : Type 0 where
  pub reconciled : (u : ℕ) (a : String) → derive_balance u a t ≡ available_of u a t.balances
  pub not_negative : (u : ℕ) (a : String) → pos 0 ≤ℤ available_of u a t.balances

unchanged : (z amount : ℤ) (b : Bool) → b ≡ false → z +ℤ (if b then amount else pos 0) ≡ z
unchanged z amount b e = rw e (omega int_laws)

-- The rows of the other tables play no part.
pub with_rows-IsSound :
    (t : Tables) (orders : List OrderRow) (trades : List TradeRow)
    → IsSound t
    → IsSound (record t { orders = orders; trades = trades })
unfolding derive_balance
with_rows-IsSound t orders trades s = record {
  reconciled = s.reconciled;
  not_negative = s.not_negative;
}

Appended-IsSound :
    (user : ℕ) (asset : String) (amount : ℤ) (t t' : Tables)
    → Appended user asset amount t t'
    → IsSound t
    → IsSound t'
Appended-IsSound user asset amount t t' h s = record {
  reconciled = λ u a.
      h.derived u a
      ∙ ap (λ (z : ℤ). z +ℤ if_for u a user asset amount) (s.reconciled u a)
      ∙ sym (h.balance u a);
  not_negative = λ u a. elim (Bool-cases (is_for u a user asset)) [
    | inl mine ↦ h.not_negative u a mine
    | inr other ↦
        subst (λ (z : ℤ). pos 0 ≤ℤ z)
          (sym (
            h.balance u a
            ∙ unchanged (available_of u a t.balances) amount (is_for u a user asset) other))
          (s.not_negative u a)
  ];
}

pub result-IsSound :
    (user : ℕ) (asset : String) (amount : Amount) (kind : EntryType) (ref : Option ℕ)
    (t t' : Tables) (e : LedgerEntry)
    → append_in_tx user asset amount kind ref t ≡ fine (t', e)
    → IsSound t
    → IsSound t'
result-IsSound user asset amount kind ref t t' e h s =
    Appended-IsSound user asset amount.value t t'
      (append_in_tx-Appended user asset amount kind ref t t' e h) s

entries-IsSound :
    (user order : ℕ) (es : List (String × Amount × EntryType)) (t : Tables)
    → IsSound t
    → WhenFine IsSound (append_entries user order es t)
unfolding append_entries
entries-IsSound user order [] t s = s
entries-IsSound user order ((asset, amount, kind) ∷ es) t s =
    elim (Outcome-cases (append_in_tx user asset amount kind (some order) t)) [
      | inr (e, h) ↦ rw (append_entries, h) tt
      | inl ((t', e), h) ↦
          rw (append_entries, h)
            (entries-IsSound user order es t'
              (result-IsSound user asset amount kind (some order) t t' e h s))
    ]

add_fill-IsSound : (id : ℕ) (q : ℤ) (t : Tables) → IsSound t → WhenFine IsSound (add_fill id q t)
unfolding add_fill
add_fill-IsSound id q t s = elim (Option-cases (find_order id t.orders)) [
  | inl e ↦ rw (add_fill, e) tt
  | inr (o, e) ↦
      rw (add_fill, e) (with_rows-IsSound t (update_order id (fill_row q) t.orders) t.trades s)
]

pub settle_side-IsSound :
    (o : Option OrderRow) (paid : String) (pa : Amount) (got : String) (ga q : Amount) (t : Tables)
    → IsSound t
    → WhenFine IsSound (settle_side o paid pa got ga q t)
unfolding settle_side
settle_side-IsSound none paid pa got ga q t s = s
settle_side-IsSound (some o) paid pa got ga q t s =
    let es = side_entries paid pa got ga in
    elim (Outcome-cases (append_entries o.user_id o.id es t)) [
      | inr (e, h) ↦ rw (settle_side, h) tt
      | inl (t', h) ↦
          rw (settle_side, h)
            (add_fill-IsSound o.id q.value t'
              (subst (WhenFine IsSound) h (entries-IsSound o.user_id o.id es t s)))
    ]

module _ (d : Decimals) where
  pub place-IsSound :
      (id user : ℕ) (req : PlaceOrderRequest) (t : Tables)
      → IsSound t
      → WhenFine (λ (r : Tables × PlaceOrderResult). IsSound r.0) (place d id user req t)
  unfolding place
  place-IsSound id user req t s = elim (Bool-cases (has_price d req)) [
    | inr bad ↦ rw (bad, place) tt
    | inl good ↦ elim (Outcome-cases (calculate_lock_amount d req)) [
      | inr (e, h) ↦ rw (good, place, h) tt
      | inl ((asset, amount), h) ↦
          elim (Outcome-cases (append_in_tx user asset (minus amount) lock (some id) t)) [
            | inr (e, k) ↦ rw (good, place, h, k) tt
            | inl ((t', e), k) ↦
                rw (good, place, h, k)
                  (with_rows-IsSound t' _ t'.trades
                    (result-IsSound user asset (minus amount) lock (some id) t t' e k s))
          ]
    ]
  ]

  release-IsSound :
      (user : ℕ) (asset : String) (amount : Amount) (id : ℕ) (t : Tables)
      → IsSound t
      → WhenFine IsSound (release d user asset amount id t)
  unfolding release
  release-IsSound user asset amount id t s = elim (Bool-cases (ltb_ℤ (pos 0) amount.value)) [
    | inr nothing ↦ rw (release, nothing) s
    | inl some_ ↦ elim (Outcome-cases (append_in_tx user asset amount unlock (some id) t)) [
      | inr (e, k) ↦ rw (release, some_, k) tt
      | inl ((t', e), k) ↦
          rw (release, some_, k) (result-IsSound user asset amount unlock (some id) t t' e k s)
    ]
  ]

  pub cancel_row-IsSound :
      (o : OrderRow) (done : Amount) (update : OrderRow → OrderRow) (t : Tables)
      → IsSound t
      → WhenFine IsSound (cancel_row d o done update t)
  unfolding cancel_row
  cancel_row-IsSound o done update t s = elim (Bool-cases (is_cancellable d o.status)) [
    | inr bad ↦ rw (cancel_row, bad) tt
    | inl good ↦ elim (Outcome-cases (calculate_lock_amount d (request_of d o))) [
      | inr (e, h) ↦ rw (cancel_row, good, h) tt
      | inl ((asset, total), h) ↦
          let left = still_locked d o done asset total in
          elim (Outcome-cases (release d o.user_id asset left o.id t)) [
            | inr (e, k) ↦ rw (cancel_row, good, h, k) tt
            | inl (t', k) ↦
                rw (cancel_row, good, h, k)
                  (with_rows-IsSound t' (update_order o.id update t'.orders) t'.trades
                    (subst (WhenFine IsSound) k (release-IsSound o.user_id asset left o.id t s)))
          ]
    ]
  ]
