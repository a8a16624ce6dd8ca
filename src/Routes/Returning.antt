-- ===== src/Routes/Returning.antt =====
-- accounts/src/routes/balances.rs: a deposit that is withdrawn.
use Prim.Native.String.{String}
use mexchange_study.Common.{
  ℕ, ◌≡◌, refl, sym, ap, ◌∙◌, subst, inl, inr, Bool, true, false, Option, none, arith,
  if◌then◌else◌, Bool-cases, Option-cases, ℤ, pos, ◌+ℤ◌, ◌≤ℤ◌, ltb_ℤ, int_laws, same_text,
}
use mexchange_study.Accounts.Tables.{
  is_for, Amount, Decimals, EntryType, minus, negate, deposit, withdrawal, LedgerEntry, Tables,
  Outcome, fine, failure, available_of,
}
use mexchange_study.Accounts.Ledger.{
  append_in_tx, append_checked, validate_asset, validate_precision, round_to_precision,
}
use mexchange_study.Accounts.Books.{
  is_for_refl, if_for, append_in_tx-Appended, in_tx_bad_asset, in_tx_bad_precision, in_tx_checked,
}
use mexchange_study.Accounts.Reconciling.{WhenFine, Outcome-cases}
use mexchange_study.Routes.Replies.{Prints}
use mexchange_study.Routes.Placing.{not_positive}
use mexchange_study.Routes.Money.{BalanceResponse, deposit_, withdraw}

-- There is a result, and this holds of it.
abbrev pub Returns {ℓ κ} : {E : Type ℓ} {A : Type κ} → (A → Type 0) → Outcome E A → Type 0
Returns P (fine a) = P a
Returns P (failure e) = ⊥

abbrev returned {ℓ κ} : {E : Type ℓ} {A : Type κ} → Outcome E A → Bool
returned (fine a) = true
returned (failure e) = false

checked_returns :
    (user : ℕ) (asset : String) (amount : ℤ) (kind : EntryType) (ref : Option ℕ) (t : Tables)
    → ltb_ℤ (available_of user asset t.balances +ℤ amount) (pos 0) ≡ false
    → returned (append_checked user asset amount kind ref t) ≡ true
unfolding append_checked
checked_returns user asset amount kind ref t h = rw (append_checked, h) refl

validate_precision-minus :
    (asset : String) (amount : Amount)
    → validate_precision asset (minus amount) ≡ validate_precision asset amount
unfolding validate_precision
validate_precision-minus asset amount = refl

-- The balances of these tables are the same.
abbrev pub SameBalances : Tables → Tables → Type 0
SameBalances t t' =
    (u : ℕ) (a : String) → available_of u a t'.balances ≡ available_of u a t.balances

back : (x z : ℤ) (b : Bool) → (x +ℤ (if b then z else pos 0)) +ℤ (if b then negate z else pos 0) ≡ x
back x z true = omega int_laws
back x z false = omega int_laws

not_below : (x : ℤ) → pos 0 ≤ℤ x → ltb_ℤ x (pos 0) ≡ false
not_below x h = ground (arith, h)

enough : (x y z : ℤ) → y ≡ x +ℤ z → pos 0 ≤ℤ x → ltb_ℤ (y +ℤ negate z) (pos 0) ≡ false
enough x y z e h =
    ap (λ (w : ℤ). ltb_ℤ w (pos 0)) (ap (λ (w : ℤ). w +ℤ negate z) e ∙ back x z true)
    ∙ not_below x h

-- An entry is taken back by one of the opposite amount.
append_in_tx-minus :
    (user : ℕ) (asset : String) (amount : Amount) (k k' : EntryType) (ref : Option ℕ)
    (t t1 : Tables) (e : LedgerEntry)
    → append_in_tx user asset amount k ref t ≡ fine (t1, e)
    → pos 0 ≤ℤ available_of user asset t.balances
    → Returns
        (λ (r : Tables × LedgerEntry). SameBalances t r.0)
        (append_in_tx user asset (minus amount) k' ref t1)
append_in_tx-minus user asset amount k k' ref t t1 e h low =
    let one = append_in_tx-Appended user asset amount k ref t t1 e h in
    elim (Option-cases (validate_asset asset)) [
      | inr (x, bad) ↦ absurd (cc (sym (in_tx_bad_asset user asset amount k ref t x bad) ∙ h))
      | inl good ↦ elim (Option-cases (validate_precision asset amount)) [
        | inr (x, bad) ↦
            absurd (cc (sym (in_tx_bad_precision user asset amount k ref t x good bad) ∙ h))
        | inl fits ↦
            let same =
              in_tx_checked user asset (minus amount) k' ref t1 good
                (validate_precision-minus asset amount ∙ fits) in
            let own : available_of user asset t1.balances
                ≡ available_of user asset t.balances +ℤ amount.value =
              one.balance user asset
              ∙ ap
                  (λ (b : Bool).
                    available_of user asset t.balances +ℤ (if b then amount.value else pos 0))
                  (is_for_refl user asset) in
            let done = checked_returns user asset (negate amount.value) k' ref t1 (
              enough (available_of user asset t.balances) (available_of user asset t1.balances)
                amount.value own low) in
            elim (Outcome-cases (append_in_tx user asset (minus amount) k' ref t1)) [
              | inr (x, bad) ↦ absurd (cc (sym done ∙ ap returned (sym same ∙ bad)))
              | inl ((t2, e2), k2) ↦
                  let two = append_in_tx-Appended user asset (minus amount) k' ref t1 t2 e2 k2 in
                  rw k2 (λ u a.
                    two.balance u a
                    ∙ ap (λ (z : ℤ). z +ℤ if_for u a user asset (negate amount.value))
                        (one.balance u a)
                    ∙ back (available_of u a t.balances) amount.value (is_for u a user asset))
            ]
      ]
    ]

module _ (d : Decimals) (p : Prints) where
  -- After a deposit, withdrawing the same amount succeeds, and every balance is what it was before, if the
  -- user's was not negative.
  pub withdraw-deposit :
      (user : ℕ) (asset : String) (amount : Amount) (t : Tables)
      → pos 0 ≤ℤ available_of user asset t.balances
      → WhenFine
          (λ (r : Tables × BalanceResponse).
            Returns
              (λ (r' : Tables × BalanceResponse). SameBalances t r'.0)
              (withdraw d p user asset amount r.0))
          (deposit_ d p user asset amount t)
  unfolding deposit_ withdraw
  withdraw-deposit user asset amount t low =
      let rounded = round_to_precision d asset amount in
      elim (Bool-cases (not_positive amount)) [
        | inl e ↦ rw (deposit_, e) tt
        | inr q ↦ elim (Bool-cases (same_text asset "EUR")) [
          | inr e ↦ rw (deposit_, q, e) tt
          | inl eur ↦ elim (Outcome-cases (append_in_tx user asset rounded deposit none t)) [
            | inr (x, h) ↦ rw (deposit_, q, eur, h) tt
            | inl ((t1, e), h) ↦
                let taken =
                  append_in_tx-minus user asset rounded deposit withdrawal none t t1 e h low in
                elim (Outcome-cases (append_in_tx user asset (minus rounded) withdrawal none t1)) [
                  | inr (x, k) ↦
                      absurd
                        (subst (Returns (λ (r : Tables × LedgerEntry). SameBalances t r.0)) k taken)
                  | inl ((t2, e2), k) ↦
                      rw (deposit_, withdraw, q, eur, h, k)
                        (subst (Returns (λ (r : Tables × LedgerEntry). SameBalances t r.0)) k taken)
                ]
          ]
        ]
      ]
