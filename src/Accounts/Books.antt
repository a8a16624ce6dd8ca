-- ===== src/Accounts/Books.antt =====
-- accounts/src/models/ledger.rs: what an entry does to the balances and to the sums of the ledger.
use Prim.Native.String.{String}
use mexchange_study.Common.{
  ℕ, ◌≡◌, refl, sym, ap, ◌∙◌, subst, inl, inr, Bool, true, false, ◌&&◌, not, Option, none, some,
  List, [], ◌∷◌, ◌++◌, arith, if◌then◌else◌, Bool-cases, Option-cases, ℤ, pos, ◌+ℤ◌, ◌≤ℤ◌, ltb_ℤ,
  int_laws, same_text, if_true, if_false,
}
use text.Mathlib.TextEquality.{eq_iff}
use text.Mathlib.TextPositions.{eq_refl}
use mexchange_study.Accounts.Tables.{
  Amount, EntryType, LedgerEntry, BalanceRow, Tables, SqlError, insufficient_balance,
  check_violation, Outcome, fine, failure, is_for, available_of, upsert_balance, sum_amounts,
}
use mexchange_study.Accounts.Ledger.{
  is_lock, append_checked, append_in_tx, validate_asset, validate_precision, derive_balance,
}

pub is_for_refl : (u : ℕ) (a : String) → is_for u a u a ≡ true
unfolding is_for
is_for_refl u a = let e = eq_refl a in ground arith

is_for-user : (u v : ℕ) (a b : String) → is_for u a v b ≡ true → u ≡ v
unfolding is_for
is_for-user u v a b h = ground arith

is_for-asset : (u v : ℕ) (a b : String) → is_for u a v b ≡ true → a ≡ b
unfolding is_for
is_for-asset u v a b h = elim (Bool-cases (same_text a b)) [
  | inl e ↦ (eq_iff a b).0 e
  | inr e ↦ absurd (ground arith)
]

abbrev pub if_for : ℕ → String → ℕ → String → ℤ → ℤ
if_for u a v b x = if is_for u a v b then x else pos 0

is_for-congr :
    (u v w : ℕ) (a b c : String) → is_for v b w c ≡ true → is_for u a v b ≡ is_for u a w c
is_for-congr u v w a b c h =
    ap (λ (x : ℕ). is_for u a x b) (is_for-user v w b c h)
    ∙ ap (λ (x : String). is_for u a w x) (is_for-asset v w b c h)

upsert_here :
    (b c : Bool) (v old rest : ℤ)
    → b ≡ c
    → (if b then v else rest) ≡ (if c then v else if b then old else rest)
upsert_here true true v old rest e = refl
upsert_here true false v old rest e = cc e
upsert_here false true v old rest e = cc e
upsert_here false false v old rest e = refl

upsert_there :
    (b c : Bool) (v old rest : ℤ)
    → (b ≡ true → c ≡ true → ⊥)
    → (if b then old else if c then v else rest) ≡ (if c then v else if b then old else rest)
upsert_there true true v old rest no_both = absurd (no_both refl refl)
upsert_there true false v old rest no_both = refl
upsert_there false true v old rest no_both = refl
upsert_there false false v old rest no_both = refl

is_for_left : (u v w : ℕ) (a b c : String) → is_for u a v b ≡ true → is_for u a w c ≡ is_for v b w c
is_for_left u v w a b c h =
    ap (λ (x : ℕ). is_for x a w c) (is_for-user u v a b h)
    ∙ ap (λ (x : String). is_for v x w c) (is_for-asset u v a b h)

add_zero_both : (x : ℤ) → x +ℤ pos 0 ≡ pos 0 +ℤ x
add_zero_both x = omega int_laws

-- The upsert changes the balance of its user and asset alone.
pub available-upsert :
    (u user : ℕ) (a asset : String) (v : ℤ) (rows : List BalanceRow)
    → available_of u a (upsert_balance user asset v rows)
      ≡ (if is_for u a user asset then v else available_of u a rows)
unfolding available_of upsert_balance
available-upsert u user a asset v [] = refl
available-upsert u user a asset v (r ∷ rs) =
    elim (Bool-cases (is_for user asset r.user_id r.asset)) [
      | inl mine ↦
          let same = is_for-congr u user r.user_id a asset r.asset mine in
          ap (available_of u a) (
            if_true (is_for user asset r.user_id r.asset) (record r { available = v } ∷ rs)
              (r ∷ upsert_balance user asset v rs) mine)
          ∙ upsert_here (is_for u a r.user_id r.asset) (is_for u a user asset) v r.available
              (available_of u a rs) (sym same)
      | inr other ↦
          ap (available_of u a) (
            if_false (is_for user asset r.user_id r.asset) (record r { available = v } ∷ rs)
              (r ∷ upsert_balance user asset v rs) other)
          ∙ ap (λ (x : ℤ). if is_for u a r.user_id r.asset then r.available else x)
              (available-upsert u user a asset v rs)
          ∙ upsert_there (is_for u a r.user_id r.asset) (is_for u a user asset) v r.available
              (available_of u a rs)
              (λ x y. absurd (cc (sym x ∙ is_for_left u user r.user_id a asset r.asset y ∙ other)))
    ]

-- The ledger's sums change as the entry says.
pub sum_amounts_last :
    (u : ℕ) (a : String) (es : List LedgerEntry) (e : LedgerEntry)
    → sum_amounts u a (es ++ e ∷ []) ≡ sum_amounts u a es +ℤ if_for u a e.user_id e.asset e.amount
unfolding sum_amounts
sum_amounts_last u a [] e = elim (Bool-cases (is_for u a e.user_id e.asset)) [
  | inl h ↦ rw h (add_zero_both e.amount)
  | inr h ↦ rw h (omega int_laws)
]
sum_amounts_last u a (x ∷ es) e =
    let rest = sum_amounts_last u a es e in
    elim (Bool-cases (is_for u a x.user_id x.asset)) [
      | inl h ↦ rw (h, rest) (omega int_laws)
      | inr h ↦ rw (h, rest) (omega int_laws)
    ]

-- What one entry does.
pub record Appended (user : ℕ) (asset : String) (amount : ℤ) (t t' : Tables) : Type 0 where
  pub balance :
      (u : ℕ) (a : String)
      → available_of u a t'.balances ≡ available_of u a t.balances +ℤ if_for u a user asset amount
  pub derived :
      (u : ℕ) (a : String)
      → derive_balance u a t' ≡ derive_balance u a t +ℤ if_for u a user asset amount
  pub not_negative :
      (u : ℕ) (a : String) → is_for u a user asset ≡ true → pos 0 ≤ℤ available_of u a t'.balances
  pub same_orders : t'.orders ≡ t.orders
  pub same_trades : t'.trades ≡ t.trades

checked_result :
    (b c : Bool) (x y : SqlError) (z w : Tables × LedgerEntry)
    → ◌≡◌ {A = Outcome SqlError (Tables × LedgerEntry)}
        (if b then failure x else if c then failure y else fine z)
        (fine w)
    → (c ≡ false) × (z ≡ w)
checked_result true c x y z w h = absurd (cc h)
checked_result false true x y z w h = absurd (cc h)
checked_result false false x y z w h = (refl, cc h)

balance_changes :
    (u user : ℕ) (a asset : String) (amount : ℤ) (rows : List BalanceRow)
    → (if is_for u a user asset
        then available_of user asset rows +ℤ amount
        else available_of u a rows)
      ≡ available_of u a rows +ℤ if_for u a user asset amount
balance_changes u user a asset amount rows = elim (Bool-cases (is_for u a user asset)) [
  | inl mine ↦
      let same : available_of user asset rows ≡ available_of u a rows =
        ap (λ (x : ℕ). available_of x asset rows) (sym (is_for-user u user a asset mine))
        ∙ ap (λ (x : String). available_of u x rows) (sym (is_for-asset u user a asset mine)) in
      rw (mine, same) refl
  | inr other ↦ rw other (omega int_laws)
]

pub in_tx_bad_asset :
    (user : ℕ) (asset : String) (amount : Amount) (kind : EntryType) (ref : Option ℕ) (t : Tables)
    (x : SqlError)
    → validate_asset asset ≡ some x
    → append_in_tx user asset amount kind ref t ≡ failure x
unfolding append_in_tx
in_tx_bad_asset user asset amount kind ref t x e = rw (e, append_in_tx) refl

pub in_tx_bad_precision :
    (user : ℕ) (asset : String) (amount : Amount) (kind : EntryType) (ref : Option ℕ) (t : Tables)
    (x : SqlError)
    → validate_asset asset ≡ none
    → validate_precision asset amount ≡ some x
    → append_in_tx user asset amount kind ref t ≡ failure x
unfolding append_in_tx
in_tx_bad_precision user asset amount kind ref t x e f = rw (e, append_in_tx, f) refl

pub in_tx_checked :
    (user : ℕ) (asset : String) (amount : Amount) (kind : EntryType) (ref : Option ℕ) (t : Tables)
    → validate_asset asset ≡ none
    → validate_precision asset amount ≡ none
    → append_in_tx user asset amount kind ref t ≡ append_checked user asset amount.value kind ref t
unfolding append_in_tx
in_tx_checked user asset amount kind ref t e f = rw (e, append_in_tx, f) refl

append_checked-Appended :
    (user : ℕ) (asset : String) (amount : ℤ) (kind : EntryType) (ref : Option ℕ) (t t' : Tables)
    (e : LedgerEntry)
    → append_checked user asset amount kind ref t ≡ fine (t', e)
    → Appended user asset amount t t'
unfolding append_checked derive_balance
append_checked-Appended user asset amount kind ref t t' e h =
    let new = available_of user asset t.balances +ℤ amount in
    let entry : LedgerEntry = record {
      user_id = user;
      asset = asset;
      amount = amount;
      balance_after = new;
      entry_type = kind;
      reference_id = ref;
    } in
    let t1 = record t {
      ledger = t.ledger ++ entry ∷ [];
      balances = upsert_balance user asset new t.balances;
    } in
    let (enough, same) =
      checked_result (ltb_ℤ new (pos 0) && not (is_lock kind)) (ltb_ℤ new (pos 0))
        insufficient_balance check_violation (t1, entry) (t', e) h in
    subst (Appended user asset amount t) (ap (λ (r : Tables × LedgerEntry). r.0) same) (record {
      balance = λ u a.
          available-upsert u user a asset new t.balances
          ∙ balance_changes u user a asset amount t.balances;
      derived = λ u a. sum_amounts_last u a t.ledger entry;
      not_negative = λ u a mine.
          subst (λ (z : ℤ). pos 0 ≤ℤ z)
            (sym (
              available-upsert u user a asset new t.balances
              ∙ if_true (is_for u a user asset) new (available_of u a t.balances) mine))
            (ground arith);
      same_orders = refl;
      same_trades = refl;
    })

pub append_in_tx-Appended :
    (user : ℕ) (asset : String) (amount : Amount) (kind : EntryType) (ref : Option ℕ)
    (t t' : Tables) (e : LedgerEntry)
    → append_in_tx user asset amount kind ref t ≡ fine (t', e)
    → Appended user asset amount.value t t'
unfolding append_in_tx
append_in_tx-Appended user asset amount kind ref t t' e h =
    elim (Option-cases (validate_asset asset)) [
      | inr (x, bad) ↦ absurd (cc (sym (in_tx_bad_asset user asset amount kind ref t x bad) ∙ h))
      | inl good ↦ elim (Option-cases (validate_precision asset amount)) [
        | inr (x, bad) ↦
            absurd (cc (sym (in_tx_bad_precision user asset amount kind ref t x good bad) ∙ h))
        | inl fits ↦
            append_checked-Appended user asset amount.value kind ref t t' e
              (sym (in_tx_checked user asset amount kind ref t good fits) ∙ h)
      ]
    ]
