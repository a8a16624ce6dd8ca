-- ===== src/Accounts/Ledger.antt =====
-- accounts/src/models/ledger.rs: the ledger and the cached balances.
use Prim.Native.String
use Prim.Native.String.{String}
use mexchange_study.Common.{
  ℕ, Bool, true, false, ◌&&◌, ◌||◌, not, Option, none, some, List, [], ◌∷◌, ◌++◌, ltb, leb, ◌==◌,
  if◌then◌else◌, ℤ, pos, ◌+ℤ◌, ltb_ℤ, eqb_ℤ, same_text, codes,
}
use mexchange_study.Accounts.Tables.{
  Amount, Decimals, EntryType, lock, LedgerEntry, Tables, SqlError, asset_length, asset_characters,
  precision, insufficient_balance, check_violation, Outcome, fine, failure, available_of,
  upsert_balance, sum_amounts,
}

abbrev within : ℕ → ℕ → ℕ → Bool
within low high c = leb low c && leb c high

-- `is_ascii_alphanumeric`
unfoldable pub is_alphanumeric : ℕ → Bool
is_alphanumeric c = within 48 57 c || (within 65 90 c || within 97 122 c)

unfoldable pub all_alphanumeric : List ℕ → Bool
all_alphanumeric [] = true
all_alphanumeric (c ∷ cs) = is_alphanumeric c && all_alphanumeric cs

-- `validate_asset`: the error, if any
unfoldable pub validate_asset : String → Option SqlError
validate_asset asset =
    if String.len asset == 0 || ltb 10 (String.len asset)
    then some asset_length
    else if all_alphanumeric (codes asset)
    then none
    else some asset_characters

unfoldable pub max_decimals_for_asset : String → ℕ
max_decimals_for_asset asset =
    if same_text asset "EUR" || (same_text asset "USD" || same_text asset "GBP") then 2 else 8

unfoldable pub validate_precision : String → Amount → Option SqlError
validate_precision asset amount =
    if ltb (max_decimals_for_asset asset) amount.scale then some precision else none

unfoldable pub round_to_precision : Decimals → String → Amount → Amount
round_to_precision d asset amount = d.round_dp (max_decimals_for_asset asset) amount

unfoldable pub is_lock : EntryType → Bool
is_lock lock = true
is_lock _ = false

-- The queries of `append` and `append_in_tx`, for amounts that passed the checks. The table's CHECK
-- refuses a negative balance, also for a lock.
unfoldable pub append_checked :
    ℕ → String → ℤ → EntryType → Option ℕ → Tables → Outcome SqlError (Tables × LedgerEntry)
append_checked user asset amount kind reference t =
    let new_balance = available_of user asset t.balances +ℤ amount in
    let entry : LedgerEntry = record {
      user_id = user;
      asset = asset;
      amount = amount;
      balance_after = new_balance;
      entry_type = kind;
      reference_id = reference;
    } in
    if ltb_ℤ new_balance (pos 0) && not (is_lock kind)
    then failure insufficient_balance
    else if ltb_ℤ new_balance (pos 0)
    then failure check_violation
    else fine (
      record t {
        ledger = t.ledger ++ entry ∷ [];
        balances = upsert_balance user asset new_balance t.balances;
      },
      entry,
    )

-- `append_in_tx`, and `append`, which is the same in a transaction of its own
unfoldable pub append_in_tx :
    ℕ → String → Amount → EntryType → Option ℕ → Tables → Outcome SqlError (Tables × LedgerEntry)
append_in_tx user asset amount kind reference t = elim (validate_asset asset) [
  | some e ↦ failure e
  | none ↦ elim (validate_precision asset amount) [
    | some e ↦ failure e
    | none ↦ append_checked user asset amount.value kind reference t
  ]
]

unfoldable pub derive_balance : ℕ → String → Tables → ℤ
derive_balance user asset t = sum_amounts user asset t.ledger

unfoldable pub reconcile : ℕ → String → Tables → Bool
reconcile user asset t = eqb_ℤ (derive_balance user asset t) (available_of user asset t.balances)
