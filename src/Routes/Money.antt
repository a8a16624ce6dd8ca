-- ===== src/Routes/Money.antt =====
-- accounts/src/routes/balances.rs: deposits, withdrawals and balances.
use Prim.Native.String.{String}
use mexchange_study.Common.{
  ℕ, Bool, not, none, List, [], ◌∷◌, map, ◌==◌, if◌then◌else◌, pos, same_text,
}
use mexchange_study.Accounts.Tables.{
  Amount, Decimals, minus, deposit, withdrawal, BalanceRow, LedgerEntry, Tables, SqlError,
  insufficient_balance, Outcome, fine, failure,
}
use mexchange_study.Accounts.Ledger.{append_in_tx, round_to_precision}
use mexchange_study.Routes.Replies.{Prints, Status, bad_request, internal_server_error}
use mexchange_study.Routes.Placing.{not_positive}

pub record BalanceResponse : Type 0 where
  pub asset : String
  pub available : String
  pub locked : String

-- `balances` ordered by their assets, which the database compares.
unfoldable pub insert_row :
    (String → String → Bool) → BalanceRow → List BalanceRow → List BalanceRow
insert_row before r [] = r ∷ []
insert_row before r (x ∷ xs) =
    let rest = insert_row before r xs in if before r.asset x.asset then r ∷ x ∷ xs else x ∷ rest

-- `Balance::get_for_user`
unfoldable pub get_for_user : (String → String → Bool) → ℕ → List BalanceRow → List BalanceRow
get_for_user before user [] = []
get_for_user before user (r ∷ rs) =
    let rest = get_for_user before user rs in
    if user == r.user_id then insert_row before r rest else rest

module _ (d : Decimals) (p : Prints) where
  -- `get_balances`; no operation changes `locked`, which starts at 0
  unfoldable pub get_balances :
      (String → String → Bool)
      → Bool
      → ℕ
      → Tables
      → Outcome (Status × String) (List BalanceResponse)
  get_balances before reads user t =
      if reads
      then fine (
          map
            (λ (r : BalanceRow). record {
              asset = r.asset;
              available =
                  p.print_decimal
                    (round_to_precision d r.asset (record { value = r.available; scale = 8 }));
              locked =
                  p.print_decimal
                    (round_to_precision d r.asset (record { value = pos 0; scale = 8 }));
            })
            (get_for_user before user t.balances))
      else failure (internal_server_error, "Failed to get balances")

  unfoldable pub balance_response : LedgerEntry → BalanceResponse
  balance_response e = record {
    asset = e.asset;
    available = p.print_column e.balance_after;
    locked = "0";
  }

  unfoldable pub deposit_ :
      ℕ → String → Amount → Tables → Outcome (Status × String) (Tables × BalanceResponse)
  deposit_ user asset amount t =
      if not_positive amount
      then failure (bad_request, "Amount must be positive")
      else if not (same_text asset "EUR")
      then failure (bad_request, "Only EUR deposits are supported")
      else elim (append_in_tx user asset (round_to_precision d asset amount) deposit none t) [
        | failure e ↦ failure (internal_server_error, "Failed to process deposit")
        | fine (t', entry) ↦ fine (t', balance_response entry)
      ]

  unfoldable pub withdraw_error : SqlError → Status × String
  withdraw_error insufficient_balance = (bad_request, "Insufficient balance")
  withdraw_error _ = (internal_server_error, "Failed to process withdrawal")

  unfoldable pub withdraw :
      ℕ → String → Amount → Tables → Outcome (Status × String) (Tables × BalanceResponse)
  withdraw user asset amount t =
      if not_positive amount
      then failure (bad_request, "Amount must be positive")
      else if not (same_text asset "EUR")
      then failure (bad_request, "Only EUR withdrawals are supported")
      else elim (append_in_tx user asset (minus (round_to_precision d asset amount)) withdrawal none
          t) [
            | failure e ↦ failure (withdraw_error e)
            | fine (t', entry) ↦ fine (t', balance_response entry)
          ]
