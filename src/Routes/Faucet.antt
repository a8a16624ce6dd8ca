-- ===== src/Routes/Faucet.antt =====
-- accounts/src/routes/faucet.rs: the faucet. Times are in milliseconds.
use Prim.Native.String.{String}
use mexchange_study.Common.{
  ℕ, ◌+◌, Bool, true, ◌&&◌, not, Option, none, some, List, [], ◌∷◌, ◌++◌, ltb, leb, ◌==◌,
  if◌then◌else◌, pos, same_text,
}
use mexchange_study.Accounts.Tables.{Amount, Decimals, deposit, Tables, Outcome, fine, failure}
use mexchange_study.Accounts.Ledger.{append_in_tx}
use mexchange_study.Routes.Replies.{
  Prints, Status, bad_request, too_many_requests, internal_server_error,
}

-- A row of `faucet_claims`.
pub record FaucetClaim : Type 0 where
  pub user_id : ℕ
  pub asset : String
  pub claimed_at : ℕ

abbrev pub later : ℕ → Option ℕ → ℕ
later at none = at
later at (some other) = if leb at other then other else at

-- The last `claimed_at` of the user for the asset.
unfoldable pub last_claim : ℕ → String → List FaucetClaim → Option ℕ
last_claim user asset [] = none
last_claim user asset (c ∷ cs) =
    let rest = last_claim user asset cs in
    if user == c.user_id && same_text asset c.asset then some (later c.claimed_at rest) else rest

-- The cooldown of 24 hours, in milliseconds.
abbrev pub faucet_cooldown : ℕ
faucet_cooldown = 86400000

pub record FaucetResponse : Type 0 where
  pub asset : String
  pub new_balance : String
  pub next_claim_at : ℕ

pub record FaucetErrorResponse : Type 0 where
  pub error : String
  pub next_claim_at : Option ℕ

pub record FaucetStatusResponse : Type 0 where
  pub available : Bool
  pub next_claim_at : Option ℕ
  pub last_claim_at : Option ℕ

-- 100, as it is read from its text
abbrev pub faucet_amount : Amount
faucet_amount = record { value = pos 1000000000000000000000000000000; scale = 0 }

abbrev on_cooldown : String
on_cooldown = "Faucet is on cooldown. Please wait 24 hours between claims."

abbrev pub asset_of : Option String → String
asset_of none = "KCN"
asset_of (some a) = a

-- The answer of `faucet_status` for the last claim.
unfoldable pub status_after : ℕ → Option ℕ → FaucetStatusResponse
status_after now none = record { available = true; next_claim_at = none; last_claim_at = none }
status_after now (some last) = record {
  available = leb (last + faucet_cooldown) now;
  next_claim_at = some (last + faucet_cooldown);
  last_claim_at = some last;
}

-- When the faucet will pay again, if it does not yet.
unfoldable pub cooling_down : ℕ → Option ℕ → Option ℕ
cooling_down now none = none
cooling_down now (some last) =
    if ltb now (last + faucet_cooldown) then some (last + faucet_cooldown) else none

module _ (d : Decimals) (p : Prints) where
  -- The claim of a user whose last claim is not too recent.
  unfoldable pub credit_claim :
      Bool
      → ℕ
      → ℕ
      → ℕ
      → Tables × List FaucetClaim
      → (Tables × List FaucetClaim) × Outcome (Status × FaucetErrorResponse) FaucetResponse
  credit_claim records now claimed_at user (t, claims) =
      elim (append_in_tx user "KCN" faucet_amount deposit none t) [
        | failure e ↦ (
          (t, claims),
          failure (
            internal_server_error,
            record { error = "Failed to process faucet claim"; next_claim_at = none },
          ),
        )
        | fine (t', entry) ↦
            if records
            then (
              (
                t',
                claims ++ record { user_id = user; asset = "KCN"; claimed_at = claimed_at } ∷ [],
              ),
              fine (record {
                asset = "KCN";
                new_balance = p.print_column entry.balance_after;
                next_claim_at = now + faucet_cooldown;
              }),
            )
            else (
              (t', claims),
              failure (
                internal_server_error,
                record { error = "Failed to record faucet claim"; next_claim_at = none },
              ),
            )
      ]

  -- `claim_faucet`: `now` is the clock of the service, and `claimed_at` that of the database when the claim
  -- is recorded, after the balance is credited; whether the check and the record succeed is given.
  unfoldable pub claim_faucet :
      Bool
      → Bool
      → ℕ
      → ℕ
      → ℕ
      → Option String
      → Tables × List FaucetClaim
      → (Tables × List FaucetClaim) × Outcome (Status × FaucetErrorResponse) FaucetResponse
  claim_faucet reads records now claimed_at user asset s =
      if not (same_text (asset_of asset) "KCN")
      then (
        s,
        failure
            (bad_request, record { error = "Only KCN faucet is available"; next_claim_at = none }),
      )
      else if not reads
      then (
        s,
        failure (
          internal_server_error,
          record { error = "Failed to check faucet status"; next_claim_at = none },
        ),
      )
      else elim (cooling_down now (last_claim user "KCN" s.1)) [
        | some next ↦ (
          s,
          failure (too_many_requests, record { error = on_cooldown; next_claim_at = some next }),
        )
        | none ↦ credit_claim records now claimed_at user s
      ]

  unfoldable pub faucet_status :
      Bool → ℕ → ℕ → List FaucetClaim → Outcome (Status × FaucetErrorResponse) FaucetStatusResponse
  faucet_status reads now user claims =
      if reads
      then fine (status_after now (last_claim user "KCN" claims))
      else failure (
        internal_server_error,
        record { error = "Failed to check faucet status"; next_claim_at = none },
      )
