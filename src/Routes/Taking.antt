-- ===== src/Routes/Taking.antt =====
-- accounts/src/routes/orders.rs: what placing an order does to the balances.
use Prim.Native.String.{String}
use mexchange_study.Common.{ℕ, ◌≤ℤ◌}
use mexchange_study.Accounts.Tables.{Tables, available_of}

-- No balance is higher than before.
abbrev pub NoneGrows : Tables → Tables → Type 0
NoneGrows t t' = (u : ℕ) (a : String) → available_of u a t'.balances ≤ℤ available_of u a t.balances
