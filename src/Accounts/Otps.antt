-- ===== src/Accounts/Otps.antt =====
-- accounts/src/models/otp.rs: one-time codes. `NOW()` is a parameter, in microseconds; a code is its list
-- of characters, and the random digits are given by their places.
pub mod Uses
use Prim.Native.String.{String}
use mexchange_study.Common.{
  ℕ, zero, suc, ◌+◌, ◌*◌, ◌%◌, Bool, true, false, ◌&&◌, ◌||◌, not, List, [], ◌∷◌, ◌++◌, ltb,
  if◌then◌else◌, same_text, same_codes,
}

pub record Otp : Type 0 where
  pub email : String
  pub code : List ℕ
  pub expires_at : ℕ
  pub used : Bool

abbrev pub code_length : ℕ
code_length = 6

-- Ten minutes.
abbrev pub expiry : ℕ
expiry = 10 * 60 * 1000000

-- The digits from the `i`-th one on; `gen_range(0..10)` gives a digit.
unfoldable pub digits_from : (ℕ → ℕ) → ℕ → ℕ → List ℕ
digits_from random zero i = []
digits_from random (suc n) i = (48 + random i % 10) ∷ digits_from random n (suc i)

unfoldable pub generate_code : (ℕ → ℕ) → List ℕ
generate_code random = digits_from random code_length 0

-- `create`: the new row, and the table with it
unfoldable pub create : (ℕ → ℕ) → String → ℕ → List Otp → List Otp × Otp
create random email now t =
    let row : Otp = record {
      email = email;
      code = generate_code random;
      expires_at = now + expiry;
      used = false;
    } in
    (t ++ row ∷ [], row)

-- The WHERE of `verify`.
unfoldable pub is_open : String → List ℕ → ℕ → Otp → Bool
is_open email code now o =
    same_text email o.email && (same_codes code o.code && (not o.used && ltb now o.expires_at))

-- `verify`: every open row is used up, and one is fetched if there is any.
unfoldable pub verify : String → List ℕ → ℕ → List Otp → List Otp × Bool
verify email code now [] = ([], false)
verify email code now (o ∷ os) =
    let (rest, found) = verify email code now os in
    if is_open email code now o then (record o { used = true } ∷ rest, true) else (o ∷ rest, found)

-- `cleanup_expired`
unfoldable pub cleanup_expired : ℕ → List Otp → List Otp × ℕ
cleanup_expired now [] = ([], 0)
cleanup_expired now (o ∷ os) =
    let (rest, affected) = cleanup_expired now os in
    if ltb o.expires_at now || o.used then (rest, suc affected) else (o ∷ rest, affected)
