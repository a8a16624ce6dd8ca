-- ===== src/Accounts/Otps/Uses.antt =====
-- accounts/src/models/otp.rs: how often a code can be used, and when.
use mexchange_study.Common.{
  ℕ, ◌+◌, ◌≤◌, ◌<◌, ◌≡◌, refl, inl, inr, true, false, ◌||◌, List, [], ◌∷◌, ◌++◌, arith, ltb,
  Bool-cases, same_text, same_codes,
}
use Prim.Native.String.{String}
use text.Mathlib.TextPositions.{compare_refl}
use mexchange_study.Accounts.Otps.{
  Otp, expiry, generate_code, create, is_open, verify, cleanup_expired,
}

-- A row that was not open at a time, or is used up at it, is not open later.
later_closed :
    (email : String) (code : List ℕ) (now later : ℕ) (o : Otp)
    → now ≤ later
    → is_open email code now o ≡ false
    → is_open email code later o ≡ false
unfolding is_open
later_closed email code now later o h e = ground arith

used_closed :
    (email : String) (code : List ℕ) (later : ℕ) (o : Otp)
    → is_open email code later (record o { used = true }) ≡ false
unfolding is_open
used_closed email code later o = ground arith

-- After an attempt with a code, successful or not, the same code is refused at any later time, unless a
-- new one was created, and the refused attempt changes nothing.
pub verify-once :
    (email : String) (code : List ℕ) (now later : ℕ) (t : List Otp)
    → now ≤ later
    → verify email code later (verify email code now t).0 ≡ ((verify email code now t).0, false)
unfolding verify
verify-once email code now later [] h = refl
verify-once email code now later (o ∷ os) h = elim (Bool-cases (is_open email code now o)) [
  | inl yes_open ↦
      rw (yes_open, verify, used_closed email code later o, verify-once email code now later os h)
        refl
  | inr shut ↦
      rw
        (
          shut,
          verify,
          later_closed email code now later o h shut,
          verify-once email code now later os h,
        )
        refl
]

verify-append :
    (email : String) (code : List ℕ) (now : ℕ) (t : List Otp) (o : Otp)
    → is_open email code now o ≡ true
    → (verify email code now (t ++ o ∷ [])).1 ≡ true
unfolding verify
verify-append email code now [] o e = rw (e, verify) refl
verify-append email code now (p ∷ ps) o e = elim (Bool-cases (is_open email code now p)) [
  | inl yes_open ↦ rw (yes_open, verify) refl
  | inr shut ↦ rw (shut, verify) (verify-append email code now ps o e)
]

same_codes_self : (xs : List ℕ) → same_codes xs xs ≡ true
same_codes_self [] = refl
same_codes_self (x ∷ xs) = ground (arith, same_codes_self xs)

-- A row that the cleaning takes away was not open at that time or later.
cleaned_closed :
    (email : String) (code : List ℕ) (now later : ℕ) (o : Otp)
    → now ≤ later
    → (ltb o.expires_at now || o.used) ≡ true
    → is_open email code later o ≡ false
unfolding is_open
cleaned_closed email code now later o h e = ground arith

-- Cleaning up takes away no code that could still be used: at any later time a code is accepted exactly
-- when it would be without the cleaning.
pub verify-cleanup_expired :
    (email : String) (code : List ℕ) (now later : ℕ) (t : List Otp)
    → now ≤ later
    → (verify email code later (cleanup_expired now t).0).1 ≡ (verify email code later t).1
unfolding verify cleanup_expired
verify-cleanup_expired email code now later [] h = refl
verify-cleanup_expired email code now later (o ∷ os) h =
    let rest = verify-cleanup_expired email code now later os h in
    elim (Bool-cases (ltb o.expires_at now || o.used)) [
      | inl gone ↦
          rw (gone, cleanup_expired, verify, cleaned_closed email code now later o h gone) rest
      | inr kept ↦ elim (Bool-cases (is_open email code later o)) [
        | inl yes_open ↦ rw (kept, cleanup_expired, yes_open, verify) refl
        | inr shut ↦ rw (kept, cleanup_expired, shut, verify) rest
      ]
    ]

same_text_self : (s : String) → same_text s s ≡ true
same_text_self s = rw (compare_refl s) refl

-- A new code is accepted for its address at any time before its ten minutes are over.
pub verify-create :
    (random : ℕ → ℕ) (email : String) (now later : ℕ) (t : List Otp)
    → later < now + expiry
    → let (t', row) = create random email now t in (verify email row.code later t').1 ≡ true
unfolding create is_open
verify-create random email now later t h =
    let row = (create random email now t).1 in
    verify-append email row.code later t row
      (ground (arith, same_text_self email, same_codes_self (generate_code random)))
