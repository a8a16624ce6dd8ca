-- ===== src/Routes/Claims.antt =====
-- accounts/src/routes/faucet.rs: how the claims of a user follow one another.
use Prim.Native.String.{String}
use mexchange_study.Common.{
  ℕ, ◌+◌, ◌≤◌, ◌≡◌, refl, sym, ap, ◌∙◌, inl, inr, Bool, true, false, ◌&&◌, Option, none, some, List,
  [], ◌∷◌, ◌++◌, arith, ltb, leb, ◌==◌, if◌then◌else◌, Bool-cases, Option-cases, All, All-append,
  same_text, if_true,
}
use mexchange_study.Accounts.Tables.{Decimals, Tables, deposit}
use mexchange_study.Accounts.Ledger.{append_in_tx}
use mexchange_study.Accounts.Reconciling.{Outcome-cases}
use mexchange_study.Routes.Replies.{Prints}
use mexchange_study.Routes.Faucet.{
  FaucetClaim, later, last_claim, faucet_cooldown, faucet_amount, asset_of, cooling_down,
  credit_claim, claim_faucet,
}

abbrev is_claim : ℕ → String → FaucetClaim → Bool
is_claim user asset c = user == c.user_id && same_text asset c.asset

-- The second claim, if it is of the same user and asset, comes a day after the first.
abbrev pub IsApart : FaucetClaim → FaucetClaim → Type 0
IsApart c c' =
    is_claim c'.user_id c'.asset c ≡ true → c.claimed_at + faucet_cooldown ≤ c'.claimed_at

abbrev pub IsSpaced : List FaucetClaim → Type 0
IsSpaced [] = Unit
IsSpaced (c ∷ cs) = All (IsApart c) cs × IsSpaced cs

append-IsSpaced :
    (cs : List FaucetClaim) (new : FaucetClaim)
    → IsSpaced cs
    → All (λ (c : FaucetClaim). IsApart c new) cs
    → IsSpaced (cs ++ new ∷ [])
append-IsSpaced [] new s h = (tt, tt)
append-IsSpaced (c ∷ cs) new (apart, s) (h, hs) =
    (All-append (IsApart c) cs (new ∷ []) apart (h, tt), append-IsSpaced cs new s hs)

if_none {ℓ} : {A : Type ℓ} (b : Bool) (x : A) → (if b then some x else none) ≡ none → b ≡ false
if_none true x h = absurd (cc h)
if_none false x h = refl

both_late :
    (now at other : ℕ)
    → ltb now ((if leb at other then other else at) + 86400000) ≡ false
    → (at + 86400000 ≤ now) × (ltb now (other + 86400000) ≡ false)
both_late now at other h = elim (Bool-cases (leb at other)) [
  | inl e ↦ (ground arith, ground arith)
  | inr e ↦ (ground arith, ground arith)
]

cooled :
    (now at : ℕ) (rest : Option ℕ)
    → cooling_down now (some (later at rest)) ≡ none
    → (at + faucet_cooldown ≤ now) × (cooling_down now rest ≡ none)
unfolding cooling_down
cooled now at none h =
    let late = if_none (ltb now (at + faucet_cooldown)) (at + faucet_cooldown) h in
    (ground (arith, late), refl)
cooled now at (some other) h =
    let last = later at (some other) in
    let late = if_none (ltb now (last + faucet_cooldown)) (last + faucet_cooldown) h in
    let both : (at + faucet_cooldown ≤ now) × (ltb now (other + faucet_cooldown) ≡ false) =
      both_late now at other late in
    (both.0, rw (both.1) refl)

-- The faucet pays only a day after every claim of the user.
cooled_all :
    (now user : ℕ) (asset : String) (cs : List FaucetClaim)
    → cooling_down now (last_claim user asset cs) ≡ none
    → All
        (λ (c : FaucetClaim). is_claim user asset c ≡ true → c.claimed_at + faucet_cooldown ≤ now)
        cs
unfolding last_claim
cooled_all now user asset [] h = tt
cooled_all now user asset (c ∷ cs) h = elim (Bool-cases (is_claim user asset c)) [
  | inr other ↦ (
    (λ mine. absurd (cc (sym other ∙ mine))),
    cooled_all now user asset cs (sym (ap (cooling_down now) (rw (last_claim, other) refl)) ∙ h),
  )
  | inl mine ↦
      let rest = last_claim user asset cs in
      let counted = if_true (is_claim user asset c) (some (later c.claimed_at rest)) rest mine in
      let (late, before) = cooled now c.claimed_at rest (sym (ap (cooling_down now) counted) ∙ h) in
      ((λ m. late), cooled_all now user asset cs before)
]

-- The clock of the database is not behind that of the service.
IsApart-after :
    (now at user : ℕ) (cs : List FaucetClaim)
    → now ≤ at
    → All
        (λ (c : FaucetClaim). is_claim user "KCN" c ≡ true → c.claimed_at + faucet_cooldown ≤ now)
        cs
    → All
        (λ (c : FaucetClaim). IsApart c (record { user_id = user; asset = "KCN"; claimed_at = at }))
        cs
IsApart-after now at user [] h a = tt
IsApart-after now at user (c ∷ cs) h (a, rest) =
    ((λ m. omega (arith, h, a m)), IsApart-after now at user cs h rest)

module _ (d : Decimals) (p : Prints) where
  credit_claim-IsSpaced :
      (records : Bool) (now at user : ℕ) (s : Tables × List FaucetClaim)
      → now ≤ at
      → cooling_down now (last_claim user "KCN" s.1) ≡ none
      → IsSpaced s.1
      → IsSpaced (credit_claim d p records now at user s).0.1
  unfolding credit_claim
  credit_claim-IsSpaced records now at user (t, claims) h cool s =
      elim (Outcome-cases (append_in_tx user "KCN" faucet_amount deposit none t)) [
        | inr (e, k) ↦ rw (credit_claim, k) s
        | inl ((t', e), k) ↦ elim (Bool-cases records) [
          | inr lost ↦ rw (credit_claim, k, lost) s
          | inl kept ↦
              rw (credit_claim, k, kept)
                (append-IsSpaced claims (record { user_id = user; asset = "KCN"; claimed_at = at })
                  s (IsApart-after now at user claims h (cooled_all now user "KCN" claims cool)))
        ]
      ]

  claim_faucet-IsSpaced :
      (reads records : Bool) (now at user : ℕ) (asset : Option String)
      (s : Tables × List FaucetClaim)
      → now ≤ at
      → IsSpaced s.1
      → IsSpaced (claim_faucet d p reads records now at user asset s).0.1
  unfolding claim_faucet
  claim_faucet-IsSpaced reads records now at user asset s h spaced =
      elim (Bool-cases (same_text (asset_of asset) "KCN")) [
        | inr other ↦ rw (claim_faucet, other) spaced
        | inl kcn ↦ elim (Bool-cases reads) [
          | inr lost ↦ rw (claim_faucet, kcn, lost) spaced
          | inl answered ↦ elim (Option-cases (cooling_down now (last_claim user "KCN" s.1))) [
            | inr (next, e) ↦ rw (claim_faucet, kcn, answered, e) spaced
            | inl e ↦
                rw (claim_faucet, kcn, answered, e)
                  (credit_claim-IsSpaced records now at user s h e spaced)
          ]
        ]
      ]

  -- A call of the faucet.
  pub record Attempt : Type 0 where
    pub reads : Bool
    pub records : Bool
    pub now : ℕ
    pub claimed_at : ℕ
    pub user : ℕ
    pub asset : Option String

  abbrev pub attempts : List Attempt → Tables × List FaucetClaim → Tables × List FaucetClaim
  attempts [] s = s
  attempts (a ∷ later_ones) s =
      attempts later_ones (claim_faucet d p a.reads a.records a.now a.claimed_at a.user a.asset s).0

  -- Whatever calls of the faucet follow one another, failing or not, any two recorded claims of a user
  -- for an asset stay at least 24 hours apart, when the clock of the database is never behind the one that
  -- the service has just read.
  pub attempts-IsSpaced :
      (calls : List Attempt) (s : Tables × List FaucetClaim)
      → All (λ (a : Attempt). a.now ≤ a.claimed_at) calls
      → IsSpaced s.1
      → IsSpaced (attempts calls s).1
  attempts-IsSpaced [] s h spaced = spaced
  attempts-IsSpaced (a ∷ later_ones) s (h, hs) spaced =
      attempts-IsSpaced later_ones
        (claim_faucet d p a.reads a.records a.now a.claimed_at a.user a.asset s).0 hs
        (claim_faucet-IsSpaced a.reads a.records a.now a.claimed_at a.user a.asset s h spaced)
