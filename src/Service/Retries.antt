-- ===== src/Service/Retries.antt =====
-- matching_engine_service/src/settlement.rs: the retries of `settle_fill`.
use Prim.Native.String
use Prim.Native.String.{String}
use mexchange_study.Common.{
  ℕ, zero, suc, ◌+◌, ◌≤◌, ◌<◌, ◌≡◌, refl, sym, ◌∙◌, ◌⊎◌, inl, inr, Bool, true, false, some, arith,
  ltb, if◌then◌else◌, Bool-cases, ℤ, same_text,
}
use mexchange_study.Service.Settlement.{
  max_retries, SettleFillRequest, SettleFillResponse, SettleErrorResponse, Response, no_response,
  success_response, unread_success, error_response, unread_error, SettlementResult, success,
  skipped, failed, Round, done, again, retry, on_error, settle_round, settle_loop, request_for,
  settle_fill,
}

retry_last : (b : Bool) (n : ℕ) (r : SettlementResult) → max_retries ≤ n → retry b n r ≡ done r
unfolding retry
retry_last true n r h = ground arith
retry_last false n r h = refl

done_if :
    (b : Bool) (x y : Round)
    → (r : SettlementResult) × (x ≡ done r)
    → (r : SettlementResult) × (y ≡ done r)
    → (r : SettlementResult) × ((if b then x else y) ≡ done r)
done_if true x y h k = h
done_if false x y h k = k

on_error_last :
    (b : Bool) (e : SettleErrorResponse) (n : ℕ)
    → max_retries ≤ n
    → (r : SettlementResult) × (on_error b e n ≡ done r)
unfolding on_error
on_error_last b e n h =
    let final : Round = retry b n (failed (String.◌++◌ e.code (String.◌++◌ ": " e.error))) in
    let settled : Round = done (
      success
        (record { trade_id = "already_settled"; buyer_id = ""; seller_id = ""; settled = true })) in
    let last : (r : SettlementResult) × (final ≡ done r) =
      (failed (String.◌++◌ e.code (String.◌++◌ ": " e.error)), retry_last b n _ h) in
    let third : Round = if same_text e.code "ALREADY_SETTLED" then settled else final in
    let second : Round = if same_text e.code "ORDER_NOT_FOUND" then done skipped else third in
    done_if (same_text e.code "PARTIAL_SETTLEMENT") (done skipped) second (skipped, refl)
      (done_if (same_text e.code "ORDER_NOT_FOUND") (done skipped) third (skipped, refl)
        (done_if (same_text e.code "ALREADY_SETTLED") settled final (_, refl) last))

-- From the last attempt on every answer is final.
round_last :
    (a : Response SettleFillResponse) (n : ℕ)
    → max_retries ≤ n
    → (r : SettlementResult) × (settle_round a n ≡ done r)
unfolding settle_round
round_last (success_response x) n h = (_, refl)
round_last (unread_success e) n h = (_, refl)
round_last (error_response b e) n h = on_error_last b e n h
round_last (unread_error b s) n h = (_, retry_last b n _ h)
round_last (no_response e) n h = (_, retry_last true n _ h)

Round-cases : (x : Round) → (x ≡ again) ⊎ ((r : SettlementResult) × (x ≡ done r))
Round-cases (done r) = inr (r, refl)
Round-cases again = inl refl

-- The next answers, this many of them, are not final.
abbrev pub Retried : (ℕ → Response SettleFillResponse) → ℕ → ℕ → Type 0
Retried answer attempts zero = Unit
Retried answer attempts (suc k) =
    (settle_round (answer (attempts + 1)) (attempts + 1) ≡ again) × Retried answer (attempts + 1) k

-- After some answers that are not final, attempt `n` is final and gives the result `r`.
pub record Decides (answer : ℕ → Response SettleFillResponse) (from : ℕ) (r : SettlementResult)
    (n : ℕ) : Type 0 where
  pub retries : ℕ
  pub counted : n ≡ from + retries + 1
  pub bounded : n ≤ max_retries
  pub retried : Retried answer from retries
  pub decided : settle_round (answer n) n ≡ done r

-- A round that asks for another is not the last.
not_last :
    (answer : ℕ → Response SettleFillResponse) (attempts : ℕ)
    → attempts < max_retries
    → settle_round (answer (attempts + 1)) (attempts + 1) ≡ again
    → attempts + 1 < max_retries
not_last answer attempts h e = elim (Bool-cases (ltb (attempts + 1) max_retries)) [
  | inl l ↦ ground arith
  | inr g ↦
      let (r, f) = round_last (answer (attempts + 1)) (attempts + 1) (ground arith) in
      absurd (cc (sym e ∙ f))
]

settle_loop-Decides :
    (answer : ℕ → Response SettleFillResponse) (fuel attempts : ℕ)
    → attempts < max_retries
    → max_retries ≤ fuel + attempts
    → (r : SettlementResult) × (n : ℕ) × (settle_loop answer fuel attempts ≡ some (r, n))
      × Decides answer attempts r n
unfolding settle_loop
settle_loop-Decides answer zero attempts h k = absurd (omega (arith, h, k))
settle_loop-Decides answer (suc fuel) attempts h k =
    elim (Round-cases (settle_round (answer (attempts + 1)) (attempts + 1))) [
      | inr (r, e) ↦ (
        r,
        attempts + 1,
        rw (e, settle_loop) refl,
        record {
          retries = 0;
          counted = omega arith;
          bounded = omega (arith, h);
          retried = tt;
          decided = e;
        },
      )
      | inl e ↦
          let more : attempts + 1 < max_retries = not_last answer attempts h e in
          let (r, n, f, d) =
            settle_loop-Decides answer fuel (attempts + 1) more (omega (arith, k)) in
          (
            r,
            n,
            rw (e, settle_loop) f,
            record {
              retries = suc d.retries;
              counted = let c = d.counted in omega (arith, c);
              bounded = d.bounded;
              retried = (e, d.retried);
              decided = d.decided;
            },
          )
    ]

-- Settling a fill always comes to a result, after at most three requests: the result is what the first
-- answer that is not retried says.
pub settle_fill-Decides :
    (post : SettleFillRequest → ℕ → Response SettleFillResponse) (symbol : String) (buy sell : ℕ)
    (price quantity : ℤ) (timestamp : ℕ)
    → (r : SettlementResult) × (n : ℕ) × (settle_fill post symbol buy sell price quantity timestamp
        ≡ some (r, n))
      × Decides (post (request_for symbol buy sell price quantity timestamp)) 0 r n
unfolding settle_fill
settle_fill-Decides post symbol buy sell price quantity timestamp =
    settle_loop-Decides (post (request_for symbol buy sell price quantity timestamp)) max_retries 0
      (omega arith) (omega arith)
