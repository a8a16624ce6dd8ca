-- ===== src/Service/Settlement.antt =====
-- matching_engine_service/src/settlement.rs: the client that settles fills with the accounts service.
use Prim.Native.String
use Prim.Native.String.{String}
use mexchange_study.Common.{
  ℕ, zero, suc, ◌+◌, ◌-◌, ◌^◌, Bool, true, false, ◌&&◌, Option, none, some, ltb, if◌then◌else◌, ℤ,
  same_text,
}

abbrev pub max_retries : ℕ
max_retries = 3

pub record SettleFillRequest : Type 0 where
  pub symbol : String
  pub buy_order_id : ℕ
  pub sell_order_id : ℕ
  pub price : ℤ
  pub quantity : ℤ
  pub timestamp : ℕ

pub record SettleFillResponse : Type 0 where
  pub trade_id : String
  pub buyer_id : String
  pub seller_id : String
  pub settled : Bool

pub record SettleErrorResponse : Type 0 where
  pub error : String
  pub code : String

-- What comes back from a request: no answer, a success with its body if it can be read, or another
-- status, with whether it is a server error and its body if it can be read. A body that cannot be
-- read, and a missing answer, come with the text of the error.
pub data Response {ℓ} (A : Type ℓ) : Type ℓ where
  no_response : String → Response A
  success_response : A → Response A
  unread_success : String → Response A
  error_response : Bool → SettleErrorResponse → Response A
  unread_error : Bool → String → Response A

pub data SettlementResult : Type 0 where
  success : SettleFillResponse → SettlementResult
  skipped : SettlementResult
  failed : String → SettlementResult

-- What one round of the loop does.
pub data Round : Type 0 where
  done : SettlementResult → Round
  again : Round

abbrev already_settled : SettleFillResponse
already_settled = record {
  trade_id = "already_settled";
  buyer_id = "";
  seller_id = "";
  settled = true;
}

-- A failure is retried while attempts remain, if it may be.
unfoldable pub retry : Bool → ℕ → SettlementResult → Round
retry retriable attempts r = if retriable && ltb attempts max_retries then again else done r

unfoldable pub on_error : Bool → SettleErrorResponse → ℕ → Round
on_error server_error e attempts =
    if same_text e.code "PARTIAL_SETTLEMENT"
    then done skipped
    else if same_text e.code "ORDER_NOT_FOUND"
    then done skipped
    else if same_text e.code "ALREADY_SETTLED"
    then done (success already_settled)
    else retry server_error attempts (failed (String.◌++◌ e.code (String.◌++◌ ": " e.error)))

unfoldable pub settle_round : Response SettleFillResponse → ℕ → Round
settle_round (success_response r) attempts = done (success r)
settle_round (unread_success e) attempts = done (failed (String.◌++◌ "Parse error: " e))
settle_round (error_response server_error e) attempts = on_error server_error e attempts
settle_round (unread_error server_error status) attempts =
    retry server_error attempts (failed (String.◌++◌ "HTTP " status))
settle_round (no_response e) attempts =
    retry true attempts (failed (String.◌++◌ "Network error: " e))

-- The loop, with the number of attempts made; `none` when the fuel runs out.
unfoldable pub settle_loop :
    (ℕ → Response SettleFillResponse) → ℕ → ℕ → Option (SettlementResult × ℕ)
settle_loop answer zero attempts = none
settle_loop answer (suc fuel) attempts =
    let attempt = attempts + 1 in
    let rest = settle_loop answer fuel attempt in
    elim (settle_round (answer attempt) attempt) [ done r ↦ some (r, attempt) | again ↦ rest ]

abbrev i64_max : ℕ
i64_max = 2 ^ 63 - 1

unfoldable pub request_for : String → ℕ → ℕ → ℤ → ℤ → ℕ → SettleFillRequest
request_for symbol buy sell price quantity timestamp = record {
  symbol = symbol;
  buy_order_id = buy;
  sell_order_id = sell;
  price = price;
  quantity = quantity;
  timestamp = if ltb i64_max timestamp then i64_max else timestamp;
}

-- `settle_fill`: the answers of the accounts service, by attempt, are a parameter. The result comes
-- with the number of requests that were made.
unfoldable pub settle_fill :
    (SettleFillRequest → ℕ → Response SettleFillResponse)
    → String
    → ℕ
    → ℕ
    → ℤ
    → ℤ
    → ℕ
    → Option (SettlementResult × ℕ)
settle_fill post symbol buy sell price quantity timestamp =
    settle_loop (post (request_for symbol buy sell price quantity timestamp)) max_retries 0

-- `cancel_order`: one request, whose answer says whether it worked.
unfoldable pub cancel_accepted {ℓ} : {A : Type ℓ} → Response A → Bool
cancel_accepted (success_response r) = true
cancel_accepted (unread_success e) = false
cancel_accepted (error_response server_error e) = same_text e.code "ORDER_NOT_FOUND"
cancel_accepted (unread_error server_error status) = false
cancel_accepted (no_response e) = false
