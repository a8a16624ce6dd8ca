-- ===== src/Service/Tests.antt =====
-- The theorems about commands and settlement, at concrete ones.
use mexchange_study.Common.{
  ℕ, ◌+◌, ◌≡◌, refl, ◌⊎◌, true, none, some, [], ◌∷◌, arith, ◌==◌, if◌then◌else◌, pos, ◌≤ℤ◌, ◌<ℤ◌,
  eqb_ℤ,
}
use mexchange_study.Engine.Orders.{bid, Fill}
use mexchange_study.Engine.Operations.{add_market_order}
use mexchange_study.Engine.Samples.{sample_book, sample_book-IsValid}
use mexchange_study.Events.{place_order}
use mexchange_study.Service.Settlement.{
  SettleFillRequest, SettleFillResponse, Response, no_response, success_response, SettlementResult,
  skipped, failed, request_for, settle_fill,
}
use mexchange_study.Service.Commands.{
  is_market, Handled, settle_fills, sum_settled, process_order_command,
}
use mexchange_study.Service.Retries.{Decides, settle_fill-Decides}
use mexchange_study.Service.Release.{always, process_order_command-released}

-- The first request gets no answer, the second one does.
abbrev second_time : SettleFillRequest → ℕ → Response SettleFillResponse
second_time request attempt =
    if attempt == 1
    then no_response "timeout"
    else success_response
        (record { trade_id = "t"; buyer_id = "b"; seller_id = "s"; settled = true })

settle_fill-Decides_example :
    (r : SettlementResult) × (n : ℕ) × (settle_fill second_time "KCN/EUR" 7 1 (pos 10) (pos 5) 99
      ≡ some (r, n))
    × Decides (second_time (request_for "KCN/EUR" 7 1 (pos 10) (pos 5) 99)) 0 r n
settle_fill-Decides_example = settle_fill-Decides second_time "KCN/EUR" 7 1 (pos 10) (pos 5) 99

abbrev settles : Fill → ℕ → SettlementResult
settles f time = if eqb_ℤ f.quantity (pos 5) then failed "no" else skipped

abbrev clock : ℕ → ℕ
clock n = 1000 + n

market_word : is_market "Market" ≡ true
unfolding is_market
market_word = refl

process_order_command-released_example :
    (h : Handled) × (process_order_command settles clock always "KCN/EUR"
        (place_order 7 bid "Market" none (pos 9) none)
        sample_book
      ≡ some h)
    × (h.succeeded ≡ true)
    × (let filled = sum_settled settles clock always (pos 0) (
          settle_fills settles clock always 0
            (add_market_order 7 bid (pos 9) sample_book).1.fills) in
        (filled ≤ℤ pos 9)
        × (((filled <ℤ pos 9) × (h.cancellations ≡ (7, filled) ∷ []))
            ⊎ ((filled ≡ pos 9) × (h.cancellations ≡ []))))
process_order_command-released_example =
    process_order_command-released settles clock "KCN/EUR" 7 bid "Market" none (pos 9) none
      sample_book market_word (omega arith) sample_book-IsValid
