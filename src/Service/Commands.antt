-- ===== src/Service/Commands.antt =====
-- matching_engine_service/src/main.rs: `process_order_command`.
use Prim.Native.String.{String}
use mexchange_study.Common.{
  ℕ, suc, Bool, true, false, ◌&&◌, Option, none, some, List, [], ◌∷◌, ◌++◌, map, if◌then◌else◌, ℤ,
  pos, ◌+ℤ◌, ltb_ℤ, codes, same_codes, lower_all,
}
use mexchange_study.Engine.Orders.{Side, Fill, OrderResult, OrderBook}
use mexchange_study.Engine.Operations.{
  add_limit_order, add_market_order, cancel_order as cancel_in_book,
}
use mexchange_study.Events.{
  MarketEvent, fill, order_accepted, order_cancelled, order_filled, OrderCommand, place_order,
  cancel_order,
}
use mexchange_study.Service.Settlement.{SettlementResult, success, skipped, failed}

-- `order_type.to_lowercase() == "market"`
unfoldable pub is_market : String → Bool
is_market order_type = same_codes (lower_all (codes order_type)) (codes "market")

-- What a command has done: the book, the fills sent to be settled, the cancellations asked of the
-- accounts service, the events sent, and whether the call returned Ok.
pub record Handled : Type 0 where
  pub book : OrderBook
  pub requested : List Fill
  pub cancellations : List (ℕ × ℤ)
  pub events : List MarketEvent
  pub succeeded : Bool

-- `settle` is `settle_fill` for a fill and the time in ms, which `now` gives by the fill's place;
-- `send` is the outcome of `send_event`.
module _ (settle : Fill → ℕ → SettlementResult) (now : ℕ → ℕ) (send : MarketEvent → Bool) where
  unfoldable pub is_settled : SettlementResult → Bool
  is_settled (success r) = true
  is_settled skipped = true
  is_settled (failed reason) = false

  -- The loop over the fills; a failed one is left out and the loop goes on.
  unfoldable pub settle_fills : ℕ → List Fill → List (Fill × ℕ)
  settle_fills n [] = []
  settle_fills n (f ∷ fs) =
      let rest = settle_fills (suc n) fs in
      if is_settled (settle f (now n)) then (f, now n) ∷ rest else rest

  unfoldable pub fill_event : String → Fill × ℕ → MarketEvent
  fill_event symbol (f, timestamp) =
      fill symbol f.buy_order_id f.sell_order_id f.price f.quantity timestamp

  unfoldable pub sum_settled : ℤ → List (Fill × ℕ) → ℤ
  sum_settled total [] = total
  sum_settled total ((f, timestamp) ∷ fs) = sum_settled (total +ℤ f.quantity) fs

  -- Events are sent one after the other, until a send fails.
  unfoldable pub send_events : List MarketEvent → List MarketEvent × Bool
  send_events [] = ([], true)
  send_events (e ∷ es) =
      let (sent, fine) = send_events es in if send e then (e ∷ sent, fine) else ([], false)

  -- The effects before an event and the event itself, step by step.
  unfoldable pub send_next : List MarketEvent → Handled → Handled
  send_next es h =
      let (sent, fine) = send_events es in
      if h.succeeded then record h { events = h.events ++ sent; succeeded = fine } else h

  -- The cancellation of what a market order left unfilled. The answer of the accounts service is not
  -- looked at.
  unfoldable pub cancel_unfilled : Bool → ℕ → ℤ → ℤ → Handled → Handled
  cancel_unfilled market_order id filled quantity h =
      if h.succeeded && (market_order && ltb_ℤ filled quantity)
      then send_next (order_cancelled id filled ∷ [])
          (record h { cancellations = h.cancellations ++ (id, filled) ∷ [] })
      else h

  unfoldable pub after_matching :
      String → ℕ → Side → String → Option ℤ → ℤ → OrderBook → OrderResult → Handled
  after_matching symbol id side order_type price quantity book result =
      let settled = settle_fills 0 result.fills in
      let filled = sum_settled (pos 0) settled in
      let start : Handled = record {
        book = book;
        requested = result.fills;
        cancellations = [];
        events = [];
        succeeded = true;
      } in
      send_next
        (order_accepted result.order_id side order_type price quantity
          ∷ map order_filled result.completed_orders)
        (cancel_unfilled (is_market order_type) result.order_id filled quantity
          (send_next (map (fill_event symbol) settled) start))

  abbrev pub refused : OrderBook → Handled
  refused book = record {
    book = book;
    requested = [];
    cancellations = [];
    events = [];
    succeeded = false;
  }

  -- `process_order_command`; `none` is a panic in the engine.
  unfoldable pub process_order_command : String → OrderCommand → OrderBook → Option Handled
  process_order_command symbol (place_order id side order_type price quantity user) book =
      if is_market order_type
      then (let (book', result) = add_market_order id side quantity book in
          some (after_matching symbol id side order_type price quantity book' result))
      else elim price [
        | none ↦ some (refused book)
        | some p ↦ elim (add_limit_order id side p quantity book) [
          | none ↦ none
          | some (book', result) ↦
              some (after_matching symbol id side order_type (some p) quantity book' result)
        ]
      ]
  process_order_command symbol (cancel_order id user) book =
      let (book', cancelled) = cancel_in_book id book in
      let start : Handled = record {
        book = book';
        requested = [];
        cancellations = [];
        events = [];
        succeeded = true;
      } in
      some (if cancelled then send_next (order_cancelled id (pos 0) ∷ []) start else start)
