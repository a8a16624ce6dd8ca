-- ===== src/Publisher.antt =====
-- matching_engine_service/src/main.rs: `OrderBookPublisher`, which sends the top of the book to the
-- gateway, whole or as the changes since the last time.
use Prim.Native.String.{String}
use mexchange_study.Common.{
  ℕ, ◌+◌, ◌%◌, ◌^◌, Bool, true, false, Option, none, some, List, [], ◌∷◌, ◌++◌, map, ℤ, pos, leb,
  eqb_ℤ, if◌then◌else◌,
}
use mexchange_study.Common.SortedMap
use mexchange_study.Common.SortedMap.{SortedMap}
use mexchange_study.Engine.Orders.{Side, bid, ask, OrderBook}
use mexchange_study.Engine.Queries.{get_bids, get_asks}
use mexchange_study.Events.{
  add, update, remove, LevelDelta, Level, MarketEvent, order_book_snapshot, order_book_delta,
}

abbrev pub max_levels : ℕ
max_levels = 10

abbrev pub snapshot_interval : ℕ
snapshot_interval = 10

pub record Publisher : Type 0 where
  pub prev_bids : SortedMap ℤ
  pub prev_asks : SortedMap ℤ
  pub sequence : ℕ
  pub updates_since_snapshot : ℕ

-- `OrderBookPublisher::new`
unfoldable pub new_publisher : Publisher
new_publisher = record {
  prev_bids = [];
  prev_asks = [];
  sequence = 0;
  updates_since_snapshot = snapshot_interval;
}

unfoldable pub should_send_snapshot : Publisher → Bool
should_send_snapshot p = leb snapshot_interval p.updates_since_snapshot

-- `iter().cloned().collect()` into a BTreeMap: a later entry replaces an earlier one.
unfoldable pub collect_from : List (ℤ × ℤ) → SortedMap ℤ → SortedMap ℤ
collect_from [] m = m
collect_from ((price, quantity) ∷ levels) m =
    collect_from levels (SortedMap.insert price quantity m)

unfoldable pub collect : List (ℤ × ℤ) → SortedMap ℤ
collect levels = collect_from levels []

-- The entry for one price of the new map, if it has changed.
unfoldable pub change : Side → Option ℤ → ℤ → ℤ → List LevelDelta
change side (some old) price quantity =
    if eqb_ℤ old quantity
    then []
    else record { action = update; side = side; price = price; quantity = quantity } ∷ []
change side none price quantity =
    record { action = add; side = side; price = price; quantity = quantity } ∷ []

-- The loop over the new map.
unfoldable pub changes : Side → SortedMap ℤ → SortedMap ℤ → List LevelDelta
changes side prev [] = []
changes side prev ((price, quantity) ∷ new) =
    change side (SortedMap.get price prev) price quantity ++ changes side prev new

-- The loop over the keys of the old map.
unfoldable pub removal : Side → Option ℤ → ℤ → List LevelDelta
removal side (some quantity) price = []
removal side none price =
    record { action = remove; side = side; price = price; quantity = pos 0 } ∷ []

unfoldable pub removals : Side → SortedMap ℤ → SortedMap ℤ → List LevelDelta
removals side [] new = []
removals side ((price, quantity) ∷ prev) new =
    removal side (SortedMap.get price new) price ++ removals side prev new

unfoldable pub compute_deltas : Publisher → List (ℤ × ℤ) → List (ℤ × ℤ) → List LevelDelta
compute_deltas p new_bids new_asks =
    let new_bid_map = collect new_bids in
    let new_ask_map = collect new_asks in
    changes bid p.prev_bids new_bid_map
    ++ (removals bid p.prev_bids new_bid_map
        ++ (changes ask p.prev_asks new_ask_map ++ removals ask p.prev_asks new_ask_map))

unfoldable pub update_state : List (ℤ × ℤ) → List (ℤ × ℤ) → Publisher → Publisher
update_state bids asks p = record p {
  prev_bids = collect bids;
  prev_asks = collect asks;
  sequence = (p.sequence + 1) % 2 ^ 64;
}

abbrev pub level_of : ℤ × ℤ → Level
level_of (price, quantity) = record { price = price; quantity = quantity }

unfoldable pub count_update : Publisher → Publisher
count_update p = record p { updates_since_snapshot = (p.updates_since_snapshot + 1) % 2 ^ 64 }

-- What `publish` hands to `send_event` for these levels, if anything.
unfoldable pub next_event : String → List (ℤ × ℤ) → List (ℤ × ℤ) → Publisher → Option MarketEvent
next_event symbol bids asks p =
    if should_send_snapshot p
    then some (order_book_snapshot symbol p.sequence (map level_of bids) (map level_of asks))
    else elim (compute_deltas p bids asks) [
      | [] ↦ none
      | d ∷ ds ↦ some (order_book_delta symbol p.sequence (d ∷ ds))
    ]

-- `publish`, with the outcome of `send_event`: the new state, the event that was sent and whether the
-- call succeeded. When the send fails the `?` returns before the state is touched.
unfoldable pub publish :
    (MarketEvent → Bool) → String → OrderBook → Publisher → Publisher × Option MarketEvent × Bool
publish send symbol book p =
    let bids = get_bids max_levels book in
    let asks = get_asks max_levels book in
    let reset = if should_send_snapshot p then record p { updates_since_snapshot = 0 } else p in
    let done = count_update (update_state bids asks reset) in
    elim (next_event symbol bids asks p) [
      | none ↦ (done, none, true)
      | some event ↦ if send event then (done, some event, true) else (p, none, false)
    ]
