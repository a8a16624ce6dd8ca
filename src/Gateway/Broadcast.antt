-- ===== src/Gateway/Broadcast.antt =====
-- gateway/src/server.rs: the task that applies the market events and sends the notifications to the
-- subscribers, and gateway/src/websocket.rs: the events that only the owner of an order gets. Serializing
-- does not fail; the log is left out.
pub mod Subscribers
use Prim.Native.String
use Prim.Native.String.{String}
use mexchange_study.Common.{ℕ, Bool, true, false, Option, none, some, List, [], ◌∷◌, ◌++◌, ◌==◌}
use mexchange_study.Common.TextMap
use mexchange_study.Common.TextMap.{TextMap}
use mexchange_study.Events.{
  MarketEvent, fill, order_book_snapshot, order_book_delta, order_accepted, order_cancelled,
  order_filled,
}
use mexchange_study.Gateway.State.{Doubles, ChannelNotification, OrderBookState, new_state}
use mexchange_study.Gateway.Updates.{apply_orderbook_update}
use mexchange_study.Gateway.Quotes.{get_ticker_notification, get_lwt_notification}
use mexchange_study.Gateway.Clients.{
  ChannelManager, get_order_owner, get_client_for_user, get_subscribers, get_sender,
}
use mexchange_study.Gateway.Remote.{Message, book_message, ticker_message, lwt_message}

-- The symbol of an event that concerns a book.
unfoldable pub symbol_of : MarketEvent → Option String
symbol_of (order_book_snapshot symbol sequence bids asks) = some symbol
symbol_of (order_book_delta symbol sequence deltas) = some symbol
symbol_of (fill symbol buy sell price quantity timestamp) = some symbol
symbol_of (order_accepted order side order_type price quantity) = none
symbol_of (order_cancelled order quantity) = none
symbol_of (order_filled order) = none

-- `format!("book.{}.none.10.100ms", symbol)` and the two channels at 1000ms
unfoldable pub book_channel : String → String
book_channel symbol = String.◌++◌ "book." (String.◌++◌ symbol ".none.10.100ms")

unfoldable pub ticker_channel : String → String
ticker_channel symbol = String.◌++◌ "ticker." (String.◌++◌ symbol ".1000ms")

unfoldable pub lwt_channel : String → String
lwt_channel symbol = String.◌++◌ "lwt." (String.◌++◌ symbol ".1000ms")

-- The loop over a channel's subscribers: what is sent to which sender.
unfoldable pub send_to_each {ℓ} : {M : Type ℓ} → M → List ℕ → ChannelManager → List (ℕ × M)
send_to_each message [] m = []
send_to_each message (client ∷ clients) m =
    let rest = send_to_each message clients m in
    elim (get_sender client m) [ none ↦ rest | some sender ↦ (sender, message) ∷ rest ]

unfoldable pub send_to_channel {ℓ} : {M : Type ℓ} → M → String → ChannelManager → List (ℕ × M)
send_to_channel message channel m = send_to_each message (get_subscribers channel m) m

module _ (d : Doubles) where
  open d use {F}

  -- The book of a symbol, a new one if there is none.
  unfoldable pub state_or_new : String → TextMap (OrderBookState F) → OrderBookState F
  state_or_new symbol states = elim (TextMap.get symbol states) [ none ↦ new_state d | some s ↦ s ]

  -- What is sent for a notification of a symbol's book.
  unfoldable pub broadcast :
      F → String → ChannelNotification F → OrderBookState F → ChannelManager → List (ℕ × Message F)
  broadcast now symbol n s m =
      send_to_channel (book_message (book_channel symbol) n) (book_channel symbol) m
      ++ (send_to_channel (ticker_message (get_ticker_notification d now symbol "1000ms" s))
            (ticker_channel symbol) m
          ++ send_to_channel (lwt_message (get_lwt_notification d symbol "1000ms" s))
              (lwt_channel symbol) m)

  -- One round of the task.
  unfoldable pub on_market_event :
      F
      → MarketEvent
      → ChannelManager
      → TextMap (OrderBookState F)
      → TextMap (OrderBookState F) × List (ℕ × Message F)
  on_market_event now e m states = elim (symbol_of e) [
    | none ↦ (states, [])
    | some symbol ↦
        let (s, notification) = apply_orderbook_update d now e (state_or_new symbol states) in
        (
          TextMap.insert symbol s states,
          elim notification [ none ↦ [] | some n ↦ broadcast now symbol n s m ],
        )
  ]

  unfoldable pub on_market_events :
      F
      → List MarketEvent
      → ChannelManager
      → TextMap (OrderBookState F)
      → TextMap (OrderBookState F)
  on_market_events now [] m states = states
  on_market_events now (e ∷ es) m states =
      on_market_events now es m (on_market_event now e m states).0

-- Whether the client is the one that the owner of the order is looked up by.
unfoldable pub is_owner : ℕ → ℕ → ChannelManager → Bool
is_owner client order m = elim (get_order_owner order m) [
  | none ↦ false
  | some user ↦ elim (get_client_for_user user m) [ none ↦ false | some owner ↦ owner == client ]
]

-- Whether a client's task passes an event on to it.
unfoldable pub receives : ℕ → MarketEvent → ChannelManager → Bool
receives client (order_filled order) m = is_owner client order m
receives client (order_cancelled order quantity) m = is_owner client order m
receives client _ m = false
