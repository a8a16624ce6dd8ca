-- ===== src/Gateway/Broadcast/Subscribers.antt =====
-- gateway/src/server.rs: who gets a notification, and which events make a book.
use Prim.Native.String.{String}
use mexchange_study.Common.{
  ℕ, ◌≡◌, refl, sym, ap, ◌∙◌, ◌⊎◌, inl, inr, Bool, true, false, Option, none, some, List, [], ◌∷◌,
  arith, if◌then◌else◌, Bool-cases, Option-cases, same_text, same_text→eq,
}
use mexchange_study.Common.TextMap
use mexchange_study.Common.TextMap.{TextMap}
use mexchange_study.Events.{MarketEvent}
use mexchange_study.Gateway.State.{Doubles, OrderBookState}
use mexchange_study.Gateway.Updates.{apply_orderbook_update}
use mexchange_study.Gateway.Clients.{ChannelManager, contains, get_sender}
use mexchange_study.Gateway.Broadcast.{symbol_of, state_or_new, on_market_event, on_market_events}

module _ {M : Type 0} where
  -- The message goes to the sender.
  abbrev pub Goes : ℕ → M → List (ℕ × M) → Type 0
  Goes tx message [] = ⊥
  Goes tx message ((sender, other) ∷ more) =
      ((sender ≡ tx) × (other ≡ message)) ⊎ Goes tx message more

  -- Each message that is sent goes to a subscriber.
  abbrev pub ToSubscribers : M → List ℕ → ChannelManager → List (ℕ × M) → Type 0
  ToSubscribers message clients m [] = Unit
  ToSubscribers message clients m ((sender, other) ∷ more) =
      ((other ≡ message)
        × ((client : ℕ) × (contains client clients ≡ true) × (get_sender client m ≡ some sender)))
      × ToSubscribers message clients m more

-- The events of a symbol, in order.
abbrev is_of : String → Option String → Bool
is_of symbol none = false
is_of symbol (some s) = same_text symbol s

abbrev pub own_events : String → List MarketEvent → List MarketEvent
own_events symbol [] = []
own_events symbol (e ∷ es) =
    let rest = own_events symbol es in if is_of symbol (symbol_of e) then e ∷ rest else rest

module _ (d : Doubles) where
  open d use {F}

  -- One event after another, on one book.
  abbrev pub apply_all : F → List MarketEvent → OrderBookState F → OrderBookState F
  apply_all now [] s = s
  apply_all now (e ∷ es) s = apply_all now es (apply_orderbook_update d now e s).0

  state_or_new-insert :
      (symbol s : String) (v : OrderBookState F) (states : TextMap (OrderBookState F))
      → state_or_new d symbol (TextMap.insert s v states)
        ≡ (if same_text symbol s then v else state_or_new d symbol states)
  unfolding state_or_new
  state_or_new-insert symbol s v states = ground (arith, TextMap.get-insert symbol s v states)

  own_step :
      (now : F) (e : MarketEvent) (es : List MarketEvent) (symbol : String) (s : OrderBookState F)
      → apply_all now
          (own_events symbol es)
          (if is_of symbol (symbol_of e) then (apply_orderbook_update d now e s).0 else s)
        ≡ apply_all now (own_events symbol (e ∷ es)) s
  own_step now e es symbol s = elim (Bool-cases (is_of symbol (symbol_of e))) [
    | inl own ↦ rw (own, own_events) refl
    | inr other ↦ rw (other, own_events) refl
  ]

  on_market_event-own :
      (now : F) (e : MarketEvent) (m : ChannelManager) (states : TextMap (OrderBookState F))
      (symbol : String)
      → state_or_new d symbol (on_market_event d now e m states).0 ≡ (
          if is_of symbol (symbol_of e)
          then (apply_orderbook_update d now e (state_or_new d symbol states)).0
          else state_or_new d symbol states)
  unfolding on_market_event
  on_market_event-own now e m states symbol = elim (Option-cases (symbol_of e)) [
    | inl h ↦ rw (h, on_market_event) refl
    | inr (s, h) ↦
        let s' = (apply_orderbook_update d now e (state_or_new d s states)).0 in
        rw (h, on_market_event)
          (state_or_new-insert symbol s s' states ∙ elim (Bool-cases (same_text symbol s)) [
            | inr other ↦ rw other refl
            | inl same ↦ rw same (
                ap (λ (x : String). (apply_orderbook_update d now e (state_or_new d x states)).0)
                  (sym (same_text→eq symbol s same)))
          ])
  ]

  -- The book that the gateway keeps for a symbol is what that symbol's own events make of it, in their
  -- order: the events of other symbols, and those of orders, do not touch it.
  pub on_market_events-own :
      (now : F) (es : List MarketEvent) (m : ChannelManager) (states : TextMap (OrderBookState F))
      (symbol : String)
      → state_or_new d symbol (on_market_events d now es m states)
        ≡ apply_all now (own_events symbol es) (state_or_new d symbol states)
  unfolding on_market_events
  on_market_events-own now [] m states symbol = refl
  on_market_events-own now (e ∷ es) m states symbol =
      on_market_events-own now es m (on_market_event d now e m states).0 symbol
      ∙ ap (apply_all now (own_events symbol es)) (on_market_event-own now e m states symbol)
      ∙ own_step now e es symbol (state_or_new d symbol states)
