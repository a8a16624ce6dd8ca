-- ===== src/Gateway/Handlers.antt =====
-- gateway/src/websocket.rs: what a client's request does, method by method. A request is handled as a whole,
-- for the answers and the sending that the outside has for it; the log is left out.
use Prim.Native.String.{String}
use mexchange_study.Common.{
  ℕ, zero, suc, Bool, Option, none, some, List, [], ◌∷◌, ◌++◌, if◌then◌else◌, same_text, split_at,
  ℤ,
}
use mexchange_study.Common.TextMap
use mexchange_study.Common.TextMap.{TextMap}
use mexchange_study.Accounts.Tables.{fine, failure}
use mexchange_study.Engine.Orders.{Side, bid, ask}
use mexchange_study.Events.{OrderCommand, place_order, cancel_order}
use mexchange_study.Gateway.State.{Doubles, OrderBookState}
use mexchange_study.Gateway.Updates.{get_orderbook_snapshot}
use mexchange_study.Gateway.Quotes.{get_ticker_notification, get_lwt_notification}
use mexchange_study.Gateway.Clients.{
  ChannelManager, StrategyStatus, set_bot_status, authenticate_client, get_user_id, register_order,
  subscribe, unsubscribe,
}
use mexchange_study.Gateway.Remote.{
  PlaceOrderParams, Formats, Answer, err_invalid_params, err_unauthorized, err_order_rejected,
  err_cancel_failed, auth_reply, channels_reply, order_reply, ok_reply, error_reply, book_message,
  ticker_message, lwt_message, Action, send, order_requested, cancel_requested, commanded,
  validate_token, create_order_in_accounts, cancel_order_in_accounts,
}

pub data Method : Type 0 where
  public_auth public_subscribe private_subscribe unsubscribe_channels : Method
  private_place_order private_cancel_order : Method
  private_register_bot private_bot_status unknown : Method

-- The match on the method's name.
unfoldable pub method_of : String → Method
method_of name =
    if same_text name "public/auth"
    then public_auth
    else if same_text name "public/subscribe"
    then public_subscribe
    else if same_text name "private/subscribe"
    then private_subscribe
    else if same_text name "unsubscribe"
    then unsubscribe_channels
    else if same_text name "private/place_order"
    then private_place_order
    else if same_text name "private/cancel_order"
    then private_cancel_order
    else if same_text name "private/register_bot"
    then private_register_bot
    else if same_text name "private/bot_status"
    then private_bot_status
    else unknown

-- `parts.get(n)` and `parts.last()`, with their defaults
unfoldable pub part : ℕ → String → List String → String
part n default [] = default
part zero default (p ∷ ps) = p
part (suc n) default (p ∷ ps) = part n default ps

unfoldable pub last_part : String → List String → String
last_part default [] = default
last_part default (p ∷ ps) = last_part p ps

-- The match on a side's name.
unfoldable pub side_of : String → Option Side
side_of name =
    if same_text name "bid" then some bid else if same_text name "ask" then some ask else none

-- What the outside has for a request: the accounts service's answers, for a token, for an order of a
-- user and for a cancelled order of a user; whether a command can be handed to the sender; the time.
pub record Outside (F : Type 0) : Type 0 where
  pub me : String → Answer
  pub create : PlaceOrderParams → ℕ → Answer
  pub cancel : String → ℕ → Answer
  pub sends : OrderCommand → Bool
  pub now : F

module _ (d : Doubles) (f : Formats) where
  open d use {F}

  abbrev pub Handling : Type 0
  Handling = ChannelManager × List (Action F)

  -- `invalid params` with the message for the method
  unfoldable pub invalid : String → String → ChannelManager → Handling
  invalid id message m = (m, send (error_reply id err_invalid_params message) ∷ [])

  unfoldable pub not_authenticated : String → ChannelManager → Handling
  not_authenticated id m = (m, send (error_reply id err_unauthorized "Not authenticated") ∷ [])

  module _ (w : Outside F) (client : ℕ) (tx : ℕ) (id : String) where
    unfoldable pub handle_auth : Option String → ChannelManager → Handling
    handle_auth none m = invalid id "Invalid params: expected {token: string}" m
    handle_auth (some token) m = elim (validate_token f (w.me token)) [
      | failure e ↦ (m, send (error_reply id err_unauthorized e) ∷ [])
      | fine user ↦ (
        authenticate_client client user m,
        send (auth_reply id token "bearer" (f.print_uuid user)) ∷ [],
      )
    ]

    -- What is sent at once for a channel of a symbol that has a book.
    unfoldable pub initial_message :
        String → String → String → String → OrderBookState F → List (Action F)
    initial_message channel channel_type symbol interval s =
        if same_text channel_type "book"
        then send (book_message channel (get_orderbook_snapshot d w.now symbol s)) ∷ []
        else if same_text channel_type "ticker"
        then send (ticker_message (get_ticker_notification d w.now symbol interval s)) ∷ []
        else if same_text channel_type "lwt"
        then send (lwt_message (get_lwt_notification d symbol interval s)) ∷ []
        else []

    unfoldable pub initial_messages : String → TextMap (OrderBookState F) → List (Action F)
    initial_messages channel states =
        let parts = split_at 46 channel in
        let symbol = part 1 "KCN/EUR" parts in
        elim (TextMap.get symbol states) [
          | none ↦ []
          | some s ↦ initial_message channel (part 0 "" parts) symbol (last_part "1000ms" parts) s
        ]

    unfoldable pub subscribe_to :
        List String → TextMap (OrderBookState F) → ChannelManager → Handling
    subscribe_to [] states m = (m, [])
    subscribe_to (channel ∷ channels) states m =
        let (m', actions) = subscribe_to channels states (subscribe client channel tx m) in
        (m', initial_messages channel states ++ actions)

    unfoldable pub handle_subscribe :
        Option (List String) → TextMap (OrderBookState F) → ChannelManager → Handling
    handle_subscribe none states m = invalid id "Invalid params: expected {channels: string[]}" m
    handle_subscribe (some channels) states m =
        let (m', actions) = subscribe_to channels states m in
        (m', actions ++ send (channels_reply id channels) ∷ [])

    -- The loops of `private/subscribe` and `unsubscribe`.
    unfoldable pub subscribe_quietly : List String → ChannelManager → ChannelManager
    subscribe_quietly [] m = m
    subscribe_quietly (channel ∷ channels) m =
        subscribe_quietly channels (subscribe client channel tx m)

    unfoldable pub unsubscribe_all : List String → ChannelManager → ChannelManager
    unsubscribe_all [] m = m
    unsubscribe_all (channel ∷ channels) m = unsubscribe_all channels (unsubscribe client channel m)

    unfoldable pub handle_private_subscribe : Option (List String) → ChannelManager → Handling
    handle_private_subscribe params m = elim (get_user_id client m) [
      | none ↦ not_authenticated id m
      | some user ↦ elim params [
        | none ↦ invalid id "Invalid params: expected {channels: string[]}" m
        | some channels ↦ (subscribe_quietly channels m, send (channels_reply id channels) ∷ [])
      ]
    ]

    unfoldable pub handle_unsubscribe : Option (List String) → ChannelManager → Handling
    handle_unsubscribe none m = invalid id "Invalid params: expected {channels: string[]}" m
    handle_unsubscribe (some channels) m =
        (unsubscribe_all channels m, send (channels_reply id channels) ∷ [])

    -- An order that the accounts service has created is registered, and its side is read only then.
    unfoldable pub submit : PlaceOrderParams → ℕ → ℕ → ℤ → ChannelManager → Handling
    submit p user order quantity m =
        let m' = register_order order user m in
        elim (side_of p.side) [
          | none ↦ invalid id "Invalid side" m'
          | some side ↦
              let command = place_order order side p.order_type p.price quantity (some user) in
              (
                m',
                commanded command
                    ∷ send (
                        if w.sends command
                        then order_reply id (f.print_uuid order)
                        else error_reply id err_order_rejected
                            "Failed to submit to matching engine")
                    ∷ [],
              )
        ]

    unfoldable pub place_for : ℕ → PlaceOrderParams → ChannelManager → Handling
    place_for user p m = elim (create_order_in_accounts f (w.create p user)) [
      | failure e ↦ (m, order_requested p user ∷ send (error_reply id err_order_rejected e) ∷ [])
      | fine (order, quantity) ↦
          let (m', actions) = submit p user order quantity m in
          (m', order_requested p user ∷ actions)
    ]

    unfoldable pub handle_place_order : Option PlaceOrderParams → ChannelManager → Handling
    handle_place_order params m = elim (get_user_id client m) [
      | none ↦ not_authenticated id m
      | some user ↦ elim params [
        | none ↦ invalid id "Invalid params for place_order" m
        | some p ↦ place_for user p m
      ]
    ]

    -- The outcome of handing the cancellation to the engine only goes to the log.
    unfoldable pub cancel_for : ℕ → String → ChannelManager → Handling
    cancel_for user text m = elim (f.parse_uuid text) [
      | none ↦ invalid id "Invalid order ID" m
      | some order ↦ elim (cancel_order_in_accounts f (w.cancel text user)) [
        | none ↦ (
          m,
          cancel_requested text user
              ∷ commanded (cancel_order order (some user))
              ∷ send (order_reply id text)
              ∷ [],
        )
        | some e ↦ (m, cancel_requested text user ∷ send (error_reply id err_cancel_failed e) ∷ [])
      ]
    ]

    unfoldable pub handle_cancel_order : Option String → ChannelManager → Handling
    handle_cancel_order params m = elim (get_user_id client m) [
      | none ↦ not_authenticated id m
      | some user ↦ elim params [
        | none ↦ invalid id "Invalid params: expected {order_id: string}" m
        | some text ↦ cancel_for user text m
      ]
    ]

    unfoldable pub handle_bot_status : Option (List StrategyStatus) → ChannelManager → Handling
    handle_bot_status none m = invalid id "Invalid params for bot_status" m
    handle_bot_status (some status) m = (set_bot_status status m, send (ok_reply id) ∷ [])
