-- ===== src/Gateway/Sessions.antt =====
-- gateway/src/websocket.rs: the loop that reads a client's requests.
pub mod Answering
pub mod Commanding
pub mod Refusing
pub mod Serving
mod Tests
use Prim.Native.String
use Prim.Native.String.{String}
use mexchange_study.Common.{
  ℕ, zero, suc, Bool, true, false, Option, none, some, List, [], ◌∷◌, ◌++◌, if◌then◌else◌,
  same_text, split_at, ℤ,
}
use mexchange_study.Common.TextMap
use mexchange_study.Common.TextMap.{TextMap}
use mexchange_study.Accounts.Tables.{Outcome, fine, failure}
use mexchange_study.Engine.Orders.{Side, bid, ask}
use mexchange_study.Events.{OrderCommand, place_order, cancel_order}
use mexchange_study.Gateway.State.{Doubles, OrderBookState}
use mexchange_study.Gateway.Updates.{get_orderbook_snapshot}
use mexchange_study.Gateway.Quotes.{get_ticker_notification, get_lwt_notification}
use mexchange_study.Gateway.Clients.{
  ChannelManager, StrategyStatus, register_bot, set_bot_status, authenticate_client, get_user_id,
  register_order, subscribe, unsubscribe, remove_client,
}
use mexchange_study.Gateway.Remote.{
  PlaceOrderParams, ClientRequest, Formats, Answer, err_invalid_params, err_method_not_found,
  err_unauthorized, err_order_rejected, err_cancel_failed, Message, auth_reply, channels_reply,
  order_reply, ok_reply, error_reply, book_message, ticker_message, lwt_message, Action, send,
  order_requested, cancel_requested, commanded, validate_token, create_order_in_accounts,
  cancel_order_in_accounts,
}
use mexchange_study.Gateway.Handlers.{
  Method, public_auth, public_subscribe, private_subscribe, unsubscribe_channels,
  private_place_order, private_cancel_order, private_register_bot, private_bot_status, unknown,
  method_of, Outside, Handling, handle_auth, handle_subscribe, handle_private_subscribe,
  handle_unsubscribe, handle_place_order, handle_cancel_order, handle_bot_status,
}

module _ (d : Doubles) (f : Formats) where
  open d use {F}

  module _ (w : Outside F) (client tx : ℕ) where
    unfoldable pub handle_request :
        ClientRequest f.Value → TextMap (OrderBookState F) → ChannelManager → Handling d f
    handle_request r states m = elim (method_of r.method) [
      | public_auth ↦ handle_auth d f w client tx r.id (f.auth_params r.params) m
      | public_subscribe ↦
          handle_subscribe d f w client tx r.id (f.subscribe_params r.params) states m
      | private_subscribe ↦
          handle_private_subscribe d f w client tx r.id (f.subscribe_params r.params) m
      | unsubscribe_channels ↦
          handle_unsubscribe d f w client tx r.id (f.subscribe_params r.params) m
      | private_place_order ↦
          handle_place_order d f w client tx r.id (f.place_order_params r.params) m
      | private_cancel_order ↦
          handle_cancel_order d f w client tx r.id (f.cancel_order_params r.params) m
      | private_register_bot ↦ (register_bot client tx m, send (ok_reply r.id) ∷ [])
      | private_bot_status ↦ handle_bot_status d f w client tx r.id (f.bot_status_params r.params) m
      | unknown ↦ (
        m,
        send (error_reply r.id err_method_not_found (String.◌++◌ "Method not found: " r.method))
            ∷ [],
      )
    ]

    -- A text that is no request is skipped.
    unfoldable pub handle_text : String → TextMap (OrderBookState F) → ChannelManager → Handling d f
    handle_text text states m = elim (f.request_of_text text) [
      | none ↦ (m, [])
      | some r ↦ handle_request r states m
    ]

-- Which of the two tasks of a connection ends first.
pub data EndedBy : Type 0 where
  reader writer : EndedBy

-- The end of a connection: `remove_client` stands at the end of the reading task, which is aborted when
-- the writing task ends first.
unfoldable pub end_connection : EndedBy → ℕ → ChannelManager → ChannelManager
end_connection reader client m = remove_client client m
end_connection writer client m = m
