-- ===== src/Gateway/Sessions/Tests.antt =====
-- The theorems about the gateway's clients, on concrete connections.
use Prim.Native.String.{String}
use mexchange_study.Common.{
  ℕ, ◌≡◌, refl, true, false, none, some, List, [], ◌∷◌, if◌then◌else◌, All, same_text,
}
use mexchange_study.Common.TextMap
use mexchange_study.Common.TextMap.{TextMap}
use mexchange_study.Common.IdMap
use mexchange_study.Accounts.Tables.{fine}
use mexchange_study.Gateway.Clients.{
  ChannelManager, authenticate_client, get_user_id, subscribe, remove_client,
}
use mexchange_study.Gateway.Remote.{PlaceOrderParams, ClientRequest, Formats, validate_token}
use mexchange_study.Gateway.Handlers.{method_of, Outside, handle_auth}
use mexchange_study.Gateway.Sessions.{handle_request}
use mexchange_study.Common.{◌==◌, pos}
use mexchange_study.Gateway.Remote.{answered}
use mexchange_study.Gateway.Clients.{
  new_manager, connect, contains, get_subscribers, get_sender, get_client_for_user, is_bot,
}
use mexchange_study.Gateway.Clients.Leaving.{remove_client-only}
use mexchange_study.Gateway.Sessions.Commanding.{Permitted, commands, handle_request-Permitted}
use mexchange_study.Gateway.Sessions.Serving.{started, connected, requested, Served-one_client}
use mexchange_study.Gateway.Broadcast.{state_or_new, on_market_events}
use mexchange_study.Gateway.Broadcast.Subscribers.{own_events, apply_all, on_market_events-own}
use mexchange_study.Events.{MarketEvent, fill, order_filled}
use mexchange_study.Gateway.Tests.{numbers}

-- The parameters of a request, as what they can be read as.
data Params : Type 0 where
  token_params : String → Params
  channel_params : List String → Params
  order_params : PlaceOrderParams → Params
  cancel_params : String → Params
  no_params : Params

abbrev sample_order : PlaceOrderParams
sample_order = record {
  symbol = "KCN/EUR";
  side = "bid";
  order_type = "limit";
  price = some (pos 10);
  quantity = some (pos 5);
  quote_amount = none;
  max_slippage_price = none;
}

-- UUIDs are read from one known text, decimals from another.
abbrev formats : Formats
formats = record {
  Value = Params;
  request_of_text = λ t. none;
  auth_params = λ p. elim p [ token_params t ↦ some t | other ↦ none ];
  subscribe_params = λ p. elim p [ channel_params cs ↦ some cs | other ↦ none ];
  place_order_params = λ p. elim p [ order_params o ↦ some o | other ↦ none ];
  cancel_order_params = λ p. elim p [ cancel_params t ↦ some t | other ↦ none ];
  bot_status_params = λ p. none;
  me_of_body = λ t. fine t;
  order_of_body = λ t. fine (t, "5");
  error_of_body = λ t. none;
  parse_uuid = λ t. if same_text t "user" then some 77 else some 9;
  print_uuid = λ n. "id";
  parse_decimal = λ t. some (pos 5);
}

abbrev outside : Outside numbers.F
outside = record {
  me = λ t. answered true "user";
  create = λ p user. answered true "order";
  cancel = λ t user. answered true "";
  sends = λ c. true;
  now = 0;
}

abbrev request_of : String → Params → ClientRequest Params
request_of method params = record { id = "1"; method = method; params = params }

-- Client 3 is connected and authenticated as user 77.
abbrev signed_in : ChannelManager
signed_in =
    (handle_request numbers formats outside 3 3 (request_of "public/auth" (token_params "t")) []
      (connect 3 3 new_manager)).0

abbrev subscribed : ChannelManager
subscribed = subscribe 3 "book.KCN/EUR" 3 signed_in

handle_request-Permitted_example :
    All (Permitted numbers formats outside (get_user_id 3 signed_in)) (
      commands
        (handle_request numbers formats outside 3 3
          (request_of "private/place_order" (order_params sample_order))
          []
          signed_in).1)
handle_request-Permitted_example =
    handle_request-Permitted numbers formats outside 3 3
      (request_of "private/place_order" (order_params sample_order)) [] signed_in

signed_in_user : get_user_id 3 signed_in ≡ some 77
unfolding handle_request handle_auth validate_token authenticate_client method_of get_user_id
    connect new_manager IdMap.get IdMap.insert IdMap.remove
signed_in_user = refl

Served-one_client_example : (◌≡◌ {A = ℕ} 3 3) × (get_client_for_user 77 signed_in ≡ some 3)
Served-one_client_example =
    Served-one_client numbers formats signed_in 3 3 77
      (requested outside 3 3 (request_of "public/auth" (token_params "t")) []
        (connect 3 3 new_manager) (connected 3 3 new_manager started))
      signed_in_user signed_in_user

remove_client-only_example :
    let m' = remove_client 3 subscribed in
    (contains 3 (get_subscribers "book.KCN/EUR" m')
      ≡ (if 3 == 3 then false else contains 3 (get_subscribers "book.KCN/EUR" subscribed)))
    × (get_sender 3 m' ≡ (if 3 == 3 then none else get_sender 3 subscribed))
    × (get_user_id 3 m' ≡ (if 3 == 3 then none else get_user_id 3 subscribed))
    × (is_bot 3 m' ≡ (if 3 == 3 then false else is_bot 3 subscribed))
remove_client-only_example = remove_client-only 3 3 "book.KCN/EUR" subscribed

abbrev hello : String
hello = "hello"

abbrev two_fills : List MarketEvent
two_fills =
    fill "KCN/EUR" 1 2 (pos 10) (pos 1) 5
    ∷ order_filled 1
    ∷ fill "BTC/EUR" 3 4 (pos 9) (pos 1) 6
    ∷ []

on_market_events-own_example :
    state_or_new numbers "KCN/EUR" (on_market_events numbers 0 two_fills subscribed [])
    ≡ apply_all numbers 0 (own_events "KCN/EUR" two_fills) (state_or_new numbers "KCN/EUR" [])
on_market_events-own_example = on_market_events-own numbers 0 two_fills subscribed [] "KCN/EUR"
