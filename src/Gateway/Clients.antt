-- ===== src/Gateway/Clients.antt =====
-- gateway/src/websocket.rs: `ChannelManager`, what the gateway knows of its connections; and the client
-- ids of gateway/src/state.rs. A client's sender is named by a number. The log is left out.
pub mod Agreeing
pub mod Leaving
use Prim.Native.String.{String}
use mexchange_study.Common.{
  ℕ, ◌+◌, ◌%◌, ◌^◌, Bool, true, false, ◌||◌, Option, none, some, List, [], ◌∷◌, ◌==◌, if◌then◌else◌,
}
use mexchange_study.Common.IdMap
use mexchange_study.Common.IdMap.{IdMap}
use mexchange_study.Common.TextMap
use mexchange_study.Common.TextMap.{TextMap}

pub record StrategyStatus : Type 0 where
  pub strategy : String
  pub running : Bool
  pub uptime_secs : Option ℕ

pub record ChannelManager : Type 0 where
  -- a set of client ids for each channel
  pub subscribers : TextMap (List ℕ)
  pub client_senders : IdMap ℕ
  pub authenticated_users : IdMap ℕ
  pub user_to_client : IdMap ℕ
  pub order_owners : IdMap ℕ
  pub bot_client_id : Option ℕ
  pub last_bot_status : Option (List StrategyStatus)

unfoldable pub new_manager : ChannelManager
new_manager = record {
  subscribers = [];
  client_senders = [];
  authenticated_users = [];
  user_to_client = [];
  order_owners = [];
  bot_client_id = none;
  last_bot_status = none;
}

-- `HashSet::contains`, `insert` and `remove`
unfoldable pub contains : ℕ → List ℕ → Bool
contains id [] = false
contains id (x ∷ xs) = id == x || contains id xs

unfoldable pub add_member : ℕ → List ℕ → List ℕ
add_member id xs = if contains id xs then xs else id ∷ xs

unfoldable pub remove_member : ℕ → List ℕ → List ℕ
remove_member id [] = []
remove_member id (x ∷ xs) = let rest = remove_member id xs in if id == x then rest else x ∷ rest

unfoldable pub register_bot : ℕ → ℕ → ChannelManager → ChannelManager
register_bot client sender m = record m {
  bot_client_id = some client;
  client_senders = IdMap.insert client sender m.client_senders;
}

-- What `handle_websocket_connection` does first.
unfoldable pub connect : ℕ → ℕ → ChannelManager → ChannelManager
connect client sender m = record m { client_senders = IdMap.insert client sender m.client_senders }

unfoldable pub is_bot_connected : ChannelManager → Bool
is_bot_connected m = elim m.bot_client_id [ none ↦ false | some id ↦ true ]

unfoldable pub get_bot_sender : ChannelManager → Option ℕ
get_bot_sender m = elim m.bot_client_id [ none ↦ none | some id ↦ IdMap.get id m.client_senders ]

unfoldable pub set_bot_status : List StrategyStatus → ChannelManager → ChannelManager
set_bot_status status m = record m { last_bot_status = some status }

unfoldable pub get_bot_status : ChannelManager → Option (List StrategyStatus)
get_bot_status m = m.last_bot_status

unfoldable pub authenticate_client : ℕ → ℕ → ChannelManager → ChannelManager
authenticate_client client user m =
    let users : IdMap ℕ = elim (IdMap.get user m.user_to_client) [
      | none ↦ m.authenticated_users
      | some old_client ↦ IdMap.remove old_client m.authenticated_users
    ] in
    record m {
      authenticated_users = IdMap.insert client user users;
      user_to_client = IdMap.insert user client m.user_to_client;
    }

unfoldable pub get_user_id : ℕ → ChannelManager → Option ℕ
get_user_id client m = IdMap.get client m.authenticated_users

unfoldable pub register_order : ℕ → ℕ → ChannelManager → ChannelManager
register_order order user m = record m { order_owners = IdMap.insert order user m.order_owners }

unfoldable pub get_order_owner : ℕ → ChannelManager → Option ℕ
get_order_owner order m = IdMap.get order m.order_owners

unfoldable pub get_client_for_user : ℕ → ChannelManager → Option ℕ
get_client_for_user user m = IdMap.get user m.user_to_client

-- `get(channel)`, or the empty set
unfoldable pub get_subscribers : String → ChannelManager → List ℕ
get_subscribers channel m = elim (TextMap.get channel m.subscribers) [
  | none ↦ []
  | some subs ↦ subs
]

unfoldable pub get_sender : ℕ → ChannelManager → Option ℕ
get_sender client m = IdMap.get client m.client_senders

unfoldable pub subscribe : ℕ → String → ℕ → ChannelManager → ChannelManager
subscribe client channel sender m = record m {
  subscribers =
      TextMap.insert channel (add_member client (get_subscribers channel m)) m.subscribers;
  client_senders = IdMap.insert client sender m.client_senders;
}

-- A channel that has lost its last subscriber is dropped.
unfoldable pub leave_channel : ℕ → String → TextMap (List ℕ) → TextMap (List ℕ)
leave_channel client channel m = elim (TextMap.get channel m) [
  | none ↦ m
  | some subs ↦ elim (remove_member client subs) [
    | [] ↦ TextMap.remove channel m
    | x ∷ xs ↦ TextMap.insert channel (x ∷ xs) m
  ]
]

unfoldable pub unsubscribe : ℕ → String → ChannelManager → ChannelManager
unsubscribe client channel m = record m { subscribers = leave_channel client channel m.subscribers }

-- The channels that `remove_client` collects, and its loop over them.
unfoldable pub channels_of : ℕ → TextMap (List ℕ) → List String
channels_of client [] = []
channels_of client ((channel, subs) ∷ m) =
    let rest = channels_of client m in if contains client subs then channel ∷ rest else rest

unfoldable pub leave_all : ℕ → List String → TextMap (List ℕ) → TextMap (List ℕ)
leave_all client [] m = m
leave_all client (channel ∷ channels) m = leave_all client channels (leave_channel client channel m)

-- Whether the client is the bot.
unfoldable pub is_bot : ℕ → ChannelManager → Bool
is_bot client m = elim m.bot_client_id [ none ↦ false | some id ↦ id == client ]

unfoldable pub remove_client : ℕ → ChannelManager → ChannelManager
remove_client client m =
    let user = IdMap.get client m.authenticated_users in
    let bot = is_bot client m in
    record m {
      subscribers = leave_all client (channels_of client m.subscribers) m.subscribers;
      authenticated_users = IdMap.remove client m.authenticated_users;
      user_to_client = elim user [
        | none ↦ m.user_to_client
        | some u ↦ IdMap.remove u m.user_to_client
      ];
      client_senders = IdMap.remove client m.client_senders;
      bot_client_id = if bot then none else m.bot_client_id;
      last_bot_status = if bot then none else m.last_bot_status;
    }

-- `add_client`: the id that a new connection gets, and the next one. Ids are u64.
unfoldable pub add_client : ℕ → ℕ × ℕ
add_client next = (next, (next + 1) % 2 ^ 64)
