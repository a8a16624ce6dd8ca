-- ===== src/Gateway/Sessions/Serving.antt =====
-- gateway/src/websocket.rs: the connections of all clients over time.
use Prim.Native.String.{String}
use mexchange_study.Common.{
  ℕ, ◌≡◌, refl, inl, inr, Option, none, some, List, [], ◌∷◌, arith, Option-cases,
}
use mexchange_study.Common.TextMap.{TextMap}
use mexchange_study.Common.IdMap
use mexchange_study.Accounts.Reconciling.{Outcome-cases}
use mexchange_study.Gateway.State.{Doubles, OrderBookState}
use mexchange_study.Gateway.Clients.{
  ChannelManager, register_bot, set_bot_status, get_user_id, register_order, subscribe, unsubscribe,
}
use mexchange_study.Gateway.Remote.{
  PlaceOrderParams, ClientRequest, Formats, validate_token, create_order_in_accounts,
  cancel_order_in_accounts,
}
use mexchange_study.Gateway.Handlers.{
  Method, public_auth, public_subscribe, private_subscribe, unsubscribe_channels,
  private_place_order, private_cancel_order, private_register_bot, private_bot_status, unknown,
  method_of, side_of, Outside, invalid, not_authenticated, subscribe_to, subscribe_quietly,
  unsubscribe_all, submit, place_for, cancel_for, handle_auth, handle_subscribe,
  handle_private_subscribe, handle_unsubscribe, handle_place_order, handle_cancel_order,
  handle_bot_status,
}
use mexchange_study.Gateway.Sessions.{handle_request}
use mexchange_study.Gateway.Clients.{new_manager, connect, get_client_for_user}
use mexchange_study.Gateway.Clients.Agreeing.{
  Agrees, authenticate_client-Agrees, remove_client-Agrees,
}
use mexchange_study.Gateway.Sessions.{EndedBy, reader, writer, end_connection}

-- The states that clients can bring the manager to: by connecting, by requests, whatever the outside has
-- for them, and by the ends of connections.
pub data Served (d : Doubles) (f : Formats) : ChannelManager → Type 0 where
  started : Served d f new_manager
  connected : (client tx : ℕ) (m : ChannelManager) → Served d f m → Served d f (connect client tx m)
  requested :
      (w : Outside d.F) (client tx : ℕ) (r : ClientRequest f.Value)
      (states : TextMap (OrderBookState d.F)) (m : ChannelManager)
      → Served d f m
      → Served d f (handle_request d f w client tx r states m).0
  ended :
      (by_task : EndedBy) (client : ℕ) (m : ChannelManager)
      → Served d f m
      → Served d f (end_connection by_task client m)

AgreesIn : ChannelManager → Type 0
AgreesIn m = Agrees m.authenticated_users m.user_to_client

-- Nobody is authenticated or forgotten.
SameUsers : ChannelManager → ChannelManager → Type 0
SameUsers m m' =
    (m'.authenticated_users ≡ m.authenticated_users) × (m'.user_to_client ≡ m.user_to_client)

same-AgreesIn : (m m' : ChannelManager) → SameUsers m m' → AgreesIn m → AgreesIn m'
unfolding SameUsers AgreesIn
same-AgreesIn m m' (a, b) h = rw (a, b, AgreesIn, Agrees) h

module _ (d : Doubles) (f : Formats) where
  open d use {F}

  module _ (w : Outside F) (client tx : ℕ) (id : String) where
    subscribe_to-SameUsers :
        (channels : List String) (states : TextMap (OrderBookState F)) (m : ChannelManager)
        → SameUsers m (subscribe_to d f w client tx id channels states m).0
    unfolding subscribe_to subscribe SameUsers
    subscribe_to-SameUsers [] states m = (refl, refl)
    subscribe_to-SameUsers (channel ∷ channels) states m =
        subscribe_to-SameUsers channels states (subscribe client channel tx m)

    subscribe_quietly-SameUsers :
        (channels : List String) (m : ChannelManager)
        → SameUsers m (subscribe_quietly d f w client tx id channels m)
    unfolding subscribe_quietly subscribe SameUsers
    subscribe_quietly-SameUsers [] m = (refl, refl)
    subscribe_quietly-SameUsers (channel ∷ channels) m =
        subscribe_quietly-SameUsers channels (subscribe client channel tx m)

    unsubscribe_all-SameUsers :
        (channels : List String) (m : ChannelManager)
        → SameUsers m (unsubscribe_all d f w client tx id channels m)
    unfolding unsubscribe_all unsubscribe SameUsers
    unsubscribe_all-SameUsers [] m = (refl, refl)
    unsubscribe_all-SameUsers (channel ∷ channels) m =
        unsubscribe_all-SameUsers channels (unsubscribe client channel m)

    handle_auth-AgreesIn :
        (params : Option String) (m : ChannelManager)
        → AgreesIn m
        → AgreesIn (handle_auth d f w client tx id params m).0
    unfolding handle_auth invalid AgreesIn
    handle_auth-AgreesIn none m h = h
    handle_auth-AgreesIn (some token) m h = elim (Outcome-cases (validate_token f (w.me token))) [
      | inr (e, k) ↦ rw (k, handle_auth) h
      | inl (user, k) ↦ rw (k, handle_auth) (authenticate_client-Agrees client m user h)
    ]

    handle_private_subscribe-SameUsers :
        (params : Option (List String)) (m : ChannelManager)
        → SameUsers m (handle_private_subscribe d f w client tx id params m).0
    unfolding handle_private_subscribe not_authenticated invalid SameUsers
    handle_private_subscribe-SameUsers params m = elim (Option-cases (get_user_id client m)) [
      | inl e ↦ rw (e, handle_private_subscribe) (refl, refl)
      | inr (user, e) ↦ elim (Option-cases params) [
        | inl g ↦ rw (e, handle_private_subscribe, g) (refl, refl)
        | inr (channels, g) ↦
            rw (e, handle_private_subscribe, g) (subscribe_quietly-SameUsers channels m)
      ]
    ]

    handle_place_order-SameUsers :
        (params : Option PlaceOrderParams) (m : ChannelManager)
        → SameUsers m (handle_place_order d f w client tx id params m).0
    unfolding handle_place_order place_for submit register_order not_authenticated invalid SameUsers
    handle_place_order-SameUsers params m = elim (Option-cases (get_user_id client m)) [
      | inl e ↦ rw (e, handle_place_order) (refl, refl)
      | inr (user, e) ↦ elim (Option-cases params) [
        | inl g ↦ rw (e, handle_place_order, g) (refl, refl)
        | inr (p, g) ↦ elim (Outcome-cases (create_order_in_accounts f (w.create p user))) [
          | inr (x, h) ↦ rw (e, handle_place_order, g, place_for, h) (refl, refl)
          | inl ((order, quantity), h) ↦ elim (Option-cases (side_of p.side)) [
            | inl s ↦ rw (e, handle_place_order, g, place_for, h, submit, s) (refl, refl)
            | inr (side, s) ↦ rw (e, handle_place_order, g, place_for, h, submit, s) (refl, refl)
          ]
        ]
      ]
    ]

    handle_cancel_order-SameUsers :
        (params : Option String) (m : ChannelManager)
        → SameUsers m (handle_cancel_order d f w client tx id params m).0
    unfolding handle_cancel_order cancel_for not_authenticated invalid SameUsers
    handle_cancel_order-SameUsers params m = elim (Option-cases (get_user_id client m)) [
      | inl e ↦ rw (e, handle_cancel_order) (refl, refl)
      | inr (user, e) ↦ elim (Option-cases params) [
        | inl g ↦ rw (e, handle_cancel_order, g) (refl, refl)
        | inr (text, g) ↦ elim (Option-cases (f.parse_uuid text)) [
          | inl u ↦ rw (e, handle_cancel_order, g, cancel_for, u) (refl, refl)
          | inr (order, u) ↦ elim (Option-cases (cancel_order_in_accounts f (w.cancel text user))) [
            | inl done ↦ rw (e, handle_cancel_order, g, cancel_for, u, done) (refl, refl)
            | inr (why, lost) ↦ rw (e, handle_cancel_order, g, cancel_for, u, lost) (refl, refl)
          ]
        ]
      ]
    ]

  handle_request-AgreesIn :
      (w : Outside F) (client tx : ℕ) (r : ClientRequest f.Value)
      (states : TextMap (OrderBookState F)) (m : ChannelManager)
      → AgreesIn m
      → AgreesIn (handle_request d f w client tx r states m).0
  unfolding handle_request handle_subscribe handle_unsubscribe handle_bot_status invalid
      register_bot set_bot_status AgreesIn
  handle_request-AgreesIn w client tx r states m h = by_method (method_of r.method) refl
    where
      unchanged :
          (m' : ChannelManager) → SameUsers m m' → Agrees m'.authenticated_users m'.user_to_client
      unchanged m' s = same-AgreesIn m m' s h

      by_method :
          (k : Method)
          → method_of r.method ≡ k
          → Agrees
              (handle_request d f w client tx r states m).0.authenticated_users
              (handle_request d f w client tx r states m).0.user_to_client
      by_method public_auth e =
          rw (e, handle_request)
            (handle_auth-AgreesIn w client tx r.id (f.auth_params r.params) m h)
      by_method public_subscribe e = elim (Option-cases (f.subscribe_params r.params)) [
        | inl g ↦ rw (e, handle_request, g) h
        | inr (channels, g) ↦
            rw (e, handle_request, g)
              (unchanged (subscribe_to d f w client tx r.id channels states m).0
                (subscribe_to-SameUsers w client tx r.id channels states m))
      ]
      by_method private_subscribe e =
          rw (e, handle_request)
            (unchanged
              (handle_private_subscribe d f w client tx r.id (f.subscribe_params r.params) m).0
              (handle_private_subscribe-SameUsers w client tx r.id (f.subscribe_params r.params) m))
      by_method unsubscribe_channels e = elim (Option-cases (f.subscribe_params r.params)) [
        | inl g ↦ rw (e, handle_request, g) h
        | inr (channels, g) ↦
            rw (e, handle_request, g)
              (unchanged (unsubscribe_all d f w client tx r.id channels m)
                (unsubscribe_all-SameUsers w client tx r.id channels m))
      ]
      by_method private_place_order e =
          rw (e, handle_request)
            (unchanged (handle_place_order d f w client tx r.id (f.place_order_params r.params) m).0
              (handle_place_order-SameUsers w client tx r.id (f.place_order_params r.params) m))
      by_method private_cancel_order e =
          rw (e, handle_request)
            (unchanged
              (handle_cancel_order d f w client tx r.id (f.cancel_order_params r.params) m).0
              (handle_cancel_order-SameUsers w client tx r.id (f.cancel_order_params r.params) m))
      by_method private_register_bot e = rw (e, handle_request) h
      by_method private_bot_status e = elim (Option-cases (f.bot_status_params r.params)) [
        | inl g ↦ rw (e, handle_request, g) h
        | inr (status, g) ↦ rw (e, handle_request, g) h
      ]
      by_method unknown e = rw (e, handle_request) h

  Served-AgreesIn : (m : ChannelManager) → Served d f m → AgreesIn m
  unfolding new_manager connect end_connection AgreesIn IdMap.get
  Served-AgreesIn _ started = λ c u e. cc
  Served-AgreesIn _ (connected client tx m s) = Served-AgreesIn m s
  Served-AgreesIn _ (requested w client tx r states m s) =
      handle_request-AgreesIn w client tx r states m (Served-AgreesIn m s)
  Served-AgreesIn _ (ended reader client m s) = remove_client-Agrees client m (Served-AgreesIn m s)
  Served-AgreesIn _ (ended writer client m s) = Served-AgreesIn m s

  -- However clients connect, send requests and leave, a user is authenticated on one connection at most,
  -- and that is the connection that the user's private events are looked up by.
  pub Served-one_client :
      (m : ChannelManager) (client other user : ℕ)
      → Served d f m
      → get_user_id client m ≡ some user
      → get_user_id other m ≡ some user
      → (client ≡ other) × (get_client_for_user user m ≡ some client)
  unfolding get_user_id get_client_for_user AgreesIn
  Served-one_client m client other user s a b =
      let agrees = Served-AgreesIn m s in
      let here = agrees client user a in
      let there = agrees other user b in (ground (arith, here, there), here)
