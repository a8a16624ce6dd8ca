-- ===== src/Gateway/Sessions/Commanding.antt =====
-- gateway/src/websocket.rs: the commands that a request sends to the matching engine.
use Prim.Native.String.{String}
use mexchange_study.Common.{
  ℕ, ◌≡◌, refl, sym, ap, ◌∙◌, subst, inl, inr, Option, none, some, List, [], ◌∷◌, ◌++◌, Bool-cases,
  Option-cases, All, ℤ, same_text,
}
use mexchange_study.Common.TextMap
use mexchange_study.Common.TextMap.{TextMap}
use mexchange_study.Accounts.Tables.{fine}
use mexchange_study.Accounts.Reconciling.{Outcome-cases}
use mexchange_study.Engine.Orders.{Side}
use mexchange_study.Events.{OrderCommand, place_order, cancel_order}
use mexchange_study.Gateway.State.{Doubles, OrderBookState}
use mexchange_study.Gateway.Clients.{ChannelManager, StrategyStatus, get_user_id, subscribe}
use mexchange_study.Gateway.Remote.{
  PlaceOrderParams, ClientRequest, Formats, channels_reply, Action, send, order_requested,
  cancel_requested, commanded, validate_token, create_order_in_accounts, cancel_order_in_accounts,
}
use mexchange_study.Gateway.Handlers.{
  Method, public_auth, public_subscribe, private_subscribe, unsubscribe_channels,
  private_place_order, private_cancel_order, private_register_bot, private_bot_status, unknown,
  method_of, side_of, part, last_part, Outside, invalid, not_authenticated, initial_message,
  initial_messages, subscribe_to, submit, place_for, cancel_for, handle_auth, handle_subscribe,
  handle_private_subscribe, handle_unsubscribe, handle_place_order, handle_cancel_order,
  handle_bot_status,
}
use mexchange_study.Gateway.Sessions.{handle_request}
use mexchange_study.Common.{split_at}

module _ {F : Type 0} where
  -- The commands among the actions, in order.
  abbrev pub commands : List (Action F) → List OrderCommand
  commands [] = []
  commands (commanded c ∷ more) = c ∷ commands more
  commands (send r ∷ more) = commands more
  commands (order_requested p u ∷ more) = commands more
  commands (cancel_requested t u ∷ more) = commands more

  commands-append : (xs ys : List (Action F)) → commands (xs ++ ys) ≡ commands xs ++ commands ys
  commands-append [] ys = refl
  commands-append (commanded c ∷ xs) ys =
      ap (λ (l : List OrderCommand). c ∷ l) (commands-append xs ys)
  commands-append (send r ∷ xs) ys = commands-append xs ys
  commands-append (order_requested p u ∷ xs) ys = commands-append xs ys
  commands-append (cancel_requested t u ∷ xs) ys = commands-append xs ys

module _ (d : Doubles) (f : Formats) (w : Outside d.F) where
  open d use {F}

  -- A command that the accounts service has cleared for the user: a new order with the id and the
  -- quantity that it gave, on the side that the client named, or the cancellation of an order that it has
  -- cancelled.
  pub data Cleared (user : ℕ) : OrderCommand → Type 0 where
    cleared_order :
        (p : PlaceOrderParams) (order : ℕ) (side : Side) (quantity : ℤ)
        → create_order_in_accounts f (w.create p user) ≡ fine (order, quantity)
        → side_of p.side ≡ some side
        → Cleared user (place_order order side p.order_type p.price quantity (some user))
    cleared_cancel :
        (text : String) (order : ℕ)
        → f.parse_uuid text ≡ some order
        → cancel_order_in_accounts f (w.cancel text user) ≡ none
        → Cleared user (cancel_order order (some user))

  -- The command is cleared for the user that is known, if one is.
  abbrev pub Permitted : Option ℕ → OrderCommand → Type 0
  Permitted known c = (user : ℕ) × (known ≡ some user) × Cleared user c

  module _ (client tx : ℕ) (id : String) where
    initial_message-commands :
        (channel kind symbol interval : String) (s : OrderBookState F)
        → commands (initial_message d f w client tx id channel kind symbol interval s) ≡ []
    unfolding initial_message
    initial_message-commands channel kind symbol interval s =
        elim (Bool-cases (same_text kind "book")) [
          | inl is_book ↦ rw is_book refl
          | inr no_book ↦ elim (Bool-cases (same_text kind "ticker")) [
            | inl is_ticker ↦ rw (no_book, is_ticker) refl
            | inr no_ticker ↦ elim (Bool-cases (same_text kind "lwt")) [
              | inl is_lwt ↦ rw (no_book, no_ticker, is_lwt) refl
              | inr no_lwt ↦ rw (no_book, no_ticker, no_lwt) refl
            ]
          ]
        ]

    subscribe_to-commands :
        (channels : List String) (states : TextMap (OrderBookState F)) (m : ChannelManager)
        → commands (subscribe_to d f w client tx id channels states m).1 ≡ []
    unfolding subscribe_to initial_messages
    subscribe_to-commands [] states m = refl
    subscribe_to-commands (channel ∷ channels) states m =
        let rest = subscribe_to-commands channels states (subscribe client channel tx m) in
        let first : commands (initial_messages d f w client tx id channel states) ≡ [] =
          elim (Option-cases (TextMap.get (part 1 "KCN/EUR" (split_at 46 channel)) states)) [
            | inl e ↦ rw (e, initial_messages) refl
            | inr (s, e) ↦
                rw (e, initial_messages)
                  (initial_message-commands channel (part 0 "" (split_at 46 channel))
                    (part 1 "KCN/EUR" (split_at 46 channel))
                    (last_part "1000ms" (split_at 46 channel)) s)
          ] in
        commands-append (initial_messages d f w client tx id channel states)
          (subscribe_to d f w client tx id channels states (subscribe client channel tx m)).1
        ∙ cc (first, rest)

    handle_subscribe-commands :
        (params : Option (List String)) (states : TextMap (OrderBookState F)) (m : ChannelManager)
        → commands (handle_subscribe d f w client tx id params states m).1 ≡ []
    unfolding handle_subscribe invalid
    handle_subscribe-commands none states m = refl
    handle_subscribe-commands (some channels) states m =
        commands-append (subscribe_to d f w client tx id channels states m).1
          (send (channels_reply id channels) ∷ [])
        ∙ ap (λ (l : List OrderCommand). l ++ []) (subscribe_to-commands channels states m)

    place_for-Permitted :
        (user : ℕ) (p : PlaceOrderParams) (m : ChannelManager)
        → All (Permitted (some user)) (commands (place_for d f w client tx id user p m).1)
    unfolding place_for submit invalid
    place_for-Permitted user p m =
        elim (Outcome-cases (create_order_in_accounts f (w.create p user))) [
          | inr (e, h) ↦ rw (h, place_for) tt
          | inl ((order, quantity), h) ↦ elim (Option-cases (side_of p.side)) [
            | inl e ↦ rw (h, place_for, submit, e) tt
            | inr (side, e) ↦
                rw (h, place_for, submit, e)
                  ((user, refl, cleared_order p order side quantity h e), tt)
          ]
        ]

    handle_place_order-Permitted :
        (params : Option PlaceOrderParams) (m : ChannelManager) (known : Option ℕ)
        → get_user_id client m ≡ known
        → All (Permitted known) (commands (handle_place_order d f w client tx id params m).1)
    unfolding handle_place_order not_authenticated invalid
    handle_place_order-Permitted params m none e = rw (e, handle_place_order) tt
    handle_place_order-Permitted none m (some user) e = rw (e, handle_place_order) tt
    handle_place_order-Permitted (some p) m (some user) e =
        rw (e, handle_place_order) (place_for-Permitted user p m)

    cancel_for-Permitted :
        (user : ℕ) (text : String) (m : ChannelManager)
        → All (Permitted (some user)) (commands (cancel_for d f w client tx id user text m).1)
    unfolding cancel_for invalid
    cancel_for-Permitted user text m = elim (Option-cases (f.parse_uuid text)) [
      | inl e ↦ rw (e, cancel_for) tt
      | inr (order, e) ↦ elim (Option-cases (cancel_order_in_accounts f (w.cancel text user))) [
        | inl done ↦ rw (e, cancel_for, done) ((user, refl, cleared_cancel text order e done), tt)
        | inr (why, failed) ↦ rw (e, cancel_for, failed) tt
      ]
    ]

    handle_cancel_order-Permitted :
        (params : Option String) (m : ChannelManager) (known : Option ℕ)
        → get_user_id client m ≡ known
        → All (Permitted known) (commands (handle_cancel_order d f w client tx id params m).1)
    unfolding handle_cancel_order not_authenticated invalid
    handle_cancel_order-Permitted params m none e = rw (e, handle_cancel_order) tt
    handle_cancel_order-Permitted none m (some user) e = rw (e, handle_cancel_order) tt
    handle_cancel_order-Permitted (some text) m (some user) e =
        rw (e, handle_cancel_order) (cancel_for-Permitted user text m)

    nil-Permitted : (known : Option ℕ) (cs : List OrderCommand) → cs ≡ [] → All (Permitted known) cs
    nil-Permitted known cs e = subst (All (Permitted known)) (sym e) tt

    handle_auth-commands :
        (params : Option String) (m : ChannelManager)
        → commands (handle_auth d f w client tx id params m).1 ≡ []
    unfolding handle_auth invalid
    handle_auth-commands none m = refl
    handle_auth-commands (some token) m = elim (Outcome-cases (validate_token f (w.me token))) [
      | inr (e, h) ↦ rw (h, handle_auth) refl
      | inl (user, h) ↦ rw (h, handle_auth) refl
    ]

    handle_private_subscribe-commands :
        (params : Option (List String)) (m : ChannelManager)
        → commands (handle_private_subscribe d f w client tx id params m).1 ≡ []
    unfolding handle_private_subscribe not_authenticated invalid
    handle_private_subscribe-commands params m = elim (Option-cases (get_user_id client m)) [
      | inl e ↦ rw (e, handle_private_subscribe) refl
      | inr (user, e) ↦ elim (Option-cases params) [
        | inl g ↦ rw (e, handle_private_subscribe, g) refl
        | inr (channels, g) ↦ rw (e, handle_private_subscribe, g) refl
      ]
    ]

    handle_unsubscribe-commands :
        (params : Option (List String)) (m : ChannelManager)
        → commands (handle_unsubscribe d f w client tx id params m).1 ≡ []
    unfolding handle_unsubscribe invalid
    handle_unsubscribe-commands none m = refl
    handle_unsubscribe-commands (some channels) m = refl

    handle_bot_status-commands :
        (params : Option (List StrategyStatus)) (m : ChannelManager)
        → commands (handle_bot_status d f w client tx id params m).1 ≡ []
    unfolding handle_bot_status invalid
    handle_bot_status-commands none m = refl
    handle_bot_status-commands (some status) m = refl

-- Every command that a request sends to the engine is for the user that the connection is authenticated
-- as, and the accounts service has cleared it for that user: it has created the order, with this id and
-- quantity, or it has cancelled it.
pub handle_request-Permitted :
    (d : Doubles) (f : Formats) (w : Outside d.F) (client tx : ℕ) (r : ClientRequest f.Value)
    (states : TextMap (OrderBookState d.F)) (m : ChannelManager)
    → All
        (Permitted d f w (get_user_id client m))
        (commands (handle_request d f w client tx r states m).1)
unfolding handle_request
handle_request-Permitted d f w client tx r states m = by_method (method_of r.method) refl
  where
    by_method :
        (k : Method)
        → method_of r.method ≡ k
        → All
            (Permitted d f w (get_user_id client m))
            (commands (handle_request d f w client tx r states m).1)
    by_method public_auth e =
        rw (e, handle_request)
          (nil-Permitted d f w client tx r.id (get_user_id client m)
            (commands (handle_auth d f w client tx r.id (f.auth_params r.params) m).1)
            (handle_auth-commands d f w client tx r.id (f.auth_params r.params) m))
    by_method public_subscribe e =
        rw (e, handle_request)
          (nil-Permitted d f w client tx r.id (get_user_id client m)
            (commands
              (handle_subscribe d f w client tx r.id (f.subscribe_params r.params) states m).1)
            (handle_subscribe-commands d f w client tx r.id (f.subscribe_params r.params) states m))
    by_method private_subscribe e =
        rw (e, handle_request)
          (nil-Permitted d f w client tx r.id (get_user_id client m)
            (commands
              (handle_private_subscribe d f w client tx r.id (f.subscribe_params r.params) m).1)
            (handle_private_subscribe-commands d f w client tx r.id (f.subscribe_params r.params)
              m))
    by_method unsubscribe_channels e =
        rw (e, handle_request)
          (nil-Permitted d f w client tx r.id (get_user_id client m)
            (commands (handle_unsubscribe d f w client tx r.id (f.subscribe_params r.params) m).1)
            (handle_unsubscribe-commands d f w client tx r.id (f.subscribe_params r.params) m))
    by_method private_place_order e =
        rw (e, handle_request)
          (handle_place_order-Permitted d f w client tx r.id (f.place_order_params r.params) m
            (get_user_id client m) refl)
    by_method private_cancel_order e =
        rw (e, handle_request)
          (handle_cancel_order-Permitted d f w client tx r.id (f.cancel_order_params r.params) m
            (get_user_id client m) refl)
    by_method private_register_bot e = rw (e, handle_request) tt
    by_method private_bot_status e =
        rw (e, handle_request)
          (nil-Permitted d f w client tx r.id (get_user_id client m)
            (commands (handle_bot_status d f w client tx r.id (f.bot_status_params r.params) m).1)
            (handle_bot_status-commands d f w client tx r.id (f.bot_status_params r.params) m))
    by_method unknown e = rw (e, handle_request) tt
