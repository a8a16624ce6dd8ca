-- ===== src/Gateway/Sessions/Answering.antt =====
-- gateway/src/websocket.rs: the replies to a request.
use Prim.Native.String.{String}
use mexchange_study.Common.{List, [], ◌∷◌, ◌++◌}
use mexchange_study.Common.TextMap
use mexchange_study.Common.TextMap.{TextMap}
use mexchange_study.Gateway.Remote.{
  Message, auth_reply, channels_reply, order_reply, ok_reply, error_reply, Action, send,
  order_requested, cancel_requested, commanded,
}

module _ {F : Type 0} where
  -- The id that a message answers, if it is a reply.
  abbrev pub reply_ids : Message F → List String
  reply_ids (auth_reply id token kind user) = id ∷ []
  reply_ids (channels_reply id channels) = id ∷ []
  reply_ids (order_reply id order) = id ∷ []
  reply_ids (ok_reply id) = id ∷ []
  reply_ids (error_reply id code message) = id ∷ []
  reply_ids _ = []

  -- The ids that are answered, in order.
  abbrev pub answers : List (Action F) → List String
  answers [] = []
  answers (send r ∷ more) = reply_ids r ++ answers more
  answers (order_requested p u ∷ more) = answers more
  answers (cancel_requested t u ∷ more) = answers more
  answers (commanded c ∷ more) = answers more
