-- ===== src/Gateway/Sessions/Refusing.antt =====
-- gateway/src/websocket.rs: requests of a connection that is not authenticated.
use mexchange_study.Common.{Bool, true, false}
use mexchange_study.Common.TextMap.{TextMap}
use mexchange_study.Gateway.Handlers.{
  Method, private_subscribe, private_place_order, private_cancel_order,
}

-- The methods that ask for a user first.
abbrev pub needs_user : Method → Bool
needs_user private_subscribe = true
needs_user private_place_order = true
needs_user private_cancel_order = true
needs_user _ = false
