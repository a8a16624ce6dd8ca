-- ===== src/Gateway/Bots.antt =====
-- gateway/src/server.rs: the HTTP handlers that control the bot. A command is what is sent to the bot's
-- connection, if it has one.
use Prim.Native.String.{String}
use mexchange_study.Common.{ℕ, Bool, true, false, none, some, List, [], ◌∷◌, if◌then◌else◌}
use mexchange_study.Gateway.Clients.{
  ChannelManager, StrategyStatus, is_bot_connected, get_bot_sender, get_bot_status,
}

-- `BotCommandInner`
pub data BotCommand : Type 0 where
  start stop : String → BotCommand
  status : BotCommand

pub record BotStatusResponse : Type 0 where
  pub connected : Bool
  pub strategies : List StrategyStatus

unfoldable pub no_bot : BotStatusResponse
no_bot = record { connected = false; strategies = [] }

-- `get_bot_status().map(..).unwrap_or_default()`
unfoldable pub strategies_of : ChannelManager → List StrategyStatus
strategies_of m = elim (get_bot_status m) [ none ↦ [] | some s ↦ s ]

-- The common body: the command that is sent, and the cached status.
unfoldable pub control_bot : BotCommand → ChannelManager → BotStatusResponse × List (ℕ × BotCommand)
control_bot command m =
    if is_bot_connected m
    then (
      record { connected = true; strategies = strategies_of m },
      elim (get_bot_sender m) [ none ↦ [] | some sender ↦ (sender, command) ∷ [] ],
    )
    else (no_bot, [])

unfoldable pub start_bot : String → ChannelManager → BotStatusResponse × List (ℕ × BotCommand)
start_bot strategy m = control_bot (start strategy) m

unfoldable pub stop_bot : String → ChannelManager → BotStatusResponse × List (ℕ × BotCommand)
stop_bot strategy m = control_bot (stop strategy) m

-- `connected: cm.is_bot_connected()` is true here.
unfoldable pub bot_status : ChannelManager → BotStatusResponse × List (ℕ × BotCommand)
bot_status m = control_bot status m
