-- ===== src/Gateway.antt =====
-- The gateway. gateway/src/channel_updates.rs: `OrderBookState`, its copy of the top of the book, the last
-- trades and those of the last 24 hours; the notification is what a call returns for the channel, and `now`
-- stands for the system time in it. gateway/src/websocket.rs and server.rs: its clients, their requests and
-- what is sent to them. An f64 and its operations are a parameter.
pub mod State
pub mod Updates
pub mod Bounds
pub mod Quotes
pub mod Deltas
pub mod Sync
pub mod Rounds
pub mod Tops
pub mod Clients
pub mod Remote
pub mod Handlers
pub mod Sessions
pub mod Broadcast
pub mod Bots
mod Tests
