-- ===== src/Routes.antt =====
-- accounts/src/routes: the HTTP handlers of the accounts service, over its models. A handler's result is
-- the answer's status and body, with the tables as they are then. The identity of the user has been
-- established before; the times of rows, the ids of trades and the texts of log lines are left out.
pub mod Replies
pub mod Placing
pub mod Orders
pub mod Internal
pub mod Money
pub mod Faucet
pub mod Signs
pub mod Taking
pub mod Pages
pub mod Privacy
pub mod Agreeing
pub mod Returning
pub mod Claims
pub mod Resettling
mod Tests
