-- ===== src/Service.antt =====
-- matching_engine_service/src: the handling of an order command in main.rs, and the settlement client
-- of settlement.rs. The HTTP client and the event socket are parameters: a function that answers.
pub mod Settlement
pub mod Commands
pub mod Retries
pub mod Handling
pub mod Release
mod Tests
