-- ===== src/Codec.antt =====
-- udp_proto/src/binary.rs and the conversions of matching_engine_service/src/udp_transport.rs and
-- gateway/src/udp_transport.rs: a market event on its way from the engine's service to the gateway.
pub mod Flat
pub mod Binary
pub mod Convert
pub mod RoundTrip
mod Tests
