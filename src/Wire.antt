-- ===== src/Wire.antt =====
-- udp_proto/src/protocol.rs: packets, their headers and the builder. A buffer is the list of its
-- bytes, a byte a number below 256.
pub mod Bytes
pub mod Headers
pub mod Packets
pub mod HeaderTrips
pub mod PacketTrips
pub mod Building
pub mod Delivery
mod Tests
