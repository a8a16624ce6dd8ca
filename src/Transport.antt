-- ===== src/Transport.antt =====
-- udp_proto/src/sender.rs and udp_proto/src/receiver.rs: the workers behind `UdpSender` and
-- `UdpReceiver`. The socket and the channels are seen as what goes in and what comes out of them;
-- counters are u64 and wrap.
pub mod Sender
pub mod Receiver
pub mod Sending
pub mod Receiving
pub mod Gaps
pub mod Flow
pub mod Ordered
mod Tests
