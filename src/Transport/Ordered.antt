-- ===== src/Transport/Ordered.antt =====
-- udp_proto/src/receiver.rs: packets that arrive in order.
use mexchange_study.Common.{
  ℕ, ◌+◌, ◌^◌, ◌<◌, ◌≡◌, refl, ◌⊎◌, inl, inr, true, false, ◌&&◌, not, List, [], ◌∷◌, ◌++◌, arith,
  ◌==◌, length, if_true,
}
use mexchange_study.Wire.Headers.{PacketHeader, is_heartbeat}
use mexchange_study.Wire.Packets.{Message, Packet}
use mexchange_study.Transport.Receiver.{
  active, ReceivedMessage, ReceiverWorker, update_state_active, initialize, process_data,
  count_packet, process_parsed,
}
use mexchange_study.Transport.Receiving.{received}

-- The worker has seen every packet before this one and has recorded no gap.
pub record Expects (packet first : ℕ) (w : ReceiverWorker) : Type 0 where
  pub started : w.initialized ≡ true
  pub is_active : w.state ≡ active
  pub no_gaps : w.gaps ≡ []
  pub next_packet : w.expected_packet_seq ≡ packet
  pub next_message : w.expected_msg_seq ≡ first

-- A packet with messages, with these numbers, that the worker does not filter out.
pub record IsNext (packet first stream : ℕ) (p : Packet) : Type 0 where
  pub has_packet : p.header.packet_seq ≡ packet
  pub has_first : p.header.first_msg_seq ≡ first
  pub has_count : p.header.msg_count ≡ length p.messages
  pub some_messages : 0 < length p.messages
  pub accepted : (stream ≡ 0) ⊎ (p.header.stream_id ≡ stream)
  pub packet_fits : packet + 1 < 2 ^ 64
  pub first_fits : first + length p.messages < 2 ^ 64

passes :
    (stream mine : ℕ)
    → (mine ≡ 0) ⊎ (stream ≡ mine)
    → (not (mine == 0) && not (stream == mine)) ≡ false
passes stream mine (inl e) = ground arith
passes stream mine (inr e) = ground arith

pub initialize_started :
    (h : PacketHeader) (w : ReceiverWorker) → w.initialized ≡ true → initialize h w ≡ w
unfolding initialize
initialize_started h w e =
    if_true w.initialized w
      (update_state_active (record w {
        expected_packet_seq = h.packet_seq;
        expected_msg_seq = h.first_msg_seq;
        initialized = true;
      }))
      e

pub process_parsed-data :
    (p : Packet) (w : ReceiverWorker)
    → (w.stream_id ≡ 0) ⊎ (p.header.stream_id ≡ w.stream_id)
    → ¬ (p.header.msg_count ≡ 0)
    → process_parsed p w ≡ process_data p (initialize p.header (count_packet w))
unfolding process_parsed is_heartbeat
process_parsed-data p w mine some_ =
    let pass = passes p.header.stream_id w.stream_id mine in
    let data_ : (p.header.msg_count == 0) ≡ false = ground arith in rw (pass, data_) refl

-- What a worker that expects the packet does with it.
abbrev pub HandsOn : ℕ → ℕ → Packet → ReceiverWorker → ReceiverWorker → Type 0
HandsOn packet first p w w' =
    (w'.queue ≡ w.queue ++ received p.header.stream_id p.messages)
    × (w'.stream_id ≡ w.stream_id)
    × (w'.channel_capacity ≡ w.channel_capacity)
    × Expects (packet + 1) (first + length p.messages) w'

-- The packets of a stream, one after the other.
abbrev pub InOrder : ℕ → ℕ → ℕ → List Packet → Type 0
InOrder packet first stream [] = Unit
InOrder packet first stream (p ∷ ps) =
    IsNext packet first stream p × InOrder (packet + 1) (first + length p.messages) stream ps

abbrev pub process_all : List Packet → ReceiverWorker → ReceiverWorker
process_all [] w = w
process_all (p ∷ ps) w = process_all ps (process_parsed p w)

abbrev pub all_messages : List Packet → List Message
all_messages [] = []
all_messages (p ∷ ps) = p.messages ++ all_messages ps

abbrev pub all_received : List Packet → List ReceivedMessage
all_received [] = []
all_received (p ∷ ps) = received p.header.stream_id p.messages ++ all_received ps
