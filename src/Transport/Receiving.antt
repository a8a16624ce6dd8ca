-- ===== src/Transport/Receiving.antt =====
-- udp_proto/src/receiver.rs: what becomes of the packets of a stream.
use mexchange_study.Common.{
  ℕ, ◌+◌, ◌≤◌, ◌<◌, ◌≡◌, refl, sym, ap, ◌∙◌, true, Option, none, some, List, [], ◌∷◌, ◌++◌,
  append-nil, append_assoc, arith, ltb, length, length-append,
}
use mexchange_study.Wire.Headers.{MessageType, message_type}
use mexchange_study.Wire.Packets.{Message}
use mexchange_study.Transport.Receiver.{ReceivedMessage, ReceiverWorker, deliver, deliver_all}

-- The messages of known types, as the receiver hands them on.
abbrev pub received_as : ℕ → Message → Option MessageType → List ReceivedMessage
received_as stream m none = []
received_as stream m (some t) =
    record { msg_type = t; payload = m.payload; seq = m.seq; stream_id = stream } ∷ []

abbrev pub received : ℕ → List Message → List ReceivedMessage
received stream [] = []
received stream (m ∷ ms) = received_as stream m (message_type m.header) ++ received stream ms

-- All but the queue and the statistics.
pub record SameStream (w w' : ReceiverWorker) : Type 0 where
  pub same_id : w'.stream_id ≡ w.stream_id
  pub same_capacity : w'.channel_capacity ≡ w.channel_capacity
  pub same_state : w'.state ≡ w.state
  pub same_gaps : w'.gaps ≡ w.gaps
  pub same_packet : w'.expected_packet_seq ≡ w.expected_packet_seq
  pub same_message : w'.expected_msg_seq ≡ w.expected_msg_seq
  pub same_start : w'.initialized ≡ w.initialized

pub deliver-queue :
    (t : Option MessageType) (stream : ℕ) (m : Message) (w : ReceiverWorker)
    → length w.queue < w.channel_capacity
    → ((deliver t stream m w).queue ≡ w.queue ++ received_as stream m t)
      × SameStream w (deliver t stream m w)
unfolding deliver
deliver-queue none stream m w h = (
  sym (append-nil w.queue),
  record {
    same_id = refl;
    same_capacity = refl;
    same_state = refl;
    same_gaps = refl;
    same_packet = refl;
    same_message = refl;
    same_start = refl;
  },
)
deliver-queue (some t) stream m w h =
    let room : ltb (length w.queue) w.channel_capacity ≡ true = ground arith in
    (
      rw room refl,
      record {
        same_id = refl;
        same_capacity = refl;
        same_state = refl;
        same_gaps = refl;
        same_packet = refl;
        same_message = refl;
        same_start = refl;
      },
    )

SameStream-trans : (a b c : ReceiverWorker) → SameStream a b → SameStream b c → SameStream a c
SameStream-trans a b c h i = record {
  same_id = i.same_id ∙ h.same_id;
  same_capacity = i.same_capacity ∙ h.same_capacity;
  same_state = i.same_state ∙ h.same_state;
  same_gaps = i.same_gaps ∙ h.same_gaps;
  same_packet = i.same_packet ∙ h.same_packet;
  same_message = i.same_message ∙ h.same_message;
  same_start = i.same_start ∙ h.same_start;
}

pub received_as-length :
    (stream : ℕ) (m : Message) (t : Option MessageType) → length (received_as stream m t) ≤ 1
received_as-length stream m none = omega arith
received_as-length stream m (some t) = omega arith

pub deliver_all-queue :
    (stream : ℕ) (ms : List Message) (w : ReceiverWorker)
    → length w.queue + length ms ≤ w.channel_capacity
    → ((deliver_all stream ms w).queue ≡ w.queue ++ received stream ms)
      × SameStream w (deliver_all stream ms w)
unfolding deliver_all
deliver_all-queue stream [] w h = (
  sym (append-nil w.queue),
  record {
    same_id = refl;
    same_capacity = refl;
    same_state = refl;
    same_gaps = refl;
    same_packet = refl;
    same_message = refl;
    same_start = refl;
  },
)
deliver_all-queue stream (m ∷ ms) w h =
    let t = message_type m.header in
    let w1 = deliver t stream m w in
    let one = deliver-queue t stream m w (omega (arith, h)) in
    let longer : length w1.queue ≡ length w.queue + length (received_as stream m t) =
      ap length one.0 ∙ length-append w.queue (received_as stream m t) in
    let cap = one.1.same_capacity in
    let rest =
      deliver_all-queue stream ms w1
        (omega (arith, h, longer, cap, received_as-length stream m t)) in
    (
      rest.0
          ∙ ap (λ q. q ++ received stream ms) one.0
          ∙ append_assoc w.queue (received_as stream m t) (received stream ms),
      SameStream-trans w w1 (deliver_all stream ms w1) one.1 rest.1,
    )
