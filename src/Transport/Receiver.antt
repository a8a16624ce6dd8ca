-- ===== src/Transport/Receiver.antt =====
-- udp_proto/src/receiver.rs: `process_packet`, the loop of the worker and `clear_gaps`.
use mexchange_study.Common.{
  ℕ, zero, suc, ◌+◌, ◌-◌, ◌%◌, ◌^◌, Bool, true, false, ◌&&◌, not, Option, none, some, List, [], ◌∷◌,
  ◌++◌, ltb, ◌==◌, if◌then◌else◌, length,
}
use mexchange_study.Wire.Bytes.{Result, ok, err}
use mexchange_study.Wire.Headers.{MessageType, PacketHeader, is_heartbeat, message_type}
use mexchange_study.Wire.Packets.{Message, Packet, parse}
use mexchange_study.Transport.Sender.{fetch_add}

pub data StreamState : Type 0 where
  initializing active degraded down : StreamState

-- The time of a gap is left out.
pub record GapInfo : Type 0 where
  pub expected_seq : ℕ
  pub received_seq : ℕ
  pub gap_size : ℕ

pub record ReceiverStats : Type 0 where
  pub packets_received : ℕ
  pub messages_received : ℕ
  pub bytes_received : ℕ
  pub heartbeats_received : ℕ
  pub duplicates_dropped : ℕ
  pub gaps_detected : ℕ
  pub total_gap_messages : ℕ
  pub recv_errors : ℕ

abbrev pub no_receiver_stats : ReceiverStats
no_receiver_stats = record {
  packets_received = 0;
  messages_received = 0;
  bytes_received = 0;
  heartbeats_received = 0;
  duplicates_dropped = 0;
  gaps_detected = 0;
  total_gap_messages = 0;
  recv_errors = 0;
}

pub record ReceivedMessage : Type 0 where
  pub msg_type : MessageType
  pub payload : List ℕ
  pub seq : ℕ
  pub stream_id : ℕ

-- The worker with what it shares with the receiver; `queue` is the channel.
pub record ReceiverWorker : Type 0 where
  pub stream_id : ℕ
  pub channel_capacity : ℕ
  pub queue : List ReceivedMessage
  pub stats : ReceiverStats
  pub state : StreamState
  pub gaps : List GapInfo
  pub expected_packet_seq : ℕ
  pub expected_msg_seq : ℕ
  pub initialized : Bool

unfoldable pub new_receiver : ℕ → ℕ → ReceiverWorker
new_receiver stream_id channel_capacity = record {
  stream_id = stream_id;
  channel_capacity = channel_capacity;
  queue = [];
  stats = no_receiver_stats;
  state = initializing;
  gaps = [];
  expected_packet_seq = 0;
  expected_msg_seq = 0;
  initialized = false;
}

unfoldable pub active_from : StreamState → StreamState
active_from initializing = active
active_from down = active
active_from degraded = degraded
active_from active = active

unfoldable pub update_state_active : ReceiverWorker → ReceiverWorker
update_state_active w = record w { state = active_from w.state }

-- The loop that keeps the last 100 gaps; each round drops one.
unfoldable pub keep_recent : ℕ → List GapInfo → List GapInfo
keep_recent fuel [] = []
keep_recent zero (g ∷ gs) = g ∷ gs
keep_recent (suc fuel) (g ∷ gs) =
    let rest = keep_recent fuel gs in if ltb 100 (length (g ∷ gs)) then rest else g ∷ gs

unfoldable pub record_gap : ℕ → ℕ → ℕ → ReceiverWorker → ReceiverWorker
record_gap expected received gap_size w =
    let s = w.stats in
    let gaps =
      w.gaps
      ++ record { expected_seq = expected; received_seq = received; gap_size = gap_size } ∷ [] in
    record w {
      stats = record s {
        gaps_detected = fetch_add s.gaps_detected 1;
        total_gap_messages = fetch_add s.total_gap_messages gap_size;
      };
      gaps = keep_recent (length gaps) gaps;
      state = degraded;
    }

-- A message of a known type is counted and sent to the channel, which drops it when it is full.
unfoldable pub deliver : Option MessageType → ℕ → Message → ReceiverWorker → ReceiverWorker
deliver none stream m w = w
deliver (some t) stream m w =
    let s = w.stats in
    record w {
      stats = record s { messages_received = fetch_add s.messages_received 1 };
      queue =
          if ltb (length w.queue) w.channel_capacity
          then w.queue
            ++ record { msg_type = t; payload = m.payload; seq = m.seq; stream_id = stream } ∷ []
          else w.queue;
    }

unfoldable pub deliver_all : ℕ → List Message → ReceiverWorker → ReceiverWorker
deliver_all stream [] w = w
deliver_all stream (m ∷ ms) w = deliver_all stream ms (deliver (message_type m.header) stream m w)

-- The first packet sets what is expected.
unfoldable pub initialize : PacketHeader → ReceiverWorker → ReceiverWorker
initialize h w =
    if w.initialized
    then w
    else update_state_active (record w {
      expected_packet_seq = h.packet_seq;
      expected_msg_seq = h.first_msg_seq;
      initialized = true;
    })

-- The gap's size is a difference of u64, which wraps.
unfoldable pub check_gap : PacketHeader → ReceiverWorker → ReceiverWorker
check_gap h w =
    if ltb w.expected_packet_seq h.packet_seq
    then record_gap w.expected_msg_seq h.first_msg_seq
        ((h.first_msg_seq + 2 ^ 64 - w.expected_msg_seq) % 2 ^ 64) w
    else w

unfoldable pub process_data : Packet → ReceiverWorker → ReceiverWorker
process_data p w =
    let s = w.stats in
    if ltb p.header.packet_seq w.expected_packet_seq
    then record w { stats = record s { duplicates_dropped = fetch_add s.duplicates_dropped 1 } }
    else let done = deliver_all p.header.stream_id p.messages (check_gap p.header w) in
      record done {
        expected_packet_seq = (p.header.packet_seq + 1) % 2 ^ 64;
        expected_msg_seq = (p.header.first_msg_seq + p.header.msg_count) % 2 ^ 64;
      }

unfoldable pub count_packet : ReceiverWorker → ReceiverWorker
count_packet w =
    let s = w.stats in
    record w { stats = record s { packets_received = fetch_add s.packets_received 1 } }

unfoldable pub count_heartbeat : ReceiverWorker → ReceiverWorker
count_heartbeat w =
    let s = w.stats in
    record w { stats = record s { heartbeats_received = fetch_add s.heartbeats_received 1 } }

-- `process_packet` after the parser
unfoldable pub process_parsed : Packet → ReceiverWorker → ReceiverWorker
process_parsed p w =
    if not (w.stream_id == 0) && not (p.header.stream_id == w.stream_id)
    then w
    else if is_heartbeat p.header
    then update_state_active (count_heartbeat (count_packet w))
    else process_data p (initialize p.header (count_packet w))

-- `process_packet` as `run` calls it: the bytes are counted, and so is an error.
unfoldable pub on_result : Result Packet → ReceiverWorker → ReceiverWorker
on_result (ok p) w = process_parsed p w
on_result (err e) w =
    let s = w.stats in record w { stats = record s { recv_errors = fetch_add s.recv_errors 1 } }

-- What wakes the worker up: a datagram, the socket's timeout with whether the stream timeout has
-- passed since the last packet, or another error of the socket.
pub data ReceiverInput : Type 0 where
  datagram : List ℕ → ReceiverInput
  would_block : Bool → ReceiverInput
  socket_error : ReceiverInput

unfoldable pub on_datagram : List ℕ → ReceiverWorker → ReceiverWorker
on_datagram bytes w =
    let s = w.stats in
    on_result (parse bytes)
      (record w { stats = record s { bytes_received = fetch_add s.bytes_received (length bytes) } })

unfoldable pub receiver_step : ReceiverInput → ReceiverWorker → ReceiverWorker
receiver_step (datagram bytes) w = on_datagram bytes w
receiver_step (would_block late) w = if w.initialized && late then record w { state = down } else w
receiver_step socket_error w =
    let s = w.stats in record w { stats = record s { recv_errors = fetch_add s.recv_errors 1 } }

unfoldable pub receiver_loop : List ReceiverInput → ReceiverWorker → ReceiverWorker
receiver_loop [] w = w
receiver_loop (i ∷ is) w = receiver_loop is (receiver_step i w)

unfoldable pub recovered : StreamState → StreamState
recovered degraded = active
recovered s = s

unfoldable pub clear_gaps : ReceiverWorker → ReceiverWorker
clear_gaps w = record w { gaps = []; state = recovered w.state }

-- `try_recv`, while the worker runs
unfoldable pub try_recv : ReceiverWorker → Option ReceivedMessage × ReceiverWorker
try_recv w = elim w.queue [ [] ↦ (none, w) | m ∷ ms ↦ (some m, record w { queue = ms }) ]
