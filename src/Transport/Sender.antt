-- ===== src/Transport/Sender.antt =====
-- udp_proto/src/sender.rs: `try_send` and the loop of the worker.
use mexchange_study.Common.{
  ℕ, ◌+◌, ◌-◌, ◌%◌, ◌^◌, Bool, true, false, ◌&&◌, not, Option, none, some, List, [], ◌∷◌, ◌++◌, map,
  ltb, if◌then◌else◌, length,
}
use mexchange_study.Wire.Bytes.{message_too_large, channel_closed, Result, ok, err}
use mexchange_study.Wire.Headers.{packet_header_len, message_header_len, max_mtu, MessageType}
use mexchange_study.Wire.Packets.{
  Packet, parse, PacketBuilder, new_builder, builder_is_empty, try_add_message, finish,
  heartbeat_packet,
}

abbrev pub max_payload : ℕ
max_payload = max_mtu - packet_header_len

pub record OutgoingMessage : Type 0 where
  pub msg_type : MessageType
  pub payload : List ℕ

-- `try_send`, on a channel that holds at most `capacity` messages
unfoldable pub try_send :
    ℕ → MessageType → List ℕ → List OutgoingMessage → Result (List OutgoingMessage)
try_send capacity t payload queue =
    if ltb (max_payload - message_header_len) (length payload)
    then err (message_too_large (length payload) (max_payload - message_header_len))
    else if ltb (length queue) capacity
    then ok (queue ++ record { msg_type = t; payload = payload } ∷ [])
    else err channel_closed

pub record SenderStats : Type 0 where
  pub packets_sent : ℕ
  pub messages_sent : ℕ
  pub bytes_sent : ℕ
  pub heartbeats_sent : ℕ
  pub send_errors : ℕ

abbrev pub no_sender_stats : SenderStats
no_sender_stats = record {
  packets_sent = 0;
  messages_sent = 0;
  bytes_sent = 0;
  heartbeats_sent = 0;
  send_errors = 0;
}

-- `fetch_add`
unfoldable pub fetch_add : ℕ → ℕ → ℕ
fetch_add counter n = (counter + n) % 2 ^ 64

-- The worker with the builder that is local to its loop. `sent` lists the datagrams that were handed
-- to the socket.
pub record SenderWorker : Type 0 where
  pub stream_id : ℕ
  pub enable_heartbeats : Bool
  pub packet_seq : ℕ
  pub msg_seq : ℕ
  pub builder : PacketBuilder
  pub stats : SenderStats
  pub sent : List (List ℕ)

unfoldable pub new_sender : ℕ → Bool → SenderWorker
new_sender stream_id enable_heartbeats = record {
  stream_id = stream_id;
  enable_heartbeats = enable_heartbeats;
  packet_seq = 0;
  msg_seq = 0;
  builder = new_builder stream_id 0 0;
  stats = no_sender_stats;
  sent = [];
}

-- What wakes the loop up: a message, or the timeout of the channel, with whether the heartbeat
-- interval has passed since the last send.
pub data SenderInput : Type 0 where
  message : OutgoingMessage → SenderInput
  timeout : Bool → SenderInput

-- `send_to` returns the number of bytes sent, or fails.
module _ (send_to : List ℕ → Option ℕ) where
  unfoldable pub count_messages : Result Packet → SenderStats → SenderStats
  count_messages (ok packet) s = record s {
    messages_sent = fetch_add s.messages_sent packet.header.msg_count;
  }
  count_messages (err e) s = s

  unfoldable pub packet_stats : List ℕ → Option ℕ → SenderStats → SenderStats
  packet_stats data_ (some n) s = count_messages (parse data_) (record s {
    packets_sent = fetch_add s.packets_sent 1;
    bytes_sent = fetch_add s.bytes_sent n;
  })
  packet_stats data_ none s = record s { send_errors = fetch_add s.send_errors 1 }

  unfoldable pub send_packet : List ℕ → SenderWorker → SenderWorker
  send_packet data_ w = record w {
    stats = packet_stats data_ (send_to data_) w.stats;
    sent = w.sent ++ data_ ∷ [];
  }

  unfoldable pub heartbeat_stats : Option ℕ → SenderStats → SenderStats
  heartbeat_stats (some n) s = record s {
    packets_sent = fetch_add s.packets_sent 1;
    heartbeats_sent = fetch_add s.heartbeats_sent 1;
    bytes_sent = fetch_add s.bytes_sent n;
  }
  heartbeat_stats none s = record s { send_errors = fetch_add s.send_errors 1 }

  unfoldable pub send_heartbeat : List ℕ → SenderWorker → SenderWorker
  send_heartbeat data_ w = record w {
    stats = heartbeat_stats (send_to data_) w.stats;
    sent = w.sent ++ data_ ∷ [];
  }

  -- The numbers after a packet and the builder for the next one.
  unfoldable pub next_batch : ℕ → SenderWorker → SenderWorker
  next_batch msg_count w =
      let packet_seq = (w.packet_seq + 1) % 2 ^ 64 in
      let msg_seq = (w.msg_seq + msg_count) % 2 ^ 64 in
      record w {
        packet_seq = packet_seq;
        msg_seq = msg_seq;
        builder = new_builder w.stream_id packet_seq msg_seq;
      }

  -- The batch is sent and a new one started; `none` is a panic in the builder.
  unfoldable pub flush : SenderWorker → Option SenderWorker
  flush w = elim (finish w.builder) [
    | none ↦ none
    | some data_ ↦ some (next_batch w.builder.msg_count (send_packet data_ w))
  ]

  -- The result of adding to the new batch is not looked at.
  unfoldable pub add_to_new : OutgoingMessage → SenderWorker → Option SenderWorker
  add_to_new m w = elim (try_add_message m.msg_type m.payload w.builder) [
    | none ↦ none
    | some (b, taken) ↦ some (record w { builder = b })
  ]

  unfoldable pub add_or_flush : OutgoingMessage → Bool → SenderWorker → Option SenderWorker
  add_or_flush m true w = some w
  add_or_flush m false w = elim (flush w) [ none ↦ none | some w' ↦ add_to_new m w' ]

  -- A message from the channel, in the loop and when the channel is drained.
  unfoldable pub on_message : OutgoingMessage → SenderWorker → Option SenderWorker
  on_message m w = elim (try_add_message m.msg_type m.payload w.builder) [
    | none ↦ none
    | some (b, taken) ↦ add_or_flush m taken (record w { builder = b })
  ]

  unfoldable pub send_due : SenderWorker → Option SenderWorker
  send_due w = elim (heartbeat_packet w.stream_id w.packet_seq w.msg_seq) [
    | none ↦ none
    | some data_ ↦
        let w' = send_heartbeat data_ w in
        some (record w' { packet_seq = (w'.packet_seq + 1) % 2 ^ 64 })
  ]

  unfoldable pub on_timeout : Bool → SenderWorker → Option SenderWorker
  on_timeout due w =
      if not (builder_is_empty w.builder)
      then flush w
      else if w.enable_heartbeats && due
      then send_due w
      else some w

  unfoldable pub sender_step : SenderInput → SenderWorker → Option SenderWorker
  sender_step (message m) w = on_message m w
  sender_step (timeout due) w = on_timeout due w

  -- The rounds of the loop, in order.
  unfoldable pub sender_loop : List SenderInput → SenderWorker → Option SenderWorker
  sender_loop [] w = some w
  sender_loop (i ∷ is) w = elim (sender_step i w) [ none ↦ none | some w' ↦ sender_loop is w' ]

  -- The last batch, after the loop.
  unfoldable pub last_flush : SenderWorker → Option SenderWorker
  last_flush w =
      if not (builder_is_empty w.builder)
      then elim (finish w.builder) [ none ↦ none | some data_ ↦ some (send_packet data_ w) ]
      else some w

  -- `run`: the rounds while the worker runs, then the messages that are left in the channel.
  unfoldable pub run : List SenderInput → List OutgoingMessage → SenderWorker → Option SenderWorker
  run inputs left w = elim (sender_loop inputs w) [
    | none ↦ none
    | some w' ↦ elim (sender_loop (map message left) w') [ none ↦ none | some w'' ↦ last_flush w'' ]
  ]
