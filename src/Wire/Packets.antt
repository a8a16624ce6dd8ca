-- ===== src/Wire/Packets.antt =====
-- udp_proto/src/protocol.rs: reading a packet, and the builder of packets.
use mexchange_study.Common.{
  ℕ, zero, suc, ◌+◌, ◌-◌, ◌%◌, ◌^◌, Bool, true, false, Option, none, some, List, [], ◌∷◌, ltb, leb,
  ◌==◌, if◌then◌else◌, length, take, drop,
}
use mexchange_study.Wire.Bytes.{buffer_too_small, Result, ok, err, slice, write_at, zeros}
use mexchange_study.Wire.Headers.{
  packet_header_len, message_header_len, max_mtu, no_flags, MessageType, PacketHeader, new_header,
  heartbeat_header, write_header, read_header, MessageHeader, new_message_header,
  write_message_header, read_message_header,
}

pub record Message : Type 0 where
  pub header : MessageHeader
  pub payload : List ℕ
  pub seq : ℕ

pub record Packet : Type 0 where
  pub header : PacketHeader
  pub messages : List Message

unfoldable pub map_result {ℓ κ} : {A : Type ℓ} {B : Type κ} → (A → B) → Result A → Result B
map_result f (ok a) = ok (f a)
map_result f (err e) = err e

-- The loop of `Packet::parse`: the messages left to read, the number of the next one, and its offset.
unfoldable pub parse_messages : ℕ → ℕ → ℕ → PacketHeader → List ℕ → Result (List Message)
parse_messages zero i offset h buf = ok []
parse_messages (suc left) i offset h buf =
    if leb (length buf) offset then ok [] else elim (read_message_header (drop offset buf)) [
      | err e ↦ err e
      | ok m ↦
          let start = offset + message_header_len in
          let payload_end = start + m.msg_len in
          let rest = parse_messages left (suc i) payload_end h buf in
          if ltb (length buf) payload_end
          then err (buffer_too_small payload_end (length buf))
          else map_result
              (λ ms.
                record {
                  header = m;
                  payload = slice start payload_end buf;
                  seq = (h.first_msg_seq + i) % 2 ^ 64;
                }
                ∷ ms)
              rest
    ]

unfoldable pub parse : List ℕ → Result Packet
parse buf = elim (read_header buf) [
  | err e ↦ err e
  | ok h ↦
      map_result (λ ms. record { header = h; messages = ms })
        (parse_messages h.msg_count 0 packet_header_len h buf)
]

pub record PacketBuilder : Type 0 where
  pub buf : List ℕ
  pub stream_id : ℕ
  pub packet_seq : ℕ
  pub first_msg_seq : ℕ
  pub msg_count : ℕ
  pub write_offset : ℕ

-- `PacketBuilder::new`
unfoldable pub new_builder : ℕ → ℕ → ℕ → PacketBuilder
new_builder stream_id packet_seq first_msg_seq = record {
  buf = zeros max_mtu;
  stream_id = stream_id;
  packet_seq = packet_seq;
  first_msg_seq = first_msg_seq;
  msg_count = 0;
  write_offset = packet_header_len;
}

unfoldable pub remaining_capacity : PacketBuilder → ℕ
remaining_capacity b = max_mtu - b.write_offset

unfoldable pub builder_is_empty : PacketBuilder → Bool
builder_is_empty b = b.msg_count == 0

-- `try_add_message`: `none` is the panic of the `unwrap` on the header's write.
unfoldable pub try_add_message :
    MessageType → List ℕ → PacketBuilder → Option (PacketBuilder × Bool)
try_add_message t payload b =
    if ltb (remaining_capacity b) (message_header_len + length payload)
    then some (b, false)
    else elim (write_message_header (new_message_header t no_flags (length payload % 2 ^ 16))
        b.write_offset b.buf) [
          | err e ↦ none
          | ok (buf, written) ↦
              let offset = b.write_offset + message_header_len in
              some (
                record b {
                  buf = write_at offset payload buf;
                  write_offset = offset + length payload;
                  msg_count = (b.msg_count + 1) % 2 ^ 16;
                },
                true,
              )
        ]

-- `finish`, with `none` for the panic of its `unwrap`
unfoldable pub finish : PacketBuilder → Option (List ℕ)
finish b =
    elim (write_header (new_header b.stream_id b.packet_seq b.first_msg_seq b.msg_count) b.buf) [
      | err e ↦ none
      | ok (buf, written) ↦ some (take b.write_offset buf)
    ]

-- `PacketBuilder::heartbeat`
unfoldable pub heartbeat_packet : ℕ → ℕ → ℕ → Option (List ℕ)
heartbeat_packet stream_id packet_seq msg_seq =
    elim (write_header (heartbeat_header stream_id packet_seq msg_seq) (zeros packet_header_len)) [
      | err e ↦ none
      | ok (buf, written) ↦ some buf
    ]
