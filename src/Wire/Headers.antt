-- ===== src/Wire/Headers.antt =====
-- udp_proto/src/protocol.rs: message types and the two headers.
use mexchange_study.Common.{
  ℕ, ◌+◌, ◌-◌, Bool, not, Option, none, some, List, ◌∷◌, ◌++◌, ltb, ◌==◌, if◌then◌else◌, length,
}
use mexchange_study.Wire.Bytes.{
  buffer_too_small, invalid_version, invalid_header_length, Result, ok, err, to_le, from_le,
  byte_at, slice, write_at,
}

abbrev pub protocol_version : ℕ
protocol_version = 1

abbrev pub packet_header_len : ℕ
packet_header_len = 24

abbrev pub message_header_len : ℕ
message_header_len = 4

abbrev pub max_mtu : ℕ
max_mtu = 1400

pub data MessageType : Type 0 where
  order_new order_cancel order_replace match_event book_snapshot book_update position_update
        heartbeat control :
      MessageType

-- `as u8`
unfoldable pub to_u8 : MessageType → ℕ
to_u8 order_new = 1
to_u8 order_cancel = 2
to_u8 order_replace = 3
to_u8 match_event = 16
to_u8 book_snapshot = 17
to_u8 book_update = 18
to_u8 position_update = 32
to_u8 heartbeat = 48
to_u8 control = 64

unfoldable pub from_u8 : ℕ → Option MessageType
from_u8 value =
    if value == 1
    then some order_new
    else if value == 2
    then some order_cancel
    else if value == 3
    then some order_replace
    else if value == 16
    then some match_event
    else if value == 17
    then some book_snapshot
    else if value == 18
    then some book_update
    else if value == 32
    then some position_update
    else if value == 48
    then some heartbeat
    else if value == 64
    then some control
    else none

pub record PacketHeader : Type 0 where
  pub version : ℕ
  pub header_len : ℕ
  pub msg_count : ℕ
  pub stream_id : ℕ
  pub packet_seq : ℕ
  pub first_msg_seq : ℕ

-- `PacketHeader::new`
unfoldable pub new_header : ℕ → ℕ → ℕ → ℕ → PacketHeader
new_header stream_id packet_seq first_msg_seq msg_count = record {
  version = protocol_version;
  header_len = packet_header_len;
  msg_count = msg_count;
  stream_id = stream_id;
  packet_seq = packet_seq;
  first_msg_seq = first_msg_seq;
}

-- `PacketHeader::heartbeat`
unfoldable pub heartbeat_header : ℕ → ℕ → ℕ → PacketHeader
heartbeat_header stream_id packet_seq msg_seq = new_header stream_id packet_seq msg_seq 0

unfoldable pub header_bytes : PacketHeader → List ℕ
header_bytes h =
    h.version ∷ h.header_len ∷ to_le 2 h.msg_count
    ++ (to_le 4 h.stream_id ++ (to_le 8 h.packet_seq ++ to_le 8 h.first_msg_seq))

-- `PacketHeader::write_to`: the buffer afterwards, with the number of bytes written
unfoldable pub write_header : PacketHeader → List ℕ → Result (List ℕ × ℕ)
write_header h buf =
    if ltb (length buf) packet_header_len
    then err (buffer_too_small packet_header_len (length buf))
    else ok (write_at 0 (header_bytes h) buf, packet_header_len)

-- `PacketHeader::read_from`
unfoldable pub read_header : List ℕ → Result PacketHeader
read_header buf =
    if ltb (length buf) packet_header_len
    then err (buffer_too_small packet_header_len (length buf))
    else if not (byte_at 0 buf == protocol_version)
    then err (invalid_version protocol_version (byte_at 0 buf))
    else if not (byte_at 1 buf == packet_header_len)
    then err (invalid_header_length packet_header_len (byte_at 1 buf))
    else ok (record {
      version = byte_at 0 buf;
      header_len = byte_at 1 buf;
      msg_count = from_le (slice 2 4 buf);
      stream_id = from_le (slice 4 8 buf);
      packet_seq = from_le (slice 8 16 buf);
      first_msg_seq = from_le (slice 16 24 buf);
    })

unfoldable pub is_heartbeat : PacketHeader → Bool
is_heartbeat h = h.msg_count == 0

pub record MessageHeader : Type 0 where
  pub msg_type : ℕ
  pub flags : ℕ
  pub msg_len : ℕ

abbrev pub no_flags : ℕ
no_flags = 0

-- `MessageHeader::new`
unfoldable pub new_message_header : MessageType → ℕ → ℕ → MessageHeader
new_message_header t flags payload_len = record {
  msg_type = to_u8 t;
  flags = flags;
  msg_len = payload_len;
}

unfoldable pub message_header_bytes : MessageHeader → List ℕ
message_header_bytes h = h.msg_type ∷ h.flags ∷ to_le 2 h.msg_len

-- `MessageHeader::write_to`, on `buf[offset..]`
unfoldable pub write_message_header : MessageHeader → ℕ → List ℕ → Result (List ℕ × ℕ)
write_message_header h offset buf =
    if ltb (length buf - offset) message_header_len
    then err (buffer_too_small message_header_len (length buf - offset))
    else ok (write_at offset (message_header_bytes h) buf, message_header_len)

-- `MessageHeader::read_from`
unfoldable pub read_message_header : List ℕ → Result MessageHeader
read_message_header buf =
    if ltb (length buf) message_header_len
    then err (buffer_too_small message_header_len (length buf))
    else ok (record {
      msg_type = byte_at 0 buf;
      flags = byte_at 1 buf;
      msg_len = from_le (slice 2 4 buf);
    })

unfoldable pub message_type : MessageHeader → Option MessageType
message_type h = from_u8 h.msg_type

unfoldable pub total_len : MessageHeader → ℕ
total_len h = message_header_len + h.msg_len
