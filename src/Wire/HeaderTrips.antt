-- ===== src/Wire/HeaderTrips.antt =====
-- udp_proto/src/protocol.rs: what is written for a header is read back.
use mexchange_study.Common.{
  ℕ, suc, ◌^◌, ◌<◌, ◌≡◌, refl, false, some, List, ◌++◌, arith, ltb, length, length-append,
}
use mexchange_study.Wire.Bytes.{
  ok, slice, to_le, byte_at, from_le-to_le, Fits-u16, Fits-u32, Fits-u64,
}
use mexchange_study.Wire.Headers.{
  packet_header_len, MessageType, PacketHeader, new_header, read_header, MessageHeader,
  read_message_header, header_bytes, message_header_bytes, to_u8, from_u8, order_new, order_cancel,
  order_replace, match_event, book_snapshot, book_update, position_update, heartbeat, control,
}

-- Every message type is read back from its byte.
pub from_u8-to_u8 : (t : MessageType) → from_u8 (to_u8 t) ≡ some t
unfolding from_u8 to_u8
from_u8-to_u8 order_new = refl
from_u8-to_u8 order_cancel = refl
from_u8-to_u8 order_replace = refl
from_u8-to_u8 match_event = refl
from_u8-to_u8 book_snapshot = refl
from_u8-to_u8 book_update = refl
from_u8-to_u8 position_update = refl
from_u8-to_u8 heartbeat = refl
from_u8-to_u8 control = refl

pub read_message_header_bytes :
    (t flags len : ℕ) (rest : List ℕ)
    → len < 2 ^ 16
    → let h : MessageHeader = record { msg_type = t; flags = flags; msg_len = len } in
      read_message_header (message_header_bytes h ++ rest) ≡ ok h
unfolding read_message_header message_header_bytes slice byte_at to_le
read_message_header_bytes t flags len rest h =
    let short : ltb (suc (suc (suc (suc (length rest))))) 4 ≡ false = ground arith in
    let n = from_le-to_le 2 len (Fits-u16 len h) in rw (short, n) refl

long_enough : (n : ℕ) (xs rest : List ℕ) → length xs ≡ n → ltb (length (xs ++ rest)) n ≡ false
long_enough n xs rest e = let l = length-append xs rest in ground arith

pub length-header_bytes : (h : PacketHeader) → length (header_bytes h) ≡ packet_header_len
unfolding header_bytes to_le
length-header_bytes h = refl

-- What is written for a header whose numbers fit their fields is read back as that header, whatever
-- follows it.
pub read_header_bytes :
    (stream packet first count : ℕ) (rest : List ℕ)
    → stream < 2 ^ 32
    → packet < 2 ^ 64
    → first < 2 ^ 64
    → count < 2 ^ 16
    → read_header (header_bytes (new_header stream packet first count) ++ rest)
      ≡ ok (new_header stream packet first count)
unfolding read_header header_bytes slice byte_at to_le new_header
read_header_bytes stream packet first count rest hs hp hf hc =
    let h = new_header stream packet first count in
    let long = long_enough 24 (header_bytes h) rest (length-header_bytes h) in
    rw
      (
        long,
        from_le-to_le 2 count (Fits-u16 count hc),
        from_le-to_le 4 stream (Fits-u32 stream hs),
        from_le-to_le 8 packet (Fits-u64 packet hp),
        from_le-to_le 8 first (Fits-u64 first hf),
      )
      refl
