-- ===== src/Wire/Delivery.antt =====
-- udp_proto/src/protocol.rs: messages through a builder, its packet and `Packet::parse`.
use mexchange_study.Common.{
  ℕ, ◌+◌, ◌^◌, ◌≤◌, ◌<◌, ◌≡◌, refl, sym, ap, ◌∙◌, false, some, List, [], ◌++◌, append-nil, arith,
  ltb, length, take, drop, length-append,
}
use mexchange_study.Wire.Bytes.{
  ok, write_at, zeros, overwrite, to_le, take_append_overwrite, length-drop, drop_all,
}
use mexchange_study.Wire.Headers.{
  max_mtu, PacketHeader, new_header, heartbeat_header, write_header, read_header, header_bytes,
}
use mexchange_study.Wire.Packets.{
  map_result, parse_messages, parse, PacketBuilder, finish, heartbeat_packet,
}
use mexchange_study.Wire.HeaderTrips.{read_header_bytes, length-header_bytes}
use mexchange_study.Wire.PacketTrips.{Outgoing, encode, numbered, parse_messages-encode}
use mexchange_study.Wire.Building.{IsBuilt, length-take_le}

-- The numbers of a builder fit their fields.
pub record InRange (b : PacketBuilder) : Type 0 where
  pub stream_fits : b.stream_id < 2 ^ 32
  pub packet_fits : b.packet_seq < 2 ^ 64
  pub first_fits : b.first_msg_seq < 2 ^ 64

abbrev pub header_of : PacketBuilder → PacketHeader
header_of b = new_header b.stream_id b.packet_seq b.first_msg_seq b.msg_count

finish-bytes :
    (b : PacketBuilder) (ms : List Outgoing)
    → IsBuilt b ms
    → finish b ≡ some (header_bytes (header_of b) ++ encode ms)
unfolding finish write_header write_at
finish-bytes b ms v =
    let full = v.full in
    let upto = v.upto in
    let room = v.room in
    let hb = header_bytes (header_of b) in
    let len = length-header_bytes (header_of b) in
    let wide : ltb (length b.buf) 24 ≡ false = ground arith in
    let cut : take b.write_offset (overwrite hb b.buf) ≡ hb ++ encode ms =
      take_append_overwrite b.write_offset hb b.buf (omega (arith, len, room))
        (omega (arith, len, full))
      ∙ ap (λ n. hb ++ drop n (take b.write_offset b.buf)) len
      ∙ ap (λ r. hb ++ r) v.body in
    rw (wide, finish, write_header, cut) refl

encoded_size :
    (b : PacketBuilder) (ms : List Outgoing)
    → IsBuilt b ms
    → (n : ℕ) → n ≡ 24
    → n + length (encode ms) ≡ b.write_offset
encoded_size b ms v n e =
    let full = v.full in
    let upto = v.upto in
    let room = v.room in
    omega (
      arith,
      e,
      room,
      ap length v.body,
      length-drop 24 (take b.write_offset b.buf),
      length-take_le b.write_offset b.buf (omega (arith, full, upto)),
    )

-- A builder that holds messages finishes, within the MTU, to a packet that is parsed as its header and
-- exactly these messages, in order and numbered from the first number on.
pub finish-parse :
    (b : PacketBuilder) (ms : List Outgoing)
    → IsBuilt b ms
    → InRange b
    → (bytes : List ℕ) × (finish b ≡ some bytes)
      × (length bytes ≤ max_mtu)
      × (parse bytes
          ≡ ok (record { header = header_of b; messages = numbered b.first_msg_seq 0 ms }))
unfolding parse map_result new_header
finish-parse b ms v r =
    let hb = header_bytes (header_of b) in
    let len = length-header_bytes (header_of b) in
    let upto = v.upto in
    let room = v.room in
    let counted = v.counted in
    let read =
      read_header_bytes b.stream_id b.packet_seq b.first_msg_seq b.msg_count (encode ms)
        r.stream_fits r.packet_fits r.first_fits (omega (arith, upto, room, counted)) in
    let behind : drop 24 (hb ++ encode ms) ≡ encode ms =
      ap (λ n. drop n (hb ++ encode ms)) (sym len) ∙ drop_all hb (encode ms) in
    let loop : parse_messages b.msg_count 0 24 (header_of b) (hb ++ encode ms)
        ≡ ok (numbered b.first_msg_seq 0 ms) =
      ap (λ n. parse_messages n 0 24 (header_of b) (hb ++ encode ms)) counted
      ∙ parse_messages-encode ms 0 24 (header_of b) (hb ++ encode ms) v.small behind in
    let size : length (hb ++ encode ms) ≡ b.write_offset =
      length-append hb (encode ms) ∙ encoded_size b ms v (length hb) len in
    (
      hb ++ encode ms,
      finish-bytes b ms v,
      omega (arith, size, len, upto),
      rw (read, parse, loop) refl,
    )

heartbeat-bytes :
    (stream packet first : ℕ)
    → heartbeat_packet stream packet first ≡ some (header_bytes (new_header stream packet first 0))
unfolding heartbeat_packet heartbeat_header write_header write_at overwrite zeros header_bytes to_le
heartbeat-bytes stream packet first = refl

-- A heartbeat is read as a packet without messages.
pub heartbeat_packet-parse :
    (stream packet first : ℕ)
    → stream < 2 ^ 32
    → packet < 2 ^ 64
    → first < 2 ^ 64
    → (bytes : List ℕ) × (heartbeat_packet stream packet first ≡ some bytes)
      × (parse bytes ≡ ok (record { header = new_header stream packet first 0; messages = [] }))
unfolding parse map_result new_header parse_messages
heartbeat_packet-parse stream packet first hs hp hf =
    let hb = header_bytes (new_header stream packet first 0) in
    let read : read_header hb ≡ ok (new_header stream packet first 0) =
      ap read_header (sym (append-nil hb))
      ∙ read_header_bytes stream packet first 0 [] hs hp hf (omega arith) in
    (hb, heartbeat-bytes stream packet first, rw (parse, read) refl)
