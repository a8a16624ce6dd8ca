-- ===== src/Wire/PacketTrips.antt =====
-- udp_proto/src/protocol.rs: the messages that a builder took are the ones that are parsed.
use mexchange_study.Common.{
  ℕ, suc, ◌+◌, ◌-◌, ◌%◌, ◌^◌, ◌≤◌, ◌<◌, ◌≡◌, refl, sym, ap, ◌∙◌, false, List, [], ◌∷◌, ◌++◌,
  append_assoc, arith, ltb, leb, length, take, drop, length-append, All,
}
use mexchange_study.Wire.Bytes.{ok, slice, to_le, drop-drop, length-drop, take_all, drop_all}
use mexchange_study.Wire.Headers.{
  MessageType, PacketHeader, MessageHeader, read_message_header, message_header_bytes, to_u8,
}
use mexchange_study.Wire.Packets.{Message, map_result, parse_messages}
use mexchange_study.Wire.HeaderTrips.{read_message_header_bytes}

-- A message as the sender hands it over.
abbrev pub Outgoing : Type 0
Outgoing = MessageType × List ℕ

abbrev pub wire_header : Outgoing → MessageHeader
wire_header (t, payload) = record { msg_type = to_u8 t; flags = 0; msg_len = length payload }

abbrev pub encode : List Outgoing → List ℕ
encode [] = []
encode (m ∷ ms) = message_header_bytes (wire_header m) ++ (m.1 ++ encode ms)

-- The messages as the receiver gets them, numbered from `first + i` on.
abbrev pub numbered : ℕ → ℕ → List Outgoing → List Message
numbered first i [] = []
numbered first i (m ∷ ms) =
    record { header = wire_header m; payload = m.1; seq = (first + i) % 2 ^ 64 }
    ∷ numbered first (suc i) ms

abbrev pub IsSmall : Outgoing → Type 0
IsSmall m = length m.1 < 2 ^ 16

pub length-message_header_bytes : (h : MessageHeader) → length (message_header_bytes h) ≡ 4
unfolding message_header_bytes to_le
length-message_header_bytes h = refl

pub encode-append : (xs ys : List Outgoing) → encode (xs ++ ys) ≡ encode xs ++ encode ys
encode-append [] ys = refl
encode-append (x ∷ xs) ys =
    ap (λ r. message_header_bytes (wire_header x) ++ (x.1 ++ r)) (encode-append xs ys)
    ∙ ap (λ r. message_header_bytes (wire_header x) ++ r)
        (sym (append_assoc x.1 (encode xs) (encode ys)))
    ∙ sym (append_assoc (message_header_bytes (wire_header x)) (x.1 ++ encode xs) (encode ys))

-- One message at the offset, and the rest after it.
record Splits (offset : ℕ) (m : Outgoing) (rest buf : List ℕ) : Type 0 where
  header_there : drop offset buf ≡ message_header_bytes (wire_header m) ++ (m.1 ++ rest)
  payload_there : drop (offset + 4) buf ≡ m.1 ++ rest
  rest_there : drop (offset + 4 + length m.1) buf ≡ rest
  enough : offset + 4 + length m.1 ≤ length buf

splits :
    (offset : ℕ) (m : Outgoing) (rest buf : List ℕ)
    → drop offset buf ≡ message_header_bytes (wire_header m) ++ (m.1 ++ rest)
    → Splits offset m rest buf
splits offset m rest buf e =
    let hb = message_header_bytes (wire_header m) in
    let four = length-message_header_bytes (wire_header m) in
    let after : drop (offset + 4) buf ≡ m.1 ++ rest =
      sym (drop-drop (offset + 4) offset 4 buf refl)
      ∙ ap (drop 4) e
      ∙ ap (λ n. drop n (hb ++ (m.1 ++ rest))) (sym four)
      ∙ drop_all hb (m.1 ++ rest) in
    let total : length buf - offset ≡ length hb + (length m.1 + length rest) =
      sym (length-drop offset buf)
      ∙ ap length e
      ∙ length-append hb (m.1 ++ rest)
      ∙ ap (λ n. length hb + n) (length-append m.1 rest) in
    record {
      header_there = e;
      payload_there = after;
      rest_there =
          sym (drop-drop (offset + 4 + length m.1) (offset + 4) (length m.1) buf refl)
          ∙ ap (drop (length m.1)) after
          ∙ drop_all m.1 rest;
      enough = omega (arith, total, four);
    }

slice_front : (a n b : ℕ) (buf : List ℕ) → b ≡ a + n → slice a b buf ≡ take n (drop a buf)
unfolding slice
slice_front a n b buf e = ap (λ i. take i (drop a buf)) (omega (arith, e))

pub parse_messages-encode :
    (ms : List Outgoing) (i offset : ℕ) (h : PacketHeader) (buf : List ℕ)
    → All IsSmall ms
    → drop offset buf ≡ encode ms
    → parse_messages (length ms) i offset h buf ≡ ok (numbered h.first_msg_seq i ms)
unfolding parse_messages map_result
parse_messages-encode [] i offset h buf small e = refl
parse_messages-encode (m ∷ ms) i offset h buf small e =
    let s = splits offset m (encode ms) buf e in
    let more : leb (length buf) offset ≡ false = let n = s.enough in ground arith in
    let room : ltb (length buf) (offset + 4 + length m.1) ≡ false =
      let n = s.enough in ground arith in
    let read : read_message_header (drop offset buf) ≡ ok (wire_header m) =
      ap read_message_header e
      ∙ read_message_header_bytes (to_u8 m.0) 0 (length m.1) (m.1 ++ encode ms) small.0 in
    let body : slice (offset + 4) (offset + 4 + length m.1) buf ≡ m.1 =
      slice_front (offset + 4) (length m.1) (offset + 4 + length m.1) buf refl
      ∙ ap (take (length m.1)) s.payload_there
      ∙ take_all m.1 (encode ms) in
    let rest =
      parse_messages-encode ms (suc i) (offset + 4 + length m.1) h buf small.1 s.rest_there in
    rw (more, read, room, rest, body) refl
