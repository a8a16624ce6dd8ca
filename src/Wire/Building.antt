-- ===== src/Wire/Building.antt =====
-- udp_proto/src/protocol.rs: what a builder holds, and the packet that it finishes.
use mexchange_study.Common.{
  ℕ, zero, suc, ◌+◌, ◌-◌, ◌*◌, ◌%◌, ◌^◌, ◌≤◌, ◌<◌, ◌≡◌, refl, sym, ap, ◌∙◌, ◌⊎◌, inl, inr, true,
  false, some, List, [], ◌∷◌, ◌++◌, append-nil, append_assoc, arith, ltb, Bool-cases, length, take,
  drop, length-append, All, All-append,
}
use mexchange_study.Wire.Bytes.{write_at, zeros, length-zeros, length-write_at, take-write_at}
use mexchange_study.Wire.Headers.{
  packet_header_len, max_mtu, new_message_header, write_message_header, message_header_bytes,
}
use mexchange_study.Wire.Packets.{PacketBuilder, new_builder, remaining_capacity, try_add_message}
use mexchange_study.Wire.PacketTrips.{
  Outgoing, wire_header, encode, IsSmall, encode-append, length-message_header_bytes,
}

-- The builder holds these messages, written one after the other behind the header's place.
pub record IsBuilt (b : PacketBuilder) (ms : List Outgoing) : Type 0 where
  pub full : length b.buf ≡ max_mtu
  pub upto : b.write_offset ≤ max_mtu
  pub room : packet_header_len + 4 * length ms ≤ b.write_offset
  pub body : drop packet_header_len (take b.write_offset b.buf) ≡ encode ms
  pub counted : b.msg_count ≡ length ms
  pub small : All IsSmall ms

pub new_builder-IsBuilt : (s p f : ℕ) → IsBuilt (new_builder s p f) []
unfolding new_builder zeros
new_builder-IsBuilt s p f = record {
  full = length-zeros 1400;
  upto = omega arith;
  room = omega arith;
  body = refl;
  counted = refl;
  small = tt;
}

drop_front : (n : ℕ) (xs ys : List ℕ) → n ≤ length xs → drop n (xs ++ ys) ≡ drop n xs ++ ys
drop_front zero xs ys h = refl
drop_front (suc n) [] ys h = absurd (omega (arith, h))
drop_front (suc n) (x ∷ xs) ys h = drop_front n xs ys (omega (arith, h))

pub length-take_le : (n : ℕ) (xs : List ℕ) → n ≤ length xs → length (take n xs) ≡ n
length-take_le zero xs h = refl
length-take_le (suc n) [] h = absurd (omega (arith, h))
length-take_le (suc n) (x ∷ xs) h = omega (arith, length-take_le n xs)

-- Two writes, one behind the other.
take-two_writes :
    (n a m : ℕ) (xs ys buf : List ℕ)
    → a ≡ n + length xs
    → m ≡ a + length ys
    → m ≤ length buf
    → take m (write_at a ys (write_at n xs buf)) ≡ take n buf ++ (xs ++ ys)
take-two_writes n a m xs ys buf e f h =
    take-write_at m a ys (write_at n xs buf) f (omega (arith, h, length-write_at n xs buf))
    ∙ ap (λ (r : List ℕ). r ++ ys) (take-write_at a n xs buf e (omega (arith, e, f, h)))
    ∙ append_assoc (take n buf) xs ys

-- What the builder has when the message fits.
abbrev added : Outgoing → PacketBuilder → PacketBuilder
added m b = record b {
  buf =
      write_at (b.write_offset + 4) m.1
        (write_at b.write_offset (message_header_bytes (wire_header m)) b.buf);
  write_offset = b.write_offset + 4 + length m.1;
  msg_count = (b.msg_count + 1) % 2 ^ 16;
}

added-IsBuilt :
    (m : Outgoing) (b : PacketBuilder) (ms : List Outgoing)
    → IsBuilt b ms
    → 4 + length m.1 ≤ max_mtu - b.write_offset
    → IsBuilt (added m b) (ms ++ m ∷ [])
added-IsBuilt m b ms v fits =
    let hb = message_header_bytes (wire_header m) in
    let four = length-message_header_bytes (wire_header m) in
    let n = length-append ms (m ∷ []) in
    let full = v.full in
    let upto = v.upto in
    let room = v.room in
    let counted = v.counted in
    record {
      full =
          length-write_at (b.write_offset + 4) m.1 (write_at b.write_offset hb b.buf)
          ∙ length-write_at b.write_offset hb b.buf
          ∙ full;
      upto = omega (arith, fits, upto);
      room = omega (arith, room, n);
      body =
          ap (drop 24) (
            take-two_writes b.write_offset (b.write_offset + 4) (b.write_offset + 4 + length m.1) hb
              m.1 b.buf (omega (arith, four)) refl (omega (arith, fits, upto, full)))
          ∙ drop_front 24 (take b.write_offset b.buf) (hb ++ m.1)
              (omega (arith, room, length-take_le b.write_offset b.buf (omega (arith, upto, full))))
          ∙ ap (λ (r : List ℕ). r ++ (hb ++ m.1)) v.body
          ∙ ap (λ (r : List ℕ). encode ms ++ (hb ++ r)) (sym (append-nil m.1))
          ∙ sym (encode-append ms (m ∷ []));
      counted = omega (arith, n, counted, room, upto, fits);
      small = All-append IsSmall ms (m ∷ []) v.small (omega (arith, fits), tt);
    }

pub record SameStream (b b' : PacketBuilder) : Type 0 where
  pub same_stream : b'.stream_id ≡ b.stream_id
  pub same_packet : b'.packet_seq ≡ b.packet_seq
  pub same_first : b'.first_msg_seq ≡ b.first_msg_seq

-- A message is taken when it fits and refused otherwise, and never panics.
pub try_add_message-IsBuilt :
    (m : Outgoing) (b : PacketBuilder) (ms : List Outgoing)
    → IsBuilt b ms
    → ((4 + length m.1 ≤ remaining_capacity b)
        × (b' : PacketBuilder) × (try_add_message m.0 m.1 b ≡ some (b', true))
        × IsBuilt b' (ms ++ m ∷ [])
        × SameStream b b')
      ⊎ ((remaining_capacity b < 4 + length m.1) × (try_add_message m.0 m.1 b ≡ some (b, false)))
unfolding try_add_message write_message_header new_message_header remaining_capacity
try_add_message-IsBuilt m b ms v =
    elim (Bool-cases (ltb (max_mtu - b.write_offset) (4 + length m.1))) [
      | inl big ↦ inr (ground arith, rw big refl)
      | inr fits ↦
          let fit : 4 + length m.1 ≤ max_mtu - b.write_offset = ground arith in
          let upto = v.upto in
          let full = v.full in
          let room : ltb (length b.buf - b.write_offset) 4 ≡ false = ground arith in
          let small : length m.1 % 2 ^ 16 ≡ length m.1 = omega (arith, fit) in
          inl (
            fit,
            added m b,
            rw (fits, small, room) refl,
            added-IsBuilt m b ms v fit,
            record { same_stream = refl; same_packet = refl; same_first = refl },
          )
    ]
