-- ===== src/Wire/Tests.antt =====
-- The theorems about packets, at concrete messages.
use mexchange_study.Common.{
  ℕ, ◌+◌, ◌≤◌, ◌<◌, ◌≡◌, refl, ◌⊎◌, true, false, some, List, [], ◌∷◌, ◌++◌, arith, length,
}
use mexchange_study.Wire.Bytes.{ok, write_at, overwrite, zeros, to_le}
use mexchange_study.Wire.Headers.{order_new, max_mtu, message_header_bytes, to_u8}
use mexchange_study.Wire.Packets.{
  parse, PacketBuilder, new_builder, remaining_capacity, try_add_message, finish,
}
use mexchange_study.Wire.PacketTrips.{Outgoing, numbered}
use mexchange_study.Wire.Building.{
  IsBuilt, SameStream, new_builder-IsBuilt, try_add_message-IsBuilt,
}
use mexchange_study.Wire.Delivery.{header_of, finish-parse}

abbrev builder : PacketBuilder
builder = new_builder 5 300 70000

abbrev order_message : Outgoing
order_message = (order_new, 104 ∷ 105 ∷ [])

try_add_message-IsBuilt_example :
    ((4 + length order_message.1 ≤ remaining_capacity builder)
      × (b' : PacketBuilder) × (try_add_message order_message.0 order_message.1 builder
          ≡ some (b', true))
      × IsBuilt b' ([] ++ order_message ∷ [])
      × SameStream builder b')
    ⊎ ((remaining_capacity builder < 4 + length order_message.1)
        × (try_add_message order_message.0 order_message.1 builder ≡ some (builder, false)))
try_add_message-IsBuilt_example =
    try_add_message-IsBuilt order_message builder [] (new_builder-IsBuilt 5 300 70000)

-- The builder with one message in it.
abbrev filled_builder : PacketBuilder
filled_builder = record {
  buf = write_at 28 (104 ∷ 105 ∷ []) (write_at 24 (1 ∷ 0 ∷ 2 ∷ 0 ∷ []) (zeros 1400));
  stream_id = 5;
  packet_seq = 300;
  first_msg_seq = 70000;
  msg_count = 1;
  write_offset = 30;
}

filled_builder-IsBuilt : IsBuilt filled_builder (order_message ∷ [])
unfolding write_at overwrite zeros message_header_bytes to_u8 to_le
filled_builder-IsBuilt = record {
  full = refl;
  upto = omega arith;
  room = omega arith;
  body = refl;
  counted = refl;
  small = (omega arith, tt);
}

finish-parse_example :
    (bytes : List ℕ) × (finish filled_builder ≡ some bytes)
    × (length bytes ≤ max_mtu)
    × (parse bytes
        ≡ ok (record {
          header = header_of filled_builder;
          messages = numbered 70000 0 (order_message ∷ []);
        }))
finish-parse_example =
    finish-parse filled_builder (order_message ∷ []) filled_builder-IsBuilt
      (record { stream_fits = omega arith; packet_fits = omega arith; first_fits = omega arith })
