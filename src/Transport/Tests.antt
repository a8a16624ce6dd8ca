-- ===== src/Transport/Tests.antt =====
-- The theorems about the sender and the receiver, at concrete messages.
use mexchange_study.Common.{
  ℕ, ◌≡◌, true, false, Option, some, List, [], ◌∷◌, ◌++◌, map, arith, length,
}
use mexchange_study.Wire.Headers.{order_new, new_header, MessageHeader}
use mexchange_study.Wire.Packets.{Packet}
use mexchange_study.Wire.PacketTrips.{numbered}
use mexchange_study.Transport.Sender.{
  OutgoingMessage, SenderWorker, new_sender, SenderInput, message, timeout, run,
}
use mexchange_study.Transport.Receiver.{
  active, ReceiverWorker, no_receiver_stats, datagram, would_block, socket_error, receiver_loop,
}
use mexchange_study.Transport.Sending.{messages_of, pair_of}
use mexchange_study.Transport.Flow.{messages_taken, run-sent}
use mexchange_study.Transport.Gaps.{FewGaps, receiver_loop-FewGaps}

abbrev order_message : OutgoingMessage
order_message = record { msg_type = order_new; payload = 104 ∷ 105 ∷ [] }

-- A socket that sends everything.
abbrev socket : List ℕ → Option ℕ
socket bytes = some (length bytes)

abbrev inputs : List SenderInput
inputs = message order_message ∷ timeout false ∷ timeout true ∷ message order_message ∷ []

run-sent_example :
    (w : SenderWorker) × (run socket inputs (order_message ∷ []) (new_sender 5 true) ≡ some w)
    × (messages_of w.sent
        ≡ numbered 0 0 (messages_taken inputs ++ map pair_of (order_message ∷ [])))
run-sent_example =
    run-sent socket 5 true inputs (order_message ∷ []) (omega arith)
      (omega arith, (omega arith, tt)) (omega arith, tt)

abbrev order_header : MessageHeader
order_header = record { msg_type = 1; flags = 0; msg_len = 1 }

abbrev packet_at : ℕ → ℕ → Packet
packet_at seq first = record {
  header = new_header 5 seq first 1;
  messages = record { header = order_header; payload = 104 ∷ []; seq = first } ∷ [];
}

abbrev receiver : ReceiverWorker
receiver = record {
  stream_id = 5;
  channel_capacity = 100;
  queue = [];
  stats = no_receiver_stats;
  state = active;
  gaps = [];
  expected_packet_seq = 7;
  expected_msg_seq = 40;
  initialized = true;
}

receiver_loop-FewGaps_example :
    FewGaps (receiver_loop (datagram (1 ∷ []) ∷ would_block true ∷ socket_error ∷ []) receiver)
receiver_loop-FewGaps_example =
    receiver_loop-FewGaps (datagram (1 ∷ []) ∷ would_block true ∷ socket_error ∷ []) receiver
      (omega arith)
