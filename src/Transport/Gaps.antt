-- ===== src/Transport/Gaps.antt =====
-- udp_proto/src/receiver.rs: packets that come twice, and packets that come after a hole.
use mexchange_study.Common.{
  ℕ, zero, suc, ◌+◌, ◌-◌, ◌%◌, ◌^◌, ◌≤◌, ◌<◌, ◌≡◌, refl, sym, ap, ◌∙◌, subst, ◌⊎◌, inl, inr, Bool,
  true, false, ◌&&◌, not, Option, none, some, List, [], ◌∷◌, ◌++◌, arith, ltb, ◌==◌, if◌then◌else◌,
  Bool-cases, length,
}
use mexchange_study.Wire.Bytes.{Result, ok, err}
use mexchange_study.Wire.Headers.{MessageType, PacketHeader, is_heartbeat, message_type}
use mexchange_study.Wire.Packets.{Message, Packet, parse}
use mexchange_study.Transport.Sender.{fetch_add}
use mexchange_study.Transport.Receiver.{
  degraded, down, GapInfo, ReceiverWorker, update_state_active, keep_recent, record_gap, deliver,
  deliver_all, initialize, check_gap, process_data, count_packet, count_heartbeat, process_parsed,
  on_result, on_datagram, ReceiverInput, datagram, would_block, socket_error, receiver_step,
  receiver_loop,
}
use mexchange_study.Transport.Receiving.{received}
use mexchange_study.Transport.Ordered.{initialize_started, process_parsed-data}

length-keep_recent :
    (fuel : ℕ) (gs : List GapInfo) → length gs ≤ fuel → length (keep_recent fuel gs) ≤ 100
unfolding keep_recent
length-keep_recent fuel [] h = omega arith
length-keep_recent zero (g ∷ gs) h = absurd (omega (arith, h))
length-keep_recent (suc fuel) (g ∷ gs) h = ground (arith, length-keep_recent fuel gs)

deliver-gaps :
    (t : Option MessageType) (stream : ℕ) (m : Message) (w : ReceiverWorker)
    → (deliver t stream m w).gaps ≡ w.gaps
unfolding deliver
deliver-gaps none stream m w = refl
deliver-gaps (some t) stream m w = refl

deliver_all-gaps :
    (stream : ℕ) (ms : List Message) (w : ReceiverWorker) → (deliver_all stream ms w).gaps ≡ w.gaps
unfolding deliver_all
deliver_all-gaps stream [] w = refl
deliver_all-gaps stream (m ∷ ms) w =
    deliver_all-gaps stream ms (deliver (message_type m.header) stream m w)
    ∙ deliver-gaps (message_type m.header) stream m w

abbrev pub FewGaps : ReceiverWorker → Type 0
FewGaps w = length w.gaps ≤ 100

FewGaps-if :
    (b : Bool) (w v : ReceiverWorker) → FewGaps w → FewGaps v → FewGaps (if b then w else v)
FewGaps-if true w v h k = h
FewGaps-if false w v h k = k

check_gap-FewGaps : (h : PacketHeader) (w : ReceiverWorker) → FewGaps w → FewGaps (check_gap h w)
unfolding check_gap record_gap
check_gap-FewGaps h w few =
    let size = (h.first_msg_seq + 2 ^ 64 - w.expected_msg_seq) % 2 ^ 64 in
    let gs =
      w.gaps
      ++ record {
        expected_seq = w.expected_msg_seq;
        received_seq = h.first_msg_seq;
        gap_size = size;
      }
        ∷ [] in
    FewGaps-if (ltb w.expected_packet_seq h.packet_seq)
      (record_gap w.expected_msg_seq h.first_msg_seq size w) w
      (length-keep_recent (length gs) gs (omega arith)) few

process_data-FewGaps : (p : Packet) (w : ReceiverWorker) → FewGaps w → FewGaps (process_data p w)
unfolding process_data
process_data-FewGaps p w few =
    let after = check_gap p.header w in
    let same = deliver_all-gaps p.header.stream_id p.messages after in
    let fine : FewGaps (deliver_all p.header.stream_id p.messages after) =
      subst (λ (gs : List GapInfo). length gs ≤ 100) (sym same)
        (check_gap-FewGaps p.header w few) in
    elim (Bool-cases (ltb p.header.packet_seq w.expected_packet_seq)) [
      | inl old ↦ rw old few
      | inr fresh ↦ rw fresh fine
    ]

initialize-FewGaps : (h : PacketHeader) (w : ReceiverWorker) → FewGaps w → FewGaps (initialize h w)
unfolding initialize update_state_active
initialize-FewGaps h w few =
    FewGaps-if w.initialized w
      (update_state_active (record w {
        expected_packet_seq = h.packet_seq;
        expected_msg_seq = h.first_msg_seq;
        initialized = true;
      }))
      few few

process_parsed-FewGaps :
    (p : Packet) (w : ReceiverWorker) → FewGaps w → FewGaps (process_parsed p w)
unfolding process_parsed update_state_active count_heartbeat count_packet
process_parsed-FewGaps p w few =
    FewGaps-if (not (w.stream_id == 0) && not (p.header.stream_id == w.stream_id)) w
      (if is_heartbeat p.header
        then update_state_active (count_heartbeat (count_packet w))
        else process_data p (initialize p.header (count_packet w)))
      few
      (FewGaps-if (is_heartbeat p.header) (update_state_active (count_heartbeat (count_packet w)))
        (process_data p (initialize p.header (count_packet w))) few
        (process_data-FewGaps p (initialize p.header (count_packet w))
          (initialize-FewGaps p.header (count_packet w) few)))

on_result-FewGaps : (r : Result Packet) (w : ReceiverWorker) → FewGaps w → FewGaps (on_result r w)
unfolding on_result
on_result-FewGaps (ok p) w few = process_parsed-FewGaps p w few
on_result-FewGaps (err e) w few = few

receiver_step-FewGaps :
    (i : ReceiverInput) (w : ReceiverWorker) → FewGaps w → FewGaps (receiver_step i w)
unfolding receiver_step on_datagram
receiver_step-FewGaps (datagram bytes) w few =
    on_result-FewGaps (parse bytes)
      (record w {
        stats = record w.stats { bytes_received = fetch_add w.stats.bytes_received (length bytes) };
      })
      few
receiver_step-FewGaps (would_block late) w few =
    FewGaps-if (w.initialized && late) (record w { state = down }) w few few
receiver_step-FewGaps socket_error w few = few

-- Whatever arrives, the receiver never keeps more than 100 gaps.
pub receiver_loop-FewGaps :
    (is : List ReceiverInput) (w : ReceiverWorker) → FewGaps w → FewGaps (receiver_loop is w)
unfolding receiver_loop
receiver_loop-FewGaps [] w few = few
receiver_loop-FewGaps (i ∷ is) w few =
    receiver_loop-FewGaps is (receiver_step i w) (receiver_step-FewGaps i w few)

-- What matters to the receiver's user.
abbrev pub Unchanged : ReceiverWorker → ReceiverWorker → Type 0
Unchanged w w' =
    (w'.queue ≡ w.queue)
    × (w'.state ≡ w.state)
    × (w'.gaps ≡ w.gaps)
    × (w'.expected_packet_seq ≡ w.expected_packet_seq)
    × (w'.expected_msg_seq ≡ w.expected_msg_seq)

process_data-old :
    (p : Packet) (w : ReceiverWorker)
    → p.header.packet_seq < w.expected_packet_seq
    → Unchanged w (process_data p w)
unfolding process_data
process_data-old p w h =
    let old : ltb p.header.packet_seq w.expected_packet_seq ≡ true = ground arith in
    rw old (refl, refl, refl, refl, refl)

-- A packet that was seen before is dropped: nothing is handed on and nothing is expected anew.
pub process_parsed-duplicate :
    (p : Packet) (w : ReceiverWorker)
    → w.initialized ≡ true
    → (w.stream_id ≡ 0) ⊎ (p.header.stream_id ≡ w.stream_id)
    → ¬ (p.header.msg_count ≡ 0)
    → p.header.packet_seq < w.expected_packet_seq
    → Unchanged w (process_parsed p w)
unfolding count_packet
process_parsed-duplicate p w started mine some_ h =
    subst (Unchanged w)
      (sym (
        process_parsed-data p w mine some_
        ∙ ap (process_data p) (initialize_started p.header (count_packet w) started)))
      (process_data-old p (count_packet w) h)

-- What a packet with a number beyond the expected one leaves behind.
abbrev pub AfterHole : Packet → ReceiverWorker → ReceiverWorker → Type 0
AfterHole p w w' =
    (w'.queue ≡ w.queue ++ received p.header.stream_id p.messages)
    × (w'.state ≡ degraded)
    × (w'.gaps
        ≡ w.gaps
          ++ record {
            expected_seq = w.expected_msg_seq;
            received_seq = p.header.first_msg_seq;
            gap_size = p.header.first_msg_seq - w.expected_msg_seq;
          }
            ∷ [])
