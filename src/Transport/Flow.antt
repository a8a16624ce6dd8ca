-- ===== src/Transport/Flow.antt =====
-- udp_proto/src/sender.rs: the worker's rounds, and what its whole run hands to the socket.
use mexchange_study.Common.{
  ℕ, ◌+◌, ◌%◌, ◌^◌, ◌<◌, ◌≡◌, refl, sym, ap, ◌∙◌, subst, inl, inr, Bool, true, false, ◌&&◌, Option,
  some, List, [], ◌∷◌, ◌++◌, map, append-nil, append_assoc, arith, Bool-cases, All,
}
use mexchange_study.Wire.Packets.{builder_is_empty, heartbeat_packet}
use mexchange_study.Wire.PacketTrips.{Outgoing, numbered}
use mexchange_study.Wire.Building.{IsBuilt, try_add_message-IsBuilt}
use mexchange_study.Wire.Delivery.{header_of, finish-parse, heartbeat_packet-parse}
use mexchange_study.Transport.Sender.{
  OutgoingMessage, SenderWorker, new_sender, SenderInput, message, timeout, send_packet,
  send_heartbeat, flush, add_to_new, add_or_flush, on_message, send_due, on_timeout, sender_step,
  sender_loop, last_flush, run,
}
use mexchange_study.Transport.Sending.{
  messages_in, messages_of, messages_of_last, pair_of, IsSending, HasTaken, new_sender-IsSending,
  log_waiting, flush-IsSending, with_builder, IsSendable, add_to_new-IsSending,
}

-- The messages that come in.
abbrev pub messages_taken : List SenderInput → List Outgoing
messages_taken [] = []
messages_taken (message m ∷ is) = pair_of m ∷ messages_taken is
messages_taken (timeout due ∷ is) = messages_taken is

abbrev pub AllSendable : List SenderInput → Type 0
AllSendable [] = Unit
AllSendable (message m ∷ is) = IsSendable m × AllSendable is
AllSendable (timeout due ∷ is) = AllSendable is

abbrev pub AllLeft : List OutgoingMessage → Type 0
AllLeft = All IsSendable

left-sendable : (ms : List OutgoingMessage) → AllLeft ms → AllSendable (map message ms)
left-sendable [] h = tt
left-sendable (m ∷ ms) h = (h.0, left-sendable ms h.1)

left-taken : (ms : List OutgoingMessage) → messages_taken (map message ms) ≡ map pair_of ms
left-taken [] = refl
left-taken (m ∷ ms) = ap (λ r. pair_of m ∷ r) (left-taken ms)

module _ (send_to : List ℕ → Option ℕ) where
  add_or_flush_full :
      (m : OutgoingMessage) (w w1 w2 : SenderWorker)
      → flush send_to w ≡ some w1
      → add_to_new send_to m w1 ≡ some w2
      → add_or_flush send_to m false w ≡ some w2
  unfolding add_or_flush
  add_or_flush_full m w w1 w2 f g = rw (f, add_or_flush) g

  on_message-HasTaken :
      (m : OutgoingMessage) (w : SenderWorker) (ms : List Outgoing)
      → IsSendable m
      → HasTaken ms w
      → (w' : SenderWorker) × (on_message send_to m w ≡ some w')
        × HasTaken (ms ++ pair_of m ∷ []) w'
  unfolding on_message add_or_flush
  on_message-HasTaken m w ms small (gone, waiting, all, v) =
      elim (try_add_message-IsBuilt (pair_of m) w.builder waiting v.built) [
        | inl (fit, b, e, built, same) ↦ (
          record w { builder = b },
          rw (e, on_message) refl,
          (
            gone,
            waiting ++ pair_of m ∷ [],
            sym (append_assoc gone waiting (pair_of m ∷ [])) ∙ ap (λ r. r ++ pair_of m ∷ []) all,
            with_builder send_to w b gone waiting (waiting ++ pair_of m ∷ []) v built same,
          ),
        )
        | inr (big, e) ↦
            let (w1, f, empty, v1) = flush-IsSending send_to w gone waiting v in
            let (w2, g, v2) = add_to_new-IsSending send_to m w1 (gone ++ waiting) small empty v1 in
            (
              w2,
              rw (e, on_message) (add_or_flush_full m w w1 w2 f g),
              (gone ++ waiting, pair_of m ∷ [], ap (λ r. r ++ pair_of m ∷ []) all, v2),
            )
      ]

  nothing_waits :
      (w : SenderWorker) (waiting : List Outgoing)
      → IsBuilt w.builder waiting
      → builder_is_empty w.builder ≡ true
      → waiting ≡ []
  unfolding builder_is_empty
  nothing_waits w [] v e = refl
  nothing_waits w (x ∷ xs) v e = let c = v.counted in absurd (ground arith)

  send_due-IsSending :
      (w : SenderWorker) (gone : List Outgoing)
      → IsSending w gone []
      → (w' : SenderWorker) × (send_due send_to w ≡ some w') × IsSending w' gone []
  unfolding send_due send_heartbeat heartbeat_packet
  send_due-IsSending w gone v =
      let n = v.number in
      let (bytes, e, read) =
        heartbeat_packet-parse w.stream_id w.packet_seq w.msg_seq v.stream v.packet
          (omega (arith, n)) in
      let w' = send_heartbeat send_to bytes w in
      (
        record w' { packet_seq = (w'.packet_seq + 1) % 2 ^ 64 },
        rw (e, send_due) refl,
        record {
          built = v.built;
          range = v.range;
          stream = v.stream;
          packet = omega arith;
          first = v.first;
          number = v.number;
          logged =
              messages_of_last w.sent bytes
              ∙ ap (λ r. messages_of w.sent ++ messages_in r) read
              ∙ append-nil (messages_of w.sent)
              ∙ v.logged;
        },
      )

  on_timeout-HasTaken :
      (due : Bool) (w : SenderWorker) (ms : List Outgoing)
      → HasTaken ms w
      → (w' : SenderWorker) × (on_timeout send_to due w ≡ some w') × HasTaken ms w'
  unfolding on_timeout
  on_timeout-HasTaken due w ms (gone, waiting, all, v) =
      elim (Bool-cases (builder_is_empty w.builder)) [
        | inr some_ ↦
            let (w', e, empty, v') = flush-IsSending send_to w gone waiting v in
            (
              w',
              rw (some_, on_timeout) e,
              (gone ++ waiting, [], append-nil (gone ++ waiting) ∙ all, v'),
            )
        | inl none_ ↦
            let nil = nothing_waits w waiting v.built none_ in
            let v0 : IsSending w gone [] = subst (IsSending w gone) nil v in
            let all0 : gone ++ [] ≡ ms = ap (λ r. gone ++ r) (sym nil) ∙ all in
            elim (Bool-cases (w.enable_heartbeats && due)) [
              | inl beat ↦
                  let (w', e, v') = send_due-IsSending w gone v0 in
                  (w', rw (none_, on_timeout, beat) e, (gone, [], all0, v'))
              | inr quiet ↦ (w, rw (none_, on_timeout, quiet) refl, (gone, [], all0, v0))
            ]
      ]

  sender_loop-HasTaken :
      (is : List SenderInput) (w : SenderWorker) (ms : List Outgoing)
      → AllSendable is
      → HasTaken ms w
      → (w' : SenderWorker) × (sender_loop send_to is w ≡ some w')
        × HasTaken (ms ++ messages_taken is) w'
  unfolding sender_loop sender_step
  sender_loop-HasTaken [] w ms small h =
      (w, refl, subst (λ r. HasTaken r w) (sym (append-nil ms)) h)
  sender_loop-HasTaken (message m ∷ is) w ms small h =
      let (w1, e, h1) = on_message-HasTaken m w ms small.0 h in
      let (w2, f, h2) = sender_loop-HasTaken is w1 (ms ++ pair_of m ∷ []) small.1 h1 in
      (
        w2,
        rw (e, sender_loop) f,
        subst (λ r. HasTaken r w2) (append_assoc ms (pair_of m ∷ []) (messages_taken is)) h2,
      )
  sender_loop-HasTaken (timeout due ∷ is) w ms small h =
      let (w1, e, h1) = on_timeout-HasTaken due w ms h in
      let (w2, f, h2) = sender_loop-HasTaken is w1 ms small h1 in (w2, rw (e, sender_loop) f, h2)

  last_flush-sent :
      (w : SenderWorker) (ms : List Outgoing)
      → HasTaken ms w
      → (w' : SenderWorker) × (last_flush send_to w ≡ some w')
        × (messages_of w'.sent ≡ numbered 0 0 ms)
  unfolding last_flush send_packet
  last_flush-sent w ms (gone, waiting, all, v) = elim (Bool-cases (builder_is_empty w.builder)) [
    | inl none_ ↦
        let nil = nothing_waits w waiting v.built none_ in
        (
          w,
          rw (none_, last_flush) refl,
          v.logged
              ∙ ap (numbered 0 0) (sym (append-nil gone) ∙ ap (λ r. gone ++ r) (sym nil) ∙ all),
        )
    | inr some_ ↦
        let (bytes, e, short, read) = finish-parse w.builder waiting v.built v.range in
        (
          send_packet send_to bytes w,
          rw (some_, last_flush, e) refl,
          log_waiting send_to w gone waiting bytes (header_of w.builder) v read
              ∙ ap (numbered 0 0) all,
        )
  ]

  -- Whatever the timeouts and the socket do, the sender does not panic, and the datagrams that it hands
  -- to the socket contain the messages that it took, each once, in order and numbered from 0 on.
  pub run-sent :
      (stream : ℕ) (beats : Bool) (inputs : List SenderInput) (left : List OutgoingMessage)
      → stream < 2 ^ 32
      → AllSendable inputs
      → AllLeft left
      → (w : SenderWorker) × (run send_to inputs left (new_sender stream beats) ≡ some w)
        × (messages_of w.sent ≡ numbered 0 0 (messages_taken inputs ++ map pair_of left))
  unfolding run
  run-sent stream beats inputs left h small small' =
      let (w1, e, h1) =
        sender_loop-HasTaken inputs (new_sender stream beats) [] small
          ([], [], refl, new_sender-IsSending stream beats h) in
      let (w2, f, h2) =
        sender_loop-HasTaken (map message left) w1 (messages_taken inputs)
          (left-sendable left small') h1 in
      let (w3, g, sent) =
        last_flush-sent w2 (messages_taken inputs ++ messages_taken (map message left)) h2 in
      (
        w3,
        rw (e, run, f) g,
        sent ∙ ap (λ r. numbered 0 0 (messages_taken inputs ++ r)) (left-taken left),
      )
