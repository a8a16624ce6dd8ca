-- ===== src/Transport/Sending.antt =====
-- udp_proto/src/sender.rs: the messages that come out of the socket are those that went in.
use mexchange_study.Common.{
  ℕ, suc, ◌+◌, ◌%◌, ◌^◌, ◌≤◌, ◌<◌, ◌≡◌, refl, sym, ap, ◌∙◌, inl, inr, Bool, Option, some, List, [],
  ◌∷◌, ◌++◌, append-nil, append_assoc, arith, length, length-append,
}
use mexchange_study.Wire.Bytes.{Result, ok, err}
use mexchange_study.Wire.Headers.{packet_header_len, PacketHeader}
use mexchange_study.Wire.Packets.{
  Message, Packet, parse, PacketBuilder, new_builder, remaining_capacity,
}
use mexchange_study.Wire.PacketTrips.{Outgoing, wire_header, numbered}
use mexchange_study.Wire.Building.{
  IsBuilt, SameStream, new_builder-IsBuilt, try_add_message-IsBuilt,
}
use mexchange_study.Wire.Delivery.{InRange, header_of, finish-parse}
use mexchange_study.Transport.Sender.{
  OutgoingMessage, SenderWorker, new_sender, send_packet, next_batch, flush, add_to_new,
}

-- The messages in the datagrams, as the receiver parses them.
abbrev pub messages_in : Result Packet → List Message
messages_in (ok p) = p.messages
messages_in (err e) = []

abbrev pub messages_of : List (List ℕ) → List Message
messages_of [] = []
messages_of (d ∷ ds) = messages_in (parse d) ++ messages_of ds

pub messages_of-append :
    (xs ys : List (List ℕ)) → messages_of (xs ++ ys) ≡ messages_of xs ++ messages_of ys
messages_of-append [] ys = refl
messages_of-append (x ∷ xs) ys =
    ap (λ r. messages_in (parse x) ++ r) (messages_of-append xs ys)
    ∙ sym (append_assoc (messages_in (parse x)) (messages_of xs) (messages_of ys))

pub messages_of_last :
    (xs : List (List ℕ)) (d : List ℕ)
    → messages_of (xs ++ d ∷ []) ≡ messages_of xs ++ messages_in (parse d)
messages_of_last xs d =
    messages_of-append xs (d ∷ [])
    ∙ ap (λ r. messages_of xs ++ r) (append-nil (messages_in (parse d)))

pub numbered-append :
    (f i j : ℕ) (xs ys : List Outgoing)
    → j ≡ i + length xs
    → numbered f i (xs ++ ys) ≡ numbered f i xs ++ numbered f j ys
numbered-append f i j [] ys e = ap (λ n. numbered f n ys) (omega (arith, e))
numbered-append f i j (x ∷ xs) ys e =
    ap
      (λ (r : List Message).
        record { header = wire_header x; payload = x.1; seq = (f + i) % 2 ^ 64 } ∷ r)
      (numbered-append f (suc i) j xs ys (omega (arith, e)))

pub numbered_shift :
    (f i j : ℕ) (xs : List Outgoing)
    → (f + i) % 2 ^ 64 ≡ j % 2 ^ 64
    → numbered f i xs ≡ numbered 0 j xs
numbered_shift f i j [] e = refl
numbered_shift f i j (x ∷ xs) e =
    ap
      (λ (n : ℕ). record { header = wire_header x; payload = x.1; seq = n } ∷ numbered f (suc i) xs)
      (omega (arith, e))
    ∙ ap
        (λ (r : List Message).
          record { header = wire_header x; payload = x.1; seq = (0 + j) % 2 ^ 64 } ∷ r)
        (numbered_shift f (suc i) (suc j) xs (omega (arith, e)))

abbrev pub pair_of : OutgoingMessage → Outgoing
pair_of m = (m.msg_type, m.payload)

-- Some messages are in datagrams, numbered from 0 on, and the others wait in the builder.
pub record IsSending (w : SenderWorker) (gone waiting : List Outgoing) : Type 0 where
  pub built : IsBuilt w.builder waiting
  pub range : InRange w.builder
  pub stream : w.stream_id < 2 ^ 32
  pub packet : w.packet_seq < 2 ^ 64
  pub first : w.builder.first_msg_seq ≡ w.msg_seq
  pub number : w.msg_seq ≡ length gone % 2 ^ 64
  pub logged : messages_of w.sent ≡ numbered 0 0 gone

-- The worker has taken exactly these messages.
abbrev pub HasTaken : List Outgoing → SenderWorker → Type 0
HasTaken ms w =
    (gone : List Outgoing) × (waiting : List Outgoing) × (gone ++ waiting ≡ ms)
    × IsSending w gone waiting

pub new_sender-IsSending :
    (stream : ℕ) (beats : Bool) → stream < 2 ^ 32 → IsSending (new_sender stream beats) [] []
unfolding new_sender new_builder
new_sender-IsSending stream beats h = record {
  built = new_builder-IsBuilt stream 0 0;
  range = record { stream_fits = h; packet_fits = omega arith; first_fits = omega arith };
  stream = h;
  packet = omega arith;
  first = refl;
  number = refl;
  logged = refl;
}

-- What `try_send` lets through.
abbrev pub IsSendable : OutgoingMessage → Type 0
IsSendable m = length m.payload ≤ 1372

module _ (send_to : List ℕ → Option ℕ) where
  pub log_waiting :
      (w : SenderWorker) (gone waiting : List Outgoing) (bytes : List ℕ) (h : PacketHeader)
      → IsSending w gone waiting
      → parse bytes
        ≡ ok (record { header = h; messages = numbered w.builder.first_msg_seq 0 waiting })
      → messages_of (w.sent ++ bytes ∷ []) ≡ numbered 0 0 (gone ++ waiting)
  log_waiting w gone waiting bytes h v e =
      messages_of_last w.sent bytes
      ∙ ap (λ r. messages_of w.sent ++ messages_in r) e
      ∙ ap (λ r. r ++ numbered w.builder.first_msg_seq 0 waiting) v.logged
      ∙ ap (λ r. numbered 0 0 gone ++ r)
          (numbered_shift w.builder.first_msg_seq 0 (length gone) waiting
            (let f = v.first in let n = v.number in omega (arith, f, n)))
      ∙ sym (numbered-append 0 0 (length gone) gone waiting (omega arith))

  pub flush-IsSending :
      (w : SenderWorker) (gone waiting : List Outgoing)
      → IsSending w gone waiting
      → (w' : SenderWorker) × (flush send_to w ≡ some w')
        × (w'.builder.write_offset ≡ packet_header_len)
        × IsSending w' (gone ++ waiting) []
  unfolding flush next_batch send_packet new_builder
  flush-IsSending w gone waiting v =
      let (bytes, e, short, read) = finish-parse w.builder waiting v.built v.range in
      let w' = next_batch send_to w.builder.msg_count (send_packet send_to bytes w) in
      (
        w',
        rw (e, flush) refl,
        refl,
        record {
          built = new_builder-IsBuilt w.stream_id w'.packet_seq w'.msg_seq;
          range = record {
            stream_fits = v.stream;
            packet_fits = omega arith;
            first_fits = omega arith;
          };
          stream = v.stream;
          packet = omega arith;
          first = refl;
          number =
              let n = v.number in
              let c = v.built.counted in omega (arith, n, c, length-append gone waiting);
          logged = log_waiting w gone waiting bytes (header_of w.builder) v read;
        },
      )

  -- Only the builder changes.
  pub with_builder :
      (w : SenderWorker) (b : PacketBuilder) (gone waiting waiting' : List Outgoing)
      → IsSending w gone waiting
      → IsBuilt b waiting'
      → SameStream w.builder b
      → IsSending (record w { builder = b }) gone waiting'
  with_builder w b gone waiting waiting' v built same = record {
    built = built;
    range = record {
      stream_fits = let x = v.range.stream_fits in let s = same.same_stream in omega (arith, s, x);
      packet_fits = let x = v.range.packet_fits in let s = same.same_packet in omega (arith, s, x);
      first_fits = let x = v.range.first_fits in let s = same.same_first in omega (arith, s, x);
    };
    stream = v.stream;
    packet = v.packet;
    first = same.same_first ∙ v.first;
    number = v.number;
    logged = v.logged;
  }

  -- An empty builder takes every sendable message.
  pub add_to_new-IsSending :
      (m : OutgoingMessage) (w : SenderWorker) (gone : List Outgoing)
      → IsSendable m
      → w.builder.write_offset ≡ packet_header_len
      → IsSending w gone []
      → (w' : SenderWorker) × (add_to_new send_to m w ≡ some w')
        × IsSending w' gone (pair_of m ∷ [])
  unfolding add_to_new remaining_capacity
  add_to_new-IsSending m w gone small empty v =
      elim (try_add_message-IsBuilt (pair_of m) w.builder [] v.built) [
        | inl (fit, b, e, built, same) ↦ (
          record w { builder = b },
          rw (e, add_to_new) refl,
          with_builder w b gone [] (pair_of m ∷ []) v built same,
        )
        | inr (big, e) ↦ absurd (omega (arith, big, small, empty))
      ]
