-- ===== src/Codec/Packets.antt =====
-- What a peer reads from the packets that `send` of src/net/Session.cpp queues.
use game_server.Prelude.{
  ℕ, zero, suc, ◌+◌, ◌≤◌, ◌≡◌, ◌≢◌, refl, map, ap, ◌∙◌, List, [], ◌∷◌, ◌++◌, append_assoc, Bytes,
  length, arith, length-append, All,
}
use game_server.Codec.{Message, need_more, encode, try_decode, IsSendable}
use game_server.Codec.RoundTrip.{length-packet, try_decode-encode, encode-eq-packet}
use game_server.Codec.{need_more, DecodeStatus, success, error, AreBytes}
use game_server.Codec.Stream.{
  drain_rest, consume, Round, stops, goes, round, no_message, drain, drain_waits, drain_reads,
  split,
}

abbrev pub encode_all : List Message → Bytes
encode_all [] = []
encode_all (m ∷ ms) = encode m ++ encode_all ms

length-encode_all :
    (m : Message) (ms : List Message) (partial : Bytes)
    → IsSendable m
    → length (encode_all ms ++ partial) + 6 ≤ length (encode_all (m ∷ ms) ++ partial)
length-encode_all m ms partial h = omega (
  arith,
  ap length (append_assoc (encode m) (encode_all ms) partial),
  length-append (encode m) (encode_all ms ++ partial),
  ap length (encode-eq-packet m h),
  length-packet m,
)

drain-encode_all :
    (g : ℕ) (ms : List Message) (partial : Bytes)
    → All IsSendable ms
    → (try_decode partial no_message
        ≡ record { status = need_more; buffer = partial; out_message = no_message })
    → length (encode_all ms ++ partial) ≤ g
    → drain g (encode_all ms ++ partial) ≡ (ms, partial)
drain-encode_all g [] partial hs hp hg = drain_waits partial g hp
drain-encode_all zero (m ∷ ms) partial hs hp hg =
    absurd (omega (arith, length-encode_all m ms partial hs.0))
drain-encode_all (suc g) (m ∷ ms) partial hs hp hg =
    rw (append_assoc (encode m) (encode_all ms) partial) (
      drain_reads (encode m ++ (encode_all ms ++ partial)) (encode_all ms ++ partial) m g
        (try_decode-encode m no_message (encode_all ms ++ partial) hs.0)
      ∙ ap (λ (p : List Message × Bytes). (m ∷ p.0, p.1))
          (drain-encode_all g ms partial hs.1 hp
            (omega (arith, length-encode_all m ms partial hs.0))))

-- Sendable messages sent back to back and followed by a packet that try_decode waits for are read
-- back whole and in order, and the incomplete packet stays in the buffer.
pub split-encode_all :
    (ms : List Message) (partial : Bytes)
    → All IsSendable ms
    → (try_decode partial no_message
        ≡ record { status = need_more; buffer = partial; out_message = no_message })
    → split (encode_all ms ++ partial) ≡ (ms, partial)
unfolding split
split-encode_all ms partial hs hp =
    drain-encode_all (length (encode_all ms ++ partial)) ms partial hs hp (omega arith)

pub never_error : (b : Bytes) → (try_decode b no_message).status ≢ error
unfolding try_decode
never_error b h = ground arith

-- A buffer that yields no message is waited on.
waits_if_stopped :
    (buffer rest : Bytes) (m : Message) (status : DecodeStatus)
    → consume (record { status = status; buffer = rest; out_message = m }) ([], rest) buffer
      ≡ ([], buffer)
    → status ≢ error
    → status ≡ need_more
waits_if_stopped buffer rest m success e fine = cc (ap (λ (p : List Message × Bytes). p.0) e)
waits_if_stopped buffer rest m need_more e fine = refl
waits_if_stopped buffer rest m error e fine = absurd (fine refl)

drain_waits_at_end :
    (f : ℕ) (buffer : Bytes)
    → AreBytes buffer
    → length buffer ≤ f
    → (try_decode (drain f buffer).1 no_message).status ≡ need_more
unfolding drain
drain_waits_at_end zero [] h l = unfold try_decode in refl
drain_waits_at_end zero (x ∷ b) h l = absurd (omega arith)
drain_waits_at_end (suc f) buffer h l = go (round buffer h) (drain_waits_at_end f)
  where
    go :
        Round buffer
        → ((b : Bytes)
            → AreBytes b
            → length b ≤ f
            → (try_decode (drain f b).1 no_message).status ≡ need_more)
        → (try_decode (drain (suc f) buffer).1 no_message).status ≡ need_more
    go (stops e) ih =
        let d = try_decode buffer no_message in
        rw (e (suc f))
          (waits_if_stopped buffer d.buffer d.out_message d.status (e 1) (never_error buffer))
    go (goes m rest hl hr e1 e2) ih = rw (e1 f) (ih rest hr (omega arith))

-- What `split` leaves holds no whole packet.
pub split_waits :
    (buffer : Bytes) → AreBytes buffer → (try_decode (split buffer).1 no_message).status ≡ need_more
unfolding split
split_waits buffer h = drain_waits_at_end (length buffer) buffer h (omega arith)

-- One entry of the result of a decode in front of the others.
abbrev pub next : DecodeStatus → Message × Bytes → List (Message × Bytes) → List (Message × Bytes)
next success x rest = x ∷ rest
next need_more x rest = []
next error x rest = []

-- The messages of a buffer, each with the bytes behind it.
unfoldable pub packets : ℕ → Bytes → List (Message × Bytes)
packets zero buffer = []
packets (suc fuel) buffer =
    let d = try_decode buffer no_message in
    let rest = packets fuel d.buffer in next d.status (d.out_message, d.buffer) rest

abbrev pub messages : List (Message × Bytes) → List Message
messages = map (λ (x : Message × Bytes). x.0)

-- What is behind the last of them.
abbrev pub left : Bytes → List (Message × Bytes) → Bytes
left buffer [] = buffer
left buffer ((m, rest) ∷ xs) = left rest xs

pub drain-packets :
    (f : ℕ) (buffer : Bytes)
    → drain f buffer ≡ (messages (packets f buffer), left buffer (packets f buffer))
unfolding drain packets
drain-packets zero buffer = refl
drain-packets (suc f) buffer =
    let d = try_decode buffer no_message in
    go d.status d.buffer d.out_message (drain-packets f d.buffer)
  where
    go :
        (status : DecodeStatus) (rest : Bytes) (m : Message)
        → drain f rest ≡ (messages (packets f rest), left rest (packets f rest))
        → elim status as (λ _. List Message × Bytes) [
          | success ↦ (m ∷ (drain f rest).0, (drain f rest).1)
          | need_more ↦ ([], buffer)
          | error ↦ ([], buffer)
        ]
          ≡ (
            messages (next status (m, rest) (packets f rest)),
            left buffer (next status (m, rest) (packets f rest)),
          )
    go success rest m ih = ap (λ (p : List Message × Bytes). (m ∷ p.0, p.1)) ih
    go need_more rest m ih = refl
    go error rest m ih = refl

pub split_bytes : (buffer : Bytes) → AreBytes buffer → AreBytes (split buffer).1
unfolding split
split_bytes buffer h = (drain_rest (length buffer) buffer h).0
