-- ===== src/Codec/Stream.antt =====
-- Packets in a byte stream: repeated `try_decode`, as the read loop of src/net/Session.cpp makes it,
-- and the ways to cut the stream into reads.
use game_server.Prelude.{
  ℕ, zero, suc, ◌+◌, ◌≤◌, ◌<◌, ◌≡◌, refl, ap, sym, ◌∙◌, List, [], ◌∷◌, ◌++◌, append_assoc, Bytes,
  length, arith, length-append, All-append, All-append_right, subst, u16_mod, i32_mod,
}
use game_server.Codec.{Message, success, need_more, error, Decoded, try_decode, AreBytes}
use game_server.Codec.RoundTrip.{
  packet, length-packet, try_decode-packet, Decodes, waits, reads, try_decode-Decodes,
}

abbrev pub no_message : Message
no_message = record { msg_id = 0; body = [] }

abbrev pub consume : Decoded → List Message × Bytes → Bytes → List Message × Bytes
consume d rest buffer = elim d.status [
  | success ↦ (d.out_message ∷ rest.0, rest.1)
  | need_more ↦ ([], buffer)
  | error ↦ ([], buffer)
]

-- The messages that a buffer holds, in order, and the bytes that stay.
unfoldable pub drain : ℕ → Bytes → List Message × Bytes
drain zero buffer = ([], buffer)
drain (suc fuel) buffer =
    let d = try_decode buffer no_message in let rest = drain fuel d.buffer in consume d rest buffer

-- One round of the loop, by what `try_decode` did.
pub data Round (buffer : Bytes) : Type 0 where
  stops : ((g : ℕ) → drain g buffer ≡ ([], buffer)) → Round buffer
  goes :
      (m : Message) (rest : Bytes)
      → length rest + 6 ≤ length buffer
      → AreBytes rest
      → ((g : ℕ) → drain (suc g) buffer ≡ (m ∷ (drain g rest).0, (drain g rest).1))
      → ((b : Bytes) (g : ℕ)
          → drain (suc g) (buffer ++ b) ≡ (m ∷ (drain g (rest ++ b)).0, (drain g (rest ++ b)).1))
      → Round buffer

pub drain_waits :
    (buffer : Bytes) (g : ℕ)
    → try_decode buffer no_message
      ≡ record { status = need_more; buffer = buffer; out_message = no_message }
    → drain g buffer ≡ ([], buffer)
unfolding drain
drain_waits buffer zero h = refl
drain_waits buffer (suc g) h = rw h

pub drain_reads :
    (buffer rest : Bytes) (m : Message) (g : ℕ)
    → try_decode buffer no_message ≡ record { status = success; buffer = rest; out_message = m }
    → drain (suc g) buffer ≡ (m ∷ (drain g rest).0, (drain g rest).1)
unfolding drain
drain_reads buffer rest m g h = rw h

-- A packet at the front is the first message.
drain-packet :
    (m : Message) (rest : Bytes) (g : ℕ)
    → m.msg_id < u16_mod
    → length m.body < i32_mod
    → drain (suc g) (packet m ++ rest) ≡ (m ∷ (drain g rest).0, (drain g rest).1)
drain-packet m rest g hi hb =
    drain_reads (packet m ++ rest) rest m g (try_decode-packet m no_message rest hi hb)

Round-of :
    (buffer : Bytes) (d : Decoded)
    → AreBytes buffer
    → d ≡ try_decode buffer no_message
    → Decodes buffer no_message d
    → Round buffer
Round-of buffer d h e (waits w _) = stops (λ g. drain_waits buffer g (sym e ∙ w))
Round-of buffer d h e (reads s p hi hb) =
    goes d.out_message d.buffer
      (omega (
        arith,
        ap length p,
        length-append (packet d.out_message) d.buffer,
        length-packet d.out_message,
      ))
      (All-append_right _ (packet d.out_message) d.buffer (rw p h))
      (λ g.
        subst (λ b. drain (suc g) b ≡ (d.out_message ∷ (drain g d.buffer).0, (drain g d.buffer).1))
          p (drain-packet d.out_message d.buffer g hi hb))
      (λ b g.
        subst
          (λ c.
            drain (suc g) (c ++ b)
            ≡ (d.out_message ∷ (drain g (d.buffer ++ b)).0, (drain g (d.buffer ++ b)).1))
          p
          (rw (append_assoc (packet d.out_message) d.buffer b)
            (drain-packet d.out_message (d.buffer ++ b) g hi hb)))

pub round : (buffer : Bytes) → AreBytes buffer → Round buffer
round buffer h =
    Round-of buffer (try_decode buffer no_message) h refl (try_decode-Decodes buffer no_message h)

empty_drain : (g : ℕ) → drain g [] ≡ ([], [])
unfolding drain try_decode
empty_drain zero = refl
empty_drain (suc g) = refl

-- Fuel beyond the length of the buffer changes nothing.
pub drain_enough :
    (f g : ℕ) (buffer : Bytes)
    → AreBytes buffer
    → length buffer ≤ f
    → length buffer ≤ g
    → drain f buffer ≡ drain g buffer
drain_enough zero g [] h hf hg = empty_drain zero ∙ sym (empty_drain g)
drain_enough zero g (x ∷ b) h hf hg = absurd (omega arith)
drain_enough (suc f) g buffer h hf hg = go f g buffer hf hg (round buffer h) (drain_enough f)
  where
    go :
        (f g : ℕ) (buffer : Bytes)
        → length buffer ≤ suc f
        → length buffer ≤ g
        → Round buffer
        → ((g : ℕ) (b : Bytes) → AreBytes b → length b ≤ f → length b ≤ g → drain f b ≡ drain g b)
        → drain (suc f) buffer ≡ drain g buffer
    go f g buffer hf hg (stops e) ih = e (suc f) ∙ sym (e g)
    go f zero buffer hf hg (goes m rest l hr e1 e2) ih = absurd (omega arith)
    go f (suc g) buffer hf hg (goes m rest l hr e1 e2) ih =
        e1 f
        ∙ ap (λ (p : List Message × Bytes). (m ∷ p.0, p.1))
            (ih g rest hr (omega arith) (omega arith))
        ∙ sym (e1 g)

-- The bytes that stay are bytes of the buffer, no more than it had.
pub drain_rest :
    (f : ℕ) (buffer : Bytes)
    → AreBytes buffer
    → AreBytes (drain f buffer).1 × (length (drain f buffer).1 ≤ length buffer)
unfolding drain
drain_rest zero buffer h = (h, omega arith)
drain_rest (suc f) buffer h = go f buffer h (round buffer h) (drain_rest f)
  where
    go :
        (f : ℕ) (buffer : Bytes)
        → AreBytes buffer
        → Round buffer
        → ((b : Bytes) → AreBytes b → AreBytes (drain f b).1 × (length (drain f b).1 ≤ length b))
        → AreBytes (drain (suc f) buffer).1 × (length (drain (suc f) buffer).1 ≤ length buffer)
    go f buffer h (stops e) ih = rw (e (suc f)) (h, omega arith)
    go f buffer h (goes m rest hl hr e1 e2) ih =
        rw (e1 f) ((ih rest hr).0, omega (arith, (ih rest hr).1))

-- The loop with enough fuel.
unfoldable pub split : Bytes → List Message × Bytes
split buffer = drain (length buffer) buffer

-- Two results, the second from what the first left.
abbrev pub continue : List Message → List Message × Bytes → List Message × Bytes
continue ms next = (ms ++ next.0, next.1)

drain-append :
    (f g : ℕ) (a b : Bytes)
    → AreBytes a
    → AreBytes b
    → length a ≤ f
    → length (a ++ b) ≤ g
    → drain g (a ++ b) ≡ continue (drain f a).0 (drain g ((drain f a).1 ++ b))
unfolding drain
drain-append zero g [] b ha hb hf hg = refl
drain-append zero g (x ∷ a) b ha hb hf hg = absurd (omega arith)
drain-append (suc f) g a b ha hb hf hg = go f g a ha hf hg (round a ha) (drain-append f)
  where
    go :
        (f g : ℕ) (a : Bytes)
        → AreBytes a
        → length a ≤ suc f
        → length (a ++ b) ≤ g
        → Round a
        → ((g : ℕ) (c d : Bytes)
            → AreBytes c
            → AreBytes d
            → length c ≤ f
            → length (c ++ d) ≤ g
            → drain g (c ++ d) ≡ continue (drain f c).0 (drain g ((drain f c).1 ++ d)))
        → drain g (a ++ b) ≡ continue (drain (suc f) a).0 (drain g ((drain (suc f) a).1 ++ b))
    go f g a ha hf hg (stops e) ih = rw (e (suc f))
    go f zero a ha hf hg (goes m rest hl hr e1 e2) ih = absurd (omega (arith, length-append a b))
    go f (suc g) a ha hf hg (goes m rest hl hr e1 e2) ih =
        let shorter : length rest + length b ≤ g = omega (arith, length-append a b) in
        let left : Bytes = (drain f rest).1 in
        let more : drain g (left ++ b) ≡ drain (suc g) (left ++ b) =
          drain_enough g (suc g) (left ++ b) (All-append _ left b (drain_rest f rest hr).0 hb)
            (omega (arith, (drain_rest f rest hr).1, length-append left b))
            (omega (arith, (drain_rest f rest hr).1, length-append left b)) in
        e2 b g
        ∙ ap (λ (p : List Message × Bytes). (m ∷ p.0, p.1))
            (ih g rest b hr hb (omega arith) (omega (arith, length-append rest b)))
        ∙ ap (λ (p : List Message × Bytes). (m ∷ ((drain f rest).0 ++ p.0), p.1)) more
        ∙ ap (λ (p : List Message × Bytes). continue p.0 (drain (suc g) (p.1 ++ b))) (sym (e1 f))

-- However the network cuts a stream of bytes into two reads, the messages and the bytes left are
-- those of the whole: what stays after the first read is completed by the second.
pub split-append :
    (a b : Bytes)
    → AreBytes a
    → AreBytes b
    → split (a ++ b) ≡ continue (split a).0 (split ((split a).1 ++ b))
unfolding split
split-append a b ha hb =
    let left : Bytes = (drain (length a) a).1 in
    let bound : length left ≤ length a = (drain_rest (length a) a ha).1 in
    drain-append (length a) (length (a ++ b)) a b ha hb (omega arith) (omega arith)
    ∙ ap (continue (drain (length a) a).0) (
        drain_enough (length (a ++ b)) (length (left ++ b)) (left ++ b)
          (All-append _ left b (drain_rest (length a) a ha).0 hb)
          (omega (arith, length-append a b, length-append left b)) (omega arith))
