-- ===== src/Codec/RoundTrip.antt =====
-- `encode` and `try_decode` of src/net/MessageCodec.cpp against each other.
use game_server.Prelude.{
  ℕ, suc, ◌+◌, ◌*◌, ◌/◌, ◌%◌, ◌^◌, ◌<◌, ◌≡◌, refl, ap, ◌∙◌, ◌⊎◌, inl, inr, [], ◌∷◌, ◌++◌, Bytes,
  length, take, drop, ltb, if◌then◌else◌, arith, take-append_self, drop-append_self, length-append,
  length-take, Bool-cases, ge→ltb, lt→ltb, take-append-drop, tests, u16_mod, i32_mod,
}
use game_server.Codec.{
  Message, success, need_more, Decoded, header_size, max_body_size, read_uint16, read_uint32,
  write_uint16, write_uint32, encode, try_decode, AreBytes, IsSendable,
}

pub read_uint32-write_uint32 :
    (n : ℕ) (rest : Bytes) → n < 2 ^ 32 → read_uint32 (write_uint32 n ++ rest) ≡ n
unfolding read_uint32 write_uint32
read_uint32-write_uint32 n rest h = omega arith

pub read_uint16-write_uint16 :
    (n : ℕ) (rest : Bytes) → n < 2 ^ 16 → read_uint16 (write_uint16 n ++ rest) ≡ n
unfolding read_uint16 write_uint16
read_uint16-write_uint16 n rest h = omega arith

-- The packet of a message, whatever its size.
abbrev pub packet : Message → Bytes
packet m = write_uint32 (length m.body) ++ (write_uint16 m.msg_id ++ m.body)

pub encode-eq-packet : (m : Message) → IsSendable m → encode m ≡ packet m
unfolding encode write_uint32 write_uint16
encode-eq-packet m s = rw (ge→ltb max_body_size (length m.body) s.body_bound) (ground arith)

pub length-packet : (m : Message) → length (packet m) ≡ header_size + length m.body
unfolding write_uint32 write_uint16
length-packet m = omega arith

six_more : (n : ℕ) → header_size + n ≡ suc (suc (suc (suc (suc (suc n)))))
six_more n = omega arith

-- `try_decode` on a buffer that holds a header.
try_decode-header :
    (a b c d e f n : ℕ) (tail : Bytes) (out : Message)
    → a + b * 2 ^ 8 + c * 2 ^ 16 + d * 2 ^ 24 ≡ n
    → try_decode (a ∷ b ∷ c ∷ d ∷ e ∷ f ∷ tail) out ≡ (
        if ltb (length tail) n
        then record { status = need_more; buffer = a ∷ b ∷ c ∷ d ∷ e ∷ f ∷ tail; out_message = out }
        else record {
          status = success;
          buffer = drop n tail;
          out_message = record { msg_id = e + f * 2 ^ 8; body = take n tail };
        })
unfolding try_decode
try_decode-header a b c d e f n tail out h = rw (h, six_more n) (ground arith)

-- A whole packet in front of anything is read back, and only it is taken.
pub try_decode-packet :
    (m out : Message) (rest : Bytes)
    → m.msg_id < u16_mod
    → length m.body < i32_mod
    → try_decode (packet m ++ rest) out
      ≡ record { status = success; buffer = rest; out_message = m }
unfolding write_uint32 write_uint16
try_decode-packet m out rest hi hb =
    let n = length m.body in
    rw
      (try_decode-header (n % 2 ^ 8) (n / 2 ^ 8 % 2 ^ 8) (n / 2 ^ 16 % 2 ^ 8) (n / 2 ^ 24 % 2 ^ 8)
        (m.msg_id % 2 ^ 8) (m.msg_id / 2 ^ 8 % 2 ^ 8) n (m.body ++ rest) out (omega arith))
      (ground (
        arith,
        length-append m.body rest,
        take-append_self m.body rest,
        drop-append_self m.body rest,
      ))

body_bound_i32 : (m : Message) → IsSendable m → length m.body < i32_mod
body_bound_i32 m s = omega arith

-- What encode writes of a message with a 16-bit id and a body within the limit is read back as
-- that message, whatever bytes follow and whatever out_message held, and exactly the packet's
-- bytes leave the buffer.
pub try_decode-encode :
    (m out : Message) (rest : Bytes)
    → IsSendable m
    → try_decode (encode m ++ rest) out
      ≡ record { status = success; buffer = rest; out_message = m }
try_decode-encode m out rest s =
    rw (encode-eq-packet m s) (try_decode-packet m out rest s.id_bound (body_bound_i32 m s))

-- Past the limit nothing is written.
pub encode_oversize : (m : Message) → max_body_size < length m.body → encode m ≡ []
unfolding encode
encode_oversize m h = rw (lt→ltb max_body_size (length m.body) h)

-- What stays behind a decode, and what comes out, on each branch.
pub data Decodes (buffer : Bytes) (out : Message) (d : Decoded) : Type 0 where
  waits :
      d ≡ record { status = need_more; buffer = buffer; out_message = out }
      → (length buffer < header_size) ⊎ (length buffer < header_size + read_uint32 buffer)
      → Decodes buffer out d
  reads :
      d.status ≡ success
      → packet d.out_message ++ d.buffer ≡ buffer
      → d.out_message.msg_id < u16_mod
      → length d.out_message.body < i32_mod
      → Decodes buffer out d

join_header :
    (a b c d e f n : ℕ) (body rest : Bytes)
    → a < 256
    → b < 256
    → c < 256
    → d < 256
    → e < 256
    → f < 256
    → a + b * 2 ^ 8 + c * 2 ^ 16 + d * 2 ^ 24 ≡ n
    → length body ≡ n
    → packet (record { msg_id = e + f * 2 ^ 8; body = body }) ++ rest
      ≡ a ∷ b ∷ c ∷ d ∷ e ∷ f ∷ (body ++ rest)
unfolding write_uint32 write_uint16
join_header a b c d e f n body rest ha hb hc hd he hf h l = rw l (ground arith)

-- `Decodes` for a buffer with a header, split on the test for a whole body.
header-Decodes :
    (a b c d e f n : ℕ) (tail : Bytes) (out : Message)
    → a < 256
    → b < 256
    → c < 256
    → d < 256
    → e < 256
    → f < 256
    → a + b * 2 ^ 8 + c * 2 ^ 16 + d * 2 ^ 24 ≡ n
    → let buffer = a ∷ b ∷ c ∷ d ∷ e ∷ f ∷ tail in Decodes buffer out (try_decode buffer out)
unfolding read_uint32
header-Decodes a b c d e f n tail out ha hb hc hd he hf h =
    rw (try_decode-header a b c d e f n tail out h) (elim (Bool-cases (ltb (length tail) n)) [
      | inl short ↦ rw short (waits refl (inr (omega tests)))
      | inr whole ↦ rw whole (
          reads refl
            (join_header a b c d e f n (take n tail) (drop n tail) ha hb hc hd he hf h
                (omega (tests, length-take n tail))
              ∙ ap (λ t. a ∷ b ∷ c ∷ d ∷ e ∷ f ∷ t) (take-append-drop n tail))
            (omega arith) (omega (tests, length-take n tail)))
    ])

-- On any buffer of bytes, try_decode either waits and changes nothing, the header or the body
-- being incomplete, or splits off one packet, the header and the body of the message read, of any
-- size that 32 bits hold. It never reports an error.
pub try_decode-Decodes :
    (buffer : Bytes) (out : Message) → AreBytes buffer → Decodes buffer out (try_decode buffer out)
unfolding try_decode
try_decode-Decodes [] out h = waits refl (inl (omega arith))
try_decode-Decodes (a ∷ []) out h = waits refl (inl (omega arith))
try_decode-Decodes (a ∷ b ∷ []) out h = waits refl (inl (omega arith))
try_decode-Decodes (a ∷ b ∷ c ∷ []) out h = waits refl (inl (omega arith))
try_decode-Decodes (a ∷ b ∷ c ∷ d ∷ []) out h = waits refl (inl (omega arith))
try_decode-Decodes (a ∷ b ∷ c ∷ d ∷ e ∷ []) out h = waits refl (inl (omega arith))
try_decode-Decodes (a ∷ b ∷ c ∷ d ∷ e ∷ f ∷ tail) out (ha, (hb, (hc, (hd, (he, (hf, ht)))))) =
    header-Decodes a b c d e f (a + b * 2 ^ 8 + c * 2 ^ 16 + d * 2 ^ 24) tail out ha hb hc hd he hf
      refl
