-- ===== src/Codec.antt =====
-- src/net/MessageCodec.h, src/net/MessageCodec.cpp and src/net/Message.h: messages as length-prefixed
-- packets. A `char` is read as the byte `static_cast<uint8_t>` makes of it.
pub mod RoundTrip
pub mod Stream
pub mod Packets
mod Tests
use game_server.Prelude.{
  ℕ, ◌+◌, ◌*◌, ◌/◌, ◌%◌, ◌^◌, ◌<◌, ◌≤◌, List, [], ◌∷◌, ◌++◌, Bytes, length, take, drop, All, ltb,
  if◌then◌else◌, u16_mod, i32_mod,
}

abbrev pub header_size : ℕ
header_size = 6

abbrev pub max_body_size : ℕ
max_body_size = 1024 * 1024

pub record Message : Type 0 where
  pub msg_id : ℕ
  pub body : Bytes

pub data DecodeStatus : Type 0 where
  success need_more error : DecodeStatus

-- The four bytes are shifted to places that do not overlap, so `|` is a sum.
unfoldable pub read_uint16 : Bytes → ℕ
read_uint16 (a ∷ b ∷ rest) = a + b * 2 ^ 8
read_uint16 _ = 0

unfoldable pub read_uint32 : Bytes → ℕ
read_uint32 (a ∷ b ∷ c ∷ d ∷ rest) = a + b * 2 ^ 8 + c * 2 ^ 16 + d * 2 ^ 24
read_uint32 _ = 0

-- `& 0xff` is `% 2 ^ 8`; the store into a `char` keeps eight bits.
unfoldable pub write_uint16 : ℕ → Bytes
write_uint16 value = value % 2 ^ 8 ∷ value / 2 ^ 8 % 2 ^ 8 ∷ []

unfoldable pub write_uint32 : ℕ → Bytes
write_uint32 value =
    value % 2 ^ 8 ∷ value / 2 ^ 8 % 2 ^ 8 ∷ value / 2 ^ 16 % 2 ^ 8 ∷ value / 2 ^ 24 % 2 ^ 8 ∷ []

-- A body over the limit is dropped: the packet is empty.
unfoldable pub encode_parts : ℕ → Bytes → Bytes
unfolding write_uint16 write_uint32
encode_parts msg_id body =
    let size = length body in
    if ltb max_body_size size
    then []
    else write_uint32 (size % i32_mod) ++ write_uint16 msg_id ++ body

unfoldable pub encode : Message → Bytes
unfolding encode_parts
encode message = encode_parts message.msg_id message.body

-- What `try_decode` leaves: its result, `buffer` and `out_message`.
pub record Decoded : Type 0 where
  pub status : DecodeStatus
  pub buffer : Bytes
  pub out_message : Message

unfoldable pub try_decode : Bytes → Message → Decoded
unfolding read_uint16 read_uint32
try_decode buffer out_message =
    let body_size = read_uint32 buffer in
    let msg_id = read_uint16 (drop 4 buffer) in
    let packet_size = header_size + body_size in
    if ltb (length buffer) header_size
    then record { status = need_more; buffer = buffer; out_message = out_message }
    else if ltb (length buffer) (body_size + header_size)
    then record { status = need_more; buffer = buffer; out_message = out_message }
    else record {
      status = success;
      buffer = drop packet_size buffer;
      out_message = record { msg_id = msg_id; body = take body_size (drop header_size buffer) };
    }

abbrev pub AreBytes : Bytes → Type 0
AreBytes = All (λ b. b < 256)

-- A message that `encode` accepts: a `uint16_t` id and a body within the limit.
pub record IsSendable (m : Message) : Type 0 where
  pub id_bound : m.msg_id < u16_mod
  pub body_bound : length m.body ≤ max_body_size
