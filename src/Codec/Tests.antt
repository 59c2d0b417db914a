-- ===== src/Codec/Tests.antt =====
-- Runs of the codec, and its theorems at concrete inputs.
use game_server.Prelude.{◌≡◌, refl, [], ◌∷◌, ◌++◌, arith}
use game_server.Codec.{Message, success, encode, try_decode}
use game_server.Codec.RoundTrip.{try_decode-encode, Decodes, try_decode-Decodes}
use game_server.Codec.Packets.{encode_all, split-encode_all}
use game_server.Codec.Stream.{no_message, split, split-append, continue}

abbrev hello : Message
hello = record { msg_id = 1001; body = 104 ∷ 105 ∷ [] }

abbrev ping : Message
ping = record { msg_id = 9001; body = [] }

-- The length and the id stand low byte first.
encode-hello : encode hello ≡ 2 ∷ 0 ∷ 0 ∷ 0 ∷ 0xe9 ∷ 0x03 ∷ 104 ∷ 105 ∷ []
unfolding encode
encode-hello = refl

try_decode-encode_example :
    try_decode (encode hello ++ 7 ∷ []) no_message
    ≡ record { status = success; buffer = 7 ∷ []; out_message = hello }
try_decode-encode_example = try_decode-encode hello no_message (7 ∷ []) (omega arith)

try_decode-Decodes_example :
    Decodes
      (2 ∷ 0 ∷ 0 ∷ 0 ∷ 1 ∷ 0 ∷ 9 ∷ [])
      no_message
      (try_decode (2 ∷ 0 ∷ 0 ∷ 0 ∷ 1 ∷ 0 ∷ 9 ∷ []) no_message)
try_decode-Decodes_example =
    try_decode-Decodes (2 ∷ 0 ∷ 0 ∷ 0 ∷ 1 ∷ 0 ∷ 9 ∷ []) no_message (omega arith)

split-append_example :
    split (((0 ∷ 0 ∷ 0 ∷ []) ++ (0 ∷ 1 ∷ 0 ∷ [])))
    ≡ continue (split (0 ∷ 0 ∷ 0 ∷ [])).0 (split ((split (0 ∷ 0 ∷ 0 ∷ [])).1 ++ 0 ∷ 1 ∷ 0 ∷ []))
split-append_example = split-append (0 ∷ 0 ∷ 0 ∷ []) (0 ∷ 1 ∷ 0 ∷ []) (omega arith) (omega arith)

split-encode_all_example :
    split (encode_all (hello ∷ ping ∷ []) ++ 5 ∷ []) ≡ (hello ∷ ping ∷ [], 5 ∷ [])
unfolding try_decode
split-encode_all_example = split-encode_all (hello ∷ ping ∷ []) (5 ∷ []) (omega arith) refl
