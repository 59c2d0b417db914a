-- ===== src/Session/Tests.antt =====
-- Runs of a session's output, and its theorems at concrete inputs.
use game_server.Prelude.{◌+◌, ◌≡◌, refl, List, [], ◌∷◌, length, arith, some}
use game_server.Codec.{Message, encode}
use game_server.Codec.Stream.{split}
use game_server.Session.{Session, fresh, send, write_done}
use game_server.Session.Writing.{
  IsWriting, send-IsWriting, write_done_loses, stream, Action, sends, writes, run, delivered, act,
}

abbrev ping : Message
ping = record { msg_id = 9001; body = 1 ∷ [] }

abbrev pong : Message
pong = record { msg_id = 9002; body = [] }

abbrev busy : Session
busy = send pong (send ping fresh)

-- The second packet waits behind the first, whose write is outstanding.
busy_pending : busy.pending_write ≡ some (encode ping)
unfolding send encode
busy_pending = refl

busy-IsWriting : IsWriting busy
busy-IsWriting = send-IsWriting pong (send ping fresh) (send-IsWriting ping fresh (refl, refl))

-- A write of two bytes of the first packet loses five.
write_done_loses_example : length (stream (write_done 2 busy)) + 5 ≡ length (stream busy)
unfolding encode send
write_done_loses_example =
    (write_done_loses 2 busy (encode ping) (encode pong ∷ []) busy-IsWriting refl (omega arith)).2

abbrev script : List Action
script = sends ping ∷ sends pong ∷ writes ∷ writes ∷ []

delivered_example : split (run fresh script).wire ≡ (ping ∷ pong ∷ [], [])
unfolding run act send write_done encode
delivered_example = delivered script (omega arith) refl
