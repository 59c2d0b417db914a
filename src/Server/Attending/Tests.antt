-- ===== src/Server/Attending/Tests.antt =====
-- The event loop of src/GameServer.cpp and the parse loop of src/net/Session.cpp at concrete inputs.
use game_server.Prelude.{◌≡◌, refl, All, ◌++◌, List, [], ◌∷◌, Bytes, true, some, arith}
use game_server.Prelude.Exec.{done}
use game_server.Prelude.Dict
use game_server.Codec.{Message, need_more, try_decode, read_uint32, read_uint16, AreBytes}
use game_server.Codec.Packets.{messages}
use game_server.Codec.Stream.{no_message, split, drain}
use game_server.Server.{accept, handle, accepted, read, start_handlers, parse_packet}
use game_server.Server.Answering.{IsSafe}
use game_server.Server.Answering.Reads.{read_ends}
use game_server.Server.Attending.Reached.{reach-IsAttended}
use game_server.Server.Hearing.{start_handlers-AreDeaf}
use game_server.Server.Loop.{Reach, start, later, step, can_accept, can_read}
use game_server.Server.Parsing.{serve, parse_packet_lem}
use game_server.Server.Toy.{toy}
use game_server.Service.Ranking.Tests.{rank}
use game_server.Session
use game_server.Session.{Session}
use game_server.World.{World, initial, session_at}

-- A login of "a", and the first bytes of another packet.
abbrev waiting_bytes : Bytes
waiting_bytes = 1 ∷ 0 ∷ 0 ∷ 0 ∷ 0xe9 ∷ 0x03 ∷ 97 ∷ 1 ∷ 0 ∷ []

waiting_bytes-AreBytes : AreBytes waiting_bytes
waiting_bytes-AreBytes = (
  omega arith,
  (
    omega arith,
    (
      omega arith,
      (omega arith, (omega arith, (omega arith, (omega arith, (omega arith, (omega arith, tt)))))),
    ),
  ),
)

abbrev told : World
told = record initial {
  sessions = Dict.put 1 (record Session.fresh { recv_buffer = waiting_bytes }) Dict.empty;
}

parse_packet_lem_example :
    (xs : List (Message × Bytes)) × (parse_packet (start_handlers toy rank) 1 told
      ≡ serve (start_handlers toy rank) 1 xs told)
    × (messages xs ≡ (split waiting_bytes).0)
    × ((parse_packet (start_handlers toy rank) 1 told).0 ≡ done tt
        → (session_at 1 (parse_packet (start_handlers toy rank) 1 told).1).recv_buffer
          ≡ (split waiting_bytes).1)
    × ((try_decode (split waiting_bytes).1 no_message).status ≡ need_more)
unfolding Dict.lookup Dict.put
parse_packet_lem_example =
    parse_packet_lem (start_handlers toy rank) (start_handlers-AreDeaf toy rank) 1 told
      waiting_bytes-AreBytes

abbrev one_client : World
one_client = (accept initial).1

one_client-Reach : Reach (start_handlers toy rank) one_client
unfolding handle accept
one_client-Reach = later start (step accepted can_accept refl)

newcomer : Dict.lookup 1 one_client.sessions ≡ some (Session.start initial.now Session.fresh)
unfolding accept Dict.lookup Dict.put
newcomer = refl

reach-IsAttended_example :
    let s = Session.start initial.now Session.fresh in
    ((try_decode s.recv_buffer no_message).status ≡ need_more)
    × (s.reading ≡ true)
    × (s.pending_write ≡ Session.front s.write_queue)
unfolding Session.start Session.do_read Session.update_last_active_time
reach-IsAttended_example =
    reach-IsAttended toy rank one_client 1 (Session.start initial.now Session.fresh)
      one_client-Reach newcomer refl

-- A login of "a".
abbrev hello : Bytes
hello = 1 ∷ 0 ∷ 0 ∷ 0 ∷ 0xe9 ∷ 0x03 ∷ 97 ∷ []

hello-IsSafe :
    All
      (λ (m : Message). IsSafe m.msg_id)
      (split ((session_at 1 one_client).recv_buffer ++ hello)).0
unfolding accept Dict.lookup Dict.put split drain try_decode read_uint32 read_uint16 Session.start
    Session.do_read Session.update_last_active_time
hello-IsSafe = ((λ e. omega (arith, e), λ e. omega (arith, e)), tt)

read_ends_example : (handle (start_handlers toy rank) (read 1 hello) one_client).0 ≡ done tt
unfolding accept Session.start Session.do_read Session.update_last_active_time
read_ends_example =
    read_ends toy rank 1 hello one_client one_client-Reach (omega arith)
      (can_read 1 hello (Session.start initial.now Session.fresh) newcomer refl (omega arith))
      hello-IsSafe
