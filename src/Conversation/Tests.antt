-- ===== src/Conversation/Tests.antt =====
-- Conversations of a client of client/ClientSimulator.cpp with the server of src/GameServer.cpp at
-- concrete inputs.
use game_server.Prelude.{
  ◌++◌, member, set_insert, ◌≡◌, refl, [], ◌∷◌, true, false, some, codes, minus_one, arith, ◌<◌,
  to_string,
}
use game_server.Prelude.Exec.{done}
use game_server.Prelude.Dict
use game_server.Client as Clients
use game_server.Client.{
  ClientProto, ClientSimulator, new_client, login, request_match, chat, duration_send,
}
use game_server.Client.Starting.{reconnect}
use game_server.Client.Reading.{with_input}
use game_server.Conversation.Chatting.{chat_talk}
use game_server.Service.Chat.Reach.{said}
use game_server.World.Delivery.{Queues, packets_for}
use game_server.Room as Seats
use game_server.Conversation.Login.{login_talk}
use game_server.Conversation.Matching.{unsent, match_talk}
use game_server.Conversation.Return.{come_back}
use game_server.Match as Queue
use game_server.Room.Invariant as Rooms
use game_server.Room.Manager as Places
use game_server.Server.{accept, read_done, start_handlers}
use game_server.Server.Toy.{toy, first, others_of}
use game_server.Service.Login.{generate_token}
use game_server.Service.Ranking.Tests.{rank}
use game_server.Service.Reconnect.Access.{accepts}
use game_server.Session
use game_server.Session.{Session, given}
use game_server.World.{World, initial, session_at}
use game_server.World.Opening.{Hosts}
use game_server.World.Closing.{close}

-- What the client makes of the server's toy messages. A reply gives the text in it.
abbrev matching : ClientProto
matching = record {
  login_req = λ r. r.username;
  match_req = λ r. r.player_id ∷ [];
  chat_req = λ r. r.room_id ∷ r.text;
  heartbeat_req = λ r. r.client_time_ms ∷ [];
  reconnect_req = λ r. r.player_id ∷ r.token;
  ranking_req = λ r. r.top_n ∷ [];
  parse_login_resp =
      λ bs. record { code = 0; player_id = 10000; message = codes "login_success"; token = bs };
  parse_room_created_notify = λ bs. record { room_id = 1; players = bs };
  parse_heartbeat_resp = λ bs. record { client_time_ms = 0; server_time_ms = 0 };
  parse_reconnect_resp =
      λ bs. record { code = 0; player_id = 7; room_id = minus_one; message = bs };
}

abbrev player : ClientSimulator
player = new_client true 0 0

abbrev one_connection : World
one_connection = (accept initial).1

newcomer : Session
newcomer = Session.start initial.now Session.fresh

login_talk_example :
    let asking = login matching player in
    (v : World) × (read_done (start_handlers toy rank) 1 asking.sent one_connection ≡ (done tt, v))
    × (Dict.lookup 10000 v.player_manager.players ≡ some 1)
    × ((session_at 1 v).player_id ≡ 10000)
    × ((session_at 1 v).token ≡ generate_token 10000)
    × (Clients.read_done matching 8 (given (session_at 1 v).pending_write) asking
        ≡ with_input [] true (
            request_match matching
              (record asking { player_id = 10000; token = generate_token 10000 })))
unfolding newcomer accept Session.start Session.do_read Session.update_last_active_time new_client
    Dict.lookup Dict.put generate_token to_string
login_talk_example =
    login_talk toy rank matching 1 10000 8 newcomer one_connection player refl
      (record { open_now = refl; unread = refl; unsent = refl }) refl (omega arith) refl refl
      (record { id_bound = omega arith; body_bound = omega arith })
      (record { id_bound = omega arith; body_bound = omega arith }) (omega arith) refl refl

-- Player 7 is logged in on connection 1, which is lost.
abbrev seven : Session
seven = record Session.fresh { player_id = 7; token = 55 ∷ [] }

abbrev seven_is_here : World
seven_is_here = record initial { sessions = Dict.put 1 seven Dict.empty }

abbrev of_seven : ClientSimulator
of_seven = record player { player_id = 7; token = 55 ∷ [] }

rooms-IsConsistent : Rooms.IsConsistent seven_is_here.room_manager
rooms-IsConsistent = record {
  below = Dict.Every-empty (λ r room. r < 1);
  placed = Dict.Every-empty (λ p r. Rooms.Hosts Dict.empty p r);
}

come_back_example :
    let lost = close 1 seven_is_here in
    let sid = lost.1.next_session in
    let asking = reconnect matching of_seven in
    (lost.0 ≡ done tt)
    × (v : World) × (read_done (start_handlers toy rank) sid asking.sent (accept lost.1).1
        ≡ (done tt, v))
    × (Dict.lookup 7 v.player_manager.players ≡ some sid)
    × ((session_at sid v).token ≡ 55 ∷ [])
    × (accepts (Dict.lookup 7 v.player_state_manager.states) (55 ∷ []) ≡ false)
    × (Clients.read_done matching 8 (given (session_at sid v).pending_write) asking
        ≡ with_input [] true (duration_send (record asking { heart_beat_enable = true })))
unfolding Dict.lookup Dict.put first others_of Places.get_room_id_by_player
come_back_example =
    come_back toy rank matching 1 7 8 (55 ∷ []) (55 ∷ []) seven seven_is_here of_seven refl refl
      refl refl refl rooms-IsConsistent (omega arith) refl refl refl refl
      (record { id_bound = omega arith; body_bound = omega arith })
      (record { id_bound = omega arith; body_bound = omega arith }) (omega arith) refl refl

-- Player 4, on connection 1, waits for a match; player 7, on connection 2, asks for one.
abbrev one_waits : World
one_waits = record initial {
  sessions = Dict.put 1 Session.fresh (Dict.put 2 Session.fresh Dict.empty);
  player_manager = record { players = Dict.put 4 1 (Dict.put 7 2 Dict.empty) };
  match_queue = Queue.join 4 initial.match_queue;
}

match_talk_example :
    let asking = request_match matching of_seven in
    (v : World) × (read_done (start_handlers toy rank) 2 asking.sent one_waits ≡ (done tt, v))
    × (v.match_queue.queue ≡ [])
    × Hosts 1 4 7 v.room_manager
    × ((Clients.read_done matching 8 (unsent 1 v) player).room_id ≡ 1)
    × ((Clients.read_done matching 8 (unsent 2 v) asking).room_id ≡ 1)
unfolding Dict.lookup Dict.put first Queue.join Queue.contains member set_insert new_client
match_talk_example =
    match_talk toy rank matching 1 2 4 7 refl 8 one_waits Session.fresh Session.fresh player
      of_seven refl refl (omega arith) (omega arith) refl refl refl refl refl refl refl refl
      (record { open_now = refl; unread = refl; unsent = refl }) refl refl refl
      (record { id_bound = omega arith; body_bound = omega arith })
      (record { id_bound = omega arith; body_bound = omega arith })
      (record { id_bound = omega arith; body_bound = omega arith }) (omega arith) (omega arith) refl
      refl refl refl

-- Players 7 and 8 are in room 3; the client of player 7 says "hi".
abbrev in_room : World
in_room = record initial {
  sessions =
      Dict.put 1 (record Session.fresh { player_id = 7 })
        (Dict.put 2 (record Session.fresh { player_id = 8 }) Dict.empty);
  player_manager = record { players = Dict.put 7 1 (Dict.put 8 2 Dict.empty) };
  room_manager = record Places.initial {
    rooms = Dict.put 3 (Seats.new_room 3 (7 ∷ 8 ∷ [])) Dict.empty;
  };
}

chat_talk_example :
    (v : World) × (read_done
        (start_handlers toy rank)
        1
        (chat matching (codes "hi") (record player { room_id = 3 })).sent
        in_room
      ≡ (done tt, v))
    × Queues 2 v ([] ++ packets_for 2 (said toy 3 7 (codes "hi")) in_room (7 ∷ 8 ∷ []))
unfolding Dict.lookup Dict.put Dict.contains first others_of Places.get_room Seats.new_room
    new_client
chat_talk_example =
    chat_talk toy rank matching 1 2 3 (codes "hi") (Seats.new_room 3 (7 ∷ 8 ∷ []))
      (record Session.fresh { player_id = 7 }) (record Session.fresh { player_id = 8 }) in_room
      (record player { room_id = 3 }) refl (omega arith)
      (record { id_bound = omega arith; body_bound = omega arith }) refl refl refl
      (record { open_now = refl; unread = refl; unsent = refl }) refl refl refl
