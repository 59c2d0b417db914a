-- ===== src/Server/Tests.antt =====
-- Runs of the server of src/GameServer.cpp, and its theorems at concrete inputs.
use game_server.Prelude.{
  ◌&&◌, length, ◌<◌, member, bytes_eq, ◌≡◌, refl, List, [], ◌∷◌, Bytes, true, false, some, arith,
  codes, leb, ◌+◌, ◌*◌, ◌^◌, if◌then◌else◌,
}
use game_server.Prelude.Exec.{done}
use game_server.Prelude.Dict
use game_server.Codec.{Message}
use game_server.MessageId
use game_server.Metrics
use game_server.Player.Repository
use game_server.Player.Repository.{PlayerState}
use game_server.Player.StateManager
use game_server.Player.StateManager.{PlayerRuntimeState, offline}
use game_server.Proto.{Proto}
use game_server.Room.Invariant as Rooms
use game_server.Room.Manager as RoomManagers
use game_server.Session
use game_server.Server.{
  Event, accepted, read, read_failed, written, handle, run, accept, start_handlers,
}
use game_server.Server.Invariant.{IsSound}
use game_server.Server.NoFault.{IsReady, housekeeping_ends}
use game_server.Server.Sound.{run-IsSound}
use game_server.Service.Chat.Ends.{chat_ends, create_room_ends}
use game_server.Service.Chat.{handle_chat}
use game_server.Service.Ranking.{handle_ranking_req}
use game_server.Service.Ranking.Tests.{rank, rank-Sorts}
use game_server.Service.Ranking.Top.{IsTop, ranking_lem, wanted}
use game_server.Service.Reconnect.{handle_reconnect, reconnect_reply}
use game_server.Service.Reconnect.Access.{counted, restored, reconnect_refuses}
use game_server.Service.Reconnect.Lost.{close_records, close_lets_back}
use game_server.Service.Reconnect.Tokens.{after, token_decides}
use game_server.Service.Login.{
  generate_token, handle_login, send_login_success, enter, generate_player_id,
}
use game_server.Codec.{try_decode, read_uint32, read_uint16}
use game_server.Dispatcher.{register_handler, handler_of}
use game_server.Server.Steady.{of_session}
use game_server.Server.{read_done, parse_packet, parse_rounds, take_packet, dispatch}
use game_server.World.Closing.{add_session}
use game_server.World.{session_at, World, initial, send}
use game_server.World.Broadcast.{is_done}
use game_server.Server.Toy.{toy, first, others_of}
use game_server.Server.Timeouts.{shut_if, check_timeout_closes}
use game_server.Server.GivingUp.{seat_of, record_of, unless, check_reconnect_timeout_clears}
use game_server.World.Closing.{check_reconnect_timeout, check_timeout, close, forget}
use game_server.World.Rooms.{create_room}

-- A client connects and logs in as "a"; the reply goes out; the connection breaks.
abbrev day : List Event
day = accepted ∷ read 1 (1 ∷ 0 ∷ 0 ∷ 0 ∷ 0xe9 ∷ 0x03 ∷ 97 ∷ []) ∷ written 1 17 ∷ read_failed 1 ∷ []

run-IsSound_example : IsSound (run (start_handlers toy rank) day initial).1
run-IsSound_example = run-IsSound toy rank day

abbrev connected : World
connected = (run (start_handlers toy rank) (accepted ∷ []) initial).1

connected-IsReady : IsReady connected
unfolding run
connected-IsReady = record { sound = run-IsSound toy rank (accepted ∷ []); ids_left = omega arith }

housekeeping_ends_example : (handle (start_handlers toy rank) (read_failed 1) connected).0 ≡ done tt
housekeeping_ends_example =
    housekeeping_ends (start_handlers toy rank) (read_failed 1) connected tt connected-IsReady

-- Player 7 is offline with a seat to come back to; session 1 asks for it.
abbrev seat : PlayerRuntimeState
seat = record {
  player_id = 7;
  room_id = 3;
  conn_state = offline;
  token = 55 ∷ [];
  disconnected_time = 0;
}

abbrev waiting : World
waiting = record initial {
  sessions = Dict.put 1 Session.fresh Dict.empty;
  player_state_manager = record { states = Dict.put 7 seat Dict.empty };
}

abbrev asking : Bytes → Message
asking token = record { msg_id = 1010; body = 7 ∷ token }

rooms-IsConsistent : Rooms.IsConsistent waiting.room_manager
rooms-IsConsistent = record {
  below = Dict.Every-empty (λ r room. r < 1);
  placed = Dict.Every-empty (λ p r. Rooms.Hosts Dict.empty p r);
}

found : Dict.lookup 7 waiting.player_state_manager.states ≡ some seat
unfolding Dict.lookup Dict.put
found = refl

reconnect_refuses_example :
    (reason : Bytes) × (handle_reconnect toy 1 (asking (56 ∷ [])) waiting
      ≡ send 1 (reconnect_reply toy 1 0 0 reason) (counted waiting))
unfolding first others_of Dict.lookup Dict.put bytes_eq
reconnect_refuses_example = reconnect_refuses toy 1 (asking (56 ∷ [])) waiting refl

-- Session 1 never logged in, and its connection breaks.
close_records_example :
    Dict.lookup 0 (close 1 waiting).1.player_state_manager.states
    ≡ some (record seat {
      player_id = 0;
      room_id = RoomManagers.get_room_id_by_player 0 waiting.room_manager;
      token = [];
    })
unfolding Dict.lookup Dict.put
close_records_example = close_records 1 waiting refl

-- Another connection asks for the seat of player 0, with no token.
close_lets_back_example :
    ((close 1 waiting).0 ≡ done tt)
    × (handle_reconnect toy 2 (record { msg_id = 1010; body = 0 ∷ [] }) (close 1 waiting).1
        ≡ send 2
            (reconnect_reply toy 0 0
              (RoomManagers.get_room_id_by_player 0 waiting.room_manager)
              (codes "reconnect_success"))
            (restored 2 0 [] (counted (close 1 waiting).1)))
unfolding first others_of Dict.lookup Dict.put
close_lets_back_example =
    close_lets_back toy 1 2 (record { msg_id = 1010; body = 0 ∷ [] }) waiting refl refl
      rooms-IsConsistent refl refl

-- The player of `day` is gone, and a new connection asks for their seat.
abbrev next_day : List Event
next_day = accepted ∷ read 1 (1 ∷ 0 ∷ 0 ∷ 0 ∷ 0xe9 ∷ 0x03 ∷ 97 ∷ []) ∷ read_failed 1 ∷ accepted ∷ []

-- A protobuf whose reconnect request gives the id's distance from the first one.
abbrev near : Proto
near = record toy {
  parse_reconnect_req = λ bs. record { player_id = 10000 + first bs; token = others_of bs };
}

abbrev left_seat : PlayerRuntimeState
left_seat = record {
  player_id = 10000;
  room_id = 0xffffffff;
  conn_state = offline;
  token = generate_token 10000;
  disconnected_time = 0;
}

abbrev claim : Message
claim = record { msg_id = 1010; body = 0 ∷ generate_token 10000 }

token_decides_example : handle_reconnect near 2 claim (after near rank next_day) ≡ (
    if bytes_eq (generate_token 10000) (generate_token 10000)
    then send 2
        (reconnect_reply near 0 10000 0xffffffff (codes "reconnect_success"))
        (restored 2 10000 (generate_token 10000) (counted (after near rank next_day)))
    else send 2
        (reconnect_reply near 1
          (session_at 2 (after near rank next_day)).player_id
          0
          (codes "token is not match"))
        (counted (after near rank next_day)))
unfolding run handle accept close forget of_session read_done parse_packet parse_rounds try_decode
    read_uint32 read_uint16 take_packet dispatch handler_of start_handlers register_handler
    handle_login send_login_success enter generate_player_id add_session send Session.send
    Session.do_write Session.receive Session.do_read Session.start Session.update_last_active_time
    Session.set_player_id Session.set_token RoomManagers.remove_player
    RoomManagers.mark_player_disconnected StateManager.mark_disconnected StateManager.save_online
    Dict.insert Dict.contains Dict.put Dict.lookup Dict.modify first others_of
token_decides_example =
    token_decides near rank next_day 2 claim left_seat refl refl refl (omega arith)

-- Nobody has made room 7.
chat_ends_example : is_done (handle_chat toy 1 (asking []) waiting).0 ≡ false
unfolding first Dict.lookup RoomManagers.get_room
chat_ends_example = chat_ends toy 1 (asking []) waiting

create_room_ends_example : is_done (create_room toy (7 ∷ []) waiting).0 ≡ false
unfolding Dict.lookup
create_room_ends_example = create_room_ends toy (7 ∷ []) waiting

-- Player 7 is stored with score 4.
abbrev scored_seven : World
scored_seven = record initial {
  player_state_repository = record {
    states =
        Dict.put 7
          (record {
            player_id = 7;
            name = [];
            score = 4;
            online = true;
            room_id = 0;
            last_login_time_ms = 0;
            last_logout_time_ms = 0;
          })
          Dict.empty;
  };
}

ranking_lem_example :
    let players = Repository.get_all_players scored_seven.player_state_repository in
    (top : List PlayerState) × (others : List PlayerState) × IsTop players top others
    × (length top ≡ wanted 5 (length players))
    × (handle_ranking_req toy rank 1 (record { msg_id = 1012; body = 5 ∷ [] }) scored_seven
        ≡ send 1
            (record { msg_id = MessageId.ranking_resp; body = [] })
            (record scored_seven { metrics = Metrics.incr_ranking_req scored_seven.metrics }))
unfolding first Repository.get_all_players Dict.values Dict.put
ranking_lem_example =
    ranking_lem toy rank 1 (record { msg_id = 1012; body = 5 ∷ [] }) scored_seven rank-Sorts
      (omega arith)

check_timeout_closes_example :
    Dict.lookup 1 (check_timeout 15 connected).1.sessions
    ≡ Dict.over
        (shut_if (
          member 1 connected.connections
          && leb ((session_at 1 connected).last_active_time + (15 + 1) * 10 ^ 9) connected.now))
        (Dict.lookup 1 connected.sessions)
check_timeout_closes_example = check_timeout_closes 15 connected 1 connected-IsReady

check_reconnect_timeout_clears_example :
    let late =
      StateManager.get_reconnect_timeout_players 30 connected.now connected.player_state_manager in
    (seat_of 0 (check_reconnect_timeout connected).1 ≡ unless (member 0 late) (seat_of 0 connected))
    × (record_of 0 (check_reconnect_timeout connected).1
        ≡ unless (member 0 late) (record_of 0 connected))
check_reconnect_timeout_clears_example =
    check_reconnect_timeout_clears 0 connected connected-IsReady
