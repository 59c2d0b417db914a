-- ===== src/Server/Timers/Tests.antt =====
-- A started server of src/GameServer.cpp at concrete inputs.
use game_server.Prelude.{
  ◌+◌, ◌^◌, ◌<◌, ◌≡◌, refl, [], ◌∷◌, Bytes, true, false, arith, member, set_insert,
}
use game_server.Prelude.Dict
use game_server.Player.StateManager.{PlayerRuntimeState, offline}
use game_server.Codec.{try_decode, read_uint32, read_uint16}
use game_server.Dispatcher.{register_handler, handler_of}
use game_server.Service.Login.{handle_login, send_login_success, enter, generate_player_id}
use game_server.World.Closing.{add_session, close, forget}
use game_server.Room.Manager as RoomManagers
use game_server.Player.StateManager
use game_server.Server.{
  accept, read_done, parse_packet, parse_rounds, take_packet, dispatch, read, read_failed, handle,
  start_handlers,
}
use game_server.Server.Loop.{can_read, can_fail_to_read}
use game_server.Server.Timers.{GameServer, new_server, start, accept_done, on_server, seconds}
use game_server.Server.Steady.{of_session}
use game_server.Server.Timers.Punctual.{IsTimely, run-IsTimely}
use game_server.Server.Timers.Refused.{accept_error_lem}
use game_server.Server.Timers.Seats.{run_clears_seats}
use game_server.Server.Timers.Silence.{run_hears}
use game_server.Server.Timers.Steps.{
  Serving, starts, goes, Onward, stays, then, accepts, serves, waits, wait,
}
use game_server.Server.Toy.{toy}
use game_server.Service.Ranking.Tests.{rank}
use game_server.Session
use game_server.Session.{Session}
use game_server.World.{session_at, send}

abbrev started : GameServer
started = start new_server

-- A client connects.
abbrev connected : GameServer
connected = (accept_done false started).1

connected-Serving : Serving (start_handlers toy rank) 0 connected
unfolding accept_done start accept
connected-Serving = goes starts (accepts false {h = connected} refl refl)

-- It logs in as "a".
abbrev hello : Bytes
hello = 1 ∷ 0 ∷ 0 ∷ 0 ∷ 0xe9 ∷ 0x03 ∷ 97 ∷ []

abbrev logged_in : GameServer
logged_in = (on_server (handle (start_handlers toy rank) (read 1 hello)) connected).1

logged_in-Serving : Serving (start_handlers toy rank) 0 logged_in
unfolding accept_done start accept handle read_done parse_packet parse_rounds try_decode read_uint32
    read_uint16 take_packet dispatch handler_of start_handlers register_handler Dict.put Dict.lookup
    Dict.modify handle_login send_login_success enter generate_player_id add_session send
    Session.send Session.do_write Session.receive Session.do_read Session.start
    Session.update_last_active_time Session.set_player_id Session.set_token of_session
logged_in-Serving = goes connected-Serving (
    serves (read 1 hello) {h = logged_in} refl
      (can_read 1 hello (session_at 1 connected.server) refl refl (omega arith)) refl)

-- 100 milliseconds pass.
abbrev later : GameServer
later = wait (10 ^ 8) 100 logged_in

later-Serving : Serving (start_handlers toy rank) 0 later
unfolding accept_done start accept handle read_done parse_packet parse_rounds try_decode read_uint32
    read_uint16 take_packet dispatch handler_of start_handlers register_handler Dict.put Dict.lookup
    Dict.modify handle_login send_login_success enter generate_player_id add_session send
    Session.send Session.do_write Session.receive Session.do_read Session.start
    Session.update_last_active_time Session.set_player_id Session.set_token
later-Serving = goes logged_in-Serving (
    waits (10 ^ 8) 100 (record {
      timer = omega arith;
      heartbeat_timer = omega arith;
      check_reconnect_timer = omega arith;
      reporter_timer = omega arith;
    }))

run-IsTimely_example : IsTimely 0 later
run-IsTimely_example = run-IsTimely toy rank 0 later later-Serving

run_hears_example : 10 ^ 8 < 0 + seconds 21 + 0
unfolding accept_done start accept handle read_done parse_packet parse_rounds try_decode read_uint32
    read_uint16 take_packet dispatch handler_of start_handlers register_handler Dict.put Dict.lookup
    Dict.modify handle_login send_login_success enter generate_player_id add_session send
    Session.send Session.do_write Session.receive Session.do_read Session.start
    Session.update_last_active_time Session.set_player_id Session.set_token member set_insert
run_hears_example =
    run_hears toy rank 0 later 1 (session_at 1 later.server) later-Serving refl refl refl

-- The connection breaks, and player 0 has a seat to come back to.
abbrev broken : GameServer
broken = (on_server (handle (start_handlers toy rank) (read_failed 1)) connected).1

broken-Serving : Serving (start_handlers toy rank) 0 broken
unfolding accept_done start accept handle close forget of_session Dict.put Dict.lookup Dict.modify
    Session.start Session.do_read Session.update_last_active_time RoomManagers.remove_player
    RoomManagers.mark_player_disconnected
broken-Serving = goes connected-Serving (
    serves (read_failed 1) {h = broken} refl
      (can_fail_to_read 1 (session_at 1 connected.server) refl refl) refl)

abbrev seat_left : PlayerRuntimeState
seat_left = record {
  player_id = 0;
  room_id = 0xffffffff;
  conn_state = offline;
  token = [];
  disconnected_time = 0;
}

run_clears_seats_example : broken.server.now < seat_left.disconnected_time + seconds 36 + 0
unfolding accept_done start accept handle close forget of_session Dict.put Dict.lookup Dict.modify
    Session.start Session.do_read Session.update_last_active_time RoomManagers.remove_player
    RoomManagers.mark_player_disconnected StateManager.mark_disconnected StateManager.save_online
    Dict.insert Dict.contains
run_clears_seats_example = run_clears_seats toy rank 0 broken 0 seat_left broken-Serving refl refl

-- Its next accept fails, and 100 milliseconds pass.
abbrev deaf : GameServer
deaf = wait (10 ^ 8) 100 (accept_done true connected).1

deaf-Onward : Onward (start_handlers toy rank) 0 (accept_done true connected).1 deaf
unfolding accept_done start accept
deaf-Onward = then stays (
    waits (10 ^ 8) 100 (record {
      timer = omega arith;
      heartbeat_timer = omega arith;
      check_reconnect_timer = omega arith;
      reporter_timer = omega arith;
    }))

accept_error_lem_example :
    (deaf.accepting ≡ false)
    × (Dict.contains 2 deaf.server.sessions ≡ true
        → Dict.contains 2 connected.server.sessions ≡ true)
accept_error_lem_example = accept_error_lem toy rank 0 connected deaf 2 deaf-Onward
