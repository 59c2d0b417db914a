-- ===== src/World/Closing.antt =====
-- How a session ends: the callback that src/GameServer.cpp sets in `do_accept`, `close` of
-- src/net/Session.cpp, and what ends sessions and seats by time.
use game_server.Prelude.{ℕ, length, List, [], ◌∷◌, true, if◌then◌else◌, set_erase, set_insert}
use game_server.Prelude.Exec.{Exec, pure, modify, for_each, ◌>>◌}
use game_server.Match
use game_server.Player.Manager
use game_server.Player.StateManager
use game_server.Room.Manager as RoomManagers
use game_server.Session
use game_server.World.{World, on_rooms, on_session, session_at}

-- `ConnectionManager::remove_session` and `connection_count`
abbrev pub remove_session : ℕ → List ℕ → List ℕ
remove_session sid sessions = set_erase sid sessions

abbrev pub connection_count : List ℕ → ℕ
connection_count sessions = length sessions

-- The callback, up to the rooms: the player id and the token are the session's.
unfoldable pub forget : ℕ → World → World
forget sid w =
    let player_id = (session_at sid w).player_id in
    let token = (session_at sid w).token in
    let room_id = RoomManagers.get_room_id_by_player player_id w.room_manager in
    record w {
      match_queue = Match.leave player_id w.match_queue;
      player_manager = Manager.remove_player player_id w.player_manager;
      connections = remove_session sid w.connections;
      player_state_manager =
          StateManager.mark_disconnected w.now player_id
            (StateManager.save_online player_id room_id token w.player_state_manager);
    }

unfoldable pub on_closed : ℕ → Exec World (Unit {0})
unfolding forget
on_closed sid w =
    (do
      modify (forget sid)
      on_rooms (RoomManagers.mark_player_disconnected (session_at sid w).player_id))
      w

-- The socket is closed; an outstanding operation ends with an error later. The callback is set
-- before `start`, so it is always there.
unfoldable pub close : ℕ → Exec World (Unit {0})
unfolding on_closed
close sid w =
    if (session_at sid w).closed
    then pure tt w
    else (do on_session sid (λ s. record s { closed = true }); on_closed sid) w

-- `ConnectionManager`
unfoldable pub add_session : ℕ → Exec World (Unit {0})
add_session sid = modify (λ w. record w { connections = set_insert sid w.connections })

unfoldable pub idle_sessions : ℕ → World → List ℕ → List ℕ
idle_sessions timeout w [] = []
idle_sessions timeout w (sid ∷ rest) =
    let more = idle_sessions timeout w rest in
    if Session.check_timeout timeout w.now (session_at sid w) then sid ∷ more else more

unfoldable pub check_timeout : ℕ → Exec World (Unit {0})
unfolding idle_sessions
check_timeout timeout w = for_each (idle_sessions timeout w w.connections) close w

-- `GameServer::check_reconnect_timeout`, for one player.
unfoldable pub give_up : ℕ → Exec World (Unit {0})
give_up player_id = do
  on_rooms (RoomManagers.remove_player player_id)
  modify (λ w. record w {
    player_state_manager = StateManager.remove_player player_id w.player_state_manager;
  })

unfoldable pub check_reconnect_timeout : Exec World (Unit {0})
unfolding give_up
check_reconnect_timeout w =
    for_each (StateManager.get_reconnect_timeout_players 30 w.now w.player_state_manager) give_up w
