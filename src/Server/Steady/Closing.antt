-- ===== src/Server/Steady/Closing.antt =====
-- What the end of a connection keeps: `close` of src/net/Session.cpp with the callback of
-- src/GameServer.cpp, and the two timeouts that end connections and seats.
use game_server.Prelude.{ℕ, true, Bool-cases, inl, inr}
use game_server.Prelude.Exec.{Keeps, then-Keeps, for_each-Keeps}
use game_server.Prelude.Dict
use game_server.Player.StateManager
use game_server.Room.Manager as Manager
use game_server.Room.Manager.{RoomManager}
use game_server.World.{World, session_at, on_rooms}
use game_server.World.Closing.{
  close, forget, check_timeout, idle_sessions, check_reconnect_timeout, give_up,
}

-- The session shut, before the callback.
abbrev pub shut_at : ℕ → World → World
shut_at sid w = record w { sessions = Dict.modify (λ s. record s { closed = true }) sid w.sessions }

module _ {P : World → Type 0}
    (rooms : (m : RoomManager) (w : World) → P w → P (record w { room_manager = m })) where
  pub close-Keeps :
      (sid : ℕ) → ((w : World) → P w → P (forget sid (shut_at sid w))) → Keeps P (close sid)
  unfolding close
  close-Keeps sid forgets = record {
    at = λ w h. elim (Bool-cases (session_at sid w).closed) [
      | inl closed ↦ rw closed h
      | inr open_now ↦ rw open_now (rooms _ _ (forgets w h))
    ];
  }

  pub check_timeout-Keeps :
      (timeout : ℕ) → ((sid : ℕ) → Keeps P (close sid)) → Keeps P (check_timeout timeout)
  unfolding check_timeout
  check_timeout-Keeps timeout closes = record {
    at = λ w h. (for_each-Keeps (idle_sessions timeout w w.connections) close closes).at w h;
  }

  pub check_reconnect_timeout-Keeps :
      ((p : ℕ) (w : World)
        → P w
        → P (record w {
          player_state_manager = StateManager.remove_player p w.player_state_manager;
        }))
      → Keeps P check_reconnect_timeout
  unfolding check_reconnect_timeout give_up
  check_reconnect_timeout-Keeps removes = record {
    at = λ w h.
        (for_each-Keeps _ give_up (λ p.
            then-Keeps (on_rooms (Manager.remove_player p)) _ (record { at = λ v k. rooms _ v k })
              (record { at = λ v k. removes p v k }))).at
          w h;
  }
