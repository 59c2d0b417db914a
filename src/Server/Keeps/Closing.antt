-- ===== src/Server/Keeps/Closing.antt =====
-- The invariant through the close callback of src/GameServer.cpp, `close` of src/net/Session.cpp, and
-- the two timeouts.
use game_server.Prelude.{ℕ, ◌≡◌, refl, inl, inr, true, Option, none, some, Bool-cases}
use game_server.Prelude.Exec.{Keeps, modify, for_each-Keeps, then-Keeps}
use game_server.Prelude.Dict
use game_server.Match.Laws as Queue
use game_server.Player.StateManager
use game_server.Player.StateManager.{PlayerRuntimeState}
use game_server.Room.Manager as Manager
use game_server.Session
use game_server.Session.{Session}
use game_server.Server.Invariant.{IsSessionOk, IsStateOk, AreStatesOk, IsSound}
use game_server.Server.Keeps.{session-Keeps}
use game_server.Server.Keeps.Rooms.{remove_player-Keeps, mark_disconnected-Keeps}
use game_server.World.{World, session_at, or_fresh}
use game_server.World.Closing.{
  forget, on_closed, close, add_session, check_timeout, idle_sessions, give_up,
  check_reconnect_timeout,
}

pub fresh-IsSessionOk : IsSessionOk Session.fresh
fresh-IsSessionOk = record { writing = λ _. refl; issued = inr (refl, refl) }

or_fresh-IsSessionOk :
    (o : Option Session) → ((s : Session) → o ≡ some s → IsSessionOk s) → IsSessionOk (or_fresh o)
or_fresh-IsSessionOk none h = fresh-IsSessionOk
or_fresh-IsSessionOk (some s) h = h s refl

pub session_at-IsSessionOk : (sid : ℕ) (w : World) → IsSound w → IsSessionOk (session_at sid w)
session_at-IsSessionOk sid w h = or_fresh-IsSessionOk (Dict.lookup sid w.sessions) (h.sessions sid)

forget-AreStatesOk :
    (sid : ℕ) (w : World) → IsSound w → AreStatesOk (forget sid w).player_state_manager.states
unfolding forget StateManager.mark_disconnected StateManager.save_online
forget-AreStatesOk sid w h =
    let s = session_at sid w in
    let entry : PlayerRuntimeState = record {
      player_id = s.player_id;
      room_id = Manager.get_room_id_by_player s.player_id w.room_manager;
      conn_state = StateManager.online;
      token = s.token;
      disconnected_time = 0;
    } in
    Dict.Every-modify IsStateOk _ s.player_id _
      (λ v ok. record { own = ok.own; issued = ok.issued })
      (Dict.Every-insert IsStateOk s.player_id entry w.player_state_manager.states
        (record { own = refl; issued = (session_at-IsSessionOk sid w h).issued }) h.states)

forget-Keeps : (sid : ℕ) → Keeps IsSound (modify (forget sid))
unfolding forget
forget-Keeps sid = record {
  at = λ w h. record {
    queue = (Queue.leave-IsConsistent (session_at sid w).player_id w.match_queue h.queue).0;
    rooms = h.rooms;
    sessions = h.sessions;
    states = forget-AreStatesOk sid w h;
    stored = h.stored;
  };
}

on_closed-Keeps : (sid : ℕ) → Keeps IsSound (on_closed sid)
unfolding on_closed
on_closed-Keeps sid = record {
  at = λ w h.
      (then-Keeps _ _ (forget-Keeps sid) (mark_disconnected-Keeps (session_at sid w).player_id)).at
        w h;
}

pub close-Keeps : (sid : ℕ) → Keeps IsSound (close sid)
unfolding close
close-Keeps sid = record {
  at = λ w h. elim (Bool-cases (session_at sid w).closed) [
    | inl closed ↦ rw (closed) h
    | inr open_now ↦ rw (open_now) (
        (then-Keeps _ _ (session-Keeps sid (λ s. record s { closed = true }) closed-IsSessionOk)
            (on_closed-Keeps sid)).at
          w h)
  ];
}
  where
    closed-IsSessionOk : (s : Session) → IsSessionOk s → IsSessionOk (record s { closed = true })
    closed-IsSessionOk s ok = record { writing = λ e. cc; issued = ok.issued }

pub check_timeout-Keeps : (timeout : ℕ) → Keeps IsSound (check_timeout timeout)
unfolding check_timeout
check_timeout-Keeps timeout = record {
  at = λ w h. (for_each-Keeps (idle_sessions timeout w w.connections) close close-Keeps).at w h;
}

pub states-Keeps :
    (f : Dict.Dict PlayerRuntimeState → Dict.Dict PlayerRuntimeState)
    → ((m : Dict.Dict PlayerRuntimeState) → AreStatesOk m → AreStatesOk (f m))
    → Keeps IsSound (
        modify (λ (w : World). record w {
          player_state_manager = record { states = f w.player_state_manager.states };
        }))
states-Keeps f k = record {
  at = λ w h. record {
    queue = h.queue;
    rooms = h.rooms;
    sessions = h.sessions;
    states = k w.player_state_manager.states h.states;
    stored = h.stored;
  };
}

pub give_up-Keeps : (p : ℕ) → Keeps IsSound (give_up p)
unfolding give_up StateManager.remove_player
give_up-Keeps p =
    then-Keeps _ _ (remove_player-Keeps p)
      (states-Keeps (Dict.remove p) (λ m h. Dict.Every-remove IsStateOk p m h))

pub check_reconnect_timeout-Keeps : Keeps IsSound check_reconnect_timeout
unfolding check_reconnect_timeout
check_reconnect_timeout-Keeps = record {
  at = λ w h. (for_each-Keeps _ give_up give_up-Keeps).at w h;
}

pub add_session-Keeps : (sid : ℕ) → Keeps IsSound (add_session sid)
unfolding add_session
add_session-Keeps sid = record {
  at = λ w h. record {
    queue = h.queue;
    rooms = h.rooms;
    sessions = h.sessions;
    states = h.states;
    stored = h.stored;
  };
}
