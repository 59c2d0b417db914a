-- ===== src/Server/NoFault.antt =====
-- Faults in what the event loop runs on its own account: the end of a session, the room tick, the
-- two timeouts and the report of src/GameServer.cpp.
use game_server.Prelude.{ℕ, ◌+◌, ◌<◌, ◌≡◌, refl, ap, ◌∙◌, inl, inr, i32_mod, Bool-cases}
use game_server.Prelude.Exec.{Runs, Outcome, done, after-done, for_each-Runs}
use game_server.Prelude.Dict
use game_server.Room.Manager as Manager
use game_server.Room.Manager.{RoomManager}
use game_server.Room.Invariant as Inv
use game_server.Room.Marks as Marks
use game_server.Server.{
  Handler, Event, read, read_failed, write_failed, timeout_timer, reconnect_timer, handle,
}
use game_server.Server.Invariant.{IsSound}
use game_server.Server.Keeps.Rooms.{remove_player_steady, mark_disconnected_steady}
use game_server.Server.Keeps.Closing.{close-Keeps, give_up-Keeps}
use game_server.World.{World, on_rooms, session_at}
use game_server.World.Closing.{
  forget, close, check_timeout, idle_sessions, give_up, check_reconnect_timeout,
}

-- The invariant, and room ids to spare.
pub record IsReady (w : World) : Type 0 where
  pub sound : IsSound w
  pub ids_left : w.room_manager.opened + 1 < i32_mod

close_ends : (sid : ℕ) (w : World) → IsReady w → (close sid w).0 ≡ done tt
unfolding close forget
close_ends sid w h = elim (Bool-cases (session_at sid w).closed) [
  | inl closed ↦ rw closed
  | inr open_now ↦
      rw open_now
        (Marks.mark_player_disconnected-IsConsistent _ w.room_manager
          (h.sound.rooms h.ids_left).1).0
]

close_opened : (sid : ℕ) (w : World) → (close sid w).1.room_manager.opened ≡ w.room_manager.opened
unfolding close forget
close_opened sid w = elim (Bool-cases (session_at sid w).closed) [
  | inl closed ↦ rw closed
  | inr open_now ↦ rw open_now (mark_disconnected_steady _ w.room_manager).0
]

pub close-Runs : (sid : ℕ) → Runs IsReady (close sid)
close-Runs sid = record {
  ends = close_ends sid;
  keeps = λ w h. record {
    sound = (close-Keeps sid).at w h.sound;
    ids_left = rw (close_opened sid w) h.ids_left;
  };
}

give_up_ends : (p : ℕ) (w : World) → IsReady w → (give_up p w).0 ≡ done tt
unfolding give_up
give_up_ends p w h =
    ap (λ (r : Outcome (Unit {0}) × World). r.0)
      (after-done (on_rooms (Manager.remove_player p) w) _
        (Inv.remove_player-IsConsistent p w.room_manager (h.sound.rooms h.ids_left).1).0)

give_up_opened :
    (p : ℕ) (w : World) → IsReady w → (give_up p w).1.room_manager.opened ≡ w.room_manager.opened
unfolding give_up
give_up_opened p w h =
    ap (λ (r : Outcome (Unit {0}) × World). r.1.room_manager.opened)
      (after-done (on_rooms (Manager.remove_player p) w) _
        (Inv.remove_player-IsConsistent p w.room_manager (h.sound.rooms h.ids_left).1).0)
    ∙ (remove_player_steady p w.room_manager).0

pub give_up-Runs : (p : ℕ) → Runs IsReady (give_up p)
give_up-Runs p = record {
  ends = give_up_ends p;
  keeps = λ w h. record {
    sound = (give_up-Keeps p).at w h.sound;
    ids_left = rw (give_up_opened p w h) h.ids_left;
  };
}

pub check_timeout-Runs : (n : ℕ) → Runs IsReady (check_timeout n)
unfolding check_timeout
check_timeout-Runs n = record {
  ends = λ w h. (for_each-Runs (idle_sessions n w w.connections) close close-Runs).ends w h;
  keeps = λ w h. (for_each-Runs (idle_sessions n w w.connections) close close-Runs).keeps w h;
}

pub check_reconnect_timeout-Runs : Runs IsReady check_reconnect_timeout
unfolding check_reconnect_timeout
check_reconnect_timeout-Runs = record {
  ends = λ w h. (for_each-Runs _ give_up give_up-Runs).ends w h;
  keeps = λ w h. (for_each-Runs _ give_up give_up-Runs).keeps w h;
}

-- Events that hand no packet to a handler.
abbrev pub IsHousekeeping : Event → Type 0
IsHousekeeping (read sid bytes) = ⊥
IsHousekeeping _ = Unit

-- From a state with the invariant and with room ids left, every event other than received bytes
-- is handled to the end without a fault: new and lost connections, finished writes, the room
-- tick, both timeouts, the report, the passing of time.
pub housekeeping_ends :
    (handlers : Dict.Dict Handler) (e : Event) (w : World)
    → IsHousekeeping e
    → IsReady w
    → (handle handlers e w).0 ≡ done tt
unfolding handle
housekeeping_ends handlers (read sid bytes) w q h = absurd q
housekeeping_ends handlers (read_failed sid) w q h = close_ends sid w h
housekeeping_ends handlers (write_failed sid) w q h = close_ends sid w h
housekeeping_ends handlers timeout_timer w q h = (check_timeout-Runs 15).ends w h
housekeeping_ends handlers reconnect_timer w q h = check_reconnect_timeout-Runs.ends w h
housekeeping_ends handlers _ w q h = refl
