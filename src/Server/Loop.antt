-- ===== src/Server/Loop.antt =====
-- The event loop as a step relation: which completions and timers of src/net/Session.cpp and
-- src/GameServer.cpp can run next, and the states that the server gets to while no handler faults.
use game_server.Prelude.{ℕ, ◌≤◌, ◌≡◌, Bytes, true, some, length}
use game_server.Prelude.Exec.{done}
use game_server.Prelude.Dict
use game_server.Prelude.Dict.{Dict}
use game_server.Codec.{AreBytes}
use game_server.Server.{
  Handler, Event, accepted, read, read_failed, written, write_failed, room_timer, timeout_timer,
  reconnect_timer, report_timer, elapse, destroy, handle,
}
use game_server.Session.{Session}
use game_server.World.{World, initial}

-- A read or a write completes where one is outstanding, with bytes or with an error; a session goes
-- when it is closed, since the handler of its outstanding read holds it until then.
pub data Can (w : World) : Event → Type 0 where
  can_accept : Can w accepted
  can_read :
      (sid : ℕ) (bytes : Bytes) (s : Session)
      → Dict.lookup sid w.sessions ≡ some s
      → s.reading ≡ true
      → AreBytes bytes
      → Can w (read sid bytes)
  can_fail_to_read :
      (sid : ℕ) (s : Session)
      → Dict.lookup sid w.sessions ≡ some s
      → s.reading ≡ true
      → Can w (read_failed sid)
  can_write :
      (sid n : ℕ) (s : Session) (packet : Bytes)
      → Dict.lookup sid w.sessions ≡ some s
      → s.pending_write ≡ some packet
      → n ≤ length packet
      → Can w (written sid n)
  can_fail_to_write :
      (sid : ℕ) (s : Session) (packet : Bytes)
      → Dict.lookup sid w.sessions ≡ some s
      → s.pending_write ≡ some packet
      → Can w (write_failed sid)
  can_tick : Can w room_timer
  can_check : Can w timeout_timer
  can_give_up : Can w reconnect_timer
  can_report : Can w report_timer
  can_wait : (nanoseconds milliseconds : ℕ) → Can w (elapse nanoseconds milliseconds)
  can_go :
      (sid : ℕ) (s : Session)
      → Dict.lookup sid w.sessions ≡ some s
      → s.closed ≡ true
      → Can w (destroy sid)

pub data Step (handlers : Dict Handler) (w : World) : World → Type 0 where
  step : (e : Event) {v : World} → Can w e → handle handlers e w ≡ (done tt, v) → Step handlers w v

pub data Reach (handlers : Dict Handler) : World → Type 0 where
  start : Reach handlers initial
  later : {w v : World} → Reach handlers w → Step handlers w v → Reach handlers v
