-- ===== src/Server/Timers/Steps.antt =====
-- The steps of a started server, src/GameServer.cpp: what `io_.run()` can run next. `late` bounds, in
-- nanoseconds, by how much the loop is behind when it runs the handler of a wait that has ended.
use game_server.Prelude.{ℕ, ◌+◌, ◌≤◌, ◌≡◌, true, false, Bool, Option, none, some}
use game_server.Prelude.Exec.{Exec, done}
use game_server.Prelude.Dict.{Dict}
use game_server.Server.{Handler, Event, handle}
use game_server.Server.Loop.{Can}
use game_server.Server.Steady.{of_session}
use game_server.Server.Timers.{
  GameServer, new_server, start, on_server, accept_done, tick_done, timeout_check_done,
  reconnect_timeout_check_done, report_done,
}

-- At `now`, the wait that is out has not ended, or not long ago.
abbrev pub Waited : ℕ → ℕ → Option ℕ → Type 0
Waited late now none = Unit {0}
Waited late now (some t) = now ≤ t + late

-- No handler waits longer than `late` for its turn.
pub record IsPunctual (late now : ℕ) (g : GameServer) : Type 0 where
  pub timer : Waited late now g.timer
  pub heartbeat_timer : Waited late now g.heartbeat_timer
  pub check_reconnect_timer : Waited late now g.check_reconnect_timer
  pub reporter_timer : Waited late now g.reporter_timer

-- The clocks go on.
abbrev pub wait : ℕ → ℕ → GameServer → GameServer
wait ns ms g = record g {
  server = record g.server { now = g.server.now + ns; wall_ms = g.server.wall_ms + ms };
}

-- The wait has ended.
abbrev pub Due : Option ℕ → GameServer → Type 0
Due timer g = (t : ℕ) × (timer ≡ some t) × (t ≤ g.server.now)

-- The handler runs to its end and leaves `h`.
abbrev pub Ends : Exec GameServer (Unit {0}) → GameServer → GameServer → Type 0
Ends m g h = m g ≡ (done tt, h)

pub data Next (handlers : Dict Handler) (late : ℕ) (g : GameServer) : GameServer → Type 0 where
  accepts :
      (ec : Bool) {h : GameServer}
      → g.accepting ≡ true
      → Ends (accept_done ec) g h
      → Next handlers late g h
  ticks : {h : GameServer} → Due g.timer g → Ends (tick_done false) g h → Next handlers late g h
  checks :
      {h : GameServer}
      → Due g.heartbeat_timer g
      → Ends (timeout_check_done false) g h
      → Next handlers late g h
  gives_up :
      {h : GameServer}
      → Due g.check_reconnect_timer g
      → Ends (reconnect_timeout_check_done false) g h
      → Next handlers late g h
  reports :
      {h : GameServer}
      → Due g.reporter_timer g
      → Ends (report_done false) g h
      → Next handlers late g h
  serves :
      (e : Event) {h : GameServer}
      → of_session e ≡ true
      → Can g.server e
      → Ends (on_server (handle handlers e)) g h
      → Next handlers late g h
  waits : (ns ms : ℕ) → IsPunctual late (g.server.now + ns) g → Next handlers late g (wait ns ms g)

-- The states of a server from its `start` on, while no handler faults.
pub data Serving (handlers : Dict Handler) (late : ℕ) : GameServer → Type 0 where
  starts : Serving handlers late (start new_server)
  goes :
      {g h : GameServer}
      → Serving handlers late g
      → Next handlers late g h
      → Serving handlers late h

-- What a server comes to from a state on.
pub data Onward (handlers : Dict Handler) (late : ℕ) (a : GameServer) : GameServer → Type 0 where
  stays : Onward handlers late a a
  then :
      {b c : GameServer}
      → Onward handlers late a b
      → Next handlers late b c
      → Onward handlers late a c
