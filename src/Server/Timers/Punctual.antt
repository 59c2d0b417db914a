-- ===== src/Server/Timers/Punctual.antt =====
-- The periodic waits of src/GameServer.cpp and src/util/MetricsReporter.cpp.
use game_server.Prelude.{ℕ, ◌+◌, ◌≤◌, ◌≡◌, refl, sym, subst, List, Option, some, arith}
use game_server.Prelude.Exec.{modify}
use game_server.Player.Repository.{PlayerState}
use game_server.Proto.{Proto}
use game_server.Room.Manager.{tick_all}
use game_server.Server.{handle, accept, report_once, start_handlers}
use game_server.Server.Steady.{session-Keeps}
use game_server.Server.Timers.{
  GameServer, start, do_accept, start_tick, start_timeout_check, start_reconnect_timeout_check,
  schedule_next, seconds, milliseconds,
}
use game_server.Server.Timers.Now.{
  same_now, start_handlers-NowIs, check_timeout-NowIs, check_reconnect_timeout-NowIs,
}
use game_server.Server.Timers.Shown.{
  Detail, show, refuses, lets_in, ticks_on, checks_all, clears_seats, prints, handles, goes_on,
}
use game_server.Server.Timers.Steps.{Serving, starts, goes, Waited}
use game_server.World.{World, on_rooms}
use game_server.World.Closing.{check_timeout, check_reconnect_timeout}

-- A wait is out; it ends within the period, and has not ended more than `late` ago.
abbrev pub IsOut : ℕ → ℕ → ℕ → Option ℕ → Type 0
IsOut late period now timer = (t : ℕ) × (timer ≡ some t) × (now ≤ t + late) × (t ≤ now + period)

pub record IsTimely (late : ℕ) (g : GameServer) : Type 0 where
  pub ticks : IsOut late (milliseconds 100) g.server.now g.timer
  pub checks : IsOut late (seconds 5) g.server.now g.heartbeat_timer
  pub clears : IsOut late (seconds 5) g.server.now g.check_reconnect_timer
  pub reports : IsOut late (seconds 1) g.server.now g.reporter_timer

new_wait : (late period now : ℕ) → IsOut late period now (some (now + period))
new_wait late period now = (now + period, refl, omega arith, omega arith)

still_waiting :
    (late period now later : ℕ) (timer : Option ℕ)
    → now ≤ later
    → Waited late later timer
    → IsOut late period now timer
    → IsOut late period later timer
still_waiting late period now later timer h waited (t, e, fine, soon) =
    (t, e, subst (Waited late later) e waited, omega arith)

-- The clock of another state that shows the same time.
retimed :
    (late : ℕ) (g : GameServer) (w : World)
    → w.now ≡ g.server.now
    → IsTimely late g
    → IsTimely late (record g { server = w })
retimed late g w e h = record {
  ticks = rw e h.ticks;
  checks = rw e h.checks;
  clears = rw e h.clears;
  reports = rw e h.reports;
}

module _ (proto : Proto) (sort : List PlayerState → List PlayerState) (late : ℕ) where
  shown-IsTimely :
      (g h : GameServer)
      → IsTimely late g
      → Detail (start_handlers proto sort) late g h
      → IsTimely late h
  unfolding accept report_once do_accept start_tick start_timeout_check
      start_reconnect_timeout_check schedule_next
  shown-IsTimely g _ ok (refuses waiting) = record {
    ticks = ok.ticks;
    checks = ok.checks;
    clears = ok.clears;
    reports = ok.reports;
  }
  shown-IsTimely g h ok (lets_in waiting (a, w, ran, left)) =
      let e = same_now accept g.server w (record { at = λ v k. k }) ran in
      subst (IsTimely late) (sym left) (record {
        ticks = rw e ok.ticks;
        checks = rw e ok.checks;
        clears = rw e ok.clears;
        reports = rw e ok.reports;
      })
  shown-IsTimely g h ok (ticks_on (a, w, ran, left)) =
      let e = same_now (on_rooms (modify tick_all)) g.server w (record { at = λ v k. k }) ran in
      subst (IsTimely late) (sym left) (record {
        ticks = new_wait late (milliseconds 100) w.now;
        checks = rw e ok.checks;
        clears = rw e ok.clears;
        reports = rw e ok.reports;
      })
  shown-IsTimely g h ok (checks_all (a, w, ran, left)) =
      let e = same_now (check_timeout 15) g.server w (check_timeout-NowIs g.server.now 15) ran in
      subst (IsTimely late) (sym left) (record {
        ticks = rw e ok.ticks;
        checks = new_wait late (seconds 5) w.now;
        clears = rw e ok.clears;
        reports = rw e ok.reports;
      })
  shown-IsTimely g h ok (clears_seats (a, w, ran, left)) =
      let e =
        same_now check_reconnect_timeout g.server w (check_reconnect_timeout-NowIs g.server.now)
          ran in
      subst (IsTimely late) (sym left) (record {
        ticks = rw e ok.ticks;
        checks = rw e ok.checks;
        clears = new_wait late (seconds 5) w.now;
        reports = rw e ok.reports;
      })
  shown-IsTimely g h ok (prints (a, w, ran, left)) =
      let e = same_now report_once g.server w (record { at = λ v k. k }) ran in
      subst (IsTimely late) (sym left) (record {
        ticks = rw e ok.ticks;
        checks = rw e ok.checks;
        clears = rw e ok.clears;
        reports = new_wait late (seconds 1) w.now;
      })
  shown-IsTimely g h ok (handles event mine can (a, w, ran, left)) =
      subst (IsTimely late) (sym left) (
        retimed late g w
          (same_now (handle (start_handlers proto sort) event) g.server w
            (session-Keeps (start_handlers proto sort)
              (start_handlers-NowIs proto sort g.server.now) event mine)
            ran)
          ok)
  shown-IsTimely g _ ok (goes_on ns ms punctual) =
      let later = g.server.now + ns in
      record {
        ticks =
            still_waiting late (milliseconds 100) g.server.now later g.timer (omega arith)
              punctual.timer ok.ticks;
        checks =
            still_waiting late (seconds 5) g.server.now later g.heartbeat_timer (omega arith)
              punctual.heartbeat_timer ok.checks;
        clears =
            still_waiting late (seconds 5) g.server.now later g.check_reconnect_timer (omega arith)
              punctual.check_reconnect_timer ok.clears;
        reports =
            still_waiting late (seconds 1) g.server.now later g.reporter_timer (omega arith)
              punctual.reporter_timer ok.reports;
      }

  -- While the server runs and no handler waits for its turn longer than `late`, the waits of the
  -- room tick, of the idle check, of the reconnect check and of the report are all out. Each ends
  -- within its period from now, of 100 milliseconds, 5, 5 and 1 seconds, and has not ended more
  -- than `late` ago.
  pub run-IsTimely : (g : GameServer) → Serving (start_handlers proto sort) late g → IsTimely late g
  unfolding start do_accept start_tick start_timeout_check start_reconnect_timeout_check
      schedule_next
  run-IsTimely _ starts = record {
    ticks = new_wait late (milliseconds 100) 0;
    checks = new_wait late (seconds 5) 0;
    clears = new_wait late (seconds 5) 0;
    reports = new_wait late (seconds 1) 0;
  }
  run-IsTimely h (goes {g = g} r n) =
      shown-IsTimely g h (run-IsTimely g r) (show (start_handlers proto sort) late g h n)
