-- ===== src/Server/Timers/Going.antt =====
-- How the server goes on by the waits of src/GameServer.cpp and src/util/MetricsReporter.cpp and
-- their handlers.
pub mod Waits
use game_server.Prelude.{none, ℕ, ◌≤◌, ◌≡◌, some, inl, inr, ltb, tests, Bool-cases}
use game_server.Prelude.Exec.{Exec, Keeps, Runs, done, after, after-done, modify}
use game_server.Prelude.Dict.{Dict}
use game_server.Proto.{Proto}
use game_server.Room.Manager.{tick_all}
use game_server.Server.{Handler, report_once}
use game_server.Server.Keeps.Rooms.{tick_all-Keeps}
use game_server.Server.NoFault.{IsReady, check_timeout-Runs, check_reconnect_timeout-Runs}
use game_server.Server.Sound.{report_once-Keeps}
use game_server.Server.Timers.{
  GameServer, on_server, tick_done, timeout_check_done, reconnect_timeout_check_done, report_done,
  start_tick, start_timeout_check, start_reconnect_timeout_check, schedule_next, seconds,
  milliseconds,
}
use game_server.Server.Timers.Now.{NowIs, check_timeout-NowIs, check_reconnect_timeout-NowIs}
use game_server.Server.Timers.Steps.{Next, gives_up, Onward}
use game_server.World.{World, on_rooms}
use game_server.World.Closing.{check_timeout, check_reconnect_timeout}
use game_server.Server.Timers.Going.Waits.{waiting}

module _ (handlers : Dict Handler) (late : ℕ) (start : GameServer) where
  -- The server has come to the time `now`, with all four waits out and nothing against it.
  record IsGoing (g : GameServer) (now : ℕ) : Type 0 where
    world : World
    tick : ℕ
    check : ℕ
    seats : ℕ
    report : ℕ
    here : Onward handlers late start (waiting handlers late start g world tick check seats report)
    ready : IsReady world
    time : world.now ≡ now
