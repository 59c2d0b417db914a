-- ===== src/Server/Timers.antt =====
-- The server with its acceptor and its timers: `GameServer` of src/GameServer.h and src/GameServer.cpp,
-- and the timer of src/util/MetricsReporter.cpp. A timer is the time when its wait ends, if one is out;
-- `ec` says that the wait ended with an error, which only a cancelled wait does, and nothing cancels.
pub mod Steps
pub mod Shown
pub mod Refines
pub mod Now
pub mod Kept
pub mod Fresh
pub mod Seats
pub mod Silence
pub mod Refused
pub mod Going
mod Tests
pub mod Punctual
use game_server.Prelude.{ℕ, ◌+◌, ◌*◌, ◌^◌, Bool, true, false, Option, none, some, if◌then◌else◌}
use game_server.Prelude.Exec.{Exec, Outcome, pure, modify, ◌>>=◌, ◌>>◌}
use game_server.Room.Manager as RoomManagers
use game_server.Server.{accept, report_once}
use game_server.World.{World, initial, on_rooms}
use game_server.World.Closing.{check_timeout, check_reconnect_timeout}

pub record GameServer : Type 0 where
  pub server : World
  pub accepting : Bool
  pub timer : Option ℕ
  pub print_timer : Option ℕ
  pub heartbeat_timer : Option ℕ
  pub check_reconnect_timer : Option ℕ
  pub reporter_timer : Option ℕ

-- `GameServer::GameServer`
abbrev pub new_server : GameServer
new_server = record {
  server = initial;
  accepting = false;
  timer = none;
  print_timer = none;
  heartbeat_timer = none;
  check_reconnect_timer = none;
  reporter_timer = none;
}

abbrev zoomed : {A : Type 0} → GameServer → Outcome A × World → Outcome A × GameServer
zoomed g (r, w) = (r, record g { server = w })

abbrev pub on_server : {A : Type 0} → Exec World A → Exec GameServer A
on_server m g = zoomed g (m g.server)

abbrev pub seconds : ℕ → ℕ
seconds n = n * 10 ^ 9

abbrev pub milliseconds : ℕ → ℕ
milliseconds n = n * 10 ^ 6

unfoldable pub do_accept : GameServer → GameServer
do_accept g = record g { accepting = true }

-- The handler of `async_accept`: after an error, no further accept is started.
unfoldable pub accept_done : Bool → Exec GameServer (Unit {0})
unfolding do_accept
accept_done ec = do
  modify (λ g. record g { accepting = false })
  if ec then pure tt else do on_server accept; modify do_accept

unfoldable pub start_tick : GameServer → GameServer
start_tick g = record g { timer = some (g.server.now + milliseconds 100) }

unfoldable pub tick_done : Bool → Exec GameServer (Unit {0})
unfolding start_tick
tick_done ec = do
  modify (λ g. record g { timer = none })
  if ec then pure tt else do on_server (on_rooms (modify RoomManagers.tick_all)); modify start_tick

-- Nothing starts it; it only prints.
unfoldable pub print_stat : GameServer → GameServer
print_stat g = record g { print_timer = some (g.server.now + milliseconds 5000) }

unfoldable pub print_done : Bool → Exec GameServer (Unit {0})
unfolding print_stat
print_done ec = do
  modify (λ g. record g { print_timer = none })
  if ec then pure tt else modify print_stat

unfoldable pub start_timeout_check : GameServer → GameServer
start_timeout_check g = record g { heartbeat_timer = some (g.server.now + seconds 5) }

unfoldable pub timeout_check_done : Bool → Exec GameServer (Unit {0})
unfolding start_timeout_check
timeout_check_done ec = do
  modify (λ g. record g { heartbeat_timer = none })
  if ec then pure tt else do on_server (check_timeout 15); modify start_timeout_check

unfoldable pub start_reconnect_timeout_check : GameServer → GameServer
start_reconnect_timeout_check g = record g {
  check_reconnect_timer = some (g.server.now + seconds 5);
}

-- An error is printed, and the handler goes on.
unfoldable pub reconnect_timeout_check_done : Bool → Exec GameServer (Unit {0})
unfolding start_reconnect_timeout_check
reconnect_timeout_check_done ec = do
  modify (λ g. record g { check_reconnect_timer = none })
  on_server check_reconnect_timeout
  modify start_reconnect_timeout_check

-- `MetricsReporter::schedule_next`
unfoldable pub schedule_next : GameServer → GameServer
schedule_next g = record g { reporter_timer = some (g.server.now + seconds 1) }

unfoldable pub report_done : Bool → Exec GameServer (Unit {0})
unfolding schedule_next
report_done ec = do
  modify (λ g. record g { reporter_timer = none })
  if ec then pure tt else do on_server report_once; modify schedule_next

-- `start`, up to `io_.run()`; the handlers that it registers are `start_handlers`.
unfoldable pub start : GameServer → GameServer
unfolding do_accept start_tick start_timeout_check start_reconnect_timeout_check schedule_next
start g =
    schedule_next (start_reconnect_timeout_check (start_timeout_check (start_tick (do_accept g))))

-- `stop` has an empty body.
abbrev pub stop : GameServer → GameServer
stop g = g
