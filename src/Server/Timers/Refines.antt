-- ===== src/Server/Timers/Refines.antt =====
-- A started server against the event loop of Server.Loop: src/GameServer.cpp.
use game_server.Prelude.{ℕ, refl, ap, subst, sym}
use game_server.Prelude.Exec.{Outcome, after, pure}
use game_server.Prelude.Dict.{Dict}
use game_server.Server.{
  Handler, accepted, room_timer, timeout_timer, reconnect_timer, report_timer, elapse, handle,
}
use game_server.Server.Loop.{
  can_accept, can_tick, can_check, can_give_up, can_report, can_wait, step, Reach,
}
use game_server.Server.Loop as Loop
use game_server.Server.Timers.{
  GameServer, start, do_accept, start_tick, start_timeout_check, start_reconnect_timeout_check,
  schedule_next,
}
use game_server.Server.Timers.Shown.{
  Detail, show, refuses, lets_in, ticks_on, checks_all, clears_seats, prints, handles, goes_on,
}
use game_server.Server.Timers.Steps.{Serving, starts, goes}
use game_server.World.{World}

abbrev RunsTo : Dict Handler → GameServer → Type 0
RunsTo handlers g = Reach handlers g.server

-- The steps of a started server are those of the event loop, or leave the server as it is.
shown-Reach :
    (handlers : Dict Handler) (late : ℕ) (g h : GameServer)
    → Reach handlers g.server
    → Detail handlers late g h
    → Reach handlers h.server
unfolding handle do_accept start_tick start_timeout_check start_reconnect_timeout_check
    schedule_next
shown-Reach handlers late g _ r (refuses waiting) = r
shown-Reach handlers late g h r (lets_in waiting (a, w, ran, left)) =
    subst (RunsTo handlers) (sym left) (
      Loop.later r
        (step accepted can_accept (ap (λ (x : Outcome ℕ × World). after x (λ _. pure tt)) ran)))
shown-Reach handlers late g h r (ticks_on (a, w, ran, left)) =
    subst (RunsTo handlers) (sym left) (Loop.later r (step room_timer can_tick ran))
shown-Reach handlers late g h r (checks_all (a, w, ran, left)) =
    subst (RunsTo handlers) (sym left) (Loop.later r (step timeout_timer can_check ran))
shown-Reach handlers late g h r (clears_seats (a, w, ran, left)) =
    subst (RunsTo handlers) (sym left) (Loop.later r (step reconnect_timer can_give_up ran))
shown-Reach handlers late g h r (prints (a, w, ran, left)) =
    subst (RunsTo handlers) (sym left) (Loop.later r (step report_timer can_report ran))
shown-Reach handlers late g h r (handles event mine can (a, w, ran, left)) =
    subst (RunsTo handlers) (sym left) (Loop.later r (step event can ran))
shown-Reach handlers late g _ r (goes_on ns ms punctual) =
    Loop.later r (step (elapse ns ms) (can_wait ns ms) refl)

-- What a started server, with its acceptor and its timers, comes to is a state that the event
-- loop of Server.Loop gets to, where the timers can end at any time.
pub run-Reach :
    (handlers : Dict Handler) (late : ℕ) (g : GameServer)
    → Serving handlers late g
    → Reach handlers g.server
unfolding start do_accept start_tick start_timeout_check start_reconnect_timeout_check schedule_next
run-Reach handlers late _ starts = Loop.start
run-Reach handlers late h (goes {g = g} r n) =
    shown-Reach handlers late g h (run-Reach handlers late g r) (show handlers late g h n)
