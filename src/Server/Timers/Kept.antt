-- ===== src/Server/Timers/Kept.antt =====
-- A property of the server that names the end of one of the waits of src/GameServer.cpp: it is kept
-- while that wait is out, and the handler of the wait makes it true of the next one.
use game_server.Prelude.{ℕ, ◌+◌, ◌≡◌, refl, ap, subst, sym, ◌∙◌, true, false, Option, none, some}
use game_server.Prelude.Exec.{Exec, Keeps, Outcome, done, modify}
use game_server.Prelude.Dict.{Dict}
use game_server.Room.Manager.{tick_all}
use game_server.Server.{Handler, accept, report_once, handle}
use game_server.Server.Steady.{Steady, session-Keeps}
use game_server.Server.Timers.{
  GameServer, do_accept, start_tick, start_timeout_check, start_reconnect_timeout_check,
  schedule_next,
}
use game_server.Server.Timers.Shown.{
  Yields, Detail, refuses, lets_in, ticks_on, checks_all, clears_seats, prints, handles, goes_on,
}
use game_server.World.{World, on_rooms}
use game_server.World.Closing.{check_timeout, check_reconnect_timeout}

-- The wait is out, and the server is as its end asks.
abbrev pub Kept : (GameServer → Option ℕ) → (ℕ → World → Type 0) → GameServer → Type 0
Kept timer P g = (due : ℕ) × (timer g ≡ some due) × P due g.server

-- `m` keeps `P`, and what is done besides leaves the timer alone.
pub apart :
    {A : Type 0} (timer : GameServer → Option ℕ) (P : ℕ → World → Type 0) (m : Exec World A) (a : A)
    (g h : GameServer) (w : World)
    → ((due : ℕ) → Keeps (P due) m)
    → m g.server ≡ (done a, w)
    → h.server ≡ w
    → timer h ≡ timer g
    → Kept timer P g
    → Kept timer P h
apart {A} timer P m a g h w keeps ran left same (due, out, fresh) = (
  due,
  same ∙ out,
  subst (P due) (ap (λ (r : Outcome A × World). r.1) ran ∙ sym left)
      ((keeps due).at g.server fresh),
)

-- The timer is none of those of the acceptor, the rooms and the reporter.
pub record IsOwn (timer : GameServer → Option ℕ) : Type 0 where
  pub server : (w : World) (g : GameServer) → timer (record g { server = w }) ≡ timer g
  pub accepting : (g : GameServer) → timer (record g { accepting = true }) ≡ timer g
  pub accepts : (g : GameServer) → timer (record g { accepting = false }) ≡ timer g
  pub ticks : (t : Option ℕ) (g : GameServer) → timer (record g { timer = t }) ≡ timer g
  pub reports : (t : Option ℕ) (g : GameServer) → timer (record g { reporter_timer = t }) ≡ timer g

-- What the two timeouts leave is asked for; the rest is kept by what each part keeps.
pub shown-Kept :
    (timer : GameServer → Option ℕ) (P : ℕ → World → Type 0) (handlers : Dict Handler) (late : ℕ)
    → IsOwn timer
    → ((due : ℕ) → Steady (P due) handlers)
    → ((due : ℕ) → Keeps (P due) accept)
    → ((due : ℕ) → Keeps (P due) (on_rooms (modify tick_all)))
    → ((due : ℕ) → Keeps (P due) report_once)
    → ((due ns ms : ℕ) (w : World)
        → P due w
        → P due (record w { now = w.now + ns; wall_ms = w.wall_ms + ms }))
    → ((g h : GameServer)
        → Kept timer P g
        → Yields (check_timeout 15) start_timeout_check (record g { heartbeat_timer = none }) h
        → Kept timer P h)
    → ((g h : GameServer)
        → Kept timer P g
        → Yields check_reconnect_timeout start_reconnect_timeout_check
            (record g { check_reconnect_timer = none })
            h
        → Kept timer P h)
    → (g h : GameServer) → Kept timer P g
    → Detail handlers late g h
    → Kept timer P h
unfolding do_accept start_tick schedule_next
shown-Kept timer P handlers late own steady lets ticks reports later checks clears = go
  where
    go : (g h : GameServer) → Kept timer P g → Detail handlers late g h → Kept timer P h
    go g _ (due, out, k) (refuses waiting) = (due, own.accepts g ∙ out, k)
    go g h k (lets_in waiting (a, w, ran, left)) =
        apart timer P accept a g h w lets ran (rw left refl)
          (ap timer left ∙ own.accepting _ ∙ own.server w _ ∙ own.accepts g) k
    go g h k (ticks_on (a, w, ran, left)) =
        apart timer P (on_rooms (modify tick_all)) a g h w ticks ran (rw left refl)
          (ap timer left ∙ own.ticks _ _ ∙ own.server w g) k
    go g h k (checks_all ran) = checks g h k ran
    go g h k (clears_seats ran) = clears g h k ran
    go g h k (prints (a, w, ran, left)) =
        apart timer P report_once a g h w reports ran (rw left refl)
          (ap timer left ∙ own.reports _ _ ∙ own.server w g) k
    go g h k (handles event mine can (a, w, ran, left)) =
        apart timer P (handle handlers event) a g h w
          (λ due. session-Keeps handlers (steady due) event mine) ran (rw left refl)
          (ap timer left ∙ own.server w g) k
    go g _ (due, out, k) (goes_on ns ms punctual) =
        (due, own.server _ g ∙ out, later due ns ms g.server k)
