-- ===== src/Server/Timers/Shown.antt =====
-- What a step has run on the server, and what it has left.
use game_server.Prelude.{ℕ, ◌+◌, subst, ◌≡◌, refl, ap, sym, true, false, none}
use game_server.Prelude.Exec.{Exec, Outcome, done, fault, after, modify}
use game_server.Prelude.Dict.{Dict}
use game_server.Room.Manager.{tick_all}
use game_server.Server.{Handler, Event, handle, accept, report_once}
use game_server.Server.Loop.{Can}
use game_server.Server.Steady.{of_session}
use game_server.Server.Timers.{
  GameServer, on_server, accept_done, tick_done, timeout_check_done, reconnect_timeout_check_done,
  report_done, start_tick, start_timeout_check, start_reconnect_timeout_check, schedule_next,
  do_accept,
}
use game_server.Server.Timers.Steps.{
  Next, accepts, ticks, checks, gives_up, reports, serves, waits, wait, IsPunctual,
}
use game_server.World.{World, on_rooms}
use game_server.World.Closing.{check_timeout, check_reconnect_timeout}

-- `m` has run on the server of `g`, and then `again` on all of it.
abbrev pub Yields :
    {A : Type 0} → Exec World A → (GameServer → GameServer) → GameServer → GameServer → Type 0
Yields {A} m again g h =
    (a : A) × (w : World) × (m g.server ≡ (done a, w)) × (h ≡ again (record g { server = w }))

pub data Detail (handlers : Dict Handler) (late : ℕ) (g : GameServer) : GameServer → Type 0 where
  refuses : g.accepting ≡ true → Detail handlers late g (record g { accepting = false })
  lets_in :
      {h : GameServer}
      → g.accepting ≡ true
      → Yields accept do_accept (record g { accepting = false }) h
      → Detail handlers late g h
  ticks_on :
      {h : GameServer}
      → Yields (on_rooms (modify tick_all)) start_tick (record g { timer = none }) h
      → Detail handlers late g h
  checks_all :
      {h : GameServer}
      → Yields (check_timeout 15) start_timeout_check (record g { heartbeat_timer = none }) h
      → Detail handlers late g h
  clears_seats :
      {h : GameServer}
      → Yields check_reconnect_timeout start_reconnect_timeout_check
          (record g { check_reconnect_timer = none })
          h
      → Detail handlers late g h
  prints :
      {h : GameServer}
      → Yields report_once schedule_next (record g { reporter_timer = none }) h
      → Detail handlers late g h
  handles :
      (e : Event) {h : GameServer}
      → of_session e ≡ true
      → Can g.server e
      → Yields (handle handlers e) (λ x. x) g h
      → Detail handlers late g h
  goes_on :
      (ns ms : ℕ) → IsPunctual late (g.server.now + ns) g → Detail handlers late g (wait ns ms g)

-- A handler that runs `m` on the server and then `again`.
rearmed :
    {A : Type 0} (m : Exec World A) (again : GameServer → GameServer) (g h : GameServer)
    → after (on_server m g) (λ _. modify again) ≡ (done tt, h)
    → Yields m again g h
rearmed m again g h e = go (m g.server) e
  where
    go :
        {A : Type 0} (r : Outcome A × World)
        → after (r.0, record g { server = r.1 }) (λ _. modify again) ≡ (done tt, h)
        → (a : A) × (w : World) × (r ≡ (done a, w)) × (h ≡ again (record g { server = w }))
    go (done a, w) e = (a, w, refl, sym (ap (λ (r : Outcome (Unit {0}) × GameServer). r.1) e))
    go (fault x, w) e = cc

server_ran :
    {A : Type 0} (m : Exec World A) (a : A) (g h : GameServer)
    → on_server m g ≡ (done a, h)
    → Yields m (λ x. x) g h
server_ran m a g h e = (
  a,
  (m g.server).1,
  ap (λ (r : Outcome _ × GameServer). (r.0, (m g.server).1)) e,
  sym (ap (λ (r : Outcome _ × GameServer). r.1) e),
)

pub show :
    (handlers : Dict Handler) (late : ℕ) (g h : GameServer)
    → Next handlers late g h
    → Detail handlers late g h
unfolding accept_done tick_done timeout_check_done reconnect_timeout_check_done report_done
show handlers late g h (accepts true waiting e) =
    subst (Detail handlers late g) (ap (λ (x : Outcome (Unit {0}) × GameServer). x.1) e)
      (refuses waiting)
show handlers late g h (accepts false waiting e) =
    lets_in waiting (rearmed accept do_accept (record g { accepting = false }) h e)
show handlers late g h (ticks due e) =
    ticks_on (rearmed (on_rooms (modify tick_all)) start_tick (record g { timer = none }) h e)
show handlers late g h (checks due e) =
    checks_all
      (rearmed (check_timeout 15) start_timeout_check (record g { heartbeat_timer = none }) h e)
show handlers late g h (gives_up due e) = clears_seats (
    rearmed check_reconnect_timeout start_reconnect_timeout_check
      (record g { check_reconnect_timer = none }) h e)
show handlers late g h (reports due e) =
    prints (rearmed report_once schedule_next (record g { reporter_timer = none }) h e)
show handlers late g h (serves event mine can e) =
    handles event mine can (server_ran (handle handlers event) tt g h e)
show handlers late g _ (waits ns ms punctual) = goes_on ns ms punctual
