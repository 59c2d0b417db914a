-- ===== src/Server/Timers/Going/Waits.antt =====
-- One wait of src/GameServer.cpp or src/util/MetricsReporter.cpp that is over, and the handler that it runs.
use game_server.Prelude.{
  none, ℕ, ◌+◌, ◌<◌, ◌≤◌, ◌≡◌, refl, some, inl, inr, arith, ltb, tests, Bool-cases,
}
use game_server.Prelude.Exec.{Exec, Keeps, Runs, done, after, after-done, modify}
use game_server.Prelude.Dict.{Dict}
use game_server.Room.Manager.{tick_all}
use game_server.Server.{Handler, report_once}
use game_server.Server.Keeps.Rooms.{tick_all-Keeps}
use game_server.Server.NoFault.{IsReady, check_timeout-Runs, check_reconnect_timeout-Runs}
use game_server.Server.Sound.{report_once-Keeps}
use game_server.Server.Timers.{
  GameServer, on_server, tick_done, timeout_check_done, reconnect_timeout_check_done, report_done,
  start_tick, start_timeout_check, start_reconnect_timeout_check, schedule_next, seconds,
  milliseconds,
}
use game_server.Server.Timers.Now.{NowIs, check_timeout-NowIs, check_reconnect_timeout-NowIs}
use game_server.Server.Timers.Steps.{Next, ticks, checks, gives_up, reports, Onward, then}
use game_server.World.{World, on_rooms}
use game_server.World.Closing.{check_timeout, check_reconnect_timeout}

tick-Runs : Runs IsReady (on_rooms (modify tick_all))
unfolding tick_all
tick-Runs = record {
  ends = λ w h. refl;
  keeps = λ w h. record { sound = tick_all-Keeps.at w h.sound; ids_left = h.ids_left };
}

report-Runs : Runs IsReady report_once
unfolding report_once
report-Runs = record {
  ends = λ w h. refl;
  keeps = λ w h. record { sound = report_once-Keeps.at w h.sound; ids_left = h.ids_left };
}

-- A handler whose part on the server ends comes to its own end.
ends_too :
    (m : Exec World (Unit {0})) (again : GameServer → GameServer) (g : GameServer)
    → (m g.server).0 ≡ done tt
    → after (on_server m g) (λ _. modify again)
      ≡ (done tt, again (record g { server = (m g.server).1 }))
ends_too m again g e = after-done (on_server m g) (modify again) e

module _ (handlers : Dict Handler) (late : ℕ) (start : GameServer) where
  -- The server has come to `put w t`, where one more wait, until `t`, ends in the future.
  unfoldable pub Settled : (World → ℕ → GameServer) → ℕ → Type 0
  Settled put now =
      (w : World) × (t : ℕ) × Onward handlers late start (put w t)
      × IsReady w
      × (w.now ≡ now)
      × (now < t)

  -- The handler of a wait runs now, if the wait is over.
  settle :
      (put : World → ℕ → GameServer) (m : Exec World (Unit {0})) (period : ℕ) (w : World) (t : ℕ)
      → 0 < period
      → Runs IsReady m
      → Keeps (NowIs w.now) m
      → (t ≤ w.now
          → (m w).0 ≡ done tt
          → Next handlers late (put w t) (put (m w).1 ((m w).1.now + period)))
      → Onward handlers late start (put w t)
      → IsReady w
      → Settled put w.now
  unfolding Settled
  settle put m period w t positive runs same fires before ready = elim (Bool-cases (ltb w.now t)) [
    | inl ahead ↦ (w, t, before, ready, refl, omega tests)
    | inr over ↦
        let now : (m w).1.now ≡ w.now = same.at w refl in
        (
          (m w).1,
          (m w).1.now + period,
          then before (fires (omega tests) (runs.ends w ready)),
          runs.keeps w ready,
          now,
          omega arith,
        )
  ]

  -- The server `w` with its four waits out.
  unfoldable pub waiting : GameServer → World → ℕ → ℕ → ℕ → ℕ → GameServer
  waiting g w tick check seats report = record g {
    server = w;
    timer = some tick;
    heartbeat_timer = some check;
    check_reconnect_timer = some seats;
    reporter_timer = some report;
  }

  module _ (g : GameServer) (w : World) (t c s r : ℕ) (ready : IsReady w)
      (here : Onward handlers late start (waiting g w t c s r)) where
    pub ticked : Settled (λ v x. waiting g v x c s r) w.now
    unfolding waiting tick_done start_tick
    ticked =
        settle (λ v x. waiting g v x c s r) (on_rooms (modify tick_all)) (milliseconds 100) w t
          (omega arith) tick-Runs (record { at = λ v h. h })
          (λ due ended.
            ticks (t, refl, due)
              (ends_too (on_rooms (modify tick_all)) start_tick
                (record (waiting g w t c s r) { timer = none }) ended))
          here ready

    pub checked : Settled (λ v x. waiting g v t x s r) w.now
    unfolding waiting timeout_check_done start_timeout_check
    checked =
        settle (λ v x. waiting g v t x s r) (check_timeout 15) (seconds 5) w c (omega arith)
          (check_timeout-Runs 15) (check_timeout-NowIs w.now 15)
          (λ due ended.
            checks (c, refl, due) (ends_too (check_timeout 15) start_timeout_check _ ended))
          here ready

    pub cleared : Settled (λ v x. waiting g v t c x r) w.now
    unfolding waiting reconnect_timeout_check_done start_reconnect_timeout_check
    cleared =
        settle (λ v x. waiting g v t c x r) check_reconnect_timeout (seconds 5) w s (omega arith)
          check_reconnect_timeout-Runs (check_reconnect_timeout-NowIs w.now)
          (λ due ended.
            gives_up (s, refl, due)
              (ends_too check_reconnect_timeout start_reconnect_timeout_check _ ended))
          here ready

    pub reported : Settled (λ v x. waiting g v t c s x) w.now
    unfolding waiting report_done schedule_next report_once
    reported =
        settle (λ v x. waiting g v t c s x) report_once (seconds 1) w r (omega arith) report-Runs
          (record { at = λ v h. h })
          (λ due ended.
            reports (r, refl, due)
              (ends_too report_once schedule_next
                (record (waiting g w t c s r) { reporter_timer = none }) ended))
          here ready
