-- ===== src/Server/Timers/Seats.antt =====
-- How long the seat of a disconnected player is kept: `start_reconnect_timeout_check` and
-- `check_reconnect_timeout` of src/GameServer.cpp with src/player/PlayerStateManager.cpp.
use game_server.Prelude.{
  some-injective, ℕ, ◌+◌, ◌≤◌, ◌<◌, ◌≡◌, refl, sym, ap, ◌∙◌, List, Bool, true, false, Option, some,
  arith, tests, member,
}
use game_server.Prelude.Exec.{Keeps, done}
use game_server.Prelude.Dict
use game_server.Prelude.Dict.{Dict}
use game_server.Player.Repository.{PlayerState}
use game_server.Player.StateManager
use game_server.Player.StateManager.{
  PlayerRuntimeState, online, offline, is_offline, seconds_between, timed_out,
  get_reconnect_timeout_players,
}
use game_server.Proto.{Proto}
use game_server.Server.{accept, report_once, start_handlers}
use game_server.Server.Frame.{Frame}
use game_server.Server.Frame.Services.{match-Frame}
use game_server.Server.GivingUp.{record_of, unless, gives_all_up, timed_out_misses}
use game_server.Server.Steady.{Steady, take_packet-Keeps}
use game_server.Server.Steady.Closing.{close-Keeps, check_timeout-Keeps}
use game_server.Server.Table.{start_handlers-Frame}
use game_server.Server.Timers.{
  GameServer, start, do_accept, start_tick, start_timeout_check, start_reconnect_timeout_check,
  schedule_next, seconds,
}
use game_server.Server.Timers.Kept.{Kept, IsOwn, apart, shown-Kept}
use game_server.Server.Timers.Now.{same_now, check_reconnect_timeout-NowIs}
use game_server.Server.Timers.Punctual.{run-IsTimely}
use game_server.Server.Timers.Shown.{Detail, show}
use game_server.Server.Timers.Steps.{Serving, starts, goes}
use game_server.World.{World}
use game_server.World.Closing.{close, forget, check_timeout, check_reconnect_timeout}

-- The player has been away so short that the next check, at `due`, comes within 36 seconds.
abbrev pub AwayBy : ℕ → PlayerRuntimeState → Type 0
AwayBy due s = is_offline s.conn_state ≡ true → due < s.disconnected_time + seconds 36

pub record IsSeated (due : ℕ) (w : World) : Type 0 where
  pub soon : due ≤ w.now + seconds 5
  pub away : Dict.Every (λ _ s. AwayBy due s) w.player_state_manager.states

-- Nothing but the seats and the clock is asked about.
unasked :
    (due : ℕ) (w v : World)
    → v.now ≡ w.now
    → v.player_state_manager ≡ w.player_state_manager
    → IsSeated due w
    → IsSeated due v
unasked due w v now same h = record {
  soon = rw now h.soon;
  away = λ p s e.
      h.away p s
        (ap (λ (m : StateManager.PlayerStateManager). Dict.lookup p m.states) (sym same) ∙ e);
}

module _ (due : ℕ) where
  IsSeated-Frame : (here : ℕ) → Frame here (IsSeated due)
  unfolding StateManager.mark_online
  IsSeated-Frame here = record {
    metrics = λ m w h. unasked due w _ refl refl h;
    players = λ m w h. unasked due w _ refl refl h;
    rooms = λ m w h. unasked due w _ refl refl h;
    connected = λ w h. unasked due w _ refl refl h;
    back = λ p w h. record {
      soon = h.soon;
      away =
          Dict.Every-modify _ (λ s. record s { conn_state = online }) p
            w.player_state_manager.states (λ s k off. cc off) h.away;
    };
    stored = λ r w h. unasked due w _ refl refl h;
    next_id = λ p w h. unasked due w _ refl refl h;
    sessions = λ t sid w h. unasked due w _ refl refl h;
    seen = λ w h. unasked due w _ refl refl h;
  }

  close-IsSeated : (sid : ℕ) → Keeps (IsSeated due) (close sid)
  unfolding forget StateManager.save_online StateManager.mark_disconnected
  close-IsSeated sid =
      close-Keeps (λ m w h. unasked due w _ refl refl h) sid
        λ w h. record {
          soon = h.soon;
          away =
              Dict.Every-modify _ _ _ _ (λ s k off. let soon = h.soon in omega arith)
                (Dict.Every-insert _ _ _ w.player_state_manager.states (λ off. cc off) h.away);
        }

  start_handlers-IsSeated :
      (proto : Proto) (sort : List PlayerState → List PlayerState)
      → Steady (IsSeated due) (start_handlers proto sort)
  start_handlers-IsSeated proto sort = record {
    takes = λ sid rest m.
        take_packet-Keeps (start_handlers proto sort) sid rest m
          (start_handlers-Frame _ sid (IsSeated-Frame sid) proto sort
            (match-Frame (IsSeated-Frame sid) (λ q w h. unasked due w _ refl refl h) proto))
          (λ w h. unasked due w _ refl refl h) (λ w h. h);
    closes = close-IsSeated;
    moves = λ t sid. record { at = λ w h. unasked due w _ refl refl h };
    ends = λ sid w h. unasked due w _ refl refl h;
  }

-- After the check, the players who are away left less than 31 seconds ago.
cleared-IsSeated :
    (w v : World)
    → check_reconnect_timeout w ≡ (done tt, v)
    → v.now ≡ w.now
    → IsSeated (v.now + seconds 5) v
unfolding check_reconnect_timeout get_reconnect_timeout_players
cleared-IsSeated w v e now = record {
  soon = omega arith;
  away = λ p s there off.
      let listed = get_reconnect_timeout_players 30 w.now w.player_state_manager in
      let (kept, before) =
        not_listed (member p listed) (record_of p w) s
          (sym (gives_all_up p listed w v e) ∙ there) in
      let recent = timed_out_misses 30 w.now p s w.player_state_manager.states before off kept in
      omega tests;
}
  where
    not_listed :
        (gone : Bool) (o : Option PlayerRuntimeState) (s : PlayerRuntimeState)
        → unless gone o ≡ some s
        → (gone ≡ false) × (o ≡ some s)
    not_listed true o s e = cc e
    not_listed false o s e = (refl, e)

seat_timer : GameServer → Option ℕ
seat_timer g = g.check_reconnect_timer

seat_timer-IsOwn : IsOwn seat_timer
unfolding seat_timer
seat_timer-IsOwn = record {
  server = λ w g. refl;
  accepting = λ g. refl;
  accepts = λ g. refl;
  ticks = λ t g. refl;
  reports = λ t g. refl;
}

module _ (proto : Proto) (sort : List PlayerState → List PlayerState) (late : ℕ) where
  shown-IsSeated :
      (g h : GameServer)
      → Kept seat_timer IsSeated g
      → Detail (start_handlers proto sort) late g h
      → Kept seat_timer IsSeated h
  unfolding seat_timer accept report_once start_timeout_check start_reconnect_timeout_check
  shown-IsSeated =
      shown-Kept seat_timer IsSeated (start_handlers proto sort) late seat_timer-IsOwn
        (λ due. start_handlers-IsSeated due proto sort)
        (λ due. record { at = λ v f. unasked due v _ refl refl f })
        (λ due. record { at = λ v f. unasked due v _ refl refl f })
        (λ due. record { at = λ v f. unasked due v _ refl refl f })
        (λ due ns ms w f. let soon = f.soon in record { soon = omega arith; away = f.away })
        (λ g h k (a, w, ran, left).
          apart seat_timer IsSeated (check_timeout 15) a g h w
            (λ due.
              check_timeout-Keeps (λ m v f. unasked due v _ refl refl f) 15 (close-IsSeated due))
            ran (rw left refl) (rw left refl) k)
        (λ g h k (a, w, ran, left).
          let now =
            same_now check_reconnect_timeout g.server w (check_reconnect_timeout-NowIs g.server.now)
              ran in
          rw left (w.now + seconds 5, refl, cleared-IsSeated g.server w ran now))

  run-IsSeated :
      (g : GameServer) → Serving (start_handlers proto sort) late g → Kept seat_timer IsSeated g
  unfolding seat_timer start do_accept start_tick start_timeout_check start_reconnect_timeout_check
      schedule_next
  run-IsSeated _ starts =
      (seconds 5, refl, record { soon = omega arith; away = Dict.Every-empty _ })
  run-IsSeated h (goes {g = g} r n) =
      shown-IsSeated g h (run-IsSeated g r) (show (start_handlers proto sort) late g h n)

  -- While the server runs and no handler waits for its turn longer than `late`, a player who is
  -- recorded as offline was disconnected less than 36 seconds and `late` ago: the 30 whole
  -- seconds that a seat is kept, with the part of a second that the check drops, and the 5
  -- seconds between two checks.
  pub run_clears_seats :
      (g : GameServer) (p : ℕ) (s : PlayerRuntimeState)
      → Serving (start_handlers proto sort) late g
      → Dict.lookup p g.server.player_state_manager.states ≡ some s
      → is_offline s.conn_state ≡ true
      → g.server.now < s.disconnected_time + seconds 36 + late
  unfolding seat_timer
  run_clears_seats g p s r there off =
      let (due, out, seated) = run-IsSeated g r in
      let (t, out_too, waited, _) = (run-IsTimely proto sort late g r).clears in
      let same : due ≡ t = some-injective (sym out ∙ out_too) in
      let away = seated.away p s there off in omega arith
