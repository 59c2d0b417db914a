-- ===== src/Server/Timers/Silence.antt =====
-- How long a connection can be silent: `start_timeout_check` of src/GameServer.cpp with
-- src/net/ConnectionManager.cpp.
use game_server.Prelude.{
  some-injective, ℕ, ◌+◌, ◌<◌, ◌≡◌, refl, sym, ap, subst, ◌∙◌, List, [], ◌∷◌, Bool, true, false,
  ◌&&◌, ◌==◌, inl, inr, Option, none, some, arith, tests, member, member-set_erase, Bool-cases,
}
use game_server.Prelude.Exec.{Keeps, Outcome, done, for_each, after-ended}
use game_server.Prelude.Dict
use game_server.Player.Repository.{PlayerState}
use game_server.Proto.{Proto}
use game_server.Server.{accept, report_once, start_handlers}
use game_server.Server.Steady.Closing.{check_reconnect_timeout-Keeps}
use game_server.Server.Timeouts.{
  shut_if, sessions-close, over_twice, over_same, member-idle_sessions,
}
use game_server.Server.Timers.{
  GameServer, start, do_accept, start_tick, start_timeout_check, start_reconnect_timeout_check,
  schedule_next, seconds,
}
use game_server.Server.Timers.Fresh.{IsFresh, start_handlers-IsFresh}
use game_server.Server.Timers.Kept.{Kept, IsOwn, apart, shown-Kept}
use game_server.Server.Timers.Now.{same_now, check_timeout-NowIs}
use game_server.Server.Timers.Punctual.{run-IsTimely}
use game_server.Server.Timers.Shown.{Detail, show}
use game_server.Server.Timers.Steps.{Serving, starts, goes}
use game_server.Session
use game_server.Session.{Session}
use game_server.World.{World, session_at, or_fresh}
use game_server.World.Closing.{close, forget, check_timeout, idle_sessions, check_reconnect_timeout}

-- Closing lets no connection into the manager.
connections-close :
    (a sid : ℕ) (w : World)
    → member sid (close a w).1.connections ≡ true
    → member sid w.connections ≡ true
unfolding close forget
connections-close a sid w h = elim (Bool-cases (session_at a w).closed) [
  | inl closed ↦ rw closed at h
  | inr open_now ↦
      let erased = rw open_now at h in ground (arith, erased, member-set_erase a sid w.connections)
]

-- A loop of closes that ends has shut each of its sessions.
closes_all :
    (sid : ℕ) (xs : List ℕ) (w v : World)
    → for_each xs close w ≡ (done tt, v)
    → (Dict.lookup sid v.sessions
        ≡ Dict.over (shut_if (member sid xs)) (Dict.lookup sid w.sessions))
      × (member sid v.connections ≡ true → member sid w.connections ≡ true)
unfolding for_each member
closes_all sid [] w v e =
    let same : w ≡ v = ap (λ (r : Outcome (Unit {0}) × World). r.1) e in
    (
      ap (λ (u : World). Dict.lookup sid u.sessions) (sym same)
          ∙ sym (over_same (Dict.lookup sid w.sessions)),
      λ h. subst (λ (u : World). member sid u.connections ≡ true) (sym same) h,
    )
closes_all sid (x ∷ xs) w v e =
    let (_, _, rest) = after-ended (close x w) (λ _. for_each xs close) tt v e in
    let (shut, fewer) = closes_all sid xs (close x w).1 v rest in
    (
      shut
          ∙ ap (Dict.over (shut_if (member sid xs))) (sessions-close x sid w)
          ∙ over_twice (x == sid) (member sid xs) (Dict.lookup sid w.sessions),
      λ h. connections-close x sid w (fewer h),
    )

-- Whom the check leaves open.
spared :
    (idle : Bool) (o : Option Session) (t : Session)
    → Dict.over (shut_if idle) o ≡ some t
    → t.closed ≡ false
    → (idle ≡ false) × (o ≡ some t)
spared idle none t e open_now = cc e
spared true (some s) t e open_now =
    let shut : true ≡ t.closed =
      ap (λ o. elim o as (λ _. Bool) [ none ↦ true | some x ↦ x.closed ]) e in
    cc
spared false (some s) t e open_now = (refl, e)

-- After the check, the open connections were heard less than 16 seconds ago.
checked-IsFresh :
    (w v : World)
    → check_timeout 15 w ≡ (done tt, v)
    → v.now ≡ w.now
    → IsFresh (v.now + seconds 5) v
unfolding check_timeout Session.check_timeout
checked-IsFresh w v e now = record {
  soon = omega arith;
  heard = λ sid t there listed open_now.
      let idle = idle_sessions 15 w w.connections in
      let (shut, fewer) = closes_all sid idle w v e in
      let (busy, before) =
        spared (member sid idle) (Dict.lookup sid w.sessions) t (sym shut ∙ there) open_now in
      let member_before : member sid w.connections ≡ true = fewer (ground arith) in
      let found : session_at sid w ≡ t = ap or_fresh before in
      let recent : Session.check_timeout 15 w.now t ≡ false =
        ap (Session.check_timeout 15 w.now) (sym found)
        ∙ sym (ap (λ b. b && Session.check_timeout 15 w.now (session_at sid w)) member_before)
        ∙ sym (member-idle_sessions 15 w sid w.connections)
        ∙ busy in
      omega tests;
}

check_timer : GameServer → Option ℕ
check_timer g = g.heartbeat_timer

check_timer-IsOwn : IsOwn check_timer
unfolding check_timer
check_timer-IsOwn = record {
  server = λ w g. refl;
  accepting = λ g. refl;
  accepts = λ g. refl;
  ticks = λ t g. refl;
  reports = λ t g. refl;
}

accept-IsFresh : (due : ℕ) → Keeps (IsFresh due) accept
unfolding accept Session.start Session.update_last_active_time Session.do_read
accept-IsFresh due = record {
  at = λ w h. record {
    soon = h.soon;
    heard =
        Dict.Every-put _ w.next_session (Session.start w.now Session.fresh) w.sessions
          (λ listed open_now. let soon = h.soon in omega arith) h.heard;
  };
}

-- Neither the rooms nor the metrics nor the seats are asked about.
unasked :
    (due : ℕ) (w v : World)
    → v.now ≡ w.now
    → v.connections ≡ w.connections
    → v.sessions ≡ w.sessions
    → IsFresh due w
    → IsFresh due v
unasked due w v now listed same h = record {
  soon = rw now h.soon;
  heard = λ sid s e m. h.heard sid s (rw⁻¹ same e) (rw⁻¹ listed m);
}

module _ (proto : Proto) (sort : List PlayerState → List PlayerState) (late : ℕ) where
  shown-IsFresh :
      (g h : GameServer)
      → Kept check_timer IsFresh g
      → Detail (start_handlers proto sort) late g h
      → Kept check_timer IsFresh h
  unfolding check_timer report_once start_timeout_check start_reconnect_timeout_check
  shown-IsFresh =
      shown-Kept check_timer IsFresh (start_handlers proto sort) late check_timer-IsOwn
        (λ due. start_handlers-IsFresh due proto sort) accept-IsFresh
        (λ due. record { at = λ v f. unasked due v _ refl refl refl f })
        (λ due. record { at = λ v f. unasked due v _ refl refl refl f })
        (λ due ns ms w f. let soon = f.soon in record { soon = omega arith; heard = f.heard })
        (λ g h k (a, w, ran, left).
          let now =
            same_now (check_timeout 15) g.server w (check_timeout-NowIs g.server.now 15) ran in
          rw left (w.now + seconds 5, refl, checked-IsFresh g.server w ran now))
        (λ g h k (a, w, ran, left).
          apart check_timer IsFresh check_reconnect_timeout a g h w
            (λ due.
              check_reconnect_timeout-Keeps (λ m v f. unasked due v _ refl refl refl f)
                (λ p v f. unasked due v _ refl refl refl f))
            ran (rw left refl) (rw left refl) k)

  run-IsFresh :
      (g : GameServer) → Serving (start_handlers proto sort) late g → Kept check_timer IsFresh g
  unfolding check_timer start do_accept start_tick start_timeout_check start_reconnect_timeout_check
      schedule_next
  run-IsFresh _ starts =
      (seconds 5, refl, record { soon = omega arith; heard = Dict.Every-empty _ })
  run-IsFresh h (goes {g = g} r n) =
      shown-IsFresh g h (run-IsFresh g r) (show (start_handlers proto sort) late g h n)

  -- While the server runs and no handler waits for its turn longer than `late`, an open
  -- connection of the connection manager was heard less than 21 seconds and `late` ago: the
  -- longest silence is the 15 whole seconds that the check allows, with the part of a second that
  -- it drops, and the 5 seconds between two checks.
  pub run_hears :
      (g : GameServer) (sid : ℕ) (s : Session)
      → Serving (start_handlers proto sort) late g
      → Dict.lookup sid g.server.sessions ≡ some s
      → member sid g.server.connections ≡ true
      → s.closed ≡ false
      → g.server.now < s.last_active_time + seconds 21 + late
  unfolding check_timer
  run_hears g sid s r there listed open_now =
      let (due, out, fresh) = run-IsFresh g r in
      let (t, out_too, waited, _) = (run-IsTimely proto sort late g r).checks in
      let same : due ≡ t = some-injective (sym out ∙ out_too) in
      let heard = fresh.heard sid s there (ground arith) open_now in omega arith
