-- ===== src/Server/Timers/Refused.antt =====
-- After an error of `async_accept`: `do_accept` of src/GameServer.cpp.
use game_server.Prelude.{ℕ, ◌≡◌, refl, ap, sym, subst, ◌∙◌, List, true, false, Option, none, some}
use game_server.Prelude.Exec.{Exec, Keeps, Outcome, done, modify}
use game_server.Prelude.Dict
use game_server.Player.Repository.{PlayerState}
use game_server.Proto.{Proto}
use game_server.Room.Manager.{tick_all}
use game_server.Server.{report_once, start_handlers, handle}
use game_server.Server.Frame.{Frame}
use game_server.Server.Frame.Services.{match-Frame}
use game_server.Server.Steady.{Steady, take_packet-Keeps, session-Keeps}
use game_server.Server.Steady.Closing.{
  close-Keeps, check_timeout-Keeps, check_reconnect_timeout-Keeps,
}
use game_server.Server.Table.{start_handlers-Frame}
use game_server.Server.Timers.{
  GameServer, accept_done, start_tick, start_timeout_check, start_reconnect_timeout_check,
  schedule_next,
}
use game_server.Server.Timers.Shown.{
  Detail, show, refuses, lets_in, ticks_on, checks_all, clears_seats, prints, handles, goes_on,
}
use game_server.Server.Timers.Steps.{Onward, stays, then}
use game_server.Session.{Session}
use game_server.World.{World, on_rooms}
use game_server.World.Closing.{close, forget, check_timeout, check_reconnect_timeout}

-- Every session was there in `old`.
abbrev pub AreOld : World → World → Type 0
AreOld old w = Dict.Every (λ sid _. Dict.contains sid old.sessions ≡ true) w.sessions

module _ (old : World) where
  AreOld-Frame : (here : ℕ) → Frame here (AreOld old)
  AreOld-Frame here = record {
    metrics = λ m w h. h;
    players = λ m w h. h;
    rooms = λ m w h. h;
    connected = λ w h. h;
    back = λ p w h. h;
    stored = λ r w h. h;
    next_id = λ p w h. h;
    sessions = λ {f} t sid w h. Dict.Every-modify _ f sid w.sessions (λ s k. k) h;
    seen = λ w h. Dict.Every-modify _ _ here w.sessions (λ s k. k) h;
  }

  close-AreOld : (sid : ℕ) → Keeps (AreOld old) (close sid)
  unfolding forget
  close-AreOld sid =
      close-Keeps (λ m w h. h) sid (λ w h. Dict.Every-modify _ _ sid w.sessions (λ s k. k) h)

  start_handlers-AreOld :
      (proto : Proto) (sort : List PlayerState → List PlayerState)
      → Steady (AreOld old) (start_handlers proto sort)
  start_handlers-AreOld proto sort = record {
    takes = λ sid rest m.
        take_packet-Keeps (start_handlers proto sort) sid rest m
          (start_handlers-Frame _ sid (AreOld-Frame sid) proto sort
            (match-Frame (AreOld-Frame sid) (λ q w h. h) proto))
          (λ w h.
            Dict.Every-modify _ _ sid _ (λ s k. k)
              (Dict.Every-modify _ _ sid w.sessions (λ s k. k) h))
          (λ w h. h);
    closes = close-AreOld;
    moves = λ {f} t sid. record { at = λ w h. Dict.Every-modify _ f sid w.sessions (λ s k. k) h };
    ends = λ sid w h. Dict.Every-remove _ sid w.sessions h;
  }

-- No accept is out, and no session has come.
IsClosed : World → GameServer → Type 0
IsClosed old g = (g.accepting ≡ false) × AreOld old g.server

module _ (proto : Proto) (sort : List PlayerState → List PlayerState) (late : ℕ) (old : World) where
  ended_old :
      {A : Type 0} (m : Exec World A) (a : A) (g h : GameServer) (w : World)
      → Keeps (AreOld old) m
      → m g.server ≡ (done a, w)
      → h.server ≡ w
      → h.accepting ≡ g.accepting
      → IsClosed old g
      → IsClosed old h
  unfolding IsClosed
  ended_old {A} m a g h w keeps ran left same (shut, olds) = (
    same ∙ shut,
    subst (AreOld old) (ap (λ (r : Outcome A × World). r.1) ran ∙ sym left)
        (keeps.at g.server olds),
  )

  shown-IsClosed :
      (g h : GameServer)
      → IsClosed old g
      → Detail (start_handlers proto sort) late g h
      → IsClosed old h
  unfolding IsClosed report_once start_tick start_timeout_check start_reconnect_timeout_check
      schedule_next
  shown-IsClosed g _ k (refuses waiting) = (refl, k.1)
  shown-IsClosed g h k (lets_in waiting ran) = cc (sym waiting ∙ k.0)
  shown-IsClosed g h k (ticks_on (a, w, ran, left)) =
      ended_old (on_rooms (modify tick_all)) a g h w (record { at = λ v o. o }) ran (rw left refl)
        (rw left refl) k
  shown-IsClosed g h k (checks_all (a, w, ran, left)) =
      ended_old (check_timeout 15) a g h w (check_timeout-Keeps (λ m v o. o) 15 (close-AreOld old))
        ran (rw left refl) (rw left refl) k
  shown-IsClosed g h k (clears_seats (a, w, ran, left)) =
      ended_old check_reconnect_timeout a g h w
        (check_reconnect_timeout-Keeps (λ m v o. o) (λ p v o. o)) ran (rw left refl) (rw left refl)
        k
  shown-IsClosed g h k (prints (a, w, ran, left)) =
      ended_old report_once a g h w (record { at = λ v o. o }) ran (rw left refl) (rw left refl) k
  shown-IsClosed g h k (handles event mine can (a, w, ran, left)) =
      ended_old (handle (start_handlers proto sort) event) a g h w
        (session-Keeps (start_handlers proto sort) (start_handlers-AreOld old proto sort) event
          mine)
        ran (rw left refl) (rw left refl) k
  shown-IsClosed g _ k (goes_on ns ms punctual) = k

  later-IsClosed :
      (g h : GameServer)
      → IsClosed old g
      → Onward (start_handlers proto sort) late g h
      → IsClosed old h
  later-IsClosed g _ k stays = k
  later-IsClosed g h k (then {b = b} r n) =
      shown-IsClosed b h (later-IsClosed g b k r) (show (start_handlers proto sort) late b h n)

module _ (proto : Proto) (sort : List PlayerState → List PlayerState) (late : ℕ) where
  -- After an accept that ended with an error, whatever the server does then, no accept is out any
  -- more, and every session was already there before the error.
  pub accept_error_lem :
      (g h : GameServer) (sid : ℕ)
      → Onward (start_handlers proto sort) late (accept_done true g).1 h
      → (h.accepting ≡ false)
        × (Dict.contains sid h.server.sessions ≡ true → Dict.contains sid g.server.sessions ≡ true)
  unfolding IsClosed accept_done Dict.contains
  accept_error_lem g h sid r =
      let (shut, olds) =
        later-IsClosed proto sort late g.server (record g { accepting = false }) h
          (refl, λ k s e. found k s e) r in
      (shut, λ there. go (Dict.lookup sid h.server.sessions) refl there olds)
    where
      found :
          (k : ℕ) (s : Session)
          → Dict.lookup k g.server.sessions ≡ some s
          → Dict.contains k g.server.sessions ≡ true
      found k s e = rw e refl

      go :
          (o : Option Session)
          → Dict.lookup sid h.server.sessions ≡ o
          → Dict.contains sid h.server.sessions ≡ true
          → AreOld g.server h.server
          → Dict.contains sid g.server.sessions ≡ true
      go none e there olds = cc (rw e at there)
      go (some s) e there olds = olds sid s e
