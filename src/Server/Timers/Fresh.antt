-- ===== src/Server/Timers/Fresh.antt =====
-- When each connection was last heard, against the end of the wait of `start_timeout_check` in
-- src/GameServer.cpp.
use game_server.Prelude.{
  ℕ, ◌+◌, ◌≤◌, ◌<◌, ◌≡◌, ap, List, Bytes, Bool, true, false, ◌||◌, ◌==◌, ==-cases, inl, inr, Option,
  none, some, arith, member, member-set_insert, member-set_erase,
}
use game_server.Prelude.Exec.{Keeps}
use game_server.Prelude.Dict
use game_server.Player.Repository.{PlayerState}
use game_server.Proto.{Proto}
use game_server.Server.{start_handlers}
use game_server.Server.Frame.{Frame, Touch, sends, names, trusts}
use game_server.Server.Frame.Services.{match-Frame}
use game_server.Server.Steady.{Steady, Moves, receives, reads, writes, noted, take_packet-Keeps}
use game_server.Server.Steady.Closing.{close-Keeps}
use game_server.Server.Table.{start_handlers-Frame}
use game_server.Server.Timers.{seconds}
use game_server.Session
use game_server.Session.{Session}
use game_server.World.{World}
use game_server.World.Closing.{close, forget}

-- An open session was heard so late that the next check, at `due`, comes within 21 seconds.
abbrev pub HeardBy : ℕ → Session → Type 0
HeardBy due s = s.closed ≡ false → due < s.last_active_time + seconds 21

-- So for the connections of the connection manager, and those that `who` names.
pub record FreshFor (who : ℕ → Bool) (due : ℕ) (w : World) : Type 0 where
  pub soon : due ≤ w.now + seconds 5
  pub heard :
      Dict.Every (λ sid s. (member sid w.connections || who sid) ≡ true → HeardBy due s) w.sessions

abbrev pub IsFresh : ℕ → World → Type 0
IsFresh = FreshFor (λ _. false)

touched :
    (f : Session → Session) (due : ℕ) (s : Session) → Touch f → HeardBy due s → HeardBy due (f s)
unfolding Session.send Session.do_write Session.set_player_id Session.set_token
touched _ due s (sends m) h = ground (arith, h)
touched _ due s (names p) h = h
touched _ due s (trusts token) h = h

moved :
    (f : Session → Session) (due : ℕ) (s : Session) → Moves f → HeardBy due s → HeardBy due (f s)
unfolding Session.receive Session.do_read Session.write_done Session.do_write
moved _ due s (receives bytes) h = h
moved _ due s reads h = h
moved _ due s (writes n) h = ground (arith, h)

module _ (due : ℕ) where
  FreshFor-Frame : (here : ℕ) → Frame here (FreshFor (λ sid. here == sid) due)
  unfolding Session.update_last_active_time
  FreshFor-Frame here = record {
    metrics = λ m w h. record { soon = h.soon; heard = h.heard };
    players = λ m w h. record { soon = h.soon; heard = h.heard };
    rooms = λ m w h. record { soon = h.soon; heard = h.heard };
    connected = λ w h. record {
      soon = h.soon;
      heard =
          λ sid s e m. h.heard sid s e (ground (arith, member-set_insert here sid w.connections));
    };
    back = λ p w h. record { soon = h.soon; heard = h.heard };
    stored = λ r w h. record { soon = h.soon; heard = h.heard };
    next_id = λ p w h. record { soon = h.soon; heard = h.heard };
    sessions = λ {f} t sid w h. record {
      soon = h.soon;
      heard = Dict.Every-modify _ f sid w.sessions (λ s k m. touched f due s t (k m)) h.heard;
    };
    seen = λ w h. record {
      soon = h.soon;
      heard =
          Dict.Every-modify _ (Session.update_last_active_time w.now) here w.sessions
            (λ s k m open_now. let soon = h.soon in omega arith) h.heard;
    };
  }

  -- A packet has come on connection `sid`.
  noted-FreshFor :
      (sid : ℕ) (rest : Bytes) (w : World)
      → IsFresh due w
      → FreshFor (λ k. sid == k) due (noted sid rest w)
  unfolding Session.update_last_active_time
  noted-FreshFor sid rest w h = record {
    soon = h.soon;
    heard = λ k t e m. elim (==-cases sid k) [
      | inl same ↦ λ open_now.
          go (Dict.lookup k (Dict.modify (λ s. record s { recv_buffer = rest }) sid w.sessions)) t (
            ground (
              arith,
              Dict.lookup-modify (Session.update_last_active_time w.now) sid k
                  (Dict.modify (λ s. record s { recv_buffer = rest }) sid w.sessions),
            ))
      | inr other ↦
          h.heard k t
            (ground (
              arith,
              Dict.lookup-modify (Session.update_last_active_time w.now) sid k
                  (Dict.modify (λ s. record s { recv_buffer = rest }) sid w.sessions),
              Dict.lookup-modify (λ (s : Session). record s { recv_buffer = rest }) sid k
                  w.sessions,
            ))
            (ground arith)
    ];
  }
    where
      go :
          (o : Option Session) (t : Session)
          → Dict.over (Session.update_last_active_time w.now) o ≡ some t
          → due < t.last_active_time + seconds 21
      go none t e = cc e
      go (some s) t e =
          let late : w.now ≡ t.last_active_time =
            ap (λ o. elim o as (λ _. ℕ) [ none ↦ 0 | some x ↦ x.last_active_time ]) e in
          let soon = h.soon in omega arith

  close-IsFresh : (sid : ℕ) → Keeps (IsFresh due) (close sid)
  unfolding forget
  close-IsFresh sid =
      close-Keeps (λ m w h. record { soon = h.soon; heard = h.heard }) sid
        λ w h. record {
          soon = h.soon;
          heard =
              Dict.Every-modify _ (λ s. record s { closed = true }) sid w.sessions
                (λ s k m open_now. cc open_now)
                (λ k s e m. h.heard k s e (ground (arith, member-set_erase sid k w.connections)));
        }

  pub start_handlers-IsFresh :
      (proto : Proto) (sort : List PlayerState → List PlayerState)
      → Steady (IsFresh due) (start_handlers proto sort)
  start_handlers-IsFresh proto sort = record {
    takes = λ sid rest m.
        take_packet-Keeps (start_handlers proto sort) sid rest m
          (start_handlers-Frame _ sid (FreshFor-Frame sid) proto sort (
            match-Frame (FreshFor-Frame sid) (λ q w h. record { soon = h.soon; heard = h.heard })
              proto))
          (noted-FreshFor sid rest)
          (λ w h. record { soon = h.soon; heard = λ k s e m. h.heard k s e (ground arith) });
    closes = close-IsFresh;
    moves = λ {f} t sid. record {
      at = λ w h. record {
        soon = h.soon;
        heard = Dict.Every-modify _ f sid w.sessions (λ s k m. moved f due s t (k m)) h.heard;
      };
    };
    ends = λ sid w h. record { soon = h.soon; heard = Dict.Every-remove _ sid w.sessions h.heard };
  }
