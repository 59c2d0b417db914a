-- ===== src/Server/Timeouts.antt =====
-- Whom the idle check of src/net/ConnectionManager.cpp closes, as the timer of src/GameServer.cpp
-- runs it.
use game_server.Prelude.{
  ℕ, ◌≡◌, refl, sym, ap, ◌∙◌, inl, inr, List, [], ◌∷◌, Bool, true, false, ◌&&◌, Option, none, some,
  arith, if◌then◌else◌, ◌==◌, leb, ◌+◌, ◌*◌, ◌^◌, ==-cases, Bool-cases, member, subst,
}
use game_server.Prelude.Exec.{for_each, after-done}
use game_server.Prelude.Dict
use game_server.Server.NoFault.{IsReady, close-Runs}
use game_server.Session
use game_server.Session.{Session}
use game_server.World.{World, session_at, or_fresh}
use game_server.World.Closing.{forget, close, idle_sessions, check_timeout}

-- A session, shut or left as it is.
abbrev pub shut_if : Bool → Session → Session
shut_if true s = record s { closed = true }
shut_if false s = s

pub over_same : (o : Option Session) → Dict.over (shut_if false) o ≡ o
over_same none = refl
over_same (some s) = refl

over_closed : (o : Option Session) → (or_fresh o).closed ≡ true → Dict.over (shut_if true) o ≡ o
over_closed none h = refl
over_closed (some s) h = ap (λ (c : Bool). some (record s { closed = c })) (sym h)

pub over_twice :
    (b c : Bool) (o : Option Session)
    → Dict.over (shut_if c) (Dict.over (shut_if b) o)
      ≡ Dict.over (shut_if (if b then true else c)) o
over_twice b c none = refl
over_twice true true (some s) = refl
over_twice true false (some s) = refl
over_twice false c (some s) = refl

sessions-close_closed :
    (a : ℕ) (w : World) → (session_at a w).closed ≡ true → (close a w).1.sessions ≡ w.sessions
unfolding close
sessions-close_closed a w closed = rw closed refl

sessions-close_open :
    (a : ℕ) (w : World)
    → (session_at a w).closed ≡ false
    → (close a w).1.sessions ≡ Dict.modify (shut_if true) a w.sessions
unfolding close forget
sessions-close_open a w open_now = rw open_now refl

shut_at :
    (a sid : ℕ) (m : Dict.Dict Session)
    → Dict.lookup sid (Dict.modify (shut_if true) a m)
      ≡ Dict.over (shut_if (a == sid)) (Dict.lookup sid m)
shut_at a sid m = elim (==-cases a sid) [
  | inl same ↦ ground (arith, Dict.lookup-modify (shut_if true) a sid m)
  | inr other ↦
      ground (arith, Dict.lookup-modify (shut_if true) a sid m, over_same (Dict.lookup sid m))
]

already_shut :
    (a sid : ℕ) (w : World)
    → (session_at a w).closed ≡ true
    → Dict.lookup sid w.sessions ≡ Dict.over (shut_if (a == sid)) (Dict.lookup sid w.sessions)
already_shut a sid w closed = elim (==-cases a sid) [
  | inl same ↦
      let there : (session_at sid w).closed ≡ true =
        subst (λ i. (session_at i w).closed ≡ true) same closed in
      ground (arith, over_closed (Dict.lookup sid w.sessions) there)
  | inr other ↦ ground (arith, over_same (Dict.lookup sid w.sessions))
]

-- `close` shuts its session and changes nothing else of any session.
pub sessions-close :
    (a sid : ℕ) (w : World)
    → Dict.lookup sid (close a w).1.sessions
      ≡ Dict.over (shut_if (a == sid)) (Dict.lookup sid w.sessions)
sessions-close a sid w = elim (Bool-cases (session_at a w).closed) [
  | inl closed ↦
      ap (Dict.lookup sid) (sessions-close_closed a w closed) ∙ already_shut a sid w closed
  | inr open_now ↦
      ap (Dict.lookup sid) (sessions-close_open a w open_now) ∙ shut_at a sid w.sessions
]

pub member-idle_sessions :
    (timeout : ℕ) (w : World) (sid : ℕ) (cs : List ℕ)
    → member sid (idle_sessions timeout w cs)
      ≡ (member sid cs && Session.check_timeout timeout w.now (session_at sid w))
unfolding idle_sessions member
member-idle_sessions timeout w sid [] = refl
member-idle_sessions timeout w sid (c ∷ cs) = elim (==-cases c sid) [
  | inl same ↦
      let eq : session_at c w ≡ session_at sid w = ap (λ i. session_at i w) same in
      ground
        (arith, member-idle_sessions timeout w sid cs, ap (Session.check_timeout timeout w.now) eq)
  | inr other ↦ ground (arith, member-idle_sessions timeout w sid cs)
]

close_all :
    (sid : ℕ) (xs : List ℕ) (w : World)
    → IsReady w
    → Dict.lookup sid (for_each xs close w).1.sessions
      ≡ Dict.over (shut_if (member sid xs)) (Dict.lookup sid w.sessions)
unfolding for_each member
close_all sid [] w h = sym (over_same (Dict.lookup sid w.sessions))
close_all sid (x ∷ xs) w h =
    ap (λ r. Dict.lookup sid r.1.sessions)
      (after-done (close x w) (for_each xs close) ((close-Runs x).ends w h))
    ∙ close_all sid xs (close x w).1 ((close-Runs x).keeps w h)
    ∙ ap (Dict.over (shut_if (member sid xs))) (sessions-close x sid w)
    ∙ over_twice (x == sid) (member sid xs) (Dict.lookup sid w.sessions)

check_timeout-silent :
    (timeout now : ℕ) (s : Session)
    → Session.check_timeout timeout now s ≡ leb (s.last_active_time + (timeout + 1) * 10 ^ 9) now
unfolding Session.check_timeout
check_timeout-silent timeout now s = ground arith

-- From a state with the invariant and with room ids left, the idle check shuts exactly the
-- sessions of the connection manager whose last activity is timeout + 1 seconds ago or more; of
-- the sessions nothing else changes.
pub check_timeout_closes :
    (timeout : ℕ) (w : World) (sid : ℕ)
    → IsReady w
    → let heard = (session_at sid w).last_active_time in
      Dict.lookup sid (check_timeout timeout w).1.sessions
      ≡ Dict.over
          (shut_if (member sid w.connections && leb (heard + (timeout + 1) * 10 ^ 9) w.now))
          (Dict.lookup sid w.sessions)
unfolding check_timeout
check_timeout_closes timeout w sid h =
    close_all sid (idle_sessions timeout w w.connections) w h
    ∙ ap (λ b. Dict.over (shut_if b) (Dict.lookup sid w.sessions))
        (member-idle_sessions timeout w sid w.connections
          ∙ ap (◌&&◌ (member sid w.connections))
              (check_timeout-silent timeout w.now (session_at sid w)))
