-- ===== src/Server/Attending.antt =====
-- What the server owes its connections between two events: src/net/Session.cpp, `do_read`,
-- `parse_packet` and `do_write`, under the loop of src/GameServer.cpp.
pub mod Tests
pub mod Reached
use game_server.Prelude.{
  some-injective, ℕ, ◌+◌, ◌≡◌, ◌≢◌, refl, ap, sym, subst, ◌∙◌, List, [], ◌∷◌, ◌++◌, All-append,
  Bytes, Bool, true, false, Option, none, some, arith, inl, inr, if◌then◌else◌, ◌==◌, ==-cases,
  Bool-cases,
}
use game_server.Prelude.Exec.{
  Exec, Keeps, Outcome, done, fault, pure, modify, gets, for_each-Keeps, then-Keeps, bind-Keeps,
  pure-Keeps, if-Keeps, after, after-ended, ◌>>=◌, ◌>>◌,
}
use game_server.Prelude.Dict
use game_server.Codec.{Message, need_more, AreBytes, try_decode}
use game_server.Codec.Packets.{split_bytes, split_waits}
use game_server.Codec.Stream.{no_message, split}
use game_server.Player.Repository.{PlayerState}
use game_server.Proto.{Proto}
use game_server.Room.Manager as Manager
use game_server.Server.{
  Event, Handler, handle, start_handlers, accept, read_done, parse_packet, report_once,
}
use game_server.Server.Hearing.{
  Input, input, heard, Hears, AreDeaf, heard-modify, heard-change, start_handlers-AreDeaf,
}
use game_server.Server.Loop.{
  Can, can_accept, can_read, can_fail_to_read, can_write, can_fail_to_write, can_tick, can_check,
  can_give_up, can_report, can_wait, can_go, Step, step, Reach, start, later,
}
use game_server.Server.Sound.{handle-Keeps, start_handlers-AllKeep, initial-IsSound}
use game_server.Server.Invariant.{IsSound}
use game_server.Server.Timeouts.{shut_if, sessions-close}
use game_server.Session
use game_server.Session.{Session}
use game_server.World.{World, initial, on_session, on_rooms, session_at, or_fresh}
use game_server.World.Closing.{
  close, check_timeout, idle_sessions, check_reconnect_timeout, give_up,
}

-- No whole packet waits, and an open connection has a read outstanding.
pub record IsAttended (i : Input) : Type 0 where
  pub bytes : AreBytes i.recv_buffer
  pub waits : (try_decode i.recv_buffer no_message).status ≡ need_more
  pub reads : i.closed ≡ false → i.reading ≡ true

abbrev pub AreAttended : World → Type 0
AreAttended w = (sid : ℕ) (i : Input) → heard (Dict.lookup sid w.sessions) ≡ some i → IsAttended i

-- A change that leaves what is heard alone.
pub same-Keeps :
    (m : Exec World (Unit {0}))
    → ((sid : ℕ) (w : World)
        → heard (Dict.lookup sid (m w).1.sessions) ≡ heard (Dict.lookup sid w.sessions))
    → Keeps AreAttended m
same-Keeps m same = record { at = λ w h sid i e. h sid i (sym (same sid w) ∙ e) }

shut-IsAttended :
    (b : Bool) (o : Option Session)
    → ((i : Input) → heard o ≡ some i → IsAttended i)
    → (i : Input) → heard (Dict.over (shut_if b) o) ≡ some i
    → IsAttended i
shut-IsAttended b none h i e = cc
shut-IsAttended false (some s) h i e = h i e
shut-IsAttended true (some s) h i e =
    let ok = h (input s) refl in
    let same : record (input s) { closed = true } ≡ i = some-injective e in
    subst IsAttended same (record { bytes = ok.bytes; waits = ok.waits; reads = λ open_now. cc })

pub close-Keeps : (a : ℕ) → Keeps AreAttended (close a)
close-Keeps a = record {
  at = λ w h sid i e.
      shut-IsAttended (a == sid) (Dict.lookup sid w.sessions) (h sid) i
        (ap heard (sym (sessions-close a sid w)) ∙ e);
}

pub check_timeout-Keeps : (n : ℕ) → Keeps AreAttended (check_timeout n)
unfolding check_timeout
check_timeout-Keeps n = record {
  at = λ w h. (for_each-Keeps (idle_sessions n w w.connections) close close-Keeps).at w h;
}

give_up-Keeps : (p : ℕ) → Keeps AreAttended (give_up p)
unfolding give_up
give_up-Keeps p =
    then-Keeps (on_rooms (Manager.remove_player p)) _ (record { at = λ w h. h })
      (record { at = λ w h. h })

pub check_reconnect_timeout-Keeps : Keeps AreAttended check_reconnect_timeout
unfolding check_reconnect_timeout
check_reconnect_timeout-Keeps = record {
  at = λ w h. (for_each-Keeps _ give_up give_up-Keeps).at w h;
}

pub input-write_done : (n : ℕ) (s : Session) → input (Session.write_done n s) ≡ input s
unfolding Session.write_done Session.do_write
input-write_done n s = ground arith

-- A new connection has its first read outstanding.
pub accept-Keeps : Keeps AreAttended accept
unfolding accept Session.start Session.do_read Session.update_last_active_time
accept-Keeps = record {
  at = λ w h sid i e. elim (==-cases w.next_session sid) [
    | inl same ↦
        let new : Session = Session.start w.now Session.fresh in
        let put : Dict.lookup sid (Dict.put w.next_session new w.sessions) ≡ some new =
          ground (arith, Dict.lookup-put w.next_session sid new w.sessions) in
        let there : heard (some new) ≡ some i = ap heard (sym put) ∙ e in
        subst IsAttended (some-injective there)
          (record { bytes = tt; waits = unfold try_decode in refl; reads = λ open_now. refl })
    | inr other ↦
        let new : Session = Session.start w.now Session.fresh in
        let put : Dict.lookup sid (Dict.put w.next_session new w.sessions)
            ≡ Dict.lookup sid w.sessions =
          ground (arith, Dict.lookup-put w.next_session sid new w.sessions) in
        h sid i (ap heard (sym put) ∙ e)
  ];
}

pub destroy-Keeps :
    (a : ℕ)
    → Keeps AreAttended (modify (λ (w : World). record w { sessions = Dict.remove a w.sessions }))
destroy-Keeps a = record {
  at = λ w h sid i e. elim (==-cases a sid) [
    | inl same ↦
        let gone : Dict.lookup sid (Dict.remove a w.sessions) ≡ none =
          ground (arith, Dict.lookup-remove a sid w.sessions) in
        cc (sym (ap heard gone) ∙ e)
    | inr other ↦
        let kept : Dict.lookup sid (Dict.remove a w.sessions) ≡ Dict.lookup sid w.sessions =
          ground (arith, Dict.lookup-remove a sid w.sessions) in
        h sid i (ap heard (sym kept) ∙ e)
  ];
}

-- After the loop, the next read is started on an open connection.
pub read_again :
    (sid : ℕ) (c : Bool) (i : Input) (u v : World)
    → Hears sid (some i) u
    → AreBytes i.recv_buffer
    → (try_decode i.recv_buffer no_message).status ≡ need_more
    → i.closed ≡ c
    → ((k : ℕ) (j : Input) → (sid == k) ≡ false → Hears k (some j) u → IsAttended j)
    → (if c then pure tt else on_session sid Session.do_read) u ≡ (done tt, v)
    → AreAttended v
read_again sid true i u v h bytes waits closed others e k j hj =
    let back : Hears k (some j) u =
      ap (λ (r : Outcome (Unit {0}) × World). heard (Dict.lookup k r.1.sessions)) e ∙ hj in
    elim (==-cases sid k) [
      | inl same ↦
          let one : i ≡ j =
            some-injective (sym h ∙ subst (λ n. Hears n (some j) u) (sym same) back) in
          subst IsAttended one (record { bytes = bytes; waits = waits; reads = λ open_now. cc })
      | inr other ↦ others k j other back
    ]
read_again sid false i u v h bytes waits closed others e k j hj =
    let back : heard (Dict.lookup k (Dict.modify Session.do_read sid u.sessions)) ≡ some j =
      ap (λ (r : Outcome (Unit {0}) × World). heard (Dict.lookup k r.1.sessions)) e ∙ hj in
    elim (==-cases sid k) [
      | inl same ↦
          let now : heard (Dict.lookup sid (Dict.modify Session.do_read sid u.sessions))
              ≡ some (record i { reading = true }) =
            heard-change Session.do_read (λ x. record x { reading = true })
              (λ s. unfold Session.do_read in refl) sid u.sessions
            ∙ ap (Dict.over (λ (x : Input). record x { reading = true })) h in
          let one : record i { reading = true } ≡ j = some-injective (
            sym now
            ∙ subst
                (λ n. heard (Dict.lookup n (Dict.modify Session.do_read sid u.sessions)) ≡ some j)
                (sym same) back) in
          subst IsAttended one (record { bytes = bytes; waits = waits; reads = λ open_now. refl })
      | inr other ↦
          let kept : Dict.lookup k (Dict.modify Session.do_read sid u.sessions)
              ≡ Dict.lookup k u.sessions =
            ground (arith, Dict.lookup-modify Session.do_read sid k u.sessions) in
          others k j other (ap heard (sym kept) ∙ back)
    ]

pub heard_closed :
    (o : Option Session) (i : Input) → heard o ≡ some i → i.closed ≡ (or_fresh o).closed
heard_closed none i e = cc
heard_closed (some s) i e = ap (λ (x : Input). x.closed) (sym (some-injective e))

pub ended_in :
    {m : Exec World (Unit {0})}
    → Keeps AreAttended m
    → (w v : World) → AreAttended w
    → m w ≡ (done tt, v)
    → AreAttended v
ended_in k w v h e = subst (λ (r : Outcome (Unit {0}) × World). AreAttended r.1) e (k.at w h)
