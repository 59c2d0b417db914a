-- ===== src/Server/Attending/Reached.antt =====
-- The states that the event loop of src/GameServer.cpp gets to: src/net/Session.cpp, `do_read` and
-- `do_write`.
use game_server.Prelude.{
  ℕ, ◌+◌, ◌≡◌, refl, ap, sym, subst, ◌∙◌, List, ◌++◌, All-append, Bytes, true, false, some, arith,
}
use game_server.Prelude.Exec.{Outcome, done, modify, bind-Keeps, pure-Keeps, after-ended}
use game_server.Prelude.Dict
use game_server.Codec.{need_more, AreBytes, try_decode}
use game_server.Codec.Packets.{split_bytes, split_waits}
use game_server.Codec.Stream.{no_message, split}
use game_server.Player.Repository.{PlayerState}
use game_server.Proto.{Proto}
use game_server.Room.Manager as Manager
use game_server.Server.{
  Event, Handler, handle, start_handlers, accept, read_done, parse_packet, report_once,
}
use game_server.Server.Hearing.{
  Input, input, heard, Hears, AreDeaf, heard-modify, heard-change, start_handlers-AreDeaf,
}
use game_server.Server.Loop.{
  Can, can_accept, can_read, can_fail_to_read, can_write, can_fail_to_write, can_tick, can_check,
  can_give_up, can_report, can_wait, can_go, step, Reach, start, later,
}
use game_server.Server.Parsing.Heard.{parse_packet-Hears}
use game_server.Server.Sound.{handle-Keeps, start_handlers-AllKeep, initial-IsSound}
use game_server.Server.Invariant.{IsSound}
use game_server.Session
use game_server.Session.{Session}
use game_server.World.{World, on_session, on_rooms, session_at}
use game_server.Server.Attending.{
  AreAttended, same-Keeps, close-Keeps, check_timeout-Keeps, check_reconnect_timeout-Keeps,
  input-write_done, accept-Keeps, destroy-Keeps, read_again, heard_closed, ended_in,
}

module _ (handlers : Dict.Dict Handler) (deaf : AreDeaf handlers) where
  read_done_attends :
      (sid : ℕ) (bytes : Bytes) (w v : World) (s : Session)
      → AreAttended w
      → Dict.lookup sid w.sessions ≡ some s
      → AreBytes bytes
      → read_done handlers sid bytes w ≡ (done tt, v)
      → AreAttended v
  unfolding read_done Session.receive
  read_done_attends sid bytes w v s h there ok e =
      let w1 : World = record w { sessions = Dict.modify (Session.receive bytes) sid w.sessions } in
      let i1 : Input = record {
        recv_buffer = s.recv_buffer ++ bytes;
        reading = false;
        closed = s.closed;
      } in
      let before = h sid (input s) (ap heard there) in
      let all : AreBytes (s.recv_buffer ++ bytes) =
        All-append _ s.recv_buffer bytes before.bytes ok in
      let now : Hears sid (some i1) w1 =
        heard-change (Session.receive bytes)
          (λ x. record x { reading = false; recv_buffer = x.recv_buffer ++ bytes }) (λ x. refl) sid
          w.sessions
        ∙ ap
            (λ o.
              Dict.over
                (λ (x : Input). record x { reading = false; recv_buffer = x.recv_buffer ++ bytes })
                (heard o))
            there in
      let (_, ended, later_) = after-ended (parse_packet handlers sid w1) _ tt v e in
      let (mine, others) = parse_packet-Hears handlers deaf sid i1 w1 now all ended in
      let u = (parse_packet handlers sid w1).1 in
      read_again sid (session_at sid u).closed
        (record i1 { recv_buffer = (split (s.recv_buffer ++ bytes)).1 }) u v mine
        (split_bytes (s.recv_buffer ++ bytes) all) (split_waits (s.recv_buffer ++ bytes) all)
        (heard_closed (Dict.lookup sid u.sessions) _ mine)
        (λ k j differ hj.
          let kept : Dict.lookup k w1.sessions ≡ Dict.lookup k w.sessions =
            ground (arith, Dict.lookup-modify (Session.receive bytes) sid k w.sessions) in
          h k j (
            ap heard (sym kept)
            ∙ sym (others k (heard (Dict.lookup k w1.sessions)) differ refl)
            ∙ hj))
        later_

  handle_attends :
      (w : World) (e : Event) (v : World)
      → AreAttended w
      → Can w e
      → handle handlers e w ≡ (done tt, v)
      → AreAttended v
  unfolding handle
  handle_attends w _ v h can_accept e =
      ended_in (bind-Keeps accept _ accept-Keeps (λ _. pure-Keeps tt)) w v h e
  handle_attends w _ v h (can_read sid bytes s there reading ok) e =
      read_done_attends sid bytes w v s h there ok e
  handle_attends w _ v h (can_fail_to_read sid s there reading) e =
      ended_in (close-Keeps sid) w v h e
  handle_attends w _ v h (can_write sid n s packet there writing l) e =
      ended_in
        (same-Keeps (on_session sid (Session.write_done n))
          (λ k u. heard-modify (Session.write_done n) (input-write_done n) sid k u.sessions))
        w v h e
  handle_attends w _ v h (can_fail_to_write sid s packet there writing) e =
      ended_in (close-Keeps sid) w v h e
  handle_attends w _ v h can_tick e =
      ended_in (same-Keeps (on_rooms (modify Manager.tick_all)) (λ k u. refl)) w v h e
  handle_attends w _ v h can_check e = ended_in (check_timeout-Keeps 15) w v h e
  handle_attends w _ v h can_give_up e = ended_in check_reconnect_timeout-Keeps w v h e
  handle_attends w _ v h can_report e =
      ended_in (same-Keeps report_once (λ k u. unfold report_once in refl)) w v h e
  handle_attends w _ v h (can_wait ns ms) e =
      ended_in
        (same-Keeps
          (modify (λ (u : World). record u { now = u.now + ns; wall_ms = u.wall_ms + ms }))
          (λ k u. refl))
        w v h e
  handle_attends w _ v h (can_go sid s there closed) e = ended_in (destroy-Keeps sid) w v h e

  pub reach_attends : (w : World) → Reach handlers w → AreAttended w
  unfolding Dict.lookup
  reach_attends w start = λ sid i e. cc e
  reach_attends w (later {w = u} r (step e can ran)) =
      handle_attends u e w (reach_attends u r) can ran

pub reach-IsSound :
    (proto : Proto) (sort : List PlayerState → List PlayerState) (w : World)
    → Reach (start_handlers proto sort) w
    → IsSound w
reach-IsSound proto sort w start = initial-IsSound
reach-IsSound proto sort w (later {w = u} r (step e can ran)) =
    subst (λ (q : Outcome (Unit {0}) × World). IsSound q.1) ran
      ((handle-Keeps (start_handlers proto sort) (start_handlers-AllKeep proto sort) e).at u
        (reach-IsSound proto sort u r))

-- In every state that the event loop gets to by events that can come and are handled without a
-- fault, an open connection holds no whole packet that is not handled, has a read outstanding,
-- and has exactly the front packet of its queue being written, if there is one.
pub reach-IsAttended :
    (proto : Proto) (sort : List PlayerState → List PlayerState) (w : World) (sid : ℕ) (s : Session)
    → Reach (start_handlers proto sort) w
    → Dict.lookup sid w.sessions ≡ some s
    → s.closed ≡ false
    → ((try_decode s.recv_buffer no_message).status ≡ need_more)
      × (s.reading ≡ true)
      × (s.pending_write ≡ Session.front s.write_queue)
reach-IsAttended proto sort w sid s r there open_now =
    let ok =
      reach_attends (start_handlers proto sort) (start_handlers-AreDeaf proto sort) w r sid
        (input s) (ap heard there) in
    (
      ok.waits,
      ok.reads open_now,
      ((reach-IsSound proto sort w r).sessions sid s there).writing open_now,
    )
