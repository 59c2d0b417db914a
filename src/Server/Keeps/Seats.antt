-- ===== src/Server/Keeps/Seats.antt =====
-- The invariant through src/service/MatchService.cpp and src/service/ReconnectService.cpp.
use game_server.Prelude.{
  ℕ, ◌≡◌, refl, subst, inl, inr, List, Bytes, false, Option, none, some, Bool-cases, to_i32,
  bytes_eq, bytes_eq_iff, is_nonpos_i32, codes,
}
use game_server.Prelude.Exec.{Keeps, modify, then-Keeps, bind-Keeps, pure-Keeps, if-Keeps}
use game_server.Prelude.Dict
use game_server.Codec.{Message}
use game_server.Match as Queues
use game_server.Match.Laws as Queue
use game_server.Metrics
use game_server.Player.StateManager
use game_server.Player.StateManager.{PlayerRuntimeState, is_offline}
use game_server.Proto.{Proto, ReconnectReq}
use game_server.Server.Invariant.{IsStateOk, IsIssued, IsSound}
use game_server.Server.Keeps.{metrics-Keeps, send-Keeps, queue-Keeps}
use game_server.Server.Keeps.Rooms.{create_room-Keeps, mark_reconnected-Keeps}
use game_server.Server.Keeps.Closing.{add_session-Keeps, states-Keeps}
use game_server.Server.Keeps.Services.{identify-Keeps}
use game_server.Service.Match as Match
use game_server.Service.Reconnect as Reconnect
use game_server.World.{World}

pop_players-Keeps : (n : ℕ) → Keeps IsSound (Match.pop_players n)
unfolding Match.pop_players
pop_players-Keeps n = record {
  at = λ w h. record {
    queue = (Queue.try_pop-IsConsistent n w.match_queue h.queue).0;
    rooms = h.rooms;
    sessions = h.sessions;
    states = h.states;
    stored = h.stored;
  };
}

joined-IsSound :
    (p : ℕ) (w : World)
    → Queues.contains p w.match_queue ≡ false
    → IsSound w
    → IsSound (record w { match_queue = Queues.join p w.match_queue })
joined-IsSound p w absent h = record {
  queue = (Queue.join-IsConsistent p w.match_queue h.queue absent).0;
  rooms = h.rooms;
  sessions = h.sessions;
  states = h.states;
  stored = h.stored;
}

restore-Keeps :
    (session p : ℕ) (token : Bytes)
    → IsIssued p token
    → Keeps IsSound (Reconnect.restore session p token)
unfolding Reconnect.restore StateManager.mark_online
restore-Keeps session p token issued = identify-Keeps session p token _ issued (
    then-Keeps _ _ (add_session-Keeps session) (
      then-Keeps _ _ (mark_reconnected-Keeps p) (
        states-Keeps (Dict.modify _ p) (λ m h.
          Dict.Every-modify IsStateOk _ p m (λ v ok. record { own = ok.own; issued = ok.issued })
            h))))

module _ (proto : Proto) where
  make_room-Keeps : (players : List ℕ) → Keeps IsSound (Match.make_room proto players)
  unfolding Match.make_room
  make_room-Keeps players =
      if-Keeps _ _ _ (pure-Keeps tt)
        (bind-Keeps _ _ (create_room-Keeps proto players) (λ _. pure-Keeps tt))

  enqueue-IsSound :
      (session p : ℕ) (w : World)
      → Queues.contains p w.match_queue ≡ false
      → IsSound w
      → IsSound (Match.enqueue proto session p w).1
  unfolding Match.enqueue
  enqueue-IsSound session p w absent h =
      (then-Keeps _ _ (send-Keeps session _)
          (bind-Keeps _ _ (pop_players-Keeps 2) make_room-Keeps)).at
        _ (joined-IsSound p w absent h)

  pub match-Keeps : (session : ℕ) (m : Message) → Keeps IsSound (Match.handle_match proto session m)
  unfolding Match.handle_match
  match-Keeps session m =
      let p = to_i32 (proto.parse_match_req m.body).player_id in
      then-Keeps _ _ (metrics-Keeps Metrics.incr_match_req) (
        if-Keeps (is_nonpos_i32 p) _ _ (send-Keeps session _) (record {
          at = λ w h. elim (Bool-cases (Queues.contains p w.match_queue)) [
            | inl there ↦ rw there ((send-Keeps session _).at w h)
            | inr absent ↦ rw absent (enqueue-IsSound session p w absent h)
          ];
        }))

  pub cancel-Keeps :
      (session : ℕ) (m : Message) → Keeps IsSound (Match.handle_cancel_match proto session m)
  unfolding Match.handle_cancel_match
  cancel-Keeps session m =
      let p = to_i32 (proto.parse_match_cancel_req m.body).player_id in
      if-Keeps (is_nonpos_i32 p) _
        (modify (λ w. record w { match_queue = Queues.leave p w.match_queue }))
        (send-Keeps session (Match.match_reply proto 1 (codes "player_id must be non-negative")))
        (queue-Keeps (Queues.leave p) (λ q ok. (Queue.leave-IsConsistent p q ok).0))

  failed-Keeps :
      (session : ℕ) (reason : Bytes)
      → Keeps IsSound (Reconnect.send_reconnect_failed proto session reason)
  unfolding Reconnect.send_reconnect_failed
  failed-Keeps session reason = record { at = λ w h. (send-Keeps session _).at w h }

  try_reconnect-Keeps :
      (session : ℕ) (req : ReconnectReq) (found : Option PlayerRuntimeState)
      → ((s : PlayerRuntimeState) → found ≡ some s → IsStateOk (to_i32 req.player_id) s)
      → Keeps IsSound (Reconnect.try_reconnect proto session req found)
  unfolding Reconnect.try_reconnect
  try_reconnect-Keeps session req none ok = failed-Keeps session _
  try_reconnect-Keeps session req (some s) ok = elim (Bool-cases (bytes_eq s.token req.token)) [
    | inl same ↦
        rw (same, Reconnect.try_reconnect)
          (if-Keeps (is_offline s.conn_state) _ _
            (then-Keeps _ _
              (restore-Keeps session (to_i32 req.player_id) req.token (
                subst (IsIssued (to_i32 req.player_id)) ((bytes_eq_iff s.token req.token).0 same)
                  (ok s refl).issued))
              (send-Keeps session _))
            (failed-Keeps session _))
    | inr differs ↦ rw (differs, Reconnect.try_reconnect) (failed-Keeps session _)
  ]

  pub reconnect-Keeps :
      (session : ℕ) (m : Message) → Keeps IsSound (Reconnect.handle_reconnect proto session m)
  unfolding Reconnect.handle_reconnect StateManager.get_state
  reconnect-Keeps session m =
      let req = proto.parse_reconnect_req m.body in
      let p = to_i32 req.player_id in
      then-Keeps _
        (λ w.
          Reconnect.try_reconnect proto session req (Dict.lookup p w.player_state_manager.states) w)
        (metrics-Keeps Metrics.incr_reconnect_req)
        (record {
          at = λ w h.
              (try_reconnect-Keeps session req (Dict.lookup p w.player_state_manager.states)
                  (h.states p)).at
                w h;
        })
