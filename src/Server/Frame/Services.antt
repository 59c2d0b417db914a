-- ===== src/Server/Frame/Services.antt =====
-- What the services of src/service and the rooms of src/room leave alone.
use game_server.Prelude.{
  refl, ◌==◌, ◌||◌, is_neg_i64, ℕ, List, Bytes, Option, none, some, to_i32, inc_i32, is_nonpos_i32,
  null, codes,
}
use game_server.Prelude.Exec.{
  Keeps, pure, null_room, for_each-Keeps, then-Keeps, bind-Keeps, bind-gets-Keeps, pure-Keeps,
  need-Keeps, if-Keeps,
}
use game_server.Codec.{Message}
use game_server.Match.{MatchQueue}
use game_server.Match as Queues
use game_server.Metrics
use game_server.Metrics.{ServerMetrics}
use game_server.Player.Manager as Players
use game_server.Player.Manager.{PlayerManager}
use game_server.Player.Repository.{Repository, PlayerState}
use game_server.Player.Repository as Stored
use game_server.Player.StateManager.{PlayerStateManager, PlayerRuntimeState}
use game_server.Player.StateManager
use game_server.Proto.{Proto, ReconnectReq}
use game_server.Room.{Room}
use game_server.Room.Manager.{RoomManager}
use game_server.Room.Manager as Manager
use game_server.Service.Chat as Chat
use game_server.Service.Heartbeat as Heartbeat
use game_server.Service.Login as Login
use game_server.Service.Match as Match
use game_server.Service.Ranking as Ranking
use game_server.Service.Reconnect as Reconnect
use game_server.Session
use game_server.Session.{Session}
use game_server.World.{World, session_at, send, on_metrics}
use game_server.World.Rooms as Rooms
use game_server.Server.Frame.{
  Frame, Touches, seen-Frame, names, trusts, metrics-Frame, Touch-Frame, rooms-Frame, players-Frame,
  back-Frame, stored-Frame, send-Frame, send_to_player-Frame, add_session-Frame, save_room-Frame,
  add_score-Frame,
}

module _ {session : ℕ} {P : World → Type 0} (frame : Frame session P) where
  module _ (proto : Proto) where
    pub create_room-Frame : (ids : List ℕ) → Keeps P (Rooms.create_room proto ids)
    unfolding Rooms.create_room Rooms.open_in
    create_room-Frame ids =
        bind-Keeps (Rooms.open_in ids) _
          (rooms-Frame frame (λ m. let (room_id, m') = Manager.open_room ids m in pure room_id m'))
          λ room_id.
            then-Keeps _ _
              (for_each-Keeps ids _
                (send_to_player-Frame frame (Rooms.room_created proto room_id ids)))
              (then-Keeps _ _ (for_each-Keeps ids _ (save_room-Frame frame room_id))
                (pure-Keeps room_id))

    pub login-Frame : (m : Message) → Keeps P (Login.handle_login proto session m)
    unfolding Login.handle_login Login.generate_player_id Login.enter
    login-Frame m = then-Keeps _ _ (metrics-Frame frame Metrics.incr_login_req) (
        if-Keeps _ _ _ (send-Frame frame session _) (
          bind-Keeps Login.generate_player_id _
            (record { at = λ w h. frame.next_id (inc_i32 w.next_player_id) w h })
            (λ p.
              then-Keeps _ _
                (then-Keeps _ _ (Touch-Frame frame (Session.set_player_id p) session (names p)) (
                  then-Keeps _ _ (Touch-Frame frame _ session (trusts (Login.generate_token p))) (
                    then-Keeps _ _ (players-Frame frame (Players.add_player p session)) (
                      then-Keeps _ _ (add_session-Frame frame) (
                        stored-Frame frame (λ w.
                          Stored.save_player_state
                            (Login.new_player p (proto.parse_login_req m.body).username w.wall_ms)
                            w.player_state_repository))))))
                (send-Frame frame session _))))

    handle_chat-Frame :
        (room : Room) (p : ℕ) (text : Bytes) → Keeps P (Rooms.handle_chat proto room p text)
    unfolding Rooms.handle_chat
    handle_chat-Frame room p text =
        for_each-Keeps room.player_ids _ (λ q. send_to_player-Frame frame _ q)

    pub chat-Frame : (m : Message) → Keeps P (Chat.handle_chat proto session m)
    unfolding Chat.handle_chat
    chat-Frame m = then-Keeps _ _ (metrics-Frame frame Metrics.incr_chat_req) (
        bind-gets-Keeps (λ w. (session_at session w).player_id) _
          λ p. then-Keeps _ _ (add_score-Frame frame p 1) (
            bind-gets-Keeps
              (λ w. Manager.get_room (to_i32 (proto.parse_chat_req m.body).room_id) w.room_manager)
              _
              λ found.
                bind-Keeps _ _ (need-Keeps null_room found)
                  (λ room. handle_chat-Frame room p (proto.parse_chat_req m.body).text)))

    pub heartbeat-Frame : (m : Message) → Keeps P (Heartbeat.handle_heartbeat proto session m)
    unfolding Heartbeat.handle_heartbeat Touches send
    heartbeat-Frame m = record {
      at = λ v h.
          let req = proto.parse_heartbeat_req m.body in
          let w : World = record v { metrics = Metrics.incr_heartbeat_req v.metrics } in
          let counted =
            if-Keeps {P = Touches frame w.now}
              (is_neg_i64 req.last_rtt_ms || (req.last_rtt_ms == 0)) (pure tt)
              (on_metrics (Metrics.record_heartbeat req.last_rtt_ms)) (pure-Keeps tt)
              (record { at = λ u (k, e). (frame.metrics _ u k, e) }) in
          let replied : Keeps (Touches frame w.now)
              (send session (Heartbeat.heartbeat_reply proto req.client_time_ms w.now)) =
            record { at = λ u (k, e). ((send-Frame frame session _).at u k, e) } in
          ((then-Keeps _ _ counted (then-Keeps _ _ (seen-Frame frame w.now) replied)).at w
            (frame.metrics _ v h, refl)).0;
    }

    pub ranking-Frame :
        (sort : List PlayerState → List PlayerState) (m : Message)
        → Keeps P (Ranking.handle_ranking_req proto sort session m)
    unfolding Ranking.handle_ranking_req Ranking.send_ranking
    ranking-Frame sort m =
        then-Keeps _ (Ranking.send_ranking proto sort session m)
          (metrics-Frame frame Metrics.incr_ranking_req)
          (record { at = λ w h. (send-Frame frame session _).at w h })

    failed-Frame : (reason : Bytes) → Keeps P (Reconnect.send_reconnect_failed proto session reason)
    unfolding Reconnect.send_reconnect_failed
    failed-Frame reason = record { at = λ w h. (send-Frame frame session _).at w h }

    restore-Frame : (p : ℕ) (token : Bytes) → Keeps P (Reconnect.restore session p token)
    unfolding Reconnect.restore
    restore-Frame p token =
        then-Keeps _ _ (Touch-Frame frame (Session.set_player_id p) session (names p)) (
          then-Keeps _ _ (Touch-Frame frame (Session.set_token token) session (trusts token)) (
            then-Keeps _ _ (players-Frame frame (Players.add_player p session)) (
              then-Keeps _ _ (add_session-Frame frame) (
                then-Keeps _ _ (rooms-Frame frame (Manager.mark_player_reconnected p))
                  (back-Frame frame p)))))

    try_reconnect-Frame :
        (req : ReconnectReq) (found : Option PlayerRuntimeState)
        → Keeps P (Reconnect.try_reconnect proto session req found)
    unfolding Reconnect.try_reconnect
    try_reconnect-Frame req none = failed-Frame _
    try_reconnect-Frame req (some s) =
        if-Keeps _ _ _
          (if-Keeps _ _ _
            (then-Keeps _ _ (restore-Frame (to_i32 req.player_id) req.token)
              (send-Frame frame session _))
            (failed-Frame _))
          (failed-Frame _)

    pub reconnect-Frame : (m : Message) → Keeps P (Reconnect.handle_reconnect proto session m)
    unfolding Reconnect.handle_reconnect
    reconnect-Frame m = then-Keeps _ _ (metrics-Frame frame Metrics.incr_reconnect_req) (
        bind-gets-Keeps
          (λ w.
            StateManager.get_state (to_i32 (proto.parse_reconnect_req m.body).player_id)
              w.player_state_manager)
          _ (λ found. try_reconnect-Frame (proto.parse_reconnect_req m.body) found))

    pub refuse-Frame : (reason : Bytes) → Keeps P (Match.send_match_failure proto session reason)
    unfolding Match.send_match_failure
    refuse-Frame reason = send-Frame frame session (Match.match_reply proto 1 reason)

    pub make_room-Frame : (ids : List ℕ) → Keeps P (Match.make_room proto ids)
    unfolding Match.make_room
    make_room-Frame ids =
        if-Keeps (null ids) _ _ (pure-Keeps tt)
          (bind-Keeps _ _ (create_room-Frame ids) (λ _. pure-Keeps tt))

-- The match handler, where `P` does not depend on the queue either.
module _ {session : ℕ} {P : World → Type 0} (frame : Frame session P)
    (queue : (q : MatchQueue) (w : World) → P w → P (record w { match_queue = q }))
    (proto : Proto) where
  pop_players-Frame : (n : ℕ) → Keeps P (Match.pop_players n)
  unfolding Match.pop_players
  pop_players-Frame n = record { at = λ w h. queue _ w h }

  enqueue-Frame : (p : ℕ) → Keeps P (Match.enqueue proto session p)
  unfolding Match.enqueue Match.send_match_success
  enqueue-Frame p = record {
    at = λ w h.
        (then-Keeps _ _
            (send-Frame frame session (Match.match_reply proto 0 (codes "match success")))
            (bind-Keeps _ _ (pop_players-Frame 2) (make_room-Frame frame proto))).at
          _ (queue (Queues.join p w.match_queue) w h);
  }

  pub match-Frame : (m : Message) → Keeps P (Match.handle_match proto session m)
  unfolding Match.handle_match
  match-Frame m =
      let p = to_i32 (proto.parse_match_req m.body).player_id in
      then-Keeps _ _ (metrics-Frame frame Metrics.incr_match_req) (
        if-Keeps (is_nonpos_i32 p) _ _ (refuse-Frame frame proto _) (record {
          at = λ w h.
              (if-Keeps (Queues.contains p w.match_queue) _ _ (refuse-Frame frame proto _)
                  (enqueue-Frame p)).at
                w h;
        }))
