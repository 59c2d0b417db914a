-- ===== src/Server/Keeps/Services.antt =====
-- The invariant through the handlers of src/service.
use game_server.Prelude.{
  ℕ, ◌≡◌, refl, inl, List, Bytes, Option, none, some, to_i32, ◌||◌, is_neg_i64, ◌==◌,
}
use game_server.Prelude.Exec.{
  Exec, Keeps, modify, null_room, need-Keeps, bind-gets-Keeps, then-Keeps, bind-Keeps, pure-Keeps,
  if-Keeps, ◌>>◌,
}
use game_server.Prelude.Dict
use game_server.Codec.{Message}
use game_server.Metrics
use game_server.Player.Manager
use game_server.Player.Repository
use game_server.Player.Repository.{PlayerState}
use game_server.Proto.{Proto}
use game_server.Room.Manager as Manage
use game_server.Session
use game_server.Session.{Session}
use game_server.Server.Invariant.{IsSessionOk, IsIssued, IsSound}
use game_server.Server.Keeps.{session-Keeps, metrics-Keeps, send-Keeps}
use game_server.Server.Keeps.Rooms.{handle_chat-Keeps}
use game_server.Server.Keeps.Closing.{add_session-Keeps}
use game_server.Service.Login as Login
use game_server.Service.Login.{generate_token}
use game_server.Service.Chat as Chat
use game_server.Service.Heartbeat as Heartbeat
use game_server.Service.Ranking as Ranking
use game_server.World.{World, on_session, session_at}

-- A session gets a player id and then that player's token.
identify-IsSessionOk :
    (p : ℕ) (token : Bytes)
    → IsIssued p token
    → (s : Session) → IsSessionOk s
    → IsSessionOk (Session.set_token token (Session.set_player_id p s))
unfolding Session.set_token Session.set_player_id
identify-IsSessionOk p token issued s h = record { writing = h.writing; issued = issued }

-- The three stores that login and reconnect begin with.
abbrev pub identify : ℕ → ℕ → Bytes → Exec World (Unit {0}) → Exec World (Unit {0})
identify session p token rest = do
  on_session session (Session.set_player_id p)
  on_session session (Session.set_token token)
  modify (λ w. record w { player_manager = Manager.add_player p session w.player_manager })
  rest

pub identify-Keeps :
    (session p : ℕ) (token : Bytes) (rest : Exec World (Unit {0}))
    → IsIssued p token
    → Keeps IsSound rest
    → Keeps IsSound (identify session p token rest)
identify-Keeps session p token rest issued k = record {
  at = λ w h. k.at _ (record {
    queue = h.queue;
    rooms = h.rooms;
    sessions =
        Dict.Every-modify_twice (λ _ s. IsSessionOk s) (Session.set_player_id p)
          (Session.set_token token) session w.sessions (identify-IsSessionOk p token issued)
          h.sessions;
    states = h.states;
    stored = h.stored;
  });
}

save_new-Keeps :
    (p : ℕ) (username : Bytes)
    → Keeps IsSound (
        modify (λ w. record w {
          player_state_repository =
              Repository.save_player_state
                (Login.new_player p username w.wall_ms)
                w.player_state_repository;
        }))
unfolding Repository.save_player_state
save_new-Keeps p username = record {
  at = λ w h. record {
    queue = h.queue;
    rooms = h.rooms;
    sessions = h.sessions;
    states = h.states;
    stored =
        Dict.Every-put (λ k v. v.player_id ≡ k) p (Login.new_player p username w.wall_ms)
          w.player_state_repository.states refl h.stored;
  };
}

enter-Keeps : (session p : ℕ) (username : Bytes) → Keeps IsSound (Login.enter session p username)
unfolding Login.enter
enter-Keeps session p username =
    identify-Keeps session p (generate_token p) _ (inl refl)
      (then-Keeps _ _ (add_session-Keeps session) (save_new-Keeps p username))

generate_player_id-Keeps : Keeps IsSound Login.generate_player_id
unfolding Login.generate_player_id
generate_player_id-Keeps = record {
  at = λ w h. record {
    queue = h.queue;
    rooms = h.rooms;
    sessions = h.sessions;
    states = h.states;
    stored = h.stored;
  };
}

add_score-IsSound :
    (p delta : ℕ) (w : World) (found : Option PlayerState)
    → IsSound w
    → IsSound (Ranking.scored p delta found w)
unfolding Repository.update_score
add_score-IsSound p delta w none h = h
add_score-IsSound p delta w (some s) h = record {
  queue = h.queue;
  rooms = h.rooms;
  sessions = h.sessions;
  states = h.states;
  stored =
      Dict.Every-modify (λ k v. v.player_id ≡ k) _ p w.player_state_repository.states (λ v own. own)
        h.stored;
}

add_score-Keeps : (p delta : ℕ) → Keeps IsSound (Ranking.add_score p delta)
unfolding Ranking.add_score
add_score-Keeps p delta = record { at = λ w h. add_score-IsSound p delta w _ h }

module _ (proto : Proto) where
  pub login-Keeps : (session : ℕ) (m : Message) → Keeps IsSound (Login.handle_login proto session m)
  unfolding Login.handle_login
  login-Keeps session m = then-Keeps _ _ (metrics-Keeps Metrics.incr_login_req) (
      if-Keeps _ _ _ (send-Keeps session _) (
        bind-Keeps _ _ generate_player_id-Keeps
          (λ p. then-Keeps _ _ (enter-Keeps session p _) (send-Keeps session _))))

  pub chat-Keeps : (session : ℕ) (m : Message) → Keeps IsSound (Chat.handle_chat proto session m)
  unfolding Chat.handle_chat
  chat-Keeps session m =
      let req = proto.parse_chat_req m.body in
      then-Keeps _ _ (metrics-Keeps Metrics.incr_chat_req) (
        bind-gets-Keeps (λ w. (session_at session w).player_id) _
          λ p. then-Keeps _ _ (add_score-Keeps p 1) (
            bind-gets-Keeps (λ w. Manage.get_room (to_i32 req.room_id) w.room_manager) _
              λ found.
                bind-Keeps _ _ (need-Keeps null_room found)
                  (λ room. handle_chat-Keeps proto room p req.text)))

  pub heartbeat-Keeps :
      (session : ℕ) (m : Message) → Keeps IsSound (Heartbeat.handle_heartbeat proto session m)
  unfolding Heartbeat.handle_heartbeat Session.update_last_active_time
  heartbeat-Keeps session m =
      let req = proto.parse_heartbeat_req m.body in
      let rtt = req.last_rtt_ms in
      then-Keeps _ _ (metrics-Keeps Metrics.incr_heartbeat_req) (
        bind-gets-Keeps (λ w. w.now) _
          λ now.
            then-Keeps _ _
              (if-Keeps (is_neg_i64 rtt || (rtt == 0)) _ _ (pure-Keeps tt)
                (metrics-Keeps (Metrics.record_heartbeat rtt)))
              (then-Keeps _ _
                (session-Keeps session (Session.update_last_active_time now)
                  (λ s ok. record { writing = ok.writing; issued = ok.issued }))
                (send-Keeps session (Heartbeat.heartbeat_reply proto req.client_time_ms now))))

  send_ranking-Keeps :
      (sort : List PlayerState → List PlayerState) (session : ℕ) (m : Message)
      → Keeps IsSound (Ranking.send_ranking proto sort session m)
  unfolding Ranking.send_ranking
  send_ranking-Keeps sort session m = record {
    at = λ w h.
        (send-Keeps session (
            Ranking.ranking_reply proto (to_i32 (proto.parse_ranking_req m.body).top_n)
              (sort (Repository.get_all_players w.player_state_repository)))).at
          w h;
  }

  pub ranking-Keeps :
      (sort : List PlayerState → List PlayerState) (session : ℕ) (m : Message)
      → Keeps IsSound (Ranking.handle_ranking_req proto sort session m)
  unfolding Ranking.handle_ranking_req
  ranking-Keeps sort session m =
      then-Keeps _ (Ranking.send_ranking proto sort session m)
        (metrics-Keeps Metrics.incr_ranking_req) (send_ranking-Keeps sort session m)
