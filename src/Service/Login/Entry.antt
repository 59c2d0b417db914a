-- ===== src/Service/Login/Entry.antt =====
-- What a login leaves behind: src/service/LoginService.cpp.
use game_server.Prelude.{
  ℕ, ◌<◌, ◌^◌, ◌≢◌, ◌≡◌, refl, ap, ◌∙◌, Bytes, true, false, none, some, arith, ◌==◌, null, inc_i32,
  drop, member, set_insert, member-set_insert, to_string-injective,
}
use game_server.Prelude.Dict
use game_server.Codec.{Message}
use game_server.Metrics
use game_server.Player.Manager
use game_server.Player.Manager.{PlayerManager}
use game_server.Player.Repository
use game_server.Player.Repository.{PlayerState}
use game_server.Proto.{Proto}
use game_server.Service.Login.{generate_token, new_player, enter, handle_login, send_login_success}
use game_server.Session
use game_server.Session.{Session}
use game_server.World.{World, send, session_at, or_fresh}
use game_server.World.Closing.{add_session, forget, close}

generate_token-injective :
    (p q : ℕ) → p < 2 ^ 31 → q < 2 ^ 31 → generate_token p ≡ generate_token q → p ≡ q
unfolding generate_token
generate_token-injective p q hp hq e = to_string-injective p q hp hq (ap (drop 6) e)

-- Two different player ids, neither negative, have different tokens.
tokens_differ : (p q : ℕ) → p < 2 ^ 31 → q < 2 ^ 31 → p ≢ q → generate_token p ≢ generate_token q
tokens_differ p q hp hq differ e = differ (generate_token-injective p q hp hq e)

-- The server after a login.
abbrev pub entered : ℕ → ℕ → Bytes → World → World
entered session p username w = record w {
  metrics = Metrics.incr_login_req w.metrics;
  next_player_id = inc_i32 p;
  sessions =
      Dict.modify (Session.set_token (generate_token p)) session
        (Dict.modify (Session.set_player_id p) session w.sessions);
  player_manager = Manager.add_player p session w.player_manager;
  connections = set_insert session w.connections;
  player_state_repository =
      Repository.save_player_state (new_player p username w.wall_ms) w.player_state_repository;
}

-- Its connection, once it has logged in.
lookup-entered :
    (session p : ℕ) (username : Bytes) (s : Session) (w : World)
    → Dict.lookup session w.sessions ≡ some s
    → Dict.lookup session (entered session p username w).sessions
      ≡ some (record s { player_id = p; token = generate_token p })
unfolding Session.set_player_id Session.set_token
lookup-entered session p username s w e = ground (
  arith,
  e,
  Dict.lookup-modify (Session.set_token (generate_token p)) session session
      (Dict.modify (Session.set_player_id p) session w.sessions),
  Dict.lookup-modify (Session.set_player_id p) session session w.sessions,
)

-- A closing connection takes its own player id out of the players.
players-close :
    (sid : ℕ) (s : Session) (w : World)
    → Dict.lookup sid w.sessions ≡ some s
    → s.closed ≡ false
    → (close sid w).1.player_manager ≡ Manager.remove_player s.player_id w.player_manager
unfolding close forget
players-close sid s w e open_now =
    let there : Dict.lookup sid (Dict.modify (λ x. record x { closed = true }) sid w.sessions)
        ≡ some (record s { closed = true }) =
      ground (arith, e, Dict.lookup-modify (λ x. record x { closed = true }) sid sid w.sessions) in
    rw (e, open_now, there) refl

closed-send : (m : Message) (s : Session) → (Session.send m s).closed ≡ s.closed
unfolding Session.send Session.do_write
closed-send m s = ground arith

player_id-send : (m : Message) (s : Session) → (Session.send m s).player_id ≡ s.player_id
unfolding Session.send Session.do_write
player_id-send m s = ground arith

-- After a send, the connection closes and its player is forgotten.
players-close-send :
    (sid : ℕ) (msg : Message) (s : Session) (w : World)
    → Dict.lookup sid w.sessions ≡ some s
    → s.closed ≡ false
    → (close sid (send sid msg w).1).1.player_manager
      ≡ Manager.remove_player s.player_id w.player_manager
unfolding send
players-close-send sid msg s w e open_now =
    let there : Dict.lookup sid (Dict.modify (Session.send msg) sid w.sessions)
        ≡ some (Session.send msg s) =
      ground (arith, e, Dict.lookup-modify (Session.send msg) sid sid w.sessions) in
    players-close sid (Session.send msg s) (send sid msg w).1 there (closed-send msg s ∙ open_now)
    ∙ ap (λ p. Manager.remove_player p w.player_manager) (player_id-send msg s)

module _ (proto : Proto) where
  pub login_served :
      (session : ℕ) (m : Message) (w : World)
      → null (proto.parse_login_req m.body).username ≡ false
      → handle_login proto session m w
        ≡ send_login_success proto session w.next_player_id
            (generate_token w.next_player_id)
            (entered session w.next_player_id (proto.parse_login_req m.body).username w)
  unfolding handle_login enter add_session
  login_served session m w named = rw named refl

  -- With a name, a login on a live connection is served without a fault: the next player id is
  -- given out and counted on; before the reply is queued the connection has that id and its
  -- token, the player is known under the connection, which is in the timeout check, and a fresh
  -- state with the name and the score 0 is stored.
  login_lem :
      (session : ℕ) (m : Message) (s : Session) (w : World)
      → Dict.lookup session w.sessions ≡ some s
      → null (proto.parse_login_req m.body).username ≡ false
      → let p = w.next_player_id in
        let username = (proto.parse_login_req m.body).username in
        (v : World) × (handle_login proto session m w
          ≡ send_login_success proto session p (generate_token p) v)
        × (v.next_player_id ≡ inc_i32 p)
        × (session_at session v ≡ record s { player_id = p; token = generate_token p })
        × (Dict.lookup p v.player_manager.players ≡ some session)
        × (member session v.connections ≡ true)
        × (Dict.lookup p v.player_state_repository.states ≡ some (new_player p username w.wall_ms))
  unfolding Manager.add_player Repository.save_player_state
  login_lem session m s w e named =
      let p = w.next_player_id in
      let username = (proto.parse_login_req m.body).username in
      (
        entered session p username w,
        login_served session m w named,
        refl,
        ap or_fresh (lookup-entered session p username s w e),
        ground (arith, Dict.lookup-put p p session w.player_manager.players),
        ground (arith, member-set_insert session session w.connections),
        ground (
          arith,
          Dict.lookup-put p p (new_player p username w.wall_ms) w.player_state_repository.states,
        ),
      )

  -- When an open connection under which player q is known logs in with a name and gets another
  -- id, and then closes, only the new id is forgotten: q stays known, under a connection that is
  -- closed.
  pub login_again_leaks :
      (session : ℕ) (m : Message) (s : Session) (w : World) (q : ℕ)
      → Dict.lookup session w.sessions ≡ some s
      → s.closed ≡ false
      → null (proto.parse_login_req m.body).username ≡ false
      → Dict.lookup q w.player_manager.players ≡ some session
      → (w.next_player_id == q) ≡ false
      → let after = (close session (handle_login proto session m w).1).1 in
        (Dict.lookup q after.player_manager.players ≡ some session)
        × (Dict.lookup w.next_player_id after.player_manager.players ≡ none)
  unfolding send_login_success Manager.add_player Manager.remove_player
  login_again_leaks session m s w q e open_now named known other =
      let p = w.next_player_id in
      let v = entered session p (proto.parse_login_req m.body).username w in
      let final : (close session (handle_login proto session m w).1).1.player_manager
          ≡ Manager.remove_player p v.player_manager =
        ap (λ r. (close session r.1).1.player_manager) (login_served session m w named)
        ∙ players-close-send session _ (record s { player_id = p; token = generate_token p }) v
            (lookup-entered session p (proto.parse_login_req m.body).username s w e) open_now in
      (
        ap (λ (pm : PlayerManager). Dict.lookup q pm.players) final
            ∙ ground (
              arith,
              Dict.lookup-remove p q v.player_manager.players,
              Dict.lookup-put p q session w.player_manager.players,
            ),
        ap (λ (pm : PlayerManager). Dict.lookup p pm.players) final
            ∙ ground (arith, Dict.lookup-remove p p v.player_manager.players),
      )
