-- ===== src/Conversation/Return.antt =====
-- A connection that is lost, and its client on a new one: src/GameServer.cpp, `do_accept`, with
-- src/service/ReconnectService.cpp and client/ClientSimulator.cpp.
use game_server.Prelude.{
  bytes_eq_refl, subst, ℕ, ◌<◌, ◌≡◌, refl, ap, ◌∙◌, [], List, Bytes, true, false, some, none, arith,
  null, i32_mod, ◌==◌,
}
use game_server.Prelude.Exec.{done}
use game_server.Prelude.Dict
use game_server.Prelude.Dict.{Dict}
use game_server.Codec.{IsSendable, AreBytes}
use game_server.Client.{
  ClientProto, ClientSimulator, duration_send, handle_message, on_reconnect_resp,
}
use game_server.Client.Starting.{reconnect}
use game_server.Client as Clients
use game_server.Client.Reading.{with_input}
use game_server.Player.Repository.{PlayerState}
use game_server.Proto.{Proto}
use game_server.Server.{read_done, start_handlers}
use game_server.Session
use game_server.Session.{Session, given}
use game_server.World.{World, session_at, or_fresh}
use game_server.Player.StateManager.{PlayerRuntimeState}
use game_server.Room.Invariant as Rooms
use game_server.Service.Reconnect.Access.{accepts}
use game_server.Conversation.Reconnect.{request, asked, answer, reply, reconnect_talk}
use game_server.Player.StateManager.{offline}
use game_server.Room.Manager as Places
use game_server.Server.{accept}
use game_server.Service.Reconnect.Lost.{entry_or_new, close_records, close_rooms}
use game_server.World.Closing.{close}

-- The seat that is kept for a player.
abbrev pub kept : ℕ → Bytes → World → PlayerRuntimeState
kept p token w = record {
  player_id = p;
  room_id = Places.get_room_id_by_player p w.room_manager;
  conn_state = offline;
  token = token;
  disconnected_time = w.now;
}

kept_seat :
    (sid p : ℕ) (token : Bytes) (s : Session) (w : World)
    → Dict.lookup sid w.sessions ≡ some s
    → s.closed ≡ false
    → s.player_id ≡ p
    → s.token ≡ token
    → Dict.lookup p w.player_state_manager.states ≡ none
    → Dict.lookup p (close sid w).1.player_state_manager.states ≡ some (kept p token w)
kept_seat sid p token s w there open_now mine held absent =
    let at_session : session_at sid w ≡ s = ap or_fresh there in
    let closed : (session_at sid w).closed ≡ false = rw at_session open_now in
    let id : (session_at sid w).player_id ≡ p = rw at_session mine in
    let tok : (session_at sid w).token ≡ token = rw at_session held in
    subst
      (λ q.
        Dict.lookup q (close sid w).1.player_state_manager.states
        ≡ some
            (record (entry_or_new (Dict.lookup q w.player_state_manager.states) q
              (Places.get_room_id_by_player q w.room_manager) (session_at sid w).token) {
                conn_state = offline;
                disconnected_time = w.now;
              }))
      id (close_records sid w closed)
    ∙ rw (absent, tok) refl

module _ (proto : Proto) (sort : List PlayerState → List PlayerState) (client : ClientProto) where
  -- Where protobuf reads back the two messages, which are within the limits, and the rooms are
  -- consistent: an open connection of a player without a recorded seat closes without a fault,
  -- and when the player's client, which remembers their id, not 0, and the connection's token,
  -- not empty, connects again and sends its reconnect request, the server handles that to its
  -- end. The player is then known under the new connection, which has the token; a further
  -- reconnect for the player, with any token, is not accepted; and at the packet that comes back
  -- the client switches its heartbeat on again and arms its timer.
  pub come_back :
      (gone p now_ms : ℕ) (token other : Bytes) (s : Session) (w : World) (c : ClientSimulator)
      → Dict.lookup gone w.sessions ≡ some s
      → s.closed ≡ false
      → s.player_id ≡ p
      → s.token ≡ token
      → Dict.lookup p w.player_state_manager.states ≡ none
      → Rooms.IsConsistent w.room_manager
      → p < i32_mod
      → c.player_id ≡ p
      → (p == 0) ≡ false
      → c.token ≡ token
      → null token ≡ false
      → IsSendable (asked proto sort client p token)
      → IsSendable (reply proto sort client p (kept p token w).room_id)
      → AreBytes (reply proto sort client p (kept p token w).room_id).body
      → proto.parse_reconnect_req (client.reconnect_req (request proto sort client p token))
        ≡ request proto sort client p token
      → client.parse_reconnect_resp
          (proto.reconnect_resp (answer proto sort client p (kept p token w).room_id))
        ≡ answer proto sort client p (kept p token w).room_id
      → let lost = close gone w in
        let sid = lost.1.next_session in
        let asking = reconnect client c in
        (lost.0 ≡ done tt)
        × (v : World) × (read_done (start_handlers proto sort) sid asking.sent (accept lost.1).1
            ≡ (done tt, v))
        × (Dict.lookup p v.player_manager.players ≡ some sid)
        × ((session_at sid v).token ≡ token)
        × (accepts (Dict.lookup p v.player_state_manager.states) other ≡ false)
        × (Clients.read_done client now_ms (given (session_at sid v).pending_write) asking
            ≡ with_input [] true (duration_send (record asking { heart_beat_enable = true })))
  unfolding accept Session.start Session.do_read Session.update_last_active_time
  come_back gone p now_ms token other s w c there open_now mine held absent rooms int id positive
        remembers some_token asks answers bytes requests replies =
      let lost : World = (close gone w).1 in
      let sid = lost.next_session in
      let (ended, ok) = close_rooms gone w (rw there open_now) rooms in
      let new = Session.start lost.now Session.fresh in
      let put : Dict.lookup sid (Dict.put sid new lost.sessions) ≡ some new =
        ground (arith, Dict.lookup-put sid sid new lost.sessions) in
      let (v, ran, back, same, once, heard) =
        reconnect_talk proto sort client sid p now_ms token other new (kept p token w)
          (accept lost).1 c put (record { open_now = refl; unread = refl; unsent = refl }) ok
          (kept_seat gone p token s w there open_now mine held absent)
          (ground (arith, bytes_eq_refl token)) int id positive remembers some_token asks answers
          bytes requests replies in
      (ended, v, ran, back, same, once, heard)
