-- ===== src/Conversation/Reconnect.antt =====
-- The talk of a reconnect: client/ClientSimulator.cpp and src/service/ReconnectService.cpp.
use game_server.Prelude.{
  ℕ, ◌<◌, ◌≡◌, refl, ◌∙◌, [], List, Bytes, true, false, some, null, codes, to_i64, i32_mod, ◌==◌,
}
use game_server.Prelude.Exec.{done}
use game_server.Prelude.Dict
use game_server.Prelude.Dict.{Dict}
use game_server.Codec.{Message, encode, IsSendable, AreBytes}
use game_server.Client.{
  ClientProto, ClientSimulator, duration_send, handle_message, on_reconnect_resp,
}
use game_server.Client.Starting.{reconnect}
use game_server.Client as Clients
use game_server.Client.Reading.{with_input}
use game_server.Dispatcher.{register_handler, handler_of}
use game_server.MessageId
use game_server.Player.Manager
use game_server.Player.Repository.{PlayerState}
use game_server.Proto.{Proto, ReconnectReq, ReconnectResp}
use game_server.Server.{dispatch, take_packet, read_done, start_handlers}
use game_server.Session
use game_server.Session.{Session, given}
use game_server.World.{World, send, session_at}
use game_server.Conversation.{
  IsNew, received, modify_there, lookup-send, lookup-noted, one_read, one_reply, int_wide,
}
use game_server.Player.StateManager.{PlayerRuntimeState}
use game_server.Room.Invariant as Rooms
use game_server.Server.Steady.{noted}
use game_server.Service.Reconnect.{handle_reconnect, reconnect_reply}
use game_server.Service.Reconnect.Access.{
  accepts, restored, counted, reconnect_accepts, restored_lem,
}

module _ (proto : Proto) (sort : List PlayerState → List PlayerState) (client : ClientProto) where
  reconnect_handler :
      Dict.lookup MessageId.reconnect_req (start_handlers proto sort)
      ≡ some (handle_reconnect proto)
  unfolding start_handlers register_handler Dict.put Dict.lookup
  reconnect_handler = refl

  -- What the client asks for.
  abbrev pub request : ℕ → Bytes → ReconnectReq
  request p token = record { player_id = to_i64 p; token = token }

  abbrev pub asked : ℕ → Bytes → Message
  asked p token = record {
    msg_id = MessageId.reconnect_req;
    body = client.reconnect_req (request p token);
  }

  abbrev pub answer : ℕ → ℕ → ReconnectResp
  answer p room_id = record {
    code = 0;
    player_id = p;
    room_id = room_id;
    message = codes "reconnect_success";
  }

  abbrev pub reply : ℕ → ℕ → Message
  reply p room_id = reconnect_reply proto 0 p room_id (codes "reconnect_success")

  -- The session that has got its player back.
  abbrev named : ℕ → Bytes → ℕ → Session → Session
  named p token now s = record s {
    recv_buffer = [];
    reading = false;
    last_active_time = now;
    player_id = p;
    token = token;
  }

  lookup-restored :
      (sid p : ℕ) (token bytes : Bytes) (s : Session) (w : World)
      → Dict.lookup sid w.sessions ≡ some s
      → Dict.lookup sid
          (restored sid p token (counted (noted sid [] (received sid bytes w)))).sessions
        ≡ some (named p token w.now s)
  unfolding Session.set_player_id Session.set_token
  lookup-restored sid p token bytes s w e =
      modify_there (Session.set_token token) sid _ _
        (modify_there (Session.set_player_id p) sid _ _ (lookup-noted sid bytes s w e))

  -- A request that is handed over and accepted.
  reconnect_taken :
      (sid p : ℕ) (token : Bytes) (seat : PlayerRuntimeState) (w : World)
      → p < i32_mod
      → Rooms.IsConsistent w.room_manager
      → Dict.lookup p w.player_state_manager.states ≡ some seat
      → accepts (some seat) token ≡ true
      → proto.parse_reconnect_req (asked p token).body ≡ request p token
      → take_packet (start_handlers proto sort) sid [] (asked p token) w ≡ (
        done tt,
        (send sid (reply p seat.room_id) (restored sid p token (counted (noted sid [] w)))).1,
      )
  unfolding take_packet dispatch handler_of send
  reconnect_taken sid p token seat w int rooms e yes_ agree = rw reconnect_handler (
      reconnect_accepts proto sid (asked p token) (noted sid [] w) seat rooms
        (rw (agree, int_wide p int) e) (rw agree yes_)
      ∙ rw (agree, int_wide p int) refl)

  -- A client that reconnects on a new connection, where its player is recorded with its token and as
  -- offline and protobuf reads back the two messages, which are within the limits: the server gives
  -- the player to that connection, and at the reply the client goes on with its heartbeat.
  pub reconnect_talk :
      (sid p now_ms : ℕ) (token other : Bytes) (s : Session) (seat : PlayerRuntimeState) (w : World)
      (c : ClientSimulator)
      → Dict.lookup sid w.sessions ≡ some s
      → IsNew s
      → Rooms.IsConsistent w.room_manager
      → Dict.lookup p w.player_state_manager.states ≡ some seat
      → accepts (some seat) token ≡ true
      → p < i32_mod
      → c.player_id ≡ p
      → (p == 0) ≡ false
      → c.token ≡ token
      → null token ≡ false
      → IsSendable (asked p token)
      → IsSendable (reply p seat.room_id)
      → AreBytes (reply p seat.room_id).body
      → proto.parse_reconnect_req (client.reconnect_req (request p token)) ≡ request p token
      → client.parse_reconnect_resp (proto.reconnect_resp (answer p seat.room_id))
        ≡ answer p seat.room_id
      → let asking = reconnect client c in
        (v : World) × (read_done (start_handlers proto sort) sid asking.sent w ≡ (done tt, v))
        × (Dict.lookup p v.player_manager.players ≡ some sid)
        × ((session_at sid v).token ≡ token)
        × (accepts (Dict.lookup p v.player_state_manager.states) other ≡ false)
        × (Clients.read_done client now_ms (given (session_at sid v).pending_write) asking
            ≡ with_input [] true (duration_send (record asking { heart_beat_enable = true })))
  unfolding reconnect Manager.add_player send handle_message on_reconnect_resp Clients.do_read
  reconnect_talk sid p now_ms token other s seat w c e new rooms known yes_ int mine positive held
        some_token asks answers bytes requests replies =
      let m = asked p token in
      let x : World = restored sid p token (counted (noted sid [] (received sid (encode m) w))) in
      let there : Dict.lookup sid x.sessions ≡ some (named p token w.now s) =
        lookup-restored sid p token (encode m) s w e in
      let sent_ =
        lookup-send sid (reply p seat.room_id) _ x there
          (record { open_now = new.open_now; unread = refl; unsent = new.unsent }) in
      let (v, ran, now, players, states) =
        one_read (start_handlers proto sort) sid m s _ w _ e new asks
          (reconnect_taken sid p token seat (received sid (encode m) w) int rooms known yes_
            requests)
          sent_ refl new.open_now in
      let (back, _, once) =
        restored_lem sid p token other (counted (noted sid [] (received sid (encode m) w))) in
      (
        v,
        rw (mine, positive, held, some_token) ran,
        rw players back,
        rw now refl,
        rw states once,
        rw (now, mine, positive, held, some_token)
            (one_reply client (reply p seat.room_id) now_ms _ answers bytes refl ∙ rw replies refl),
      )
