-- ===== src/Conversation/Login.antt =====
-- The talk of a login: client/ClientSimulator.cpp and src/service/LoginService.cpp.
use game_server.Prelude.{
  ℕ, ◌<◌, ◌≡◌, refl, ◌∙◌, [], List, Bytes, true, false, some, arith, codes, to_i64, i32_mod,
}
use game_server.Prelude.Exec.{done}
use game_server.Prelude.Dict
use game_server.Prelude.Dict.{Dict}
use game_server.Codec.{Message, encode, IsSendable, AreBytes}
use game_server.Client.{
  ClientProto, ClientSimulator, login, login_message, request_match, handle_message, on_login_resp,
}
use game_server.Client as Clients
use game_server.Client.Reading.{with_input}
use game_server.Dispatcher.{register_handler, handler_of}
use game_server.MessageId
use game_server.Player.Manager
use game_server.Player.Repository.{PlayerState}
use game_server.Proto.{Proto, LoginReq, LoginResp}
use game_server.Server.{dispatch, take_packet, read_done, start_handlers}
use game_server.Server.Steady.{noted}
use game_server.Service.Login.{generate_token, handle_login, send_login_success}
use game_server.Service.Login.Entry.{entered, login_served}
use game_server.Session
use game_server.Session.{Session, given}
use game_server.World.{World, send, session_at}
use game_server.Conversation.{
  IsNew, received, modify_there, lookup-send, lookup-noted, one_read, one_reply, int_wide,
}

module _ (proto : Proto) (sort : List PlayerState → List PlayerState) (client : ClientProto) where
  login_handler :
      Dict.lookup MessageId.login_req (start_handlers proto sort) ≡ some (handle_login proto)
  unfolding start_handlers register_handler Dict.put Dict.lookup
  login_handler = refl

  -- What the client asks for.
  abbrev pub request : LoginReq
  request = record { username = codes "player" }

  abbrev pub answer : ℕ → LoginResp
  answer p = record {
    code = 0;
    player_id = to_i64 p;
    message = codes "login_success";
    token = generate_token p;
  }

  abbrev pub reply : ℕ → Message
  reply p = record { msg_id = MessageId.login_resp; body = proto.login_resp (answer p) }

  -- The session that has logged in.
  abbrev named : ℕ → ℕ → Session → Session
  named p now s = record s {
    recv_buffer = [];
    reading = false;
    last_active_time = now;
    player_id = p;
    token = generate_token p;
  }

  lookup-entered :
      (sid p : ℕ) (bytes name : Bytes) (s : Session) (w : World)
      → Dict.lookup sid w.sessions ≡ some s
      → Dict.lookup sid (entered sid p name (noted sid [] (received sid bytes w))).sessions
        ≡ some (named p w.now s)
  unfolding Session.set_player_id Session.set_token
  lookup-entered sid p bytes name s w e =
      modify_there (Session.set_token (generate_token p)) sid _ _
        (modify_there (Session.set_player_id p) sid _ _ (lookup-noted sid bytes s w e))

  -- A login that is handed over.
  login_taken :
      (sid : ℕ) (w : World)
      → proto.parse_login_req (login_message client).body ≡ request
      → take_packet (start_handlers proto sort) sid [] (login_message client) w ≡ (
        done tt,
        (send sid
            (reply w.next_player_id)
            (entered sid w.next_player_id request.username (noted sid [] w))).1,
      )
  unfolding take_packet dispatch handler_of send send_login_success
  login_taken sid w e =
      rw login_handler
        (login_served proto sid (login_message client) (noted sid [] w) (rw e refl) ∙ rw e refl)

  -- Where protobuf reads back the two messages, which are within the limits: a client's login on
  -- a new connection, with nothing sent or unread at either end, is handled by the server to its
  -- end and without a fault, whatever else the server holds. The player with the next id is then
  -- known under that connection, which has the id and its token, and from the one packet that the
  -- connection is writing the client takes the same id and token and goes on to ask for a match.
  pub login_talk :
      (sid p now_ms : ℕ) (s : Session) (w : World) (c : ClientSimulator)
      → Dict.lookup sid w.sessions ≡ some s
      → IsNew s
      → w.next_player_id ≡ p
      → p < i32_mod
      → c.sent ≡ []
      → c.recv_buffer ≡ []
      → IsSendable (login_message client)
      → IsSendable (reply p)
      → AreBytes (reply p).body
      → proto.parse_login_req (client.login_req request) ≡ request
      → client.parse_login_resp (proto.login_resp (answer p)) ≡ answer p
      → let asking = login client c in
        (v : World) × (read_done (start_handlers proto sort) sid asking.sent w ≡ (done tt, v))
        × (Dict.lookup p v.player_manager.players ≡ some sid)
        × ((session_at sid v).player_id ≡ p)
        × ((session_at sid v).token ≡ generate_token p)
        × (Clients.read_done client now_ms (given (session_at sid v).pending_write) asking
            ≡ with_input [] true
                (request_match client (record asking { player_id = p; token = generate_token p })))
  unfolding login Manager.add_player send handle_message on_login_resp
  login_talk sid p now_ms s w c e new next int unsent unheard asks answers bytes requests replies =
      let m = login_message client in
      let x : World =
        entered sid w.next_player_id request.username (noted sid [] (received sid (encode m) w)) in
      let there : Dict.lookup sid x.sessions ≡ some (named w.next_player_id w.now s) =
        lookup-entered sid w.next_player_id (encode m) request.username s w e in
      let sent_ =
        lookup-send sid (reply w.next_player_id) _ x there
          (record { open_now = new.open_now; unread = refl; unsent = new.unsent }) in
      let (v, ran, mine, players, _) =
        one_read (start_handlers proto sort) sid m s _ w _ e new asks
          (login_taken sid (received sid (encode m) w) requests) sent_ refl new.open_now in
      (
        v,
        rw unsent ran,
        rw (players, next) (ground (arith, Dict.lookup-put p p sid w.player_manager.players)),
        rw (mine, next) refl,
        rw (mine, next) refl,
        rw (mine, next)
            (one_reply client (reply p) now_ms (login client c) answers bytes unheard
              ∙ rw (replies, int_wide p int) refl),
      )
