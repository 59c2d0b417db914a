-- ===== src/Service/Login.antt =====
-- src/service/LoginService.h and src/service/LoginService.cpp.
pub mod Entry
mod Tests
use game_server.Prelude.{
  ℕ, ◌++◌, Bytes, true, null, if◌then◌else◌, inc_i32, to_i64, minus_one, codes, to_string,
}
use game_server.Prelude.Exec.{Exec, gets, modify, ◌>>=◌, ◌>>◌}
use game_server.Codec.{Message}
use game_server.MessageId
use game_server.Metrics
use game_server.Player.Manager
use game_server.Player.Repository
use game_server.Player.Repository.{PlayerState}
use game_server.Proto.{Proto}
use game_server.Session
use game_server.World.{World, on_metrics, on_session, send}
use game_server.World.Closing.{add_session}

-- `next_player_id_++`
unfoldable pub generate_player_id : Exec World ℕ
generate_player_id = do
  player_id ← gets (λ w. w.next_player_id)
  modify (λ w. record w { next_player_id = inc_i32 player_id })
  gets (λ _. player_id)

-- Kept from the first version; nothing calls it.
unfoldable pub parse_username : Message → Bytes
parse_username message = message.body

unfoldable pub generate_token : ℕ → Bytes
generate_token player_id = codes "token_" ++ to_string player_id

abbrev pub new_player : ℕ → Bytes → ℕ → PlayerState
new_player player_id username login_time_ms = record {
  player_id = player_id;
  name = username;
  score = 0;
  online = true;
  room_id = minus_one;
  last_login_time_ms = login_time_ms;
  last_logout_time_ms = 0;
}

-- The stores of a successful login, in the code's order, up to the reply.
unfoldable pub enter : ℕ → ℕ → Bytes → Exec World (Unit {0})
enter session player_id username = do
  on_session session (Session.set_player_id player_id)
  on_session session (Session.set_token (generate_token player_id))
  modify (λ w. record w { player_manager = Manager.add_player player_id session w.player_manager })
  add_session session
  modify (λ w. record w {
    player_state_repository =
        Repository.save_player_state (new_player player_id username w.wall_ms)
          w.player_state_repository;
  })

module _ (proto : Proto) where
  unfoldable pub send_login_success : ℕ → ℕ → Bytes → Exec World (Unit {0})
  send_login_success session player_id token = send session (record {
    msg_id = MessageId.login_resp;
    body = proto.login_resp (record {
      code = 0;
      player_id = to_i64 player_id;
      message = codes "login_success";
      token = token;
    });
  })

  -- The reason is not sent.
  unfoldable pub send_login_failed : ℕ → Bytes → Exec World (Unit {0})
  send_login_failed session reason = send session (record {
    msg_id = MessageId.login_resp;
    body =
        proto.login_resp
          (record { code = 1; player_id = 0; message = codes "login_failed"; token = codes "" });
  })

  unfoldable pub handle_login : ℕ → Message → Exec World (Unit {0})
  unfolding send_login_success send_login_failed enter generate_player_id
  handle_login session message =
      let username = (proto.parse_login_req message.body).username in
      on_metrics Metrics.incr_login_req
      >> (if null username then send_login_failed session (codes "username is empty") else do
        player_id ← generate_player_id
        enter session player_id username
        send_login_success session player_id (generate_token player_id))
