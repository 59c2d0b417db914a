-- ===== src/Service/Reconnect.antt =====
-- src/service/ReconnectService.h and src/service/ReconnectService.cpp.
pub mod Access
pub mod Lost
pub mod Tokens
use game_server.Prelude.{ℕ, Bytes, Option, none, some, if◌then◌else◌, to_i32, codes, bytes_eq}
use game_server.Prelude.Exec.{Exec, gets, modify, ◌>>=◌, ◌>>◌}
use game_server.Codec.{Message}
use game_server.MessageId
use game_server.Metrics
use game_server.Player.Manager
use game_server.Player.StateManager
use game_server.Player.StateManager.{PlayerRuntimeState, is_offline}
use game_server.Proto.{Proto, ReconnectReq}
use game_server.Room.Manager as RoomManagers
use game_server.Session
use game_server.World.{World, on_metrics, on_rooms, on_session, send, session_at}
use game_server.World.Closing.{add_session}

-- The stores of a successful reconnect, in the code's order, up to the reply.
unfoldable pub restore : ℕ → ℕ → Bytes → Exec World (Unit {0})
restore session player_id token = do
  on_session session (Session.set_player_id player_id)
  on_session session (Session.set_token token)
  modify (λ w. record w { player_manager = Manager.add_player player_id session w.player_manager })
  add_session session
  on_rooms (RoomManagers.mark_player_reconnected player_id)
  modify (λ w. record w {
    player_state_manager = StateManager.mark_online player_id w.player_state_manager;
  })

module _ (proto : Proto) where
  -- The ids of the reply are `int32` fields.
  abbrev pub reconnect_reply : ℕ → ℕ → ℕ → Bytes → Message
  reconnect_reply code player_id room_id message = record {
    msg_id = MessageId.reconnect_resp;
    body =
        proto.reconnect_resp
          (record { code = code; player_id = player_id; room_id = room_id; message = message });
  }

  unfoldable pub send_reconnect_success : ℕ → ℕ → ℕ → Exec World (Unit {0})
  send_reconnect_success session player_id room_id =
      send session (reconnect_reply 0 player_id room_id (codes "reconnect_success"))

  unfoldable pub send_reconnect_failed : ℕ → Bytes → Exec World (Unit {0})
  send_reconnect_failed session reason w =
      send session (reconnect_reply 1 (session_at session w).player_id 0 reason) w

  -- The checks, on the state that was found, and what follows them.
  unfoldable pub try_reconnect :
      ℕ → ReconnectReq → Option PlayerRuntimeState → Exec World (Unit {0})
  unfolding send_reconnect_failed send_reconnect_success restore
  try_reconnect session req none = send_reconnect_failed session (codes "player state not found")
  try_reconnect session req (some state) =
      if bytes_eq state.token req.token
      then (if is_offline state.conn_state
          then (do
            restore session (to_i32 req.player_id) req.token
            send_reconnect_success session (to_i32 req.player_id) state.room_id)
          else send_reconnect_failed session (codes "connection state is not offline"))
      else send_reconnect_failed session (codes "token is not match")

  unfoldable pub handle_reconnect : ℕ → Message → Exec World (Unit {0})
  unfolding try_reconnect
  handle_reconnect session message = do
    on_metrics Metrics.incr_reconnect_req
    let req = proto.parse_reconnect_req message.body
    state ← gets (λ w. StateManager.get_state (to_i32 req.player_id) w.player_state_manager)
    try_reconnect session req state
