-- ===== src/Service/Chat.antt =====
-- src/service/ChatService.h and src/service/ChatService.cpp.
pub mod Ends
pub mod Reach
use game_server.Prelude.{ℕ, Bytes, to_i32}
use game_server.Prelude.Exec.{Exec, gets, need, null_room, ◌>>=◌, ◌>>◌}
use game_server.Codec.{Message}
use game_server.MessageId
use game_server.Metrics
use game_server.Proto.{Proto}
use game_server.Room.Manager as RoomManagers
use game_server.Service.Ranking.{add_score}
use game_server.World.{World, on_metrics, send, session_at}
use game_server.World.Rooms as Rooms

module _ (proto : Proto) where
  unfoldable pub send_chat_failed : ℕ → Bytes → Exec World (Unit {0})
  send_chat_failed session reason = send session (record {
    msg_id = MessageId.chat_resp;
    body = proto.chat_resp (record { code = 1; message = reason });
  })

  unfoldable pub handle_chat : ℕ → Message → Exec World (Unit {0})
  handle_chat session message = do
    on_metrics Metrics.incr_chat_req
    let req = proto.parse_chat_req message.body
    let room_id = to_i32 req.room_id
    player_id ← gets (λ w. (session_at session w).player_id)
    add_score player_id 1
    found ← gets (λ w. RoomManagers.get_room room_id w.room_manager)
    room ← need null_room found
    Rooms.handle_chat proto room player_id req.text
