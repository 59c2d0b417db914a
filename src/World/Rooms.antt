-- ===== src/World/Rooms.antt =====
-- The methods of src/room/Room.cpp and src/room/RoomManager.cpp that send to the members' sessions.
use game_server.Prelude.{ℕ, List, ◌==◌, Bytes, Option, none, some, if◌then◌else◌, to_i64, map}
use game_server.Prelude.Exec.{Exec, pure, modify, for_each, ◌>>=◌, ◌>>◌}
use game_server.Codec.{Message}
use game_server.MessageId
use game_server.Player.Repository
use game_server.Player.Repository.{PlayerState}
use game_server.Proto.{Proto}
use game_server.Room.{Room}
use game_server.Room.Manager.{open_room}
use game_server.World.{World, send_to_player, on_rooms}

-- `Room::broadcast`
unfoldable pub broadcast : Room → Message → Exec World (Unit {0})
broadcast room msg = for_each room.player_ids (send_to_player msg)

-- `Room::broadcast_except`
unfoldable pub broadcast_except : ℕ → Room → Message → Exec World (Unit {0})
broadcast_except except_player_id room msg =
    for_each room.player_ids
      λ player_id. if player_id == except_player_id then pure tt else send_to_player msg player_id

-- The last loop of `create_room`, for one player.
abbrev pub with_room : ℕ → Option PlayerState → World → World
with_room room_id none w = w
with_room room_id (some state) w = record w {
  player_state_repository =
      Repository.save_player_state (record state { room_id = room_id }) w.player_state_repository;
}

unfoldable pub save_room : ℕ → ℕ → Exec World (Unit {0})
save_room room_id player_id =
    modify
      (λ w. with_room room_id (Repository.load_player_state player_id w.player_state_repository) w)

-- The manager's own part of `create_room`.
unfoldable pub open_in : List ℕ → Exec World ℕ
open_in player_ids = on_rooms (λ m. let (room_id, m') = open_room player_ids m in pure room_id m')

module _ (proto : Proto) where
  -- `Room::handle_chat`
  unfoldable pub handle_chat : Room → ℕ → Bytes → Exec World (Unit {0})
  unfolding broadcast
  handle_chat room player_id text = broadcast room (record {
    msg_id = MessageId.chat_notify;
    body =
        proto.chat_notify
          (record { room_id = to_i64 room.room_id; player_id = to_i64 player_id; text = text });
  })

  abbrev pub room_created : ℕ → List ℕ → Message
  room_created room_id player_ids = record {
    msg_id = MessageId.room_created_notify;
    body =
        proto.room_created_notify
          (record { room_id = to_i64 room_id; players = map (λ p. to_i64 p) player_ids });
  }

  -- `RoomManager::create_room`
  unfoldable pub create_room : List ℕ → Exec World ℕ
  unfolding open_in save_room
  create_room player_ids = do
    room_id ← open_in player_ids
    for_each player_ids (send_to_player (room_created room_id player_ids))
    for_each player_ids (save_room room_id)
    pure room_id
