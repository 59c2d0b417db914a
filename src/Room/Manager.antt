-- ===== src/Room/Manager.antt =====
-- src/room/RoomManager.h and src/room/RoomManager.cpp: the rooms, and who is in which. The sends and
-- the repository writes of `create_room` are in World.Rooms. No entry of `rooms` is a null pointer:
-- only `rooms_[id]` at a missing id makes one, and the call through it comes next, a fault here.
-- `opened` is not in the code: it counts the ids that were given out, which wrap after 2 ^ 32.
use game_server.Prelude.{
  ℕ, ◌+◌, List, [], ◌∷◌, Bool, Option, none, some, length, ◌==◌, if◌then◌else◌, inc_i32, minus_one,
}
use game_server.Prelude.Exec.{Exec, pure, need, modify, null_room, ◌>>=◌}
use game_server.Prelude.Dict
use game_server.Prelude.Dict.{Dict}
use game_server.Room
use game_server.Room.{Room}

pub record RoomManager : Type 0 where
  pub next_room_id : ℕ
  pub opened : ℕ
  pub rooms : Dict Room
  pub player_room_map : Dict ℕ

abbrev pub initial : RoomManager
initial = record { next_room_id = 1; opened = 0; rooms = Dict.empty; player_room_map = Dict.empty }

-- `next_room_id_++`: the old value, and the manager after.
unfoldable pub generate_room_id : RoomManager → ℕ × RoomManager
generate_room_id m =
    (m.next_room_id, record m { next_room_id = inc_i32 m.next_room_id; opened = m.opened + 1 })

unfoldable pub get_room : ℕ → RoomManager → Option Room
get_room room_id m = Dict.lookup room_id m.rooms

abbrev or_minus_one : Option ℕ → ℕ
or_minus_one none = minus_one
or_minus_one (some room_id) = room_id

unfoldable pub get_room_id_by_player : ℕ → RoomManager → ℕ
get_room_id_by_player player_id m = or_minus_one (Dict.lookup player_id m.player_room_map)

unfoldable pub get_room_by_player : ℕ → RoomManager → Option Room
unfolding get_room_id_by_player get_room
get_room_by_player player_id m =
    if Dict.contains player_id m.player_room_map
    then get_room (get_room_id_by_player player_id m) m
    else none

unfoldable pub is_player_in_room : ℕ → RoomManager → Bool
is_player_in_room player_id m = Dict.contains player_id m.player_room_map

unfoldable pub room_count : RoomManager → ℕ
room_count m = length m.rooms

unfoldable pub drop_players_of : ℕ → Dict ℕ → Dict ℕ
drop_players_of room_id [] = []
drop_players_of room_id ((player_id, r) ∷ rest) =
    let others = drop_players_of room_id rest in
    if r == room_id then others else (player_id, r) ∷ others

unfoldable pub remove_room : ℕ → RoomManager → RoomManager
unfolding drop_players_of
remove_room room_id m = record m {
  rooms = Dict.remove room_id m.rooms;
  player_room_map = drop_players_of room_id m.player_room_map;
}

unfoldable pub tick_rooms : Dict Room → Dict Room
tick_rooms [] = []
tick_rooms ((id, room) ∷ rest) = (id, (Room.tick room).0) ∷ tick_rooms rest

unfoldable pub tick_all : RoomManager → RoomManager
unfolding tick_rooms
tick_all m = record m { rooms = tick_rooms m.rooms }

-- The loop `player_room_map_.insert({player_id, room_id})`.
unfoldable pub insert_players : ℕ → List ℕ → Dict ℕ → Dict ℕ
insert_players room_id [] m = m
insert_players room_id (player_id ∷ ids) m =
    insert_players room_id ids (Dict.insert player_id room_id m)

-- The part of `create_room` that is the manager's own: its new room's id, and the manager after.
unfoldable pub open_room : List ℕ → RoomManager → ℕ × RoomManager
unfolding insert_players generate_room_id
open_room player_ids m =
    let (room_id, m') = generate_room_id m in
    (
      room_id,
      record m' {
        rooms = Dict.insert room_id (Room.new_room room_id player_ids) m'.rooms;
        player_room_map = insert_players room_id player_ids m'.player_room_map;
      },
    )

-- The rest of `remove_player` once the room is found: `room` is shared with `rooms_`.
unfoldable pub take_out : ℕ → ℕ → Room → RoomManager → RoomManager
take_out player_id room_id room m =
    let left = Room.remove_player player_id room in
    let erased = Dict.remove player_id m.player_room_map in
    if Room.player_count left == 0
    then record m { rooms = Dict.remove room_id m.rooms; player_room_map = erased }
    else record m { rooms = Dict.put room_id left m.rooms; player_room_map = erased }

unfoldable pub remove_player : ℕ → Exec RoomManager (Unit {0})
unfolding take_out get_room_id_by_player get_room
remove_player player_id m =
    let room_id = get_room_id_by_player player_id m in
    if Dict.contains player_id m.player_room_map
    then (do room ← need null_room (get_room room_id m); modify (take_out player_id room_id room)) m
    else pure tt m

-- Both marks: the player's room, if there is one, is changed in place.
unfoldable pub mark_room : (Room → Room) → Option ℕ → Exec RoomManager (Unit {0})
mark_room mark none m = pure tt m
mark_room mark (some room_id) m =
    (do
      room ← need null_room (Dict.lookup room_id m.rooms)
      modify (λ m. record m { rooms = Dict.put room_id (mark room) m.rooms }))
      m

unfoldable pub mark_player_disconnected : ℕ → Exec RoomManager (Unit {0})
unfolding mark_room
mark_player_disconnected player_id m =
    mark_room (Room.mark_player_disconnected player_id) (Dict.lookup player_id m.player_room_map) m

unfoldable pub mark_player_reconnected : ℕ → Exec RoomManager (Unit {0})
unfolding mark_room
mark_player_reconnected player_id m =
    mark_room (Room.mark_player_online player_id) (Dict.lookup player_id m.player_room_map) m
