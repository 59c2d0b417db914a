-- ===== src/Room/Rematch.antt =====
-- A player who is in a room is matched again: src/room/RoomManager.cpp, `create_room` inserts into
-- `player_room_map_`, which keeps the entry that is there.
use game_server.Prelude.{ℕ, ◌+◌, ◌<◌, ◌≡◌, ◌≢◌, List, true, none, some, arith, i32_mod, member}
use game_server.Prelude.Dict
use game_server.Room
use game_server.Room.Manager.{RoomManager, open_room, remove_player}
use game_server.Room.Invariant.{
  IsConsistent, Hosts, rooms-open_room, map-open_room, remove_player_present, rooms-take_out,
  map-take_out, open_room-IsConsistent,
}

-- On consistent maps, opening a room for a player who has one leaves the player map at the old
-- room, while the new room, another one, lists the player.
pub open_room_splits :
    (ids : List ℕ) (m : RoomManager) (p r : ℕ)
    → IsConsistent m
    → Dict.lookup p m.player_room_map ≡ some r
    → member p ids ≡ true
    → (Dict.lookup p (open_room ids m).1.player_room_map ≡ some r)
      × Hosts (open_room ids m).1.rooms p m.next_room_id
      × (r ≢ m.next_room_id)
unfolding Room.new_room
open_room_splits ids m p r v e has =
    let (room, there, _) = v.placed p r e in
    (
      ground (arith, map-open_room ids m p),
      (
        Room.new_room m.next_room_id ids,
        ground (arith, rooms-open_room ids m m.next_room_id v),
        has,
      ),
      λ same. absurd (omega (arith, v.below r room there)),
    )

-- On consistent maps and while the room ids have not wrapped, when a player who is in a room is
-- put in a new one and later removed, the new room still lists the player while the player map
-- does not know them.
pub removed_player_stays :
    (ids : List ℕ) (m : RoomManager) (p r : ℕ)
    → IsConsistent m
    → m.next_room_id + 1 < i32_mod
    → Dict.lookup p m.player_room_map ≡ some r
    → member p ids ≡ true
    → let after = (remove_player p (open_room ids m).1).1 in
      (Dict.lookup p after.player_room_map ≡ none) × Hosts after.rooms p m.next_room_id
removed_player_stays ids m p r v fits e has =
    let v' = open_room-IsConsistent ids m v fits in
    let (mapped, (new, new_there, new_has), differ) = open_room_splits ids m p r v e has in
    let (old, old_there, _) = v'.placed p r mapped in
    rw (remove_player_present p r old (open_room ids m).1 mapped old_there) (
      ground (arith, map-take_out p r old (open_room ids m).1 p),
      (
        new,
        ground (arith, rooms-take_out p r old (open_room ids m).1 m.next_room_id, differ),
        new_has,
      ),
    )
