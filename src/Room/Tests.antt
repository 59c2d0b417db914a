-- ===== src/Room/Tests.antt =====
-- Runs of the room manager, and its theorems at concrete inputs.
use game_server.Prelude.{◌<◌, ◌≡◌, refl, [], ◌∷◌, none, some, arith, member}
use game_server.Prelude.Exec.{done}
use game_server.Prelude.Dict
use game_server.Room.Manager.{RoomManager, initial, open_room, remove_player}
use game_server.Room.Invariant.{
  IsConsistent, Hosts, open_room-IsConsistent, remove_player-IsConsistent,
}
use game_server.Room.Rematch.{removed_player_stays}

initial-IsConsistent : IsConsistent initial
initial-IsConsistent = record {
  below = Dict.Every-empty (λ r room. r < 1);
  placed = Dict.Every-empty (λ p r. Hosts Dict.empty p r);
}

-- Players 7 and 8 are in room 1.
abbrev paired : RoomManager
paired = (open_room (7 ∷ 8 ∷ []) initial).1

paired-IsConsistent : IsConsistent paired
paired-IsConsistent = open_room-IsConsistent (7 ∷ 8 ∷ []) initial initial-IsConsistent (omega arith)

paired_7 : Dict.lookup 7 paired.player_room_map ≡ some 1
unfolding open_room Dict.lookup Dict.insert Dict.contains Dict.put
paired_7 = refl

remove_player-IsConsistent_example : (remove_player 7 paired).0 ≡ done tt
remove_player-IsConsistent_example = (remove_player-IsConsistent 7 paired paired-IsConsistent).0

removed_player_stays_example :
    Dict.lookup 7 (remove_player 7 (open_room (7 ∷ 9 ∷ []) paired).1).1.player_room_map ≡ none
unfolding member open_room
removed_player_stays_example =
    (removed_player_stays (7 ∷ 9 ∷ []) paired 7 1 paired-IsConsistent (omega arith) paired_7 refl).0
