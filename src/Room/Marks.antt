-- ===== src/Room/Marks.antt =====
-- The marks and the tick of src/room/RoomManager.cpp, which change rooms in place.
use game_server.Prelude.{
  ℕ, ◌≡◌, refl, ap, ◌∙◌, inl, inr, [], ◌∷◌, some, arith, member, Option-cases, ==-cases,
}
use game_server.Prelude.Exec.{done}
use game_server.Prelude.Dict
use game_server.Prelude.Dict.{Dict}
use game_server.Room
use game_server.Room.{Room}
use game_server.Room.Manager.{
  RoomManager, mark_room, mark_player_disconnected, mark_player_reconnected, tick_rooms, tick_all,
}
use game_server.Room.Invariant.{IsConsistent}

-- A change of a room in place that keeps its members.
put_room-IsConsistent :
    (r : ℕ) (room changed : Room) (m : RoomManager)
    → IsConsistent m
    → Dict.lookup r m.rooms ≡ some room
    → changed.player_ids ≡ room.player_ids
    → IsConsistent (record m { rooms = Dict.put r changed m.rooms })
put_room-IsConsistent r room changed m v there same = record {
  below = λ j room' e.
      ground (arith, Dict.lookup-put r j changed m.rooms, v.below j room', v.below r room);
  placed = λ q j e.
      let (room', there', has) = v.placed q j e in
      elim (==-cases r j) [
        | inl eq ↦
            let one : room ≡ room' = cc (ap (λ k. Dict.lookup k m.rooms) eq) in
            (
              changed,
              ground (arith, Dict.lookup-put r j changed m.rooms),
              ap (member q) (same ∙ ap (λ (x : Room). x.player_ids) one) ∙ has,
            )
        | inr other ↦ (room', ground (arith, Dict.lookup-put r j changed m.rooms), has)
      ];
}

mark_room-IsConsistent :
    (mark : Room → Room) (p : ℕ) (m : RoomManager)
    → ((room : Room) → (mark room).player_ids ≡ room.player_ids)
    → IsConsistent m
    → ((mark_room mark (Dict.lookup p m.player_room_map) m).0 ≡ done tt)
      × IsConsistent (mark_room mark (Dict.lookup p m.player_room_map) m).1
unfolding mark_room
mark_room-IsConsistent mark p m same v = elim (Option-cases (Dict.lookup p m.player_room_map)) [
  | inl e ↦ rw e (refl, v)
  | inr (r, e) ↦
      let (room, there, has) = v.placed p r e in
      rw (e, mark_room, there)
        (refl, put_room-IsConsistent r room (mark room) m v there (same room))
]

-- On consistent maps, marking a player disconnected does not fault, since the room of a placed
-- player is there, and it keeps the maps consistent.
pub mark_player_disconnected-IsConsistent :
    (p : ℕ) (m : RoomManager)
    → IsConsistent m
    → ((mark_player_disconnected p m).0 ≡ done tt) × IsConsistent (mark_player_disconnected p m).1
unfolding mark_player_disconnected Room.mark_player_disconnected
mark_player_disconnected-IsConsistent p m v =
    mark_room-IsConsistent (Room.mark_player_disconnected p) p m (λ room. refl) v

pub mark_player_reconnected-IsConsistent :
    (p : ℕ) (m : RoomManager)
    → IsConsistent m
    → ((mark_player_reconnected p m).0 ≡ done tt) × IsConsistent (mark_player_reconnected p m).1
unfolding mark_player_reconnected Room.mark_player_online
mark_player_reconnected-IsConsistent p m v =
    mark_room-IsConsistent (Room.mark_player_online p) p m (λ room. refl) v

lookup-tick_rooms :
    (rooms : Dict Room) (r : ℕ)
    → Dict.lookup r (tick_rooms rooms)
      ≡ Dict.over (λ room. (Room.tick room).0) (Dict.lookup r rooms)
unfolding tick_rooms Dict.lookup
lookup-tick_rooms [] r = refl
lookup-tick_rooms ((k, room) ∷ rooms) r = ground (arith, lookup-tick_rooms rooms r)

players-tick : (room : Room) → (Room.tick room).0.player_ids ≡ room.player_ids
unfolding Room.tick
players-tick room = ground arith

pub tick_all-IsConsistent : (m : RoomManager) → IsConsistent m → IsConsistent (tick_all m)
unfolding tick_all
tick_all-IsConsistent m v = record {
  below = λ r room e. elim (Option-cases (Dict.lookup r m.rooms)) [
    | inl none_there ↦ cc (lookup-tick_rooms m.rooms r, none_there)
    | inr (old, there) ↦ v.below r old there
  ];
  placed = λ p r e.
      let (room, there, has) = v.placed p r e in
      (
        (Room.tick room).0,
        lookup-tick_rooms m.rooms r ∙ ap (Dict.over (λ (x : Room). (Room.tick x).0)) there,
        ap (member p) (players-tick room) ∙ has,
      );
}
