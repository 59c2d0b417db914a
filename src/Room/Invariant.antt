-- ===== src/Room/Invariant.antt =====
-- Consistency of the two maps of src/room/RoomManager.cpp: whether everyone whom `player_room_map_`
-- places is a member of a room that is there.
use game_server.Prelude.{
  ℕ, ◌+◌, ◌<◌, ◌≡◌, refl, ap, ◌∙◌, inl, inr, List, [], ◌∷◌, true, false, Option, none, some, length,
  ◌==◌, if◌then◌else◌, arith, i32_mod, member, erase_first, member-erase_first_ne, Option-cases,
  ==-cases,
}
use game_server.Prelude.Exec.{done}
use game_server.Prelude.Dict
use game_server.Prelude.Dict.{Dict}
use game_server.Room
use game_server.Room.{Room}
use game_server.Room.Manager.{RoomManager, insert_players, open_room, take_out, remove_player}

-- A room that is there and has the player.
abbrev pub Hosts : Dict Room → ℕ → ℕ → Type 0
Hosts rooms p r =
    (room : Room) × (Dict.lookup r rooms ≡ some room) × (member p room.player_ids ≡ true)

pub record IsConsistent (m : RoomManager) : Type 0 where
  pub below : (r : ℕ) (room : Room) → Dict.lookup r m.rooms ≡ some room → r < m.next_room_id
  pub placed : (p r : ℕ) → Dict.lookup p m.player_room_map ≡ some r → Hosts m.rooms p r

next_absent : (m : RoomManager) → IsConsistent m → Dict.lookup m.next_room_id m.rooms ≡ none
next_absent m v = elim (Option-cases (Dict.lookup m.next_room_id m.rooms)) [
  | inl e ↦ e
  | inr (room, e) ↦ absurd (omega (arith, v.below m.next_room_id room e))
]

abbrev pub first {ℓ} : {A : Type ℓ} → Option A → Option A → Option A
first none d = d
first (some a) d = some a

-- Who is in a room already stays there; the others are placed in the new one.
pub lookup-insert_players :
    (r : ℕ) (ids : List ℕ) (m : Dict ℕ) (j : ℕ)
    → Dict.lookup j (insert_players r ids m)
      ≡ first (Dict.lookup j m) (if member j ids then some r else none)
unfolding insert_players member
lookup-insert_players r [] m j = ground arith
lookup-insert_players r (p ∷ ids) m j = ground (
  arith,
  lookup-insert_players r ids (Dict.insert p r m) j,
  Dict.lookup-insert p j r m,
  Dict.contains-eq p m,
)

pub rooms-open_room :
    (ids : List ℕ) (m : RoomManager) (r : ℕ)
    → IsConsistent m
    → Dict.lookup r (open_room ids m).1.rooms ≡ (
        if m.next_room_id == r
        then some (Room.new_room m.next_room_id ids)
        else Dict.lookup r m.rooms)
unfolding open_room
rooms-open_room ids m r v = Dict.insert_new m.next_room_id r _ m.rooms (next_absent m v)

pub map-open_room :
    (ids : List ℕ) (m : RoomManager) (p : ℕ)
    → Dict.lookup p (open_room ids m).1.player_room_map
      ≡ first (Dict.lookup p m.player_room_map) (if member p ids then some m.next_room_id else none)
unfolding open_room
map-open_room ids m p = lookup-insert_players m.next_room_id ids m.player_room_map p

pub next-open_room :
    (ids : List ℕ) (m : RoomManager)
    → m.next_room_id + 1 < i32_mod
    → (open_room ids m).1.next_room_id ≡ m.next_room_id + 1
unfolding open_room
next-open_room ids m h = omega arith

placed-open_room :
    (ids : List ℕ) (m : RoomManager)
    → IsConsistent m
    → (p r : ℕ) → Dict.lookup p (open_room ids m).1.player_room_map ≡ some r
    → Hosts (open_room ids m).1.rooms p r
unfolding Room.new_room
placed-open_room ids m v p r h = elim (Option-cases (Dict.lookup p m.player_room_map)) [
  | inl e ↦ (
    Room.new_room m.next_room_id ids,
    ground (arith, rooms-open_room ids m r v, map-open_room ids m p),
    ground (arith, map-open_room ids m p),
  )
  | inr (r0, e) ↦
      let r0_r : r0 ≡ r = ground (arith, map-open_room ids m p) in
      let (room, there, has) = v.placed p r (e ∙ ap some r0_r) in
      (room, ground (arith, rooms-open_room ids m r v, v.below r room), has)
]

below-open_room :
    (ids : List ℕ) (m : RoomManager)
    → IsConsistent m
    → m.next_room_id + 1 < i32_mod
    → (r : ℕ) (room : Room) → Dict.lookup r (open_room ids m).1.rooms ≡ some room
    → r < (open_room ids m).1.next_room_id
below-open_room ids m v h r room e =
    ground (arith, rooms-open_room ids m r v, next-open_room ids m h, v.below r room)

-- Opening a room keeps consistent maps consistent, while the room ids have not wrapped.
pub open_room-IsConsistent :
    (ids : List ℕ) (m : RoomManager)
    → IsConsistent m
    → m.next_room_id + 1 < i32_mod
    → IsConsistent (open_room ids m).1
open_room-IsConsistent ids m v h = record {
  below = below-open_room ids m v h;
  placed = placed-open_room ids m v;
}

-- `take_out` of a placed player, for the rooms and for the players.
pub rooms-take_out :
    (p r : ℕ) (room : Room) (m : RoomManager) (j : ℕ)
    → Dict.lookup j (take_out p r room m).rooms ≡ (
        if r == j
        then (if length (erase_first p room.player_ids) == 0
            then none
            else some (Room.remove_player p room))
        else Dict.lookup j m.rooms)
unfolding take_out Room.player_count Room.remove_player
rooms-take_out p r room m j = ground (
  arith,
  Dict.lookup-remove r j m.rooms,
  Dict.lookup-put r j (record room { player_ids = erase_first p room.player_ids }) m.rooms,
)

pub map-take_out :
    (p r : ℕ) (room : Room) (m : RoomManager) (j : ℕ)
    → Dict.lookup j (take_out p r room m).player_room_map
      ≡ (if p == j then none else Dict.lookup j m.player_room_map)
unfolding take_out
map-take_out p r room m j = ground (arith, Dict.lookup-remove p j m.player_room_map)

next-take_out :
    (p r : ℕ) (room : Room) (m : RoomManager) → (take_out p r room m).next_room_id ≡ m.next_room_id
unfolding take_out
next-take_out p r room m = ground arith

nonempty_of_member : (a : ℕ) (xs : List ℕ) → member a xs ≡ true → (length xs == 0) ≡ false
unfolding member
nonempty_of_member a [] h = cc
nonempty_of_member a (x ∷ xs) h = ground arith

take_out-IsConsistent :
    (p r : ℕ) (room : Room) (m : RoomManager)
    → IsConsistent m
    → Dict.lookup r m.rooms ≡ some room
    → IsConsistent (take_out p r room m)
unfolding Room.remove_player
take_out-IsConsistent p r room m v there = record {
  below = λ j room' e. ground (
    arith,
    rooms-take_out p r room m j,
    next-take_out p r room m,
    v.below j room',
    v.below r room,
  );
  placed = λ q j e.
      let q_ne : (p == q) ≡ false = ground (arith, map-take_out p r room m q) in
      let (room', there', has) = v.placed q j (ground (arith, map-take_out p r room m q)) in
      elim (==-cases r j) [
        | inl same ↦
            let one : room ≡ room' = cc (ap (λ k. Dict.lookup k m.rooms) same) in
            let kept : member q (erase_first p room.player_ids) ≡ true =
              member-erase_first_ne p q room.player_ids q_ne
              ∙ ap (λ (x : Room). member q x.player_ids) one
              ∙ has in
            (
              Room.remove_player p room,
              ground (
                arith,
                rooms-take_out p r room m j,
                nonempty_of_member q (erase_first p room.player_ids) kept,
              ),
              kept,
            )
        | inr other ↦ (room', ground (arith, rooms-take_out p r room m j), has)
      ];
}

-- What `remove_player` does to a player who is in no room, and to one who is.
remove_player_absent :
    (p : ℕ) (m : RoomManager)
    → Dict.lookup p m.player_room_map ≡ none
    → remove_player p m ≡ (done tt, m)
unfolding remove_player Dict.contains
remove_player_absent p m e = rw e

pub remove_player_present :
    (p r : ℕ) (room : Room) (m : RoomManager)
    → Dict.lookup p m.player_room_map ≡ some r
    → Dict.lookup r m.rooms ≡ some room
    → remove_player p m ≡ (done tt, take_out p r room m)
unfolding remove_player Dict.contains
remove_player_present p r room m e there = rw (e, there)

-- On consistent maps, remove_player does not fault, keeps the maps consistent, and forgets that
-- player's room and nobody else's.
pub remove_player-IsConsistent :
    (p : ℕ) (m : RoomManager)
    → IsConsistent m
    → ((remove_player p m).0 ≡ done tt)
      × IsConsistent (remove_player p m).1
      × ((j : ℕ)
          → Dict.lookup j (remove_player p m).1.player_room_map
            ≡ (if p == j then none else Dict.lookup j m.player_room_map))
remove_player-IsConsistent p m v = elim (Option-cases (Dict.lookup p m.player_room_map)) [
  | inl e ↦ rw (remove_player_absent p m e) (refl, v, λ j. ground (arith, e))
  | inr (r, e) ↦
      let (room, there, has) = v.placed p r e in
      rw (remove_player_present p r room m e there)
        (refl, take_out-IsConsistent p r room m v there, λ j. map-take_out p r room m j)
]
