-- ===== src/Server/Keeps/Rooms.antt =====
-- The invariant through src/room/RoomManager.cpp, with the sends of `create_room`.
use game_server.Prelude.{
  ℕ, ◌+◌, ◌<◌, ◌≡◌, refl, sym, ap, ◌∙◌, List, Option, none, some, Bytes, i32_mod, arith,
}
use game_server.Prelude.Exec.{
  Keeps, Outcome, pure, modify, for_each-Keeps, then-Keeps, bind-Keeps, pure-Keeps,
}
use game_server.Prelude.Dict
use game_server.Prelude.Dict.{Dict}
use game_server.Codec.{Message}
use game_server.Player.Repository
use game_server.Player.Repository.{PlayerState}
use game_server.Proto.{Proto}
use game_server.Room.{Room}
use game_server.Room.Manager as Manager
use game_server.Room.Manager.{RoomManager}
use game_server.Room.Invariant as Inv
use game_server.Room.Marks as Marks
use game_server.Server.Invariant.{AreRoomsOk, IsSound}
use game_server.Server.Keeps.{rooms-Keeps, send_to_player-Keeps}
use game_server.World.{World, on_rooms, send_to_player}
use game_server.World.Rooms.{
  broadcast, handle_chat, open_in, save_room, with_room, create_room, room_created,
}

opened-open_room :
    (ids : List ℕ) (m : RoomManager) → ((Manager.open_room ids m).1.opened ≡ m.opened + 1)
unfolding Manager.open_room
opened-open_room ids m = refl

open_in-Keeps : (ids : List ℕ) → Keeps IsSound (open_in ids)
unfolding open_in
open_in-Keeps ids =
    rooms-Keeps (λ m. let (room_id, m') = Manager.open_room ids m in pure room_id m')
      (record {
        at = λ m h fits.
            let less : m.opened + 1 < i32_mod = omega (arith, opened-open_room ids m) in
            let (next, ok) = h less in
            let room_for : m.next_room_id + 1 < i32_mod =
              omega (arith, opened-open_room ids m, next) in
            (
              omega (arith, Inv.next-open_room ids m room_for, next, opened-open_room ids m),
              Inv.open_room-IsConsistent ids m ok room_for,
            );
      })

-- What leaves the counter and the next id alone keeps the rooms in order if it keeps them
-- consistent.
steady-Keeps :
    (f : RoomManager → Outcome (Unit {0}) × RoomManager)
    → ((m : RoomManager) → ((f m).1.opened ≡ m.opened) × ((f m).1.next_room_id ≡ m.next_room_id))
    → ((m : RoomManager) → Inv.IsConsistent m → Inv.IsConsistent (f m).1)
    → Keeps AreRoomsOk f
steady-Keeps f same k = record {
  at = λ m h fits.
      let (opened, next) = same m in
      let (in_order, ok) = h (omega (arith, opened)) in
      (next ∙ in_order ∙ ap (λ n. n + 1) (sym opened), k m ok);
}

pub remove_player_steady :
    (p : ℕ) (m : RoomManager)
    → ((Manager.remove_player p m).1.opened ≡ m.opened)
      × ((Manager.remove_player p m).1.next_room_id ≡ m.next_room_id)
unfolding Manager.remove_player
remove_player_steady p m = ground arith

pub remove_player-Keeps : (p : ℕ) → Keeps IsSound (on_rooms (Manager.remove_player p))
remove_player-Keeps p = rooms-Keeps (Manager.remove_player p) (
    steady-Keeps (Manager.remove_player p) (remove_player_steady p)
      (λ m ok. (Inv.remove_player-IsConsistent p m ok).1))

pub mark_disconnected_steady :
    (p : ℕ) (m : RoomManager)
    → ((Manager.mark_player_disconnected p m).1.opened ≡ m.opened)
      × ((Manager.mark_player_disconnected p m).1.next_room_id ≡ m.next_room_id)
unfolding Manager.mark_player_disconnected
mark_disconnected_steady p m = ground arith

pub mark_disconnected-Keeps :
    (p : ℕ) → Keeps IsSound (on_rooms (Manager.mark_player_disconnected p))
mark_disconnected-Keeps p = rooms-Keeps (Manager.mark_player_disconnected p) (
    steady-Keeps (Manager.mark_player_disconnected p) (mark_disconnected_steady p)
      (λ m ok. (Marks.mark_player_disconnected-IsConsistent p m ok).1))

pub mark_reconnected_steady :
    (p : ℕ) (m : RoomManager)
    → ((Manager.mark_player_reconnected p m).1.opened ≡ m.opened)
      × ((Manager.mark_player_reconnected p m).1.next_room_id ≡ m.next_room_id)
unfolding Manager.mark_player_reconnected
mark_reconnected_steady p m = ground arith

pub mark_reconnected-Keeps : (p : ℕ) → Keeps IsSound (on_rooms (Manager.mark_player_reconnected p))
mark_reconnected-Keeps p = rooms-Keeps (Manager.mark_player_reconnected p) (
    steady-Keeps (Manager.mark_player_reconnected p) (mark_reconnected_steady p)
      (λ m ok. (Marks.mark_player_reconnected-IsConsistent p m ok).1))

pub tick_all-Keeps : Keeps IsSound (on_rooms (modify Manager.tick_all))
unfolding Manager.tick_all
tick_all-Keeps = rooms-Keeps (modify Manager.tick_all) (
    steady-Keeps (modify Manager.tick_all) (λ m. (refl, refl))
      (λ m ok. Marks.tick_all-IsConsistent m ok))

save_room-IsSound :
    (room_id p : ℕ) (w : World) (found : Option PlayerState)
    → Dict.lookup p w.player_state_repository.states ≡ found
    → IsSound w
    → IsSound (with_room room_id found w)
unfolding Repository.save_player_state
save_room-IsSound room_id p w none e h = h
save_room-IsSound room_id p w (some s) e h = record {
  queue = h.queue;
  rooms = h.rooms;
  sessions = h.sessions;
  states = h.states;
  stored =
      Dict.Every-put (λ k v. v.player_id ≡ k) s.player_id (record s { room_id = room_id })
        w.player_state_repository.states refl h.stored;
}

save_room-Keeps : (room_id p : ℕ) → Keeps IsSound (save_room room_id p)
unfolding save_room Repository.load_player_state
save_room-Keeps room_id p = record { at = λ w h. save_room-IsSound room_id p w _ refl h }

pub broadcast-Keeps : (room : Room) (msg : Message) → Keeps IsSound (broadcast room msg)
unfolding broadcast
broadcast-Keeps room msg =
    for_each-Keeps room.player_ids (send_to_player msg) (send_to_player-Keeps msg)

module _ (proto : Proto) where
  pub handle_chat-Keeps :
      (room : Room) (p : ℕ) (text : Bytes) → Keeps IsSound (handle_chat proto room p text)
  unfolding handle_chat
  handle_chat-Keeps room p text = for_each-Keeps room.player_ids _ (λ q. send_to_player-Keeps _ q)

  pub create_room-Keeps : (ids : List ℕ) → Keeps IsSound (create_room proto ids)
  unfolding create_room
  create_room-Keeps ids = bind-Keeps _ _ (open_in-Keeps ids) λ room_id.
      then-Keeps _ _
        (for_each-Keeps ids (send_to_player (room_created proto room_id ids))
          (send_to_player-Keeps (room_created proto room_id ids)))
        (then-Keeps _ _ (for_each-Keeps ids (save_room room_id) (save_room-Keeps room_id))
          (pure-Keeps room_id))
