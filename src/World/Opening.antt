-- ===== src/World/Opening.antt =====
-- What `create_room` of src/room/RoomManager.cpp leaves in the room manager.
use game_server.Prelude.{ℕ, ◌≡◌, refl, List, [], ◌∷◌, Option, some, none, arith}
use game_server.Prelude.Exec.{
  Keeps, null_session, need-Keeps, bind-Keeps, then-Keeps, for_each-Keeps, pure-Keeps,
}
use game_server.Prelude.Dict
use game_server.Codec.{Message}
use game_server.Player.Repository
use game_server.Player.Repository.{PlayerState}
use game_server.Proto.{Proto}
use game_server.Room as Seats
use game_server.Room.Manager.{RoomManager, open_room, insert_players, generate_room_id}
use game_server.World.{World, send, get_session, send_to_player, locked}
use game_server.World.Rooms.{create_room, open_in, save_room, with_room, room_created}

abbrev RoomsAre : RoomManager → World → Type 0
RoomsAre m w = w.room_manager ≡ m

locked-RoomsAre :
    (m : RoomManager) (w : World) (found : Option ℕ)
    → RoomsAre m w
    → RoomsAre m (locked w found w).1
locked-RoomsAre m w none h = h
locked-RoomsAre m w (some sid) h = h

get_session-RoomsAre : (m : RoomManager) (p : ℕ) → Keeps (RoomsAre m) (get_session p)
unfolding get_session
get_session-RoomsAre m p = record {
  at = λ w h. locked-RoomsAre m w (Dict.lookup p w.player_manager.players) h;
}

send-RoomsAre : (m : RoomManager) (sid : ℕ) (msg : Message) → Keeps (RoomsAre m) (send sid msg)
unfolding send
send-RoomsAre m sid msg = record { at = λ w h. h }

send_to_player-RoomsAre :
    (m : RoomManager) (msg : Message) (p : ℕ) → Keeps (RoomsAre m) (send_to_player msg p)
unfolding send_to_player
send_to_player-RoomsAre m msg p =
    bind-Keeps _ _ (get_session-RoomsAre m p)
      (λ o. bind-Keeps _ _ (need-Keeps null_session o) (λ sid. send-RoomsAre m sid msg))

saved-RoomsAre :
    (m : RoomManager) (room_id : ℕ) (found : Option PlayerState) (w : World)
    → RoomsAre m w
    → RoomsAre m (with_room room_id found w)
saved-RoomsAre m room_id none w h = h
saved-RoomsAre m room_id (some s) w h = h

-- The manager's own part is all that changes it, whether or not the players can be told.
pub rooms-create_room :
    (proto : Proto) (ids : List ℕ) (w : World)
    → (create_room proto ids w).1.room_manager ≡ (open_room ids w.room_manager).1
unfolding create_room open_in save_room
rooms-create_room proto ids w =
    let opened = (open_room ids w.room_manager).1 in
    let room_id = (open_room ids w.room_manager).0 in
    (then-Keeps {P = RoomsAre opened} _ _
        (for_each-Keeps ids _
          (λ p. send_to_player-RoomsAre opened (room_created proto room_id ids) p))
        (then-Keeps _ _
          (for_each-Keeps ids _ (λ p. record {
            at = λ v h.
                saved-RoomsAre opened room_id
                  (Repository.load_player_state p v.player_state_repository) v h;
          }))
          (pure-Keeps room_id))).at
      (record w { room_manager = opened }) refl

-- The room of two players who had none.
abbrev pub Hosts : ℕ → ℕ → ℕ → RoomManager → Type 0
Hosts r p q m =
    (Dict.lookup r m.rooms ≡ some (Seats.new_room r (p ∷ q ∷ [])))
    × (Dict.lookup p m.player_room_map ≡ some r)
    × (Dict.lookup q m.player_room_map ≡ some r)

pub open_room-Hosts :
    (p q : ℕ) (m : RoomManager)
    → Dict.lookup m.next_room_id m.rooms ≡ none
    → Dict.lookup p m.player_room_map ≡ none
    → Dict.lookup q m.player_room_map ≡ none
    → Hosts m.next_room_id p q (open_room (p ∷ q ∷ []) m).1
unfolding open_room insert_players generate_room_id Dict.contains
open_room-Hosts p q m new free_p free_q =
    let r = m.next_room_id in
    (
      ground (arith, new, Dict.lookup-insert r r (Seats.new_room r (p ∷ q ∷ [])) m.rooms),
      ground (
        arith,
        free_p,
        free_q,
        Dict.lookup-insert q p r (Dict.insert p r m.player_room_map),
        Dict.lookup-insert p p r m.player_room_map,
      ),
      ground (
        arith,
        free_p,
        free_q,
        Dict.lookup-insert q q r (Dict.insert p r m.player_room_map),
        Dict.lookup-insert p q r m.player_room_map,
      ),
    )
