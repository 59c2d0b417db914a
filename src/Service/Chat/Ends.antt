-- ===== src/Service/Chat/Ends.antt =====
-- When src/service/ChatService.cpp and `create_room` of src/room/RoomManager.cpp come to an end.
use game_server.Prelude.{
  ℕ, ◌≡◌, refl, ap, ◌∙◌, List, [], ◌∷◌, Bool, true, false, Option, none, some, to_i32,
}
use game_server.Prelude.Exec.{
  Outcome, done, fault, pure, for_each, after, need, null_room, ◌>>=◌, ◌>>◌,
}
use game_server.Codec.{Message}
use game_server.Metrics
use game_server.Player.Repository
use game_server.Player.Repository.{PlayerState}
use game_server.Proto.{Proto}
use game_server.Room.{Room}
use game_server.Room.Manager as Manager
use game_server.Service.Chat.{handle_chat}
use game_server.Service.Ranking as Ranking
use game_server.World.{World, session_at, send_to_player}
use game_server.World.Broadcast.{is_done, all_live, sends_end, SameLive, all_live-SameLive}
use game_server.World.Rooms as Rooms

-- The room is there and all of its members can be sent to.
abbrev pub can_chat : World → Option Room → Bool
can_chat w none = false
can_chat w (some room) = all_live w room.player_ids

room_chat_ends :
    (proto : Proto) (p : ℕ) (text : List ℕ) (w : World) (found : Option Room)
    → is_done ((need null_room found >>= λ room. Rooms.handle_chat proto room p text) w).0
      ≡ can_chat w found
unfolding Rooms.handle_chat
room_chat_ends proto p text w none = refl
room_chat_ends proto p text w (some room) = sends_end _ room.player_ids w

pub scored-SameLive :
    (p : ℕ) (found : Option PlayerState) (w : World) → SameLive (Ranking.scored p 1 found w) w
scored-SameLive p none w = record { players = refl; alive = λ j. refl }
scored-SameLive p (some s) w = record { players = refl; alive = λ j. refl }

can_chat-SameLive :
    (v w : World) (found : Option Room) → SameLive v w → can_chat v found ≡ can_chat w found
can_chat-SameLive v w none h = refl
can_chat-SameLive v w (some room) h = all_live-SameLive v w room.player_ids h

pub rooms-scored :
    (p : ℕ) (found : Option PlayerState) (w : World)
    → (Ranking.scored p 1 found w).room_manager ≡ w.room_manager
rooms-scored p none w = refl
rooms-scored p (some s) w = refl

module _ (proto : Proto) where
  chat_from :
      (room_id p : ℕ) (text : List ℕ) (v w : World)
      → v.room_manager ≡ w.room_manager
      → SameLive v w
      → is_done
          ((need null_room (Manager.get_room room_id v.room_manager) >>= λ room.
              Rooms.handle_chat proto room p text)
            v).0
        ≡ can_chat w (Manager.get_room room_id w.room_manager)
  chat_from room_id p text v w same live =
      room_chat_ends proto p text v (Manager.get_room room_id v.room_manager)
      ∙ can_chat-SameLive v w (Manager.get_room room_id v.room_manager) live
      ∙ ap (λ m. can_chat w (Manager.get_room room_id m)) same

  -- A chat request is handled to the end exactly if its room exists and each member has a live
  -- session; with no such room, or with a member who has none, the handler faults.
  pub chat_ends :
      (session : ℕ) (m : Message) (w : World)
      → is_done (handle_chat proto session m w).0
        ≡ can_chat w
            (Manager.get_room (to_i32 (proto.parse_chat_req m.body).room_id) w.room_manager)
  unfolding handle_chat Ranking.add_score
  chat_ends session m w =
      let w1 : World = record w { metrics = Metrics.incr_chat_req w.metrics } in
      let p = (session_at session w).player_id in
      let found = Repository.load_player_state p w.player_state_repository in
      chat_from (to_i32 (proto.parse_chat_req m.body).room_id) p (proto.parse_chat_req m.body).text
        (Ranking.scored p 1 found w1) w1 (rooms-scored p found w1) (scored-SameLive p found w1)
      ∙ can_chat-SameLive w1 w _ (record { players = refl; alive = λ j. refl })

  pub save_rooms_done :
      (room_id : ℕ) (ps : List ℕ) (w : World)
      → (for_each ps (Rooms.save_room room_id) w).0 ≡ done tt
  unfolding for_each Rooms.save_room
  save_rooms_done room_id [] w = refl
  save_rooms_done room_id (p ∷ ps) w = save_rooms_done room_id ps _

  after_sends :
      (room_id : ℕ) (ids : List ℕ) (r : Outcome (Unit {0}) × World)
      → is_done (after r (λ _. for_each ids (Rooms.save_room room_id) >> pure room_id)).0
        ≡ is_done r.0
  after_sends room_id ids (done u, w) =
      go (for_each ids (Rooms.save_room room_id) w) (save_rooms_done room_id ids w)
    where
      go :
          (r : Outcome (Unit {0}) × World)
          → r.0 ≡ done tt
          → is_done (after r (λ _. pure room_id)).0 ≡ true
      go (done u, v) e = refl
      go (fault f, v) e = cc
  after_sends room_id ids (fault f, w) = refl

  -- create_room comes to its end exactly if all of the players have live sessions.
  pub create_room_ends :
      (ids : List ℕ) (w : World) → is_done (Rooms.create_room proto ids w).0 ≡ all_live w ids
  unfolding Rooms.create_room Manager.open_room
  create_room_ends ids w =
      let v : World = (Rooms.open_in ids w).1 in
      let room_id = w.room_manager.next_room_id in
      after_sends room_id ids
        (for_each ids (send_to_player (Rooms.room_created proto room_id ids)) v)
      ∙ sends_end (Rooms.room_created proto room_id ids) ids v
      ∙ all_live-SameLive v w ids (record { players = refl; alive = λ j. refl })
