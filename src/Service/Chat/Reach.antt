-- ===== src/Service/Chat/Reach.antt =====
-- Whom src/service/ChatService.cpp and `create_room` of src/room/RoomManager.cpp reach.
use game_server.Prelude.{
  ℕ, ◌≡◌, refl, ap, ◌∙◌, List, [], ◌∷◌, ◌++◌, true, Option, none, some, to_i32, to_i64,
}
use game_server.Prelude.Exec.{Outcome, done, fault, pure, for_each, after, after-done, ◌>>◌}
use game_server.Prelude.Dict
use game_server.Codec.{Message}
use game_server.MessageId
use game_server.Metrics
use game_server.Player.Repository
use game_server.Player.Repository.{PlayerState}
use game_server.Proto.{Proto}
use game_server.Room.{Room}
use game_server.Room.Manager as Manager
use game_server.Service.Chat.{handle_chat}
use game_server.Service.Chat.Ends.{save_rooms_done, scored-SameLive, rooms-scored}
use game_server.Service.Ranking as Ranking
use game_server.Session.{Session}
use game_server.World.{World, session_at, send_to_player}
use game_server.World.Broadcast.{all_live, SameLive, all_live-SameLive}
use game_server.World.Delivery.{packets_for, Queues, sends_deliver, packets-SameLive}
use game_server.World.Rooms as Rooms

-- The message ends on each connection that has `s` at the start, for each of the players known
-- under it.
abbrev pub Reaches : ℕ → Message → List ℕ → Session → World → Outcome (Unit {0}) × World → Type 0
Reaches sid msg ps s w r =
    (r.0 ≡ done tt) × Queues sid r.1 (s.write_queue ++ packets_for sid msg w ps)

sends_reach :
    (sid : ℕ) (msg : Message) (ps : List ℕ) (s : Session) (v w : World)
    → Dict.lookup sid v.sessions ≡ some s
    → SameLive v w
    → all_live w ps ≡ true
    → Reaches sid msg ps s w (for_each ps (send_to_player msg) v)
sends_reach sid msg ps s v w e same live =
    let (ended, (t, there, queue)) =
      sends_deliver sid msg ps s v e (all_live-SameLive v w ps same ∙ live) in
    (ended, (t, there, queue ∙ ap (◌++◌ s.write_queue) (packets-SameLive sid msg v w ps same)))

sessions-scored :
    (p : ℕ) (found : Option PlayerState) (w : World)
    → (Ranking.scored p 1 found w).sessions ≡ w.sessions
sessions-scored p none w = refl
sessions-scored p (some x) w = refl

module _ (proto : Proto) where
  -- What a player says to a room.
  abbrev pub said : ℕ → ℕ → List ℕ → Message
  said room_id p text = record {
    msg_id = MessageId.chat_notify;
    body =
        proto.chat_notify (record { room_id = to_i64 room_id; player_id = to_i64 p; text = text });
  }

  -- A chat to a room that exists and whose members all have live sessions is handled to its end.
  -- On every connection, the notice, which carries the room's id, the player id of the connection
  -- that the request came on, and the text, is queued behind what waits there once for each
  -- member known under that connection.
  pub handle_chat-Reaches :
      (session sid : ℕ) (m : Message) (room : Room) (s : Session) (w : World)
      → Manager.get_room (to_i32 (proto.parse_chat_req m.body).room_id) w.room_manager ≡ some room
      → all_live w room.player_ids ≡ true
      → Dict.lookup sid w.sessions ≡ some s
      → Reaches sid
          (said room.room_id (session_at session w).player_id (proto.parse_chat_req m.body).text)
          room.player_ids
          s
          w
          (handle_chat proto session m w)
  unfolding handle_chat Ranking.add_score Rooms.handle_chat
  handle_chat-Reaches session sid m room s w found live e =
      let w1 : World = record w { metrics = Metrics.incr_chat_req w.metrics } in
      let p = (session_at session w).player_id in
      let stored = Repository.load_player_state p w.player_state_repository in
      let v : World = Ranking.scored p 1 stored w1 in
      let live_in_v = scored-SameLive p stored w1 in
      let there : Manager.get_room (to_i32 (proto.parse_chat_req m.body).room_id) v.room_manager
          ≡ some room =
        ap (Manager.get_room (to_i32 (proto.parse_chat_req m.body).room_id))
          (rooms-scored p stored w1)
        ∙ found in
      rw there (
        sends_reach sid _ room.player_ids s v w
          (ap (Dict.lookup sid) (sessions-scored p stored w1) ∙ e)
          (record { players = live_in_v.players; alive = live_in_v.alive }) live)

  with_room-sessions :
      (room_id : ℕ) (found : Option PlayerState) (w : World)
      → (Rooms.with_room room_id found w).sessions ≡ w.sessions
  with_room-sessions room_id none w = refl
  with_room-sessions room_id (some x) w = refl

  save_rooms-sessions :
      (room_id : ℕ) (ps : List ℕ) (w : World)
      → (for_each ps (Rooms.save_room room_id) w).1.sessions ≡ w.sessions
  unfolding for_each Rooms.save_room
  save_rooms-sessions room_id [] w = refl
  save_rooms-sessions room_id (p ∷ ps) w =
      save_rooms-sessions room_id ps _
      ∙ with_room-sessions room_id (Repository.load_player_state p w.player_state_repository) w

  saved :
      (sid room_id : ℕ) (ids : List ℕ) (packets : List (List ℕ)) (r : Outcome (Unit {0}) × World)
      → r.0 ≡ done tt
      → Queues sid r.1 packets
      → let all = after r (λ _. for_each ids (Rooms.save_room room_id) >> pure room_id) in
        (all.0 ≡ done room_id) × Queues sid all.1 packets
  saved sid room_id ids packets (done u, v) e (t, there, queue) =
      rw
        (after-done (for_each ids (Rooms.save_room room_id) v) (pure room_id)
          (save_rooms_done proto room_id ids v))
        (refl, (t, ap (Dict.lookup sid) (save_rooms-sessions room_id ids v) ∙ there, queue))
  saved sid room_id ids packets (fault f, v) e h = cc

  -- create_room for players who all have live sessions comes to its end with the next room id,
  -- and on every connection the notice, which carries that id and the players in order, is queued
  -- behind what waits there once for each of them known under that connection.
  pub create_room_reaches :
      (sid : ℕ) (ids : List ℕ) (s : Session) (w : World)
      → all_live w ids ≡ true
      → Dict.lookup sid w.sessions ≡ some s
      → let room_id = w.room_manager.next_room_id in
        ((Rooms.create_room proto ids w).0 ≡ done room_id)
        × Queues sid
            (Rooms.create_room proto ids w).1
            (s.write_queue ++ packets_for sid (Rooms.room_created proto room_id ids) w ids)
  unfolding Rooms.create_room Manager.open_room
  create_room_reaches sid ids s w live e =
      let v : World = (Rooms.open_in ids w).1 in
      let room_id = w.room_manager.next_room_id in
      let (ended, queues) =
        sends_reach sid (Rooms.room_created proto room_id ids) ids s v w e
          (record { players = refl; alive = λ j. refl }) live in
      saved sid room_id ids _
        (for_each ids (send_to_player (Rooms.room_created proto room_id ids)) v) ended queues
