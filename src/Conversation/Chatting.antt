-- ===== src/Conversation/Chatting.antt =====
-- The talk of a chat: client/ClientSimulator.cpp and src/service/ChatService.cpp.
use game_server.Prelude.{
  ℕ, ◌<◌, ◌≡◌, refl, ap, subst, ◌∙◌, [], ◌++◌, List, Bytes, true, some, inl, inr, arith, to_i64,
  i32_mod, ==-cases,
}
use game_server.Prelude.Exec.{done}
use game_server.Prelude.Dict
use game_server.Client.{ClientProto, ClientSimulator, chat}
use game_server.Codec.{Message, encode, IsSendable}
use game_server.Dispatcher.{register_handler, handler_of}
use game_server.MessageId
use game_server.Player.Repository.{PlayerState}
use game_server.Proto.{Proto, ChatReq}
use game_server.Room.{Room}
use game_server.Room.Manager as Places
use game_server.Server.{dispatch, take_packet, read_done, start_handlers}
use game_server.Server.Steady.{noted}
use game_server.Service.Chat.{handle_chat}
use game_server.Service.Chat.Reach.{said, handle_chat-Reaches}
use game_server.Session
use game_server.Session.{Session}
use game_server.World.{World, session_at, or_fresh}
use game_server.World.Broadcast.{all_live, all_live-SameLive, contains-modify, SameLive}
use game_server.World.Delivery.{Queues, packets_for, packets-SameLive}
use game_server.Conversation.{IsNew, received, lookup-noted, read_once, int_wide}
use game_server.Conversation.Matching.Announcing.{after_request}

-- A change of one connection that leaves what it has queued.
kept_queued :
    (f : Session → Session) (sid k : ℕ) (w : World) (packets : List Bytes)
    → ((s : Session) → (f s).write_queue ≡ s.write_queue)
    → Queues k w packets
    → Queues k (record w { sessions = Dict.modify f sid w.sessions }) packets
kept_queued f sid k w packets keeps (t, there, queue) = elim (==-cases sid k) [
  | inl same ↦ (f t, ground (arith, there, Dict.lookup-modify f sid k w.sessions), keeps t ∙ queue)
  | inr other ↦ (t, ground (arith, there, Dict.lookup-modify f sid k w.sessions), queue)
]

noted-SameLive :
    (sid : ℕ) (bytes rest : Bytes) (w : World) → SameLive (noted sid rest (received sid bytes w)) w
noted-SameLive sid bytes rest w = record {
  players = refl;
  alive = λ j.
      contains-modify (Session.update_last_active_time w.now) sid j _
      ∙ contains-modify (λ s. record s { recv_buffer = rest }) sid j _
      ∙ contains-modify (Session.receive bytes) sid j w.sessions;
}

noted_queued :
    (sid k : ℕ) (bytes : Bytes) (w : World) (packets : List Bytes)
    → Queues k w packets
    → Queues k (noted sid [] (received sid bytes w)) packets
unfolding Session.receive Session.update_last_active_time
noted_queued sid k bytes w packets h =
    let got = received sid bytes w in
    let taken : World = record got {
      sessions = Dict.modify (λ (s : Session). record s { recv_buffer = [] }) sid got.sessions;
    } in
    kept_queued (Session.update_last_active_time w.now) sid k taken packets (λ s. refl)
      (kept_queued (λ s. record s { recv_buffer = [] }) sid k got packets (λ s. refl)
        (kept_queued (Session.receive bytes) sid k w packets (λ s. refl) h))

module _ (proto : Proto) (sort : List PlayerState → List PlayerState) (client : ClientProto) where
  chat_handler :
      Dict.lookup MessageId.chat_req (start_handlers proto sort) ≡ some (handle_chat proto)
  unfolding start_handlers register_handler Dict.put Dict.lookup
  chat_handler = refl

  -- What the client asks for.
  abbrev pub request : ℕ → Bytes → ChatReq
  request r text = record { room_id = to_i64 r; text = text }

  abbrev pub chat_message : ℕ → Bytes → Message
  chat_message r text = record {
    msg_id = MessageId.chat_req;
    body = client.chat_req (request r text);
  }

  -- What the handler leaves on a connection.
  chat_taken :
      (sid k r : ℕ) (text : Bytes) (room : Room) (s t : Session) (w : World)
      → proto.parse_chat_req (client.chat_req (request r text)) ≡ request r text
      → r < i32_mod
      → Places.get_room r w.room_manager ≡ some room
      → all_live w room.player_ids ≡ true
      → Dict.lookup sid w.sessions ≡ some s
      → Dict.lookup k w.sessions ≡ some t
      → let m = chat_message r text in
        let ran = take_packet (start_handlers proto sort) sid [] m (received sid (encode m) w) in
        (ran.0 ≡ done tt)
        × Queues k ran.1 (
            t.write_queue
            ++ packets_for k (said proto room.room_id s.player_id text) w room.player_ids)
  unfolding take_packet dispatch handler_of
  chat_taken sid k r text room s t w reads int found live here there =
      let m = chat_message r text in
      let y : World = noted sid [] (received sid (encode m) w) in
      let same = noted-SameLive sid (encode m) [] w in
      let (t', there', queue) = noted_queued sid k (encode m) w t.write_queue (t, there, refl) in
      let known : (session_at sid y).player_id ≡ s.player_id =
        ap (λ o. (or_fresh o).player_id) (lookup-noted sid (encode m) s w here) in
      let (ended, queues) =
        handle_chat-Reaches proto sid k m room t' y
          (ap (λ i. Places.get_room i w.room_manager) (rw reads (int_wide r int)) ∙ found)
          (all_live-SameLive y w room.player_ids same ∙ live) there' in
      let packets : t'.write_queue
            ++ packets_for k
                (said proto room.room_id (session_at sid y).player_id
                  (proto.parse_chat_req m.body).text)
                y room.player_ids
          ≡ t.write_queue
            ++ packets_for k (said proto room.room_id s.player_id text) w room.player_ids =
        (λ i.
          queue i
          ++ packets_for k (said proto room.room_id (known i) (reads i).text) y room.player_ids)
        ∙ ap (◌++◌ t.write_queue) (
            packets-SameLive k (said proto room.room_id s.player_id text) y w room.player_ids
              same) in
      rw chat_handler (ended, subst (Queues k (handle_chat proto sid m y).1) packets queues)

  -- Where protobuf reads back the request, which is within the limits: a client that holds the
  -- 32-bit id of a room, whose members all have live sessions, says something on its new
  -- connection, having sent nothing else. The server handles the request to its end and without a
  -- fault, and on every connection the notice, which carries the room's id, the player id of the
  -- connection that spoke and the text, is queued behind what waits there once for each member
  -- known under that connection.
  pub chat_talk :
      (sid k r : ℕ) (text : Bytes) (room : Room) (s t : Session) (w : World) (c : ClientSimulator)
      → proto.parse_chat_req (client.chat_req (request r text)) ≡ request r text
      → r < i32_mod
      → IsSendable (chat_message r text)
      → Places.get_room r w.room_manager ≡ some room
      → all_live w room.player_ids ≡ true
      → Dict.lookup sid w.sessions ≡ some s
      → IsNew s
      → Dict.lookup k w.sessions ≡ some t
      → c.room_id ≡ r
      → c.sent ≡ []
      → (v : World) × (read_done (start_handlers proto sort) sid (chat client text c).sent w
          ≡ (done tt, v))
        × Queues k v (
            t.write_queue
            ++ packets_for k (said proto room.room_id s.player_id text) w room.player_ids)
  unfolding chat Session.do_read
  chat_talk sid k r text room s t w c reads int ok found live here new there own fresh =
      let m = chat_message r text in
      let ran = take_packet (start_handlers proto sort) sid [] m (received sid (encode m) w) in
      let (ended, queues) = chat_taken sid k r text room s t w reads int found live here there in
      let (_, (x, at_sid, _)) =
        chat_taken sid sid r text room s s w reads int found live here here in
      let taken : ran ≡ (done tt, ran.1) = λ i. (ended i, ran.1) in
      let (unread, same_open) =
        after_request proto sort sid (encode m) m w ran.1 s x here taken at_sid in
      (
        record ran.1 { sessions = Dict.modify Session.do_read sid ran.1.sessions },
        rw (own, fresh)
            (read_once (start_handlers proto sort) sid m s x w ran.1 here new ok taken at_sid unread
              (same_open ∙ new.open_now)),
        kept_queued Session.do_read sid k ran.1 _ (λ u. refl) queues,
      )
