-- ===== src/Conversation/Matching.antt =====
-- The talk of a match: client/ClientSimulator.cpp, src/service/MatchService.cpp and `create_room` of
-- src/room/RoomManager.cpp.
pub mod Announcing
use game_server.Prelude.{
  none, some-injective, All-append, ℕ, ◌<◌, ◌≡◌, refl, ap, sym, subst, ◌∙◌, [], ◌∷◌, ◌++◌, List,
  Bytes, true, false, ◌==◌, some, inl, inr, arith, codes, to_i64, i32_mod, is_nonpos_i32,
}
use game_server.Prelude.Exec.{Outcome, done, fault, after, pure, ◌>>=◌}
use game_server.Prelude.Dict
use game_server.Client.{
  ClientProto, ClientSimulator, request_match, match_message, handle_message, on_room_created, chat,
}
use game_server.Client as Clients
use game_server.Client.Reading.{handle_all}
use game_server.Codec.{Message, encode, IsSendable, AreBytes}
use game_server.Dispatcher.{register_handler, handler_of}
use game_server.Match as Queue
use game_server.Match.{MatchQueue}
use game_server.MessageId
use game_server.Player.Repository.{PlayerState}
use game_server.Proto.{Proto, RoomCreatedNotify}
use game_server.Server.{dispatch, take_packet, read_done, start_handlers}
use game_server.Server.Frame.{Frame}
use game_server.Server.Frame.Services.{create_room-Frame}
use game_server.Server.Hearing.{Input, input, heard, Hears, start_handlers-AreDeaf}
use game_server.Server.Parsing.{take_packet-Hears}
use game_server.Server.Steady.{noted}
use game_server.Server.Pairing.Pairs.{asked, queued, counted, match_pairs}
use game_server.Service.Match.{handle_match, match_reply}
use game_server.Service.Chat.Reach.{create_room_reaches}
use game_server.Session
use game_server.Session.{Session}
use game_server.Session.Writing.{concat}
use game_server.World.{World, send, session_at, or_fresh}
use game_server.World.Broadcast.{all_live}
use game_server.World.Opening.{Hosts, open_room-Hosts}
use game_server.Room.Manager.{RoomManager}
use game_server.World.Delivery.{Queues, packets_for}
use game_server.World.Rooms.{create_room, room_created}
use game_server.Conversation.{
  IsNew, received, modify_there, lookup-send, lookup-noted, replied, read_once, whole_packets,
  int_wide, encode_bytes,
}
use game_server.Conversation.Matching.Announcing.{
  other_noted, after_request, notice, accepted_reply, Announced, request_served,
}

-- The bytes that are still to be written on a connection.
abbrev pub unsent : ℕ → World → Bytes
unsent sid w = concat (session_at sid w).write_queue

queued_bytes :
    (sid : ℕ) (w : World) (packets : List Bytes)
    → Queues sid w packets
    → unsent sid w ≡ concat packets
queued_bytes sid w packets (t, there, queue) =
    ap (λ o. concat (or_fresh o).write_queue) there ∙ ap concat queue

module _ (proto : Proto) (sort : List PlayerState → List PlayerState) (client : ClientProto)
    (a b p q : ℕ) (apart : (a == b) ≡ false) where
  match_handler :
      Dict.lookup MessageId.match_req (start_handlers proto sort) ≡ some (handle_match proto)
  unfolding start_handlers register_handler Dict.put Dict.lookup
  match_handler = refl

  -- What the notice says.
  abbrev pub notified : ℕ → RoomCreatedNotify
  notified r = record { room_id = to_i64 r; players = to_i64 p ∷ to_i64 q ∷ [] }

  -- The handler runs to its end on the request of a client.
  request_taken :
      (w : World) (s t : Session)
      → proto.parse_match_req (client.match_req (record { player_id = to_i64 q }))
        ≡ record { player_id = to_i64 q }
      → q < i32_mod
      → w.match_queue.queue ≡ p ∷ []
      → is_nonpos_i32 q ≡ false
      → Queue.contains q w.match_queue ≡ false
      → Dict.lookup p w.player_manager.players ≡ some a
      → Dict.lookup q w.player_manager.players ≡ some b
      → Dict.lookup a w.sessions ≡ some s
      → Dict.lookup b w.sessions ≡ some t
      → s.write_queue ≡ []
      → IsNew t
      → let m = match_message client q in
        (u : World) × (take_packet (start_handlers proto sort) b [] m (received b (encode m) w)
          ≡ (done tt, u))
        × Announced proto a b p q apart w.room_manager u
  unfolding take_packet dispatch handler_of
  request_taken w s t reads int waits positive absent known_p known_q here_a here_b idle new =
      let m = match_message client q in
      let (u, ran, announced) =
        request_served proto a b p q apart m (noted b [] (received b (encode m) w)) s
          (record t { recv_buffer = []; reading = false; last_active_time = w.now })
          (rw reads (int_wide q int)) waits positive absent known_p known_q
          (other_noted proto sort a b apart (encode m) [] w ∙ here_a)
          (lookup-noted b (encode m) t w here_b) idle
          (record { open_now = new.open_now; unread = refl; unsent = new.unsent }) in
      (u, rw match_handler ran, announced)

  -- The next read, on the connection of the request, takes nothing back.
  reading_again :
      (rooms : RoomManager) (u : World)
      → Announced proto a b p q apart rooms u
      → Announced proto a b p q apart rooms
          (record u { sessions = Dict.modify Session.do_read b u.sessions })
  unfolding Session.do_read
  reading_again rooms u ((s, at_a, queue_a), (t, at_b, queue_b), empty, placed) = (
    (s, ground (arith, at_a, apart, Dict.lookup-modify Session.do_read b a u.sessions), queue_a),
    (record t { reading = true }, modify_there Session.do_read b t u.sessions at_b, queue_b),
    empty,
    placed,
  )

  -- The room that a client takes from the notice, with or without the reply before it.
  client_joins :
      (r now_ms : ℕ) (c : ClientSimulator)
      → r < i32_mod
      → client.parse_room_created_notify (proto.room_created_notify (notified r)) ≡ notified r
      → ((handle_all client now_ms (notice proto a b p q apart r ∷ []) c).room_id ≡ r)
        × ((handle_all client now_ms
              (accepted_reply proto a b p q apart ∷ notice proto a b p q apart r ∷ [])
              c).room_id
            ≡ r)
  unfolding handle_all handle_message on_room_created chat
  client_joins r now_ms c int reads = (rw reads (int_wide r int), rw reads (int_wide r int))

  -- Where protobuf reads back the request and the notice, which with the reply are within the
  -- limits: player p waits alone in the queue, known under connection a, on which nothing is
  -- queued, and the client of a player q, whose positive id does not wait, known under the new
  -- connection b, asks for a match; nothing is unread at either client, neither player has a
  -- room, and the next room id is a free 32-bit number. The server handles the request to its end
  -- and without a fault. Nobody waits then, the room with that id exists with p and q in it, and
  -- both players are placed there; and from the bytes that are to be written on the connection of
  -- each, the two clients take that room id.
  pub match_talk :
      (now_ms : ℕ) (w : World) (s t : Session) (c d : ClientSimulator)
      → let r = w.room_manager.next_room_id in
        let asking = request_match client d in
        proto.parse_match_req (client.match_req (record { player_id = to_i64 q }))
          ≡ record { player_id = to_i64 q }
        → client.parse_room_created_notify (proto.room_created_notify (notified r)) ≡ notified r
        → q < i32_mod
        → r < i32_mod
        → w.match_queue.queue ≡ p ∷ []
        → is_nonpos_i32 q ≡ false
        → Queue.contains q w.match_queue ≡ false
        → Dict.lookup p w.player_manager.players ≡ some a
        → Dict.lookup q w.player_manager.players ≡ some b
        → Dict.lookup a w.sessions ≡ some s
        → Dict.lookup b w.sessions ≡ some t
        → s.write_queue ≡ []
        → IsNew t
        → Dict.lookup r w.room_manager.rooms ≡ none
        → Dict.lookup p w.room_manager.player_room_map ≡ none
        → Dict.lookup q w.room_manager.player_room_map ≡ none
        → IsSendable (match_message client q)
        → IsSendable (accepted_reply proto a b p q apart)
        → IsSendable (notice proto a b p q apart r)
        → AreBytes (accepted_reply proto a b p q apart).body
        → AreBytes (notice proto a b p q apart r).body
        → c.recv_buffer ≡ []
        → d.recv_buffer ≡ []
        → d.player_id ≡ q
        → d.sent ≡ []
        → (v : World) × (read_done (start_handlers proto sort) b asking.sent w ≡ (done tt, v))
          × (v.match_queue.queue ≡ [])
          × Hosts r p q v.room_manager
          × ((Clients.read_done client now_ms (unsent a v) c).room_id ≡ r)
          × ((Clients.read_done client now_ms (unsent b v) asking).room_id ≡ r)
  unfolding request_match
  match_talk now_ms w s t c d asks tells int_q int_r waits positive absent known_p known_q here_a
        here_b idle new new_room free_p free_q sends_ask sends_reply sends_notice reply_bytes
        notice_bytes empty_c empty_d own fresh =
      let r = w.room_manager.next_room_id in
      let m = match_message client q in
      let (u, taken, announced) =
        request_taken w s t asks int_q waits positive absent known_p known_q here_a here_b idle
          new in
      let (queue_a, (x, at_b, queue_b), empty, placed) = announced in
      let (unread, same_open) = after_request proto sort b (encode m) m w u t x here_b taken at_b in
      let ran =
        read_once (start_handlers proto sort) b m t x w u here_b new sends_ask taken at_b unread
          (same_open ∙ new.open_now) in
      let v : World = record u { sessions = Dict.modify Session.do_read b u.sessions } in
      let (after_a, after_b, emptied, opened) = reading_again w.room_manager u announced in
      let n = notice proto a b p q apart r in
      let reply = accepted_reply proto a b p q apart in
      let bytes_n : AreBytes (encode n) = encode_bytes n sends_notice notice_bytes in
      let bytes_reply : AreBytes (encode reply) = encode_bytes reply sends_reply reply_bytes in
      let got_a =
        whole_packets client (n ∷ []) now_ms c (sends_notice, tt)
          (All-append _ (encode n) [] bytes_n tt) empty_c in
      let got_b =
        whole_packets client (reply ∷ n ∷ []) now_ms (request_match client d)
          (sends_reply, (sends_notice, tt))
          (All-append _ (encode reply) (encode n ++ []) bytes_reply
            (All-append _ (encode n) [] bytes_n tt))
          (ground (arith, empty_d)) in
      (
        v,
        rw (own, positive, fresh) ran,
        emptied,
        subst (Hosts r p q) (sym opened)
            (open_room-Hosts p q w.room_manager new_room free_p free_q),
        ap (λ bs. (Clients.read_done client now_ms bs c).room_id) (queued_bytes a v _ after_a)
            ∙ ap (λ (k : ClientSimulator). k.room_id) got_a
            ∙ (client_joins r now_ms c int_r tells).0,
        ap (λ bs. (Clients.read_done client now_ms bs (request_match client d)).room_id)
              (queued_bytes b v _ after_b)
            ∙ ap (λ (k : ClientSimulator). k.room_id) got_b
            ∙ (client_joins r now_ms (request_match client d) int_r tells).1,
      )
