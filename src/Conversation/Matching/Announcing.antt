-- ===== src/Conversation/Matching/Announcing.antt =====
-- A match request on the side of the server: src/service/MatchService.cpp and `create_room` of
-- src/room/RoomManager.cpp.
use game_server.Prelude.{
  ℕ, ◌≡◌, refl, ap, sym, ◌∙◌, [], ◌∷◌, ◌++◌, List, true, false, ◌==◌, some, inl, inr, arith, codes,
  is_nonpos_i32, some-injective, subst, Bytes,
}
use game_server.Prelude.Exec.{Outcome, done, fault, after, pure, ◌>>=◌}
use game_server.Prelude.Dict
use game_server.Codec.{Message, encode}
use game_server.Match as Queue
use game_server.Match.{MatchQueue}
use game_server.Proto.{Proto}
use game_server.Server.Frame.{Frame}
use game_server.Server.Frame.Services.{create_room-Frame}
use game_server.Server.Pairing.Pairs.{asked, queued, counted, match_pairs}
use game_server.Service.Match.{handle_match, match_reply}
use game_server.Service.Chat.Reach.{create_room_reaches}
use game_server.Session
use game_server.Session.{Session}
use game_server.World.{World, send}
use game_server.World.Broadcast.{all_live}
use game_server.World.Delivery.{Queues, packets_for}
use game_server.World.Opening.{rooms-create_room}
use game_server.Room.Manager.{RoomManager, open_room}
use game_server.World.Rooms.{create_room, room_created}
use game_server.Conversation.{IsNew, lookup-send, replied, received, modify_there}
use game_server.Player.Repository.{PlayerState}
use game_server.Server.{take_packet, start_handlers}
use game_server.Server.Hearing.{Input, input, heard, Hears, start_handlers-AreDeaf}
use game_server.Server.Parsing.{take_packet-Hears}
use game_server.Server.Steady.{noted}

QueueIs-Frame : (q : MatchQueue) (here : ℕ) → Frame here (λ w. w.match_queue ≡ q)
QueueIs-Frame q here = record {
  metrics = λ m w h. h;
  players = λ m w h. h;
  rooms = λ m w h. h;
  connected = λ w h. h;
  back = λ p w h. h;
  stored = λ r w h. h;
  next_id = λ p w h. h;
  sessions = λ t sid w h. h;
  seen = λ w h. h;
}

-- A value that is not used.
ran_on :
    {A : Type 0} (r : Outcome A × World) (a : A)
    → r.0 ≡ done a
    → after r (λ _. pure tt) ≡ (done tt, r.1)
ran_on (done x, w) a e = refl
ran_on (fault f, w) a e = cc

module _ (proto : Proto) (a b p q : ℕ) (apart : (a == b) ≡ false) where
  -- The notice of the room `r`.
  abbrev pub notice : ℕ → Message
  notice r = room_created proto r (p ∷ q ∷ [])

  room_made :
      (x : World) (s t : Session)
      → Dict.lookup p x.player_manager.players ≡ some a
      → Dict.lookup q x.player_manager.players ≡ some b
      → Dict.lookup a x.sessions ≡ some s
      → Dict.lookup b x.sessions ≡ some t
      → (v : World) × ((create_room proto (p ∷ q ∷ []) >>= λ _. pure tt) x ≡ (done tt, v))
        × Queues a v (s.write_queue ++ encode (notice x.room_manager.next_room_id) ∷ [])
        × Queues b v (t.write_queue ++ encode (notice x.room_manager.next_room_id) ∷ [])
        × (v.match_queue ≡ x.match_queue)
        × (v.room_manager ≡ (open_room (p ∷ q ∷ []) x.room_manager).1)
  unfolding Dict.contains
  room_made x s t known_p known_q here_a here_b =
      let n = notice x.room_manager.next_room_id in
      let live : all_live x (p ∷ q ∷ []) ≡ true = rw (known_p, known_q, here_a, here_b) refl in
      let for_a : packets_for a n x (p ∷ q ∷ []) ≡ encode n ∷ [] =
        ground (arith, known_p, known_q, apart) in
      let for_b : packets_for b n x (p ∷ q ∷ []) ≡ encode n ∷ [] =
        ground (arith, known_p, known_q, apart) in
      let (ended, at_a) = create_room_reaches proto a (p ∷ q ∷ []) s x live here_a in
      let (_, at_b) = create_room_reaches proto b (p ∷ q ∷ []) t x live here_b in
      (
        (create_room proto (p ∷ q ∷ []) x).1,
        ran_on (create_room proto (p ∷ q ∷ []) x) x.room_manager.next_room_id ended,
        rw for_a at at_a,
        rw for_b at at_b,
        (create_room-Frame (QueueIs-Frame x.match_queue b) proto (p ∷ q ∷ [])).at x refl,
        rooms-create_room proto (p ∷ q ∷ []) x,
      )

  -- The reply to a request that is taken.
  abbrev pub accepted_reply : Message
  accepted_reply = match_reply proto 0 (codes "match success")

  -- The room is announced on both connections, on that of the request behind the reply, and nobody waits.
  abbrev pub Announced : RoomManager → World → Type 0
  Announced rooms v =
      Queues a v (encode (notice rooms.next_room_id) ∷ [])
      × Queues b v (encode accepted_reply ∷ encode (notice rooms.next_room_id) ∷ [])
      × (v.match_queue.queue ≡ [])
      × (v.room_manager ≡ (open_room (p ∷ q ∷ []) rooms).1)

  one_waited : (p' : ℕ) → p ∷ [] ≡ p' ∷ [] → p' ≡ p
  one_waited p' e = sym (ap (λ (xs : List ℕ). elim xs [ [] ↦ 0 | x ∷ _ ↦ x ]) e)

  -- The request of player `q`, while `p` waits.
  pub request_served :
      (m : Message) (y : World) (s t : Session)
      → asked proto m ≡ q
      → y.match_queue.queue ≡ p ∷ []
      → is_nonpos_i32 q ≡ false
      → Queue.contains q y.match_queue ≡ false
      → Dict.lookup p y.player_manager.players ≡ some a
      → Dict.lookup q y.player_manager.players ≡ some b
      → Dict.lookup a y.sessions ≡ some s
      → Dict.lookup b y.sessions ≡ some t
      → s.write_queue ≡ []
      → IsNew t
      → (v : World) × (handle_match proto b m y ≡ (done tt, v)) × Announced y.room_manager v
  unfolding send
  request_served m y s t asks waits positive absent known_p known_q here_a here_b idle new =
      elim (match_pairs proto b m y (rw waits (omega arith)) (rw asks positive) (rw asks absent)) [
        | inl (none_waits, _, _) ↦ cc (sym none_waits ∙ waits)
        | inr (p', left, waits', ran, empty) ↦
            let x : World = record (queued proto b q y) { match_queue = left } in
            let other : Dict.lookup a x.sessions ≡ some s = ground (
              arith,
              here_a,
              apart,
              Dict.lookup-modify (Session.send accepted_reply) b a y.sessions,
            ) in
            let (v, made, at_a, at_b, same, placed) =
              room_made x s (replied accepted_reply t) known_p known_q other (
                lookup-send b accepted_reply t
                  (record (counted y) { match_queue = Queue.join q y.match_queue }) here_b new) in
            (
              v,
              ran ∙ rw (asks, one_waited p' (sym waits ∙ waits')) made,
              (rw idle at at_a, at_b, ap (λ (mq : MatchQueue). mq.queue) same ∙ empty, placed),
            )
      ]

module _ (proto : Proto) (sort : List PlayerState → List PlayerState) (a b : ℕ)
    (apart : (a == b) ≡ false) where
  -- The other connection, while this one is heard.
  pub other_noted :
      (bytes rest : Bytes) (w : World)
      → Dict.lookup a (noted b rest (received b bytes w)).sessions ≡ Dict.lookup a w.sessions
  other_noted bytes rest w =
      let first : World = received b bytes w in
      let taken = Dict.modify (λ (s : Session). record s { recv_buffer = rest }) b first.sessions in
      ground (
        arith,
        apart,
        Dict.lookup-modify (Session.update_last_active_time w.now) b a taken,
        Dict.lookup-modify (λ (s : Session). record s { recv_buffer = rest }) b a first.sessions,
        Dict.lookup-modify (Session.receive bytes) b a w.sessions,
      )

module _ (proto : Proto) (sort : List PlayerState → List PlayerState) (b : ℕ) where
  -- After the handler, the connection of the request is open and has nothing unread.
  pub after_request :
      (bytes : Bytes) (m : Message) (w u : World) (t t' : Session)
      → Dict.lookup b w.sessions ≡ some t
      → take_packet (start_handlers proto sort) b [] m (received b bytes w) ≡ (done tt, u)
      → Dict.lookup b u.sessions ≡ some t'
      → (t'.recv_buffer ≡ []) × (t'.closed ≡ t.closed)
  unfolding Session.receive
  after_request bytes m w u t t' here taken there =
      let h : Hears b (some (record (input (Session.receive bytes t)) { recv_buffer = [] })) u =
        subst
          (λ (x : Outcome (Unit {0}) × World).
            Hears b (some (record (input (Session.receive bytes t)) { recv_buffer = [] })) x.1)
          taken
          (take_packet-Hears (start_handlers proto sort) (start_handlers-AreDeaf proto sort) b [] m
            (received b bytes w) (input (Session.receive bytes t))
            (ap heard (modify_there (Session.receive bytes) b t w.sessions here))) in
      let same : input t' ≡ record (input (Session.receive bytes t)) { recv_buffer = [] } =
        some-injective (ap heard (sym there) ∙ h) in
      (ap (λ (i : Input). i.recv_buffer) same, ap (λ (i : Input). i.closed) same)
