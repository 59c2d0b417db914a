-- ===== src/Server/Answering/Reads.antt =====
-- Faults while bytes are handled: src/net/Session.cpp, `do_read` and `parse_packet`.
use game_server.Prelude.{
  ℕ, ◌+◌, ◌<◌, ◌≡◌, refl, ap, sym, subst, ◌∙◌, List, [], ◌∷◌, ◌++◌, All, All-append, Bytes, Bool,
  true, false, Option, none, some, arith, i32_mod, if◌then◌else◌,
}
use game_server.Prelude.Exec.{Outcome, Runs, done, pure, after-done, for_each, then-Runs}
use game_server.Prelude.Dict
use game_server.Prelude.Dict.{Dict}
use game_server.Codec.{Message, AreBytes}
use game_server.Codec.Packets.{messages}
use game_server.Codec.Stream.{split}
use game_server.Dispatcher.{handler_of}
use game_server.Player.Repository.{PlayerState}
use game_server.Proto.{Proto}
use game_server.Server.{
  Handler, run_handler, dispatch, take_packet, read_done, parse_packet, read, handle,
  start_handlers,
}
use game_server.Server.NoFault.{IsReady}
use game_server.Server.Attending.Reached.{reach_attends, reach-IsSound}
use game_server.Server.Hearing.{input, heard, start_handlers-AreDeaf}
use game_server.Server.Loop.{Can, can_read, Reach}
use game_server.Server.Parsing.{serve, parse_packet_lem}
use game_server.Server.Sound.{handlers-IsSound, start_handlers-AllKeep, noted-IsSound}
use game_server.Server.Steady.{receives, noted}
use game_server.Session
use game_server.Session.{Session}
use game_server.World.{World, session_at, or_fresh, on_session}
use game_server.Server.Answering.{Answers, IsSafe, start_handlers-Answers}

module _ (proto : Proto) (sort : List PlayerState → List PlayerState) where
  run_handler-Answers :
      (found : Option Handler) (m : Message)
      → ((handler : Handler) → found ≡ some handler → Answers handler)
      → Answers (run_handler found)
  run_handler-Answers none m all sid n w h = (refl, refl)
  run_handler-Answers (some handler) m all sid n w h = all handler refl sid n w h

  take_packet-Runs :
      (sid : ℕ) (rest : Bytes) (m : Message)
      → IsSafe m.msg_id
      → Runs IsReady (take_packet (start_handlers proto sort) sid rest m)
  unfolding take_packet dispatch handler_of
  take_packet-Runs sid rest m safe = record {
    ends = λ w h. (answered w h).0;
    keeps = λ w h. record {
      sound =
          (((handlers-IsSound (start_handlers proto sort) (start_handlers-AllKeep proto sort)).takes
              sid rest m).at
            w h.sound);
      ids_left = rw (answered w h).1 h.ids_left;
    };
  }
    where
      answered :
          (w : World)
          → IsReady w
          → ((take_packet (start_handlers proto sort) sid rest m w).0 ≡ done tt)
            × ((take_packet (start_handlers proto sort) sid rest m w).1.room_manager.opened
                ≡ w.room_manager.opened)
      answered w h =
          run_handler-Answers (Dict.lookup m.msg_id (start_handlers proto sort)) m
            (λ handler e. start_handlers-Answers proto sort m.msg_id handler e safe) sid m
            (noted sid rest w)
            (record { sound = noted-IsSound sid rest w h.sound; ids_left = h.ids_left })

  serve-Runs :
      (sid : ℕ) (xs : List (Message × Bytes))
      → All (λ (m : Message). IsSafe m.msg_id) (messages xs)
      → Runs IsReady (serve (start_handlers proto sort) sid xs)
  unfolding serve for_each
  serve-Runs sid [] safe = record { ends = λ w h. refl; keeps = λ w h. h }
  serve-Runs sid ((m, rest) ∷ xs) safe =
      then-Runs (take_packet (start_handlers proto sort) sid rest m)
        (serve (start_handlers proto sort) sid xs) (take_packet-Runs sid rest m safe.0)
        (serve-Runs sid xs safe.1)

  read_done-ends :
      (sid : ℕ) (bytes : Bytes) (s : Session) (w : World)
      → IsReady w
      → Dict.lookup sid w.sessions ≡ some s
      → AreBytes (s.recv_buffer ++ bytes)
      → All (λ (m : Message). IsSafe m.msg_id) (split (s.recv_buffer ++ bytes)).0
      → (read_done (start_handlers proto sort) sid bytes w).0 ≡ done tt
  unfolding read_done Session.receive
  read_done-ends sid bytes s w h there ok safe =
      let handlers = start_handlers proto sort in
      let w1 : World = record w { sessions = Dict.modify (Session.receive bytes) sid w.sessions } in
      let here : Dict.lookup sid w1.sessions ≡ some (Session.receive bytes s) =
        ground (arith, there, Dict.lookup-modify (Session.receive bytes) sid sid w.sessions) in
      let held : (session_at sid w1).recv_buffer ≡ s.recv_buffer ++ bytes =
        ap (λ o. (or_fresh o).recv_buffer) here in
      let ready : IsReady w1 = record {
        sound =
            ((handlers-IsSound handlers (start_handlers-AllKeep proto sort)).moves (receives bytes)
                sid).at
              w h.sound;
        ids_left = h.ids_left;
      } in
      let (xs, same, found, _, _) =
        parse_packet_lem handlers (start_handlers-AreDeaf proto sort) sid w1
          (subst AreBytes (sym held) ok) in
      let safe_xs : All (λ (m : Message). IsSafe m.msg_id) (messages xs) =
        subst (All (λ (m : Message). IsSafe m.msg_id)) (sym (found ∙ ap (λ b. (split b).0) held))
          safe in
      let parsed : (parse_packet handlers sid w1).0 ≡ done tt =
        ap (λ (r : Outcome (Unit {0}) × World). r.0) same
        ∙ (serve-Runs sid xs safe_xs).ends w1 ready in
      ap (λ (r : Outcome (Unit {0}) × World). r.0)
        (after-done (parse_packet handlers sid w1) _ parsed)
      ∙ reads_on (session_at sid (parse_packet handlers sid w1).1).closed
          (parse_packet handlers sid w1).1
    where
      reads_on :
          (closed : Bool) (u : World)
          → ((if closed then pure tt else on_session sid Session.do_read) u).0 ≡ done tt
      reads_on true u = refl
      reads_on false u = refl

  -- In every state that the event loop gets to, with room ids left, bytes that can come on a
  -- connection are handled to the end without a fault, if none of the messages that the decoder
  -- finds in the buffer with those bytes behind is a chat request or a match request.
  pub read_ends :
      (sid : ℕ) (bytes : Bytes) (w : World)
      → Reach (start_handlers proto sort) w
      → w.room_manager.opened + 1 < i32_mod
      → Can w (read sid bytes)
      → All (λ (m : Message). IsSafe m.msg_id) (split ((session_at sid w).recv_buffer ++ bytes)).0
      → (handle (start_handlers proto sort) (read sid bytes) w).0 ≡ done tt
  unfolding handle
  read_ends sid bytes w r ids_left (can_read _ _ s there reading ok) safe =
      let before =
        reach_attends (start_handlers proto sort) (start_handlers-AreDeaf proto sort) w r sid
          (input s) (ap heard there) in
      read_done-ends sid bytes s w
        (record { sound = reach-IsSound proto sort w r; ids_left = ids_left }) there
        (All-append _ s.recv_buffer bytes before.bytes ok) (rw there at safe)
