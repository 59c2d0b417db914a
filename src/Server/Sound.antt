-- ===== src/Server/Sound.antt =====
-- The invariant through the event loop: src/net/Session.cpp, `do_read` and `parse_packet`, and the
-- handlers of src/GameServer.cpp.
use game_server.Prelude.{ℕ, ◌+◌, ◌≡◌, refl, List, [], ◌∷◌, Bytes, ◌<◌, member}
use game_server.Prelude.Exec.{Keeps, modify, then-Keeps, bind-Keeps, pure-Keeps}
use game_server.Prelude.Dict
use game_server.Prelude.Dict.{Dict}
use game_server.Codec.{Message}
use game_server.MessageId
use game_server.Player.Repository.{PlayerState}
use game_server.Proto.{Proto}
use game_server.Room.Invariant as Rooms
use game_server.Server.Steady as Connections
use game_server.Server.Steady.{
  Moves, receives, reads, writes, Steady, noted, of_session, take_packet-Keeps,
}
use game_server.Session
use game_server.Session.{Session}
use game_server.Server.{
  Handler, accept, report_once, Event, accepted, room_timer, timeout_timer, reconnect_timer,
  report_timer, elapse, handle, run, start_handlers,
}
use game_server.Server.Invariant.{IsSessionOk, AreSessionsOk, IsStateOk, IsSound}
use game_server.Server.Keeps.{session-Keeps, write_done-IsSessionOk}
use game_server.Server.Keeps.Rooms.{tick_all-Keeps}
use game_server.Server.Keeps.Closing.{
  fresh-IsSessionOk, close-Keeps, check_timeout-Keeps, check_reconnect_timeout-Keeps,
}
use game_server.Server.Keeps.Services.{login-Keeps, chat-Keeps, heartbeat-Keeps, ranking-Keeps}
use game_server.Server.Keeps.Seats.{match-Keeps, reconnect-Keeps}
use game_server.World.{on_session, World, initial}

abbrev Kept : ℕ → Handler → Type 0
Kept msg_id handler = (sid : ℕ) (m : Message) → Keeps IsSound (handler sid m)

-- Every registered handler keeps the invariant.
abbrev AllKeep : Dict Handler → Type 0
AllKeep = Dict.Every Kept

-- A change that none of the parts sees.
abbrev SameParts : World → World → Type 0
SameParts v w =
    (v.match_queue ≡ w.match_queue)
    × (v.room_manager ≡ w.room_manager)
    × (v.player_state_manager ≡ w.player_state_manager)
    × (v.player_state_repository ≡ w.player_state_repository)

-- `IsSound` for the same parts and new sessions.
resessioned : (w v : World) → IsSound w → SameParts v w → AreSessionsOk v.sessions → IsSound v
resessioned w v h (q, r, m, s) k = record {
  queue = rw q h.queue;
  rooms = rw r h.rooms;
  sessions = k;
  states = rw m h.states;
  stored = rw s h.stored;
}

accept-Keeps : Keeps IsSound accept
unfolding accept Session.start
accept-Keeps = record {
  at = λ w h.
      resessioned w _ h (refl, refl, refl, refl)
        (Dict.Every-put (λ _ s. IsSessionOk s) w.next_session _ w.sessions
          (record { writing = fresh-IsSessionOk.writing; issued = fresh-IsSessionOk.issued })
          h.sessions);
}

destroy-Keeps :
    (sid : ℕ)
    → Keeps IsSound (modify (λ (w : World). record w { sessions = Dict.remove sid w.sessions }))
destroy-Keeps sid = record {
  at = λ w h.
      resessioned w _ h (refl, refl, refl, refl)
        (Dict.Every-remove (λ _ s. IsSessionOk s) sid w.sessions h.sessions);
}

pub elapse-Keeps :
    (ns ms : ℕ)
    → Keeps IsSound
        (modify (λ (w : World). record w { now = w.now + ns; wall_ms = w.wall_ms + ms }))
elapse-Keeps ns ms = record { at = λ w h. resessioned w _ h (refl, refl, refl, refl) h.sessions }

pub report_once-Keeps : Keeps IsSound report_once
unfolding report_once
report_once-Keeps = record { at = λ w h. resessioned w _ h (refl, refl, refl, refl) h.sessions }

-- A packet that is handed over, before its handler runs.
pub noted-IsSound : (sid : ℕ) (rest : Bytes) (w : World) → IsSound w → IsSound (noted sid rest w)
unfolding Session.update_last_active_time
noted-IsSound sid rest w h =
    resessioned w _ h (refl, refl, refl, refl)
      (Dict.Every-modify_twice (λ _ s. IsSessionOk s) (λ s. record s { recv_buffer = rest })
        (Session.update_last_active_time w.now) sid w.sessions
        (λ s ok. record { writing = ok.writing; issued = ok.issued }) h.sessions)

module _ (handlers : Dict Handler) (all : AllKeep handlers) where
  socket-IsSound : {f : Session → Session} → Moves f → (sid : ℕ) → Keeps IsSound (on_session sid f)
  unfolding Session.receive Session.do_read
  socket-IsSound (receives bytes) sid =
      session-Keeps sid (Session.receive bytes)
        (λ s ok. record { writing = ok.writing; issued = ok.issued })
  socket-IsSound reads sid =
      session-Keeps sid Session.do_read
        (λ s ok. record { writing = ok.writing; issued = ok.issued })
  socket-IsSound (writes n) sid =
      session-Keeps sid (Session.write_done n) (write_done-IsSessionOk n)

  pub handlers-IsSound : Steady IsSound handlers
  handlers-IsSound = record {
    takes = λ sid rest m.
        take_packet-Keeps handlers sid rest m (λ msg_id handler e. all msg_id handler e sid)
          (noted-IsSound sid rest) (λ w h. h);
    closes = close-Keeps;
    moves = socket-IsSound;
    ends = λ sid. (destroy-Keeps sid).at;
  }

  pub handle-Keeps : (e : Event) → Keeps IsSound (handle handlers e)
  unfolding handle of_session
  handle-Keeps accepted = bind-Keeps accept _ accept-Keeps (λ _. pure-Keeps tt)
  handle-Keeps room_timer = tick_all-Keeps
  handle-Keeps timeout_timer = check_timeout-Keeps 15
  handle-Keeps reconnect_timer = check_reconnect_timeout-Keeps
  handle-Keeps report_timer = report_once-Keeps
  handle-Keeps (elapse ns ms) = elapse-Keeps ns ms
  handle-Keeps e = Connections.session-Keeps handlers handlers-IsSound e refl

  run-Keeps : (es : List Event) → Keeps IsSound (run handlers es)
  unfolding run
  run-Keeps [] = pure-Keeps tt
  run-Keeps (e ∷ es) = then-Keeps (handle handlers e) _ (handle-Keeps e) (run-Keeps es)

pub start_handlers-AllKeep :
    (proto : Proto) (sort : List PlayerState → List PlayerState)
    → AllKeep (start_handlers proto sort)
unfolding start_handlers
start_handlers-AllKeep proto sort =
    Dict.Every-put Kept MessageId.ranking_req _ _ (ranking-Keeps proto sort) (
      Dict.Every-put Kept MessageId.reconnect_req _ _ (reconnect-Keeps proto) (
        Dict.Every-put Kept MessageId.heartbeat_req _ _ (heartbeat-Keeps proto) (
          Dict.Every-put Kept MessageId.chat_req _ _ (chat-Keeps proto) (
            Dict.Every-put Kept MessageId.match_req _ _ (match-Keeps proto) (
              Dict.Every-put Kept MessageId.login_req _ _ (login-Keeps proto)
                (Dict.Every-empty Kept))))))

pub initial-IsSound : IsSound initial
unfolding member
initial-IsSound = record {
  queue = record { distinct = tt; agree = λ p. refl };
  rooms = λ _. (
    refl,
    record {
      below = λ r room e. Dict.Every-empty (λ r _. r < 1) r room e;
      placed = λ p r e. Dict.Every-empty (λ p r. Rooms.Hosts Dict.empty p r) p r e;
    },
  );
  sessions = Dict.Every-empty (λ _ s. IsSessionOk s);
  states = Dict.Every-empty IsStateOk;
  stored = Dict.Every-empty (λ p s. s.player_id ≡ p);
}

-- After any sequence of connections, reads, writes, failures, timer ticks and disconnects, with
-- any protobuf and any sort, also where a fault has stopped the server: the match queue and its
-- set agree; while fewer than 2^32 - 1 rooms have been opened, every placed player is a member of
-- an existing room; an open session has exactly the write of its front packet outstanding; every
-- token is the one issued for its player, or the empty one for player id 0; every stored player
-- stands under their own id.
pub run-IsSound :
    (proto : Proto) (sort : List PlayerState → List PlayerState) (es : List Event)
    → IsSound (run (start_handlers proto sort) es initial).1
run-IsSound proto sort es =
    (run-Keeps (start_handlers proto sort) (start_handlers-AllKeep proto sort) es).at initial
      initial-IsSound
