-- ===== src/Server/Keeps.antt =====
-- The invariant through the actions of src/net/Session.cpp, src/room and src/match that every handler
-- is made of.
pub mod Rooms
pub mod Closing
pub mod Services
pub mod Seats
use game_server.Prelude.{
  ℕ, ◌+◌, ◌<◌, ◌≡◌, refl, sym, ap, ◌∙◌, ◌⊎◌, inl, inr, List, [], ◌∷◌, Bool, true, false, Option,
  none, some, Bytes, i32_mod, arith, ◌==◌, if◌then◌else◌, ==-cases, Option-cases, Bool-cases,
}
use game_server.Prelude.Exec.{
  Exec, Keeps, Outcome, done, fault, pure, modify, need, raise, for_each, for_each-Keeps,
  then-Keeps, bind-Keeps, null_session, need-Keeps, ◌>>=◌, ◌>>◌,
}
use game_server.Prelude.Dict
use game_server.Prelude.Dict.{Dict}
use game_server.Codec.{Message}
use game_server.Match as Queues
use game_server.Match.{MatchQueue}
use game_server.Match.Laws as Queue
use game_server.Metrics
use game_server.Metrics.{ServerMetrics}
use game_server.Player.Repository.{Repository, PlayerState}
use game_server.Room.Manager.{RoomManager, open_room}
use game_server.Session.{Session}
use game_server.Session as Sessions
use game_server.Session.Writing.{send-IsWriting, write_done-IsWriting, send_keeps, write_done_keeps}
use game_server.Server.Invariant.{
  IsSessionOk, AreSessionsOk, AreRoomsOk, IsStateOk, AreStatesOk, AreStoredOk, IsSound, IsIssued,
}
use game_server.World.{
  World, on_metrics, on_session, on_rooms, send, get_session, send_to_player, session_at, locked,
}

-- A change of one part that keeps what holds of that part.
pub metrics-Keeps : (f : ServerMetrics → ServerMetrics) → Keeps IsSound (on_metrics f)
metrics-Keeps f = record {
  at = λ w h. record {
    queue = h.queue;
    rooms = h.rooms;
    sessions = h.sessions;
    states = h.states;
    stored = h.stored;
  };
}

pub queue-Keeps :
    (f : MatchQueue → MatchQueue)
    → ((q : MatchQueue) → Queue.IsConsistent q → Queue.IsConsistent (f q))
    → Keeps IsSound (modify (λ (w : World). record w { match_queue = f w.match_queue }))
queue-Keeps f k = record {
  at = λ w h. record {
    queue = k w.match_queue h.queue;
    rooms = h.rooms;
    sessions = h.sessions;
    states = h.states;
    stored = h.stored;
  };
}

pub session-Keeps :
    (sid : ℕ) (f : Session → Session)
    → ((s : Session) → IsSessionOk s → IsSessionOk (f s))
    → Keeps IsSound (on_session sid f)
session-Keeps sid f k = record {
  at = λ w h. record {
    queue = h.queue;
    rooms = h.rooms;
    sessions = Dict.Every-modify (λ _ s. IsSessionOk s) f sid w.sessions k h.sessions;
    states = h.states;
    stored = h.stored;
  };
}

zoomed-IsSound :
    {A : Type 0} (w : World) (r : Outcome A × RoomManager)
    → IsSound w
    → AreRoomsOk r.1
    → IsSound (record w { room_manager = r.1 })
zoomed-IsSound w r h k = record {
  queue = h.queue;
  rooms = k;
  sessions = h.sessions;
  states = h.states;
  stored = h.stored;
}

pub rooms-Keeps :
    {A : Type 0} (m : Exec RoomManager A) → Keeps AreRoomsOk m → Keeps IsSound (on_rooms m)
rooms-Keeps m k = record {
  at = λ w h. zoomed-IsSound w (m w.room_manager) h (k.at w.room_manager h.rooms);
}

pub stored-Keeps :
    (f : World → World)
    → ((w : World)
        → AreStoredOk w.player_state_repository.states
        → AreStoredOk (f w).player_state_repository.states)
    → ((w : World) → f w ≡ record w { player_state_repository = (f w).player_state_repository })
    → Keeps IsSound (modify f)
stored-Keeps f k same = record {
  at = λ w h. rw (same w) (record {
    queue = h.queue;
    rooms = h.rooms;
    sessions = h.sessions;
    states = h.states;
    stored = k w h.stored;
  });
}

pub send-IsSessionOk : (m : Message) (s : Session) → IsSessionOk s → IsSessionOk (Sessions.send m s)
send-IsSessionOk m s h =
    let (c, p, t) = send_keeps m s in
    record {
      writing = λ open_now. (send-IsWriting m s (sym c ∙ open_now, h.writing (sym c ∙ open_now))).1;
      issued = rw (p, t) h.issued;
    }

pub write_done-IsSessionOk :
    (n : ℕ) (s : Session) → IsSessionOk s → IsSessionOk (Sessions.write_done n s)
write_done-IsSessionOk n s h =
    let (c, p, t) = write_done_keeps n s in
    record {
      writing =
          λ open_now. (write_done-IsWriting n s (sym c ∙ open_now, h.writing (sym c ∙ open_now))).1;
      issued = rw (p, t) h.issued;
    }

pub send-Keeps : (sid : ℕ) (msg : Message) → Keeps IsSound (send sid msg)
unfolding send
send-Keeps sid msg =
    then-Keeps _ _ (session-Keeps sid (Sessions.send msg) (send-IsSessionOk msg))
      (metrics-Keeps Metrics.incr_send_packet)

locked-world : (w : World) (o : Option ℕ) → (locked w o w).1 ≡ w
locked-world w none = refl
locked-world w (some sid) = refl

get_session-Keeps : (p : ℕ) → Keeps IsSound (get_session p)
unfolding get_session
get_session-Keeps p = record {
  at = λ w h. rw (locked-world w (Dict.lookup p w.player_manager.players)) h;
}

pub send_to_player-Keeps : (msg : Message) (p : ℕ) → Keeps IsSound (send_to_player msg p)
unfolding send_to_player
send_to_player-Keeps msg p =
    bind-Keeps _ _ (get_session-Keeps p)
      (λ o. bind-Keeps _ _ (need-Keeps null_session o) (λ sid. send-Keeps sid msg))
