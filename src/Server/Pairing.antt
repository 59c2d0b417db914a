-- ===== src/Server/Pairing.antt =====
-- How many players wait: src/service/MatchService.cpp pops two as soon as there are two.
pub mod Tests
pub mod Pairs
use game_server.Prelude.{
  ℕ, suc, ◌+◌, ◌≤◌, ◌<◌, ◌≡◌, refl, ap, ◌∙◌, inl, inr, List, [], ◌∷◌, Bytes, Option, none, some,
  Bool, true, false, length, drop, arith, tests, Bool-cases, codes, to_i32, is_nonpos_i32, ltb,
  erase_first, length-append, length-drop,
}
use game_server.Prelude.Exec.{
  Keeps, pure, ◌>>=◌, modify, then-Keeps, bind-Keeps, bind-gets-Keeps, for_each-Keeps, if-Keeps,
  pure-Keeps, gets,
}
use game_server.Prelude.Dict
use game_server.Codec.{Message}
use game_server.Match as Queues
use game_server.Match.{MatchQueue}
use game_server.Match.Laws.{pop_rounds_lem}
use game_server.Metrics
use game_server.Player.Repository.{PlayerState}
use game_server.Proto.{Proto}
use game_server.Room.Manager as Manager
use game_server.Server.{
  Handler, Event, accepted, read, read_failed, written, write_failed, room_timer, timeout_timer,
  reconnect_timer, report_timer, elapse, destroy, handle, run, run_handler, dispatch, take_packet,
  parse_packet, read_done, start_handlers, accept, report_once,
}
use game_server.Server.Frame.{Frame, metrics-Frame, send-Frame}
use game_server.Server.Frame.Services.{refuse-Frame, make_room-Frame}
use game_server.Server.Steady.{Steady, of_session, take_packet-Keeps, session-Keeps}
use game_server.Server.Steady.Closing.{
  shut_at, close-Keeps, check_timeout-Keeps, check_reconnect_timeout-Keeps,
}
use game_server.Server.Table.{KeepsAll, all_at, start_handlers-Frame}
use game_server.Dispatcher.{handler_of}
use game_server.Server.Rounds.{parse_packet-Keeps}
use game_server.Service.Match as Match
use game_server.Session
use game_server.Session.{Session}
use game_server.World.{World, initial, on_session, on_rooms, on_metrics, session_at, send}
use game_server.World.Rooms.{create_room}
use game_server.World.Closing.{
  close, on_closed, forget, check_timeout, idle_sessions, check_reconnect_timeout, give_up,
}

-- At most one player waits.
abbrev pub IsShort : World → Type 0
IsShort w = length w.match_queue.queue ≤ 1

IsShort-Frame : (here : ℕ) → Frame here IsShort
IsShort-Frame here = record {
  metrics = λ m w h. h;
  players = λ m w h. h;
  rooms = λ m w h. h;
  connected = λ w h. h;
  back = λ p w h. h;
  stored = λ r w h. h;
  next_id = λ p w h. h;
  sessions = λ {f} t sid w h. h;
  seen = λ w h. h;
}

length-erase_first : (a : ℕ) (xs : List ℕ) → length (erase_first a xs) ≤ length xs
unfolding erase_first
length-erase_first a [] = omega arith
length-erase_first a (x ∷ xs) = ground (arith, length-erase_first a xs)

leave-IsShort : (p : ℕ) (q : MatchQueue) → length q.queue ≤ 1 → length (Queues.leave p q).queue ≤ 1
unfolding Queues.leave
leave-IsShort p q h = ground (arith, length-erase_first p q.queue)

join_grows : (p : ℕ) (q : MatchQueue) → length q.queue ≤ 1 → length (Queues.join p q).queue ≤ 2
unfolding Queues.join
join_grows p q h = omega (arith, length-append q.queue (p ∷ []))

pop-IsShort :
    (q : MatchQueue) → length q.queue ≤ 2 → length (Queues.try_pop_matched_players 2 q).1.queue ≤ 1
unfolding Queues.try_pop_matched_players
pop-IsShort q h = elim (Bool-cases (ltb (length q.queue) 2)) [
  | inl few ↦ rw (few, Queues.try_pop_matched_players) (omega tests)
  | inr many ↦
      rw
        (many, Queues.try_pop_matched_players, pop_rounds_lem 2 [] q.queue q.in_queue (omega tests))
        (omega (arith, length-drop 2 q.queue))
]

module _ (proto : Proto) where
  -- The queue has two players for a moment only: nothing can fault before the pop.
  enqueue-IsShort : (session p : ℕ) → Keeps IsShort (Match.enqueue proto session p)
  unfolding Match.enqueue Match.send_match_success Match.pop_players send
  enqueue-IsShort session p = record {
    at = λ w h.
        (make_room-Frame (IsShort-Frame session) proto
            (Queues.try_pop_matched_players 2 (Queues.join p w.match_queue)).0).at
          _ (pop-IsShort (Queues.join p w.match_queue) (join_grows p w.match_queue h));
  }

  match-IsShort : (session : ℕ) (m : Message) → Keeps IsShort (Match.handle_match proto session m)
  unfolding Match.handle_match
  match-IsShort session m =
      let p = to_i32 (proto.parse_match_req m.body).player_id in
      then-Keeps _ _ (metrics-Frame (IsShort-Frame session) Metrics.incr_match_req) (
        if-Keeps (is_nonpos_i32 p) _ _ (refuse-Frame (IsShort-Frame session) proto _) (record {
          at = λ w h.
              (if-Keeps (Queues.contains p w.match_queue) _ _
                  (refuse-Frame (IsShort-Frame session) proto _) (enqueue-IsShort session p)).at
                w h;
        }))

close-IsShort : (sid : ℕ) → Keeps IsShort (close sid)
unfolding forget
close-IsShort sid =
    close-Keeps (λ m w h. h) sid
      (λ w h. leave-IsShort (session_at sid (shut_at sid w)).player_id w.match_queue h)

start_handlers-IsShort :
    (proto : Proto) (sort : List PlayerState → List PlayerState)
    → Steady IsShort (start_handlers proto sort)
start_handlers-IsShort proto sort = record {
  takes = λ sid rest m.
      take_packet-Keeps (start_handlers proto sort) sid rest m
        (start_handlers-Frame IsShort sid (IsShort-Frame sid) proto sort (match-IsShort proto sid))
        (λ w h. h) (λ w h. h);
  closes = close-IsShort;
  moves = λ moved sid. record { at = λ w h. h };
  ends = λ sid w h. h;
}

module _ (handlers : Dict.Dict Handler) (steady : Steady IsShort handlers) where
  handle-IsShort : (e : Event) → Keeps IsShort (handle handlers e)
  unfolding handle accept report_once of_session
  handle-IsShort accepted = record { at = λ w h. h }
  handle-IsShort room_timer = record { at = λ w h. h }
  handle-IsShort timeout_timer = check_timeout-Keeps (λ m w h. h) 15 close-IsShort
  handle-IsShort reconnect_timer = check_reconnect_timeout-Keeps (λ m w h. h) (λ p w h. h)
  handle-IsShort report_timer = record { at = λ w h. h }
  handle-IsShort (elapse ns ms) = record { at = λ w h. h }
  handle-IsShort e = session-Keeps handlers steady e refl

  run_from-IsShort : (es : List Event) → Keeps IsShort (run handlers es)
  unfolding run
  run_from-IsShort [] = pure-Keeps tt
  run_from-IsShort (e ∷ es) =
      then-Keeps (handle handlers e) _ (handle-IsShort e) (run_from-IsShort es)

-- After any events, with any protobuf and any sort, also where a fault has stopped the server, at
-- most one player waits in the match queue.
pub run-IsShort :
    (proto : Proto) (sort : List PlayerState → List PlayerState) (es : List Event)
    → IsShort (run (start_handlers proto sort) es initial).1
run-IsShort proto sort es =
    (run_from-IsShort (start_handlers proto sort) (start_handlers-IsShort proto sort) es).at initial
      (omega arith)
