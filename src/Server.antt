-- ===== src/Server.antt =====
-- src/GameServer.h and src/GameServer.cpp, with the callbacks of src/net/Session.cpp that run on its
-- event loop. Each completion of an asynchronous operation or a timer is an event; the loop runs
-- one handler after the other.
pub mod Invariant
pub mod Keeps
pub mod Rounds
pub mod Frame
pub mod Table
pub mod Hearing
pub mod Parsing
pub mod Loop
pub mod Attending
pub mod Pairing
pub mod Steady
pub mod Timers
pub mod Sound
pub mod NoFault
pub mod Answering
pub mod Timeouts
pub mod GivingUp
pub mod Toy
mod Tests
use game_server.Prelude.{
  ℕ, zero, suc, ◌+◌, List, [], ◌∷◌, Bytes, Option, none, some, length, if◌then◌else◌,
}
use game_server.Prelude.Exec.{Exec, pure, gets, modify, ◌>>=◌, ◌>>◌}
use game_server.Prelude.Dict
use game_server.Prelude.Dict.{Dict}
use game_server.Codec.{Message, Decoded, success, need_more, error, try_decode}
use game_server.Codec.Stream.{no_message}
use game_server.Dispatcher.{register_handler, handler_of}
use game_server.MessageId
use game_server.Match as Queue
use game_server.Metrics
use game_server.Player.Manager
use game_server.Player.Repository.{PlayerState}
use game_server.Proto.{Proto}
use game_server.Room.Manager as RoomManagers
use game_server.Service.Login.{handle_login}
use game_server.Service.Match.{handle_match}
use game_server.Service.Chat.{handle_chat}
use game_server.Service.Heartbeat.{handle_heartbeat}
use game_server.Service.Ranking.{handle_ranking_req}
use game_server.Service.Reconnect.{handle_reconnect}
use game_server.Session
use game_server.Session.{Session}
use game_server.World.{World, on_metrics, on_rooms, on_session, session_at}
use game_server.World.Closing.{close, connection_count, check_timeout, check_reconnect_timeout}

abbrev pub Handler : Type 0
Handler = ℕ → Message → Exec World (Unit {0})

abbrev pub run_handler : Option Handler → Handler
run_handler none session message = pure tt
run_handler (some handler) session message = handler session message

-- `MessageDispatcher::dispatch`
unfoldable pub dispatch : Dict Handler → Handler
dispatch handlers session message = run_handler (handler_of message.msg_id handlers) session message

-- `do_accept`'s handler for a new connection: the session, its callback and its `start`.
unfoldable pub accept : Exec World ℕ
accept w =
    let sid = w.next_session in
    pure sid (record w {
      sessions = Dict.put sid (Session.start w.now Session.fresh) w.sessions;
      next_session = sid + 1;
    })

-- `MetricsReporter::report_once`, without the line that it prints.
unfoldable pub report_once : Exec World (Unit {0})
report_once = do
  modify (λ w. record w {
    metrics = Metrics.set_connection_count (connection_count w.connections) w.metrics;
  })
  modify (λ w. record w {
    metrics = Metrics.set_match_queue_size (Queue.size w.match_queue) w.metrics;
  })
  modify (λ w. record w {
    metrics = Metrics.set_online_players (Manager.online_count w.player_manager) w.metrics;
  })
  modify (λ w. record w {
    metrics = Metrics.set_room_count (RoomManagers.room_count w.room_manager) w.metrics;
  })
  on_metrics (λ m. (Metrics.calc_recv_qps m).1)
  on_metrics (λ m. (Metrics.calc_send_qps m).1)

-- What the event loop can run next: the completions of GameServer::do_accept and of Session's
-- do_read and do_write, and the waits of start_tick, start_timeout_check,
-- start_reconnect_timeout_check and MetricsReporter::schedule_next. `elapse` lets time pass;
-- `destroy` is the last shared pointer to a session going.
pub data Event : Type 0 where
  accepted : Event
  read : ℕ → Bytes → Event
  read_failed : ℕ → Event
  written : ℕ → ℕ → Event
  write_failed : ℕ → Event
  room_timer timeout_timer reconnect_timer report_timer : Event
  elapse : ℕ → ℕ → Event
  destroy : ℕ → Event

module _ (handlers : Dict Handler) where
  -- What a decoded packet sets off before the loop goes round.
  unfoldable pub take_packet : ℕ → Bytes → Message → Exec World (Unit {0})
  unfolding dispatch
  take_packet sid rest message = do
    on_session sid (λ s. record s { recv_buffer = rest })
    now ← gets (λ w. w.now)
    on_session sid (Session.update_last_active_time now)
    on_metrics Metrics.incr_recv_packet
    dispatch handlers sid message

  abbrev pub by_status : ℕ → Decoded → Exec World (Unit {0}) → Exec World (Unit {0})
  by_status sid d again = elim d.status [
    | success ↦ take_packet sid d.buffer d.out_message >> again
    | need_more ↦ pure tt
    | error ↦ close sid
  ]

  -- `Session::parse_packet`: each round takes a header's six bytes at least.
  unfoldable pub parse_rounds : ℕ → ℕ → Exec World (Unit {0})
  parse_rounds zero sid w = pure tt w
  parse_rounds (suc fuel) sid w =
      by_status sid (try_decode (session_at sid w).recv_buffer no_message) (parse_rounds fuel sid) w

  unfoldable pub parse_packet : ℕ → Exec World (Unit {0})
  unfolding parse_rounds
  parse_packet sid w = parse_rounds (suc (length (session_at sid w).recv_buffer)) sid w

  -- The handler of `async_read_some`, for bytes and for an error.
  unfoldable pub read_done : ℕ → Bytes → Exec World (Unit {0})
  unfolding parse_packet
  read_done sid bytes = do
    on_session sid (Session.receive bytes)
    parse_packet sid
    closed ← gets (λ w. (session_at sid w).closed)
    if closed then pure tt else on_session sid Session.do_read

  -- The handler of each completion; what it starts again is the `reading` and `pending_write` of
  -- the session, and in Server.Timers the acceptor and the waits.
  unfoldable pub handle : Event → Exec World (Unit {0})
  unfolding read_done accept report_once
  handle accepted = accept >>= λ _. pure tt
  handle (read sid bytes) = read_done sid bytes
  handle (read_failed sid) = close sid
  handle (written sid length) = on_session sid (Session.write_done length)
  handle (write_failed sid) = close sid
  handle room_timer = on_rooms (modify RoomManagers.tick_all)
  handle timeout_timer = check_timeout 15
  handle reconnect_timer = check_reconnect_timeout
  handle report_timer = report_once
  handle (elapse nanoseconds milliseconds) =
      modify (λ w. record w { now = w.now + nanoseconds; wall_ms = w.wall_ms + milliseconds })
  handle (destroy sid) = modify (λ w. record w { sessions = Dict.remove sid w.sessions })

  -- A fault ends the process.
  unfoldable pub run : List Event → Exec World (Unit {0})
  unfolding handle
  run [] = pure tt
  run (e ∷ es) = handle e >> run es

-- The table that `GameServer::start` makes.
module _ (proto : Proto) (sort : List PlayerState → List PlayerState) where
  unfoldable pub start_handlers : Dict Handler
  unfolding register_handler
  start_handlers = register_handler MessageId.ranking_req (handle_ranking_req proto sort) (
      register_handler MessageId.reconnect_req (handle_reconnect proto) (
        register_handler MessageId.heartbeat_req (handle_heartbeat proto) (
          register_handler MessageId.chat_req (handle_chat proto) (
            register_handler MessageId.match_req (handle_match proto)
              (register_handler MessageId.login_req (handle_login proto) Dict.empty)))))
