-- ===== src/Lib.antt =====
-- A model of the game server: the sessions and their byte streams, the match queue, the rooms, the
-- players, the services that answer requests, and the event loop that runs them.
--
-- How the parts work together. src/GameServer.cpp owns every object; all of them run on one event
-- loop. A read fills a session's buffer, src/net/MessageCodec.cpp cuts packets out of it,
-- src/net/MessageDispatcher.cpp hands each to a service, and the service changes the queue, the rooms
-- and the players and queues replies, which the session writes one at a time. When a session closes, a
-- callback takes its player out of the queue and records where they were, so that
-- src/service/ReconnectService.cpp can seat them again within 30 seconds.
--
-- Files.
--   Prelude: names of the library, Boolean tests, lists over the native numbers, words (an `int` is
--     its bit pattern below 2 ^ 32), text, association lists (Dict), and the state monad with faults
--     (Exec), where a fault is what ends the process: `at` on a missing key, or a null pointer.
--   Codec: src/net/MessageCodec.cpp and src/net/Message.h. RoundTrip has single packets, Stream and
--     Packets the byte stream.
--   Session: src/net/Session.cpp as far as one session goes; Writing has the write queue.
--   Match: src/match. Metrics: src/util/ServerMetrics.cpp. MessageId, Dispatcher: src/net.
--   Proto: the fields of proto/message.proto.
--   Player: Manager, StateManager and Repository, for src/player.
--   Room: src/room/Room.cpp; Manager for src/room/RoomManager.cpp. `opened` counts the rooms ever
--     opened and is no variable of the source. Invariant and Marks are about its two maps, Rematch about
--     a player who is matched while in a room.
--   World: all of these objects as one state, with what reaches across them. Rooms has the methods of
--     rooms that send, Closing the end of a session and the timeouts, Broadcast who can be sent to,
--     Delivery what is queued for whom, Opening what a new room changes.
--   Service: one file for each file of src/service. Under Ranking, Top is about what the reply lists
--     and Order about the order of the map; under Reconnect, Access is about one request, Lost about the
--     seat that a lost connection leaves, Tokens about the tokens after any run.
--   Server: the handler table, parsing, and every event; Invariant, Keeps and Sound have the
--     invariant of all of it, NoFault is about faults, Timeouts and GivingUp about the two timeouts.
--     Frame, Table and Rounds have what the handlers leave alone, Hearing and Parsing the received
--     bytes, Loop the events that can come next, Attending the connections between two events, Pairing
--     the match queue, Steady what the events of a connection keep, Answering the faults of handlers.
--     Timers adds the acceptor and the timers of src/GameServer.cpp and src/util/MetricsReporter.cpp:
--     Steps says what can run next, Shown spells each step out, Refines relates it to Loop, Now, Kept
--     and Fresh are about the clock and what a timer looks after, Punctual, Silence and Seats about
--     how long things take, Going about progress, Refused about an accept that fails.
--   Client: client/ClientSimulator.cpp, the load generator's side of a connection; Starting has
--     its start, its reconnect and its timers, Reading the bytes it receives.
--   Conversation: the client against the server, each reading a packet that the other writes; Login,
--     Reconnect, Matching and Chatting have one request each, Return a connection that is lost and the
--     one after it.
--
-- Choices. A `shared_ptr<Session>` is a number; the sessions alive are a map, so that `lock` on a
-- weak pointer can fail. Both clocks stand still while a handler runs. A timer is the time when
-- its wait ends, if a wait is out; the handler can run then or later, but by no more than `late`
-- nanoseconds, a parameter of Server.Timers. Nothing cancels a wait, so that none ends with an
-- error. An unordered map is a list in some order. Integers are bit patterns that wrap. The
-- atomics do: the counters, and the ids that login and rooms give out. A plain `int` that
-- overflows is undefined in C++, and wraps in the definitions: ServerMetrics' `current - last`,
-- Room's count of ticks and `add_score`. The loops of the source are structural, but for
-- `parse_packet` and the client's `try_parse`, whose fuel is one more than the bytes in the
-- buffer: each round but the last takes six bytes at least. A partial write is an event of its own
-- (`written` with the number of bytes).
--
-- Not modelled: sockets, and whatever boost does behind them; the text of log lines and of decode
-- errors; floating-point numbers, which are a parameter of the one average; the lines that the
-- report and `print_stat`, which nothing starts, print; the threads of client/main.cpp, and
-- exceptions of a connection that breaks under the client; the generated protobuf code, which is a
-- parameter (Proto, ClientProto), as is `std::sort` with the ranking's comparator. The mutexes
-- guard objects that one thread uses, and are left out.
pub mod Prelude
pub mod Codec
pub mod Match
pub mod Player
pub mod Metrics
pub mod Proto
pub mod MessageId
pub mod Session
pub mod Room
pub mod World
pub mod Service
pub mod Dispatcher
pub mod Server
pub mod Client
pub mod Conversation
