-- ===== src/Session.antt =====
-- src/net/Session.h and src/net/Session.cpp: one connection. `pending_write` and `wire` stand for the
-- socket: the buffer of the outstanding `async_write_some`, and the bytes that it has taken so far.
-- What needs the rest of the server, the dispatch of packets and the close callback, is in World.
pub mod Writing
mod Tests
use game_server.Prelude.{
  ℕ, ◌*◌, ◌-◌, ◌/◌, ◌^◌, List, [], ◌∷◌, ◌++◌, Bool, true, false, Option, none, some, Bytes, take,
  null, ltb, if◌then◌else◌, ◌||◌,
}
use game_server.Codec.{Message, encode}

pub record Session : Type 0 where
  pub player_id : ℕ
  pub token : Bytes
  pub recv_buffer : Bytes
  pub write_queue : List Bytes
  pub last_active_time : ℕ
  pub closed : Bool
  pub reading : Bool
  pub pending_write : Option Bytes
  pub wire : Bytes

abbrev pub fresh : Session
fresh = record {
  player_id = 0;
  token = [];
  recv_buffer = [];
  write_queue = [];
  last_active_time = 0;
  closed = false;
  reading = false;
  pending_write = none;
  wire = [];
}

unfoldable pub set_player_id : ℕ → Session → Session
set_player_id player_id s = record s { player_id = player_id }

unfoldable pub set_token : Bytes → Session → Session
set_token token s = record s { token = token }

unfoldable pub update_last_active_time : ℕ → Session → Session
update_last_active_time time s = record s { last_active_time = time }

-- Whether more than `timeout` whole seconds have passed.
unfoldable pub check_timeout : ℕ → ℕ → Session → Bool
check_timeout timeout now s = ltb timeout ((now - s.last_active_time) / 10 ^ 9)

abbrev pub front : List Bytes → Option Bytes
front [] = none
front (p ∷ ps) = some p

abbrev pub pop_front : List Bytes → List Bytes
pop_front [] = []
pop_front (p ∷ ps) = ps

-- Starts a write of the front packet.
unfoldable pub do_write : Session → Session
do_write s =
    if s.closed || null s.write_queue then s else record s { pending_write = front s.write_queue }

unfoldable pub send : Message → Session → Session
unfolding do_write
send msg s =
    let queued = record s { write_queue = s.write_queue ++ encode msg ∷ [] } in
    if null s.write_queue then do_write queued else queued

abbrev pub given : Option Bytes → Bytes
given none = []
given (some p) = p

-- The handler of `async_write_some` with no error, after `length` bytes.
unfoldable pub write_done : ℕ → Session → Session
unfolding do_write
write_done length s =
    let popped = record s {
      pending_write = none;
      wire = s.wire ++ take length (given s.pending_write);
      write_queue = pop_front s.write_queue;
    } in
    if null popped.write_queue then popped else do_write popped

-- `async_read_some` is started; its handler appends what came.
unfoldable pub do_read : Session → Session
do_read s = record s { reading = true }

unfoldable pub receive : Bytes → Session → Session
receive bytes s = record s { reading = false; recv_buffer = s.recv_buffer ++ bytes }

unfoldable pub start : ℕ → Session → Session
unfolding do_read update_last_active_time
start now s = do_read (update_last_active_time now s)
