-- ===== src/Room.antt =====
-- src/room/Room.h and src/room/Room.cpp: the members of one room and their connection states. The
-- sending methods, which need the players' sessions, are in World.Rooms.
pub mod Manager
pub mod Invariant
pub mod Marks
pub mod Rematch
mod Tests
use game_server.Prelude.{
  ℕ, ◌%◌, List, [], ◌∷◌, ◌++◌, Bool, true, false, Option, none, some, length, null, ◌==◌, ◌&&◌,
  if◌then◌else◌, inc_i32, erase_first, member,
}
use game_server.Prelude.Dict
use game_server.Prelude.Dict.{Dict}
use game_server.Player.StateManager.{
  PlayerConnState, PlayerRuntimeState, online, offline, is_offline,
}

pub record Room : Type 0 where
  pub room_id : ℕ
  pub player_ids : List ℕ
  pub player_states : Dict PlayerRuntimeState
  pub enable_room_tick_log : Bool
  pub tick_count : ℕ

abbrev joined : ℕ → ℕ → PlayerRuntimeState
joined room_id player_id = record {
  player_id = player_id;
  room_id = room_id;
  conn_state = online;
  token = [];
  disconnected_time = 0;
}

-- The constructor's loop.
unfoldable pub insert_states : ℕ → List ℕ → Dict PlayerRuntimeState → Dict PlayerRuntimeState
insert_states room_id [] m = m
insert_states room_id (player_id ∷ ids) m =
    insert_states room_id ids (Dict.insert player_id (joined room_id player_id) m)

unfoldable pub new_room : ℕ → List ℕ → Room
unfolding insert_states
new_room room_id player_ids = record {
  room_id = room_id;
  player_ids = player_ids;
  player_states = insert_states room_id player_ids Dict.empty;
  enable_room_tick_log = false;
  tick_count = 0;
}

unfoldable pub add_player : ℕ → Room → Room
add_player player_id r = record r { player_ids = r.player_ids ++ player_id ∷ [] }

unfoldable pub remove_player : ℕ → Room → Room
remove_player player_id r = record r { player_ids = erase_first player_id r.player_ids }

unfoldable pub is_empty : Room → Bool
is_empty r = null r.player_ids

unfoldable pub has_player : ℕ → Room → Bool
has_player player_id r = member player_id r.player_ids

unfoldable pub player_count : Room → ℕ
player_count r = length r.player_ids

-- The counts of the log line.
pub record Counts : Type 0 where
  pub online : ℕ
  pub offline : ℕ

unfoldable pub count_states : Dict PlayerRuntimeState → Counts
count_states [] = record { online = 0; offline = 0 }
count_states ((id, s) ∷ rest) =
    let c = count_states rest in
    if is_offline s.conn_state
    then record c { offline = inc_i32 c.offline }
    else record c { online = inc_i32 c.online }

-- The new room, and what is logged.
-- The ticks are counted in a plain `int`: past 2 ^ 31 - 1 of them, `++` is undefined in C++.
unfoldable pub tick : Room → Room × Option Counts
tick r =
    let ticked = record r { tick_count = inc_i32 r.tick_count } in
    if r.enable_room_tick_log && (ticked.tick_count % 50 == 0)
    then (ticked, some (count_states r.player_states))
    else (ticked, none)

unfoldable pub is_player_disconnected : ℕ → Room → Bool
is_player_disconnected player_id r = elim (Dict.lookup player_id r.player_states) [
  | none ↦ false
  | some state ↦ is_offline state.conn_state
]

unfoldable pub mark_player_disconnected : ℕ → Room → Room
mark_player_disconnected player_id r = record r {
  player_states = Dict.modify (λ s. record s { conn_state = offline }) player_id r.player_states;
}

unfoldable pub mark_player_online : ℕ → Room → Room
mark_player_online player_id r = record r {
  player_states = Dict.modify (λ s. record s { conn_state = online }) player_id r.player_states;
}
