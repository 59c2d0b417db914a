-- ===== src/Player/Repository.antt =====
-- src/player/PlayerState.h, src/player/PlayerStateRepository.h and
-- src/player/MemoryPlayerStateRepository.cpp.
use game_server.Prelude.{ℕ, List, [], Bool, false, true, Option, none, some, Bytes, minus_one}
use game_server.Prelude.Dict
use game_server.Prelude.Dict.{Dict}

pub record PlayerState : Type 0 where
  pub player_id : ℕ
  pub name : Bytes
  pub score : ℕ
  pub online : Bool
  pub room_id : ℕ
  pub last_login_time_ms : ℕ
  pub last_logout_time_ms : ℕ

abbrev pub default_state : PlayerState
default_state = record {
  player_id = 0;
  name = [];
  score = 0;
  online = false;
  room_id = minus_one;
  last_login_time_ms = 0;
  last_logout_time_ms = 0;
}

pub record Repository : Type 0 where
  pub states : Dict PlayerState

abbrev pub empty : Repository
empty = record { states = Dict.empty }

unfoldable pub save_player_state : PlayerState → Repository → Repository
save_player_state state r = record { states = Dict.put state.player_id state r.states }

unfoldable pub load_player_state : ℕ → Repository → Option PlayerState
load_player_state player_id r = Dict.lookup player_id r.states

-- `states_[player_id]` makes a default record where there is none.
unfoldable pub at_or_new : ℕ → Repository → PlayerState
at_or_new player_id r = elim (Dict.lookup player_id r.states) [
  | none ↦ default_state
  | some state ↦ state
]

unfoldable pub mark_offline : ℕ → Repository → Repository
unfolding at_or_new
mark_offline player_id r = record {
  states = Dict.put player_id (record (at_or_new player_id r) { online = false }) r.states;
}

unfoldable pub mark_online : ℕ → Repository → Repository
unfolding at_or_new
mark_online player_id r = record {
  states = Dict.put player_id (record (at_or_new player_id r) { online = true }) r.states;
}

unfoldable pub update_score : ℕ → ℕ → Repository → Repository
update_score player_id score r = record {
  states = Dict.modify (λ s. record s { score = score }) player_id r.states;
}

unfoldable pub get_all_players : Repository → List PlayerState
get_all_players r = Dict.values r.states
