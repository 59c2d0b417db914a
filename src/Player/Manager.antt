-- ===== src/Player/Manager.antt =====
-- src/player/PlayerManager.h and src/player/PlayerManager.cpp. A session is named by a number; the
-- map holds weak pointers, and `lock` is asked of the sessions that are alive.
use game_server.Prelude.{ℕ, Bool, length}
use game_server.Prelude.Dict
use game_server.Prelude.Dict.{Dict}

pub record PlayerManager : Type 0 where
  pub players : Dict ℕ

abbrev pub empty : PlayerManager
empty = record { players = Dict.empty }

unfoldable pub add_player : ℕ → ℕ → PlayerManager → PlayerManager
add_player player_id session m = record { players = Dict.put player_id session m.players }

unfoldable pub remove_player : ℕ → PlayerManager → PlayerManager
remove_player player_id m = record { players = Dict.remove player_id m.players }

unfoldable pub is_online : ℕ → PlayerManager → Bool
is_online player_id m = Dict.contains player_id m.players

unfoldable pub online_count : PlayerManager → ℕ
online_count m = length m.players
