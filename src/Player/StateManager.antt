-- ===== src/Player/StateManager.antt =====
-- src/player/PlayerRuntimeState.h, src/player/PlayerStateManager.h and
-- src/player/PlayerStateManager.cpp. Times are nanoseconds of the steady clock.
use game_server.Prelude.{
  ℕ, ◌-◌, ◌/◌, ◌^◌, List, [], ◌∷◌, Bool, false, true, Option, none, some, Bytes, ltb, if◌then◌else◌,
  bytes_eq,
}
use game_server.Prelude.Dict
use game_server.Prelude.Dict.{Dict}

pub data PlayerConnState : Type 0 where
  online offline : PlayerConnState

abbrev pub is_offline : PlayerConnState → Bool
is_offline online = false
is_offline offline = true

pub record PlayerRuntimeState : Type 0 where
  pub player_id : ℕ
  pub room_id : ℕ
  pub conn_state : PlayerConnState
  pub token : Bytes
  pub disconnected_time : ℕ

pub record PlayerStateManager : Type 0 where
  pub states : Dict PlayerRuntimeState

abbrev pub empty : PlayerStateManager
empty = record { states = Dict.empty }

-- `duration_cast<seconds>` of a time that is not negative. A clock behind the stamp gives 0 here and
-- at most 0 there, which no test against a timeout tells apart.
abbrev pub seconds_between : ℕ → ℕ → ℕ
seconds_between start now = (now - start) / 10 ^ 9

-- `insert`: a player who is there keeps the old entry.
unfoldable pub save_online : ℕ → ℕ → Bytes → PlayerStateManager → PlayerStateManager
save_online player_id room_id token m = record {
  states =
      Dict.insert player_id
        (record {
          player_id = player_id;
          room_id = room_id;
          conn_state = online;
          token = token;
          disconnected_time = 0;
        })
        m.states;
}

unfoldable pub mark_disconnected : ℕ → ℕ → PlayerStateManager → PlayerStateManager
mark_disconnected now player_id m = record {
  states =
      Dict.modify (λ s. record s { conn_state = offline; disconnected_time = now }) player_id
        m.states;
}

unfoldable pub mark_online : ℕ → PlayerStateManager → PlayerStateManager
mark_online player_id m = record {
  states = Dict.modify (λ s. record s { conn_state = online }) player_id m.states;
}

unfoldable pub remove_player : ℕ → PlayerStateManager → PlayerStateManager
remove_player player_id m = record { states = Dict.remove player_id m.states }

unfoldable pub get_state : ℕ → PlayerStateManager → Option PlayerRuntimeState
get_state player_id m = Dict.lookup player_id m.states

unfoldable pub check_token : ℕ → Bytes → PlayerStateManager → Bool
check_token player_id token m = elim (Dict.lookup player_id m.states) [
  | none ↦ false
  | some state ↦ bytes_eq state.token token
]

-- The loop over `states_`; `timeout` is in seconds.
unfoldable pub timed_out : ℕ → ℕ → Dict PlayerRuntimeState → List ℕ
timed_out timeout now [] = []
timed_out timeout now ((player_id, state) ∷ rest) =
    let players = timed_out timeout now rest in
    if is_offline state.conn_state
    then (if ltb timeout (seconds_between state.disconnected_time now)
        then player_id ∷ players
        else players)
    else players

unfoldable pub get_reconnect_timeout_players : ℕ → ℕ → PlayerStateManager → List ℕ
unfolding timed_out
get_reconnect_timeout_players timeout now m = timed_out timeout now m.states
