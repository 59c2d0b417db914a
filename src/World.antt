-- ===== src/World.antt =====
-- The objects that src/GameServer.h owns, as one state, and the methods that reach across them:
-- sending to a session, and finding a player's session. A session is named by a number; `sessions`
-- holds those alive, so `lock` on a weak pointer asks whether the number is there. `now` is the
-- steady clock in nanoseconds and `wall_ms` the system clock; both stand still during one handler.
pub mod Rooms
pub mod Broadcast
pub mod Delivery
pub mod Opening
pub mod Closing
use game_server.Prelude.{ℕ, ◌+◌, List, [], Bytes, Option, none, some, Bool, if◌then◌else◌, length}
use game_server.Prelude.Exec.{
  Exec, pure, raise, need, gets, modify, out_of_range, null_session, Outcome, ◌>>=◌, ◌>>◌,
}
use game_server.Prelude.Dict
use game_server.Prelude.Dict.{Dict}
use game_server.Codec.{Message}
use game_server.Match
use game_server.Match.{MatchQueue}
use game_server.Metrics
use game_server.Metrics.{ServerMetrics}
use game_server.Player.Manager
use game_server.Player.Manager.{PlayerManager}
use game_server.Player.StateManager
use game_server.Player.StateManager.{PlayerStateManager}
use game_server.Player.Repository
use game_server.Player.Repository.{Repository}
use game_server.Room.Manager as RoomManagers
use game_server.Room.Manager.{RoomManager}
use game_server.Session
use game_server.Session.{Session}

pub record World : Type 0 where
  pub player_manager : PlayerManager
  pub room_manager : RoomManager
  pub match_queue : MatchQueue
  pub connections : List ℕ
  pub player_state_manager : PlayerStateManager
  pub player_state_repository : Repository
  pub metrics : ServerMetrics
  pub next_player_id : ℕ
  pub sessions : Dict Session
  pub next_session : ℕ
  pub now : ℕ
  pub wall_ms : ℕ

abbrev pub initial : World
initial = record {
  player_manager = Manager.empty;
  room_manager = RoomManagers.initial;
  match_queue = Match.empty;
  connections = [];
  player_state_manager = StateManager.empty;
  player_state_repository = Repository.empty;
  metrics = Metrics.initial;
  next_player_id = 10000;
  sessions = Dict.empty;
  next_session = 1;
  now = 0;
  wall_ms = 0;
}

-- A method of one of the parts, as one of the whole.
abbrev pub on_metrics : (ServerMetrics → ServerMetrics) → Exec World (Unit {0})
on_metrics f = modify (λ w. record w { metrics = f w.metrics })

abbrev pub on_session : ℕ → (Session → Session) → Exec World (Unit {0})
on_session sid f = modify (λ w. record w { sessions = Dict.modify f sid w.sessions })

abbrev zoomed : {A : Type 0} → World → Outcome A × RoomManager → Outcome A × World
zoomed w (r, m) = (r, record w { room_manager = m })

abbrev pub on_rooms : {A : Type 0} → Exec RoomManager A → Exec World A
on_rooms m w = zoomed w (m w.room_manager)

-- The session that a shared pointer points to.
abbrev pub or_fresh : Option Session → Session
or_fresh none = Session.fresh
or_fresh (some s) = s

abbrev pub session_at : ℕ → World → Session
session_at sid w = or_fresh (Dict.lookup sid w.sessions)

-- `session->send(msg)`
unfoldable pub send : ℕ → Message → Exec World (Unit {0})
send sid msg = do on_session sid (Session.send msg); on_metrics Metrics.incr_send_packet

-- `players_.at(player_id).lock()`
abbrev pub locked : World → Option ℕ → Exec World (Option ℕ)
locked w none = raise out_of_range
locked w (some sid) = pure (if Dict.contains sid w.sessions then some sid else none)

unfoldable pub get_session : ℕ → Exec World (Option ℕ)
get_session player_id w = locked w (Dict.lookup player_id w.player_manager.players) w

-- `player_manager_.get_session(player_id)->send(msg)`
unfoldable pub send_to_player : Message → ℕ → Exec World (Unit {0})
unfolding get_session
send_to_player msg player_id = do
  found ← get_session player_id
  session ← need null_session found
  send session msg
