-- ===== src/Server/Frame.antt =====
-- What the handlers of src/service leave alone. A property of the state that none of their single
-- stores touches is kept by each of them; the stores to the match queue are asked for apart.
pub mod Services
use game_server.Prelude.{
  set_insert, ◌≡◌, subst, ℕ, List, Bytes, Option, none, some, to_i32, inc_i32, is_nonpos_i32, null,
  codes,
}
use game_server.Prelude.Exec.{
  Exec, Keeps, pure, modify, null_room, null_session, for_each-Keeps, then-Keeps, bind-Keeps,
  bind-gets-Keeps, pure-Keeps, need-Keeps, if-Keeps,
}
use game_server.Prelude.Dict
use game_server.Codec.{Message}
use game_server.Match.{MatchQueue}
use game_server.Match as Queues
use game_server.Metrics
use game_server.Metrics.{ServerMetrics}
use game_server.Player.Manager as Players
use game_server.Player.Manager.{PlayerManager}
use game_server.Player.Repository.{Repository, PlayerState}
use game_server.Player.Repository as Stored
use game_server.Player.StateManager.{PlayerStateManager, PlayerRuntimeState}
use game_server.Player.StateManager
use game_server.Proto.{Proto, ReconnectReq}
use game_server.Room.{Room}
use game_server.Room.Manager.{RoomManager}
use game_server.Room.Manager as Manager
use game_server.Service.Chat as Chat
use game_server.Service.Heartbeat as Heartbeat
use game_server.Service.Login as Login
use game_server.Service.Match as Match
use game_server.Service.Ranking as Ranking
use game_server.Service.Reconnect as Reconnect
use game_server.Session
use game_server.Session.{Session}
use game_server.World.{
  World, on_metrics, on_rooms, on_session, send, get_session, send_to_player, session_at, locked,
}
use game_server.World.Closing.{add_session}
use game_server.World.Rooms as Rooms

-- The changes that handlers make to a session.
pub data Touch : (Session → Session) → Type 0 where
  sends : (m : Message) → Touch (Session.send m)
  names : (p : ℕ) → Touch (Session.set_player_id p)
  trusts : (token : Bytes) → Touch (Session.set_token token)

-- `P` does not depend on what the handlers store, where the message came on connection `here`.
pub record Frame (here : ℕ) (P : World → Type 0) : Type 0 where
  pub metrics : (m : ServerMetrics) (w : World) → P w → P (record w { metrics = m })
  pub players : (m : PlayerManager) (w : World) → P w → P (record w { player_manager = m })
  pub rooms : (m : RoomManager) (w : World) → P w → P (record w { room_manager = m })
  pub connected : (w : World) → P w → P (record w { connections = set_insert here w.connections })
  pub back :
      (p : ℕ) (w : World)
      → P w
      → P (record w { player_state_manager = StateManager.mark_online p w.player_state_manager })
  pub stored : (r : Repository) (w : World) → P w → P (record w { player_state_repository = r })
  pub next_id : (p : ℕ) (w : World) → P w → P (record w { next_player_id = p })
  pub sessions :
      {f : Session → Session}
      → Touch f
      → (sid : ℕ) (w : World) → P w
      → P (record w { sessions = Dict.modify f sid w.sessions })
  pub seen :
      (w : World)
      → P w
      → P (record w {
        sessions = Dict.modify (Session.update_last_active_time w.now) here w.sessions;
      })

module _ {here : ℕ} {P : World → Type 0} (frame : Frame here P) where
  pub metrics-Frame : (f : ServerMetrics → ServerMetrics) → Keeps P (on_metrics f)
  metrics-Frame f = record { at = λ w h. frame.metrics (f w.metrics) w h }

  pub Touch-Frame : (f : Session → Session) (sid : ℕ) → Touch f → Keeps P (on_session sid f)
  Touch-Frame f sid t = record { at = λ w h. frame.sessions t sid w h }

  pub rooms-Frame : {A : Type 0} (m : Exec RoomManager A) → Keeps P (on_rooms m)
  rooms-Frame m = record { at = λ w h. frame.rooms (m w.room_manager).1 w h }

  pub players-Frame :
      (f : PlayerManager → PlayerManager)
      → Keeps P (modify (λ (w : World). record w { player_manager = f w.player_manager }))
  players-Frame f = record { at = λ w h. frame.players (f w.player_manager) w h }

  pub back-Frame :
      (p : ℕ)
      → Keeps P (
          modify (λ (w : World). record w {
            player_state_manager = StateManager.mark_online p w.player_state_manager;
          }))
  back-Frame p = record { at = λ w h. frame.back p w h }

  pub stored-Frame :
      (f : World → Repository) → Keeps P (modify (λ w. record w { player_state_repository = f w }))
  stored-Frame f = record { at = λ w h. frame.stored (f w) w h }

  pub send-Frame : (sid : ℕ) (msg : Message) → Keeps P (send sid msg)
  unfolding send
  send-Frame sid msg =
      then-Keeps _ _ (Touch-Frame (Session.send msg) sid (sends msg))
        (metrics-Frame Metrics.incr_send_packet)

  pub get_session-Frame : (p : ℕ) → Keeps P (get_session p)
  unfolding get_session
  get_session-Frame p = record { at = λ w h. go w (Dict.lookup p w.player_manager.players) h }
    where
      go : (w : World) (o : Option ℕ) → P w → P (locked w o w).1
      go w none h = h
      go w (some sid) h = h

  pub send_to_player-Frame : (msg : Message) (p : ℕ) → Keeps P (send_to_player msg p)
  unfolding send_to_player
  send_to_player-Frame msg p =
      bind-Keeps _ _ (get_session-Frame p)
        (λ o. bind-Keeps _ _ (need-Keeps null_session o) (λ sid. send-Frame sid msg))

  pub add_session-Frame : Keeps P (add_session here)
  unfolding add_session
  add_session-Frame = record { at = λ w h. frame.connected w h }

  -- The time of the message, which the handler has read before.
  pub Touches : ℕ → World → Type 0
  Touches now w = P w × (w.now ≡ now)

  pub seen-Frame :
      (now : ℕ) → Keeps (Touches now) (on_session here (Session.update_last_active_time now))
  unfolding Touches
  seen-Frame now = record {
    at = λ w (h, e). (
      subst
          (λ n. P (record w {
            sessions = Dict.modify (Session.update_last_active_time n) here w.sessions;
          }))
          e (frame.seen w h),
      e,
    );
  }

  pub save_room-Frame : (room_id p : ℕ) → Keeps P (Rooms.save_room room_id p)
  unfolding Rooms.save_room
  save_room-Frame room_id p = record {
    at = λ w h. go w (Stored.load_player_state p w.player_state_repository) h;
  }
    where
      go : (w : World) (o : Option PlayerState) → P w → P (Rooms.with_room room_id o w)
      go w none h = h
      go w (some s) h = frame.stored _ w h

  pub add_score-Frame : (p delta : ℕ) → Keeps P (Ranking.add_score p delta)
  unfolding Ranking.add_score
  add_score-Frame p delta = record {
    at = λ w h. go w (Stored.load_player_state p w.player_state_repository) h;
  }
    where
      go : (w : World) (o : Option PlayerState) → P w → P (Ranking.scored p delta o w)
      go w none h = h
      go w (some s) h = frame.stored _ w h
