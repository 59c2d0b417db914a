-- ===== src/Service/Reconnect/Access.antt =====
-- Who gets back in: src/service/ReconnectService.cpp.
use game_server.Prelude.{
  ℕ, ◌≡◌, refl, ap, ◌∙◌, inl, inr, Bytes, Bool, true, false, ◌&&◌, Option, none, some, arith,
  bytes_eq, to_i32, Bool-cases, set_insert, codes, member, member-set_insert,
}
use game_server.Prelude.Exec.{done, modify, after-done}
use game_server.Prelude.Dict
use game_server.Codec.{Message}
use game_server.Metrics
use game_server.Player.Manager
use game_server.Player.StateManager
use game_server.Player.StateManager.{PlayerRuntimeState, online, offline, is_offline}
use game_server.Proto.{Proto, ReconnectReq}
use game_server.Room.Manager as Rooms
use game_server.Room.Invariant as Inv
use game_server.Room.Marks as Marks
use game_server.Service.Reconnect.{restore, try_reconnect, handle_reconnect, reconnect_reply}
use game_server.Session
use game_server.World.{World, send, on_rooms, session_at}
use game_server.World.Closing.{add_session}

-- The test of the handler: the player is known, holds this token and is offline.
abbrev pub accepts : Option PlayerRuntimeState → Bytes → Bool
accepts none token = false
accepts (some s) token = bytes_eq s.token token && is_offline s.conn_state

-- The server after a player has got back in.
abbrev pub restored : ℕ → ℕ → Bytes → World → World
restored session p token w = record w {
  sessions =
      Dict.modify (Session.set_token token) session
        (Dict.modify (Session.set_player_id p) session w.sessions);
  player_manager = Manager.add_player p session w.player_manager;
  connections = set_insert session w.connections;
  room_manager = (Rooms.mark_player_reconnected p w.room_manager).1;
  player_state_manager = StateManager.mark_online p w.player_state_manager;
}

restore_eq :
    (session p : ℕ) (token : Bytes) (w : World)
    → Inv.IsConsistent w.room_manager
    → restore session p token w ≡ (done tt, restored session p token w)
unfolding restore add_session
restore_eq session p token w ok =
    after-done
      (on_rooms (Rooms.mark_player_reconnected p) (record w {
        sessions =
            Dict.modify (Session.set_token token) session
              (Dict.modify (Session.set_player_id p) session w.sessions);
        player_manager = Manager.add_player p session w.player_manager;
        connections = set_insert session w.connections;
      }))
      (modify (λ v. record v {
        player_state_manager = StateManager.mark_online p v.player_state_manager;
      }))
      (Marks.mark_player_reconnected-IsConsistent p w.room_manager ok).0

abbrev pub counted : World → World
counted w = record w { metrics = Metrics.incr_reconnect_req w.metrics }

module _ (proto : Proto) where
  try_accepted :
      (session : ℕ) (req : ReconnectReq) (s : PlayerRuntimeState) (w : World)
      → Inv.IsConsistent w.room_manager
      → accepts (some s) req.token ≡ true
      → try_reconnect proto session req (some s) w
        ≡ send session
            (reconnect_reply proto 0 (to_i32 req.player_id) s.room_id (codes "reconnect_success"))
            (restored session (to_i32 req.player_id) req.token w)
  unfolding try_reconnect
  try_accepted session req s w ok yes_ =
      let same : bytes_eq s.token req.token ≡ true = ground arith in
      let off : is_offline s.conn_state ≡ true = ground arith in
      rw (same, off, restore_eq session (to_i32 req.player_id) req.token w ok) refl

  -- With consistent rooms, a reconnect request whose player is recorded with this token and as
  -- offline is served without a fault: the connection takes over the player's id, token and
  -- place, and the reply names the room of the record.
  pub reconnect_accepts :
      (session : ℕ) (m : Message) (w : World) (s : PlayerRuntimeState)
      → Inv.IsConsistent w.room_manager
      → Dict.lookup
          (to_i32 (proto.parse_reconnect_req m.body).player_id)
          w.player_state_manager.states
        ≡ some s
      → accepts (some s) (proto.parse_reconnect_req m.body).token ≡ true
      → let req = proto.parse_reconnect_req m.body in
        handle_reconnect proto session m w
        ≡ send session
            (reconnect_reply proto 0 (to_i32 req.player_id) s.room_id (codes "reconnect_success"))
            (restored session (to_i32 req.player_id) req.token (counted w))
  unfolding handle_reconnect StateManager.get_state
  reconnect_accepts session m w s ok e yes_ = rw e (try_accepted session _ s (counted w) ok yes_)

  -- A reconnect request for a player who is recorded with another token is refused for the token.
  pub reconnect_mismatches :
      (session : ℕ) (m : Message) (w : World) (s : PlayerRuntimeState)
      → Dict.lookup
          (to_i32 (proto.parse_reconnect_req m.body).player_id)
          w.player_state_manager.states
        ≡ some s
      → bytes_eq s.token (proto.parse_reconnect_req m.body).token ≡ false
      → handle_reconnect proto session m w
        ≡ send session
            (reconnect_reply proto 1
              (session_at session w).player_id
              0
              (codes "token is not match"))
            (counted w)
  unfolding handle_reconnect StateManager.get_state try_reconnect
  reconnect_mismatches session m w s e no_ = rw (e, no_) refl

  try_refused :
      (session : ℕ) (req : ReconnectReq) (found : Option PlayerRuntimeState) (w : World)
      → accepts found req.token ≡ false
      → (reason : Bytes) × (try_reconnect proto session req found w
          ≡ send session (reconnect_reply proto 1 (session_at session w).player_id 0 reason) w)
  unfolding try_reconnect
  try_refused session req none w no_ = (codes "player state not found", refl)
  try_refused session req (some s) w no_ = elim (Bool-cases (bytes_eq s.token req.token)) [
    | inl same ↦
        let on : is_offline s.conn_state ≡ false = ground arith in
        (codes "connection state is not offline", rw (same, on) refl)
    | inr differs ↦ (codes "token is not match", rw differs refl)
  ]

  -- A reconnect request whose player is not recorded, or with another token, or not as offline,
  -- changes nothing but the request counter and what a send changes, where a refusal is queued.
  pub reconnect_refuses :
      (session : ℕ) (m : Message) (w : World)
      → accepts
          (Dict.lookup
            (to_i32 (proto.parse_reconnect_req m.body).player_id)
            w.player_state_manager.states)
          (proto.parse_reconnect_req m.body).token
        ≡ false
      → (reason : Bytes) × (handle_reconnect proto session m w
          ≡ send session
              (reconnect_reply proto 1 (session_at session w).player_id 0 reason)
              (counted w))
  unfolding handle_reconnect StateManager.get_state
  reconnect_refuses session m w no_ = try_refused session _ _ (counted w) no_

accepts_online :
    (o : Option PlayerRuntimeState) (token : Bytes)
    → accepts (Dict.over (λ s. record s { conn_state = online }) o) token ≡ false
accepts_online none token = refl
accepts_online (some s) token = ground arith

-- In the state after a reconnect, the player is known under the connection, which is in the
-- timeout check, and another reconnect for the same player is not accepted, whatever its token.
pub restored_lem :
    (session p : ℕ) (token other : Bytes) (w : World)
    → (Dict.lookup p (restored session p token w).player_manager.players ≡ some session)
      × (member session (restored session p token w).connections ≡ true)
      × (accepts (Dict.lookup p (restored session p token w).player_state_manager.states) other
          ≡ false)
unfolding Manager.add_player StateManager.mark_online
restored_lem session p token other w = (
  ground (arith, Dict.lookup-put p p session w.player_manager.players),
  ground (arith, member-set_insert session session w.connections),
  ap (λ o. accepts o other)
        (ground (
          arith,
          Dict.lookup-modify (λ s. record s { conn_state = online }) p p
              w.player_state_manager.states,
        ))
      ∙ accepts_online (Dict.lookup p w.player_state_manager.states) other,
)
