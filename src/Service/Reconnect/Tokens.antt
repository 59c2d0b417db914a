-- ===== src/Service/Reconnect/Tokens.antt =====
-- Which token brings a player back: src/service/ReconnectService.cpp after any run of the server of
-- src/GameServer.cpp, with the tokens of src/service/LoginService.cpp.
use game_server.Prelude.{
  ℕ, ◌+◌, ◌<◌, ◌≡◌, refl, ap, ◌∙◌, ◌==◌, inl, inr, List, Bytes, true, false, some, arith, bytes_eq,
  Bool-cases, to_i32, i32_mod, codes, if◌then◌else◌,
}
use game_server.Prelude.Dict
use game_server.Codec.{Message}
use game_server.Player.Repository.{PlayerState}
use game_server.Player.StateManager.{PlayerRuntimeState, is_offline}
use game_server.Proto.{Proto}
use game_server.Server.{Event, run, start_handlers}
use game_server.Server.Invariant.{IsIssued, IsSound}
use game_server.Server.Sound.{run-IsSound}
use game_server.Service.Login.{generate_token}
use game_server.Service.Reconnect.{handle_reconnect, reconnect_reply}
use game_server.Service.Reconnect.Access.{
  accepts, counted, restored, reconnect_accepts, reconnect_mismatches,
}
use game_server.World.{World, initial, send, session_at}

issued_lem :
    (p : ℕ) (token : Bytes) → (p == 0) ≡ false → IsIssued p token → token ≡ generate_token p
issued_lem p token positive (inl made) = made
issued_lem p token positive (inr zero_id) = ground (arith, zero_id.0)

token_decides_here :
    (proto : Proto) (session : ℕ) (m : Message) (s : PlayerRuntimeState) (w : World)
    → IsSound w
    → (to_i32 (proto.parse_reconnect_req m.body).player_id == 0) ≡ false
    → Dict.lookup
        (to_i32 (proto.parse_reconnect_req m.body).player_id)
        w.player_state_manager.states
      ≡ some s
    → is_offline s.conn_state ≡ true
    → w.room_manager.opened + 1 < i32_mod
    → let req = proto.parse_reconnect_req m.body in
      let p = to_i32 req.player_id in
      handle_reconnect proto session m w ≡ (
        if bytes_eq (generate_token p) req.token
        then send session
            (reconnect_reply proto 0 p s.room_id (codes "reconnect_success"))
            (restored session p req.token (counted w))
        else send session
            (reconnect_reply proto 1
              (session_at session w).player_id
              0
              (codes "token is not match"))
            (counted w))
token_decides_here proto session m s w sound positive found off ids_left =
    let req = proto.parse_reconnect_req m.body in
    let p = to_i32 req.player_id in
    let made : s.token ≡ generate_token p =
      issued_lem p s.token positive (sound.states p s found).issued in
    let test = ap (λ t. bytes_eq t req.token) made in
    elim (Bool-cases (bytes_eq (generate_token p) req.token)) [
      | inl same ↦
          let yes_ : accepts (some s) req.token ≡ true = rw (test ∙ same, off) refl in
          rw same (reconnect_accepts proto session m w s (sound.rooms ids_left).1 found yes_)
      | inr differs ↦ rw differs (reconnect_mismatches proto session m w s found (test ∙ differs))
    ]

module _ (proto : Proto) (sort : List PlayerState → List PlayerState) where
  -- The server after the events.
  abbrev pub after : List Event → World
  after es = (run (start_handlers proto sort) es initial).1

  -- After any events, where a player is recorded as offline, whose id is not 0, and fewer than
  -- 2^32 - 1 rooms have been opened, a reconnect request for them, from any connection, is served
  -- if its token is the one that generate_token makes of the id: the connection then takes over
  -- the id and the place, and the reply names the room of the record. With any other token, a
  -- refusal is sent and nothing else changes but the request counter.
  pub token_decides :
      (es : List Event) (session : ℕ) (m : Message) (s : PlayerRuntimeState)
      → (to_i32 (proto.parse_reconnect_req m.body).player_id == 0) ≡ false
      → Dict.lookup
          (to_i32 (proto.parse_reconnect_req m.body).player_id)
          (after es).player_state_manager.states
        ≡ some s
      → is_offline s.conn_state ≡ true
      → (after es).room_manager.opened + 1 < i32_mod
      → let req = proto.parse_reconnect_req m.body in
        let p = to_i32 req.player_id in
        handle_reconnect proto session m (after es) ≡ (
          if bytes_eq (generate_token p) req.token
          then send session
              (reconnect_reply proto 0 p s.room_id (codes "reconnect_success"))
              (restored session p req.token (counted (after es)))
          else send session
              (reconnect_reply proto 1
                (session_at session (after es)).player_id
                0
                (codes "token is not match"))
              (counted (after es)))
  token_decides es session m s =
      token_decides_here proto session m s (after es) (run-IsSound proto sort es)
