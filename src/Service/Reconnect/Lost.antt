-- ===== src/Service/Reconnect/Lost.antt =====
-- What the close callback of src/GameServer.cpp records of a lost connection, and whom it lets back
-- in through src/service/ReconnectService.cpp.
use game_server.Prelude.{
  ℕ, ◌≡◌, refl, ap, ◌∙◌, Bytes, true, false, Option, none, some, arith, bytes_eq_refl, to_i32,
  codes,
}
use game_server.Prelude.Dict
use game_server.Prelude.Exec.{done}
use game_server.Codec.{Message}
use game_server.Player.StateManager
use game_server.Player.StateManager.{PlayerRuntimeState, online, offline}
use game_server.Proto.{Proto}
use game_server.Room.Invariant as Inv
use game_server.Room.Manager as Rooms
use game_server.Room.Marks.{mark_player_disconnected-IsConsistent}
use game_server.Service.Reconnect.{handle_reconnect, reconnect_reply}
use game_server.Service.Reconnect.Access.{accepts, counted, restored, reconnect_accepts}
use game_server.Session.{Session}
use game_server.World.{World, session_at, or_fresh, send}
use game_server.World.Closing.{forget, close}

-- The entry for a player whose connection closes: the one there is, or a new one.
abbrev pub entry_or_new : Option PlayerRuntimeState → ℕ → ℕ → Bytes → PlayerRuntimeState
entry_or_new none p room_id token = record {
  player_id = p;
  room_id = room_id;
  conn_state = online;
  token = token;
  disconnected_time = 0;
}
entry_or_new (some s) p room_id token = s

save_then_mark :
    (p room_id now : ℕ) (token : Bytes) (m : Dict.Dict PlayerRuntimeState)
    → Dict.lookup p (
        Dict.modify
          (λ s. record s { conn_state = offline; disconnected_time = now })
          p
          (Dict.insert p (entry_or_new none p room_id token) m))
      ≡ some (record (entry_or_new (Dict.lookup p m) p room_id token) {
        conn_state = offline;
        disconnected_time = now;
      })
save_then_mark p room_id now token m = ground (
  arith,
  Dict.lookup-modify (λ s. record s { conn_state = offline; disconnected_time = now }) p p
      (Dict.insert p (entry_or_new none p room_id token) m),
  Dict.lookup-insert p p (entry_or_new none p room_id token) m,
  Dict.contains-eq p m,
)

shut : Session → Session
shut s = record s { closed = true }

or_fresh-shut :
    (o : Option Session)
    → ((or_fresh (Dict.over shut o)).player_id ≡ (or_fresh o).player_id)
      × ((or_fresh (Dict.over shut o)).token ≡ (or_fresh o).token)
unfolding shut
or_fresh-shut none = (refl, refl)
or_fresh-shut (some s) = (refl, refl)

lookup-shut :
    (sid : ℕ) (m : Dict.Dict Session)
    → Dict.lookup sid (Dict.modify shut sid m) ≡ Dict.over shut (Dict.lookup sid m)
lookup-shut sid m = ground (arith, Dict.lookup-modify shut sid sid m)

-- The entry that the callback leaves for a player id, a room and a token.
abbrev recorded : ℕ → ℕ → ℕ → Bytes → Dict.Dict PlayerRuntimeState → Option PlayerRuntimeState
recorded p room_id now token m = Dict.lookup p (
    Dict.modify (λ s. record s { conn_state = offline; disconnected_time = now }) p
      (Dict.insert p (entry_or_new none p room_id token) m))

states-close :
    (sid : ℕ) (w : World)
    → (session_at sid w).closed ≡ false
    → (p : ℕ) → p ≡ (session_at sid w).player_id
    → Dict.lookup p (close sid w).1.player_state_manager.states
      ≡ recorded p
          (Rooms.get_room_id_by_player p w.room_manager)
          w.now
          (session_at sid w).token
          w.player_state_manager.states
unfolding close forget StateManager.save_online StateManager.mark_disconnected shut
states-close sid w open_now p e =
    let o = Dict.lookup sid w.sessions in
    let (id_same, token_same) = or_fresh-shut o in
    rw (open_now, lookup-shut sid w.sessions, id_same, token_same, ← e) refl

-- When an open connection closes, its player is recorded as offline from now on. A player who has
-- no entry gets one with their room and the connection's token; one who has an entry keeps its
-- room and its token.
pub close_records :
    (sid : ℕ) (w : World)
    → (session_at sid w).closed ≡ false
    → let s = session_at sid w in
      Dict.lookup s.player_id (close sid w).1.player_state_manager.states
      ≡ some
          (record (entry_or_new
            (Dict.lookup s.player_id w.player_state_manager.states)
            s.player_id
            (Rooms.get_room_id_by_player s.player_id w.room_manager)
            s.token) { conn_state = offline; disconnected_time = w.now })
close_records sid w open_now =
    let s = session_at sid w in
    states-close sid w open_now s.player_id refl
    ∙ save_then_mark s.player_id (Rooms.get_room_id_by_player s.player_id w.room_manager) w.now
        s.token w.player_state_manager.states

-- An open connection closes without a fault where the rooms are consistent, and they stay so.
pub close_rooms :
    (sid : ℕ) (w : World)
    → (session_at sid w).closed ≡ false
    → Inv.IsConsistent w.room_manager
    → ((close sid w).0 ≡ done tt) × Inv.IsConsistent (close sid w).1.room_manager
unfolding close forget
close_rooms sid w open_now h = (
  rw open_now (mark_player_disconnected-IsConsistent _ w.room_manager h).0,
  rw open_now (mark_player_disconnected-IsConsistent _ w.room_manager h).1,
)

-- The entry of a player who had none.
abbrev seat : ℕ → ℕ → ℕ → Bytes → PlayerRuntimeState
seat p room_id now token = record {
  player_id = p;
  room_id = room_id;
  conn_state = offline;
  token = token;
  disconnected_time = now;
}

-- With consistent rooms, an open connection whose player has no entry closes without a fault,
-- whether or not it ever logged in, and a reconnect request with its player id and its token,
-- from any connection, is then served: that connection takes over the id, the token and the
-- place, and the reply of success names the room that the player was in.
pub close_lets_back :
    (proto : Proto) (sid other : ℕ) (m : Message) (w : World)
    → (session_at sid w).closed ≡ false
    → Dict.lookup (session_at sid w).player_id w.player_state_manager.states ≡ none
    → Inv.IsConsistent w.room_manager
    → to_i32 (proto.parse_reconnect_req m.body).player_id ≡ (session_at sid w).player_id
    → (proto.parse_reconnect_req m.body).token ≡ (session_at sid w).token
    → let s = session_at sid w in
      let room_id = Rooms.get_room_id_by_player s.player_id w.room_manager in
      ((close sid w).0 ≡ done tt)
      × (handle_reconnect proto other m (close sid w).1
          ≡ send other
              (reconnect_reply proto 0 s.player_id room_id (codes "reconnect_success"))
              (restored other s.player_id s.token (counted (close sid w).1)))
close_lets_back proto sid other m w open_now absent ok own_id own_token =
    let s = session_at sid w in
    let v = (close sid w).1 in
    let left =
      seat s.player_id (Rooms.get_room_id_by_player s.player_id w.room_manager) w.now s.token in
    let (ended, rooms) = close_rooms sid w open_now ok in
    let found : Dict.lookup s.player_id v.player_state_manager.states ≡ some left =
      close_records sid w open_now ∙ rw absent refl in
    let asked : Dict.lookup (to_i32 (proto.parse_reconnect_req m.body).player_id)
          v.player_state_manager.states
        ≡ some left =
      ap (λ p. Dict.lookup p v.player_state_manager.states) own_id ∙ found in
    let same : accepts (some left) (proto.parse_reconnect_req m.body).token ≡ true =
      ap (accepts (some left)) own_token ∙ ground (arith, bytes_eq_refl s.token) in
    (
      ended,
      reconnect_accepts proto other m v left rooms asked same ∙ (λ i.
          send other (reconnect_reply proto 0 (own_id i) left.room_id (codes "reconnect_success"))
            (restored other (own_id i) (own_token i) (counted v))),
    )
