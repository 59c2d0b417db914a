-- ===== src/Server/Invariant.antt =====
-- The invariant of the server's objects (src/GameServer.h), part by part.
use game_server.Prelude.{ℕ, ◌+◌, ◌<◌, ◌≡◌, ◌⊎◌, [], false, Bytes, i32_mod}
use game_server.Prelude.Dict
use game_server.Prelude.Dict.{Dict}
use game_server.Match.Laws as Queue
use game_server.Player.Repository.{PlayerState}
use game_server.Player.StateManager.{PlayerRuntimeState}
use game_server.Room.Invariant as Rooms
use game_server.Room.Manager.{RoomManager}
use game_server.Service.Login.{generate_token}
use game_server.Session.{Session}
use game_server.Session as Sessions
use game_server.World.{World}

-- A token is the one made for its player at login, or the empty one of a connection that never
-- logged in, whose player id is 0.
abbrev pub IsIssued : ℕ → Bytes → Type 0
IsIssued player_id token = (token ≡ generate_token player_id) ⊎ ((player_id ≡ 0) × (token ≡ []))

-- An open session writes its front packet exactly while packets are queued, and holds an issued
-- token.
pub record IsSessionOk (s : Session) : Type 0 where
  pub writing : s.closed ≡ false → s.pending_write ≡ Sessions.front s.write_queue
  pub issued : IsIssued s.player_id s.token

abbrev pub AreSessionsOk : Dict Session → Type 0
AreSessionsOk = Dict.Every (λ _ s. IsSessionOk s)

-- The ids of rooms are given out in order, and the rooms and the players agree, until the 32-bit ids
-- are used up.
abbrev pub AreRoomsOk : RoomManager → Type 0
AreRoomsOk m = m.opened + 1 < i32_mod → (m.next_room_id ≡ m.opened + 1) × Rooms.IsConsistent m

pub record IsStateOk (player_id : ℕ) (s : PlayerRuntimeState) : Type 0 where
  pub own : s.player_id ≡ player_id
  pub issued : IsIssued player_id s.token

abbrev pub AreStatesOk : Dict PlayerRuntimeState → Type 0
AreStatesOk = Dict.Every IsStateOk

-- A stored player stands under their own id.
abbrev pub AreStoredOk : Dict PlayerState → Type 0
AreStoredOk = Dict.Every (λ p s. s.player_id ≡ p)

pub record IsSound (w : World) : Type 0 where
  pub queue : Queue.IsConsistent w.match_queue
  pub rooms : AreRoomsOk w.room_manager
  pub sessions : AreSessionsOk w.sessions
  pub states : AreStatesOk w.player_state_manager.states
  pub stored : AreStoredOk w.player_state_repository.states
