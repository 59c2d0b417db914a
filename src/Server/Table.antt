-- ===== src/Server/Table.antt =====
-- The handler table of src/GameServer.cpp, and what all of its handlers keep.
use game_server.Prelude.{ℕ, List}
use game_server.Prelude.Exec.{Keeps}
use game_server.Prelude.Dict
use game_server.Prelude.Dict.{Dict}
use game_server.Codec.{Message}
use game_server.MessageId
use game_server.Player.Repository.{PlayerState}
use game_server.Proto.{Proto}
use game_server.Server.{Handler, start_handlers}
use game_server.Server.Frame.{Frame}
use game_server.Server.Frame.Services.{
  login-Frame, chat-Frame, heartbeat-Frame, reconnect-Frame, ranking-Frame,
}
use game_server.Service.Match.{handle_match}
use game_server.World.{World}

abbrev pub KeepsAll : (World → Type 0) → Dict Handler → Type 0
KeepsAll P = Dict.Every (λ _ handler. (sid : ℕ) (m : Message) → Keeps P (handler sid m))

-- The same for the messages that come on one connection.
abbrev pub KeepsAt : ℕ → (World → Type 0) → Dict Handler → Type 0
KeepsAt sid P = Dict.Every (λ _ handler. (m : Message) → Keeps P (handler sid m))

-- The match handler stores to the queue, so what it keeps is asked for.
pub start_handlers-Frame :
    (P : World → Type 0) (session : ℕ)
    → Frame session P
    → (proto : Proto) (sort : List PlayerState → List PlayerState)
    → ((m : Message) → Keeps P (handle_match proto session m))
    → KeepsAt session P (start_handlers proto sort)
unfolding start_handlers
start_handlers-Frame P session frame proto sort matches =
    let Kept : ℕ → Handler → Type 0 = λ _ handler. (m : Message) → Keeps P (handler session m) in
    Dict.Every-put Kept MessageId.ranking_req _ _ (ranking-Frame frame proto sort) (
      Dict.Every-put Kept MessageId.reconnect_req _ _ (reconnect-Frame frame proto) (
        Dict.Every-put Kept MessageId.heartbeat_req _ _ (heartbeat-Frame frame proto) (
          Dict.Every-put Kept MessageId.chat_req _ _ (chat-Frame frame proto) (
            Dict.Every-put Kept MessageId.match_req _ _ matches (
              Dict.Every-put Kept MessageId.login_req _ _ (login-Frame frame proto)
                (Dict.Every-empty Kept))))))

pub all_at :
    (P : World → Type 0) (handlers : Dict Handler)
    → ((sid : ℕ) → KeepsAt sid P handlers)
    → KeepsAll P handlers
all_at P handlers h = λ id handler e sid m. h sid id handler e m
