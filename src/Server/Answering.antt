-- ===== src/Server/Answering.antt =====
-- Faults in what received bytes set off: src/net/Session.cpp, `parse_packet`, with the handlers of
-- src/service but those of chats and matches.
pub mod Reads
use game_server.Prelude.{
  ℕ, ◌⊎◌, ◌+◌, ◌<◌, ◌≡◌, ◌≢◌, refl, ap, sym, subst, ◌∙◌, List, [], ◌∷◌, ◌++◌, All, All-append,
  Bytes, Bool, true, false, Option, none, some, inl, inr, arith, i32_mod, to_i32, null, ◌||◌, ◌==◌,
  is_neg_i64, Bool-cases, if◌then◌else◌,
}
use game_server.Prelude.Exec.{Outcome, Runs, done, pure, after-done, for_each, then-Runs}
use game_server.Prelude.Dict
use game_server.Prelude.Dict.{Dict}
use game_server.Codec.{Message, AreBytes}
use game_server.Codec.Packets.{messages}
use game_server.Codec.Stream.{split}
use game_server.Dispatcher.{handler_of}
use game_server.MessageId
use game_server.Player.Repository.{PlayerState}
use game_server.Player.StateManager
use game_server.Proto.{Proto}
use game_server.Server.{
  Handler, run_handler, dispatch, take_packet, read_done, parse_packet, read, handle,
  start_handlers,
}
use game_server.Server.Keeps.Rooms.{mark_reconnected_steady}
use game_server.Server.NoFault.{IsReady}
use game_server.Server.Attending.Reached.{reach_attends, reach-IsSound}
use game_server.Server.Hearing.{input, heard, start_handlers-AreDeaf}
use game_server.Server.Loop.{Can, can_read, Reach}
use game_server.Server.Parsing.{serve, parse_packet_lem}
use game_server.Server.Sound.{handlers-IsSound, start_handlers-AllKeep, noted-IsSound}
use game_server.Server.Steady.{receives, noted}
use game_server.Service.Heartbeat.{handle_heartbeat}
use game_server.Service.Login.{
  handle_login, generate_player_id, enter, send_login_success, send_login_failed,
}
use game_server.Service.Ranking.{handle_ranking_req, send_ranking}
use game_server.Service.Reconnect.{handle_reconnect}
use game_server.Service.Reconnect.Access.{accepts, reconnect_accepts, reconnect_refuses}
use game_server.Session
use game_server.Session.{Session}
use game_server.World.{World, send, session_at, or_fresh, on_session}
use game_server.World.Closing.{add_session}

-- The handler ends without a fault and opens no room.
abbrev pub Answers : Handler → Type 0
Answers handler =
    (sid : ℕ) (m : Message) (w : World)
    → IsReady w
    → ((handler sid m w).0 ≡ done tt)
      × ((handler sid m w).1.room_manager.opened ≡ w.room_manager.opened)

module _ (proto : Proto) where
  login-Answers : Answers (handle_login proto)
  unfolding handle_login send_login_success send_login_failed enter generate_player_id send
      add_session
  login-Answers sid m w h = elim (Bool-cases (null (proto.parse_login_req m.body).username)) [
    | inl unnamed ↦ rw unnamed (refl, refl)
    | inr named ↦ rw named (refl, refl)
  ]

  heartbeat-Answers : Answers (handle_heartbeat proto)
  unfolding handle_heartbeat send
  heartbeat-Answers sid m w h =
      let rtt = (proto.parse_heartbeat_req m.body).last_rtt_ms in
      elim (Bool-cases (is_neg_i64 rtt || (rtt == 0))) [
        | inl none_yet ↦ rw none_yet (refl, refl)
        | inr measured ↦ rw measured (refl, refl)
      ]

  ranking-Answers :
      (sort : List PlayerState → List PlayerState) → Answers (handle_ranking_req proto sort)
  unfolding handle_ranking_req send_ranking send
  ranking-Answers sort sid m w h = (refl, refl)

  reconnect-Answers : Answers (handle_reconnect proto)
  unfolding send
  reconnect-Answers sid m w h =
      let req = proto.parse_reconnect_req m.body in
      let p = to_i32 req.player_id in
      go (Dict.lookup p w.player_state_manager.states) refl (Bool-cases _)
    where
      go :
          (found : Option StateManager.PlayerRuntimeState)
          → Dict.lookup
              (to_i32 (proto.parse_reconnect_req m.body).player_id)
              w.player_state_manager.states
            ≡ found
          → (accepts found (proto.parse_reconnect_req m.body).token ≡ true)
            ⊎ (accepts found (proto.parse_reconnect_req m.body).token ≡ false)
          → ((handle_reconnect proto sid m w).0 ≡ done tt)
            × ((handle_reconnect proto sid m w).1.room_manager.opened ≡ w.room_manager.opened)
      go none e (inl yes_) = cc
      go (some s) e (inl yes_) =
          rw (reconnect_accepts proto sid m w s (h.sound.rooms h.ids_left).1 e yes_) (
            refl,
            (mark_reconnected_steady (to_i32 (proto.parse_reconnect_req m.body).player_id)
                w.room_manager).0,
          )
      go found e (inr no_) =
          let (reason, same) = reconnect_refuses proto sid m w (rw e no_) in rw same (refl, refl)

-- Neither a chat nor a match request.
abbrev pub IsSafe : ℕ → Type 0
IsSafe msg_id = (msg_id ≢ MessageId.chat_req) × (msg_id ≢ MessageId.match_req)

abbrev AnswersSafe : ℕ → Handler → Type 0
AnswersSafe msg_id handler = IsSafe msg_id → Answers handler

pub start_handlers-Answers :
    (proto : Proto) (sort : List PlayerState → List PlayerState)
    → Dict.Every AnswersSafe (start_handlers proto sort)
unfolding start_handlers
start_handlers-Answers proto sort =
    Dict.Every-put AnswersSafe MessageId.ranking_req _ _ (λ _. ranking-Answers proto sort)
      (Dict.Every-put AnswersSafe MessageId.reconnect_req _ _ (λ _. reconnect-Answers proto)
        (Dict.Every-put AnswersSafe MessageId.heartbeat_req _ _ (λ _. heartbeat-Answers proto)
          (Dict.Every-put AnswersSafe MessageId.chat_req _ _ (λ safe. absurd (safe.0 refl))
            (Dict.Every-put AnswersSafe MessageId.match_req _ _ (λ safe. absurd (safe.1 refl))
              (Dict.Every-put AnswersSafe MessageId.login_req _ _ (λ _. login-Answers proto)
                (Dict.Every-empty AnswersSafe))))))
