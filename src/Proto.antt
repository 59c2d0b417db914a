-- ===== src/Proto.antt =====
-- The messages of proto/message.proto. Reading and writing them is protobuf's, and a parameter:
-- `ParseFromString` gives some message for any bytes (the handlers ignore its result) and
-- `SerializeToString` gives some bytes. An `int64` is its bit pattern below 2 ^ 64.
use game_server.Prelude.{ℕ, List, Bytes}

pub record LoginReq : Type 0 where
  pub username : Bytes

pub record LoginResp : Type 0 where
  pub code : ℕ
  pub player_id : ℕ
  pub message : Bytes
  pub token : Bytes

pub record MatchReq : Type 0 where
  pub player_id : ℕ

pub record MatchResp : Type 0 where
  pub code : ℕ
  pub message : Bytes

pub record MatchCancelReq : Type 0 where
  pub player_id : ℕ

pub record RoomCreatedNotify : Type 0 where
  pub room_id : ℕ
  pub players : List ℕ

pub record ChatReq : Type 0 where
  pub room_id : ℕ
  pub text : Bytes

pub record ChatNotify : Type 0 where
  pub room_id : ℕ
  pub player_id : ℕ
  pub text : Bytes

pub record ChatResp : Type 0 where
  pub code : ℕ
  pub message : Bytes

pub record HeartbeatReq : Type 0 where
  pub client_time_ms : ℕ
  pub last_rtt_ms : ℕ

pub record HeartbeatResp : Type 0 where
  pub client_time_ms : ℕ
  pub server_time_ms : ℕ

pub record ReconnectReq : Type 0 where
  pub player_id : ℕ
  pub token : Bytes

pub record ReconnectResp : Type 0 where
  pub code : ℕ
  pub player_id : ℕ
  pub room_id : ℕ
  pub message : Bytes

pub record RankingReq : Type 0 where
  pub top_n : ℕ

pub record RankingItem : Type 0 where
  pub player_id : ℕ
  pub score : ℕ

pub record RankingResp : Type 0 where
  pub items : List RankingItem

-- What protobuf does with them.
pub record Proto : Type 0 where
  pub parse_login_req : Bytes → LoginReq
  pub parse_match_req : Bytes → MatchReq
  pub parse_match_cancel_req : Bytes → MatchCancelReq
  pub parse_chat_req : Bytes → ChatReq
  pub parse_heartbeat_req : Bytes → HeartbeatReq
  pub parse_reconnect_req : Bytes → ReconnectReq
  pub parse_ranking_req : Bytes → RankingReq
  pub login_resp : LoginResp → Bytes
  pub match_resp : MatchResp → Bytes
  pub room_created_notify : RoomCreatedNotify → Bytes
  pub chat_notify : ChatNotify → Bytes
  pub chat_resp : ChatResp → Bytes
  pub heartbeat_resp : HeartbeatResp → Bytes
  pub reconnect_resp : ReconnectResp → Bytes
  pub ranking_resp : RankingResp → Bytes
