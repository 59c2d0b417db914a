-- ===== src/Client.antt =====
-- client/ClientSimulator.h and client/ClientSimulator.cpp: the load generator's side of a connection.
-- `sent` stands for the socket: the bytes written to the connection that is open. A timer is armed or
-- not. Handlers that only print leave the state alone.
pub mod Reading
pub mod Starting
pub mod Tests
use game_server.Prelude.{
  ℕ, zero, suc, ◌+◌, ◌-◌, ◌%◌, ◌^◌, [], ◌++◌, Bytes, Bool, true, false, ◌||◌, ◌==◌, if◌then◌else◌,
  length, take, null, codes, to_string, to_i32, to_i64, i64_mod, is_nonpos_i32,
}
use game_server.Codec.{Message, Decoded, success, need_more, error, encode, try_decode}
use game_server.Codec.Stream.{no_message}
use game_server.MessageId
use game_server.Proto.{
  LoginReq, LoginResp, MatchReq, RoomCreatedNotify, ChatReq, HeartbeatReq, HeartbeatResp,
  ReconnectReq, ReconnectResp, RankingReq,
}

-- What protobuf does with the messages at this end.
pub record ClientProto : Type 0 where
  pub login_req : LoginReq → Bytes
  pub match_req : MatchReq → Bytes
  pub chat_req : ChatReq → Bytes
  pub heartbeat_req : HeartbeatReq → Bytes
  pub reconnect_req : ReconnectReq → Bytes
  pub ranking_req : RankingReq → Bytes
  pub parse_login_resp : Bytes → LoginResp
  pub parse_room_created_notify : Bytes → RoomCreatedNotify
  pub parse_heartbeat_resp : Bytes → HeartbeatResp
  pub parse_reconnect_resp : Bytes → ReconnectResp

pub record ClientSimulator : Type 0 where
  pub player_id : ℕ
  pub room_id : ℕ
  pub heart_beat_enable : Bool
  pub enable_chat : Bool
  pub rtt_ms : ℕ
  pub token : Bytes
  pub recv_buffer : Bytes
  pub sent : Bytes
  pub reading : Bool
  pub timer : Bool
  pub chat_timer : Bool
  pub rank_timer : Bool
  pub stop_heartbeat_timer : Bool
  pub reconnect_timer : Bool

-- The constructor, connected. It sets neither `player_id_` nor `room_id_`: what is in them is any
-- number.
unfoldable pub new_client : Bool → ℕ → ℕ → ClientSimulator
new_client chat player_id room_id = record {
  player_id = player_id;
  room_id = room_id;
  heart_beat_enable = true;
  enable_chat = chat;
  rtt_ms = 2 ^ 64 - 1;
  token = [];
  recv_buffer = [];
  sent = [];
  reading = false;
  timer = false;
  chat_timer = false;
  rank_timer = false;
  stop_heartbeat_timer = false;
  reconnect_timer = false;
}

-- `boost::asio::write` writes the whole packet; an exception, which ends the client, is left out.
abbrev pub write : Message → ClientSimulator → ClientSimulator
write msg c = record c { sent = c.sent ++ encode msg }

unfoldable pub do_read : ClientSimulator → ClientSimulator
do_read c = record c { reading = true }

-- `expires_after` cancels the wait that is out, if there is one.
unfoldable pub duration_send : ClientSimulator → ClientSimulator
duration_send c = record c { timer = c.heart_beat_enable }

unfoldable pub duration_chat : ClientSimulator → ClientSimulator
duration_chat c = if c.enable_chat then record c { chat_timer = true } else c

unfoldable pub stop_heartbeat : ClientSimulator → ClientSimulator
stop_heartbeat c = record c { heart_beat_enable = false; timer = false }

module _ (proto : ClientProto) where
  abbrev pub login_message : Message
  login_message = record {
    msg_id = MessageId.login_req;
    body = proto.login_req (record { username = codes "player" });
  }

  unfoldable pub login : ClientSimulator → ClientSimulator
  login c = write login_message c

  abbrev pub match_message : ℕ → Message
  match_message player_id = record {
    msg_id = MessageId.match_req;
    body = proto.match_req (record { player_id = to_i64 player_id });
  }

  unfoldable pub request_match : ClientSimulator → ClientSimulator
  request_match c = if is_nonpos_i32 c.player_id then c else write (match_message c.player_id) c

  unfoldable pub chat : Bytes → ClientSimulator → ClientSimulator
  chat text c =
      write
        (record {
          msg_id = MessageId.chat_req;
          body = proto.chat_req (record { room_id = to_i64 c.room_id; text = text });
        })
        c

  unfoldable pub rank : ClientSimulator → ClientSimulator
  rank c =
      write
        (record {
          msg_id = MessageId.ranking_req;
          body = proto.ranking_req (record { top_n = 10 });
        })
        c

  -- `write_some` takes `taken` bytes of the packet; the rest is not sent later.
  unfoldable pub send_heartbeat : ℕ → ℕ → ClientSimulator → ClientSimulator
  send_heartbeat now_ms taken c = record c {
    sent =
        c.sent
        ++ take taken (
            encode (record {
              msg_id = MessageId.heartbeat_req;
              body =
                  proto.heartbeat_req (record { client_time_ms = now_ms; last_rtt_ms = c.rtt_ms });
            }));
  }

  unfoldable pub on_login_resp : LoginResp → ClientSimulator → ClientSimulator
  unfolding request_match
  on_login_resp resp c =
      if resp.code == 0
      then request_match (record c { player_id = to_i32 resp.player_id; token = resp.token })
      else c

  unfoldable pub on_room_created : RoomCreatedNotify → ClientSimulator → ClientSimulator
  unfolding chat
  on_room_created resp c =
      chat (codes "hello from " ++ to_string c.player_id)
        (record c { room_id = to_i32 resp.room_id })

  unfoldable pub on_heartbeat_resp : ℕ → HeartbeatResp → ClientSimulator → ClientSimulator
  on_heartbeat_resp now_ms resp c = record c {
    rtt_ms = (now_ms + (i64_mod - resp.client_time_ms % i64_mod)) % i64_mod;
  }

  unfoldable pub on_reconnect_resp : ReconnectResp → ClientSimulator → ClientSimulator
  unfolding duration_send
  on_reconnect_resp resp c =
      if resp.code == 0 then duration_send (record c { heart_beat_enable = true }) else c

  -- `switch (msg.msg_id)`; the other cases only print.
  unfoldable pub handle_message : ℕ → Message → ClientSimulator → ClientSimulator
  unfolding on_login_resp on_room_created on_heartbeat_resp on_reconnect_resp
  handle_message now_ms msg c =
      if msg.msg_id == MessageId.login_resp
      then on_login_resp (proto.parse_login_resp msg.body) c
      else if msg.msg_id == MessageId.room_created_notify
      then on_room_created (proto.parse_room_created_notify msg.body) c
      else if msg.msg_id == MessageId.heartbeat_resp
      then on_heartbeat_resp now_ms (proto.parse_heartbeat_resp msg.body) c
      else if msg.msg_id == MessageId.reconnect_resp
      then on_reconnect_resp (proto.parse_reconnect_resp msg.body) c
      else c

  abbrev pub by_status :
      ℕ → Decoded → (ClientSimulator → ClientSimulator) → ClientSimulator → ClientSimulator
  by_status now_ms d again c = elim d.status [
    | success ↦ again (handle_message now_ms d.out_message (record c { recv_buffer = d.buffer }))
    | need_more ↦ c
    | error ↦ c
  ]

  -- The loop of `try_parse`: each round takes a header's six bytes at least.
  unfoldable pub parse_rounds : ℕ → ℕ → ClientSimulator → ClientSimulator
  unfolding handle_message
  parse_rounds zero now_ms c = c
  parse_rounds (suc fuel) now_ms c =
      by_status now_ms (try_decode c.recv_buffer no_message) (parse_rounds fuel now_ms) c

  unfoldable pub try_parse : ℕ → ClientSimulator → ClientSimulator
  unfolding parse_rounds
  try_parse now_ms c = parse_rounds (suc (length c.recv_buffer)) now_ms c

  -- The handler of `async_read_some` for an error, which only prints.
  abbrev pub read_error : ClientSimulator → ClientSimulator
  read_error c = record c { reading = false }

  -- The same for bytes.
  unfoldable pub read_done : ℕ → Bytes → ClientSimulator → ClientSimulator
  unfolding try_parse do_read
  read_done now_ms bytes c =
      do_read
        (try_parse now_ms (record c { recv_buffer = c.recv_buffer ++ bytes; reading = false }))
