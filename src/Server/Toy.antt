-- ===== src/Server/Toy.antt =====
-- A protobuf to run the server with: a request is its first byte and the bytes after it, a reply the
-- text in it. The messages are those of proto/message.proto.
use game_server.Prelude.{ℕ, [], ◌∷◌, Bytes}
use game_server.Proto.{Proto}

unfoldable pub first : Bytes → ℕ
first [] = 0
first (b ∷ bs) = b

unfoldable pub others_of : Bytes → Bytes
others_of [] = []
others_of (b ∷ bs) = bs

abbrev pub toy : Proto
toy = record {
  parse_login_req = λ bs. record { username = bs };
  parse_match_req = λ bs. record { player_id = first bs };
  parse_match_cancel_req = λ bs. record { player_id = first bs };
  parse_chat_req = λ bs. record { room_id = first bs; text = others_of bs };
  parse_heartbeat_req = λ bs. record { client_time_ms = first bs; last_rtt_ms = 1 };
  parse_reconnect_req = λ bs. record { player_id = first bs; token = others_of bs };
  parse_ranking_req = λ bs. record { top_n = first bs };
  login_resp = λ r. r.token;
  match_resp = λ r. r.message;
  room_created_notify = λ r. r.players;
  chat_notify = λ r. r.text;
  chat_resp = λ r. r.message;
  heartbeat_resp = λ r. [];
  reconnect_resp = λ r. r.message;
  ranking_resp = λ r. [];
}
