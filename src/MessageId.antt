-- ===== src/MessageId.antt =====
-- src/net/MessageId.h: the ids of the messages.
use game_server.Prelude.{ℕ}

abbrev pub login_req : ℕ
login_req = 1001

abbrev pub login_resp : ℕ
login_resp = 1002

abbrev pub match_req : ℕ
match_req = 2001

abbrev pub match_resp : ℕ
match_resp = 2002

abbrev pub room_created_notify : ℕ
room_created_notify = 3001

abbrev pub chat_req : ℕ
chat_req = 4001

abbrev pub chat_notify : ℕ
chat_notify = 4002

abbrev pub chat_resp : ℕ
chat_resp = 4003

abbrev pub heartbeat_req : ℕ
heartbeat_req = 9001

abbrev pub heartbeat_resp : ℕ
heartbeat_resp = 9002

abbrev pub reconnect_req : ℕ
reconnect_req = 9101

abbrev pub reconnect_resp : ℕ
reconnect_resp = 9102

abbrev pub ranking_req : ℕ
ranking_req = 5001

abbrev pub ranking_resp : ℕ
ranking_resp = 5002
