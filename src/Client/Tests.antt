-- ===== src/Client/Tests.antt =====
-- The client of client/ClientSimulator.cpp at concrete inputs.
use game_server.Prelude.{◌≡◌, [], ◌∷◌, ◌++◌, Bytes, true, arith}
use game_server.Codec.{AreBytes}
use game_server.Codec.Stream.{split}
use game_server.Client.{ClientProto, ClientSimulator, new_client, read_done}
use game_server.Client.Starting.{start}
use game_server.Client.Reading.{with_input, handle_all, read_done_lem, read_done-append}

-- A protobuf to run the client with: a reply succeeds and names player 9.
abbrev plain : ClientProto
plain = record {
  login_req = λ r. r.username;
  match_req = λ r. [];
  chat_req = λ r. r.text;
  heartbeat_req = λ r. [];
  reconnect_req = λ r. r.token;
  ranking_req = λ r. [];
  parse_login_resp = λ bs. record { code = 0; player_id = 9; message = []; token = bs };
  parse_room_created_notify = λ bs. record { room_id = 3; players = [] };
  parse_heartbeat_resp = λ bs. record { client_time_ms = 5; server_time_ms = 0 };
  parse_reconnect_resp = λ bs. record { code = 1; player_id = 0; room_id = 0; message = bs };
}

abbrev started : ClientSimulator
started = start plain (new_client true 0 0)

-- A reply to the login with a one-byte token, in two pieces.
abbrev head : Bytes
head = 1 ∷ 0 ∷ 0 ∷ 0 ∷ 0xea ∷ []

abbrev rest : Bytes
rest = 0x03 ∷ 55 ∷ []

head-AreBytes : AreBytes head
head-AreBytes = (omega arith, (omega arith, (omega arith, (omega arith, (omega arith, tt)))))

rest-AreBytes : AreBytes rest
rest-AreBytes = (omega arith, (omega arith, tt))

read_done_lem_example :
    read_done plain 8 head started
    ≡ with_input (split head).1 true (handle_all plain 8 (split head).0 started)
unfolding start new_client
read_done_lem_example = read_done_lem plain 8 head started tt head-AreBytes

read_done-append_example :
    read_done plain 8 (head ++ rest) started
    ≡ read_done plain 8 rest (read_done plain 8 head started)
unfolding start new_client
read_done-append_example = read_done-append plain 8 head rest started tt head-AreBytes rest-AreBytes
