-- ===== src/Service/Match.antt =====
-- src/service/MatchService.h and src/service/MatchService.cpp.
use game_server.Prelude.{ℕ, List, Bytes, null, if◌then◌else◌, is_nonpos_i32, to_i32, codes}
use game_server.Prelude.Exec.{Exec, pure, modify, ◌>>=◌, ◌>>◌}
use game_server.Codec.{Message}
use game_server.Match as Queue
use game_server.MessageId
use game_server.Metrics
use game_server.Proto.{Proto}
use game_server.World.{World, on_metrics, send}
use game_server.World.Rooms.{create_room}

-- `try_pop_matched_players` of the shared queue.
unfoldable pub pop_players : ℕ → Exec World (List ℕ)
pop_players room_size w =
    let (players, q) = Queue.try_pop_matched_players room_size w.match_queue in
    pure players (record w { match_queue = q })

module _ (proto : Proto) where
  abbrev pub match_reply : ℕ → Bytes → Message
  match_reply code message = record {
    msg_id = MessageId.match_resp;
    body = proto.match_resp (record { code = code; message = message });
  }

  unfoldable pub send_match_success : ℕ → Exec World (Unit {0})
  send_match_success session = send session (match_reply 0 (codes "match success"))

  unfoldable pub send_match_failure : ℕ → Bytes → Exec World (Unit {0})
  send_match_failure session reason = send session (match_reply 1 reason)

  -- A room is made of the players popped, if there are any.
  unfoldable pub make_room : List ℕ → Exec World (Unit {0})
  make_room players = if null players then pure tt else (create_room proto players >>= λ _. pure tt)

  unfoldable pub enqueue : ℕ → ℕ → Exec World (Unit {0})
  unfolding send_match_success pop_players make_room
  enqueue session player_id = do
    modify (λ w. record w { match_queue = Queue.join player_id w.match_queue })
    send_match_success session
    players ← pop_players 2
    make_room players

  unfoldable pub handle_match : ℕ → Message → Exec World (Unit {0})
  unfolding send_match_failure enqueue
  handle_match session message =
      let player_id = to_i32 (proto.parse_match_req message.body).player_id in
      on_metrics Metrics.incr_match_req
      >> (if is_nonpos_i32 player_id
          then send_match_failure session (codes "player_id must be non-negative")
          else λ w.
              (if Queue.contains player_id w.match_queue
                  then send_match_failure session (codes "player_id already in match_queue")
                  else enqueue session player_id)
                w)

  unfoldable pub handle_cancel_match : ℕ → Message → Exec World (Unit {0})
  unfolding send_match_failure
  handle_cancel_match session message =
      let player_id = to_i32 (proto.parse_match_cancel_req message.body).player_id in
      if is_nonpos_i32 player_id
      then send_match_failure session (codes "player_id must be non-negative")
      else modify (λ w. record w { match_queue = Queue.leave player_id w.match_queue })
