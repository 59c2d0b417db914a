-- ===== src/Client/Starting.antt =====
-- How a client of client/ClientSimulator.cpp starts and connects again, and the handlers of its timers.
use game_server.Prelude.{ℕ, [], true, false, ◌||◌, ◌==◌, if◌then◌else◌, null, codes, to_i64}
use game_server.MessageId
use game_server.Client.{
  ClientProto, ClientSimulator, write, do_read, duration_send, duration_chat, stop_heartbeat, login,
  chat, rank, send_heartbeat,
}

module _ (proto : ClientProto) where
  -- Up to `io_.run()`.
  unfoldable pub start : ClientSimulator → ClientSimulator
  unfolding login duration_send do_read duration_chat
  start c = duration_chat (do_read (record (duration_send (login proto c)) { rank_timer = true }))

  -- Up to `io_.run()`.
  unfoldable pub test_reconnect : ClientSimulator → ClientSimulator
  unfolding login duration_send do_read
  test_reconnect c =
      do_read (record (duration_send (record (login proto c) { heart_beat_enable = false })) {
        stop_heartbeat_timer = true;
        reconnect_timer = true;
      })

  -- The connection is a new one, so what has been sent on it starts from nothing.
  unfoldable pub reconnect : ClientSimulator → ClientSimulator
  unfolding do_read
  reconnect c =
      if (c.player_id == 0) || null c.token
      then c
      else write
          (record {
            msg_id = MessageId.reconnect_req;
            body = proto.reconnect_req (record { player_id = to_i64 c.player_id; token = c.token });
          })
          (do_read (record c { sent = []; recv_buffer = [] }))

  -- The handlers of the timers, for a wait that is not cancelled.
  unfoldable pub timer_fired : ℕ → ℕ → ClientSimulator → ClientSimulator
  unfolding send_heartbeat duration_send
  timer_fired now_ms taken c = duration_send (send_heartbeat proto now_ms taken c)

  unfoldable pub chat_timer_fired : ClientSimulator → ClientSimulator
  unfolding chat duration_chat
  chat_timer_fired c =
      duration_chat (chat proto (codes "this is a chat") (record c { chat_timer = false }))

  unfoldable pub rank_timer_fired : ClientSimulator → ClientSimulator
  unfolding rank
  rank_timer_fired c = rank proto (record c { rank_timer = false })

  abbrev pub stop_heartbeat_timer_fired : ClientSimulator → ClientSimulator
  stop_heartbeat_timer_fired c = stop_heartbeat (record c { stop_heartbeat_timer = false })

  unfoldable pub reconnect_timer_fired : ClientSimulator → ClientSimulator
  unfolding reconnect
  reconnect_timer_fired c = reconnect (record c { reconnect_timer = false })
