-- ===== src/Metrics.antt =====
-- src/util/ServerMetrics.h and src/util/ServerMetrics.cpp: counters and gauges. The atomics are plain
-- numbers, since one thread runs the server.
pub mod Laws
mod Tests
use game_server.Prelude.{
  ℕ, ◌+◌, ◌-◌, ◌%◌, ◌^◌, Bool, if◌then◌else◌, i32_mod, i64_mod, to_i32, to_i64, inc_i32, is_neg_i64,
  ◌==◌, ◌||◌,
}

pub record ServerMetrics : Type 0 where
  pub online_players : ℕ
  pub connection_count : ℕ
  pub room_count : ℕ
  pub match_queue_size : ℕ
  pub total_recv_packets : ℕ
  pub total_send_packets : ℕ
  pub login_req_count : ℕ
  pub match_req_count : ℕ
  pub chat_req_count : ℕ
  pub heartbeat_req_count : ℕ
  pub ranking_req_count : ℕ
  pub reconnect_req_count : ℕ
  pub total_heartbeat_rtt_ms : ℕ
  pub heartbeat_rtt_count : ℕ
  pub last_recv_packets : ℕ
  pub last_send_packets : ℕ

abbrev pub initial : ServerMetrics
initial = record {
  online_players = 0;
  connection_count = 0;
  room_count = 0;
  match_queue_size = 0;
  total_recv_packets = 0;
  total_send_packets = 0;
  login_req_count = 0;
  match_req_count = 0;
  chat_req_count = 0;
  heartbeat_req_count = 0;
  ranking_req_count = 0;
  reconnect_req_count = 0;
  total_heartbeat_rtt_ms = 0;
  heartbeat_rtt_count = 0;
  last_recv_packets = 0;
  last_send_packets = 0;
}

-- The gauges take an `int`; what a caller measures is a `size_t`.
unfoldable pub set_online_players : ℕ → ServerMetrics → ServerMetrics
set_online_players count m = record m { online_players = to_i32 count }

unfoldable pub set_connection_count : ℕ → ServerMetrics → ServerMetrics
set_connection_count count m = record m { connection_count = to_i32 count }

unfoldable pub set_room_count : ℕ → ServerMetrics → ServerMetrics
set_room_count count m = record m { room_count = to_i32 count }

unfoldable pub set_match_queue_size : ℕ → ServerMetrics → ServerMetrics
set_match_queue_size count m = record m { match_queue_size = to_i32 count }

unfoldable pub incr_recv_packet : ServerMetrics → ServerMetrics
incr_recv_packet m = record m { total_recv_packets = inc_i32 m.total_recv_packets }

unfoldable pub incr_send_packet : ServerMetrics → ServerMetrics
incr_send_packet m = record m { total_send_packets = inc_i32 m.total_send_packets }

unfoldable pub incr_login_req : ServerMetrics → ServerMetrics
incr_login_req m = record m { login_req_count = inc_i32 m.login_req_count }

unfoldable pub incr_match_req : ServerMetrics → ServerMetrics
incr_match_req m = record m { match_req_count = inc_i32 m.match_req_count }

unfoldable pub incr_chat_req : ServerMetrics → ServerMetrics
incr_chat_req m = record m { chat_req_count = inc_i32 m.chat_req_count }

unfoldable pub incr_heartbeat_req : ServerMetrics → ServerMetrics
incr_heartbeat_req m = record m { heartbeat_req_count = inc_i32 m.heartbeat_req_count }

unfoldable pub incr_ranking_req : ServerMetrics → ServerMetrics
incr_ranking_req m = record m { ranking_req_count = inc_i32 m.ranking_req_count }

unfoldable pub incr_reconnect_req : ServerMetrics → ServerMetrics
incr_reconnect_req m = record m { reconnect_req_count = inc_i32 m.reconnect_req_count }

-- `fetch_add` on an atomic `int64_t` wraps.
unfoldable pub record_heartbeat : ℕ → ServerMetrics → ServerMetrics
record_heartbeat rtt_ms m = if is_neg_i64 rtt_ms then m else record m {
  heartbeat_rtt_count = (m.heartbeat_rtt_count + 1) % i64_mod;
  total_heartbeat_rtt_ms = (m.total_heartbeat_rtt_ms + rtt_ms) % i64_mod;
}

-- `current - last` on two `int`s, widened, for a difference that is an `int`. One that overflows,
-- as where the total wraps between two readings, is undefined in C++; this wraps there.
abbrev pub difference : ℕ → ℕ → ℕ
difference current last = to_i64 ((current + i32_mod - to_i32 last) % i32_mod)

unfoldable pub calc_recv_qps : ServerMetrics → ℕ × ServerMetrics
calc_recv_qps m =
    let current = m.total_recv_packets in
    (difference current m.last_recv_packets, record m { last_recv_packets = to_i64 current })

unfoldable pub calc_send_qps : ServerMetrics → ℕ × ServerMetrics
calc_send_qps m =
    let current = m.total_send_packets in
    (difference current m.last_send_packets, record m { last_send_packets = to_i64 current })

-- What the floating-point operations give is a parameter: `0.0`, and the quotient of an `int64_t`
-- made a `double` by an `int64_t`.
unfoldable avg_heartbeat_rtt_ms : {D : Type 0} → D → (ℕ → ℕ → D) → ServerMetrics → D
avg_heartbeat_rtt_ms zero_point_zero quotient m =
    let count = m.heartbeat_rtt_count in
    if (count == 0) || is_neg_i64 count
    then zero_point_zero
    else quotient m.total_heartbeat_rtt_ms count
