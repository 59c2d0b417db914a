-- ===== src/Metrics/Tests.antt =====
-- Runs of the metrics, and their theorems at concrete inputs.
use game_server.Prelude.{◌≡◌, arith}
use game_server.Metrics.{
  ServerMetrics, initial, incr_recv_packet, incr_send_packet, calc_recv_qps, calc_send_qps,
}
use game_server.Metrics.Laws.{times, qps_counts}

-- Forty packets have come, none has gone.
abbrev busy : ServerMetrics
busy = record initial { total_recv_packets = 40 }

qps_counts_example :
    ((calc_recv_qps (times 3 incr_recv_packet (calc_recv_qps busy).1)).0 ≡ 3)
    × ((calc_send_qps (times 3 incr_send_packet (calc_send_qps busy).1)).0 ≡ 3)
qps_counts_example =
    qps_counts 3 busy (omega arith) (omega arith) (omega arith) (omega arith) (omega arith)
