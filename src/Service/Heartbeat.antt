-- ===== src/Service/Heartbeat.antt =====
-- src/service/HeartbeatService.h and src/service/HeartbeatService.cpp.
use game_server.Prelude.{ℕ, ◌/◌, ◌^◌, ◌==◌, ◌||◌, if◌then◌else◌, is_neg_i64}
use game_server.Prelude.Exec.{Exec, pure, gets, ◌>>=◌, ◌>>◌}
use game_server.Codec.{Message}
use game_server.MessageId
use game_server.Metrics
use game_server.Proto.{Proto}
use game_server.Session
use game_server.World.{World, on_metrics, on_session, send}

module _ (proto : Proto) where
  abbrev pub heartbeat_reply : ℕ → ℕ → Message
  heartbeat_reply client_time_ms now = record {
    msg_id = MessageId.heartbeat_resp;
    body =
        proto.heartbeat_resp
          (record { client_time_ms = client_time_ms; server_time_ms = now / 10 ^ 6 });
  }

  unfoldable pub handle_heartbeat : ℕ → Message → Exec World (Unit {0})
  handle_heartbeat session message = do
    on_metrics Metrics.incr_heartbeat_req
    let req = proto.parse_heartbeat_req message.body
    now ← gets (λ w. w.now)
    let rtt = req.last_rtt_ms
    if is_neg_i64 rtt || (rtt == 0) then pure tt else on_metrics (Metrics.record_heartbeat rtt)
    on_session session (Session.update_last_active_time now)
    send session (heartbeat_reply req.client_time_ms now)
