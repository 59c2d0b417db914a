-- ===== src/Metrics/Laws.antt =====
-- The rates and the accumulators of src/util/ServerMetrics.cpp over many calls.
use game_server.Prelude.{
  ℕ, zero, suc, ◌+◌, ◌%◌, ◌^◌, ◌<◌, ◌≡◌, refl, List, [], ◌∷◌, true, false, if◌then◌else◌, arith,
  i32_mod, bias_i32, i64_mod, length, ap, is_neg_i64, to_i64, Bool-cases, inl, inr,
}
use game_server.Metrics.{
  ServerMetrics, incr_recv_packet, incr_send_packet, calc_recv_qps, calc_send_qps, record_heartbeat,
  difference,
}

abbrev pub times {ℓ} : {A : Type ℓ} → ℕ → (A → A) → A → A
times zero f a = a
times (suc n) f a = times n f (f a)

-- The difference of two readings is what was added in between.
difference_lem :
    (t n : ℕ) → t < i32_mod → n < 2 ^ 31 → difference ((t + n) % i32_mod) (to_i64 t) ≡ n
difference_lem t n ht hn = ground arith

total_recv-times :
    (n : ℕ) (m : ServerMetrics)
    → m.total_recv_packets < i32_mod
    → ((times n incr_recv_packet m).total_recv_packets ≡ (m.total_recv_packets + n) % i32_mod)
      × ((times n incr_recv_packet m).last_recv_packets ≡ m.last_recv_packets)
unfolding incr_recv_packet
total_recv-times zero m h = (omega arith, refl)
total_recv-times (suc n) m h =
    let ih = total_recv-times n (incr_recv_packet m) (omega arith) in (omega (arith, ih.0), ih.1)

total_send-times :
    (n : ℕ) (m : ServerMetrics)
    → m.total_send_packets < i32_mod
    → ((times n incr_send_packet m).total_send_packets ≡ (m.total_send_packets + n) % i32_mod)
      × ((times n incr_send_packet m).last_send_packets ≡ m.last_send_packets)
unfolding incr_send_packet
total_send-times zero m h = (omega arith, refl)
total_send-times (suc n) m h =
    let ih = total_send-times n (incr_send_packet m) (omega arith) in (omega (arith, ih.0), ih.1)

-- With 32-bit totals, a second reading of either rate gives the number of packets counted since
-- the first, where that number is below 2^31 and neither total, as an int, passes 2^31 - 1
-- between the two.
pub qps_counts :
    (n : ℕ) (m : ServerMetrics)
    → m.total_recv_packets < i32_mod
    → m.total_send_packets < i32_mod
    → n < 2 ^ 31
    → bias_i32 m.total_recv_packets + n < i32_mod
    → bias_i32 m.total_send_packets + n < i32_mod
    → ((calc_recv_qps (times n incr_recv_packet (calc_recv_qps m).1)).0 ≡ n)
      × ((calc_send_qps (times n incr_send_packet (calc_send_qps m).1)).0 ≡ n)
unfolding calc_recv_qps calc_send_qps
qps_counts n m hr hs hn recv_fits send_fits =
    let (recv, recv_last) = total_recv-times n (calc_recv_qps m).1 hr in
    let (sent, sent_last) = total_send-times n (calc_send_qps m).1 hs in
    (
      rw (recv, recv_last) (difference_lem m.total_recv_packets n hr hn),
      rw (sent, sent_last) (difference_lem m.total_send_packets n hs hn),
    )

unfoldable pub record_all : List ℕ → ServerMetrics → ServerMetrics
record_all [] m = m
record_all (r ∷ rs) m = record_all rs (record_heartbeat r m)

-- The round trips that count: those that are not negative as an `int64_t`.
abbrev pub kept : List ℕ → List ℕ
kept [] = []
kept (r ∷ rs) = let rest = kept rs in if is_neg_i64 r then rest else r ∷ rest

abbrev pub sum : List ℕ → ℕ
sum [] = 0
sum (x ∷ xs) = x + sum xs

abbrev counted : ℕ → ServerMetrics → ServerMetrics
counted r m = record m {
  heartbeat_rtt_count = (m.heartbeat_rtt_count + 1) % i64_mod;
  total_heartbeat_rtt_ms = (m.total_heartbeat_rtt_ms + r) % i64_mod;
}

record_heartbeat_neg : (r : ℕ) (m : ServerMetrics) → is_neg_i64 r ≡ true → record_heartbeat r m ≡ m
unfolding record_heartbeat
record_heartbeat_neg r m h = rw h

record_heartbeat_pos :
    (r : ℕ) (m : ServerMetrics) → is_neg_i64 r ≡ false → record_heartbeat r m ≡ counted r m
unfolding record_heartbeat
record_heartbeat_pos r m h = rw h

-- From 64-bit accumulators, after any recordings they hold the sum and the number of the round
-- trips that are not negative, added to what they held, modulo 2 ^ 64.
record_all_sums :
    (rs : List ℕ) (m : ServerMetrics)
    → m.total_heartbeat_rtt_ms < i64_mod
    → m.heartbeat_rtt_count < i64_mod
    → ((record_all rs m).total_heartbeat_rtt_ms
        ≡ (m.total_heartbeat_rtt_ms + sum (kept rs)) % i64_mod)
      × ((record_all rs m).heartbeat_rtt_count
          ≡ (m.heartbeat_rtt_count + length (kept rs)) % i64_mod)
unfolding record_all
record_all_sums [] m ht hc = (omega arith, omega arith)
record_all_sums (r ∷ rs) m ht hc = elim (Bool-cases (is_neg_i64 r)) [
  | inl neg ↦
      rw (ap (record_all rs) (record_heartbeat_neg r m neg), neg) (record_all_sums rs m ht hc)
  | inr pos ↦
      let ih = record_all_sums rs (counted r m) (omega arith) (omega arith) in
      rw (ap (record_all rs) (record_heartbeat_pos r m pos), pos)
        (omega (arith, ih.0), omega (arith, ih.1))
]
