-- ===== src/Server/Pairing/Pairs.antt =====
-- Two players make a room: src/service/MatchService.cpp, `handle_match`.
use game_server.Prelude.{
  arith, ◌≤◌, length, List, ◌⊎◌, inl, inr, ℕ, ◌≡◌, refl, [], ◌∷◌, false, codes, to_i32,
  is_nonpos_i32,
}
use game_server.Prelude.Exec.{done, pure, ◌>>=◌}
use game_server.Codec.{Message}
use game_server.Match as Queues
use game_server.Match.{MatchQueue}
use game_server.Metrics
use game_server.Proto.{Proto}
use game_server.Server.Pairing.{IsShort}
use game_server.Service.Match as Match
use game_server.World.{World, send}
use game_server.World.Rooms.{create_room}

abbrev pub counted : World → World
counted w = record w { metrics = Metrics.incr_match_req w.metrics }

short_cases : (xs : List ℕ) → length xs ≤ 1 → (xs ≡ []) ⊎ ((q : ℕ) × (xs ≡ q ∷ []))
short_cases [] h = inl refl
short_cases (x ∷ []) h = inr (x, refl)
short_cases (x ∷ y ∷ ys) h = absurd (omega arith)

module _ (proto : Proto) where
  -- The player that a request names.
  abbrev pub asked : Message → ℕ
  asked m = to_i32 (proto.parse_match_req m.body).player_id

  -- The state after the reply to a player who has been put in the queue.
  abbrev pub queued : ℕ → ℕ → World → World
  queued session p w =
      (send session (Match.match_reply proto 0 (codes "match success"))
        (record (counted w) { match_queue = Queues.join p w.match_queue })).1

  -- The player waits alone.
  abbrev pub WaitsAlone : ℕ → Message → World → Type 0
  WaitsAlone session m w =
      (w.match_queue.queue ≡ [])
      × (Match.handle_match proto session m w ≡ (done tt, queued session (asked m) w))
      × ((queued session (asked m) w).match_queue.queue ≡ asked m ∷ [])

  -- The player makes a room with the one who waited.
  abbrev pub MakesRoom : ℕ → Message → World → Type 0
  MakesRoom session m w =
      (q : ℕ) × (left : MatchQueue) × (w.match_queue.queue ≡ q ∷ [])
      × (Match.handle_match proto session m w
          ≡ (create_room proto (q ∷ asked m ∷ []) >>= λ _. pure tt)
              (record (queued session (asked m) w) { match_queue = left }))
      × (left.queue ≡ [])

  popped_none :
      (p : ℕ) (mq : MatchQueue)
      → mq.queue ≡ []
      → (Queues.try_pop_matched_players 2 (Queues.join p mq) ≡ ([], Queues.join p mq))
        × ((Queues.join p mq).queue ≡ p ∷ [])
  unfolding Queues.try_pop_matched_players Queues.join
  popped_none p mq e = rw e (refl, refl)

  popped_pair :
      (p q : ℕ) (mq : MatchQueue)
      → mq.queue ≡ q ∷ []
      → (left : MatchQueue) × (Queues.try_pop_matched_players 2 (Queues.join p mq)
          ≡ (q ∷ p ∷ [], left))
        × (left.queue ≡ [])
  unfolding Queues.try_pop_matched_players Queues.join Queues.pop_rounds
  popped_pair p q mq e = rw e (_, refl, refl)

  -- With at most one player waiting, a match request for a positive id that does not wait is
  -- answered with success. If nobody waited, that player now waits alone. Otherwise nobody waits
  -- any more, and create_room runs for the one who waited and the new one, in this order.
  pub match_pairs :
      (session : ℕ) (m : Message) (w : World)
      → IsShort w
      → is_nonpos_i32 (asked m) ≡ false
      → Queues.contains (asked m) w.match_queue ≡ false
      → WaitsAlone session m w ⊎ MakesRoom session m w
  unfolding Match.handle_match Match.enqueue Match.pop_players Match.make_room
      Match.send_match_success send
  match_pairs session m w short positive absent = elim (short_cases w.match_queue.queue short) [
    | inl e ↦
        let (popped, alone) = popped_none (asked m) w.match_queue e in
        inl (e, rw (positive, absent, popped) refl, alone)
    | inr one ↦
        let (left, popped, rest) = popped_pair (asked m) one.0 w.match_queue one.1 in
        inr (one.0, left, one.1, rw (positive, absent, popped) refl, rest)
  ]
