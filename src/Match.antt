-- ===== src/Match.antt =====
-- src/match/MatchQueue.h and src/match/MatchQueue.cpp: the queue of players that wait for a room, and
-- the set of those in it.
pub mod Laws
mod Tests
use game_server.Prelude.{
  ℕ, zero, suc, List, [], ◌∷◌, ◌++◌, Bool, length, ltb, if◌then◌else◌, member, set_insert,
  set_erase, erase_first,
}

pub record MatchQueue : Type 0 where
  pub queue : List ℕ
  pub in_queue : List ℕ

abbrev pub empty : MatchQueue
empty = record { queue = []; in_queue = [] }

unfoldable pub contains : ℕ → MatchQueue → Bool
contains player_id q = member player_id q.in_queue

-- Joins with no test: the caller asks `contains` first.
unfoldable pub join : ℕ → MatchQueue → MatchQueue
join player_id q = record {
  queue = q.queue ++ player_id ∷ [];
  in_queue = set_insert player_id q.in_queue;
}

unfoldable pub leave : ℕ → MatchQueue → MatchQueue
leave player_id q =
    if member player_id q.in_queue
    then record { queue = erase_first player_id q.queue; in_queue = set_erase player_id q.in_queue }
    else q

unfoldable pub size : MatchQueue → ℕ
size q = length q.queue

-- The rounds of the `for` loop; the guard of the caller keeps `front` off an empty deque.
unfoldable pub pop_rounds : ℕ → List ℕ → List ℕ → List ℕ → List ℕ × MatchQueue
pop_rounds zero matched queue in_queue = (matched, record { queue = queue; in_queue = in_queue })
pop_rounds (suc n) matched [] in_queue = (matched, record { queue = []; in_queue = in_queue })
pop_rounds (suc n) matched (player_id ∷ queue) in_queue =
    pop_rounds n (matched ++ player_id ∷ []) queue (set_erase player_id in_queue)

unfoldable pub try_pop_matched_players : ℕ → MatchQueue → List ℕ × MatchQueue
unfolding pop_rounds
try_pop_matched_players room_size q =
    if ltb (length q.queue) room_size then ([], q) else pop_rounds room_size [] q.queue q.in_queue
