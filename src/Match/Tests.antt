-- ===== src/Match/Tests.antt =====
-- Runs of the match queue, and its theorems at concrete inputs.
use game_server.Prelude.{◌≡◌, refl, [], ◌∷◌, member, set_insert}
use game_server.Match.{MatchQueue, empty, contains, join, try_pop_matched_players}
use game_server.Match.Laws.{IsConsistent, join-IsConsistent, try_pop-IsConsistent}

abbrev waiting : MatchQueue
waiting = record { queue = 7 ∷ 8 ∷ 9 ∷ []; in_queue = 9 ∷ 8 ∷ 7 ∷ [] }

-- Joining the empty queue three times gives that queue.
waiting_joined : join 9 (join 8 (join 7 empty)) ≡ waiting
unfolding join set_insert member
waiting_joined = refl

empty-IsConsistent : IsConsistent empty
unfolding contains
empty-IsConsistent = record { distinct = tt; agree = λ p. refl }

waiting-IsConsistent : IsConsistent waiting
unfolding join set_insert contains member
waiting-IsConsistent =
    let one : IsConsistent (join 7 empty) = (join-IsConsistent 7 empty empty-IsConsistent refl).0 in
    let two : IsConsistent (join 8 (join 7 empty)) =
      (join-IsConsistent 8 (join 7 empty) one refl).0 in
    (join-IsConsistent 9 (join 8 (join 7 empty)) two refl).0

try_pop-IsConsistent_example : (try_pop_matched_players 2 waiting).0 ≡ 7 ∷ 8 ∷ []
try_pop-IsConsistent_example = (try_pop-IsConsistent 2 waiting waiting-IsConsistent).1
