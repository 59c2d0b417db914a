-- ===== src/Service/Ranking/Top.antt =====
-- What the reply of src/service/RankingService.cpp lists.
use mathlib.Core.List.{Perm}
use game_server.Prelude.{
  ℕ, ◌<◌, ◌≤◌, ◌^◌, ◌≡◌, refl, ap, List, [], ◌∷◌, ◌++◌, false, All, length, take, drop, min, map,
  take-append-drop, length-take, All-append_right, arith, tests, bias_i32, if◌then◌else◌, leb,
  to_i32, i32_mod,
}
use game_server.Codec.{Message}
use game_server.Metrics
use game_server.Player.Repository
use game_server.Player.Repository.{PlayerState}
use game_server.Proto.{Proto}
use game_server.Service.Ranking.{ranks_before, rounds, item, handle_ranking_req}
use game_server.World.{World, send}
use game_server.MessageId

-- No later player ranks before an earlier one.
abbrev pub IsRanked : List PlayerState → Type 0
IsRanked [] = Unit
IsRanked (x ∷ xs) = All (λ y. ranks_before y x ≡ false) xs × IsRanked xs

-- What the standard says of `std::sort` with the code's comparator.
pub record Sorts (sort : List PlayerState → List PlayerState) : Type 0 where
  pub perm : (xs : List PlayerState) → Perm (sort xs) xs
  pub ranked : (xs : List PlayerState) → IsRanked (sort xs)
  pub size : (xs : List PlayerState) → length (sort xs) ≡ length xs

-- The score of `y` is, as an `int`, at most that of `x`.
abbrev pub ScoresAtMost : PlayerState → PlayerState → Type 0
ScoresAtMost x y = bias_i32 y.score ≤ bias_i32 x.score

-- The scores fall, or stay, from player to player.
abbrev pub ScoresFall : List PlayerState → Type 0
ScoresFall [] = Unit
ScoresFall (x ∷ xs) = All (ScoresAtMost x) xs × ScoresFall xs

-- The players of a reply: with falling scores, none of which any of the others exceeds.
pub record IsTop (players top others : List PlayerState) : Type 0 where
  pub all : Perm (top ++ others) players
  pub falling : ScoresFall top
  pub best : All (λ x. All (ScoresAtMost x) others) top

pub behind-ScoresAtMost :
    (x : PlayerState) (ys : List PlayerState)
    → All (λ y. ranks_before y x ≡ false) ys
    → All (ScoresAtMost x) ys
unfolding ranks_before
behind-ScoresAtMost x [] h = tt
behind-ScoresAtMost x (y ∷ ys) h = (let first = h.0 in omega tests, behind-ScoresAtMost x ys h.1)

ranked-ScoresFall : (xs : List PlayerState) → IsRanked xs → ScoresFall xs
ranked-ScoresFall [] h = tt
ranked-ScoresFall (x ∷ xs) h = (behind-ScoresAtMost x xs h.0, ranked-ScoresFall xs h.1)

ScoresFall-append :
    (xs ys : List PlayerState)
    → ScoresFall (xs ++ ys)
    → ScoresFall xs × All (λ x. All (ScoresAtMost x) ys) xs
ScoresFall-append [] ys h = (tt, tt)
ScoresFall-append (x ∷ xs) ys h =
    let (falling, best) = ScoresFall-append xs ys h.1 in
    ((All-front xs ys h.0, falling), (All-append_right (ScoresAtMost x) xs ys h.0, best))
  where
    All-front :
        (xs ys : List PlayerState) → All (ScoresAtMost x) (xs ++ ys) → All (ScoresAtMost x) xs
    All-front [] ys h = tt
    All-front (z ∷ xs) ys h = (h.0, All-front xs ys h.1)

-- The number of items: none if `top_n` is negative.
abbrev pub wanted : ℕ → ℕ → ℕ
wanted top_n count = if leb (2 ^ 31) top_n then 0 else min top_n count

rounds-eq-wanted :
    (top_n count : ℕ)
    → top_n < i32_mod
    → count < 2 ^ 31
    → rounds top_n (to_i32 count) ≡ wanted top_n count
unfolding rounds
rounds-eq-wanted top_n count ht hc = ground arith

wanted_le : (top_n count : ℕ) → wanted top_n count ≤ count
wanted_le top_n count = ground arith

-- With a sort that permutes and puts nobody before one whom the comparator ranks before them, and
-- fewer than 2^31 stored players, the handler answers with top_n of them (all if there are fewer,
-- none if top_n is negative): their scores, as ints, fall or stay from each to the next, and no
-- other player has a higher score than any of them.
pub ranking_lem :
    (proto : Proto) (sort : List PlayerState → List PlayerState) (session : ℕ) (m : Message)
    (w : World)
    → Sorts sort
    → length (Repository.get_all_players w.player_state_repository) < 2 ^ 31
    → let players = Repository.get_all_players w.player_state_repository in
      let top_n = to_i32 (proto.parse_ranking_req m.body).top_n in
      (top : List PlayerState) × (others : List PlayerState) × IsTop players top others
      × (length top ≡ wanted top_n (length players))
      × (handle_ranking_req proto sort session m w
          ≡ send session
              (record {
                msg_id = MessageId.ranking_resp;
                body = proto.ranking_resp (record { items = map item top });
              })
              (record w { metrics = Metrics.incr_ranking_req w.metrics }))
unfolding handle_ranking_req
ranking_lem proto sort session m w laws small =
    let players = Repository.get_all_players w.player_state_repository in
    let sorted = sort players in
    let top_n = to_i32 (proto.parse_ranking_req m.body).top_n in
    let n = rounds top_n (to_i32 (length sorted)) in
    let whole = take-append-drop n sorted in
    let (falling, best) =
      ScoresFall-append (take n sorted) (drop n sorted)
        (rw whole (ranked-ScoresFall sorted (laws.ranked players))) in
    (
      take n sorted,
      drop n sorted,
      record { all = rw whole (laws.perm players); falling = falling; best = best },
      omega (
        arith,
        length-take n sorted,
        laws.size players,
        rounds-eq-wanted top_n (length sorted) (omega arith) (omega (arith, laws.size players)),
        wanted_le top_n (length players),
        ap (wanted top_n) (laws.size players),
      ),
      refl,
    )
