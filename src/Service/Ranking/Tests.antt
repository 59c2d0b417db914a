-- ===== src/Service/Ranking/Tests.antt =====
-- A sort that meets what is asked of `std::sort` in the ranking: insertion into a ranked list.
use mathlib.Core.List.{Perm}
use mathlib.Core.List.Perm
use game_server.Prelude.{
  ℕ, map, ◌+◌, ◌≡◌, refl, List, [], ◌∷◌, true, false, All, length, arith, if◌then◌else◌, Bool-cases,
  inl, inr,
}
use game_server.Player.Repository.{PlayerState}
use game_server.Service.Ranking.{ranks_before, ranking_items}
use game_server.Service.Ranking.Order.{ranking_determined}
use game_server.Proto.{RankingItem}
use game_server.Service.Ranking.Top.{IsRanked, Sorts}

rank_in : PlayerState → List PlayerState → List PlayerState
rank_in x [] = x ∷ []
rank_in x (y ∷ ys) = if ranks_before y x then y ∷ rank_in x ys else x ∷ y ∷ ys

unfoldable pub rank : List PlayerState → List PlayerState
unfolding rank_in
rank [] = []
rank (x ∷ xs) = rank_in x (rank xs)

-- No player of the list ranks before `a`.
abbrev Behind : PlayerState → List PlayerState → Type 0
Behind a = All (λ y. ranks_before y a ≡ false)

Behind-trans :
    (a b : PlayerState) (ys : List PlayerState)
    → ranks_before b a ≡ false
    → Behind b ys
    → Behind a ys
unfolding ranks_before
Behind-trans a b [] h k = tt
Behind-trans a b (y ∷ ys) h k = (ground arith, Behind-trans a b ys h k.1)

rank_in-Behind :
    (a x : PlayerState) (ys : List PlayerState)
    → ranks_before x a ≡ false
    → Behind a ys
    → Behind a (rank_in x ys)
unfolding rank_in
rank_in-Behind a x [] h k = (h, tt)
rank_in-Behind a x (y ∷ ys) h k = elim (Bool-cases (ranks_before y x)) [
  | inl before ↦ rw before (k.0, rank_in-Behind a x ys h k.1)
  | inr after ↦ rw after (h, k)
]

ranks_asym : (a b : PlayerState) → ranks_before a b ≡ true → ranks_before b a ≡ false
unfolding ranks_before
ranks_asym a b h = ground arith

rank_in-IsRanked : (x : PlayerState) (ys : List PlayerState) → IsRanked ys → IsRanked (rank_in x ys)
unfolding rank_in
rank_in-IsRanked x [] h = (tt, tt)
rank_in-IsRanked x (y ∷ ys) h = elim (Bool-cases (ranks_before y x)) [
  | inl before ↦
      rw before (rank_in-Behind y x ys (ranks_asym y x before) h.0, rank_in-IsRanked x ys h.1)
  | inr after ↦ rw after ((after, Behind-trans x y ys after h.0), h)
]

rank_in-perm : (x : PlayerState) (ys : List PlayerState) → Perm (rank_in x ys) (x ∷ ys)
unfolding rank_in
rank_in-perm x [] = Perm.refl (x ∷ [])
rank_in-perm x (y ∷ ys) = elim (Bool-cases (ranks_before y x)) [
  | inl before ↦ rw before (Perm.trans (Perm.cons y (rank_in-perm x ys)) (Perm.swap x y ys))
  | inr after ↦ rw after (Perm.refl (x ∷ y ∷ ys))
]

length-rank_in : (x : PlayerState) (ys : List PlayerState) → length (rank_in x ys) ≡ length ys + 1
unfolding rank_in
length-rank_in x [] = refl
length-rank_in x (y ∷ ys) = ground (arith, length-rank_in x ys)

rank-perm : (xs : List PlayerState) → Perm (rank xs) xs
unfolding rank
rank-perm [] = Perm.refl []
rank-perm (x ∷ xs) = Perm.trans (rank_in-perm x (rank xs)) (Perm.cons x (rank-perm xs))

rank-IsRanked : (xs : List PlayerState) → IsRanked (rank xs)
unfolding rank
rank-IsRanked [] = tt
rank-IsRanked (x ∷ xs) = rank_in-IsRanked x (rank xs) (rank-IsRanked xs)

length-rank : (xs : List PlayerState) → length (rank xs) ≡ length xs
unfolding rank
length-rank [] = refl
length-rank (x ∷ xs) = omega (arith, length-rank_in x (rank xs), length-rank xs)

pub rank-Sorts : Sorts rank
rank-Sorts = record { perm = rank-perm; ranked = rank-IsRanked; size = length-rank }

-- Two players with the same score, and a better one, in two orders.
abbrev scored_as : ℕ → ℕ → PlayerState
scored_as p score = record {
  player_id = p;
  name = [];
  score = score;
  online = true;
  room_id = 0;
  last_login_time_ms = 0;
  last_logout_time_ms = 0;
}

abbrev listed : List PlayerState
listed = scored_as 1 5 ∷ scored_as 2 5 ∷ scored_as 3 9 ∷ []

abbrev relisted : List PlayerState
relisted = scored_as 2 5 ∷ scored_as 1 5 ∷ scored_as 3 9 ∷ []

ranking_determined_example :
    map (λ (i : RankingItem). i.score) (ranking_items 2 (rank listed))
    ≡ map (λ (i : RankingItem). i.score) (ranking_items 2 (rank relisted))
ranking_determined_example =
    ranking_determined rank rank listed relisted 2 rank-Sorts rank-Sorts
      (Perm.swap (scored_as 2 5) (scored_as 1 5) (scored_as 3 9 ∷ []))
      (omega arith, (omega arith, (omega arith, tt)))
