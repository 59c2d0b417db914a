-- ===== src/Service/Ranking/Order.antt =====
-- The ranking of src/service/RankingService.cpp, where the map of
-- src/player/MemoryPlayerStateRepository.cpp lists the players in another order, or `std::sort`
-- puts equals elsewhere.
use mathlib.Core.List.{Perm, Permᴰ}
use mathlib.Core.List.Perm
use mathlib.Core.List.Permᴰ
use mathlib.Core.Logic.{∥∥₁_elim}
use native.Mathlib.Bridge.{le_prop}
use game_server.Prelude.{
  ℕ, ◌%◌, ◌+◌, ◌<◌, ◌≤◌, ◌^◌, ◌≡◌, refl, ap, sym, subst, ◌∙◌, List, [], ◌∷◌, All, length, take, map,
  arith, zero, suc, to_i32, to_i64, i32_mod, bias_i32,
}
use game_server.Player.Repository.{PlayerState}
use game_server.Proto.{RankingItem}
use game_server.Service.Ranking.{rounds, item, ranking_items}
use game_server.Service.Ranking.Top.{IsRanked, ScoresAtMost, behind-ScoresAtMost, Sorts}

-- The best first.
abbrev Descends : List ℕ → Type 0
Descends [] = Unit
Descends (x ∷ xs) = All (λ y. y ≤ x) xs × Descends xs

All-perm : {A : Type 0} (P : A → Type 0) {xs ys : List A} → Permᴰ xs ys → All P xs → All P ys
All-perm P Permᴰ.nil h = h
All-perm P (Permᴰ.cons e d) h = (subst P e h.0, All-perm P d h.1)
All-perm P (Permᴰ.swap e f) h = (subst P f h.1.0, (subst P e h.0, h.1.1))
All-perm P (Permᴰ.trans d e) h = All-perm P e (All-perm P d h)

head_le : (b x : ℕ) (xs ys : List ℕ) → Perm (x ∷ xs) ys → All (λ y. y ≤ b) ys → x ≤ b
head_le b x xs ys p h = ∥∥₁_elim p le_prop (λ d. (All-perm (λ y. y ≤ b) (Permᴰ.symm d) h).0)

-- One list only is in order.
descending_once : (xs ys : List ℕ) → Descends xs → Descends ys → Perm xs ys → xs ≡ ys
descending_once [] ys h k p = Perm.nil-eq p
descending_once (x ∷ xs) [] h k p = Perm.eq-nil p
descending_once (x ∷ xs) (y ∷ ys) h k p =
    let below : x ≤ y = head_le y x xs (y ∷ ys) p (omega arith, k.0) in
    let above : y ≤ x = head_le x y ys (x ∷ xs) (Perm.symm p) (omega arith, h.0) in
    let same : x ≡ y = omega arith in
    let rest : Perm xs ys = Perm.cons_inv (subst (λ z. Perm (x ∷ xs) (z ∷ ys)) (sym same) p) in
    λ i. same i ∷ descending_once xs ys h.1 k.1 rest i

-- The order of the comparator.
abbrev rank_of : PlayerState → ℕ
rank_of p = bias_i32 p.score

ranked-Descends : (xs : List PlayerState) → IsRanked xs → Descends (map rank_of xs)
ranked-Descends [] h = tt
ranked-Descends (x ∷ xs) h = (go xs (behind-ScoresAtMost x xs h.0), ranked-Descends xs h.1)
  where
    go :
        (ys : List PlayerState)
        → All (ScoresAtMost x) ys
        → All (λ r. r ≤ rank_of x) (map rank_of ys)
    go [] h = tt
    go (y ∷ ys) h = (h.0, go ys h.1)

-- The scores of the stored players are `int`s.
abbrev pub AreInts : List PlayerState → Type 0
AreInts = All (λ p. p.score < i32_mod)

AreInts-prop : (xs : List PlayerState) → IsProp (AreInts xs)
AreInts-prop [] = hlevel
AreInts-prop (x ∷ xs) = hlevel (le_prop, AreInts-prop xs)

sorted-AreInts : (xs ys : List PlayerState) → Perm xs ys → AreInts xs → AreInts ys
sorted-AreInts xs ys p h = ∥∥₁_elim p (AreInts-prop ys) (λ d. All-perm (λ s. s.score < i32_mod) d h)

-- The score that a place in the order stands for.
abbrev score_at : ℕ → ℕ
score_at r = to_i64 ((r + 2 ^ 31) % i32_mod)

scores_by_rank :
    (xs : List PlayerState)
    → AreInts xs
    → map (λ (p : PlayerState). to_i64 p.score) xs ≡ map score_at (map rank_of xs)
scores_by_rank [] h = refl
scores_by_rank (x ∷ xs) h =
    let int = h.0 in
    let same : x.score ≡ (bias_i32 x.score + 2 ^ 31) % i32_mod = omega arith in
    λ i. to_i64 (same i) ∷ scores_by_rank xs h.1 i

scores-take :
    (n : ℕ) (xs : List PlayerState)
    → map (λ (i : RankingItem). i.score) (map item (take n xs))
      ≡ take n (map (λ (p : PlayerState). to_i64 p.score) xs)
scores-take zero xs = refl
scores-take (suc n) [] = refl
scores-take (suc n) (x ∷ xs) = ap (◌∷◌ (to_i64 x.score)) (scores-take n xs)

length-ranks : (xs : List PlayerState) → length (map rank_of xs) ≡ length xs
length-ranks [] = refl
length-ranks (x ∷ xs) = omega (arith, length-ranks xs)

-- For stored players whose scores are 32-bit, the scores that the ranking lists, in their order,
-- are the same in whatever order the map lists the players and whichever sort is used, if it
-- permutes and puts nobody behind a lower score.
pub ranking_determined :
    (sort resort : List PlayerState → List PlayerState) (players relisted : List PlayerState)
    (top_n : ℕ)
    → Sorts sort
    → Sorts resort
    → Perm players relisted
    → AreInts players
    → map (λ (i : RankingItem). i.score) (ranking_items top_n (sort players))
      ≡ map (λ (i : RankingItem). i.score) (ranking_items top_n (resort relisted))
unfolding ranking_items
ranking_determined sort resort players relisted top_n laws relaws same ints =
    let xs = sort players in
    let ys = resort relisted in
    let perm : Perm xs ys =
      Perm.trans (laws.perm players) (Perm.trans same (Perm.symm (relaws.perm relisted))) in
    let ranks : map rank_of xs ≡ map rank_of ys =
      descending_once (map rank_of xs) (map rank_of ys) (ranked-Descends xs (laws.ranked players))
        (ranked-Descends ys (relaws.ranked relisted)) (Perm.map rank_of perm) in
    let count : length xs ≡ length ys = sym (length-ranks xs) ∙ ap length ranks ∙ length-ranks ys in
    let int_xs = sorted-AreInts players xs (Perm.symm (laws.perm players)) ints in
    let scores : map (λ (p : PlayerState). to_i64 p.score) xs
        ≡ map (λ (p : PlayerState). to_i64 p.score) ys =
      scores_by_rank xs int_xs
      ∙ ap (map score_at) ranks
      ∙ sym (scores_by_rank ys (sorted-AreInts xs ys perm int_xs)) in
    scores-take (rounds top_n (to_i32 (length xs))) xs
    ∙ (λ i. take (rounds top_n (to_i32 (count i))) (scores i))
    ∙ sym (scores-take (rounds top_n (to_i32 (length ys))) ys)
