-- ===== src/Match/Laws.antt =====
-- Consistency of the queue and the set of src/match/MatchQueue.cpp, operation by operation.
use game_server.Prelude.{
  ℕ, zero, suc, ◌≤◌, ◌≡◌, refl, sym, ◌∙◌, List, [], ◌∷◌, ◌++◌, append_assoc, append-nil, true,
  false, length, ltb, ◌==◌, if◌then◌else◌, arith, member, set_erase, Distinct, take, drop,
  member-append_one, member-set_insert, member-set_erase_all, set_erase_all, member-take-drop,
  Distinct-drop, take-append-drop, ap, Bool-cases, inl, inr, member-set_erase,
  member-erase_first_ne, member-erase_first_self, Distinct-append_one, Distinct-erase_first, tests,
}
use game_server.Match.{MatchQueue, contains, join, leave, pop_rounds, try_pop_matched_players}

-- The set holds the queue's players, and nobody stands in the queue twice.
pub record IsConsistent (q : MatchQueue) : Type 0 where
  pub distinct : Distinct q.queue
  pub agree : (p : ℕ) → member p q.in_queue ≡ member p q.queue

-- A player who is not in a consistent queue joins at its end and is in; nobody else's membership
-- changes, and the queue stays consistent.
pub join-IsConsistent :
    (p : ℕ) (q : MatchQueue)
    → IsConsistent q
    → contains p q ≡ false
    → IsConsistent (join p q)
      × ((join p q).queue ≡ q.queue ++ p ∷ [])
      × ((j : ℕ) → contains j (join p q) ≡ (if p == j then true else contains j q))
unfolding join contains
join-IsConsistent p q v h = (
  record {
    distinct = Distinct-append_one q.queue p v.distinct (sym (v.agree p) ∙ h);
    agree = λ j.
        member-set_insert p j q.in_queue
        ∙ ap (λ b. if p == j then true else b) (v.agree j)
        ∙ sym (member-append_one p j q.queue);
  },
  refl,
  λ j. member-set_insert p j q.in_queue,
)

-- On a consistent queue, leave keeps the queue and its set in step, takes the player out, and
-- leaves every other player in.
pub leave-IsConsistent :
    (p : ℕ) (q : MatchQueue)
    → IsConsistent q
    → IsConsistent (leave p q)
      × ((j : ℕ) → contains j (leave p q) ≡ (if p == j then false else contains j q))
unfolding leave contains
leave-IsConsistent p q v = elim (Bool-cases (member p q.in_queue)) [
  | inl there ↦
      rw (there, leave)
        (
          record {
            distinct = Distinct-erase_first p q.queue v.distinct;
            agree = λ j. ground (
              arith,
              member-set_erase p j q.in_queue,
              v.agree j,
              member-erase_first_ne p j q.queue,
              member-erase_first_self p q.queue v.distinct,
            );
          },
          λ j. member-set_erase p j q.in_queue,
        )
  | inr absent ↦ rw (absent, leave) (v, λ j. ground arith)
]

-- The loop takes a prefix of the queue out of both.
pub pop_rounds_lem :
    (n : ℕ) (matched queue in_queue : List ℕ)
    → n ≤ length queue
    → pop_rounds n matched queue in_queue ≡ (
      matched ++ take n queue,
      record { queue = drop n queue; in_queue = set_erase_all (take n queue) in_queue },
    )
unfolding pop_rounds set_erase_all
pop_rounds_lem zero matched queue in_queue h =
    ap (λ (m : List ℕ). (m, record { queue = queue; in_queue = in_queue }))
      (sym (append-nil matched))
pop_rounds_lem (suc n) matched [] in_queue h = absurd (omega arith)
pop_rounds_lem (suc n) matched (p ∷ queue) in_queue h =
    pop_rounds_lem n (matched ++ p ∷ []) queue (set_erase p in_queue) (omega arith)
    ∙ ap
        (λ (m : List ℕ). (
          m,
          record {
            queue = drop n queue;
            in_queue = set_erase_all (take n queue) (set_erase p in_queue);
          },
        ))
        (append_assoc matched (p ∷ []) (take n queue))

-- With enough players in a consistent queue the first room_size of them come out, in the order in
-- which they joined, and the others stay in that order; with too few nobody does. Either way the
-- queue stays consistent.
pub try_pop-IsConsistent :
    (n : ℕ) (q : MatchQueue)
    → IsConsistent q
    → IsConsistent (try_pop_matched_players n q).1
      × ((try_pop_matched_players n q).0 ≡ (if ltb (length q.queue) n then [] else take n q.queue))
      × ((try_pop_matched_players n q).0 ++ (try_pop_matched_players n q).1.queue ≡ q.queue)
unfolding try_pop_matched_players
try_pop-IsConsistent n q v = elim (Bool-cases (ltb (length q.queue) n)) [
  | inl few ↦ rw (few, try_pop_matched_players) (v, refl, refl)
  | inr many ↦
      rw (many, try_pop_matched_players, pop_rounds_lem n [] q.queue q.in_queue (omega tests))
        (
          record {
            distinct = Distinct-drop n q.queue v.distinct;
            agree = λ j.
                member-set_erase_all (take n q.queue) j q.in_queue
                ∙ ap (λ b. if member j (take n q.queue) then false else b) (v.agree j)
                ∙ member-take-drop n j q.queue v.distinct;
          },
          refl,
          take-append-drop n q.queue,
        )
]
