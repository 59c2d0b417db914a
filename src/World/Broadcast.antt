-- ===== src/World/Broadcast.antt =====
-- Who can be sent to: the calls of `PlayerManager::get_session` in src/room/Room.cpp and
-- src/room/RoomManager.cpp.
use game_server.Prelude.{
  ℕ, ◌≡◌, refl, ap, ◌∙◌, inl, inr, List, [], ◌∷◌, Bool, true, false, ◌&&◌, Option, none, some,
  arith, Option-cases, Bool-cases,
}
use game_server.Prelude.Exec.{Outcome, done, fault, for_each, after, out_of_range, null_session}
use game_server.Prelude.Dict
use game_server.Codec.{Message}
use game_server.Session
use game_server.Session.{Session}
use game_server.World.{World, send, send_to_player}

abbrev pub is_done {ℓ} : {A : Type ℓ} → Outcome A → Bool
is_done (done a) = true
is_done (fault e) = false

abbrev pub live_session : World → Option ℕ → Bool
live_session w none = false
live_session w (some sid) = Dict.contains sid w.sessions

-- The player is known and the session is alive.
abbrev pub is_live : World → ℕ → Bool
is_live w p = live_session w (Dict.lookup p w.player_manager.players)

abbrev pub all_live : World → List ℕ → Bool
all_live w [] = true
all_live w (p ∷ ps) = is_live w p && all_live w ps

-- Neither who is known nor who is alive changes.
pub record SameLive (v w : World) : Type 0 where
  pub players : v.player_manager ≡ w.player_manager
  pub alive : (sid : ℕ) → Dict.contains sid v.sessions ≡ Dict.contains sid w.sessions

pub contains-modify :
    (f : Session → Session) (k j : ℕ) (m : Dict.Dict Session)
    → Dict.contains j (Dict.modify f k m) ≡ Dict.contains j m
unfolding Dict.contains
contains-modify f k j m = ground (arith, Dict.lookup-modify f k j m)

live-SameLive : (v w : World) (p : ℕ) → SameLive v w → is_live v p ≡ is_live w p
live-SameLive v w p h = rw h.players (go (Dict.lookup p w.player_manager.players))
  where
    go : (o : Option ℕ) → live_session v o ≡ live_session w o
    go none = refl
    go (some sid) = h.alive sid

pub all_live-SameLive : (v w : World) (ps : List ℕ) → SameLive v w → all_live v ps ≡ all_live w ps
all_live-SameLive v w [] h = refl
all_live-SameLive v w (p ∷ ps) h = rw (live-SameLive v w p h, all_live-SameLive v w ps h)

pub send-SameLive : (sid : ℕ) (msg : Message) (w : World) → SameLive (send sid msg w).1 w
unfolding send
send-SameLive sid msg w = record {
  players = refl;
  alive = λ j. contains-modify (Session.send msg) sid j w.sessions;
}

send_unknown :
    (msg : Message) (p : ℕ) (w : World)
    → Dict.lookup p w.player_manager.players ≡ none
    → send_to_player msg p w ≡ (fault out_of_range, w)
unfolding send_to_player
send_unknown msg p w e = rw e

send_dead :
    (msg : Message) (p sid : ℕ) (w : World)
    → Dict.lookup p w.player_manager.players ≡ some sid
    → Dict.contains sid w.sessions ≡ false
    → send_to_player msg p w ≡ (fault null_session, w)
unfolding send_to_player
send_dead msg p sid w e dead = rw (e, dead)

pub send_live :
    (msg : Message) (p sid : ℕ) (w : World)
    → Dict.lookup p w.player_manager.players ≡ some sid
    → Dict.contains sid w.sessions ≡ true
    → send_to_player msg p w ≡ send sid msg w
unfolding send_to_player
send_live msg p sid w e alive = rw (e, alive)

send_done : (sid : ℕ) (msg : Message) (w : World) → (send sid msg w).0 ≡ done tt
unfolding send
send_done sid msg w = refl

-- A send to a player ends exactly if the player is live; who is live does not change.
send_to_player_lem :
    (msg : Message) (p : ℕ) (w : World)
    → (is_done (send_to_player msg p w).0 ≡ is_live w p) × SameLive (send_to_player msg p w).1 w
send_to_player_lem msg p w = elim (Option-cases (Dict.lookup p w.player_manager.players)) [
  | inl e ↦ rw (send_unknown msg p w e, e) (refl, record { players = refl; alive = λ j. refl })
  | inr (sid, e) ↦ elim (Bool-cases (Dict.contains sid w.sessions)) [
    | inl alive ↦
        rw (send_live msg p sid w e alive, e, alive, send_done sid msg w)
          (refl, send-SameLive sid msg w)
    | inr dead ↦
        rw (send_dead msg p sid w e dead, e, dead)
          (refl, record { players = refl; alive = λ j. refl })
  ]
]

-- A loop of sends to players comes to its end exactly if each of them has a live session at its
-- start.
pub sends_end :
    (msg : Message) (ps : List ℕ) (w : World)
    → is_done (for_each ps (send_to_player msg) w).0 ≡ all_live w ps
unfolding for_each
sends_end msg [] w = refl
sends_end msg (p ∷ ps) w =
    go (send_to_player msg p w) (send_to_player_lem msg p w) (sends_end msg ps)
  where
    go :
        (r : Outcome (Unit {0}) × World)
        → (is_done r.0 ≡ is_live w p) × SameLive r.1 w
        → ((v : World) → is_done (for_each ps (send_to_player msg) v).0 ≡ all_live v ps)
        → is_done (after r (λ _. for_each ps (send_to_player msg))).0
          ≡ (is_live w p && all_live w ps)
    go (done u, v) (live, same) ih =
        ih v ∙ all_live-SameLive v w ps same ∙ ap (λ b. b && all_live w ps) live
    go (fault f, v) (live, same) ih = ap (λ b. b && all_live w ps) live
