-- ===== src/Server/GivingUp.antt =====
-- Who loses their seat to the reconnect timeout of src/GameServer.cpp.
use game_server.Prelude.{
  sym, arith, some, ltb, ℕ, ◌≡◌, refl, ap, ◌∙◌, List, [], ◌∷◌, Bool, true, false, Option, none,
  if◌then◌else◌, ◌==◌, member,
}
use game_server.Prelude.Exec.{Outcome, after-done, after-ended, done, for_each}
use game_server.Prelude.Dict
use game_server.Prelude.Dict.{Dict}
use game_server.Player.StateManager
use game_server.Player.StateManager.{PlayerRuntimeState, is_offline, seconds_between, timed_out}
use game_server.Room.Manager as Manager
use game_server.Room.Invariant as Inv
use game_server.Server.NoFault.{IsReady, give_up-Runs}
use game_server.World.{World, on_rooms}
use game_server.World.Closing.{give_up, check_reconnect_timeout}

-- Where a player is, and what is recorded of them.
abbrev pub seat_of : ℕ → World → Option ℕ
seat_of j w = Dict.lookup j w.room_manager.player_room_map

abbrev pub record_of : ℕ → World → Option StateManager.PlayerRuntimeState
record_of j w = Dict.lookup j w.player_state_manager.states

abbrev pub unless {ℓ} : {A : Type ℓ} → Bool → Option A → Option A
unless gone o = if gone then none else o

after_give_up :
    (p : ℕ) (w : World)
    → IsReady w
    → (give_up p w).1 ≡ (record w {
      room_manager = (Manager.remove_player p w.room_manager).1;
      player_state_manager = StateManager.remove_player p w.player_state_manager;
    })
unfolding give_up
after_give_up p w h =
    ap (λ (r : Outcome (Unit {0}) × World). r.1)
      (after-done (on_rooms (Manager.remove_player p) w) _
        (Inv.remove_player-IsConsistent p w.room_manager (h.sound.rooms h.ids_left).1).0)

give_up_lem :
    (p j : ℕ) (w : World)
    → IsReady w
    → (seat_of j (give_up p w).1 ≡ unless (p == j) (seat_of j w))
      × (record_of j (give_up p w).1 ≡ unless (p == j) (record_of j w))
unfolding StateManager.remove_player
give_up_lem p j w h = (
  ap (seat_of j) (after_give_up p w h)
      ∙ (Inv.remove_player-IsConsistent p w.room_manager (h.sound.rooms h.ids_left).1).2 j,
  ap (record_of j) (after_give_up p w h) ∙ Dict.lookup-remove p j w.player_state_manager.states,
)

pub unless_twice :
    {A : Type 0} (b c : Bool) (o : Option A)
    → unless c (unless b o) ≡ unless (if b then true else c) o
unless_twice true true o = refl
unless_twice true false o = refl
unless_twice false c o = refl

give_up_all :
    (j : ℕ) (ps : List ℕ) (w : World)
    → IsReady w
    → (seat_of j (for_each ps give_up w).1 ≡ unless (member j ps) (seat_of j w))
      × (record_of j (for_each ps give_up w).1 ≡ unless (member j ps) (record_of j w))
unfolding for_each member
give_up_all j [] w h = (refl, refl)
give_up_all j (p ∷ ps) w h =
    let v = (give_up p w).1 in
    let step = after-done (give_up p w) (for_each ps give_up) ((give_up-Runs p).ends w h) in
    let (seats, records) = give_up_all j ps v ((give_up-Runs p).keeps w h) in
    let (seat, kept) = give_up_lem p j w h in
    (
      ap (λ (r : Outcome (Unit {0}) × World). seat_of j r.1) step
          ∙ seats
          ∙ ap (unless (member j ps)) seat
          ∙ unless_twice (p == j) (member j ps) (seat_of j w),
      ap (λ (r : Outcome (Unit {0}) × World). record_of j r.1) step
          ∙ records
          ∙ ap (unless (member j ps)) kept
          ∙ unless_twice (p == j) (member j ps) (record_of j w),
    )

-- A loop that ends has taken each of its players' seats, and nothing from the others.
pub gives_all_up :
    (j : ℕ) (ps : List ℕ) (w v : World)
    → for_each ps give_up w ≡ (done tt, v)
    → record_of j v ≡ unless (member j ps) (record_of j w)
unfolding for_each member give_up StateManager.remove_player
gives_all_up j [] w v e = ap (λ (r : Outcome (Unit {0}) × World). record_of j r.1) (sym e)
gives_all_up j (p ∷ ps) w v e =
    let (_, ended, rest) = after-ended (give_up p w) (λ _. for_each ps give_up) tt v e in
    let (_, _, taken) =
      after-ended (on_rooms (Manager.remove_player p) w) _ tt (give_up p w).1
        (ap (λ (o : Outcome (Unit {0})). (o, (give_up p w).1)) ended) in
    gives_all_up j ps (give_up p w).1 v rest
    ∙ ap (unless (member j ps)) (
        ap (λ (r : Outcome (Unit {0}) × World). record_of j r.1) (sym taken)
        ∙ Dict.lookup-remove p j w.player_state_manager.states)
    ∙ unless_twice (p == j) (member j ps) (record_of j w)

-- Who is not listed is not away, or not for long.
pub timed_out_misses :
    (timeout now p : ℕ) (s : PlayerRuntimeState) (m : Dict PlayerRuntimeState)
    → Dict.lookup p m ≡ some s
    → is_offline s.conn_state ≡ true
    → member p (timed_out timeout now m) ≡ false
    → ltb timeout (seconds_between s.disconnected_time now) ≡ false
unfolding timed_out member Dict.lookup
timed_out_misses timeout now p s [] e off h = cc e
timed_out_misses timeout now p s ((j, x) ∷ m) e off h =
    ground (arith, timed_out_misses timeout now p s m)

-- From a state with the invariant and with room ids left, the reconnect timeout takes exactly the
-- players whom get_reconnect_timeout_players lists for 30 seconds out of their rooms' map and out
-- of the recorded states; every other player keeps both.
pub check_reconnect_timeout_clears :
    (j : ℕ) (w : World)
    → IsReady w
    → let late = StateManager.get_reconnect_timeout_players 30 w.now w.player_state_manager in
      (seat_of j (check_reconnect_timeout w).1 ≡ unless (member j late) (seat_of j w))
      × (record_of j (check_reconnect_timeout w).1 ≡ unless (member j late) (record_of j w))
unfolding check_reconnect_timeout
check_reconnect_timeout_clears j w h =
    give_up_all j (StateManager.get_reconnect_timeout_players 30 w.now w.player_state_manager) w h
