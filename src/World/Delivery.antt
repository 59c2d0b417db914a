-- ===== src/World/Delivery.antt =====
-- What the loops of sends of src/room/Room.cpp and src/room/RoomManager.cpp queue on each connection.
use game_server.Prelude.{
  ℕ, ◌≡◌, refl, ap, sym, ◌∙◌, inl, inr, List, [], ◌∷◌, ◌++◌, append_assoc, append-nil, Bytes, Bool,
  true, false, ◌==◌, Option, none, some, arith, if◌then◌else◌, ==-cases,
}
use game_server.Prelude.Exec.{done, for_each}
use game_server.Prelude.Dict
use game_server.Codec.{Message, encode}
use game_server.Session
use game_server.Session.{Session}
use game_server.World.{World, send, send_to_player}
use game_server.World.Broadcast.{
  is_live, all_live, live_session, send_live, all_live-SameLive, SameLive, send-SameLive,
}

abbrev is_under : ℕ → Option ℕ → Bool
is_under sid none = false
is_under sid (some k) = k == sid

-- The packets for connection `sid` where the message is for these players.
abbrev pub packets_for : ℕ → Message → World → List ℕ → List Bytes
packets_for sid msg w [] = []
packets_for sid msg w (p ∷ ps) =
    let rest = packets_for sid msg w ps in
    if is_under sid (Dict.lookup p w.player_manager.players) then encode msg ∷ rest else rest

-- The connection has these packets queued.
abbrev pub Queues : ℕ → World → List Bytes → Type 0
Queues sid w packets =
    (t : Session) × (Dict.lookup sid w.sessions ≡ some t) × (t.write_queue ≡ packets)

queue-send :
    (m : Message) (s : Session) → (Session.send m s).write_queue ≡ s.write_queue ++ encode m ∷ []
unfolding Session.send Session.do_write
queue-send m s = ground arith

send-Queues :
    (k sid : ℕ) (msg : Message) (s : Session) (w : World)
    → Dict.lookup sid w.sessions ≡ some s
    → Queues sid
        (send k msg w).1
        (if k == sid then s.write_queue ++ encode msg ∷ [] else s.write_queue)
unfolding send
send-Queues k sid msg s w e = elim (==-cases k sid) [
  | inl same ↦ (
    Session.send msg s,
    ground (arith, e, Dict.lookup-modify (Session.send msg) k sid w.sessions),
    ground (arith, queue-send msg s),
  )
  | inr other ↦
      (s, ground (arith, e, Dict.lookup-modify (Session.send msg) k sid w.sessions), ground arith)
]

pub packets-SameLive :
    (sid : ℕ) (msg : Message) (v w : World) (ps : List ℕ)
    → SameLive v w
    → packets_for sid msg v ps ≡ packets_for sid msg w ps
packets-SameLive sid msg v w [] h = refl
packets-SameLive sid msg v w (p ∷ ps) h = rw (h.players, packets-SameLive sid msg v w ps h) refl

live_at :
    (w : World) (p : ℕ)
    → is_live w p ≡ true
    → (k : ℕ) × (Dict.lookup p w.player_manager.players ≡ some k)
      × (Dict.contains k w.sessions ≡ true)
live_at w p h = go (Dict.lookup p w.player_manager.players) refl h
  where
    go :
        (o : Option ℕ)
        → Dict.lookup p w.player_manager.players ≡ o
        → live_session w o ≡ true
        → (k : ℕ) × (Dict.lookup p w.player_manager.players ≡ some k)
          × (Dict.contains k w.sessions ≡ true)
    go none e live = cc live
    go (some k) e live = (k, e, live)

packet_first :
    (b : Bool) (q rest : List Bytes) (x : Bytes)
    → (if b then q ++ x ∷ [] else q) ++ rest ≡ q ++ (if b then x ∷ rest else rest)
packet_first true q rest x = append_assoc q (x ∷ []) rest
packet_first false q rest x = refl

-- Where all of the players have live sessions, the loop comes to its end, and each connection has
-- the packet queued as often as a player known under it is listed.
pub sends_deliver :
    (sid : ℕ) (msg : Message) (ps : List ℕ) (s : Session) (w : World)
    → Dict.lookup sid w.sessions ≡ some s
    → all_live w ps ≡ true
    → ((for_each ps (send_to_player msg) w).0 ≡ done tt)
      × Queues sid
          (for_each ps (send_to_player msg) w).1
          (s.write_queue ++ packets_for sid msg w ps)
unfolding for_each send
sends_deliver sid msg [] s w e live = (refl, (s, e, sym (append-nil s.write_queue)))
sends_deliver sid msg (p ∷ ps) s w e live =
    let (k, known, alive) = live_at w p (ground arith) in
    let others : all_live w ps ≡ true = ground arith in
    let v : World = (send k msg w).1 in
    let (t, there, queue) = send-Queues k sid msg s w e in
    let (ended, (u, at_end, packets)) =
      sends_deliver sid msg ps t v there
        (all_live-SameLive v w ps (send-SameLive k msg w) ∙ others) in
    rw (send_live msg p k w known alive, known)
      (
        ended,
        (
          u,
          at_end,
          packets
              ∙ ap (◌++◌ t.write_queue) (packets-SameLive sid msg v w ps (send-SameLive k msg w))
              ∙ ap (λ (q : List Bytes). q ++ packets_for sid msg w ps) queue
              ∙ packet_first (k == sid) s.write_queue (packets_for sid msg w ps) (encode msg),
        ),
      )
