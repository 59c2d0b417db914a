-- ===== src/Session/Writing.antt =====
-- What reaches the socket: src/net/Session.cpp, `send` and `do_write`.
use game_server.Prelude.{
  ℕ, ◌+◌, ◌-◌, ◌≤◌, ◌≡◌, refl, sym, ap, ◌∙◌, List, [], ◌∷◌, ◌++◌, append_assoc, append-nil, false,
  Option, none, some, Bytes, length, take, arith, length-append, length-take, All, take_all,
}
use game_server.Codec.{Message, encode, try_decode, IsSendable}
use game_server.Codec.Stream.{split}
use game_server.Codec.Packets.{encode_all, split-encode_all}
use game_server.Session.{Session, front, pop_front, given, fresh, send, write_done}

-- An open session has a write outstanding exactly while packets are queued, and it is that of the
-- front packet; so there is never a second one.
abbrev pub IsWriting : Session → Type 0
IsWriting s = (s.closed ≡ false) × (s.pending_write ≡ front s.write_queue)

pub send-IsWriting : (m : Message) (s : Session) → IsWriting s → IsWriting (send m s)
unfolding send
send-IsWriting m s h = go m s s.write_queue refl h
  where
    go :
        (m : Message) (s : Session) (q : List Bytes)
        → s.write_queue ≡ q
        → IsWriting s
        → IsWriting (send m s)
    go m s [] e h = ground arith
    go m s (p ∷ q) e h = ground arith

pub write_done-IsWriting : (n : ℕ) (s : Session) → IsWriting s → IsWriting (write_done n s)
unfolding write_done
write_done-IsWriting n s h = go n s s.write_queue refl h
  where
    go :
        (n : ℕ) (s : Session) (q : List Bytes)
        → s.write_queue ≡ q
        → IsWriting s
        → IsWriting (write_done n s)
    go n s [] e h = ground arith
    go n s (p ∷ []) e h = ground arith
    go n s (p ∷ p' ∷ q) e h = ground arith

-- What the two leave alone.
pub send_keeps :
    (m : Message) (s : Session)
    → ((send m s).closed ≡ s.closed)
      × ((send m s).player_id ≡ s.player_id)
      × ((send m s).token ≡ s.token)
unfolding send
send_keeps m s = ground arith

pub write_done_keeps :
    (n : ℕ) (s : Session)
    → ((write_done n s).closed ≡ s.closed)
      × ((write_done n s).player_id ≡ s.player_id)
      × ((write_done n s).token ≡ s.token)
unfolding write_done
write_done_keeps n s = ground arith

abbrev pub concat : List Bytes → Bytes
concat [] = []
concat (p ∷ ps) = p ++ concat ps

-- All that the peer has been or will be given, if every write takes its whole packet.
abbrev pub stream : Session → Bytes
stream s = s.wire ++ concat s.write_queue

concat-append_one : (q : List Bytes) (p : Bytes) → concat (q ++ p ∷ []) ≡ concat q ++ p
concat-append_one [] p = append-nil p
concat-append_one (x ∷ q) p =
    ap (◌++◌ x) (concat-append_one q p) ∙ sym (append_assoc x (concat q) p)

queue-send : (m : Message) (s : Session) → (send m s).write_queue ≡ s.write_queue ++ encode m ∷ []
unfolding send
queue-send m s = ground arith

wire-send : (m : Message) (s : Session) → (send m s).wire ≡ s.wire
unfolding send
wire-send m s = ground arith

stream-send : (m : Message) (s : Session) → stream (send m s) ≡ stream s ++ encode m
stream-send m s =
    rw (wire-send m s, queue-send m s)
      (ap (◌++◌ s.wire) (concat-append_one s.write_queue (encode m))
        ∙ sym (append_assoc s.wire (concat s.write_queue) (encode m)))

queue-write_done : (n : ℕ) (s : Session) → (write_done n s).write_queue ≡ pop_front s.write_queue
unfolding write_done
queue-write_done n s = ground arith

wire-write_done :
    (n : ℕ) (s : Session) → (write_done n s).wire ≡ s.wire ++ take n (given s.pending_write)
unfolding write_done
wire-write_done n s = ground arith

-- On an open connection that writes its front packet, when the write takes n of the packet's
-- bytes, the packet's other bytes are neither written nor queued any more, so that written and
-- queued bytes together shrink by as many.
pub write_done_loses :
    (n : ℕ) (s : Session) (p : Bytes) (ps : List Bytes)
    → IsWriting s
    → s.write_queue ≡ p ∷ ps
    → n ≤ length p
    → (stream s ≡ s.wire ++ (p ++ concat ps))
      × (stream (write_done n s) ≡ s.wire ++ (take n p ++ concat ps))
      × (length (stream (write_done n s)) + (length p - n) ≡ length (stream s))
write_done_loses n s p ps h e hn =
    let front_p : s.pending_write ≡ some p = h.1 ∙ ap front e in
    let after : stream (write_done n s) ≡ s.wire ++ (take n p ++ concat ps) =
      rw (wire-write_done n s, queue-write_done n s, e, front_p)
        (append_assoc s.wire (take n p) (concat ps)) in
    let before : stream s ≡ s.wire ++ (p ++ concat ps) = ap (λ q. s.wire ++ concat q) e in
    (
      before,
      after,
      rw (after, before)
          (omega (
            arith,
            length-append s.wire (take n p ++ concat ps),
            length-append (take n p) (concat ps),
            length-append s.wire (p ++ concat ps),
            length-append p (concat ps),
            length-take n p,
          )),
    )

-- What happens to an open connection's output: a message is sent, or the outstanding write ends
-- having taken its whole packet (with none outstanding nothing happens).
pub data Action : Type 0 where
  sends : Message → Action
  writes : Action

abbrev whole_write : Option Bytes → Session → Session
whole_write none s = s
whole_write (some p) s = write_done (length p) s

unfoldable pub act : Session → Action → Session
act s (sends m) = send m s
act s writes = whole_write s.pending_write s

unfoldable pub run : Session → List Action → Session
run s [] = s
run s (a ∷ acts) = run (act s a) acts

abbrev pub sent : List Action → List Message
sent [] = []
sent (sends m ∷ acts) = m ∷ sent acts
sent (writes ∷ acts) = sent acts

stream-whole_write :
    (o : Option Bytes) (s : Session) (q : List Bytes)
    → s.pending_write ≡ o
    → s.write_queue ≡ q
    → IsWriting s
    → stream (whole_write o s) ≡ stream s
stream-whole_write none s q eo eq h = refl
stream-whole_write (some p) s [] eo eq h = cc (h.1, ap front eq)
stream-whole_write (some p) s (p' ∷ ps) eo eq h =
    let e : s.write_queue ≡ p ∷ ps = cc (h.1, ap front eq) in
    let (before, after, _) = write_done_loses (length p) s p ps h e (omega arith) in
    after ∙ ap (λ t. s.wire ++ (t ++ concat ps)) (take_all p) ∙ sym before

whole_write-IsWriting : (s : Session) (o : Option Bytes) → IsWriting s → IsWriting (whole_write o s)
whole_write-IsWriting s none h = h
whole_write-IsWriting s (some p) h = write_done-IsWriting (length p) s h

-- On an open connection that writes its front packet, or has none to write, after any sends and
-- whole writes the bytes written and the packets queued are what was there before and then the
-- packets of the messages sent, in order; and it still is such a connection.
stream-run :
    (s : Session) (acts : List Action)
    → IsWriting s
    → (stream (run s acts) ≡ stream s ++ encode_all (sent acts)) × IsWriting (run s acts)
unfolding run act
stream-run s [] h = (sym (append-nil (stream s)), h)
stream-run s (sends m ∷ acts) h =
    let ih = stream-run (send m s) acts (send-IsWriting m s h) in
    (
      ih.0
          ∙ ap (λ t. t ++ encode_all (sent acts)) (stream-send m s)
          ∙ append_assoc (stream s) (encode m) (encode_all (sent acts)),
      ih.1,
    )
stream-run s (writes ∷ acts) h =
    let ih =
      stream-run (whole_write s.pending_write s) acts (whole_write-IsWriting s s.pending_write h) in
    (
      ih.0
          ∙ ap (λ t. t ++ encode_all (sent acts))
              (stream-whole_write s.pending_write s s.write_queue refl refl h),
      ih.1,
    )

-- When sends of sendable messages and whole writes on a fresh connection have left nothing
-- queued, the decoder finds in the bytes written exactly the messages sent, in order.
pub delivered :
    (acts : List Action)
    → All IsSendable (sent acts)
    → (run fresh acts).write_queue ≡ []
    → split (run fresh acts).wire ≡ (sent acts, [])
delivered acts ok idle =
    ap split (
      sym (append-nil (run fresh acts).wire)
      ∙ ap (λ q. (run fresh acts).wire ++ concat q) (sym idle)
      ∙ (stream-run fresh acts (refl, refl)).0
      ∙ sym (append-nil (encode_all (sent acts))))
    ∙ split-encode_all (sent acts) [] ok (unfold try_decode in refl)
