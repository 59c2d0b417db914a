-- ===== src/Server/Parsing/Heard.antt =====
-- What the parse loop of src/net/Session.cpp leaves of the bytes that wait on each connection.
use game_server.Prelude.{false, subst, ◌==◌, ℕ, ◌≡◌, ap, sym, ◌∙◌, List, Bytes, Option, some, arith}
use game_server.Prelude.Exec.{Keeps, Outcome, done, for_each-Keeps, then-Keeps, bind-gets-Keeps}
use game_server.Prelude.Dict
use game_server.Codec.{Message, AreBytes}
use game_server.Codec.Stream.{split}
use game_server.Server.{Handler, dispatch, take_packet, parse_packet}
use game_server.Server.Hearing.{seen-Hears, Input, heard, Hears, Hears-Frame, AreDeaf}
use game_server.Dispatcher.{handler_of}
use game_server.Metrics
use game_server.Server.Frame.{metrics-Frame}
use game_server.Session.{Session}
use game_server.World.{on_session, World, session_at}
use game_server.Server.Parsing.{
  serve, parse_packet_lem, run_handler-Hears, take_packet-Hears, waiting_bytes, heard_bytes,
}

module _ (handlers : Dict.Dict Handler) where
  module _ (deaf : AreDeaf handlers) where
    -- The other connections are not heard meanwhile.
    take_packet-Keeps_other :
        (sid k : ℕ) (x : Option Input) (rest : Bytes) (m : Message)
        → (sid == k) ≡ false
        → Keeps (Hears k x) (take_packet handlers sid rest m)
    unfolding take_packet dispatch handler_of
    take_packet-Keeps_other sid k x rest m differ =
        let frame = Hears-Frame {here = sid} k x in
        then-Keeps (on_session sid (λ s. record s { recv_buffer = rest })) _
          (record {
            at = λ w h.
                ap heard (
                  ground (
                    arith,
                    Dict.lookup-modify (λ (s : Session). record s { recv_buffer = rest }) sid k
                        w.sessions,
                  ))
                ∙ h;
          })
          (bind-gets-Keeps (λ v. v.now) _
            λ now. then-Keeps _ _ (seen-Hears now sid k x) (
              then-Keeps _ _ (metrics-Frame frame Metrics.incr_recv_packet) (
                run_handler-Hears handlers deaf (Dict.lookup m.msg_id handlers) sid m k x
                  (λ handler e. deaf k x m.msg_id handler e sid m))))

    -- Some bytes wait on a connection, and its flags are these.
    abbrev Flagged : ℕ → Input → World → Type 0
    Flagged sid s w = (b : Bytes) × Hears sid (some (record s { recv_buffer = b })) w

    serve-Flagged :
        (sid : ℕ) (s : Input) (xs : List (Message × Bytes))
        → Keeps (Flagged sid s) (serve handlers sid xs)
    unfolding serve
    serve-Flagged sid s xs = for_each-Keeps xs _ (λ x. record {
      at = λ w h.
          (x.1, take_packet-Hears handlers deaf sid x.1 x.0 w (record s { recv_buffer = h.0 }) h.1);
    })

    -- After a run of the loop that does not fault, what `split` leaves waits on the connection, and
    -- nothing else that is heard has changed.
    pub parse_packet-Hears :
        (sid : ℕ) (s : Input) (w : World)
        → Hears sid (some s) w
        → AreBytes s.recv_buffer
        → (parse_packet handlers sid w).0 ≡ done tt
        → Hears sid
            (some (record s { recv_buffer = (split s.recv_buffer).1 }))
            (parse_packet handlers sid w).1
          × ((k : ℕ) (x : Option Input)
              → (sid == k) ≡ false
              → Hears k x w
              → Hears k x (parse_packet handlers sid w).1)
    unfolding serve waiting_bytes
    parse_packet-Hears sid s w h bytes ended =
        let now : (session_at sid w).recv_buffer ≡ s.recv_buffer =
          heard_bytes handlers deaf (Dict.lookup sid w.sessions) (some s) h in
        let (xs, same, _, ends, _) = parse_packet_lem handlers deaf sid w (rw now bytes) in
        let v = (parse_packet handlers sid w).1 in
        let served : (serve handlers sid xs w).1 ≡ v =
          ap (λ (r : Outcome (Unit {0}) × World). r.1) (sym same) in
        let (b, flagged) =
          subst (Flagged sid s) served ((serve-Flagged sid s xs).at w (s.recv_buffer, h)) in
        let behind : b ≡ (split s.recv_buffer).1 =
          sym (heard_bytes handlers deaf (Dict.lookup sid v.sessions) _ flagged)
          ∙ ends ended
          ∙ ap (λ c. (split c).1) now in
        (
          flagged ∙ ap (λ c. some (record s { recv_buffer = c })) behind,
          λ k x differ e.
              subst (Hears k x) served (
                (for_each-Keeps xs _ (λ y. take_packet-Keeps_other sid k x y.1 y.0 differ)).at w e),
        )
