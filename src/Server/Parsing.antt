-- ===== src/Server/Parsing.antt =====
-- The loop of `parse_packet` in src/net/Session.cpp against the packets that the buffer holds.
pub mod Heard
use game_server.Prelude.{
  false, subst, ◌==◌, ℕ, zero, suc, ◌≡◌, ◌≢◌, refl, ap, sym, ◌∙◌, List, [], ◌∷◌, Bytes, Option,
  none, some, length, map, arith,
}
use game_server.Prelude.Exec.{
  Exec, Keeps, Outcome, done, fault, for_each, for_each-Keeps, after, then-Keeps, bind-gets-Keeps,
  pure-Keeps,
}
use game_server.Prelude.Dict
use game_server.Codec.{Message, DecodeStatus, success, need_more, error, try_decode, AreBytes}
use game_server.Codec.Packets.{
  next, packets, messages, left, drain-packets, never_error, split_waits,
}
use game_server.Codec.Stream.{no_message, drain, split, drain_enough}
use game_server.Server.{
  Handler, dispatch, run_handler, take_packet, by_status, parse_rounds, parse_packet,
}
use game_server.Server.Hearing.{seen-Hears, Input, input, heard, Hears, Hears-Frame, AreDeaf}
use game_server.Dispatcher.{handler_of}
use game_server.Metrics
use game_server.Server.Frame.{metrics-Frame}
use game_server.Session
use game_server.Session.{Session}
use game_server.World.{on_session, World, session_at, or_fresh}

-- The whole loop, as one pass over the messages.
module _ (handlers : Dict.Dict Handler) where
  unfoldable pub serve : ℕ → List (Message × Bytes) → Exec World (Unit {0})
  serve sid xs = for_each xs (λ (x : Message × Bytes). take_packet handlers sid x.1 x.0)

  module _ (deaf : AreDeaf handlers) where
    pub run_handler-Hears :
        (found : Option Handler) (sid : ℕ) (m : Message) (k : ℕ) (x : Option Input)
        → ((handler : Handler) → found ≡ some handler → Keeps (Hears k x) (handler sid m))
        → Keeps (Hears k x) (run_handler found sid m)
    run_handler-Hears none sid m k x h = pure-Keeps tt
    run_handler-Hears (some handler) sid m k x h = h handler refl

    behind_decode :
        (sid : ℕ) (rest : Bytes) (w : World) (s : Input)
        → Hears sid (some s) w
        → heard
            (Dict.lookup sid (Dict.modify (λ t. record t { recv_buffer = rest }) sid w.sessions))
          ≡ some (record s { recv_buffer = rest })
    behind_decode sid rest w s h =
        ap heard (
          ground
            (arith, Dict.lookup-modify (λ t. record t { recv_buffer = rest }) sid sid w.sessions))
        ∙ go (Dict.lookup sid w.sessions) h
      where
        go :
            (o : Option Session)
            → heard o ≡ some s
            → heard (Dict.over (λ t. record t { recv_buffer = rest }) o)
              ≡ some (record s { recv_buffer = rest })
        go none e = cc
        go (some t) e = ap (Dict.over (λ (i : Input). record i { recv_buffer = rest })) e

    pub take_packet-Hears :
        (sid : ℕ) (rest : Bytes) (m : Message) (w : World) (s : Input)
        → Hears sid (some s) w
        → Hears sid (some (record s { recv_buffer = rest })) (take_packet handlers sid rest m w).1
    unfolding take_packet dispatch handler_of
    take_packet-Hears sid rest m w s h =
        let x : Option Input = some (record s { recv_buffer = rest }) in
        let frame = Hears-Frame {here = sid} sid x in
        (bind-gets-Keeps (λ v. v.now) _
            λ now. then-Keeps _ _ (seen-Hears now sid sid x) (
              then-Keeps _ _ (metrics-Frame frame Metrics.incr_recv_packet) (
                run_handler-Hears (Dict.lookup m.msg_id handlers) sid m sid x
                  (λ handler e. deaf sid x m.msg_id handler e sid m)))).at
          (record w {
            sessions = Dict.modify (λ t. record t { recv_buffer = rest }) sid w.sessions;
          })
          (behind_decode sid rest w s h)

    pub waiting_bytes : Option Input → Bytes
    waiting_bytes none = []
    waiting_bytes (some s) = s.recv_buffer

    pub heard_bytes :
        (o : Option Session) (x : Option Input)
        → heard o ≡ x
        → (or_fresh o).recv_buffer ≡ waiting_bytes x
    unfolding waiting_bytes
    heard_bytes none x e = ap waiting_bytes e
    heard_bytes (some s) x e = ap waiting_bytes e

    -- A connection that is gone holds no packet.
    there :
        (o : Option Session)
        → (try_decode (or_fresh o).recv_buffer no_message).status ≡ success
        → (s : Input) × (heard o ≡ some s)
    unfolding try_decode
    there none e = cc
    there (some s) e = (input s, refl)

    -- After a message, the bytes behind it wait.
    take_packet-leaves :
        (sid : ℕ) (rest : Bytes) (m : Message) (w : World)
        → (try_decode (session_at sid w).recv_buffer no_message).status ≡ success
        → (session_at sid (take_packet handlers sid rest m w).1).recv_buffer ≡ rest
    unfolding waiting_bytes
    take_packet-leaves sid rest m w e =
        let (s, h) = there (Dict.lookup sid w.sessions) e in
        heard_bytes (Dict.lookup sid (take_packet handlers sid rest m w).1.sessions) _
          (take_packet-Hears sid rest m w s h)

    -- Where `m` left the state `r`, a run of the rest of the loop serves the rest and leaves `end`.
    abbrev Serves : ℕ → Outcome (Unit {0}) × World → Outcome (Unit {0}) × World → Bytes → Type 0
    Serves sid looped served end =
        (looped ≡ served) × (served.0 ≡ done tt → (session_at sid served.1).recv_buffer ≡ end)

    after_packet :
        (f sid : ℕ) (rest : Bytes) (r : Outcome (Unit {0}) × World)
        → (session_at sid r.1).recv_buffer ≡ rest
        → ((v : World)
            → (session_at sid v).recv_buffer ≡ rest
            → Serves sid
                (parse_rounds handlers f sid v)
                (serve sid (packets f rest) v)
                (left rest (packets f rest)))
        → Serves sid
            (after r (λ _. parse_rounds handlers f sid))
            (after r (λ _. serve sid (packets f rest)))
            (left rest (packets f rest))
    after_packet f sid rest (done u, v) h ih = ih v h
    after_packet f sid rest (fault x, v) h ih = (refl, λ k. cc)

    one_round :
        (f sid : ℕ) (w : World) (b rest : Bytes) (m : Message) (status : DecodeStatus)
        → (session_at sid w).recv_buffer ≡ b
        → (status ≡ success
            → (session_at sid (take_packet handlers sid rest m w).1).recv_buffer ≡ rest)
        → status ≢ error
        → ((v : World)
            → (session_at sid v).recv_buffer ≡ rest
            → Serves sid
                (parse_rounds handlers f sid v)
                (serve sid (packets f rest) v)
                (left rest (packets f rest)))
        → Serves sid
            (by_status handlers sid
              (record { status = status; buffer = rest; out_message = m })
              (parse_rounds handlers f sid)
              w)
            (serve sid (next status (m, rest) (packets f rest)) w)
            (left b (next status (m, rest) (packets f rest)))
    unfolding serve for_each
    one_round f sid w b rest m success e leaves fine ih =
        after_packet f sid rest (take_packet handlers sid rest m w) (leaves refl) ih
    one_round f sid w b rest m need_more e leaves fine ih = (refl, λ h. e)
    one_round f sid w b rest m error e leaves fine ih = absurd (fine refl)

    -- Fuel for fuel, the loop hands over the packets and leaves what is behind them.
    parse_rounds-serve :
        (f sid : ℕ) (w : World) (b : Bytes)
        → (session_at sid w).recv_buffer ≡ b
        → Serves sid
            (parse_rounds handlers f sid w)
            (serve sid (packets f b) w)
            (left b (packets f b))
    unfolding parse_rounds packets serve for_each
    parse_rounds-serve zero sid w b e = (refl, λ h. e)
    parse_rounds-serve (suc f) sid w b e =
        let d = try_decode b no_message in
        let step =
          one_round f sid w b d.buffer d.out_message d.status e
            (λ s.
              take_packet-leaves sid d.buffer d.out_message w
                (ap (λ c. (try_decode c no_message).status) e ∙ s))
            (never_error b) (λ v h. parse_rounds-serve f sid v d.buffer h) in
        rw e step

    -- For handlers that leave alone what is heard on every connection, and a connection that
    -- holds received bytes, below 256 each: the loop of parse_packet is one pass of take_packet
    -- over a list of packets whose messages are those that the decoder finds, one after the
    -- other, in those bytes. If no handler faults, the bytes behind the last of them wait after
    -- it, and in those the decoder finds no whole packet, so that the fuel has been enough.
    pub parse_packet_lem :
        (sid : ℕ) (w : World)
        → AreBytes (session_at sid w).recv_buffer
        → let b = (session_at sid w).recv_buffer in
          (xs : List (Message × Bytes)) × (parse_packet handlers sid w ≡ serve sid xs w)
          × (messages xs ≡ (split b).0)
          × ((parse_packet handlers sid w).0 ≡ done tt
              → (session_at sid (parse_packet handlers sid w).1).recv_buffer ≡ (split b).1)
          × ((try_decode (split b).1 no_message).status ≡ need_more)
    unfolding parse_packet split
    parse_packet_lem sid w bytes =
        let b = (session_at sid w).recv_buffer in
        let f = suc (length b) in
        let (same, behind) = parse_rounds-serve f sid w b refl in
        let whole : (messages (packets f b), left b (packets f b)) ≡ split b =
          sym (drain-packets f b) ∙ drain_enough f (length b) b bytes (omega arith) (omega arith) in
        (
          packets f b,
          same,
          ap (λ (p : List Message × Bytes). p.0) whole,
          λ ended.
              ap (λ (r : Outcome (Unit {0}) × World). (session_at sid r.1).recv_buffer) same
              ∙ behind (ap (λ (r : Outcome (Unit {0}) × World). r.0) (sym same) ∙ ended)
              ∙ ap (λ (p : List Message × Bytes). p.1) whole,
          split_waits b bytes,
        )
