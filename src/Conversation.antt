-- ===== src/Conversation.antt =====
-- A client of client/ClientSimulator.cpp and the server of src/GameServer.cpp, each reading one packet
-- that the other writes.
pub mod Login
pub mod Matching
pub mod Chatting
pub mod Reconnect
pub mod Return
mod Tests
use game_server.Prelude.{
  ℕ, zero, suc, ◌<◌, ◌%◌, ◌≡◌, refl, ap, sym, ◌∙◌, [], List, ◌∷◌, ◌++◌, Bytes, true, false, some,
  none, arith, null, All, subst, All-append, length, codes, to_i32, to_i64, i32_mod, ◌==◌,
  append-nil,
}
use game_server.Prelude.Exec.{Outcome, done, after}
use game_server.Prelude.Dict
use game_server.Prelude.Dict.{Dict}
use game_server.Codec.{
  success, Message, encode, try_decode, IsSendable, AreBytes, write_uint16, write_uint32,
}
use game_server.Codec.Packets.{split-encode_all, encode_all}
use game_server.Codec.RoundTrip.{encode-eq-packet, try_decode-encode}
use game_server.Codec.Stream.{no_message, split}
use game_server.Client.{
  ClientProto, ClientSimulator, login, login_message, request_match, handle_message, on_login_resp,
}
use game_server.Client as Clients
use game_server.Client.Reading.{with_input, handle_all, read_done_lem}
use game_server.Dispatcher.{register_handler, handler_of}
use game_server.MessageId
use game_server.Metrics
use game_server.Player.Manager
use game_server.Player.Repository.{PlayerState}
use game_server.Proto.{Proto, LoginReq, LoginResp}
use game_server.Server.{
  Handler, run_handler, dispatch, take_packet, by_status, parse_rounds, parse_packet, read_done,
  start_handlers,
}
use game_server.Service.Login.{generate_token, handle_login, send_login_success}
use game_server.Service.Login.Entry.{entered, login_served}
use game_server.Server.Steady.{noted}
use game_server.Session
use game_server.Session.{Session, given}
use game_server.World.{World, send, session_at, or_fresh}

pub encode_bytes : (m : Message) → IsSendable m → AreBytes m.body → AreBytes (encode m)
unfolding write_uint32 write_uint16
encode_bytes m ok body =
    rw (encode-eq-packet m ok)
      (omega arith, (omega arith, (omega arith, (omega arith, (omega arith, (omega arith, body))))))

-- An open connection on which nothing waits.
pub record IsNew (s : Session) : Type 0 where
  pub open_now : s.closed ≡ false
  pub unread : s.recv_buffer ≡ []
  pub unsent : s.write_queue ≡ []

pub modify_there :
    (f : Session → Session) (sid : ℕ) (s : Session) (d : Dict Session)
    → Dict.lookup sid d ≡ some s
    → Dict.lookup sid (Dict.modify f sid d) ≡ some (f s)
modify_there f sid s d e = ground (arith, e, Dict.lookup-modify f sid sid d)

-- The session `t` after a send, with the packet being written.
abbrev pub replied : Message → Session → Session
replied m t = record t { write_queue = encode m ∷ []; pending_write = some (encode m) }

pub lookup-send :
    (sid : ℕ) (m : Message) (t : Session) (w : World)
    → Dict.lookup sid w.sessions ≡ some t
    → IsNew t
    → Dict.lookup sid (send sid m w).1.sessions ≡ some (replied m t)
unfolding send Session.send Session.do_write
lookup-send sid m t w e new =
    modify_there (Session.send m) sid t w.sessions e ∙ rw (new.open_now, new.unsent) refl

abbrev pub received : ℕ → Bytes → World → World
received sid bytes w = record w { sessions = Dict.modify (Session.receive bytes) sid w.sessions }

-- The session when one packet has come and is taken out again.
pub lookup-noted :
    (sid : ℕ) (bytes : Bytes) (s : Session) (w : World)
    → Dict.lookup sid w.sessions ≡ some s
    → Dict.lookup sid (noted sid [] (received sid bytes w)).sessions
      ≡ some (record s { recv_buffer = []; reading = false; last_active_time = w.now })
unfolding Session.receive Session.update_last_active_time
lookup-noted sid bytes s w e = modify_there (Session.update_last_active_time w.now) sid _ _ (
    modify_there (λ x. record x { recv_buffer = [] }) sid _ _
      (modify_there (Session.receive bytes) sid s w.sessions e))

module _ (handlers : Dict Handler) where
  idle_rounds :
      (f sid : ℕ) (w : World)
      → (session_at sid w).recv_buffer ≡ []
      → parse_rounds handlers f sid w ≡ (done tt, w)
  unfolding parse_rounds try_decode
  idle_rounds zero sid w e = refl
  idle_rounds (suc f) sid w e = rw e refl

  -- A buffer of one packet.
  one_packet :
      (sid : ℕ) (m : Message) (w u : World)
      → IsSendable m
      → (session_at sid w).recv_buffer ≡ encode m
      → take_packet handlers sid [] m w ≡ (done tt, u)
      → (session_at sid u).recv_buffer ≡ []
      → parse_packet handlers sid w ≡ (done tt, u)
  unfolding parse_packet parse_rounds
  one_packet sid m w u ok e taken rest =
      let read : try_decode (encode m) no_message
          ≡ record { status = success; buffer = []; out_message = m } =
        ap (λ b. try_decode b no_message) (sym (append-nil (encode m)))
        ∙ try_decode-encode m no_message [] ok in
      rw (e, read)
        (ap
            (λ (r : Outcome (Unit {0}) × World).
              after r (λ _. parse_rounds handlers (length (encode m)) sid))
            taken
          ∙ idle_rounds (length (encode m)) sid u rest)

  -- A read of one packet, where `u` is what its handler leaves.
  pub read_once :
      (sid : ℕ) (m : Message) (s t : Session) (w u : World)
      → Dict.lookup sid w.sessions ≡ some s
      → IsNew s
      → IsSendable m
      → take_packet handlers sid [] m (received sid (encode m) w) ≡ (done tt, u)
      → Dict.lookup sid u.sessions ≡ some t
      → t.recv_buffer ≡ []
      → t.closed ≡ false
      → read_done handlers sid (encode m) w
        ≡ (done tt, record u { sessions = Dict.modify Session.do_read sid u.sessions })
  unfolding read_done Session.receive
  read_once sid m s t w u e new ok taken there empty open_now =
      let filled = modify_there (Session.receive (encode m)) sid s w.sessions e in
      let parsed =
        one_packet sid m (received sid (encode m) w) u ok
          (ap (λ o. (or_fresh o).recv_buffer) filled ∙ ap (λ b. b ++ encode m) new.unread) taken
          (ap (λ o. (or_fresh o).recv_buffer) there ∙ empty) in
      rw (parsed, there, open_now) refl

  pub one_read :
      (sid : ℕ) (m : Message) (s t : Session) (w u : World)
      → Dict.lookup sid w.sessions ≡ some s
      → IsNew s
      → IsSendable m
      → take_packet handlers sid [] m (received sid (encode m) w) ≡ (done tt, u)
      → Dict.lookup sid u.sessions ≡ some t
      → t.recv_buffer ≡ []
      → t.closed ≡ false
      → (v : World) × (read_done handlers sid (encode m) w ≡ (done tt, v))
        × (Dict.lookup sid v.sessions ≡ some (record t { reading = true }))
        × (v.player_manager ≡ u.player_manager)
        × (v.player_state_manager ≡ u.player_state_manager)
  unfolding Session.do_read
  one_read sid m s t w u e new ok taken there empty open_now = (
    record u { sessions = Dict.modify Session.do_read sid u.sessions },
    read_once sid m s t w u e new ok taken there empty open_now,
    modify_there Session.do_read sid t u.sessions there,
    refl,
    refl,
  )

-- The client at whole packets.
pub whole_packets :
    (client : ClientProto) (ms : List Message) (now_ms : ℕ) (c : ClientSimulator)
    → All IsSendable ms
    → AreBytes (encode_all ms)
    → c.recv_buffer ≡ []
    → Clients.read_done client now_ms (encode_all ms) c
      ≡ with_input [] true (handle_all client now_ms ms c)
whole_packets client ms now_ms c ok bytes empty =
    let whole : split (encode_all ms) ≡ (ms, []) =
      ap split (sym (append-nil (encode_all ms)))
      ∙ split-encode_all ms [] ok (unfold try_decode in refl) in
    read_done_lem client now_ms (encode_all ms) c (rw empty tt) bytes ∙ rw (empty, whole) refl

-- The client at one packet.
pub one_reply :
    (client : ClientProto) (m : Message) (now_ms : ℕ) (c : ClientSimulator)
    → IsSendable m
    → AreBytes m.body
    → c.recv_buffer ≡ []
    → Clients.read_done client now_ms (encode m) c
      ≡ with_input [] true (handle_message client now_ms m c)
unfolding handle_all
one_reply client m now_ms c ok bytes empty =
    ap (λ b. Clients.read_done client now_ms b c) (sym (append-nil (encode m)))
    ∙ whole_packets client (m ∷ []) now_ms c (ok, tt)
        (subst AreBytes (sym (append-nil (encode m))) (encode_bytes m ok bytes)) empty

pub int_wide : (p : ℕ) → p < i32_mod → to_i32 (to_i64 p) ≡ p
int_wide p h = ground arith
