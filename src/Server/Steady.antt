-- ===== src/Server/Steady.antt =====
-- What the events of the connections keep: the completions of src/net/Session.cpp, under the handlers
-- of src/service.
pub mod Closing
use game_server.Prelude.{ℕ, ◌≡◌, refl, Bytes, Bool, true, false, Option, none, some}
use game_server.Prelude.Exec.{
  Exec, Keeps, modify, then-Keeps, bind-gets-Keeps, pure-Keeps, if-Keeps,
}
use game_server.Prelude.Dict
use game_server.Prelude.Dict.{Dict}
use game_server.Codec.{Message}
use game_server.Dispatcher.{handler_of}
use game_server.Metrics
use game_server.Server.{
  Handler, Event, accepted, read, read_failed, written, write_failed, room_timer, timeout_timer,
  reconnect_timer, report_timer, elapse, destroy, handle, run_handler, dispatch, take_packet,
  parse_packet, read_done,
}
use game_server.Server.Frame.{Frame}
use game_server.Server.Rounds.{parse_packet-Keeps}
use game_server.Server.Table.{KeepsAt}
use game_server.Session
use game_server.Session.{Session}
use game_server.World.{World, on_session, session_at}
use game_server.World.Closing.{close}

-- The changes of a session that come from its socket.
pub data Moves : (Session → Session) → Type 0 where
  receives : (bytes : Bytes) → Moves (Session.receive bytes)
  reads : Moves Session.do_read
  writes : (n : ℕ) → Moves (Session.write_done n)

-- The completions of one connection, and its end.
unfoldable pub of_session : Event → Bool
of_session (read sid bytes) = true
of_session (read_failed sid) = true
of_session (written sid n) = true
of_session (write_failed sid) = true
of_session (destroy sid) = true
of_session accepted = false
of_session room_timer = false
of_session timeout_timer = false
of_session reconnect_timer = false
of_session report_timer = false
of_session (elapse ns ms) = false

pub record Steady (P : World → Type 0) (handlers : Dict Handler) : Type 0 where
  pub takes : (sid : ℕ) (rest : Bytes) (m : Message) → Keeps P (take_packet handlers sid rest m)
  pub closes : (sid : ℕ) → Keeps P (close sid)
  pub moves : {f : Session → Session} → Moves f → (sid : ℕ) → Keeps P (on_session sid f)
  pub ends : (sid : ℕ) (w : World) → P w → P (record w { sessions = Dict.remove sid w.sessions })

-- The server when it hands over a packet.
abbrev pub noted : ℕ → Bytes → World → World
noted sid rest w = record w {
  metrics = Metrics.incr_recv_packet w.metrics;
  sessions =
      Dict.modify (Session.update_last_active_time w.now) sid
        (Dict.modify (λ s. record s { recv_buffer = rest }) sid w.sessions);
}

run_handler-Keeps :
    {P : World → Type 0} (found : Option Handler) (sid : ℕ) (m : Message)
    → ((handler : Handler) → found ≡ some handler → Keeps P (handler sid m))
    → Keeps P (run_handler found sid m)
run_handler-Keeps none sid m h = pure-Keeps tt
run_handler-Keeps (some handler) sid m h = h handler refl

-- A packet keeps `P` if noting it makes `Q` true, which the handlers keep and which gives `P` back.
pub take_packet-Keeps :
    {P Q : World → Type 0} (handlers : Dict Handler) (sid : ℕ) (rest : Bytes) (m : Message)
    → KeepsAt sid Q handlers
    → ((w : World) → P w → Q (noted sid rest w))
    → ((w : World) → Q w → P w)
    → Keeps P (take_packet handlers sid rest m)
unfolding take_packet dispatch handler_of
take_packet-Keeps handlers sid rest m all before after = record {
  at = λ w h. after _ (
      (run_handler-Keeps (Dict.lookup m.msg_id handlers) sid m
          (λ handler e. all m.msg_id handler e m)).at
        (noted sid rest w) (before w h));
}

module _ {P : World → Type 0} (handlers : Dict Handler) (steady : Steady P handlers) where
  read_done-Keeps : (sid : ℕ) (bytes : Bytes) → Keeps P (read_done handlers sid bytes)
  unfolding read_done
  read_done-Keeps sid bytes = then-Keeps _ _ (steady.moves (receives bytes) sid) (
      then-Keeps (parse_packet handlers sid) _
        (parse_packet-Keeps handlers steady.takes steady.closes sid)
        (bind-gets-Keeps (λ w. (session_at sid w).closed) _
          λ closed. if-Keeps closed _ _ (pure-Keeps tt) (steady.moves reads sid)))

  pub session-Keeps : (e : Event) → of_session e ≡ true → Keeps P (handle handlers e)
  unfolding handle of_session
  session-Keeps (read sid bytes) h = read_done-Keeps sid bytes
  session-Keeps (read_failed sid) h = steady.closes sid
  session-Keeps (written sid n) h = steady.moves (writes n) sid
  session-Keeps (write_failed sid) h = steady.closes sid
  session-Keeps (destroy sid) h = record { at = steady.ends sid }
  session-Keeps accepted h = cc h
  session-Keeps room_timer h = cc h
  session-Keeps timeout_timer h = cc h
  session-Keeps reconnect_timer h = cc h
  session-Keeps report_timer h = cc h
  session-Keeps (elapse ns ms) h = cc h
