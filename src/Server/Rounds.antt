-- ===== src/Server/Rounds.antt =====
-- What each round of `parse_packet` in src/net/Session.cpp keeps, the whole loop keeps.
use game_server.Prelude.{ℕ, zero, suc, Bytes, length}
use game_server.Prelude.Exec.{Exec, Keeps, pure-Keeps, then-Keeps}
use game_server.Prelude.Dict.{Dict}
use game_server.Codec.{Message, DecodeStatus, success, need_more, error, try_decode}
use game_server.Codec.Stream.{no_message}
use game_server.Server.{Handler, take_packet, by_status, parse_rounds, parse_packet}
use game_server.World.{World, session_at}
use game_server.World.Closing.{close}

module _ {P : World → Type 0} (handlers : Dict Handler)
    (take : (sid : ℕ) (rest : Bytes) (m : Message) → Keeps P (take_packet handlers sid rest m))
    (closes : (sid : ℕ) → Keeps P (close sid)) where
  by_status-Keeps :
      (sid : ℕ) (status : DecodeStatus) (rest : Bytes) (m : Message) (again : Exec World (Unit {0}))
      → Keeps P again
      → Keeps P (
          by_status handlers sid (record { status = status; buffer = rest; out_message = m }) again)
  by_status-Keeps sid success rest m again k = then-Keeps _ _ (take sid rest m) k
  by_status-Keeps sid need_more rest m again k = pure-Keeps tt
  by_status-Keeps sid error rest m again k = closes sid

  parse_rounds-Keeps : (fuel sid : ℕ) → Keeps P (parse_rounds handlers fuel sid)
  unfolding parse_rounds
  parse_rounds-Keeps zero sid = record { at = λ w h. h }
  parse_rounds-Keeps (suc fuel) sid = record {
    at = λ w h.
        let d = try_decode (session_at sid w).recv_buffer no_message in
        (by_status-Keeps sid d.status d.buffer d.out_message (parse_rounds handlers fuel sid)
            (parse_rounds-Keeps fuel sid)).at
          w h;
  }

  pub parse_packet-Keeps : (sid : ℕ) → Keeps P (parse_packet handlers sid)
  unfolding parse_packet
  parse_packet-Keeps sid = record {
    at = λ w h. (parse_rounds-Keeps (suc (length (session_at sid w).recv_buffer)) sid).at w h;
  }
