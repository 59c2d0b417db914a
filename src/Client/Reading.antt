-- ===== src/Client/Reading.antt =====
-- What the client makes of the bytes it reads: `do_read` and `try_parse` of client/ClientSimulator.cpp.
use game_server.Prelude.{
  ℕ, zero, suc, ◌≡◌, refl, ap, sym, ◌∙◌, List, [], ◌∷◌, ◌++◌, append_assoc, Bytes, Bool, true,
  false, length, arith, All-append,
}
use game_server.Codec.{Message, DecodeStatus, success, need_more, error, try_decode, AreBytes}
use game_server.Codec.Packets.{split_bytes}
use game_server.Codec.Stream.{no_message, drain, drain_enough, split, split-append}
use game_server.Client.{
  ClientProto, ClientSimulator, request_match, chat, duration_send, on_login_resp, on_room_created,
  on_heartbeat_resp, on_reconnect_resp, handle_message, parse_rounds, try_parse, read_done, do_read,
  by_status,
}
use game_server.Proto.{LoginResp, ReconnectResp}

abbrev pub with_input : Bytes → Bool → ClientSimulator → ClientSimulator
with_input bytes reading c = record c { recv_buffer = bytes; reading = reading }

module _ (proto : ClientProto) where
  -- The messages, one after the other.
  unfoldable pub handle_all : ℕ → List Message → ClientSimulator → ClientSimulator
  handle_all now_ms [] c = c
  handle_all now_ms (m ∷ ms) c = handle_all now_ms ms (handle_message proto now_ms m c)

  login_resp_input :
      (resp : LoginResp) (b : Bytes) (r : Bool) (c : ClientSimulator)
      → on_login_resp proto resp (with_input b r c) ≡ with_input b r (on_login_resp proto resp c)
  unfolding on_login_resp request_match
  login_resp_input resp b r c = ground arith

  reconnect_resp_input :
      (resp : ReconnectResp) (b : Bytes) (r : Bool) (c : ClientSimulator)
      → on_reconnect_resp proto resp (with_input b r c)
        ≡ with_input b r (on_reconnect_resp proto resp c)
  unfolding on_reconnect_resp duration_send
  reconnect_resp_input resp b r c = ground arith

  -- No message is handled by what waits to be read.
  handle_message_input :
      (now_ms : ℕ) (m : Message) (b : Bytes) (r : Bool) (c : ClientSimulator)
      → handle_message proto now_ms m (with_input b r c)
        ≡ with_input b r (handle_message proto now_ms m c)
  unfolding handle_message on_room_created on_heartbeat_resp chat
  handle_message_input now_ms m b r c = ground (
    arith,
    login_resp_input (proto.parse_login_resp m.body) b r c,
    reconnect_resp_input (proto.parse_reconnect_resp m.body) b r c,
  )

  handle_all_input :
      (now_ms : ℕ) (ms : List Message) (b : Bytes) (r : Bool) (c : ClientSimulator)
      → handle_all now_ms ms (with_input b r c) ≡ with_input b r (handle_all now_ms ms c)
  unfolding handle_all
  handle_all_input now_ms [] b r c = refl
  handle_all_input now_ms (m ∷ ms) b r c =
      ap (handle_all now_ms ms) (handle_message_input now_ms m b r c)
      ∙ handle_all_input now_ms ms b r (handle_message proto now_ms m c)

  handle_all-append :
      (now_ms : ℕ) (ms ns : List Message) (c : ClientSimulator)
      → handle_all now_ms (ms ++ ns) c ≡ handle_all now_ms ns (handle_all now_ms ms c)
  unfolding handle_all
  handle_all-append now_ms [] ns c = refl
  handle_all-append now_ms (m ∷ ms) ns c =
      handle_all-append now_ms ms ns (handle_message proto now_ms m c)

  parse_rounds_lem :
      (f now_ms : ℕ) (b : Bytes) (r : Bool) (c : ClientSimulator)
      → parse_rounds proto f now_ms (with_input b r c)
        ≡ with_input (drain f b).1 r (handle_all now_ms (drain f b).0 c)
  unfolding parse_rounds drain handle_all
  parse_rounds_lem zero now_ms b r c = refl
  parse_rounds_lem (suc f) now_ms b r c =
      let d = try_decode b no_message in
      go d.status d.buffer d.out_message (λ c'. parse_rounds_lem f now_ms d.buffer r c')
    where
      go :
          (status : DecodeStatus) (rest : Bytes) (m : Message)
          → ((c' : ClientSimulator)
              → parse_rounds proto f now_ms (with_input rest r c')
                ≡ with_input (drain f rest).1 r (handle_all now_ms (drain f rest).0 c'))
          → by_status proto now_ms
              (record { status = status; buffer = rest; out_message = m })
              (parse_rounds proto f now_ms)
              (with_input b r c)
            ≡ with_input
                (elim status as (λ _. List Message × Bytes) [
                  | success ↦ (m ∷ (drain f rest).0, (drain f rest).1)
                  | need_more ↦ ([], b)
                  | error ↦ ([], b)
                ]).1
                r
                (handle_all now_ms
                  (elim status as (λ _. List Message × Bytes) [
                    | success ↦ (m ∷ (drain f rest).0, (drain f rest).1)
                    | need_more ↦ ([], b)
                    | error ↦ ([], b)
                  ]).0
                  c)
      go success rest m ih =
          ap (parse_rounds proto f now_ms) (handle_message_input now_ms m rest r c)
          ∙ ih (handle_message proto now_ms m c)
      go need_more rest m ih = refl
      go error rest m ih = refl

  -- `try_parse` handles the messages of the buffer and keeps what is behind them.
  try_parse_lem :
      (now_ms : ℕ) (b : Bytes) (r : Bool) (c : ClientSimulator)
      → AreBytes b
      → try_parse proto now_ms (with_input b r c)
        ≡ with_input (split b).1 r (handle_all now_ms (split b).0 c)
  unfolding try_parse split
  try_parse_lem now_ms b r c h =
      parse_rounds_lem (suc (length b)) now_ms b r c
      ∙ ap (λ (p : List Message × Bytes). with_input p.1 r (handle_all now_ms p.0 c))
          (drain_enough (suc (length b)) (length b) b h (omega arith) (omega arith))

  -- When bytes come to a client, it handles the messages that the decoder finds in its buffer
  -- with those bytes behind, in order, keeps what is left behind them, and starts to read again.
  pub read_done_lem :
      (now_ms : ℕ) (bytes : Bytes) (c : ClientSimulator)
      → AreBytes c.recv_buffer
      → AreBytes bytes
      → let b = c.recv_buffer ++ bytes in
        read_done proto now_ms bytes c
        ≡ with_input (split b).1 true (handle_all now_ms (split b).0 c)
  unfolding read_done do_read
  read_done_lem now_ms bytes c hc hb =
      ap (λ (x : ClientSimulator). record x { reading = true })
        (try_parse_lem now_ms (c.recv_buffer ++ bytes) false c
          (All-append _ c.recv_buffer bytes hc hb))

  -- If the clock stands still, a client comes to the same state whether bytes come in one read or
  -- are cut into two.
  pub read_done-append :
      (now_ms : ℕ) (a b : Bytes) (c : ClientSimulator)
      → AreBytes c.recv_buffer
      → AreBytes a
      → AreBytes b
      → read_done proto now_ms (a ++ b) c ≡ read_done proto now_ms b (read_done proto now_ms a c)
  read_done-append now_ms a b c hc ha hb =
      let x : Bytes = c.recv_buffer ++ a in
      let hx : AreBytes x = All-append _ c.recv_buffer a hc ha in
      let mid = handle_all now_ms (split x).0 c in
      let rest : Bytes = (split x).1 ++ b in
      read_done_lem now_ms (a ++ b) c hc (All-append _ a b ha hb)
      ∙ ap (λ (p : List Message × Bytes). with_input p.1 true (handle_all now_ms p.0 c))
          (ap split (sym (append_assoc c.recv_buffer a b)) ∙ split-append x b hx hb)
      ∙ ap (with_input (split rest).1 true) (handle_all-append now_ms (split x).0 (split rest).0 c)
      ∙ ap (with_input (split rest).1 true)
          (sym (handle_all_input now_ms (split rest).0 (split x).1 true mid))
      ∙ sym (read_done_lem now_ms b (with_input (split x).1 true mid) (split_bytes x hx) hb)
      ∙ ap (read_done proto now_ms b) (sym (read_done_lem now_ms a c hc ha))
