-- ===== src/Server/Hearing.antt =====
-- What the server has heard on a connection: the received bytes that wait, and whether a read is
-- outstanding, in src/net/Session.cpp. The handlers of src/service see none of it.
use game_server.Prelude.{
  ℕ, ◌≡◌, refl, ap, ◌∙◌, List, Bytes, Bool, Option, none, some, arith, ==-cases, inl, inr,
}
use game_server.Prelude.Dict
use game_server.Prelude.Exec.{Keeps}
use game_server.Player.Repository.{PlayerState}
use game_server.Proto.{Proto}
use game_server.Server.{Handler, start_handlers}
use game_server.Server.Frame.{Frame, Touch, sends, names, trusts}
use game_server.Server.Frame.Services.{match-Frame}
use game_server.Server.Table.{KeepsAll, all_at, start_handlers-Frame}
use game_server.Session
use game_server.Session.{Session}
use game_server.World.{World, on_session}

pub record Input : Type 0 where
  pub recv_buffer : Bytes
  pub reading : Bool
  pub closed : Bool

abbrev pub input : Session → Input
input s = record { recv_buffer = s.recv_buffer; reading = s.reading; closed = s.closed }

abbrev pub heard : Option Session → Option Input
heard none = none
heard (some s) = some (input s)

-- What has been heard on connection `sid`.
abbrev pub Hears : ℕ → Option Input → World → Type 0
Hears sid x w = heard (Dict.lookup sid w.sessions) ≡ x

input-Touch : (f : Session → Session) → Touch f → (s : Session) → input (f s) ≡ input s
unfolding Session.send Session.do_write Session.set_player_id Session.set_token
input-Touch _ (sends m) s = ground arith
input-Touch _ (names p) s = refl
input-Touch _ (trusts token) s = refl

heard-over :
    (f : Session → Session)
    → ((s : Session) → input (f s) ≡ input s)
    → (o : Option Session) → heard (Dict.over f o) ≡ heard o
heard-over f same none = refl
heard-over f same (some s) = ap some (same s)

pub heard-modify :
    (f : Session → Session)
    → ((s : Session) → input (f s) ≡ input s)
    → (k j : ℕ) (m : Dict.Dict Session)
    → heard (Dict.lookup j (Dict.modify f k m)) ≡ heard (Dict.lookup j m)
heard-modify f same k j m = elim (==-cases k j) [
  | inl e ↦ ground (arith, Dict.lookup-modify f k j m, heard-over f same (Dict.lookup j m))
  | inr e ↦ ground (arith, Dict.lookup-modify f k j m)
]

-- A change that is heard, by what it does to the input.
pub heard-change :
    (f : Session → Session) (g : Input → Input)
    → ((s : Session) → input (f s) ≡ g (input s))
    → (k : ℕ) (m : Dict.Dict Session)
    → heard (Dict.lookup k (Dict.modify f k m)) ≡ Dict.over g (heard (Dict.lookup k m))
heard-change f g same k m =
    let found : Dict.lookup k (Dict.modify f k m) ≡ Dict.over f (Dict.lookup k m) =
      ground (arith, Dict.lookup-modify f k k m) in
    ap heard found ∙ go (Dict.lookup k m)
  where
    go : (o : Option Session) → heard (Dict.over f o) ≡ Dict.over g (heard o)
    go none = refl
    go (some s) = ap some (same s)

-- The time of the last message is not heard.
pub seen-Hears :
    (now k sid : ℕ) (x : Option Input)
    → Keeps (Hears sid x) (on_session k (Session.update_last_active_time now))
unfolding Session.update_last_active_time
seen-Hears now k sid x = record {
  at = λ w h.
      heard-modify (λ s. record s { last_active_time = now }) (λ s. refl) k sid w.sessions ∙ h;
}

pub Hears-Frame : {here : ℕ} (sid : ℕ) (x : Option Input) → Frame here (Hears sid x)
Hears-Frame {here} sid x = record {
  metrics = λ m w h. h;
  players = λ m w h. h;
  rooms = λ m w h. h;
  connected = λ w h. h;
  back = λ p w h. h;
  stored = λ r w h. h;
  next_id = λ p w h. h;
  sessions = λ {f} t k w h. heard-modify f (input-Touch f t) k sid w.sessions ∙ h;
  seen = λ w h. (seen-Hears w.now here sid x).at w h;
}

-- Handlers that leave what is heard alone.
abbrev pub AreDeaf : Dict.Dict Handler → Type 0
AreDeaf handlers = (sid : ℕ) (x : Option Input) → KeepsAll (Hears sid x) handlers

pub start_handlers-AreDeaf :
    (proto : Proto) (sort : List PlayerState → List PlayerState)
    → AreDeaf (start_handlers proto sort)
start_handlers-AreDeaf proto sort sid x = all_at (Hears sid x) (start_handlers proto sort) λ here.
    start_handlers-Frame (Hears sid x) here (Hears-Frame sid x) proto sort
      (match-Frame (Hears-Frame sid x) (λ q w h. h) proto)
