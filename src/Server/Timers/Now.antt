-- ===== src/Server/Timers/Now.antt =====
-- The clock stands still while a handler runs, src/GameServer.cpp.
use game_server.Prelude.{ℕ, ◌≡◌, refl, ap, sym, ◌∙◌, List}
use game_server.Prelude.Exec.{Keeps, Exec, Outcome, done}
use game_server.Player.Repository.{PlayerState}
use game_server.Proto.{Proto}
use game_server.Server.{start_handlers}
use game_server.Server.Frame.{Frame}
use game_server.Server.Frame.Services.{match-Frame}
use game_server.Server.Steady.{Steady, take_packet-Keeps}
use game_server.Server.Steady.Closing.{
  close-Keeps, check_timeout-Keeps, check_reconnect_timeout-Keeps,
}
use game_server.Server.Table.{start_handlers-Frame}
use game_server.World.{World}
use game_server.World.Closing.{close, forget, check_timeout, check_reconnect_timeout}

abbrev pub NowIs : ℕ → World → Type 0
NowIs n w = w.now ≡ n

NowIs-Frame : (n here : ℕ) → Frame here (NowIs n)
NowIs-Frame n here = record {
  metrics = λ m w h. h;
  players = λ m w h. h;
  rooms = λ m w h. h;
  connected = λ w h. h;
  back = λ p w h. h;
  stored = λ r w h. h;
  next_id = λ p w h. h;
  sessions = λ t sid w h. h;
  seen = λ w h. h;
}

close-NowIs : (n sid : ℕ) → Keeps (NowIs n) (close sid)
unfolding forget
close-NowIs n sid = close-Keeps (λ m w h. h) sid (λ w h. h)

pub check_timeout-NowIs : (n timeout : ℕ) → Keeps (NowIs n) (check_timeout timeout)
check_timeout-NowIs n timeout = check_timeout-Keeps (λ m w h. h) timeout (close-NowIs n)

pub check_reconnect_timeout-NowIs : (n : ℕ) → Keeps (NowIs n) check_reconnect_timeout
check_reconnect_timeout-NowIs n = check_reconnect_timeout-Keeps (λ m w h. h) (λ p w h. h)

pub start_handlers-NowIs :
    (proto : Proto) (sort : List PlayerState → List PlayerState) (n : ℕ)
    → Steady (NowIs n) (start_handlers proto sort)
start_handlers-NowIs proto sort n = record {
  takes = λ sid rest m.
      take_packet-Keeps (start_handlers proto sort) sid rest m
        (start_handlers-Frame (NowIs n) sid (NowIs-Frame n sid) proto sort
          (match-Frame (NowIs-Frame n sid) (λ q w h. h) proto))
        (λ w h. h) (λ w h. h);
  closes = close-NowIs n;
  moves = λ moved sid. record { at = λ w h. h };
  ends = λ sid w h. h;
}

-- What keeps the clock has not moved it where it ends.
pub same_now :
    {A : Type 0} {a : A} (m : Exec World A) (w v : World)
    → Keeps (NowIs w.now) m
    → m w ≡ (done a, v)
    → v.now ≡ w.now
same_now {A} m w v keeps ran = ap (λ (r : Outcome A × World). r.1.now) (sym ran) ∙ keeps.at w refl
