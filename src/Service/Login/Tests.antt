-- ===== src/Service/Login/Tests.antt =====
-- The theorems on logins at concrete inputs.
use game_server.Prelude.{◌≡◌, refl, [], ◌∷◌, some, none}
use game_server.Prelude.Dict
use game_server.Codec.{Message}
use game_server.Server.Toy.{toy}
use game_server.Service.Login.{handle_login}
use game_server.Service.Login.Entry.{login_again_leaks}
use game_server.Session
use game_server.World.{World, initial}
use game_server.World.Closing.{close}

-- Player 9999 is logged in on session 1.
abbrev logged_in : World
logged_in = record initial {
  sessions = Dict.put 1 (record Session.fresh { player_id = 9999 }) Dict.empty;
  player_manager = record { players = Dict.put 9999 1 Dict.empty };
}

abbrev as_ada : Message
as_ada = record { msg_id = 1001; body = 97 ∷ 100 ∷ 97 ∷ [] }

login_again_leaks_example :
    let after = (close 1 (handle_login toy 1 as_ada logged_in).1).1 in
    (Dict.lookup 9999 after.player_manager.players ≡ some 1)
    × (Dict.lookup 10000 after.player_manager.players ≡ none)
unfolding Dict.lookup Dict.put
login_again_leaks_example =
    login_again_leaks toy 1 as_ada (record Session.fresh { player_id = 9999 }) logged_in 9999 refl
      refl refl refl refl
