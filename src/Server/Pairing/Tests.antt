-- ===== src/Server/Pairing/Tests.antt =====
-- The match queue of a running server, src/GameServer.cpp and src/service/MatchService.cpp, at concrete
-- inputs.
use game_server.Prelude.{◌⊎◌, arith, member, set_insert, refl, List, [], ◌∷◌}
use game_server.Codec.{Message}
use game_server.Match.{MatchQueue}
use game_server.Match as Queues
use game_server.MessageId
use game_server.Server.{Event, accepted, read, run, start_handlers}
use game_server.Server.Pairing.{IsShort, run-IsShort}
use game_server.Server.Pairing.Pairs.{MakesRoom, WaitsAlone, match_pairs}
use game_server.Server.Toy.{toy, first}
use game_server.Service.Ranking.Tests.{rank}
use game_server.World.{World, initial}

-- Two clients connect, and the first asks for a match as player 1.
abbrev evening : List Event
evening = accepted ∷ accepted ∷ read 1 (1 ∷ 0 ∷ 0 ∷ 0 ∷ 0xd1 ∷ 0x07 ∷ 1 ∷ []) ∷ []

run-IsShort_example : IsShort (run (start_handlers toy rank) evening initial).1
run-IsShort_example = run-IsShort toy rank evening

-- Player 4 waits; player 7 asks.
abbrev one_waits : World
one_waits = record initial { match_queue = Queues.join 4 initial.match_queue }

abbrev asks : Message
asks = record { msg_id = MessageId.match_req; body = 7 ∷ [] }

match_pairs_example : WaitsAlone toy 2 asks one_waits ⊎ MakesRoom toy 2 asks one_waits
unfolding first member set_insert Queues.join Queues.contains
match_pairs_example = match_pairs toy 2 asks one_waits (omega arith) refl refl
