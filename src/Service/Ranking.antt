-- ===== src/Service/Ranking.antt =====
-- src/service/RankingService.h and src/service/RankingService.cpp. `std::sort` with the comparator of
-- the code is a parameter, since it leaves players of equal score in any order.
pub mod Top
pub mod Order
pub mod Tests
use game_server.Prelude.{
  ℕ, ◌^◌, List, Bool, Option, none, some, if◌then◌else◌, length, take, map, to_i32, to_i64, add_i32,
  lt_i32, leb,
}
use game_server.Prelude.Exec.{Exec, modify, ◌>>◌}
use game_server.Codec.{Message}
use game_server.MessageId
use game_server.Metrics
use game_server.Player.Repository
use game_server.Player.Repository.{PlayerState}
use game_server.Proto.{Proto, RankingItem}
use game_server.World.{World, on_metrics, send}

-- The comparator: a.score > b.score.
unfoldable pub ranks_before : PlayerState → PlayerState → Bool
ranks_before a b = lt_i32 b.score a.score

-- `score + delta_score` on plain `int`s: a sum that is not an `int` is undefined in C++.
abbrev pub scored : ℕ → ℕ → Option PlayerState → World → World
scored player_id delta_score none w = w
scored player_id delta_score (some state) w = record w {
  player_state_repository =
      Repository.update_score player_id (add_i32 state.score delta_score) w.player_state_repository;
}

unfoldable pub add_score : ℕ → ℕ → Exec World (Unit {0})
add_score player_id delta_score = modify (λ w.
    scored player_id delta_score (Repository.load_player_state player_id w.player_state_repository)
      w)

-- `std::min` of two `int`s, and the rounds of `for (int i = 0; i < size; i++)`.
unfoldable pub rounds : ℕ → ℕ → ℕ
rounds top_n count =
    let size = if lt_i32 count top_n then count else top_n in if leb (2 ^ 31) size then 0 else size

abbrev pub item : PlayerState → RankingItem
item p = record { player_id = to_i64 p.player_id; score = to_i64 p.score }

-- The items of the reply, from the sorted players.
unfoldable pub ranking_items : ℕ → List PlayerState → List RankingItem
unfolding rounds
ranking_items top_n players = map item (take (rounds top_n (to_i32 (length players))) players)

module _ (proto : Proto) where
  abbrev pub ranking_reply : ℕ → List PlayerState → Message
  ranking_reply top_n players = record {
    msg_id = MessageId.ranking_resp;
    body = proto.ranking_resp (record { items = ranking_items top_n players });
  }

module _ (proto : Proto) (sort : List PlayerState → List PlayerState) where
  unfoldable pub send_ranking : ℕ → Message → Exec World (Unit {0})
  unfolding ranking_items
  send_ranking session message w =
      let top_n = to_i32 (proto.parse_ranking_req message.body).top_n in
      let players = sort (Repository.get_all_players w.player_state_repository) in
      send session (ranking_reply proto top_n players) w

  unfoldable pub handle_ranking_req : ℕ → Message → Exec World (Unit {0})
  unfolding send_ranking
  handle_ranking_req session message =
      on_metrics Metrics.incr_ranking_req >> send_ranking session message
