-- ===== src/Ladder/Tests.antt =====
-- The ladder against an engine that draws, and its theorem there.
use connect4codex.Prelude.{
  ℕ, zero, suc, ◌≡◌, refl, Option, none, some, List, map, Result, ok, err, length-map, arith,
}
use connect4codex.Minimax.Search.{Failure}
use connect4codex.Arena.Run.{Played}
use connect4codex.Ladder.Levels.{
  bad_games, LadderConfig, check_config, Pairing, LadderResult, evaluate_minimax_ladder, depths_of,
}
use connect4codex.Ladder.Counting.{PlaysAll}
use connect4codex.Ladder.Climb.{Climbs, evaluate_minimax_ladder-Climbs}

abbrev setup : LadderConfig
setup = record {
  games_per_level = 4;
  pair_batch_size = 1;
  max_depth = 3;
  mcts_iterations = 64;
  inference_batch_size = 128;
}

-- The model beats random play and draws the rest.
abbrev half_score : Option ℕ → ℕ → ℕ
half_score none zero = 2
half_score none (suc p) = 0
half_score (some d) p = 1

abbrev result_of : Option ℕ → Pairing → Played
result_of depth r = record {
  game_id = r.game_id;
  player0_id = r.player0_id;
  player0_score = half_score depth r.player0_id;
}

abbrev engine : Option ℕ → List Pairing → Result Failure (List Played)
engine depth rs = ok (map (result_of depth) rs)

engine-PlaysAll : PlaysAll engine
engine-PlaysAll depth rs = (map (result_of depth) rs, (refl, length-map (result_of depth) rs))

odd_level : check_config (record setup { games_per_level = 5 }) ≡ err bad_games
unfolding check_config
odd_level = refl

evaluate_minimax_ladder-Climbs_example :
    (r : LadderResult) × ((evaluate_minimax_ladder engine setup ≡ ok r)
      × Climbs engine setup (depths_of 3) r.levels r.stopped_at)
evaluate_minimax_ladder-Climbs_example =
    evaluate_minimax_ladder-Climbs engine setup engine-PlaysAll refl (omega arith)
