-- ===== src/Ladder/Levels.antt =====
-- `evaluate_minimax_ladder`. The engine's games against the opponent of a level are a parameter; scores
-- are half points, so that the threshold of half the games is their number. Clocks and progress reports
-- are left out.
use connect4codex.Prelude.{
  ℕ, zero, suc, ◌+◌, ◌-◌, ◌*◌, ◌/◌, ◌%◌, Bool, not, ◌&&◌, ◌||◌, Option, none, some, List, [], ◌∷◌,
  ◌++◌, map, Result, ok, err, ltb, leb, ◌==◌, if◌then◌else◌, min, length, range_from,
}
use connect4codex.Minimax.Search.{Failure}
use connect4codex.Arena.Run.{Played}

pub data LadderFault : Type 0 where
  bad_games bad_batch bad_depth bad_sizes never_ends : LadderFault
  stopped : Failure → LadderFault

pub record LadderConfig : Type 0 where
  pub games_per_level : ℕ
  pub pair_batch_size : ℕ
  pub max_depth : ℕ
  pub mcts_iterations : ℕ
  pub inference_batch_size : ℕ

-- `__post_init__`, but for the timeout, which is a float.
unfoldable pub check_config : LadderConfig → Result LadderFault LadderConfig
check_config c =
    if c.games_per_level == 0 || not (c.games_per_level % 2 == 0)
    then err bad_games
    else if c.pair_batch_size == 0
    then err bad_batch
    else if not (leb 1 c.max_depth && leb c.max_depth 12)
    then err bad_depth
    else if ltb c.mcts_iterations 1 || ltb c.inference_batch_size 1
    then err bad_sizes
    else ok c

-- MODEL_ID and OPPONENT_ID
abbrev pub model_id : ℕ
model_id = 0

abbrev pub opponent_id : ℕ
opponent_id = 1

pub record Pairing : Type 0 where
  pub game_id : ℕ
  pub player0_id : ℕ
  pub player1_id : ℕ

-- Two games for each pair, with the colours exchanged.
unfoldable pub pairings : ℕ → ℕ → List Pairing
pairings zero next_game_id = []
pairings (suc n) next_game_id =
    record { game_id = next_game_id; player0_id = model_id; player1_id = opponent_id }
    ∷ record { game_id = next_game_id + 1; player0_id = opponent_id; player1_id = model_id }
    ∷ pairings n (next_game_id + 2)

pub record Score : Type 0 where
  pub wins : ℕ
  pub draws : ℕ
  pub losses : ℕ
  pub games : ℕ

unfoldable pub model_score : Played → ℕ
model_score g = if g.player0_id == model_id then g.player0_score else 2 - g.player0_score

unfoldable pub add_game : Score → ℕ → Score
add_game s score =
    if score == 2
    then record s { wins = s.wins + 1 }
    else if score == 1
    then record s { draws = s.draws + 1 }
    else record s { losses = s.losses + 1 }

unfoldable pub add_games : List Played → Score → Score
add_games [] s = s
add_games (g ∷ rest) s = add_games rest (add_game s (model_score g))

abbrev pub half_points : Score → ℕ
half_points s = 2 * s.wins + s.draws

pub record LevelResult : Type 0 where
  pub depth : Option ℕ
  pub score : Score
  pub promoted : Bool
  pub auto_promoted : Bool

pub record LadderResult : Type 0 where
  pub levels : List LevelResult
  pub stopped_at : Option (Option ℕ)

abbrev pub depths_of : ℕ → List (Option ℕ)
depths_of n = none ∷ map (λ d. some d) (range_from n 1)

module _ (play : Option ℕ → List Pairing → Result Failure (List Played)) (c : LadderConfig) where
  abbrev pub pair_count : Score → ℕ
  pair_count s = min c.pair_batch_size ((c.games_per_level - s.games) / 2)

  abbrev pub with_results : Score → List Played → Score
  with_results s results =
      let t = add_games results s in record t { games = t.games + length results }

  -- The `while` loop, on fuel: the score and the next game's number.
  unfoldable pub play_level : ℕ → Option ℕ → ℕ → Score → Result LadderFault (Score × ℕ)
  play_level zero depth next s = err never_ends
  play_level (suc fuel) depth next s =
      if ltb s.games c.games_per_level
      then (elim (play depth (pairings (pair_count s) next)) [
        | err e ↦ err (stopped e)
        | ok results ↦
            let t = with_results s results in
            let next' = next + 2 * pair_count s in
            let rest = play_level fuel depth next' t in
            if ltb c.games_per_level (half_points t) then ok (t, next') else rest
      ])
      else ok (s, next)

  abbrev pub level_of : Option ℕ → Score → LevelResult
  level_of depth s =
      let promoted = ltb c.games_per_level (half_points s) in
      record {
        depth = depth;
        score = s;
        promoted = promoted;
        auto_promoted = ltb s.games c.games_per_level && promoted;
      }

  -- The levels in turn, up to the first without a promotion.
  unfoldable pub climb : List (Option ℕ) → ℕ → List LevelResult → Result LadderFault LadderResult
  climb [] next levels = ok (record { levels = levels; stopped_at = none })
  climb (depth ∷ depths) next levels =
      elim (play_level (suc c.games_per_level) depth next
        (record { wins = 0; draws = 0; losses = 0; games = 0 })) [
          | err e ↦ err e
          | ok (s, next') ↦
              let level = level_of depth s in
              let more = climb depths next' (levels ++ level ∷ []) in
              if level.promoted
              then more
              else ok (record { levels = levels ++ level ∷ []; stopped_at = some depth })
        ]

  unfoldable pub evaluate_minimax_ladder : Result LadderFault LadderResult
  evaluate_minimax_ladder = climb (depths_of c.max_depth) 0 []
