-- ===== src/Config/Checks.antt =====
-- The validators of `TrainingV2Config`, and `validate_training` as far as it reads the schedule.
use connect4codex.Prelude.{
  ℕ, ◌%◌, Bool, true, false, not, ◌&&◌, ◌||◌, Option, none, some, List, [], ◌∷◌, Floats, Result, ok,
  err, ltb, leb, ◌==◌, exists, forall, length, if◌then◌else◌,
}
use connect4codex.Config.Training.{TrainingV2Config}

pub data Invalid : Type 0 where
  field_bound schedule_pairs schedule_integers schedule_order schedule_start schedule_rates :
      Invalid
  solver_pair small_batch ragged_batch weights warmup odd_arena arena_order arena_hypotheses :
      Invalid
  debt_watermarks : Invalid

-- The first failing check is the error.
unfoldable pub first_failure : List (Bool × Invalid) → Option Invalid
first_failure [] = none
first_failure ((failed, e) ∷ rest) = if failed then some e else first_failure rest

unfoldable pub first_error : List Bool → List (Bool × Invalid) → Option Invalid
first_error bounds checks =
    if forall (λ b. b) bounds then first_failure checks else some field_bound

module _ ⦃fl : Floats⦄ where
  -- `xs[::2]` and `xs[1::2]`
  abbrev pub evens : List fl.F → List fl.F
  evens [] = []
  evens (x ∷ []) = x ∷ []
  evens (x ∷ y ∷ xs) = x ∷ evens xs

  abbrev pub odds : List fl.F → List fl.F
  odds [] = []
  odds (x ∷ []) = []
  odds (x ∷ y ∷ xs) = y ∷ odds xs

  -- `generations == sorted(generations)` with no value twice: each below the next.
  unfoldable pub ascending : List fl.F → Bool
  ascending [] = true
  ascending (x ∷ []) = true
  ascending (x ∷ y ∷ xs) = fl.lt x y && ascending (y ∷ xs)

  abbrev pub starts_at_zero : List fl.F → Bool
  starts_at_zero [] = false
  starts_at_zero (x ∷ xs) = fl.eq x (fl.of_ℕ 0)

  unfoldable pub schedule_checks : List fl.F → List (Bool × Invalid)
  unfolding ascending
  schedule_checks xs =
      (length xs == 0 || not (length xs % 2 == 0), schedule_pairs)
      ∷ (exists (λ g. fl.lt g (fl.of_ℕ 0) || not (fl.is_integer g)) (evens xs), schedule_integers)
      ∷ (not (ascending (evens xs)), schedule_order)
      ∷ (not (starts_at_zero (evens xs)), schedule_start)
      ∷ (exists (λ r. fl.le r (fl.of_ℕ 0)) (odds xs), schedule_rates)
      ∷ []

  abbrev nonneg : fl.F → Bool
  nonneg x = fl.le (fl.of_ℕ 0) x

  abbrev positive : fl.F → Bool
  positive x = fl.lt (fl.of_ℕ 0) x

  abbrev unit_interval : fl.F → Bool
  unit_interval x = nonneg x && fl.le x (fl.of_ℕ 1)

  abbrev open_interval : fl.F → Bool
  open_interval x = positive x && fl.lt x (fl.of_ℕ 1)

  abbrev below_half : fl.F → Bool
  below_half x = positive x && fl.lt x (fl.lit 5 1)

  abbrev at_least : ℕ → Option ℕ → Bool
  at_least n none = true
  at_least n (some k) = leb n k

  -- `allow_inf_nan` is False for the floats of the configuration.
  abbrev pub float_fields : TrainingV2Config → List fl.F
  float_fields c =
      c.c_exploration ∷ c.c_ply_penalty ∷ c.mcts_value_scale ∷ c.value_loss_weight ∷ c.replay_ratio
      ∷ c.validation_fraction ∷ c.champion_self_play_weight ∷ c.archive_weight ∷ c.uniform_weight
      ∷ c.random_weight ∷ c.archive_recency ∷ c.arena_p0 ∷ c.arena_p1 ∷ c.arena_alpha ∷ c.arena_beta
      ∷ c.root_dirichlet_epsilon ∷ c.root_dirichlet_alpha ∷ c.early_temperature ∷ c.late_temperature
      ∷ c.l2_reg ∷ c.learner_incumbent_min_score ∷ c.lr_schedule

  unfoldable pub all_finite : TrainingV2Config → Bool
  all_finite c = forall fl.is_finite (float_fields c)

  -- The `ge`, `gt`, `le` and `lt` of the fields, in their order, and that their floats are finite. A
  -- natural number is at least 0.
  unfoldable pub field_bounds : TrainingV2Config → List Bool
  unfolding all_finite
  field_bounds c =
      leb 1 c.n_mcts_iterations
      ∷ nonneg c.c_exploration
      ∷ nonneg c.c_ply_penalty
      ∷ unit_interval c.mcts_value_scale
      ∷ unit_interval c.value_loss_weight
      ∷ leb 2 c.self_play_shard_games
      ∷ leb 2 c.self_play_batch_games
      ∷ leb 4 c.replay_capacity_games
      ∷ leb 2 c.replay_warmup_games
      ∷ positive c.replay_ratio
      ∷ below_half c.validation_fraction
      ∷ leb 1 c.archive_depth
      ∷ unit_interval c.champion_self_play_weight
      ∷ unit_interval c.archive_weight
      ∷ unit_interval c.uniform_weight
      ∷ unit_interval c.random_weight
      ∷ (positive c.archive_recency && fl.le c.archive_recency (fl.of_ℕ 1))
      ∷ leb 2 c.arena_min_games
      ∷ (leb 2 c.arena_max_games && leb c.arena_max_games 2000)
      ∷ open_interval c.arena_p0
      ∷ open_interval c.arena_p1
      ∷ below_half c.arena_alpha
      ∷ below_half c.arena_beta
      ∷ (leb 1 c.arena_pair_batch_size && leb c.arena_pair_batch_size 100)
      ∷ unit_interval c.root_dirichlet_epsilon
      ∷ positive c.root_dirichlet_alpha
      ∷ leb c.temperature_cutoff_ply 42
      ∷ nonneg c.early_temperature
      ∷ nonneg c.late_temperature
      ∷ leb 2 c.training_batch_size
      ∷ leb 1 c.inference_batch_size
      ∷ leb 1 c.inference_amp_min_batch_size
      ∷ leb 1 c.conv_filter_size
      ∷ leb 1 c.n_policy_layers
      ∷ leb 1 c.n_value_layers
      ∷ nonneg c.l2_reg
      ∷ at_least 1 c.max_gens
      ∷ at_least 1 c.max_candidate_attempts
      ∷ leb 1 c.validation_interval_steps
      ∷ leb 1 c.validation_batches
      ∷ unit_interval c.learner_incumbent_min_score
      ∷ leb 2 c.debt_pause_shards
      ∷ leb 1 c.debt_resume_shards
      ∷ all_finite c
      ∷ []

  unfoldable pub opponent_sum : TrainingV2Config → fl.F
  opponent_sum c =
      fl.add (fl.add (fl.add c.champion_self_play_weight c.archive_weight) c.uniform_weight)
        c.random_weight

  -- `validate_v2`; the schedule is checked last, by building a `TrainingConfig`.
  unfoldable pub v2_checks : TrainingV2Config → List (Bool × Invalid)
  unfolding schedule_checks opponent_sum
  v2_checks c =
      (ltb c.self_play_batch_games c.self_play_shard_games, small_batch)
      ∷ (not (c.self_play_batch_games % c.self_play_shard_games == 0), ragged_batch)
      ∷ (fl.lt (fl.lit 1 9) (fl.abs (fl.sub (opponent_sum c) (fl.of_ℕ 1))), weights)
      ∷ (leb c.replay_capacity_games c.replay_warmup_games, warmup)
      ∷ (not (c.arena_min_games % 2 == 0) || not (c.arena_max_games % 2 == 0), odd_arena)
      ∷ (ltb c.arena_max_games c.arena_min_games, arena_order)
      ∷ (fl.le c.arena_p1 c.arena_p0, arena_hypotheses)
      ∷ (leb c.debt_pause_shards c.debt_resume_shards, debt_watermarks)
      ∷ schedule_checks c.lr_schedule

  unfoldable pub verdict : TrainingV2Config → Option Invalid → Result Invalid TrainingV2Config
  verdict c none = ok c
  verdict c (some e) = err e

  -- The model validator runs once every field is within its bounds.
  unfoldable pub validate : TrainingV2Config → Result Invalid TrainingV2Config
  unfolding verdict first_error
  validate c = verdict c (first_error (field_bounds c) (v2_checks c))
