-- ===== src/Config/Tests.antt =====
-- The configuration's theorems at a concrete configuration.
use connect4codex.Prelude.{
  ℕ, ◌%◌, ◌/◌, ◌<◌, ◌==◌, if◌then◌else◌, Option, Bool-cases, inl, inr, leb, false, List, Bool, true,
  ◌↔◌, bit_xor, arith, ◌≡◌, refl, none, some, [], ◌∷◌, ok, err,
}
use connect4codex.Prelude.Samples.{hundredths}
use connect4codex.Config.Training.{TrainingV2Config, auto}
use connect4codex.Config.Checks.{
  validate, field_bounds, all_finite, v2_checks, schedule_checks, verdict, first_error,
  first_failure, opponent_sum, ragged_batch, arena_hypotheses,
}
use connect4codex.Config.Schedules.{IsWhole, validate-learning_rate}
use connect4codex.Schedule.Rates.{parse_lr_schedule, learning_rate}
use connect4codex.Schedule.Reached.{IsReached}
use connect4codex.Schedule.Parsing.{Listed, Climbing}
use connect4codex.Config.Runs.{IsOrdered, gate_of, validate-run_arena}
use connect4codex.Arena.Run.{ArenaReport, run_arena}
use connect4codex.Arena.Reports.{IsSound}
use connect4codex.Arena.Tests.{flat, draws, draws-Plays}
use connect4codex.Openings.Draw.{arena_openings}
use connect4codex.Openings.Tests.{second_column, second_column-IsLively}
use connect4codex.Coordinator.Pressure.{after_rounds, IsHeld}

-- The values that the configuration has by default, with a short schedule.
abbrev pub defaults : TrainingV2Config
defaults = record {
  base_dir = "training";
  device = "cpu";
  run_seed = 1337;
  n_mcts_iterations = 1400;
  c_exploration = 660;
  c_ply_penalty = 1;
  mcts_value_scale = 100;
  value_loss_weight = 100;
  self_play_shard_games = 32;
  self_play_batch_games = 256;
  replay_capacity_games = 16000;
  replay_warmup_games = 1024;
  replay_ratio = 400;
  validation_fraction = 10;
  archive_depth = 8;
  champion_self_play_weight = 60;
  archive_weight = 20;
  uniform_weight = 10;
  random_weight = 10;
  archive_recency = 85;
  arena_min_games = 100;
  arena_max_games = 800;
  arena_p0 = 50;
  arena_p1 = 55;
  arena_alpha = 5;
  arena_beta = 5;
  arena_pair_batch_size = 25;
  root_dirichlet_epsilon = 25;
  root_dirichlet_alpha = 100;
  temperature_cutoff_ply = 10;
  early_temperature = 100;
  late_temperature = 0;
  training_batch_size = 512;
  inference_batch_size = 512;
  data_loader_workers = 0;
  mcts_worker_threads = 4;
  precision = auto;
  inference_amp_min_batch_size = 64;
  n_residual_blocks = 4;
  conv_filter_size = 64;
  n_policy_layers = 4;
  n_value_layers = 2;
  lr_schedule = 0 ∷ 20 ∷ 1000 ∷ 5 ∷ [];
  l2_reg = 4;
  max_gens = none;
  max_candidate_attempts = some 50;
  validation_interval_steps = 100;
  validation_batches = 4;
  rejected_weight_retention = 3;
  learner_incumbent_min_score = 48;
  debt_pause_shards = 16;
  debt_resume_shards = 8;
}

ragged : validate (record defaults { self_play_batch_games = 250 }) ≡ err ragged_batch
unfolding validate field_bounds all_finite v2_checks schedule_checks verdict first_error
    first_failure opponent_sum
ragged = refl

accepted_defaults : validate defaults ≡ ok defaults
unfolding validate field_bounds all_finite v2_checks schedule_checks verdict first_error
    first_failure opponent_sum
accepted_defaults = refl

-- Arenas of two to four games.
abbrev small_arenas : TrainingV2Config
small_arenas = record defaults { arena_min_games = 2; arena_max_games = 4 }

accepted_small : validate small_arenas ≡ ok small_arenas
unfolding validate field_bounds all_finite v2_checks schedule_checks verdict first_error
    first_failure opponent_sum
accepted_small = refl

-- The hypotheses have to be apart.
same_hypotheses :
    validate (record small_arenas { arena_p1 = small_arenas.arena_p0 }) ≡ err arena_hypotheses
unfolding validate field_bounds all_finite v2_checks schedule_checks verdict first_error
    first_failure opponent_sum
same_hypotheses = refl

hundredths-IsOrdered : IsOrdered
hundredths-IsOrdered x y h h' e = ground (arith, e)

validate-run_arena_example :
    (small_arenas ≡ small_arenas)
    × ((saved openings : List (List ℕ)) × ((arena_openings second_column none 1337 4 1
            ≡ some (some saved, openings))
          × ((report : ArenaReport) × ((run_arena flat draws 25 7 4
                    (gate_of flat small_arenas)
                    openings
                  ≡ ok report)
                × IsSound 2 4 report))))
    × ((debts : List ℕ) (paused : Bool)
        → (after_rounds small_arenas debts paused ≡ true) ↔ IsHeld small_arenas debts paused)
validate-run_arena_example =
    validate-run_arena second_column 1 1 flat draws small_arenas small_arenas 7 4
      hundredths-IsOrdered accepted_small draws-Plays (second_column-IsLively (bit_xor 1337 667210))
      (omega arith)

abbrev whole_hundreds : ℕ → Option ℕ
whole_hundreds x = if x % 100 == 0 then some (x / 100) else none

whole_quotient : (x n : ℕ) → whole_hundreds x ≡ some n → (x % 100 ≡ 0) × (n ≡ x / 100)
whole_quotient x n h = elim (Bool-cases (x % 100 == 0)) [
  | inl e ↦ (ground (arith, e), (let h' : some (x / 100) ≡ some n = rw e at h in cc))
  | inr e ↦ absurd (let h' : none ≡ some n = rw e at h in cc)
]

whole_hundreds-IsWhole : IsWhole whole_hundreds
whole_hundreds-IsWhole = (
  λ x finite over integer. (x / 100, rw integer refl),
  λ x y n k hx hy less.
      let (r, q) = whole_quotient x n hx in
      let (s, p) = whole_quotient y k hy in
      let below : x < y = ground (arith, less) in omega (arith, r, q, s, p, below),
  λ x n hx start.
      let (r, q) = whole_quotient x n hx in
      let at : x ≡ 0 = ground (arith, start) in omega (arith, r, q, at),
)

validate-learning_rate_example :
    (ps : List (ℕ × ℕ)) × (Listed whole_hundreds (0 ∷ 20 ∷ 1000 ∷ 5 ∷ []) ps
      × Climbing ps
      × (parse_lr_schedule whole_hundreds (0 ∷ 20 ∷ 1000 ∷ 5 ∷ []) ≡ ok ps)
      × ((accepted_count : ℕ)
          → (p : ℕ × ℕ) × ((learning_rate whole_hundreds (0 ∷ 20 ∷ 1000 ∷ 5 ∷ []) accepted_count
                ≡ ok p.1)
              × IsReached accepted_count ps p
              × (leb p.1 0 ≡ false))))
validate-learning_rate_example =
    validate-learning_rate whole_hundreds whole_hundreds-IsWhole defaults defaults accepted_defaults
