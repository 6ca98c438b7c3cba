-- ===== src/Config/Training.antt =====
-- The fields of `TrainingV2Config`.
use Prim.Native.String.{String}
use connect4codex.Prelude.{ℕ, Option, List, Floats}

pub data Precision : Type 0 where
  auto mixed_16 true_32 : Precision

module _ ⦃fl : Floats⦄ where
  pub record TrainingV2Config : Type 0 where
    pub base_dir : String
    pub device : String
    pub run_seed : ℕ
    pub n_mcts_iterations : ℕ
    pub c_exploration : fl.F
    pub c_ply_penalty : fl.F
    pub mcts_value_scale : fl.F
    pub value_loss_weight : fl.F
    pub self_play_shard_games : ℕ
    pub self_play_batch_games : ℕ
    pub replay_capacity_games : ℕ
    pub replay_warmup_games : ℕ
    pub replay_ratio : fl.F
    pub validation_fraction : fl.F
    pub archive_depth : ℕ
    pub champion_self_play_weight : fl.F
    pub archive_weight : fl.F
    pub uniform_weight : fl.F
    pub random_weight : fl.F
    pub archive_recency : fl.F
    pub arena_min_games : ℕ
    pub arena_max_games : ℕ
    pub arena_p0 : fl.F
    pub arena_p1 : fl.F
    pub arena_alpha : fl.F
    pub arena_beta : fl.F
    pub arena_pair_batch_size : ℕ
    pub root_dirichlet_epsilon : fl.F
    pub root_dirichlet_alpha : fl.F
    pub temperature_cutoff_ply : ℕ
    pub early_temperature : fl.F
    pub late_temperature : fl.F
    pub training_batch_size : ℕ
    pub inference_batch_size : ℕ
    pub data_loader_workers : ℕ
    pub mcts_worker_threads : ℕ
    pub precision : Precision
    pub inference_amp_min_batch_size : ℕ
    pub n_residual_blocks : ℕ
    pub conv_filter_size : ℕ
    pub n_policy_layers : ℕ
    pub n_value_layers : ℕ
    pub lr_schedule : List fl.F
    pub l2_reg : fl.F
    pub max_gens : Option ℕ
    pub max_candidate_attempts : Option ℕ
    pub validation_interval_steps : ℕ
    pub validation_batches : ℕ
    pub rejected_weight_retention : ℕ
    pub learner_incumbent_min_score : fl.F
    pub debt_pause_shards : ℕ
    pub debt_resume_shards : ℕ
