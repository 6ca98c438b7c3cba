-- ===== src/Trainer/State.antt =====
-- The trainer's variables, what it reads and writes, and PyTorch's part as parameters.
use connect4codex.Prelude.{
  ℕ, Bool, Option, none, some, List, [], ◌∷◌, ◌++◌, Floats, Exec, modify, sum_by, ltb, ◌==◌,
  if◌then◌else◌,
}
use connect4codex.Config.Training.{TrainingV2Config}
use connect4codex.Manifest.Tables.{Artifact, Shard}
use connect4codex.Coordinator.State.{Event}
use connect4codex.Replay.Games.{World, ReplayFault, Row}
use connect4codex.Replay.Prefetcher.{Prefetcher}

pub data TrainerFault : Type 0 where
  replay : ReplayFault → TrainerFault
  bad_checkpoint bad_value out_of_memory failed_step : TrainerFault

-- How an optimizer's step on a batch ends: it took it, with the loss, or CUDA's memory ran out, or it raised.
pub data Taken (Learner F : Type 0) : Type 0 where
  stepped : Learner → F → Taken Learner F
  oom : Learner → Taken Learner F
  failed : Taken Learner F

module _ ⦃fl : Floats⦄ (w : World) where
  -- A learner is the model, the optimizer and the scaler. `resume` is the model of a checkpoint with
  -- its optimizer at the learning rate for so many accepted candidates, and is none where the file cannot be loaded.
  pub record Torch : Type 1 where
    pub Learner : Type 0
    pub step : Learner → List (Row w) → Taken Learner fl.F
    pub loss_of : Learner → List (Row w) → fl.F
    pub resume : Artifact → ℕ → Learner → Option Learner
    pub has_cuda : Bool
    -- loss < float("inf")
    pub below_infinity : fl.F → Bool

  module _ (t : Torch) where
    open t use {Learner}

    pub record Checkpoint : Type 0 where
      pub learner : Learner
      pub champion_attempt : ℕ
      pub accepted_count : ℕ
      pub fresh_games : ℕ
      pub sample_budget : ℕ
      pub training_steps : ℕ
      pub training_samples : ℕ
      pub replay_rng_state : w.Rng
      pub val_loss : Option fl.F

    -- `best_loss` is none for infinity. The two files are none until they are written; the events
    -- are listed from the first to the last.
    pub record Trainer : Type 0 where
      pub learner : Learner
      pub prefetcher : Prefetcher w
      pub champion_attempt : ℕ
      pub accepted_count : ℕ
      pub fresh_games : ℕ
      pub sample_budget : ℕ
      pub training_steps : ℕ
      pub training_samples : ℕ
      pub best_loss : Option fl.F
      pub best_payload : Option Checkpoint
      pub current_loss : fl.F
      pub pending : Bool
      pub batch_size : ℕ
      pub learner_file : Option Checkpoint
      pub candidate_file : Option Checkpoint
      pub events : List Event

    abbrev pub Train : Type 0 → Type 0
    Train A = Exec Trainer TrainerFault A

    abbrev pub emit : Event → Train (Unit {0})
    emit e = modify (λ s. record s { events = s.events ++ e ∷ [] })

    -- The samples that a shard allows to be trained on.
    abbrev pub credit : TrainingV2Config → ℕ → ℕ
    credit c train_samples = fl.round (fl.mul (fl.of_ℕ train_samples) c.replay_ratio)

    -- The start from the champion's weights.
    unfoldable pub fresh_start :
        TrainingV2Config → Learner → ℕ → List Shard → Bool → w.Rng → fl.F → Trainer
    fresh_start c learner champion_attempt shards initially_pending rng val_loss = record {
      learner = learner;
      prefetcher = record {
        pool = record { shards = shards; cache = []; rng = rng };
        has_executor = ltb 0 c.data_loader_workers;
        future = none;
        signature = none;
      };
      champion_attempt = champion_attempt;
      accepted_count = 0;
      fresh_games = sum_by (λ (s : Shard). s.games) shards;
      sample_budget = sum_by (λ (s : Shard). credit c s.train_samples) shards;
      training_steps = 0;
      training_samples = 0;
      best_loss = none;
      best_payload = none;
      current_loss = val_loss;
      pending = initially_pending;
      batch_size = c.training_batch_size;
      learner_file = none;
      candidate_file = none;
      events = [];
    }

    unfoldable pub loss_or : fl.F → Option fl.F → fl.F
    loss_or default none = default
    loss_or default (some loss) = loss

    -- The state of learner.pt, with its weights as they were loaded, where it is of the same champion.
    unfoldable pub resume_start : Option (Learner × Checkpoint) → Trainer → Trainer
    unfolding loss_or
    resume_start none s = s
    resume_start (some (learner, saved)) s =
        if saved.champion_attempt == s.champion_attempt
        then record s {
          learner = learner;
          prefetcher = record s.prefetcher {
            pool = record s.prefetcher.pool { rng = saved.replay_rng_state };
          };
          accepted_count = saved.accepted_count;
          fresh_games = saved.fresh_games;
          sample_budget = saved.sample_budget;
          training_steps = saved.training_steps;
          training_samples = saved.training_samples;
          current_loss = loss_or (fl.of_ℕ 0) saved.val_loss;
        }
        else s
