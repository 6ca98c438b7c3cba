-- ===== src/Trainer/Commands.antt =====
-- The commands that the trainer takes from its queue, and `save_learner`.
use connect4codex.Prelude.{
  ℕ, ◌+◌, ◌-◌, Bool, true, Option, none, some, List, [], ◌∷◌, Floats, Result, ok, err, ◌>>=◌, ◌>>◌,
  pure, raise, modify,
}
use connect4codex.Config.Training.{TrainingV2Config}
use connect4codex.Manifest.Tables.{Artifact, Shard, Value, num}
use connect4codex.Manifest.Statements.{ShardEvent}
use connect4codex.Coordinator.State.{
  TrainerCommand, pending, add_shard, remove_shard, decision, shard_removed, decision_applied,
}
use connect4codex.Replay.Games.{World, ReplayFault}
use connect4codex.Replay.Pool.{cache_limit, validation_game, append_shard}
use connect4codex.Replay.Pool
use connect4codex.Replay.Prefetcher.{Prefetcher, run_loader, invalidate}
use connect4codex.Trainer.State.{
  TrainerFault, replay, bad_checkpoint, bad_value, Torch, Checkpoint, Trainer, Train, emit, credit,
}

-- What the loop meets: a command, or the executor's thread, which draws the batch ahead.
module _ ⦃fl : Floats⦄ where
  pub data Input : Type 0 where
    command : TrainerCommand → Input
    loader : Input

  abbrev pub row_of : ℕ → ShardEvent → Shard
  row_of shard_id e = record {
    shard_id = shard_id;
    path = e.path;
    games = e.games;
    samples = e.samples;
    train_samples = e.train_samples;
    champion_attempt = e.champion_attempt;
    first_game_id = e.first_game_id;
    created_at = "";
    active = true;
  }

  module _ (w : World) (t : Torch w) (c : TrainingV2Config) (cancels : ℕ → ℕ → Bool) where
    abbrev pub lifted :
        {A : Type 0}
        → Trainer w t
        → Result ReplayFault A × Prefetcher w
        → Result TrainerFault A × Trainer w t
    lifted s (ok a, f) = (ok a, record s { prefetcher = f })
    lifted s (err e, f) = (err (replay e), record s { prefetcher = f })

    -- Whether the executor lets a waiting call be cancelled may differ from step to step.
    unfoldable pub drop_prefetched : Train w t (Unit {0})
    drop_prefetched s = lifted s (
        invalidate w (cache_limit c) (validation_game w.digest c)
          (cancels s.training_steps s.batch_size) s.prefetcher)

    unfoldable pub checkpoint : Option fl.F → Trainer w t → Checkpoint w t
    checkpoint val_loss s = record {
      learner = s.learner;
      champion_attempt = s.champion_attempt;
      accepted_count = s.accepted_count;
      fresh_games = s.fresh_games;
      sample_budget = s.sample_budget;
      training_steps = s.training_steps;
      training_samples = s.training_samples;
      replay_rng_state = s.prefetcher.pool.rng;
      val_loss = val_loss;
    }

    unfoldable pub save_learner : Train w t (Unit {0})
    unfolding drop_prefetched checkpoint
    save_learner =
        drop_prefetched >> modify (λ s. record s { learner_file = some (checkpoint none s) })

    unfoldable pub on_add_shard : ℕ → ShardEvent → Train w t (Unit {0})
    on_add_shard shard_id e = modify (λ s. record s {
      prefetcher = record s.prefetcher {
        pool = append_shard w (row_of shard_id e) s.prefetcher.pool;
      };
      fresh_games = s.fresh_games + e.games;
      sample_budget = s.sample_budget + credit w t c e.train_samples;
    })

    unfoldable pub on_remove_shard : ℕ → Train w t (Unit {0})
    on_remove_shard shard_id =
        modify (λ s. record s {
          prefetcher = record s.prefetcher {
            pool = Pool.remove_shard w shard_id s.prefetcher.pool;
          };
        })
        >> emit w t (shard_removed shard_id)

    -- The learner of a checkpoint that could be loaded.
    unfoldable pub resumed : Option t.Learner → Train w t (Unit {0})
    resumed none = raise bad_checkpoint
    resumed (some learner) =
        modify (λ s. record s { learner = learner; best_loss = none; best_payload = none })

    -- int(command["accepted_count"])
    unfoldable pub count_of : Value → Train w t ℕ
    count_of (num n) = pure n
    count_of _ = raise bad_value

    unfoldable pub begin_decision : ℕ → ℕ → Bool → Train w t (Unit {0})
    begin_decision champion_attempt submitted_fresh pause = modify (λ s. record s {
      pending = pause;
      fresh_games = s.fresh_games - submitted_fresh;
      champion_attempt = champion_attempt;
    })

    unfoldable pub resume_from : Artifact → ℕ → Train w t (Unit {0})
    unfolding resumed
    resume_from learner_path n s =
        resumed (t.resume learner_path n s.learner) (record s { accepted_count = n })

    unfoldable pub announce_decision : Train w t (Unit {0})
    announce_decision s = emit w t (decision_applied s.fresh_games s.champion_attempt) s

    unfoldable pub on_decision : ℕ → Artifact → Value → ℕ → Bool → Train w t (Unit {0})
    unfolding begin_decision count_of resume_from announce_decision
    on_decision champion_attempt learner_path accepted_count submitted_fresh pause =
        begin_decision champion_attempt submitted_fresh pause >> count_of accepted_count >>= λ n.
        resume_from learner_path n >> save_learner >> announce_decision

    unfoldable pub on_command : TrainerCommand → Train w t (Unit {0})
    unfolding on_add_shard on_remove_shard on_decision
    on_command pending = modify (λ s. record s { pending = true })
    on_command (add_shard shard_id e) = on_add_shard shard_id e
    on_command (remove_shard shard_id) = on_remove_shard shard_id
    on_command
          (decision accepted champion_attempt learner_path accepted_count submitted_fresh pause) =
        on_decision champion_attempt learner_path accepted_count submitted_fresh pause

    unfoldable pub take_input : Input → Train w t (Unit {0})
    take_input (command x) = on_command x
    take_input loader = modify (λ s. record s {
      prefetcher = run_loader w (cache_limit c) (validation_game w.digest c) s.prefetcher;
    })

    -- The inner `while` loop, which empties the queue.
    unfoldable pub take_inputs : List Input → Train w t (Unit {0})
    take_inputs [] = pure tt
    take_inputs (i ∷ inputs) = take_input i >> take_inputs inputs
