-- ===== src/Trainer/Tests.antt =====
-- A trainer with one shard of two samples that count four times, on batches of two.
use connect4codex.Prelude.{
  ℕ, ◌+◌, ◌≡◌, refl, Bool, true, false, some, [], ◌∷◌, replicate, get, put, remove, arith,
}
use connect4codex.Prelude.Samples.{hundredths}
use connect4codex.Config.Training.{TrainingV2Config}
use connect4codex.Config.Tests.{defaults}
use connect4codex.Coordinator.State.{pending}
use connect4codex.Replay.Pool.{
  evict, window, mover, cache_limit, validation_game, resume_sample_budget, element,
  weighted_choice, draw_index, flip_coin, decoded, cached, load, choose_from, choose_shard,
  draw_row, draw_game, attempt, turn, collect, batch,
}
use connect4codex.Replay.Prefetcher.{
  run, run_loader, outcome, fetched, submit_next, training_batch, wait_out, invalidate,
}
use connect4codex.Replay.Tests.{toy, shard}
use connect4codex.Trainer.State.{stepped, Torch, Trainer, fresh_start, loss_or}
use connect4codex.Trainer.Commands.{
  command, loader, take_inputs, save_learner, drop_prefetched, checkpoint,
}
use connect4codex.Trainer.Rounds.{
  trainer_rounds, after_validation, validation_losses, sum_losses, mean_loss, is_better, keep_best,
  run_validation, report_progress, submit_payload, submit_best, is_due, maybe_submit, every,
  count_step, after_step, train, is_idle, maybe_train, trainer_round,
}
use connect4codex.Trainer.Steady.{Ends}
use connect4codex.Trainer.Ledger.{paid, allowed, trainer_rounds-Ends}
use connect4codex.Trainer.Progress.{IsLive, Done}
use connect4codex.Trainer.Submits.{trainer_rounds-Done}

abbrev settings : TrainingV2Config
settings = record defaults {
  training_batch_size = 2;
  replay_ratio = 400;
  replay_warmup_games = 1;
  validation_interval_steps = 2;
  data_loader_workers = 1;
}

abbrev counter : Torch toy
counter = record {
  Learner = ℕ;
  step = λ learner rows. stepped (learner + 1) 50;
  loss_of = λ learner rows. 40;
  resume = λ path n learner. some learner;
  has_cuda = false;
  below_infinity = λ loss. true;
}

abbrev start : Trainer toy counter
start = fresh_start toy counter settings 0 0 (shard ∷ []) false 0 0

abbrev cancels : ℕ → ℕ → Bool
cancels steps size = true

start-IsLive : IsLive toy counter settings cancels start
unfolding fresh_start
start-IsLive = record {
  open_now = refl;
  warm = omega arith;
  stocked = refl;
  some_batch = omega arith;
  enough = omega arith;
}

trainer_rounds-Done_example :
    Done toy counter settings cancels start
      (trainer_rounds toy counter settings cancels (replicate 10 []) start)
unfolding fresh_start
trainer_rounds-Done_example =
    trainer_rounds-Done toy counter settings cancels 10 start start-IsLive (omega arith)

one_submitted :
    (trainer_rounds toy counter settings cancels (replicate 10 []) start).1.pending ≡ true
unfolding fresh_start trainer_rounds get put remove loss_or evict window mover cache_limit
    validation_game resume_sample_budget element weighted_choice draw_index flip_coin decoded cached
    load choose_from choose_shard draw_row draw_game attempt turn collect batch run run_loader
    outcome fetched submit_next training_batch wait_out invalidate take_inputs save_learner
    drop_prefetched checkpoint after_validation validation_losses sum_losses mean_loss is_better
    keep_best run_validation report_progress submit_payload submit_best is_due maybe_submit every
    count_step after_step train is_idle maybe_train trainer_round
one_submitted = refl

trainer_rounds-Ends_example :
    Ends toy counter settings cancels
      (paid toy counter settings cancels ((command pending ∷ loader ∷ []) ∷ [] ∷ []))
      (allowed toy counter settings cancels ((command pending ∷ loader ∷ []) ∷ [] ∷ []))
      start
      (trainer_rounds toy counter settings cancels
        ((command pending ∷ loader ∷ []) ∷ [] ∷ [])
        start)
trainer_rounds-Ends_example =
    trainer_rounds-Ends toy counter settings cancels ((command pending ∷ loader ∷ []) ∷ [] ∷ [])
      start
