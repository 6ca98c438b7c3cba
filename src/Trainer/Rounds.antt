-- ===== src/Trainer/Rounds.antt =====
-- A round of the trainer's loop: the queue, a step on a batch, the validation, and the candidate.
use connect4codex.Prelude.{
  ℕ, zero, suc, ◌+◌, ◌-◌, ◌/◌, ◌%◌, min, max, Bool, true, ◌&&◌, ◌||◌, Option, none, some, List, [],
  ◌∷◌, ◌++◌, length, Floats, Result, ok, err, ◌>>=◌, ◌>>◌, raise, modify, ltb, leb, ◌==◌,
  if◌then◌else◌,
}
use connect4codex.Config.Training.{TrainingV2Config}
use connect4codex.Manifest.Tables.{int, real}
use connect4codex.Coordinator.State.{trainer, failed, candidate, trainer_progress, effective_batch}
use connect4codex.Replay.Games.{World, ReplayFault, partition_empty, Row}
use connect4codex.Replay.Pool.{cache_limit, validation_game, batch, resume_sample_budget}
use connect4codex.Replay.Prefetcher.{training_batch}
use connect4codex.Trainer.State.{
  TrainerFault, replay, out_of_memory, failed_step, Taken, stepped, oom, Torch, Checkpoint, Trainer,
  Train, emit, loss_or,
}
use connect4codex.Trainer.Commands.{
  Input, lifted, drop_prefetched, checkpoint, save_learner, take_inputs,
}

module _ ⦃fl : Floats⦄ (w : World) (t : Torch w) (c : TrainingV2Config)
    (cancels : ℕ → ℕ → Bool) where
  abbrev pub drop_ahead : Train w t (Unit {0})
  drop_ahead = drop_prefetched w t c cancels

  abbrev pub save : Train w t (Unit {0})
  save = save_learner w t c cancels

  abbrev pub capture : Option fl.F → Trainer w t → Checkpoint w t
  capture = checkpoint w t c cancels

  -- A batch's loss and the rest of them; an empty partition is the loop's `break`.
  unfoldable pub after_validation :
      (List fl.F → Train w t (List fl.F))
      → List fl.F
      → Result ReplayFault (List (Row w))
      → Train w t (List fl.F)
  after_validation rest losses (ok rows) s = rest (losses ++ t.loss_of s.learner rows ∷ []) s
  after_validation rest losses (err partition_empty) s = (ok losses, s)
  after_validation rest losses (err e) s = (err (replay e), s)

  unfoldable pub validation_losses : ℕ → List fl.F → Train w t (List fl.F)
  validation_losses zero losses s = (ok losses, s)
  validation_losses (suc n) losses s =
      let (r, pool) =
        batch w (cache_limit c) (validation_game w.digest c) true s.batch_size s.prefetcher.pool in
      after_validation (validation_losses n) losses r
        (record s { prefetcher = record s.prefetcher { pool = pool } })

  unfoldable pub sum_losses : fl.F → List fl.F → fl.F
  sum_losses acc [] = acc
  sum_losses acc (x ∷ xs) = sum_losses (fl.add acc x) xs

  -- The mean of the validation's losses, or the batch's own loss if there are none.
  unfoldable pub mean_loss : fl.F → List fl.F → fl.F
  mean_loss loss [] = loss
  mean_loss loss (x ∷ xs) = fl.div (sum_losses (fl.of_ℕ 0) (x ∷ xs)) (fl.of_ℕ (length (x ∷ xs)))

  unfoldable pub is_better : fl.F → Option fl.F → Bool
  is_better loss none = t.below_infinity loss
  is_better loss (some best) = fl.lt loss best

  unfoldable pub keep_best : List fl.F → Train w t (Unit {0})
  keep_best [] s = (ok tt, s)
  keep_best (x ∷ xs) s =
      if is_better s.current_loss s.best_loss
      then ((modify (λ u. record u { best_loss = some u.current_loss })
            >> drop_ahead
            >> modify (λ u. record u { best_payload = some (capture u.best_loss u) }))
          s)
      else (ok tt, s)

  unfoldable pub run_validation : fl.F → Train w t (Unit {0})
  run_validation loss = validation_losses c.validation_batches [] >>= λ losses.
      modify (λ s. record s { current_loss = mean_loss loss losses }) >> keep_best losses >> save

  unfoldable pub report_progress : Train w t (Unit {0})
  report_progress s =
      emit w t
        (trainer_progress s.sample_budget s.fresh_games (
          ("steps", int s.training_steps)
          ∷ ("samples", int s.training_samples)
          ∷ ("champion_attempt", int s.champion_attempt)
          ∷ ("val_loss", real s.current_loss)
          ∷ []))
        s

  -- The candidate is the best checkpoint.
  unfoldable pub submit_payload : fl.F → Checkpoint w t → Train w t (Unit {0})
  submit_payload loss best =
      modify (λ s. record s { candidate_file = some best; pending = true }) >> λ s.
      emit w t
        (candidate (loss_or w t loss s.best_loss) best.training_steps best.training_samples
          s.fresh_games)
        s

  -- Without a validated checkpoint, the learner as it is.
  unfoldable pub submit_best : fl.F → Option (Checkpoint w t) → Train w t (Unit {0})
  unfolding submit_payload
  submit_best loss (some best) = submit_payload loss best
  submit_best loss none = drop_ahead >> λ s.
      let best = capture (some loss) s in
      (modify (λ u. record u { best_payload = some best; best_loss = some loss })
          >> submit_payload loss best)
        s

  unfoldable pub is_due : Trainer w t → Bool
  is_due s =
      leb c.replay_warmup_games s.fresh_games
      && leb s.sample_budget (max s.batch_size (resume_sample_budget c s.prefetcher.pool.shards))

  unfoldable pub maybe_submit : fl.F → Train w t (Unit {0})
  unfolding is_due submit_best
  maybe_submit loss s = if is_due s then submit_best loss s.best_payload s else (ok tt, s)

  unfoldable pub every : ℕ → Train w t (Unit {0}) → Train w t (Unit {0})
  every n m s = if s.training_steps % n == 0 then m s else (ok tt, s)

  unfoldable pub count_step : t.Learner → Train w t (Unit {0})
  count_step learner = modify (λ s. record s {
    learner = learner;
    training_steps = s.training_steps + 1;
    training_samples = s.training_samples + s.batch_size;
    sample_budget = s.sample_budget - s.batch_size;
  })

  unfoldable pub halve : t.Learner → Train w t (Unit {0})
  halve learner =
      modify (λ s. record s { learner = learner; batch_size = max 2 (s.batch_size / 2) })

  unfoldable pub announce_batch : Train w t (Unit {0})
  announce_batch s = emit w t (effective_batch trainer s.batch_size) s

  unfoldable pub shrink : t.Learner → Train w t (Unit {0})
  unfolding halve announce_batch
  shrink learner s =
      if t.has_cuda && ltb 2 s.batch_size
      then (halve learner >> drop_ahead >> announce_batch) s
      else (err out_of_memory, record s { learner = learner })

  unfoldable pub after_step : Taken t.Learner fl.F → Train w t (Unit {0})
  unfolding count_step every maybe_submit shrink
  after_step (stepped learner loss) =
      count_step learner
      >> every c.validation_interval_steps (run_validation loss)
      >> every (min c.validation_interval_steps 10) report_progress
      >> maybe_submit loss
  after_step (oom learner) = shrink learner
  after_step Taken.failed = raise failed_step

  unfoldable pub train : Train w t (Unit {0})
  train =
      (λ s.
        lifted w t c cancels s
          (training_batch w (cache_limit c) (validation_game w.digest c) s.batch_size s.prefetcher))
      >>= λ rows s. after_step (t.step s.learner rows) s

  unfoldable pub is_idle : Trainer w t → Bool
  is_idle s = s.pending || ltb s.sample_budget s.batch_size || length s.prefetcher.pool.shards == 0

  unfoldable pub maybe_train : Train w t (Unit {0})
  unfolding is_idle
  maybe_train s = if is_idle s then (ok tt, s) else train s

  -- A round, with what is in the queue and what the executor's thread has done by then.
  unfoldable pub trainer_round : List Input → Train w t (Unit {0})
  trainer_round inputs = take_inputs w t c cancels inputs >> maybe_train

  -- The rounds before the stop, and the save after it.
  unfoldable pub trainer_rounds : List (List Input) → Train w t (Unit {0})
  trainer_rounds [] = save
  trainer_rounds (inputs ∷ more) = trainer_round inputs >> trainer_rounds more

  -- The outer `except`.
  unfoldable pub outcome_of : Result TrainerFault (Unit {0}) × Trainer w t → Trainer w t
  outcome_of (ok u, s) = s
  outcome_of (err e, s) = record s { events = s.events ++ failed trainer ∷ [] }

  unfoldable pub trainer_process : List (List Input) → Trainer w t → Trainer w t
  trainer_process inputs s = outcome_of (trainer_rounds inputs s)
