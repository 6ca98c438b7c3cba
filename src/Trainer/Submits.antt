-- ===== src/Trainer/Submits.antt =====
-- A trainer with fresh games and a budget submits a candidate.
use connect4codex.Prelude.{
  ℕ, zero, suc, ◌≤◌, ◌≡◌, refl, ◌∙◌, inl, inr, Bool, true, false, ◌||◌, List, [], length, replicate,
  Floats, Result, ok, err, continue, ltb, ◌==◌, arith,
}
use connect4codex.Config.Training.{TrainingV2Config}
use connect4codex.Replay.Games.{World, Row}
use connect4codex.Replay.Pool.{cache_limit, validation_game}
use connect4codex.Replay.Prefetcher.{training_batch}
use connect4codex.Replay.Ahead.{training_batch-shards}
use connect4codex.Trainer.State.{TrainerFault, Torch, Trainer}
use connect4codex.Trainer.Commands.{lifted, take_inputs}
use connect4codex.Trainer.Rounds.{
  after_step, train, is_idle, maybe_train, trainer_round, trainer_rounds,
}
use connect4codex.Trainer.Quiet.{save-Quiet, lifted-Quiet}
use connect4codex.Trainer.Steady.{Still}
use connect4codex.Trainer.Progress.{
  Advances, Done, IsLive, Submits, submitted, measure, Live-Quiet, step-Advances,
}

module _ ⦃fl : Floats⦄ (w : World) (t : Torch w) (c : TrainingV2Config)
    (cancels : ℕ → ℕ → Bool) where
  train-Advances :
      (s : Trainer w t) → IsLive w t c cancels s → Advances w t c cancels s (train w t c cancels s)
  unfolding train
  train-Advances s l =
      next
        (lifted w t c cancels s
          (training_batch w (cache_limit c) (validation_game w.digest c) s.batch_size s.prefetcher))
        (lifted-Quiet w t c cancels s
          (training_batch w (cache_limit c) (validation_game w.digest c) s.batch_size s.prefetcher)
          (training_batch-shards w (cache_limit c) (validation_game w.digest c) s.batch_size
            s.prefetcher))
    where
      from_start :
          (u : Trainer w t)
          → Still w t c cancels s u
          → (o : Result TrainerFault (Unit {0}) × Trainer w t) → Advances w t c cancels u o
          → Advances w t c cancels s o
      from_start u k (err e, v) h = tt
      from_start u k (ok a, v) (inl h) = inl (h.0, omega (arith, h.1, k.5))
      from_start u k (ok a, v) (inr h) = inr (h.0, h.1 ∙ k.5, omega (arith, h.2, k.1, k.3))

      next :
          (o : Result TrainerFault (List (Row w)) × Trainer w t)
          → Still w t c cancels s o.1
          → Advances w t c cancels s
              (continue o.0 (λ rows u. after_step w t c cancels (t.step u.learner rows) u) o.1)
      next (err e, u) k = tt
      next (ok rows, u) k =
          from_start u k (after_step w t c cancels (t.step u.learner rows) u) (
            step-Advances w t c cancels (t.step u.learner rows) u
              (Live-Quiet w t c cancels s u l k))

  trainer_round-Advances :
      (s : Trainer w t)
      → IsLive w t c cancels s
      → Advances w t c cancels s (trainer_round w t c cancels [] s)
  unfolding trainer_round take_inputs maybe_train is_idle
  trainer_round-Advances s l =
      let busy : (s.pending
            || ltb s.sample_budget s.batch_size
            || length s.prefetcher.pool.shards == 0)
          ≡ false =
        ground (arith, l.open_now, l.enough, l.stocked) in
      rw busy (train-Advances s l)

  round_waits : (s : Trainer w t) → s.pending ≡ true → trainer_round w t c cancels [] s ≡ (ok tt, s)
  unfolding trainer_round take_inputs maybe_train is_idle
  round_waits s waits = rw waits refl

  rounds_wait :
      (n : ℕ) (s : Trainer w t)
      → s.pending ≡ true
      → Still w t c cancels s (trainer_rounds w t c cancels (replicate n []) s).1
  unfolding trainer_rounds
  rounds_wait zero s waits = save-Quiet w t c cancels s
  rounds_wait (suc n) s waits = rw (round_waits s waits) (rounds_wait n s waits)

  -- While no candidate is pending, with fresh games enough for the warm-up, a shard, and a budget for at least
  -- one batch: without further commands, and in as many rounds as the budget and the batch's size
  -- are together, the trainer either raises, or has submitted w t c cancels one candidate, which is pending.
  pub trainer_rounds-Done :
      (n : ℕ) (s : Trainer w t)
      → IsLive w t c cancels s
      → measure w t c cancels s ≤ n
      → Done w t c cancels s (trainer_rounds w t c cancels (replicate n []) s)
  unfolding trainer_rounds
  trainer_rounds-Done zero s l m = absurd (omega (arith, l.some_batch))
  trainer_rounds-Done (suc n) s l m =
      next (trainer_rounds-Done n) (trainer_round w t c cancels [] s) (trainer_round-Advances s l)
    where
      waited :
          (u : Trainer w t) (o : Result TrainerFault (Unit {0}) × Trainer w t)
          → Submits w t c cancels s u
          → Still w t c cancels u o.1
          → Done w t c cancels s o
      waited u (err e, v) h q = tt
      waited u (ok a, v) h q = (q.0 ∙ h.0, q.5 ∙ h.1)

      later :
          (u : Trainer w t) (o : Result TrainerFault (Unit {0}) × Trainer w t)
          → submitted w t c cancels u ≡ submitted w t c cancels s
          → Done w t c cancels u o
          → Done w t c cancels s o
      later u (err e, v) same h = tt
      later u (ok a, v) same h = (h.0, omega (arith, h.1, same))

      next :
          ((u : Trainer w t)
            → IsLive w t c cancels u
            → measure w t c cancels u ≤ n
            → Done w t c cancels u (trainer_rounds w t c cancels (replicate n []) u))
          → (o : Result TrainerFault (Unit {0}) × Trainer w t) → Advances w t c cancels s o
          → Done w t c cancels s
              (continue o.0 (λ _. trainer_rounds w t c cancels (replicate n [])) o.1)
      next ih (err e, u) h = tt
      next ih (ok a, u) (inl h) =
          waited u (trainer_rounds w t c cancels (replicate n []) u) h (rounds_wait n u (h.0))
      next ih (ok a, u) (inr h) =
          later u (trainer_rounds w t c cancels (replicate n []) u) (h.1)
            (ih u (h.0) (omega (arith, h.2, m)))
