-- ===== src/Trainer/Quiet.antt =====
-- What a round does besides its step and its candidate leaves the counters alone.
use connect4codex.Prelude.{
  ℕ, zero, suc, ◌%◌, ◌≡◌, ◌≤◌, refl, ◌∙◌, Bool, true, some, List, [], ◌∷◌, ◌++◌, All, All-append,
  sum_by, sum_by-append, Floats, Result, ok, err, continue, ◌>>=◌, ◌>>◌, modify, ◌==◌, Bool-cases,
  inl, inr, arith,
}
use connect4codex.Config.Training.{TrainingV2Config}
use connect4codex.Coordinator.State.{Event, candidate}
use connect4codex.Replay.Games.{World, ReplayFault, partition_empty, Row}
use connect4codex.Replay.Pool.{cache_limit, validation_game, batch}
use connect4codex.Replay.Prefetcher.{Prefetcher, invalidate}
use connect4codex.Replay.Shards.{batch-shards}
use connect4codex.Replay.Ahead.{invalidate-shards}
use connect4codex.Trainer.State.{TrainerFault, Torch, Trainer, Train}
use connect4codex.Trainer.Commands.{lifted, drop_prefetched, save_learner}
use connect4codex.Trainer.Rounds.{
  drop_ahead, save, after_validation, validation_losses, mean_loss, is_better, keep_best,
  run_validation, report_progress, every,
}

module _ ⦃fl : Floats⦄ where
  abbrev pub one_candidate : Event → ℕ
  one_candidate (candidate loss steps samples fresh) = 1
  one_candidate _ = 0

  -- A candidate is submitted with as many fresh games as the warm-up wants.
  abbrev pub IsWarm : ℕ → Event → Type 0
  IsWarm warmup (candidate loss steps samples fresh) = warmup ≤ fresh
  IsWarm warmup _ = Unit

module _ ⦃fl : Floats⦄ (w : World) (t : Torch w) (c : TrainingV2Config)
    (cancels : ℕ → ℕ → Bool) where
  abbrev pub candidates : Trainer w t → ℕ
  candidates s = sum_by one_candidate s.events

  -- The flag, the budget, the samples, the batch's size, the fresh games and the shards stay; and as many
  -- candidates are submitted, all of them warm if they were.
  abbrev pub Quiet : Trainer w t → Trainer w t → Type 0
  Quiet s s' =
      (s'.pending ≡ s.pending)
      × (s'.sample_budget ≡ s.sample_budget)
      × (s'.training_samples ≡ s.training_samples)
      × (s'.batch_size ≡ s.batch_size)
      × (s'.fresh_games ≡ s.fresh_games)
      × (candidates s' ≡ candidates s)
      × (All (IsWarm c.replay_warmup_games) s.events → All (IsWarm c.replay_warmup_games) s'.events)
      × (s'.prefetcher.pool.shards ≡ s.prefetcher.pool.shards)

  pub Quiet-refl : (s : Trainer w t) → Quiet s s
  Quiet-refl s = (refl, refl, refl, refl, refl, refl, λ h. h, refl)

  pub Quiet-trans : (s u v : Trainer w t) → Quiet s u → Quiet u v → Quiet s v
  Quiet-trans s u v a b = (
    b.0 ∙ a.0,
    b.1 ∙ a.1,
    b.2 ∙ a.2,
    b.3 ∙ a.3,
    b.4 ∙ a.4,
    b.5 ∙ a.5,
    λ h. b.6 (a.6 h),
    b.7 ∙ a.7,
  )

  module _ {A B : Type 0} where
    Quiet-continue :
        (f : A → Train w t B) (s : Trainer w t) (o : Result TrainerFault A × Trainer w t)
        → Quiet s o.1
        → ((a : A) (u : Trainer w t) → Quiet u (f a u).1)
        → Quiet s (continue o.0 f o.1).1
    Quiet-continue f s (ok a, u) q next = Quiet-trans s u (f a u).1 q (next a u)
    Quiet-continue f s (err e, u) q next = q

    pub Quiet-bind :
        (m : Train w t A) (f : A → Train w t B) (s : Trainer w t)
        → Quiet s (m s).1
        → ((a : A) (u : Trainer w t) → Quiet u (f a u).1)
        → Quiet s ((m >>= f) s).1
    Quiet-bind m f s q next = Quiet-continue f s (m s) q next

  pub lifted-Quiet :
      {A : Type 0} (s : Trainer w t) (o : Result ReplayFault A × Prefetcher w)
      → o.1.pool.shards ≡ s.prefetcher.pool.shards
      → Quiet s (lifted w t c cancels s o).1
  lifted-Quiet s (ok a, f) e = (refl, refl, refl, refl, refl, refl, λ h. h, e)
  lifted-Quiet s (err x, f) e = (refl, refl, refl, refl, refl, refl, λ h. h, e)

  pub drop-Quiet : (s : Trainer w t) → Quiet s (drop_ahead w t c cancels s).1
  unfolding drop_prefetched
  drop-Quiet s =
      lifted-Quiet s
        (invalidate w (cache_limit c) (validation_game w.digest c)
          (cancels s.training_steps s.batch_size) s.prefetcher)
        (invalidate-shards w (cache_limit c) (validation_game w.digest c)
          (cancels s.training_steps s.batch_size) s.prefetcher)

  pub save-Quiet : (s : Trainer w t) → Quiet s (save w t c cancels s).1
  unfolding save_learner
  save-Quiet s = Quiet-bind (drop_ahead w t c cancels) _ s (drop-Quiet s) (λ a u. Quiet-refl u)

  after_validation-Quiet :
      (rest : List fl.F → Train w t (List fl.F)) (losses : List fl.F)
      (r : Result ReplayFault (List (Row w))) (s : Trainer w t)
      → ((more : List fl.F) (u : Trainer w t) → Quiet u (rest more u).1)
      → Quiet s (after_validation w t c cancels rest losses r s).1
  unfolding after_validation
  after_validation-Quiet rest losses (ok rows) s h = h _ s
  after_validation-Quiet rest losses (err partition_empty) s h = Quiet-refl s
  after_validation-Quiet rest losses (err e) s h = Quiet-refl s

  validation_losses-Quiet :
      (n : ℕ) (losses : List fl.F) (s : Trainer w t)
      → Quiet s (validation_losses w t c cancels n losses s).1
  unfolding validation_losses
  validation_losses-Quiet zero losses s = Quiet-refl s
  validation_losses-Quiet (suc n) losses s =
      let (r, pool) =
        batch w (cache_limit c) (validation_game w.digest c) true s.batch_size s.prefetcher.pool in
      let u : Trainer w t = record s { prefetcher = record s.prefetcher { pool = pool } } in
      let e =
        batch-shards w (cache_limit c) (validation_game w.digest c) true s.batch_size
          s.prefetcher.pool in
      let rest = validation_losses w t c cancels n in
      Quiet-trans s u (after_validation w t c cancels rest losses r u).1
        (refl, refl, refl, refl, refl, refl, λ h. h, e)
        (after_validation-Quiet rest losses r u (validation_losses-Quiet n))

  keep_best-Quiet :
      (losses : List fl.F) (s : Trainer w t) → Quiet s (keep_best w t c cancels losses s).1
  unfolding keep_best
  keep_best-Quiet [] s = Quiet-refl s
  keep_best-Quiet (x ∷ xs) s =
      elim (Bool-cases (is_better w t c cancels s.current_loss s.best_loss)) [
        | inr worse ↦ rw worse (Quiet-refl s)
        | inl better ↦ rw better (
            Quiet-bind (drop_ahead w t c cancels) _ (record s { best_loss = some s.current_loss })
              (drop-Quiet _) (λ a u. Quiet-refl u))
      ]

  pub run_validation-Quiet :
      (loss : fl.F) (s : Trainer w t) → Quiet s (run_validation w t c cancels loss s).1
  unfolding run_validation
  run_validation-Quiet loss s =
      Quiet-bind (validation_losses w t c cancels c.validation_batches []) _ s
        (validation_losses-Quiet c.validation_batches [] s)
        λ losses u.
          Quiet-bind
            (modify (λ v. record v { current_loss = mean_loss w t c cancels loss losses })
              >> keep_best w t c cancels losses)
            (λ _. save w t c cancels) u
            (keep_best-Quiet losses
              (record u { current_loss = mean_loss w t c cancels loss losses }))
            (λ a v. save-Quiet v)

  pub every-Quiet :
      (n : ℕ) (m : Train w t (Unit {0})) (s : Trainer w t)
      → ((u : Trainer w t) → Quiet u (m u).1)
      → Quiet s (every w t c cancels n m s).1
  unfolding every
  every-Quiet n m s h = elim (Bool-cases (s.training_steps % n == 0)) [
    | inl now ↦ rw now (h s)
    | inr later ↦ rw later (Quiet-refl s)
  ]

  pub events-Quiet :
      (s : Trainer w t) (e : Event)
      → one_candidate e ≡ 0
      → IsWarm c.replay_warmup_games e
      → Quiet s (record s { events = s.events ++ e ∷ [] })
  events-Quiet s e other warm = (
    refl,
    refl,
    refl,
    refl,
    refl,
    omega (arith, sum_by-append one_candidate s.events (e ∷ []), other),
    λ h. All-append (IsWarm c.replay_warmup_games) s.events (e ∷ []) h (warm, tt),
    refl,
  )

  pub report_progress-Quiet : (s : Trainer w t) → Quiet s (report_progress w t c cancels s).1
  unfolding report_progress
  report_progress-Quiet s = events-Quiet s _ refl tt
