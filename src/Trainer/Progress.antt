-- ===== src/Trainer/Progress.antt =====
-- A step of a trainer with fresh games and a budget brings it nearer to a candidate.
use connect4codex.Prelude.{
  ℕ, ◌+◌, ◌/◌, ◌≤◌, ◌<◌, max, ◌≡◌, refl, ◌∙◌, ◌⊎◌, inl, inr, Bool, true, false, ◌&&◌, Option, none,
  some, [], ◌∷◌, length, sum_by-append, Floats, Result, ok, err, continue, ◌>>◌, ltb, ◌==◌,
  Bool-cases, arith, and_true, ltb→lt,
}
use connect4codex.Config.Training.{TrainingV2Config}
use connect4codex.Coordinator.State.{Event, candidate}
use connect4codex.Replay.Games.{World}
use connect4codex.Trainer.State.{
  TrainerFault, Taken, stepped, oom, Torch, Checkpoint, Trainer, Train, loss_or,
}
use connect4codex.Trainer.Rounds.{
  drop_ahead, capture, submit_payload, submit_best, is_due, maybe_submit, count_step, halve,
  announce_batch, shrink, after_step,
}
use connect4codex.Trainer.Quiet.{one_candidate, candidates, Quiet-bind, drop-Quiet}
use connect4codex.Trainer.Steady.{Still}
use connect4codex.Trainer.Runs.{checking, telling, checking-Quiet, telling-Quiet, announce-Quiet}

module _ ⦃fl : Floats⦄ (w : World) (t : Torch w) (c : TrainingV2Config)
    (cancels : ℕ → ℕ → Bool) where
  abbrev pub submitted : Trainer w t → ℕ
  submitted = candidates w t c cancels

  -- No candidate is pending, there are fresh games enough, shards, and a budget for a batch.
  pub record IsLive (s : Trainer w t) : Type 0 where
    pub open_now : s.pending ≡ false
    pub warm : c.replay_warmup_games ≤ s.fresh_games
    pub stocked : (length s.prefetcher.pool.shards == 0) ≡ false
    pub some_batch : 0 < s.batch_size
    pub enough : s.batch_size ≤ s.sample_budget

  -- One candidate more, which is pending.
  abbrev pub Submits : Trainer w t → Trainer w t → Type 0
  Submits s u = (u.pending ≡ true) × (submitted u ≡ submitted s + 1)

  abbrev pub measure : Trainer w t → ℕ
  measure s = s.sample_budget + s.batch_size

  abbrev Nearer : Trainer w t → Trainer w t → Type 0
  Nearer s u = IsLive u × (submitted u ≡ submitted s) × (measure u < measure s)

  -- A round that does not raise submits the candidate or comes nearer to it.
  abbrev pub Advances : {A : Type 0} → Trainer w t → Result TrainerFault A × Trainer w t → Type 0
  Advances s (ok a, u) = Submits s u ⊎ Nearer s u
  Advances s (err e, u) = Unit

  abbrev pub Done : {A : Type 0} → Trainer w t → Result TrainerFault A × Trainer w t → Type 0
  Done s (ok a, u) = Submits s u
  Done s (err e, u) = Unit

  pub Live-Quiet : (s u : Trainer w t) → IsLive s → Still w t c cancels s u → IsLive u
  Live-Quiet s u l q = record {
    open_now = q.0 ∙ l.open_now;
    warm = omega (arith, q.4, l.warm);
    stocked = rw (q.7) (l.stocked);
    some_batch = omega (arith, q.3, l.some_batch);
    enough = omega (arith, q.1, q.3, l.enough);
  }

  near :
      {A : Type 0} (s h : Trainer w t) (o : Result TrainerFault A × Trainer w t)
      → IsLive h
      → submitted h ≡ submitted s
      → measure h < measure s
      → Still w t c cancels h o.1
      → Advances s o
  near s h (err e, u) l e' m q = tt
  near s h (ok a, u) l e' m q = inr (Live-Quiet h u l q, q.5 ∙ e', omega (arith, q.1, q.3, m))

  payload-Done :
      (loss : fl.F) (best : Checkpoint w t) (s : Trainer w t)
      → Done s (submit_payload w t c cancels loss best s)
  unfolding submit_payload
  payload-Done loss best s =
      let e : Event =
        candidate (loss_or w t loss s.best_loss) best.training_steps best.training_samples
          s.fresh_games in
      (refl, omega (arith, sum_by-append one_candidate s.events (e ∷ [])))

  best-Done :
      (loss : fl.F) (best : Option (Checkpoint w t)) (s : Trainer w t)
      → Done s (submit_best w t c cancels loss best s)
  unfolding submit_best
  best-Done loss (some best) s = payload-Done loss best s
  best-Done loss none s = dropped (drop_ahead w t c cancels s) (drop-Quiet w t c cancels s)
    where
      after : (u : Trainer w t) → Result TrainerFault (Unit {0}) × Trainer w t
      after u =
          let best = capture w t c cancels (some loss) u in
          submit_payload w t c cancels loss best
            (record u { best_payload = some best; best_loss = some loss })

      dropped :
          (o : Result TrainerFault (Unit {0}) × Trainer w t)
          → Still w t c cancels s o.1
          → Done s (continue o.0 (λ _ u. after u) o.1)
      dropped (err e, u) q = tt
      dropped (ok a, u) q =
          let best = capture w t c cancels (some loss) u in
          let d =
            payload-Done loss best (record u { best_payload = some best; best_loss = some loss }) in
          (d.0, omega (arith, d.1, q.5))

  -- What is left of the budget is more than the watermark where no candidate is due.
  early-enough :
      (s : Trainer w t)
      → c.replay_warmup_games ≤ s.fresh_games
      → is_due w t c cancels s ≡ false
      → s.batch_size ≤ s.sample_budget
  unfolding is_due
  early-enough s warm early = ground arith

  submit-Advances :
      (loss : fl.F) (s v : Trainer w t)
      → v.pending ≡ false
      → c.replay_warmup_games ≤ v.fresh_games
      → (length v.prefetcher.pool.shards == 0) ≡ false
      → 0 < v.batch_size
      → submitted v ≡ submitted s
      → measure v < measure s
      → Advances s (maybe_submit w t c cancels loss v)
  unfolding maybe_submit
  submit-Advances loss s v open_now warm stocked some_batch same m =
      elim (Bool-cases (is_due w t c cancels v)) [
        | inl due ↦ rw due (
            done (submit_best w t c cancels loss v.best_payload v)
              (best-Done loss v.best_payload v))
        | inr early ↦ rw early (
            inr (
              record {
                open_now = open_now;
                warm = warm;
                stocked = stocked;
                some_batch = some_batch;
                enough = early-enough v warm early;
              },
              same,
              m,
            ))
      ]
    where
      done : (o : Result TrainerFault (Unit {0}) × Trainer w t) → Done v o → Advances s o
      done (ok a, u) d = inl (d.0, omega (arith, d.1, same))
      done (err e, u) d = tt

  halved-Advances :
      (learner : t.Learner) (s : Trainer w t)
      → IsLive s
      → 2 < s.batch_size
      → Advances s (
          (halve w t c cancels learner >> drop_ahead w t c cancels >> announce_batch w t c cancels)
            s)
  unfolding halve
  halved-Advances learner s l big =
      let h : Trainer w t = record s { learner = learner; batch_size = max 2 (s.batch_size / 2) } in
      let rest = drop_ahead w t c cancels >> announce_batch w t c cancels in
      near s h (rest h)
        (record {
          open_now = l.open_now;
          warm = l.warm;
          stocked = l.stocked;
          some_batch = omega arith;
          enough = omega (arith, l.enough);
        })
        refl (omega arith)
        (Quiet-bind w t c cancels (drop_ahead w t c cancels) (λ _. announce_batch w t c cancels) h
          (drop-Quiet w t c cancels h) (λ a u. announce-Quiet w t c cancels u))

  shrink-Advances :
      (learner : t.Learner) (s : Trainer w t)
      → IsLive s
      → Advances s (shrink w t c cancels learner s)
  unfolding shrink
  shrink-Advances learner s l = elim (Bool-cases (t.has_cuda && ltb 2 s.batch_size)) [
    | inr over ↦ rw over tt
    | inl fits ↦
        let big : 2 < s.batch_size = ltb→lt 2 s.batch_size (and_true _ _ fits).1 in
        rw fits (halved-Advances learner s l big)
  ]

  pub step-Advances :
      (taken : Taken t.Learner fl.F) (s : Trainer w t)
      → IsLive s
      → Advances s (after_step w t c cancels taken s)
  unfolding after_step
  step-Advances Taken.failed s l = tt
  step-Advances (oom learner) s l = shrink-Advances learner s l
  step-Advances (stepped learner loss) s l = next (before s) q
    where
      before : Train w t (Unit {0})
      before =
          count_step w t c cancels learner >> checking w t c cancels loss >> telling w t c cancels

      u : Trainer w t
      u = (count_step w t c cancels learner s).1

      q : Still w t c cancels u (before s).1
      q =
          Quiet-bind w t c cancels (checking w t c cancels loss) (λ _. telling w t c cancels) u
            (checking-Quiet w t c cancels loss u) (λ a v. telling-Quiet w t c cancels v)

      next :
          (o : Result TrainerFault (Unit {0}) × Trainer w t)
          → Still w t c cancels u o.1
          → Advances s (continue o.0 (λ _. maybe_submit w t c cancels loss) o.1)
      next (err e, v) k = tt
      next (ok a, v) k =
          submit-Advances loss s v (k.0 ∙ l.open_now) (omega (arith, k.4, l.warm))
            (rw (k.7) (l.stocked)) (omega (arith, k.3, l.some_batch)) (k.5)
            (omega (arith, k.1, k.3, l.enough, l.some_batch))
