-- ===== src/Trainer/Runs.antt =====
-- A step on a batch that is paid for, and what follows it.
use connect4codex.Prelude.{
  ℕ, ◌≤◌, ◌<◌, min, ◌≡◌, refl, ◌∙◌, Bool, false, ◌&&◌, Floats, ◌>>◌, ltb, Bool-cases, inl, inr,
  arith, and_true, ltb→lt,
}
use connect4codex.Config.Training.{TrainingV2Config}
use connect4codex.Replay.Games.{World}
use connect4codex.Trainer.State.{Taken, stepped, oom, Torch, Trainer, Train}
use connect4codex.Trainer.Rounds.{
  drop_ahead, run_validation, report_progress, maybe_submit, every, count_step, halve,
  announce_batch, shrink, after_step,
}
use connect4codex.Trainer.Quiet.{
  Quiet-refl, Quiet-bind, drop-Quiet, run_validation-Quiet, every-Quiet, events-Quiet,
  report_progress-Quiet,
}
use connect4codex.Trainer.Steady.{Ends, Ends-bind, Quiet-Goes, Quiet-Ends, Still, maybe_submit-Ends}

module _ ⦃fl : Floats⦄ (w : World) (t : Torch w) (c : TrainingV2Config)
    (cancels : ℕ → ℕ → Bool) where
  -- A batch that is paid for.
  count_step-Ends :
      (learner : t.Learner) (s : Trainer w t)
      → s.batch_size ≤ s.sample_budget
      → Ends w t c cancels 0 0 s (count_step w t c cancels learner s)
  unfolding count_step
  count_step-Ends learner s enough =
      ((omega arith, omega arith, omega arith, λ h. h, λ h. h), omega arith)

  -- An action that changes nothing that counts.
  pub calm :
      {A : Type 0} (m : Train w t A) (s : Trainer w t)
      → Still w t c cancels s (m s).1
      → Ends w t c cancels 0 0 s (m s)
  calm m s q = Quiet-Ends w t c cancels s (m s) q

  halve-Ends :
      (learner : t.Learner) (s : Trainer w t)
      → 2 < s.batch_size
      → Ends w t c cancels 0 0 s (halve w t c cancels learner s)
  unfolding halve
  halve-Ends learner s big =
      ((omega arith, omega arith, omega arith, λ h. omega arith, λ h. h), omega arith)

  pub announce-Quiet : (s : Trainer w t) → Still w t c cancels s (announce_batch w t c cancels s).1
  unfolding announce_batch
  announce-Quiet s = events-Quiet w t c cancels s _ refl tt

  shrink-Ends :
      (learner : t.Learner) (s : Trainer w t)
      → Ends w t c cancels 0 0 s (shrink w t c cancels learner s)
  unfolding shrink
  shrink-Ends learner s = elim (Bool-cases (t.has_cuda && ltb 2 s.batch_size)) [
    | inr over ↦ rw over (
      Quiet-Goes w t c cancels s (record s { learner = learner }) (Quiet-refl w t c cancels s),
      tt,
    )
    | inl fits ↦
        let big : 2 < s.batch_size = ltb→lt 2 s.batch_size (and_true _ _ fits).1 in
        let halved = halve w t c cancels learner in
        let dropped = drop_ahead w t c cancels in
        let first : Ends w t c cancels 0 0 s ((halved >> dropped) s) =
          Ends-bind w t c cancels 0 0 0 0 halved (λ _. dropped) s (halve-Ends learner s big)
            (λ a v e. calm dropped v (drop-Quiet w t c cancels v)) in
        let all : Ends w t c cancels 0 0 s ((halved >> dropped >> announce_batch w t c cancels) s) =
          Ends-bind w t c cancels 0 0 0 0 (halved >> dropped) (λ _. announce_batch w t c cancels) s
            first (λ a v e. calm (announce_batch w t c cancels) v (announce-Quiet v)) in
        rw fits all
  ]

  abbrev pub checking : fl.F → Train w t (Unit {0})
  checking loss =
      every w t c cancels c.validation_interval_steps (run_validation w t c cancels loss)

  abbrev pub telling : Train w t (Unit {0})
  telling = every w t c cancels (min c.validation_interval_steps 10) (report_progress w t c cancels)

  pub checking-Quiet : (loss : fl.F) (s : Trainer w t) → Still w t c cancels s (checking loss s).1
  checking-Quiet loss s =
      every-Quiet w t c cancels c.validation_interval_steps (run_validation w t c cancels loss) s
        (λ u. run_validation-Quiet w t c cancels loss u)

  pub telling-Quiet : (s : Trainer w t) → Still w t c cancels s (telling s).1
  telling-Quiet s =
      every-Quiet w t c cancels (min c.validation_interval_steps 10) (report_progress w t c cancels)
        s (λ u. report_progress-Quiet w t c cancels u)

  pub after_step-Ends :
      (taken : Taken t.Learner fl.F) (s : Trainer w t)
      → s.pending ≡ false
      → s.batch_size ≤ s.sample_budget
      → Ends w t c cancels 0 0 s (after_step w t c cancels taken s)
  unfolding after_step
  after_step-Ends (oom learner) s open_now enough = shrink-Ends learner s
  after_step-Ends Taken.failed s open_now enough =
      (Quiet-Goes w t c cancels s s (Quiet-refl w t c cancels s), tt)
  after_step-Ends (stepped learner loss) s open_now enough =
      let counted = count_step w t c cancels learner in
      let checked = checking loss in
      let u = (count_step w t c cancels learner s).1 in
      let q : Still w t c cancels u ((counted >> checked >> telling) s).1 =
        Quiet-bind w t c cancels checked (λ _. telling) u (checking-Quiet loss u)
          (λ a v. telling-Quiet v) in
      Ends-bind w t c cancels 0 0 0 0 (counted >> checked >> telling)
        (λ _. maybe_submit w t c cancels loss) s
        (Ends-bind w t c cancels 0 0 0 0 (counted >> checked) (λ _. telling) s
          (Ends-bind w t c cancels 0 0 0 0 counted (λ _. checked) s
            (count_step-Ends learner s enough) (λ a v e. calm checked v (checking-Quiet loss v)))
          (λ a v e. calm telling v (telling-Quiet v)))
        λ a v e. maybe_submit-Ends w t c cancels loss v ((rw e at q).0 ∙ open_now)
