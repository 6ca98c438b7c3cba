-- ===== src/Trainer/Ledger.antt =====
-- A run of the trainer: what it trains on is paid for, and it submits at most one candidate for each decision.
use connect4codex.Prelude.{
  ℕ, ◌+◌, ◌≤◌, ◌≡◌, refl, ◌∙◌, Bool, true, false, ◌||◌, Option, none, some, List, [], ◌∷◌, length,
  sum_by, Floats, ◌>>◌, ltb, ◌==◌, Bool-cases, inl, inr, arith, or_false, not_ltb,
}
use connect4codex.Config.Training.{TrainingV2Config}
use connect4codex.Manifest.Tables.{Artifact, Value, num, null, float, str, settings, progress}
use connect4codex.Manifest.Statements.{ShardEvent}
use connect4codex.Coordinator.State.{
  TrainerCommand, pending, add_shard, remove_shard, decision, shard_removed,
}
use connect4codex.Replay.Games.{World, Row}
use connect4codex.Replay.Pool.{cache_limit, validation_game}
use connect4codex.Replay.Prefetcher.{training_batch}
use connect4codex.Replay.Ahead.{training_batch-shards}
use connect4codex.Trainer.State.{Torch, Trainer, Train, credit}
use connect4codex.Trainer.Commands.{
  Input, command, loader, lifted, on_add_shard, on_remove_shard, resumed, count_of, begin_decision,
  resume_from, announce_decision, on_decision, on_command, take_input, take_inputs,
}
use connect4codex.Trainer.Rounds.{
  save, after_step, train, is_idle, maybe_train, trainer_round, trainer_rounds,
}
use connect4codex.Trainer.Quiet.{Quiet-refl, Quiet-bind, save-Quiet, events-Quiet, lifted-Quiet}
use connect4codex.Trainer.Steady.{slot, Ends, Ends-bind, Quiet-Goes, Still}
use connect4codex.Trainer.Runs.{calm, after_step-Ends}

module _ ⦃fl : Floats⦄ (c : TrainingV2Config) where
  -- The samples that an input allows to be trained on, and the candidates that it allows.
  abbrev pub paid_by : (w : World) (t : Torch w) → Input → ℕ
  paid_by w t (command (add_shard n e)) = credit w t c e.train_samples
  paid_by w t _ = 0

  abbrev pub allows : Input → ℕ
  allows (command (decision a n path count fresh pause)) = 1
  allows _ = 0

module _ ⦃fl : Floats⦄ (w : World) (t : Torch w) (c : TrainingV2Config)
    (cancels : ℕ → ℕ → Bool) where
  train-Ends :
      (s : Trainer w t)
      → s.pending ≡ false
      → s.batch_size ≤ s.sample_budget
      → Ends w t c cancels 0 0 s (train w t c cancels s)
  unfolding train
  train-Ends s open_now enough =
      let drawn : Train w t (List (Row w)) = λ u.
        lifted w t c cancels u (
          training_batch w (cache_limit c) (validation_game w.digest c) u.batch_size
            u.prefetcher) in
      let q : Still w t c cancels s (drawn s).1 =
        lifted-Quiet w t c cancels s
          (training_batch w (cache_limit c) (validation_game w.digest c) s.batch_size s.prefetcher)
          (training_batch-shards w (cache_limit c) (validation_game w.digest c) s.batch_size
            s.prefetcher) in
      Ends-bind w t c cancels 0 0 0 0 drawn
        (λ rows u. after_step w t c cancels (t.step u.learner rows) u) s
        (calm w t c cancels drawn s q)
        λ rows u e.
          let k : Still w t c cancels s u = rw e at q in
          after_step-Ends w t c cancels (t.step u.learner rows) u (k.0 ∙ open_now)
            (omega (arith, k.1, k.3, enough))

  maybe_train-Ends : (s : Trainer w t) → Ends w t c cancels 0 0 s (maybe_train w t c cancels s)
  unfolding maybe_train is_idle
  maybe_train-Ends s =
      elim (Bool-cases
        (s.pending || ltb s.sample_budget s.batch_size || length s.prefetcher.pool.shards == 0)) [
          | inl idle ↦
              rw idle (Quiet-Goes w t c cancels s s (Quiet-refl w t c cancels s), omega arith)
          | inr busy ↦
              let (start, stocked) = or_false _ _ busy in
              let (open_now, enough) = or_false _ _ start in
              rw busy (train-Ends s open_now (not_ltb _ _ enough))
        ]

  on_add_shard-Ends :
      (n : ℕ) (e : ShardEvent) (s : Trainer w t)
      → Ends w t c cancels (credit w t c e.train_samples) 0 s (on_add_shard w t c cancels n e s)
  unfolding on_add_shard
  on_add_shard-Ends n e s = ((omega arith, omega arith, omega arith, λ h. h, λ h. h), omega arith)

  on_remove_shard-Ends :
      (n : ℕ) (s : Trainer w t) → Ends w t c cancels 0 0 s (on_remove_shard w t c cancels n s)
  unfolding on_remove_shard
  on_remove_shard-Ends n s =
      let q = events-Quiet w t c cancels s (shard_removed n) refl tt in
      ((omega arith, omega (arith, q.5), omega arith, λ h. h, q.6), omega arith)

  count_of-Quiet :
      (v : Value) (s : Trainer w t) → Still w t c cancels s (count_of w t c cancels v s).1
  unfolding count_of
  count_of-Quiet (num n) s = Quiet-refl w t c cancels s
  count_of-Quiet null s = Quiet-refl w t c cancels s
  count_of-Quiet (float x) s = Quiet-refl w t c cancels s
  count_of-Quiet (str x) s = Quiet-refl w t c cancels s
  count_of-Quiet (settings x) s = Quiet-refl w t c cancels s
  count_of-Quiet (progress x) s = Quiet-refl w t c cancels s

  resumed-Quiet :
      (o : Option t.Learner) (s : Trainer w t) → Still w t c cancels s (resumed w t c cancels o s).1
  unfolding resumed
  resumed-Quiet none s = Quiet-refl w t c cancels s
  resumed-Quiet (some l) s = Quiet-refl w t c cancels s

  announce_decision-Quiet :
      (s : Trainer w t) → Still w t c cancels s (announce_decision w t c cancels s).1
  unfolding announce_decision
  announce_decision-Quiet s = events-Quiet w t c cancels s _ refl tt

  resume_from-Quiet :
      (path : Artifact) (n : ℕ) (s : Trainer w t)
      → Still w t c cancels s (resume_from w t c cancels path n s).1
  unfolding resume_from
  resume_from-Quiet path n s =
      resumed-Quiet (t.resume path n s.learner) (record s { accepted_count = n })

  slot_le : (b : Bool) → slot b ≤ 1
  slot_le true = omega arith
  slot_le false = omega arith

  begin_decision-Ends :
      (champion fresh : ℕ) (pause : Bool) (s : Trainer w t)
      → Ends w t c cancels 0 1 s (begin_decision w t c cancels champion fresh pause s)
  unfolding begin_decision
  begin_decision-Ends champion fresh pause s =
      ((omega arith, omega (arith, slot_le pause), omega arith, λ h. h, λ h. h), omega arith)

  on_decision-Ends :
      (champion : ℕ) (path : Artifact) (v : Value) (fresh : ℕ) (pause : Bool) (s : Trainer w t)
      → Ends w t c cancels 0 1 s (on_decision w t c cancels champion path v fresh pause s)
  unfolding on_decision
  on_decision-Ends champion path v fresh pause s =
      let begin = begin_decision w t c cancels champion fresh pause in
      let count = count_of w t c cancels v in
      Ends-bind w t c cancels 0 1 0 0 (begin >> count)
        (λ n.
          resume_from w t c cancels path n >> save w t c cancels >> announce_decision w t c cancels)
        s
        (Ends-bind w t c cancels 0 1 0 0 begin (λ _. count) s
          (begin_decision-Ends champion fresh pause s)
          (λ a u e. calm w t c cancels count u (count_of-Quiet v u)))
        λ n u e.
          let resume = resume_from w t c cancels path n in
          calm w t c cancels (resume >> save w t c cancels >> announce_decision w t c cancels) u (
            Quiet-bind w t c cancels (resume >> save w t c cancels)
              (λ _. announce_decision w t c cancels) u
              (Quiet-bind w t c cancels resume (λ _. save w t c cancels) u
                (resume_from-Quiet path n u) (λ a x. save-Quiet w t c cancels x))
              (λ a x. announce_decision-Quiet x))

  on_command-Ends :
      (x : TrainerCommand) (s : Trainer w t)
      → Ends w t c cancels
          (paid_by c w t (command x))
          (allows c (command x))
          s
          (on_command w t c cancels x s)
  unfolding on_command
  on_command-Ends pending s = ((omega arith, omega arith, omega arith, λ h. h, λ h. h), omega arith)
  on_command-Ends (add_shard n e) s = on_add_shard-Ends n e s
  on_command-Ends (remove_shard n) s = on_remove_shard-Ends n s
  on_command-Ends (decision a n path count fresh pause) s =
      on_decision-Ends n path count fresh pause s

  take_input-Ends :
      (i : Input) (s : Trainer w t)
      → Ends w t c cancels (paid_by c w t i) (allows c i) s (take_input w t c cancels i s)
  unfolding take_input
  take_input-Ends (command x) s = on_command-Ends x s
  take_input-Ends loader s = ((omega arith, omega arith, omega arith, λ h. h, λ h. h), omega arith)

  take_inputs-Ends :
      (inputs : List Input) (s : Trainer w t)
      → Ends w t c cancels
          (sum_by (paid_by c w t) inputs)
          (sum_by (allows c) inputs)
          s
          (take_inputs w t c cancels inputs s)
  unfolding take_inputs
  take_inputs-Ends [] s = (Quiet-Goes w t c cancels s s (Quiet-refl w t c cancels s), omega arith)
  take_inputs-Ends (i ∷ inputs) s =
      Ends-bind w t c cancels (paid_by c w t i) (allows c i) (sum_by (paid_by c w t) inputs)
        (sum_by (allows c) inputs) (take_input w t c cancels i)
        (λ _. take_inputs w t c cancels inputs) s (take_input-Ends i s)
        (λ a u e. take_inputs-Ends inputs u)

  trainer_round-Ends :
      (inputs : List Input) (s : Trainer w t)
      → Ends w t c cancels
          (sum_by (paid_by c w t) inputs)
          (sum_by (allows c) inputs)
          s
          (trainer_round w t c cancels inputs s)
  unfolding trainer_round
  trainer_round-Ends inputs s =
      let paid_once : sum_by (paid_by c w t) inputs + 0 ≡ sum_by (paid_by c w t) inputs =
        omega arith in
      let allowed_once : sum_by (allows c) inputs + 0 ≡ sum_by (allows c) inputs = omega arith in
      rw (paid_once, allowed_once) at
        (Ends-bind w t c cancels (sum_by (paid_by c w t) inputs) (sum_by (allows c) inputs) 0 0
          (take_inputs w t c cancels inputs) (λ _. maybe_train w t c cancels) s
          (take_inputs-Ends inputs s) (λ a u e. maybe_train-Ends u))

  abbrev pub paid : List (List Input) → ℕ
  paid = sum_by (sum_by (paid_by c w t))

  abbrev pub allowed : List (List Input) → ℕ
  allowed = sum_by (sum_by (allows c))

  -- In any run of the trainer's loop: the samples trained on and the budget left are together at most those of the
  -- start and what the run's new shards pay for, and exactly these if nothing raises; the candidates
  -- submitted, with one more counted while none is pending, grow by at most the decisions; the batch's size does
  -- not grow, and stays at least 2 if it was; and all candidates are submitted with as many fresh
  -- games as the warm-up wants, if the earlier ones were.
  pub trainer_rounds-Ends :
      (inputs : List (List Input)) (s : Trainer w t)
      → Ends w t c cancels (paid inputs) (allowed inputs) s (trainer_rounds w t c cancels inputs s)
  unfolding trainer_rounds
  trainer_rounds-Ends [] s = calm w t c cancels (save w t c cancels) s (save-Quiet w t c cancels s)
  trainer_rounds-Ends (i ∷ inputs) s =
      Ends-bind w t c cancels (sum_by (paid_by c w t) i) (sum_by (allows c) i) (paid inputs)
        (allowed inputs) (trainer_round w t c cancels i) (λ _. trainer_rounds w t c cancels inputs)
        s (trainer_round-Ends i s) (λ a u e. trainer_rounds-Ends inputs u)
