-- ===== src/Trainer/Steady.antt =====
-- What a part of the trainer's round may do: spend samples that are paid for, and submit a candidate for which there was a decision.
use connect4codex.Prelude.{
  ℕ, ◌+◌, ◌≤◌, ◌≡◌, refl, ap, ◌∙◌, Bool, true, false, Option, none, some, [], ◌∷◌, All, All-append,
  sum_by-append, Floats, Result, ok, err, continue, ◌>>=◌, Bool-cases, inl, inr, arith, and_true,
  leb→le,
}
use connect4codex.Config.Training.{TrainingV2Config}
use connect4codex.Coordinator.State.{Event, candidate}
use connect4codex.Replay.Games.{World}
use connect4codex.Trainer.State.{TrainerFault, Torch, Checkpoint, Trainer, Train, loss_or}
use connect4codex.Trainer.Rounds.{
  drop_ahead, capture, submit_payload, submit_best, is_due, maybe_submit,
}
use connect4codex.Trainer.Quiet.{one_candidate, IsWarm, candidates, Quiet, Quiet-refl, drop-Quiet}

-- The candidate that may still come.
abbrev pub slot : Bool → ℕ
slot true = 0
slot false = 1

module _ ⦃fl : Floats⦄ (w : World) (t : Torch w) (c : TrainingV2Config)
    (cancels : ℕ → ℕ → Bool) where
  abbrev pub Warm : Trainer w t → Type 0
  Warm s = All (IsWarm c.replay_warmup_games) s.events

  -- The candidates submitted, and the one that may come without a decision.
  abbrev pub open_candidates : Trainer w t → ℕ
  open_candidates s = candidates w t c cancels s + slot s.pending

  abbrev pub spent : Trainer w t → ℕ
  spent s = s.training_samples + s.sample_budget

  -- From one state to a later one, with so many samples paid and so many decisions taken at most.
  abbrev pub Goes : ℕ → ℕ → Trainer w t → Trainer w t → Type 0
  Goes paid decided s s' =
      (spent s' ≤ spent s + paid)
      × (open_candidates s' ≤ open_candidates s + decided)
      × (s'.batch_size ≤ s.batch_size)
      × (2 ≤ s.batch_size → 2 ≤ s'.batch_size)
      × (Warm s → Warm s')

  -- Without an error, exactly what was paid is spent or left.
  abbrev pub Balanced :
      {A : Type 0} → ℕ → Trainer w t → Result TrainerFault A × Trainer w t → Type 0
  Balanced paid s (ok a, s') = spent s' ≡ spent s + paid
  Balanced paid s (err e, s') = Unit

  abbrev pub Ends :
      {A : Type 0} → ℕ → ℕ → Trainer w t → Result TrainerFault A × Trainer w t → Type 0
  Ends paid decided s o = Goes paid decided s o.1 × Balanced paid s o

  pub Goes-trans :
      (p d p' d' : ℕ) (s u v : Trainer w t)
      → Goes p d s u
      → Goes p' d' u v
      → Goes (p + p') (d + d') s v
  Goes-trans p d p' d' s u v a b =
      (omega arith, omega arith, omega arith, λ h. b.3 (a.3 h), λ h. b.4 (a.4 h))

  module _ {A B : Type 0} where
    pub Ends-continue :
        (p d p' d' : ℕ) (f : A → Train w t B) (s : Trainer w t)
        (o : Result TrainerFault A × Trainer w t)
        → Ends p d s o
        → ((a : A) (u : Trainer w t) → o ≡ (ok a, u) → Ends p' d' u (f a u))
        → Ends (p + p') (d + d') s (continue o.0 f o.1)
    Ends-continue p d p' d' f s (err e, u) h next =
        ((omega (arith, h.0.0), omega (arith, h.0.1), h.0.2, h.0.3, h.0.4), tt)
    Ends-continue p d p' d' f s (ok a, u) h next = joined (f a u) (next a u refl)
      where
        joined :
            (o : Result TrainerFault B × Trainer w t) → Ends p' d' u o → Ends (p + p') (d + d') s o
        joined (ok b, v) k = (Goes-trans p d p' d' s u v h.0 k.0, omega (arith, h.1, k.1))
        joined (err e, v) k = (Goes-trans p d p' d' s u v h.0 k.0, tt)

    pub Ends-bind :
        (p d p' d' : ℕ) (m : Train w t A) (f : A → Train w t B) (s : Trainer w t)
        → Ends p d s (m s)
        → ((a : A) (u : Trainer w t) → m s ≡ (ok a, u) → Ends p' d' u (f a u))
        → Ends (p + p') (d + d') s ((m >>= f) s)
    Ends-bind p d p' d' m f s h next = Ends-continue p d p' d' f s (m s) h next

  abbrev pub Still : Trainer w t → Trainer w t → Type 0
  Still = Quiet w t c cancels

  pub Quiet-Goes : (s u : Trainer w t) → Still s u → Goes 0 0 s u
  Quiet-Goes s u q =
      let flag = ap slot (q.0) in
      (
        omega (arith, q.1, q.2),
        omega (arith, q.5, flag),
        omega (arith, q.3),
        λ h. omega (arith, q.3),
        q.6,
      )

  pub Quiet-Ends :
      {A : Type 0} (s : Trainer w t) (o : Result TrainerFault A × Trainer w t)
      → Still s o.1
      → Ends 0 0 s o
  Quiet-Ends s (ok a, u) q = (Quiet-Goes s u q, omega (arith, q.1, q.2))
  Quiet-Ends s (err e, u) q = (Quiet-Goes s u q, tt)

  submit_payload-Ends :
      (loss : fl.F) (best : Checkpoint w t) (s : Trainer w t)
      → s.pending ≡ false
      → c.replay_warmup_games ≤ s.fresh_games
      → Ends 0 0 s (submit_payload w t c cancels loss best s)
  unfolding submit_payload
  submit_payload-Ends loss best s open_now warm =
      let e : Event =
        candidate (loss_or w t loss s.best_loss) best.training_steps best.training_samples
          s.fresh_games in
      let before : slot s.pending ≡ 1 = rw open_now refl in
      (
        (
          omega arith,
          omega (arith, sum_by-append one_candidate s.events (e ∷ []), before),
          omega arith,
          λ h. h,
          λ h. All-append (IsWarm c.replay_warmup_games) s.events (e ∷ []) h (warm, tt),
        ),
        omega arith,
      )

  submit_best-Ends :
      (loss : fl.F) (best : Option (Checkpoint w t)) (s : Trainer w t)
      → s.pending ≡ false
      → c.replay_warmup_games ≤ s.fresh_games
      → Ends 0 0 s (submit_best w t c cancels loss best s)
  unfolding submit_best
  submit_best-Ends loss (some best) s open_now warm = submit_payload-Ends loss best s open_now warm
  submit_best-Ends loss none s open_now warm =
      let q = drop-Quiet w t c cancels s in
      Ends-bind 0 0 0 0 (drop_ahead w t c cancels) _ s (Quiet-Ends s (drop_ahead w t c cancels s) q)
        λ a u e.
          let k : Still s u = rw e at q in
          submit_payload-Ends loss (capture w t c cancels (some loss) u)
            (record u {
              best_payload = some (capture w t c cancels (some loss) u);
              best_loss = some loss;
            })
            (k.0 ∙ open_now) (omega (arith, k.4, warm))

  due-warm :
      (s : Trainer w t) → is_due w t c cancels s ≡ true → c.replay_warmup_games ≤ s.fresh_games
  unfolding is_due
  due-warm s due = leb→le c.replay_warmup_games s.fresh_games (and_true _ _ due).0

  pub maybe_submit-Ends :
      (loss : fl.F) (s : Trainer w t)
      → s.pending ≡ false
      → Ends 0 0 s (maybe_submit w t c cancels loss s)
  unfolding maybe_submit
  maybe_submit-Ends loss s open_now = elim (Bool-cases (is_due w t c cancels s)) [
    | inr early ↦ rw early (Quiet-Ends {A = Unit {0}} s (ok tt, s) (Quiet-refl w t c cancels s))
    | inl due ↦ rw due (submit_best-Ends loss s.best_payload s open_now (due-warm s due))
  ]
