-- ===== src/Jobs/Order.antt =====
-- What each slot does to the queue, the current job and the process.
use mathlib.Core.List.{append-nil, append_assoc}
use connect4codex.Prelude.{
  ℕ, ◌≡◌, refl, ap, sym, ◌∙◌, ◌⊎◌, inl, inr, Bool, true, false, Option, none, some, List, [], ◌∷◌,
  ◌++◌, Floats, length, if◌then◌else◌, arith,
}
use connect4codex.Jobs.State.{Job, Line, JobManager, failed, terminal}
use connect4codex.Jobs.Worker.{read_stdout, handle_event}
use connect4codex.Jobs.Slots.{
  next_job, start_next, accept, close, drained, finish_at, finished, error_at,
}
use connect4codex.Jobs.Queue.{
  Same, Same-refl, Same-trans, kill_worker_group-Same, handle_event-Same, read_stdout-Same,
}

module _ ⦃fl : Floats⦄ where
  -- No job and no process, or the job that was launched last in the process that was started last.
  abbrev pub IsTidy : JobManager → Type 0
  IsTidy s =
      ((s.current ≡ none) × (s.process ≡ none))
      ⊎ ((before : List Job) × ((job : Job) × ((s.launched ≡ before ++ job ∷ [])
              × (s.current ≡ some job)
              × (s.process ≡ some (length before)))))

  -- What a slot that accepts these jobs does.
  pub record Moves (new : List Job) (s t : JobManager) : Type 0 where
    pub tidy : IsTidy s → IsTidy t
    pub going :
        s.shutting_down ≡ false
        → (t.shutting_down ≡ false) × (t.launched ++ t.queue ≡ (s.launched ++ s.queue) ++ new)
    pub halted : s.shutting_down ≡ true → (t.shutting_down ≡ true) × (t.launched ≡ s.launched)

  transfer : (s t : JobManager) → Same s t → IsTidy s → IsTidy t
  transfer s t k (inl (c, p)) = inl (k.current_same ∙ c, k.process_same ∙ p)
  transfer s t k (inr (before, (job, (l, c, p)))) =
      inr (before, (job, (k.launched_same ∙ l, k.current_same ∙ c, k.process_same ∙ p)))

  pub Same-Moves : (s t : JobManager) → Same s t → Moves [] s t
  Same-Moves s t k = record {
    tidy = transfer s t k;
    going = λ g. (
      k.shutting_same ∙ g,
      rw (k.launched_same, k.queue_same) (sym (append-nil (s.launched ++ s.queue))),
    );
    halted = λ h. (k.shutting_same ∙ h, k.launched_same);
  }

  pub Moves-trans :
      (new more : List Job) (s t u : JobManager)
      → Moves new s t
      → Moves more t u
      → Moves (new ++ more) s u
  Moves-trans new more s t u a b = record {
    tidy = λ x. b.tidy (a.tidy x);
    going = λ g.
        let (g', line) = a.going g in
        let (g'', line') = b.going g' in
        (g'', line' ∙ ap (λ l. l ++ more) line ∙ append_assoc (s.launched ++ s.queue) new more);
    halted =
        λ h. let (h', same) = a.halted h in let (h'', same') = b.halted h' in (h'', same' ∙ same);
  }

  next-Moves :
      (o : Option Job) (q : List Job) (s : JobManager)
      → s.queue ≡ q
      → s.current ≡ o
      → s.shutting_down ≡ false
      → Moves [] s (next_job o q s)
  next-Moves (some job) q s e c g = Same-Moves s s (Same-refl s)
  next-Moves none [] s e c g = Same-Moves s s (Same-refl s)
  next-Moves none (job ∷ rest) s e c g = record {
    tidy = λ x. inr (s.launched, (job, (refl, refl, refl)));
    going = λ g'. (
      g',
      append_assoc s.launched (job ∷ []) rest
          ∙ ap (λ q. s.launched ++ q) (sym e)
          ∙ sym (append-nil (s.launched ++ s.queue)),
    );
    halted = λ h. let bad : true ≡ false = sym h ∙ g in ground arith;
  }

  pub start_next-Moves : (s : JobManager) → Moves [] s (start_next s)
  unfolding start_next
  start_next-Moves s = go (s.shutting_down) refl
    where
      go :
          (b : Bool)
          → s.shutting_down ≡ b
          → Moves [] s (if b then s else next_job s.current s.queue s)
      go true e = Same-Moves s s (Same-refl s)
      go false e = next-Moves s.current s.queue s refl refl e

  pub accept-Moves :
      (job : Job) (s : JobManager)
      → s.shutting_down ≡ false
      → Moves (job ∷ []) s (accept (some job) s)
  unfolding accept
  accept-Moves job s g =
      let t = record s { queue = s.queue ++ job ∷ [] } in
      let m = start_next-Moves t in
      record {
        tidy = m.tidy;
        going = λ g'.
            let (h, line) = m.going g' in
            (
              h,
              line
                  ∙ append-nil (s.launched ++ (s.queue ++ job ∷ []))
                  ∙ sym (append_assoc s.launched s.queue (job ∷ [])),
            );
        halted = λ h. let bad : true ≡ false = sym h ∙ g in ground arith;
      }

  close-Moves : (exit_ok : Bool) (job : Job) (s : JobManager) → Moves [] s (close exit_ok job s)
  unfolding close
  close-Moves exit_ok job s = record {
    tidy = λ x. inl (refl, refl);
    going = λ g. (g, sym (append-nil (s.launched ++ s.queue)));
    halted = λ h. (h, refl);
  }

  module _ (pid : ℕ → ℕ) where
    drained-Moves : (lines : List Line) (s : JobManager) → Moves [] s (drained pid lines s)
    unfolding drained
    drained-Moves lines s =
        let t = record s { cancel_timer = none } in
        let first : Same s t = record {
          queue_same = refl;
          current_same = refl;
          process_same = refl;
          launched_same = refl;
          shutting_same = refl;
        } in
        let read = read_stdout pid lines t in
        Same-Moves s _ (
          Same-trans s t _ first
            (Same-trans t read _ (read_stdout-Same pid lines t) (kill_worker_group-Same read)))

    if-Moves :
        (b : Bool) (new : List Job) (s t u : JobManager)
        → Moves new s t
        → Moves new s u
        → Moves new s (if b then t else u)
    if-Moves true new s t u x y = x
    if-Moves false new s t u x y = y

    finish_at-Moves :
        (o : Option Job) (exit_ok group_there : Bool) (lines : List Line) (s : JobManager)
        → Moves [] s (finish_at pid o exit_ok group_there lines s)
    finish_at-Moves none exit_ok group_there lines s = Same-Moves s s (Same-refl s)
    finish_at-Moves (some job) exit_ok group_there lines s =
        let t = drained pid lines s in
        if-Moves _ [] s t (close exit_ok job t) (drained-Moves lines s) (
          Moves-trans [] [] s t (close exit_ok job t) (drained-Moves lines s)
            (close-Moves exit_ok job t))

    pub finished-Moves :
        (exit_ok group_there : Bool) (lines : List Line) (s : JobManager)
        → Moves [] s (finished pid exit_ok group_there lines s)
    unfolding finished
    finished-Moves exit_ok group_there lines s =
        finish_at-Moves s.current exit_ok group_there lines s

    pub error_at-Moves : (o : Option ℕ) (s : JobManager) → Moves [] s (error_at pid o s)
    error_at-Moves none s = Same-Moves s s (Same-refl s)
    error_at-Moves (some p) s =
        let t = handle_event pid (terminal failed) s in
        Moves-trans [] [] s t (finished pid false false [] t)
          (Same-Moves s t (handle_event-Same pid (terminal failed) s))
          (finished-Moves false false [] t)
