-- ===== src/Jobs/Queue.antt =====
-- The queue is first in, first out, and one process runs at a time.
use connect4codex.Prelude.{
  ℕ, ◌≡◌, refl, ◌∙◌, Bool, true, false, Option, none, some, List, [], ◌∷◌, Floats, if◌then◌else◌,
}
use connect4codex.Jobs.State.{
  Job, Message, started, phase, progress, shown, terminal, unknown, Line, blank, noise, bad, event,
  JobManager, failed,
}
use connect4codex.Jobs.Worker.{
  cancel, cancel_at, kill_worker_group, kill_if_running, apply_event, handle_event, read_line,
  read_lines, read_at, read_stdout,
}
use connect4codex.Jobs.Slots.{send_at, stop_at}

module _ ⦃fl : Floats⦄ where
  -- The queue, the current job and its process are left as they were.
  pub record Same (s t : JobManager) : Type 0 where
    pub queue_same : t.queue ≡ s.queue
    pub current_same : t.current ≡ s.current
    pub process_same : t.process ≡ s.process
    pub launched_same : t.launched ≡ s.launched
    pub shutting_same : t.shutting_down ≡ s.shutting_down

  pub Same-refl : (s : JobManager) → Same s s
  Same-refl s = record {
    queue_same = refl;
    current_same = refl;
    process_same = refl;
    launched_same = refl;
    shutting_same = refl;
  }

  pub Same-trans : (s t u : JobManager) → Same s t → Same t u → Same s u
  Same-trans s t u a b = record {
    queue_same = b.queue_same ∙ a.queue_same;
    current_same = b.current_same ∙ a.current_same;
    process_same = b.process_same ∙ a.process_same;
    launched_same = b.launched_same ∙ a.launched_same;
    shutting_same = b.shutting_same ∙ a.shutting_same;
  }

  pub if-Same : (b : Bool) (s t u : JobManager) → Same s t → Same s u → Same s (if b then t else u)
  if-Same true s t u x y = x
  if-Same false s t u x y = y

  cancel_at-Same : (o : Option ℕ) (s : JobManager) → Same s (cancel_at o s)
  cancel_at-Same none s = Same-refl s
  cancel_at-Same (some p) s = record {
    queue_same = refl;
    current_same = refl;
    process_same = refl;
    launched_same = refl;
    shutting_same = refl;
  }

  pub cancel-Same : (s : JobManager) → Same s (cancel s)
  unfolding cancel
  cancel-Same s = cancel_at-Same s.process s

  pub kill_worker_group-Same : (s : JobManager) → Same s (kill_worker_group s)
  unfolding kill_worker_group
  kill_worker_group-Same s = record {
    queue_same = refl;
    current_same = refl;
    process_same = refl;
    launched_same = refl;
    shutting_same = refl;
  }

  pub kill_if_running-Same : (b : Bool) (s : JobManager) → Same s (kill_if_running b s)
  unfolding kill_if_running kill_worker_group
  kill_if_running-Same b s =
      if-Same _ s _ s
        (record {
          queue_same = refl;
          current_same = refl;
          process_same = refl;
          launched_same = refl;
          shutting_same = refl;
        })
        (Same-refl s)

  pub send_at-Same : (p : Option ℕ) (j : Option Job) (s : JobManager) → Same s (send_at p j s)
  send_at-Same none j s = Same-refl s
  send_at-Same (some p) none s = Same-refl s
  send_at-Same (some p) (some job) s = record {
    queue_same = refl;
    current_same = refl;
    process_same = refl;
    launched_same = refl;
    shutting_same = refl;
  }

  pub stop_at-Same : (p : Option ℕ) (j : Option Job) (s : JobManager) → Same s (stop_at p j s)
  stop_at-Same none j s = Same-refl s
  stop_at-Same (some p) none s = Same-refl s
  stop_at-Same (some p) (some job) s =
      if-Same _ s _ s
        (record {
          queue_same = refl;
          current_same = refl;
          process_same = refl;
          launched_same = refl;
          shutting_same = refl;
        })
        (Same-refl s)

  module _ (pid : ℕ → ℕ) where
    apply_event-Same : (m : Message) (s : JobManager) → Same s (apply_event pid m s)
    unfolding apply_event
    apply_event-Same (started g) s = record {
      queue_same = refl;
      current_same = refl;
      process_same = refl;
      launched_same = refl;
      shutting_same = refl;
    }
    apply_event-Same (phase n) s = record {
      queue_same = refl;
      current_same = refl;
      process_same = refl;
      launched_same = refl;
      shutting_same = refl;
    }
    apply_event-Same (progress x) s = record {
      queue_same = refl;
      current_same = refl;
      process_same = refl;
      launched_same = refl;
      shutting_same = refl;
    }
    apply_event-Same shown s = Same-refl s
    apply_event-Same (terminal e) s = record {
      queue_same = refl;
      current_same = refl;
      process_same = refl;
      launched_same = refl;
      shutting_same = refl;
    }
    apply_event-Same unknown s = Same-refl s

    pub handle_event-Same : (m : Message) (s : JobManager) → Same s (handle_event pid m s)
    unfolding handle_event
    handle_event-Same m s = if-Same _ s s _ (Same-refl s) (apply_event-Same m s)

    read_line-Same : (l : Line) (s : JobManager) → Same s (read_line pid l s)
    unfolding read_line
    read_line-Same blank s = Same-refl s
    read_line-Same noise s = Same-refl s
    read_line-Same bad s = if-Same _ s s _ (Same-refl s) (
        Same-trans s (handle_event pid (terminal failed) s) _
          (handle_event-Same (terminal failed) s)
          (cancel-Same (handle_event pid (terminal failed) s)))
    read_line-Same (event m) s = handle_event-Same m s

    read_lines-Same : (lines : List Line) (s : JobManager) → Same s (read_lines pid lines s)
    unfolding read_lines
    read_lines-Same [] s = Same-refl s
    read_lines-Same (l ∷ lines) s =
        Same-trans s (read_line pid l s) _ (read_line-Same l s)
          (read_lines-Same lines (read_line pid l s))

    read_at-Same :
        (o : Option ℕ) (lines : List Line) (s : JobManager) → Same s (read_at pid o lines s)
    read_at-Same none lines s = Same-refl s
    read_at-Same (some p) lines s = read_lines-Same lines s

    pub read_stdout-Same : (lines : List Line) (s : JobManager) → Same s (read_stdout pid lines s)
    unfolding read_stdout
    read_stdout-Same lines s = read_at-Same s.process lines s
