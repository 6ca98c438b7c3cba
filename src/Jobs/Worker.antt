-- ===== src/Jobs/Worker.antt =====
-- `JobManager`'s side of a worker: what it reads, and how it stops one.
use connect4codex.Prelude.{
  ℕ, Bool, true, false, ◌&&◌, Option, none, some, List, [], ◌∷◌, ◌++◌, Floats, ltb, ◌==◌,
  if◌then◌else◌,
}
use connect4codex.Jobs.State.{
  Ending, completed, failed, running, cancelling, named, ended, Message, Line, JobManager, started,
  phase, progress, shown, terminal, unknown, blank, noise, bad, event,
}

module _ ⦃fl : Floats⦄ where
  abbrev pub cancel_at : Option ℕ → JobManager → JobManager
  cancel_at none s = s
  cancel_at (some p) s = record s {
    phase = if s.saw_terminal_event then s.phase else cancelling;
    terminated = s.terminated ++ p ∷ [];
    cancel_timer = some p;
  }

  unfoldable pub cancel : JobManager → JobManager
  cancel s = cancel_at s.process s

  abbrev kill_group : Option ℕ → List ℕ → List ℕ
  kill_group none groups = groups
  kill_group (some g) groups = groups ++ g ∷ []

  unfoldable pub kill_worker_group : JobManager → JobManager
  kill_worker_group s = record s { killed_groups = kill_group s.worker_group s.killed_groups }

  abbrev same_process : Option ℕ → Option ℕ → Bool
  same_process (some p) (some q) = p == q
  same_process _ _ = false

  abbrev killed_now : Option ℕ → List ℕ → List ℕ
  killed_now none ks = ks
  killed_now (some p) ks = ks ++ p ∷ []

  -- The timer has fired: `_kill_if_running`.
  unfoldable pub kill_if_running : Bool → JobManager → JobManager
  kill_if_running is_running s =
      if same_process s.cancel_timer s.process && is_running
      then record (kill_worker_group s) { killed = killed_now s.process s.killed }
      else s

  -- max(0.0, min(1.0, x)), each of which keeps its first argument on a tie and on a NaN
  abbrev clamp : fl.F → fl.F
  clamp x =
      let low = if fl.lt x (fl.of_ℕ 1) then x else fl.of_ℕ 1 in
      if fl.lt (fl.of_ℕ 0) low then low else fl.of_ℕ 0

  abbrev finished_progress : Ending → fl.F → fl.F
  finished_progress completed x = fl.of_ℕ 1
  finished_progress _ x = x

  module _ (pid : ℕ → ℕ) where
    -- The group is trusted only if it is the process's own.
    abbrev group_of : Option ℕ → ℕ → Option ℕ → Option ℕ
    group_of none g old = old
    group_of (some p) g old = if (g == pid p) && ltb 0 (pid p) then some (pid p) else old

    unfoldable pub apply_event : Message → JobManager → JobManager
    apply_event (started g) s = record s {
      phase = running;
      worker_group = group_of s.process g s.worker_group;
    }
    apply_event (phase name) s = record s { phase = named name }
    apply_event (progress x) s = record s { progress = clamp x }
    apply_event shown s = s
    apply_event (terminal e) s = record s {
      saw_terminal_event = true;
      phase = ended e;
      progress = finished_progress e s.progress;
    }
    apply_event unknown s = s

    unfoldable pub handle_event : Message → JobManager → JobManager
    handle_event m s = if s.saw_terminal_event then s else apply_event m s

    unfoldable pub read_line : Line → JobManager → JobManager
    read_line blank s = s
    read_line noise s = s
    read_line bad s = if s.saw_terminal_event then s else cancel (handle_event (terminal failed) s)
    read_line (event m) s = handle_event m s

    unfoldable pub read_lines : List Line → JobManager → JobManager
    read_lines [] s = s
    read_lines (l ∷ lines) s = read_lines lines (read_line l s)

    abbrev pub read_at : Option ℕ → List Line → JobManager → JobManager
    read_at none lines s = s
    read_at (some p) lines s = read_lines lines s

    -- Output of a process that is gone is not read.
    unfoldable pub read_stdout : List Line → JobManager → JobManager
    read_stdout lines s = read_at s.process lines s
