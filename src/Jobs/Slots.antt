-- ===== src/Jobs/Slots.antt =====
-- The slots of `JobManager`, and a run of them in any order. What json and pydantic make of a
-- configuration is a parameter.
use Prim.Native.String.{String}
use connect4codex.Prelude.{
  ℕ, Bool, true, false, not, ◌&&◌, Option, none, some, List, [], ◌∷◌, ◌++◌, Floats, if◌then◌else◌,
  length, take,
}
use connect4codex.Jobs.State.{
  Kind, training, kind_of, Job, completed, failed, Phase, starting, ended, request,
  stop_after_generation, terminal, Line, JobManager,
}
use connect4codex.Jobs.Worker.{
  cancel, kill_worker_group, kill_if_running, handle_event, read_stdout,
}

module _ ⦃fl : Floats⦄ where
  abbrev pub launch : Job → List Job → JobManager → JobManager
  launch job rest s = record s {
    queue = rest;
    current = some job;
    process = some (length s.launched);
    launched = s.launched ++ job ∷ [];
    worker_group = none;
    phase = starting;
    progress = fl.of_ℕ 0;
    saw_terminal_event = false;
    stop_after_generation_requested = false;
  }

  abbrev pub next_job : Option Job → List Job → JobManager → JobManager
  next_job (some job) queue s = s
  next_job none [] s = s
  next_job none (job ∷ rest) s = launch job rest s

  unfoldable pub start_next : JobManager → JobManager
  start_next s = if s.shutting_down then s else next_job s.current s.queue s

  unfoldable pub accept : Option Job → JobManager → JobManager
  accept none s = s
  accept (some job) s = start_next (record s { queue = s.queue ++ job ∷ [] })

  abbrev pub send_at : Option ℕ → Option Job → JobManager → JobManager
  send_at (some p) (some job) s = record s { written = s.written ++ (p, request job) ∷ [] }
  send_at _ _ s = s

  unfoldable pub send_request : JobManager → JobManager
  send_request s = send_at s.process s.current s

  abbrev is_training : Job → Bool
  is_training job = elim job.kind [ training ↦ true | _ ↦ false ]

  abbrev pub stop_at : Option ℕ → Option Job → JobManager → JobManager
  stop_at (some p) (some job) s =
      if is_training job && not s.stop_after_generation_requested
      then record s {
        stop_after_generation_requested = true;
        written = s.written ++ (p, stop_after_generation) ∷ [];
      }
      else s
  stop_at _ _ s = s

  unfoldable pub stop_after : JobManager → JobManager
  stop_after s = stop_at s.process s.current s

  unfoldable pub shutdown : JobManager → JobManager
  shutdown s = cancel (record s { shutting_down = true; queue = [] })

  abbrev is_completed : Phase → Bool
  is_completed (ended completed) = true
  is_completed _ = false

  -- A worker that said nothing, or that failed after it said that it was done, has failed.
  unfoldable pub final_phase : Bool → Bool → Phase → Phase
  final_phase saw_terminal exit_ok p =
      if not saw_terminal
      then ended failed
      else if is_completed p && not exit_ok
      then ended failed
      else p

  abbrev pub has_group : Option ℕ → Bool
  has_group none = false
  has_group (some g) = true

  -- The current job is over.
  unfoldable pub close : Bool → Job → JobManager → JobManager
  close exit_ok job s =
      let status = final_phase s.saw_terminal_event exit_ok s.phase in
      record s {
        worker_group = none;
        phase = status;
        recent = take 20 (record { job = job; status = status } ∷ s.recent);
        process = none;
        current = none;
      }

  pub data Slot : Type 0 where
    on_submit : (kind json title : String) (id : ℕ) → Slot
    on_started on_cancel on_stop_after on_shutdown on_next on_failed_start : Slot
    on_timer : (is_running : Bool) → Slot
    on_stdout : List Line → Slot
    on_finished : (exit_ok group_there : Bool) → List Line → Slot

  module _ (pid : ℕ → ℕ) where
    -- The group is killed once the rest of the output is read.
    unfoldable pub drained : List Line → JobManager → JobManager
    drained lines s = kill_worker_group (read_stdout pid lines (record s { cancel_timer = none }))

    abbrev pub finish_at : Option Job → Bool → Bool → List Line → JobManager → JobManager
    finish_at none exit_ok group_there lines s = s
    finish_at (some job) exit_ok group_there lines s =
        let t = drained lines s in
        if has_group t.worker_group && group_there then t else close exit_ok job t

    -- While the killed group is still there, the slot is called again.
    unfoldable pub finished : Bool → Bool → List Line → JobManager → JobManager
    finished exit_ok group_there lines s = finish_at s.current exit_ok group_there lines s

    abbrev pub error_at : Option ℕ → JobManager → JobManager
    error_at none s = s
    error_at (some p) s = finished false false [] (handle_event pid (terminal failed) s)

    -- The process failed to start.
    unfoldable pub process_error : JobManager → JobManager
    process_error s = error_at s.process s

    module _ (validated : Kind → String → Option String) where
      abbrev pub checked : Option Kind → String → String → ℕ → Option Job
      checked none json title id = none
      checked (some k) json title id = elim (validated k json) [
        | none ↦ none
        | some config ↦ some (record { kind = k; title = title; config = config; id = id })
      ]

      -- `id` is the new identifier.
      unfoldable pub submit : String → String → String → ℕ → JobManager → JobManager
      submit kind json title id s =
          if s.shutting_down then s else accept (checked (kind_of kind) json title id) s

      unfoldable pub call_slot : Slot → JobManager → JobManager
      call_slot (on_submit kind json title id) s = submit kind json title id s
      call_slot on_started s = send_request s
      call_slot on_cancel s = cancel s
      call_slot on_stop_after s = stop_after s
      call_slot on_shutdown s = shutdown s
      call_slot on_next s = start_next s
      call_slot on_failed_start s = process_error s
      call_slot (on_timer is_running) s = kill_if_running is_running s
      call_slot (on_stdout lines) s = read_stdout pid lines s
      call_slot (on_finished exit_ok group_there lines) s = finished exit_ok group_there lines s

      unfoldable pub call_slots : List Slot → JobManager → JobManager
      call_slots [] s = s
      call_slots (a ∷ slots) s = call_slots slots (call_slot a s)
