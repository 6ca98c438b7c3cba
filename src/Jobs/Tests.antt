-- ===== src/Jobs/Tests.antt =====
-- A run of the job queue, and its theorems at concrete states.
use Prim.Native.String.{String}
use connect4codex.Prelude.{
  ℕ, ◌≡◌, refl, inl, true, false, Option, none, some, List, [], ◌∷◌, ◌++◌, take, flat_map, map,
}
use connect4codex.Prelude.Samples.{hundredths}
use connect4codex.Jobs.State.{
  Kind, training, kind_of, Job, completed, idle, starting, terminal, event, noise, JobManager,
}
use connect4codex.Jobs.Worker.{
  read_stdout, read_lines, read_line, handle_event, apply_event, kill_worker_group,
}
use connect4codex.Jobs.Slots.{
  Slot, on_submit, on_finished, on_next, call_slot, call_slots, submit, accept, start_next,
  finished, drained, close, final_phase, shutdown,
}
use connect4codex.Jobs.Order.{IsTidy}
use connect4codex.Jobs.Runs.{offered, call_slots-IsTidy, shutdown-launched}
use connect4codex.Jobs.Status.{verdict_of, first_ending, finished-status}

abbrev quiet : JobManager
quiet = record {
  queue = [];
  current = none;
  process = none;
  launched = [];
  recent = [];
  shutting_down = false;
  cancel_timer = none;
  worker_group = none;
  phase = idle;
  progress = 0;
  saw_terminal_event = false;
  stop_after_generation_requested = false;
  written = [];
  terminated = [];
  killed = [];
  killed_groups = [];
}

abbrev own : ℕ → ℕ
own n = n

abbrev any : Kind → String → Option String
any k json = some json

abbrev two_jobs : List Slot
two_jobs =
    on_submit "training" "{}" "first" 7
    ∷ on_submit "tournament" "{}" "second" 8
    ∷ on_finished true false (event (terminal completed) ∷ [])
    ∷ on_next
    ∷ []

second_runs : map (λ (j : Job). j.id) (call_slots own any two_jobs quiet).launched ≡ 7 ∷ 8 ∷ []
unfolding call_slots call_slot submit kind_of accept start_next finished drained close final_phase
    read_stdout read_lines read_line handle_event apply_event kill_worker_group
second_runs = refl

call_slots-IsTidy_example :
    let t = call_slots own any two_jobs quiet in
    IsTidy t × (t.launched ++ t.queue ≡ ([] ++ []) ++ flat_map (offered own any) two_jobs)
call_slots-IsTidy_example =
    call_slots-IsTidy own any two_jobs quiet (inl (refl, refl)) refl
      (refl, (refl, (refl, (refl, tt))))

shutdown-launched_example : (call_slots own any two_jobs (shutdown quiet)).launched ≡ []
shutdown-launched_example = shutdown-launched own any two_jobs quiet

abbrev first_job : Job
first_job = record { kind = training; title = "first"; config = "{}"; id = 7 }

abbrev busy : JobManager
busy = record quiet {
  current = some first_job;
  process = some 0;
  launched = first_job ∷ [];
  phase = starting;
}

finished-status_example :
    (finished own true false (noise ∷ event (terminal completed) ∷ []) busy).recent
    ≡ take 20 (
        record {
          job = first_job;
          status = verdict_of true (first_ending (noise ∷ event (terminal completed) ∷ []));
        }
        ∷ [])
finished-status_example =
    finished-status own true (noise ∷ event (terminal completed) ∷ []) busy first_job 0 refl refl
      refl
