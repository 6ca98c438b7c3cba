-- ===== src/Jobs/Status.antt =====
-- The status under which a finished job is recorded.
use connect4codex.Prelude.{
  ℕ, ◌≡◌, refl, ap, ◌∙◌, Bool, true, false, ◌&&◌, Option, none, some, List, [], ◌∷◌, Floats,
  if◌then◌else◌, take,
}
use connect4codex.Jobs.State.{
  Job, Ending, completed, cancelled, failed, Phase, ended, Message, Line, JobManager, started,
  phase, progress, shown, terminal, unknown, blank, noise, bad, event,
}
use connect4codex.Jobs.Worker.{
  cancel, cancel_at, kill_worker_group, apply_event, handle_event, read_line, read_lines, read_at,
  read_stdout,
}
use connect4codex.Jobs.Slots.{final_phase, close, drained, finish_at, finished, has_group}

-- What the worker says of its end, if it says so.
module _ ⦃fl : Floats⦄ where
  abbrev pub ending_of : Line → Option Ending
  ending_of bad = some failed
  ending_of (event (terminal e)) = some e
  ending_of _ = none

  abbrev pub or_later : Option Ending → Option Ending → Option Ending
  or_later (some e) later = some e
  or_later none later = later

  abbrev pub first_ending : List Line → Option Ending
  first_ending [] = none
  first_ending (l ∷ lines) = or_later (ending_of l) (first_ending lines)

  abbrev pub verdict_of : Bool → Option Ending → Phase
  verdict_of exit_ok none = ended failed
  verdict_of exit_ok (some completed) = if exit_ok then ended completed else ended failed
  verdict_of exit_ok (some cancelled) = ended cancelled
  verdict_of exit_ok (some failed) = ended failed

  -- What the state knows of the end.
  abbrev Knows : Option Ending → JobManager → Type 0
  Knows none s = s.saw_terminal_event ≡ false
  Knows (some e) s = (s.saw_terminal_event ≡ true) × (s.phase ≡ ended e)

  cancel-Knows :
      (e : Ending) (o : Option ℕ) (s : JobManager)
      → Knows (some e) s
      → Knows (some e) (cancel_at o s)
  cancel-Knows e none s k = k
  cancel-Knows e (some p) s k = (k.0, ap (λ b. if b then s.phase else Phase.cancelling) k.0 ∙ k.1)

  module _ (pid : ℕ → ℕ) where
    unseen :
        (m : Message) (s : JobManager)
        → s.saw_terminal_event ≡ false
        → handle_event pid m s ≡ apply_event pid m s
    unfolding handle_event
    unseen m s h = ap (λ b. if b then s else apply_event pid m s) h

    seen : (m : Message) (s : JobManager) → s.saw_terminal_event ≡ true → handle_event pid m s ≡ s
    unfolding handle_event
    seen m s h = ap (λ b. if b then s else apply_event pid m s) h

    -- A line that cannot be handled is passed over after the end, and is a failure before it.
    bad_after : (s : JobManager) → s.saw_terminal_event ≡ true → read_line pid bad s ≡ s
    unfolding read_line
    bad_after s h = ap (λ b. if b then s else cancel (handle_event pid (terminal failed) s)) h

    bad_before :
        (s : JobManager)
        → s.saw_terminal_event ≡ false
        → read_line pid bad s ≡ cancel (handle_event pid (terminal failed) s)
    unfolding read_line
    bad_before s h = ap (λ b. if b then s else cancel (handle_event pid (terminal failed) s)) h

    line_after :
        (e : Ending) (l : Line) (s : JobManager)
        → Knows (some e) s
        → Knows (some e) (read_line pid l s)
    unfolding read_line cancel
    line_after e blank s k = k
    line_after e noise s k = k
    line_after e (event m) s k = rw (seen m s k.0) k
    line_after e bad s k = rw (bad_after s k.0) k

    lines_after :
        (e : Ending) (lines : List Line) (s : JobManager)
        → Knows (some e) s
        → Knows (some e) (read_lines pid lines s)
    unfolding read_lines
    lines_after e [] s k = k
    lines_after e (l ∷ lines) s k = lines_after e lines (read_line pid l s) (line_after e l s k)

    line_first :
        (l : Line) (s : JobManager) → Knows none s → Knows (ending_of l) (read_line pid l s)
    unfolding read_line cancel apply_event
    line_first blank s k = k
    line_first noise s k = k
    line_first bad s k =
        let t = handle_event pid (terminal failed) s in
        let kt : Knows (some failed) t = rw (unseen (terminal failed) s k) (refl, refl) in
        rw (bad_before s k) (cancel-Knows failed t.process t kt)
    line_first (event (started g)) s k = rw (unseen (started g) s k) k
    line_first (event (phase n)) s k = rw (unseen (phase n) s k) k
    line_first (event (progress x)) s k = rw (unseen (progress x) s k) k
    line_first (event shown) s k = rw (unseen shown s k) k
    line_first (event (terminal e)) s k = rw (unseen (terminal e) s k) (refl, refl)
    line_first (event unknown) s k = rw (unseen unknown s k) k

    lines_first :
        (lines : List Line) (s : JobManager)
        → Knows none s
        → Knows (first_ending lines) (read_lines pid lines s)
    unfolding read_lines
    lines_first [] s k = k
    lines_first (l ∷ lines) s k =
        go (ending_of l) (line_first l s k) (λ h. lines_first lines (read_line pid l s) h)
      where
        go :
            (o : Option Ending)
            → Knows o (read_line pid l s)
            → (Knows none (read_line pid l s)
                → Knows (first_ending lines) (read_lines pid lines (read_line pid l s)))
            → Knows (or_later o (first_ending lines)) (read_lines pid lines (read_line pid l s))
        go (some e) h later = lines_after e lines (read_line pid l s) h
        go none h later = later h

    if_same :
        (b : Bool) (s t : JobManager) → t.recent ≡ s.recent → (if b then s else t).recent ≡ s.recent
    if_same true s t e = refl
    if_same false s t e = e

    apply_event-recent : (m : Message) (s : JobManager) → (apply_event pid m s).recent ≡ s.recent
    unfolding apply_event
    apply_event-recent (started g) s = refl
    apply_event-recent (phase n) s = refl
    apply_event-recent (progress x) s = refl
    apply_event-recent shown s = refl
    apply_event-recent (terminal e) s = refl
    apply_event-recent unknown s = refl

    handle_event-recent : (m : Message) (s : JobManager) → (handle_event pid m s).recent ≡ s.recent
    unfolding handle_event
    handle_event-recent m s =
        if_same s.saw_terminal_event s (apply_event pid m s) (apply_event-recent m s)

    cancel_at-recent : (o : Option ℕ) (s : JobManager) → (cancel_at o s).recent ≡ s.recent
    cancel_at-recent none s = refl
    cancel_at-recent (some p) s = refl

    read_line-recent : (l : Line) (s : JobManager) → (read_line pid l s).recent ≡ s.recent
    unfolding read_line cancel
    read_line-recent blank s = refl
    read_line-recent noise s = refl
    read_line-recent (event m) s = handle_event-recent m s
    read_line-recent bad s =
        let t = handle_event pid (terminal failed) s in
        if_same s.saw_terminal_event s (cancel t)
          (cancel_at-recent t.process t ∙ handle_event-recent (terminal failed) s)

    read_lines-recent :
        (lines : List Line) (s : JobManager) → (read_lines pid lines s).recent ≡ s.recent
    unfolding read_lines
    read_lines-recent [] s = refl
    read_lines-recent (l ∷ lines) s =
        read_lines-recent lines (read_line pid l s) ∙ read_line-recent l s

    final_phase_lem :
        (o : Option Ending) (exit_ok : Bool) (s : JobManager)
        → Knows o s
        → final_phase s.saw_terminal_event exit_ok s.phase ≡ verdict_of exit_ok o
    unfolding final_phase
    final_phase_lem none exit_ok s k = ap (λ b. final_phase b exit_ok s.phase) k
    final_phase_lem (some completed) true s k =
        ap (λ b. final_phase b true s.phase) k.0 ∙ ap (λ p. final_phase true true p) k.1
    final_phase_lem (some completed) false s k =
        ap (λ b. final_phase b false s.phase) k.0 ∙ ap (λ p. final_phase true false p) k.1
    final_phase_lem (some cancelled) exit_ok s k =
        ap (λ b. final_phase b exit_ok s.phase) k.0 ∙ ap (λ p. final_phase true exit_ok p) k.1
    final_phase_lem (some failed) exit_ok s k =
        ap (λ b. final_phase b exit_ok s.phase) k.0 ∙ ap (λ p. final_phase true exit_ok p) k.1

    and_off : (b : Bool) → (b && false) ≡ false
    and_off true = refl
    and_off false = refl

    -- With a job in a running process that has not yet told its end, and its group gone, a process that
    -- finishes puts the job first among the latest 20, under the status that its remaining output and its
    -- exit give: as the first line that tells an end (or cannot be handled, which is a failure) says, but
    -- failed if none does, or if it said that it was done and then did not exit well.
    pub finished-status :
        (exit_ok : Bool) (lines : List Line) (s : JobManager) (job : Job) (p : ℕ)
        → s.current ≡ some job
        → s.process ≡ some p
        → s.saw_terminal_event ≡ false
        → (finished pid exit_ok false lines s).recent
          ≡ take 20
              (record { job = job; status = verdict_of exit_ok (first_ending lines) } ∷ s.recent)
    unfolding finished drained close kill_worker_group read_stdout
    finished-status exit_ok lines s job p running there unsaid =
        let t = record s { cancel_timer = none } in
        let u = read_at pid s.process lines t in
        let read : u ≡ read_lines pid lines t = ap (λ o. read_at pid o lines t) there in
        let known : Knows (first_ending lines) u = rw read (lines_first lines t unsaid) in
        let kept : u.recent ≡ s.recent = rw read (read_lines-recent lines t) in
        ap (λ o. (finish_at pid o exit_ok false lines s).recent) running
        ∙ ap
            (λ b.
              (if b then kill_worker_group u else close exit_ok job (kill_worker_group u)).recent)
            (and_off (has_group u.worker_group))
        ∙ ap (λ st. take 20 (record { job = job; status = st } ∷ u.recent))
            (final_phase_lem (first_ending lines) exit_ok u known)
        ∙ ap
            (λ r.
              take 20 (record { job = job; status = verdict_of exit_ok (first_ending lines) } ∷ r))
            kept
