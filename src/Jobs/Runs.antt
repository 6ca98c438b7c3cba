-- ===== src/Jobs/Runs.antt =====
-- Any run of slots.
use Prim.Native.String.{String}
use connect4codex.Prelude.{
  ℕ, ◌≡◌, refl, sym, ◌∙◌, Bool, true, false, Option, none, some, List, [], ◌∷◌, ◌++◌, Floats,
  if◌then◌else◌, arith, All, flat_map,
}
use connect4codex.Jobs.State.{Kind, Job, JobManager, kind_of}
use connect4codex.Jobs.Slots.{
  accept, process_error, checked, submit, shutdown, Slot, on_submit, on_started, on_cancel,
  on_stop_after, on_shutdown, on_next, on_failed_start, on_timer, on_stdout, on_finished, call_slot,
  call_slots, send_request, stop_after,
}
use connect4codex.Jobs.Queue.{
  Same-refl, cancel-Same, kill_if_running-Same, send_at-Same, stop_at-Same, read_stdout-Same,
}
use connect4codex.Jobs.Order.{
  IsTidy, Moves, Same-Moves, Moves-trans, start_next-Moves, accept-Moves, finished-Moves,
  error_at-Moves,
}

abbrev as_list : Option Job → List Job
as_list none = []
as_list (some job) = job ∷ []

module _ ⦃fl : Floats⦄ (pid : ℕ → ℕ) (validated : Kind → String → Option String) where
  -- The jobs that a slot asks for, where its configuration is valid.
  abbrev pub offered : Slot → List Job
  offered (on_submit kind json title id) =
      as_list (checked pid validated (kind_of kind) json title id)
  offered _ = []

  abbrev pub is_shutdown : Slot → Bool
  is_shutdown on_shutdown = true
  is_shutdown _ = false

  idle-Moves : (new : List Job) (s : JobManager) → s.shutting_down ≡ true → Moves new s s
  idle-Moves new s e = record {
    tidy = λ x. x;
    going = λ g. let bad : true ≡ false = sym e ∙ g in ground arith;
    halted = λ h. (h, refl);
  }

  offer-Moves :
      (o : Option Job) (s : JobManager) → s.shutting_down ≡ false → Moves (as_list o) s (accept o s)
  unfolding accept
  offer-Moves none s g = Same-Moves s s (Same-refl s)
  offer-Moves (some job) s g = accept-Moves job s g

  submit-Moves :
      (kind json title : String) (id : ℕ) (s : JobManager)
      → Moves (offered (on_submit kind json title id)) s (submit pid validated kind json title id s)
  unfolding submit
  submit-Moves kind json title id s = go s.shutting_down refl
    where
      go :
          (b : Bool)
          → s.shutting_down ≡ b
          → Moves
              (offered (on_submit kind json title id))
              s
              (if b then s else accept (checked pid validated (kind_of kind) json title id) s)
      go true e = idle-Moves (offered (on_submit kind json title id)) s e
      go false e = offer-Moves (checked pid validated (kind_of kind) json title id) s e

  slot-Moves :
      (a : Slot) (s : JobManager)
      → is_shutdown a ≡ false
      → Moves (offered a) s (call_slot pid validated a s)
  unfolding call_slot send_request stop_after process_error
  slot-Moves (on_submit kind json title id) s e = submit-Moves kind json title id s
  slot-Moves on_started s e = Same-Moves s _ (send_at-Same s.process s.current s)
  slot-Moves on_cancel s e = Same-Moves s _ (cancel-Same s)
  slot-Moves on_stop_after s e = Same-Moves s _ (stop_at-Same s.process s.current s)
  slot-Moves on_shutdown s e = ground arith
  slot-Moves on_next s e = start_next-Moves s
  slot-Moves on_failed_start s e = error_at-Moves pid s.process s
  slot-Moves (on_timer b) s e = Same-Moves s _ (kill_if_running-Same b s)
  slot-Moves (on_stdout lines) s e = Same-Moves s _ (read_stdout-Same pid lines s)
  slot-Moves (on_finished exit_ok group_there lines) s e =
      finished-Moves pid exit_ok group_there lines s

  slots-Moves :
      (slots : List Slot) (s : JobManager)
      → All (λ a. is_shutdown a ≡ false) slots
      → Moves (flat_map offered slots) s (call_slots pid validated slots s)
  unfolding call_slots
  slots-Moves [] s h = Same-Moves s s (Same-refl s)
  slots-Moves (a ∷ slots) s h =
      Moves-trans (offered a) (flat_map offered slots) s (call_slot pid validated a s) _
        (slot-Moves a s h.0) (slots-Moves slots (call_slot pid validated a s) h.1)

  -- From a state with no job and no process, or with the last launched job in the last started process,
  -- slots called in any order but for a shutdown lead to such a state again, and the jobs launched and
  -- then those queued are the earlier ones followed by those submitted with a valid configuration, in order.
  pub call_slots-IsTidy :
      (slots : List Slot) (s : JobManager)
      → IsTidy s
      → s.shutting_down ≡ false
      → All (λ a. is_shutdown a ≡ false) slots
      → let t = call_slots pid validated slots s in
        IsTidy t × (t.launched ++ t.queue ≡ (s.launched ++ s.queue) ++ flat_map offered slots)
  call_slots-IsTidy slots s x g h = let m = slots-Moves slots s h in (m.tidy x, (m.going g).1)

  shut-same :
      (s : JobManager) → let t = shutdown s in (t.shutting_down ≡ true) × (t.launched ≡ s.launched)
  unfolding shutdown
  shut-same s =
      let t = record s { shutting_down = true; queue = [] } in
      let k = cancel-Same t in (k.shutting_same, k.launched_same)

  halted_slot :
      (a : Slot) (s : JobManager)
      → s.shutting_down ≡ true
      → let t = call_slot pid validated a s in (t.shutting_down ≡ true) × (t.launched ≡ s.launched)
  unfolding call_slot
  halted_slot on_shutdown s h = shut-same s
  halted_slot (on_submit kind json title id) s h =
      (slot-Moves (on_submit kind json title id) s refl).halted h
  halted_slot on_started s h = (slot-Moves on_started s refl).halted h
  halted_slot on_cancel s h = (slot-Moves on_cancel s refl).halted h
  halted_slot on_stop_after s h = (slot-Moves on_stop_after s refl).halted h
  halted_slot on_next s h = (slot-Moves on_next s refl).halted h
  halted_slot on_failed_start s h = (slot-Moves on_failed_start s refl).halted h
  halted_slot (on_timer b) s h = (slot-Moves (on_timer b) s refl).halted h
  halted_slot (on_stdout lines) s h = (slot-Moves (on_stdout lines) s refl).halted h
  halted_slot (on_finished exit_ok group_there lines) s h =
      (slot-Moves (on_finished exit_ok group_there lines) s refl).halted h

  halted_slots :
      (slots : List Slot) (s : JobManager)
      → s.shutting_down ≡ true
      → (call_slots pid validated slots s).launched ≡ s.launched
  unfolding call_slots
  halted_slots [] s h = refl
  halted_slots (a ∷ slots) s h =
      let (h', same) = halted_slot a s h in
      halted_slots slots (call_slot pid validated a s) h' ∙ same

  -- After a shutdown, whatever slots are called, no further job is launched.
  pub shutdown-launched :
      (slots : List Slot) (s : JobManager)
      → (call_slots pid validated slots (shutdown s)).launched ≡ s.launched
  shutdown-launched slots s =
      let (h, same) = shut-same s in halted_slots slots (shutdown s) h ∙ same
