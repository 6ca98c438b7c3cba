-- ===== src/Coordinator/Candidates.antt =====
-- What the coordinator does with a candidate that the trainer submits.
use Prim.Native.String.{String}
use connect4codex.Prelude.{
  ℕ, ◌≢◌, ◌==◌, ◌≡◌, refl, ap, sym, ◌∙◌, true, false, Option, none, some, [], ◌∷◌, ◌++◌, Floats, ok,
  if◌then◌else◌, bind-ok, ◌>>=◌, gets, string_eq, arith,
}
use connect4codex.Config.Training.{TrainingV2Config}
use connect4codex.Manifest.Tables.{Attempt, interrupted, find_attempt, progress, int, word}
use connect4codex.Manifest.Statements.{
  set_state, champion, next_attempt, pending_attempt, candidate_row, add_pending_attempt,
  add_interrupted_attempt, bare_attempt,
}
use connect4codex.Manifest.Invariant.{
  champion-Inv, add_pending_attempt-Inv, add_interrupted_attempt-Inv, stored_interrupted,
  next_absent,
}
use connect4codex.Manifest.Kept.{
  Kept-pending, set_state-Kept, get_state-add_pending_attempt, get_state-add_interrupted_attempt,
}
use connect4codex.Coordinator.State.{Coordinator, arena, call}
use connect4codex.Coordinator.Learner.{is_some}
use connect4codex.Coordinator.Handlers.{
  Outside, attempt_path, value_of, start_arena, submit, interrupt, on_candidate,
}
use connect4codex.Coordinator.Invariant.{IsSteady, IsReadable-same, report_lem}
use connect4codex.Coordinator.Steps.{call-ok}

none_waiting : {A : Type 0} (q : Option A) → is_some q ≡ false → q ≡ none
none_waiting none e = refl
none_waiting (some a) e = ground arith

module _ ⦃fl : Floats⦄ where
  module _ (config : TrainingV2Config) (o : Outside) (val_loss : fl.F)
      (steps samples fresh_games : ℕ) where
    -- A candidate as the manifest stores it.
    abbrev pub submitted : Coordinator → Attempt → Attempt
    submitted c leader =
        let n = next_attempt c.manifest in
        candidate_row n leader.attempt_n (attempt_path o n) val_loss steps samples fresh_games o.now

    reach :
        (c : Coordinator) (leader : Attempt)
        → champion c.manifest ≡ ok leader
        → let n = next_attempt c.manifest in
          on_candidate config o val_loss steps samples fresh_games c
          ≡ (if c.stop_requested
                then interrupt config o n leader
                else submit config o val_loss steps samples fresh_games n leader)
              c
    unfolding on_candidate
    reach c leader e =
        let n = next_attempt c.manifest in
        bind-ok (λ c. value_of (champion c.manifest) c)
          (λ leader. gets (λ c. c.stop_requested) >>= λ stopping.
            if stopping
            then interrupt config o n leader
            else submit config o val_loss steps samples fresh_games n leader)
          c (ap (λ q. value_of q c) e)

    submit-ok :
        (c : Coordinator) (n : ℕ) (leader row : Attempt)
        → let r =
            add_pending_attempt n leader.attempt_n
              (attempt_path o n)
              val_loss
              steps
              samples
              fresh_games
              o.now
              c.manifest in
          (r.0 ≡ ok tt)
          → (pending_attempt r.1 ≡ some row)
          → submit config o val_loss steps samples fresh_games n leader c
            ≡ start_arena config o n steps leader (some row) (record c { manifest = r.1 })
    unfolding submit
    submit-ok c n leader row e p =
        let add =
          add_pending_attempt n leader.attempt_n (attempt_path o n) val_loss steps samples
            fresh_games o.now in
        let d = record c { manifest = (add c.manifest).1 } in
        bind-ok (call add)
          (λ x. gets (λ c. pending_attempt c.manifest) >>= start_arena config o n steps leader) c
          (call-ok add c e)
        ∙ ap (λ q. start_arena config o n steps leader q d) p

    -- A candidate on its way to the arena, from one state to the next.
    pub record Submitted (c c' : Coordinator) : Type 0 where
      pub steady : IsSteady c'
      pub waiting : c'.arena_waiting ≡ true
      pub leader : Attempt
      pub leads : champion c.manifest ≡ ok leader
      pub queued : pending_attempt c'.manifest ≡ some (submitted c leader)
      pub told_actor :
          c'.actor_commands ≡ c.actor_commands ++ arena leader (submitted c leader) ∷ []

    -- With the invariant, no arena awaited and no stop requested, a submitted candidate is stored under a
    -- new number without an error. It is then the one that waits, the invariant holds, and the actor
    -- is told to play it against the champion.
    pub on_candidate-Submitted :
        (c : Coordinator)
        → IsSteady c
        → c.arena_waiting ≡ false
        → c.stop_requested ≡ false
        → (c' : Coordinator) × ((on_candidate config o val_loss steps samples fresh_games c
              ≡ (ok tt, c'))
            × Submitted c c')
    unfolding start_arena
    on_candidate-Submitted c s idle going =
        let v = s.manifest_inv in
        let leader = v.leader_row in
        let leads = champion-Inv c.manifest v in
        let n = next_attempt c.manifest in
        let row = submitted c leader in
        let none_yet = none_waiting (pending_attempt c.manifest) (sym s.arena_matches ∙ idle) in
        let (done, v', queued) =
          add_pending_attempt-Inv c.manifest leader.attempt_n (attempt_path o n) val_loss steps
            samples fresh_games o.now v none_yet in
        let add =
          add_pending_attempt n leader.attempt_n (attempt_path o n) val_loss steps samples
            fresh_games o.now in
        let d = record c { manifest = (add c.manifest).1; arena_waiting = true } in
        let same = λ (j : String).
          get_state-add_pending_attempt j n leader.attempt_n (attempt_path o n) val_loss steps
            samples fresh_games o.now c.manifest in
        let steady : IsSteady d = record {
          manifest_inv = v';
          arena_matches = sym (ap is_some queued);
          readable =
              IsReadable-same c.manifest d.manifest (same "learner_incumbent_attempt")
                (same "learner_incumbent_score") s.readable;
        } in
        let first = progress (("state", word "waiting_for_arena") ∷ ("steps", int steps) ∷ []) in
        let second = progress (("state", word "running") ∷ ("attempt", int n) ∷ []) in
        let steady1 = report_lem "trainer_progress" first d refl refl refl refl steady in
        let d1 = record d { manifest = set_state "trainer_progress" first d.manifest } in
        let steady2 = report_lem "arena_progress" second d1 refl refl refl refl steady1 in
        (
          (start_arena config o n steps leader (some row)
              (record c { manifest = (add c.manifest).1 })).1,
          (
            reach c leader leads
                ∙ ap
                    (λ b.
                      (if b
                          then interrupt config o n leader
                          else submit config o val_loss steps samples fresh_games n leader)
                        c)
                    going
                ∙ submit-ok c n leader row done queued,
            record {
              steady = record {
                manifest_inv = steady2.manifest_inv;
                arena_matches = steady2.arena_matches;
                readable = steady2.readable;
              };
              waiting = refl;
              leader = leader;
              leads = leads;
              queued =
                  Kept-pending d1.manifest (set_state "arena_progress" second d1.manifest)
                    (set_state-Kept "arena_progress" second d1.manifest refl refl)
                  ∙ Kept-pending d.manifest d1.manifest
                      (set_state-Kept "trainer_progress" first d.manifest refl refl)
                  ∙ queued;
              told_actor = refl;
            },
          ),
        )

    -- The new row of a candidate that a stop interrupts, and the old rows.
    pub record Interrupted (c c' : Coordinator) : Type 0 where
      pub steady : IsSteady c'
      pub none_waits : pending_attempt c'.manifest ≡ none
      pub same_leader : champion c'.manifest ≡ champion c.manifest
      pub leader : Attempt
      pub leads : champion c.manifest ≡ ok leader
      pub row : Attempt
      pub stored : find_attempt (next_attempt c.manifest) c'.manifest.attempts ≡ some row
      pub numbered : row.attempt_n ≡ next_attempt c.manifest
      pub status : row.status ≡ interrupted
      pub descends : row.parent_attempt ≡ some leader.attempt_n
      pub weights : row.checkpoint_path ≡ attempt_path o (next_attempt c.manifest)
      pub free_number : find_attempt (next_attempt c.manifest) c.manifest.attempts ≡ none
      pub others_same :
          (j : ℕ)
          → j ≢ next_attempt c.manifest
          → find_attempt j c'.manifest.attempts ≡ find_attempt j c.manifest.attempts
      pub told_no_actor : c'.actor_commands ≡ c.actor_commands
      pub told_no_trainer : c'.trainer_commands ≡ c.trainer_commands

    -- With the invariant, no arena awaited and a stop requested, the candidate is stored without an error
    -- under a new number, as interrupted, with the champion as its parent and the path of its weights;
    -- no other row changes, none waits, the invariant holds, the champion stays and no child is told
    -- anything.
    pub on_candidate-stopping :
        (c : Coordinator)
        → IsSteady c
        → c.arena_waiting ≡ false
        → c.stop_requested ≡ true
        → (c' : Coordinator) × ((on_candidate config o val_loss steps samples fresh_games c
              ≡ (ok tt, c'))
            × Interrupted c c')
    unfolding interrupt
    on_candidate-stopping c s idle stopping =
        let v = s.manifest_inv in
        let leader = v.leader_row in
        let n = next_attempt c.manifest in
        let add = add_interrupted_attempt n leader.attempt_n (attempt_path o n) o.now in
        let (done, v', same_leader, same_pending) =
          add_interrupted_attempt-Inv c.manifest leader.attempt_n (attempt_path o n) o.now v in
        let same = λ (j : String).
          get_state-add_interrupted_attempt j n leader.attempt_n (attempt_path o n) o.now
            c.manifest in
        let found = stored_interrupted c.manifest leader.attempt_n (attempt_path o n) o.now in
        let none_yet = none_waiting (pending_attempt c.manifest) (sym s.arena_matches ∙ idle) in
        let none_now = same_pending ∙ none_yet in
        let own : (n == n) ≡ true = ground arith in
        (
          record c { manifest = (add c.manifest).1 },
          (
            reach c leader (champion-Inv c.manifest v)
                ∙ ap
                    (λ b.
                      (if b
                          then interrupt config o n leader
                          else submit config o val_loss steps samples fresh_games n leader)
                        c)
                    stopping
                ∙ call-ok add c done,
            record {
              steady = record {
                manifest_inv = v';
                arena_matches = idle ∙ sym (ap is_some none_now);
                readable =
                    IsReadable-same c.manifest (add c.manifest).1 (same "learner_incumbent_attempt")
                      (same "learner_incumbent_score") s.readable;
              };
              none_waits = none_now;
              same_leader = same_leader;
              leader = leader;
              leads = champion-Inv c.manifest v;
              row = bare_attempt n interrupted (some leader.attempt_n) (attempt_path o n) o.now;
              stored = found n ∙ rw own refl;
              numbered = refl;
              status = refl;
              descends = refl;
              weights = refl;
              free_number = next_absent c.manifest;
              others_same = λ j other.
                  let differ : (n == j) ≡ false = ground arith in found j ∙ rw differ refl;
              told_no_actor = refl;
              told_no_trainer = refl;
            },
          ),
        )
