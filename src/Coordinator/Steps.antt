-- ===== src/Coordinator/Steps.antt =====
-- The parts of the arena's handler, one after the other, on values that were read.
use connect4codex.Prelude.{
  ℕ, suc, ◌≡◌, ap, ◌∙◌, Bool, Option, [], ◌∷◌, ◌++◌, Floats, ok, bind-ok, ◌>>=◌,
}
use connect4codex.Config.Training.{TrainingV2Config}
use connect4codex.Manifest.Tables.{
  Artifact, Attempt, Value, progress, int, real, word, ArenaResult, Manifest,
}
use connect4codex.Manifest.Statements.{
  Store, get_state, set_state, state_number, champion, accepted_models, past_champions,
  decide_attempt,
}
use connect4codex.Manifest.Kept.{accepted_models-ok}
use connect4codex.Coordinator.State.{Coordinator, call, lifted, TrainerCommand}
use connect4codex.Coordinator.Handlers.{
  Outside, value_of, choose_learner, finish, announce, teach, count_decision, conclude, stop_after,
  label,
}

module _ ⦃fl : Floats⦄ where
  pub call-ok :
      {A : Type 0} (x : Store A) (c : Coordinator) {a : A}
      → (x c.manifest).0 ≡ ok a
      → call x c ≡ (ok a, record c { manifest = (x c.manifest).1 })
  unfolding call
  call-ok x c e = ap (λ q. lifted c (q, (x c.manifest).1)) e

  -- The decision, as the trainer is told it.
  abbrev pub told : Attempt → Bool → Attempt → Artifact × Option ℕ → Coordinator → TrainerCommand
  told row accept leader learner c =
      TrainerCommand.decision accept leader.attempt_n learner.0
        (get_state "accepted_count" c.manifest) row.submitted_fresh_games c.stop_requested

  abbrev pub told_trainer : TrainerCommand → Coordinator → Coordinator
  told_trainer command c = record c { trainer_commands = c.trainer_commands ++ command ∷ [] }

  abbrev pub verdict_report : Attempt → ArenaResult → Value
  verdict_report row r = progress (
      ("state", word (label r.decision))
      ∷ ("attempt", int row.attempt_n)
      ∷ ("score", real r.score)
      ∷ [])

  module _ (config : TrainingV2Config) (o : Outside) where
    abbrev pub reported : Attempt → ArenaResult → ℕ → Coordinator → Coordinator
    reported row r count c = record c {
      stop_requested = stop_after config o c.candidate_decisions count;
      manifest = set_state "arena_progress" (verdict_report row r) c.manifest;
    }

    pub announce-ok :
        (row : Attempt) (accept : Bool) (leader : Attempt) (learner : Artifact × Option ℕ)
        (c : Coordinator)
        → champion c.manifest ≡ ok leader
        → announce config o row accept leader learner c
          ≡ finish config o learner leader
              (past_champions config.archive_depth leader c.manifest.attempts)
              (told_trainer (told row accept leader learner c) c)
    unfolding announce
    announce-ok row accept leader learner c e =
        let models =
          λ (c : Coordinator). value_of (accepted_models config.archive_depth c.manifest) c in
        let d = told_trainer (told row accept leader learner c) c in
        bind-ok (λ c. value_of (champion c.manifest) c)
          (λ current. models >>= λ archives. finish config o learner current archives) d
          (ap (λ q. value_of q d) e)
        ∙ bind-ok models (λ archives. finish config o learner leader archives) d
            (ap (λ q. value_of q d) (accepted_models-ok config.archive_depth leader c.manifest e))

    pub teach-ok :
        (row : Attempt) (r : ArenaResult) (accept : Bool) (count : ℕ) (c : Coordinator)
        (leader : Attempt) (learner : Artifact × Option ℕ) (m : Manifest)
        → let d = reported row r count c in
          (champion d.manifest ≡ ok leader)
          → (choose_learner config o accept r.score row leader d
              ≡ (ok learner, record d { manifest = m }))
          → teach config o row r accept count c
            ≡ announce config o row accept leader learner (record d { manifest = m })
    unfolding teach
    teach-ok row r accept count c leader learner m e f =
        let d = reported row r count c in
        bind-ok (λ c. value_of (champion c.manifest) c)
          (λ leader. choose_learner config o accept r.score row leader >>= λ learner.
            announce config o row accept leader learner)
          d (ap (λ q. value_of q d) e)
        ∙ bind-ok (choose_learner config o accept r.score row leader)
            (λ learner. announce config o row accept leader learner) d f

    pub count-ok :
        (row : Attempt) (r : ArenaResult) (accept : Bool) (count : ℕ) (c : Coordinator)
        → state_number 0 (get_state "accepted_count" c.manifest) ≡ ok count
        → count_decision config o row r accept c
          ≡ teach config o row r accept count
              (record c { candidate_decisions = suc c.candidate_decisions })
    unfolding count_decision
    count-ok row r accept count c e =
        let d = record c { candidate_decisions = suc c.candidate_decisions } in
        bind-ok (λ c. value_of (state_number 0 (get_state "accepted_count" c.manifest)) c)
          (λ count. teach config o row r accept count) d (ap (λ q. value_of q d) e)

    pub conclude-ok :
        (row : Attempt) (r : ArenaResult) (accept : Bool) (c : Coordinator)
        → (decide_attempt row.attempt_n r c.manifest).0 ≡ ok accept
        → conclude config o row r c
          ≡ count_decision config o row r accept
              (record c { manifest = (decide_attempt row.attempt_n r c.manifest).1 })
    unfolding conclude
    conclude-ok row r accept c e =
        bind-ok (call (decide_attempt row.attempt_n r))
          (λ accept. count_decision config o row r accept) c
          (call-ok (decide_attempt row.attempt_n r) c e)
