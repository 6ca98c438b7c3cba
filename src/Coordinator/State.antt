-- ===== src/Coordinator/State.antt =====
-- The coordinator's variables, and the messages between it and its two children.
use Prim.Native.String.{String}
use connect4codex.Prelude.{
  ℕ, Bool, List, [], ◌∷◌, ◌++◌, Dict, Floats, Result, ok, err, Exec, modify,
}
use connect4codex.Manifest.Tables.{Artifact, Attempt, Field, Value, progress, ArenaResult, Manifest}
use connect4codex.Manifest.Statements.{Fault, Store, ShardEvent, set_state}

pub data Component : Type 0 where
  actor trainer : Component

pub data Halt : Type 0 where
  store : Fault → Halt
  cancelled child_failed no_match bad_override no_pending child_exited : Halt

module _ ⦃fl : Floats⦄ where
  pub data ActorCommand : Type 0 where
    generate : (champion : Attempt) (archives : List Attempt) (first_game_id : ℕ) → ActorCommand
    arena : (champion candidate : Attempt) → ActorCommand
    reload : (champion : Attempt) (archives : List Attempt) → ActorCommand

  pub data TrainerCommand : Type 0 where
    pending : TrainerCommand
    add_shard : (shard_id : ℕ) → ShardEvent → TrainerCommand
    remove_shard : (shard_id : ℕ) → TrainerCommand
    decision :
        (accepted : Bool) (champion_attempt : ℕ) (learner_path : Artifact) (accepted_count : Value)
        (submitted_fresh_games : ℕ) (pause_after_decision : Bool)
        → TrainerCommand

  -- The fields of a report that is only shown are a dictionary here.
  pub data Event : Type 0 where
    failed : Component → Event
    shard : (batch_final : Bool) (live : Dict String Field) → ShardEvent → Event
    self_play_progress : Dict String Field → Event
    candidate :
        (val_loss : fl.F) (training_steps training_samples submitted_fresh_games : ℕ) → Event
    arena_progress : Dict String Field → Event
    arena_result : (attempt_n : ℕ) → ArenaResult → Event
    shard_removed : (shard_id : ℕ) → Event
    decision_applied : (fresh_games champion_attempt : ℕ) → Event
    model_reloaded : (champion_attempt : ℕ) → Event
    trainer_progress : (sample_budget fresh_games : ℕ) → Dict String Field → Event
    effective_batch : Component → (value : ℕ) → Event

  -- `lifecycle_waiting` is the set of the two flags `awaits_actor` and `awaits_trainer`. The commands and
  -- the deleted files are listed from the first to the last.
  pub record Coordinator : Type 0 where
    pub manifest : Manifest
    pub actor_busy : Bool
    pub arena_waiting : Bool
    pub pending_deletions : Dict ℕ Artifact
    pub paused_for_debt : Bool
    pub trainer_budget : ℕ
    pub trainer_fresh_games : ℕ
    pub average_train_samples : fl.F
    pub stop_requested : Bool
    pub awaits_actor : Bool
    pub awaits_trainer : Bool
    pub candidate_decisions : ℕ
    pub actor_commands : List ActorCommand
    pub trainer_commands : List TrainerCommand
    pub deleted : List Artifact

  abbrev pub Act : Type 0 → Type 0
  Act A = Exec Coordinator Halt A

  abbrev pub lifted :
      {A : Type 0} → Coordinator → Result Fault A × Manifest → Result Halt A × Coordinator
  lifted s (ok a, m) = (ok a, record s { manifest = m })
  lifted s (err e, m) = (err (store e), record s { manifest = m })

  -- A method of the manifest.
  unfoldable pub call : {A : Type 0} → Store A → Act A
  call x s = lifted s (x s.manifest)

  abbrev pub note : String → Dict String Field → Act (Unit {0})
  note key fields = modify (λ s. record s { manifest = set_state key (progress fields) s.manifest })

  abbrev pub send_actor : ActorCommand → Act (Unit {0})
  send_actor c = modify (λ s. record s { actor_commands = s.actor_commands ++ c ∷ [] })

  abbrev pub send_trainer : TrainerCommand → Act (Unit {0})
  send_trainer c = modify (λ s. record s { trainer_commands = s.trainer_commands ++ c ∷ [] })
