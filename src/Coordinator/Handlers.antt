-- ===== src/Coordinator/Handlers.antt =====
-- What the coordinator does on each message from its children.
use Prim.Native.String.{String}
use connect4codex.Prelude.{
  ℕ, suc, ◌+◌, Bool, true, false, not, ◌||◌, Option, none, some, List, [], ◌∷◌, ◌++◌, Dict, Floats,
  Result, ok, err, ◌>>=◌, ◌>>◌, pure, raise, gets, modify, leb, ◌==◌, if◌then◌else◌, get, put,
  remove, nat_eq, string_eq,
}
use connect4codex.Config.Training.{TrainingV2Config}
use connect4codex.Manifest.Tables.{
  Status, accepted, Artifact, Shard, Attempt, Field, int, real, word, Value, settings, ArenaResult,
}
use connect4codex.Manifest.Statements.{
  Fault, ShardEvent, get_state, set_state, state_number, configuration, register_shard,
  next_attempt, champion, accepted_models, add_pending_attempt, add_interrupted_attempt,
  pending_attempt, decide_attempt,
}
use connect4codex.Coordinator.State.{
  Component, actor, trainer, store, child_failed, no_match, bad_override, no_pending, arena, reload,
  add_shard, remove_shard, decision, Event, Coordinator, Act, call, note, send_actor,
}
use connect4codex.Coordinator.Learner.{
  stored_score, stored_attempt, incumbent_file, after_rejection, settle, set_incumbent,
  prune_rejected,
}

module _ ⦃fl : Floats⦄ where
  -- What the process outside decides: the callbacks, the clock, the names of attempts' folders, and
  -- which weights are on the disk.
  pub record Outside : Type 0 where
    pub should_stop : ℕ → Bool
    pub override : Option (ArenaResult → Option Status)
    pub now : String
    pub folder : ℕ → String
    pub is_file : Artifact → Bool

  abbrev pub attempt_path : Outside → ℕ → Artifact
  attempt_path o n = "attempts" ∷ o.folder n ∷ "model.pt" ∷ []

  -- A result of a manifest's column or state, in the coordinator.
  abbrev pub value_of : {A : Type 0} → Result Fault A → Act A
  value_of (ok a) s = (ok a, s)
  value_of (err e) s = (err (store e), s)

  abbrev pub retire_later : List Shard → Coordinator → Coordinator
  retire_later [] c = c
  retire_later (s ∷ rest) c = retire_later rest (record c {
    pending_deletions = put s.shard_id s.path c.pending_deletions;
    trainer_commands = c.trainer_commands ++ remove_shard s.shard_id ∷ [];
  })

  abbrev pub overruled : Option (ArenaResult → Option Status) → ArenaResult → Option ArenaResult
  overruled none r = some r
  overruled (some f) r = elim (f r) [
    | none ↦ none
    | some d ↦ some (record r { decision = d; reason = "injected_test_decision" })
  ]

  abbrev pub reaches : ℕ → Option ℕ → Bool
  reaches n none = false
  reaches n (some limit) = leb limit n

  abbrev pub label : Status → String
  label accepted = "accepted"
  label _ = "rejected"

  abbrev unlink : Option Artifact → List Artifact → List Artifact
  unlink none gone = gone
  unlink (some path) gone = gone ++ path ∷ []

  abbrev pub resized : Component → ℕ → TrainingV2Config → TrainingV2Config
  resized actor n c = record c { inference_batch_size = n }
  resized trainer n c = record c { training_batch_size = n }

  module _ (config : TrainingV2Config) (o : Outside) where
    -- `manifest.status()` reads the champion.
    unfoldable pub show_shard : Bool → Dict String Field → Act (Unit {0})
    show_shard batch_final live = do
      leader ← (λ c. value_of (champion c.manifest) c)
      (if batch_final then note "actor_progress" live else pure tt)

    unfoldable pub share_shard :
        Bool → Dict String Field → ShardEvent → ℕ × List Shard → Act (Unit {0})
    share_shard batch_final live e stored =
        modify (λ c.
          retire_later stored.1
            (record c { trainer_commands = c.trainer_commands ++ add_shard stored.0 e ∷ [] }))
        >> show_shard batch_final live

    unfoldable pub on_shard : Bool → Dict String Field → ShardEvent → Act (Unit {0})
    on_shard batch_final live e = do
      modify (λ c. record c {
        actor_busy = not batch_final;
        trainer_budget =
            c.trainer_budget + fl.round (fl.mul (fl.of_ℕ e.train_samples) config.replay_ratio);
      })
      stored ← call (register_shard e o.now)
      share_shard batch_final live e stored

    unfoldable pub start_arena : ℕ → ℕ → Attempt → Option Attempt → Act (Unit {0})
    start_arena n steps leader none = raise no_pending
    start_arena n steps leader (some row) = do
      modify (λ c. record c { arena_waiting = true })
      note "trainer_progress" (("state", word "waiting_for_arena") ∷ ("steps", int steps) ∷ [])
      note "arena_progress" (("state", word "running") ∷ ("attempt", int n) ∷ [])
      send_actor (arena leader row)

    unfoldable pub submit : fl.F → ℕ → ℕ → ℕ → ℕ → Attempt → Act (Unit {0})
    submit val_loss steps samples fresh_games n leader =
        call (
          add_pending_attempt n leader.attempt_n (attempt_path o n) val_loss steps samples
            fresh_games o.now)
        >> (gets (λ c. pending_attempt c.manifest) >>= start_arena n steps leader)

    unfoldable pub interrupt : ℕ → Attempt → Act (Unit {0})
    interrupt n leader = call (add_interrupted_attempt n leader.attempt_n (attempt_path o n) o.now)

    -- The weights are in the attempt's folder by now.
    unfoldable pub on_candidate : fl.F → ℕ → ℕ → ℕ → Act (Unit {0})
    on_candidate val_loss steps samples fresh_games = do
      n ← gets (λ c. next_attempt c.manifest)
      leader ← (λ c. value_of (champion c.manifest) c)
      stopping ← gets (λ c. c.stop_requested)
      (if stopping then interrupt n leader else submit val_loss steps samples fresh_games n leader)

    unfoldable pub stop_after : ℕ → ℕ → Bool
    stop_after decisions count =
        o.should_stop decisions
        || reaches count config.max_gens
        || reaches decisions config.max_candidate_attempts

    unfoldable pub settle_on :
        fl.F → Attempt → Attempt → Option ℕ → Option fl.F → Act (Artifact × Option ℕ)
    settle_on score candidate leader n old c =
        let file = incumbent_file o.is_file c.manifest.attempts n in
        let choice = after_rejection config.learner_incumbent_min_score score old file in
        let done = settle choice score candidate leader c.manifest in
        (ok done.0, record c { manifest = done.1 })

    -- What the learner goes on from, written to the manifest.
    unfoldable pub choose_learner : Bool → fl.F → Attempt → Attempt → Act (Artifact × Option ℕ)
    choose_learner true score candidate leader = (λ c. (
      ok (leader.checkpoint_path, none),
      record c { manifest = set_incumbent Value.null Value.null c.manifest },
    ))
    choose_learner false score candidate leader = (do
      n ← (λ c. value_of (stored_attempt (get_state "learner_incumbent_attempt" c.manifest)) c)
      old ← (λ c. value_of (stored_score (get_state "learner_incumbent_score" c.manifest)) c)
      settle_on score candidate leader n old)

    -- The two commands that follow a verdict, and the weights that go.
    unfoldable pub finish : Artifact × Option ℕ → Attempt → List Attempt → Act (Unit {0})
    finish learner current archives = modify (λ c. record c {
      actor_commands = c.actor_commands ++ reload current archives ∷ [];
      awaits_actor = true;
      awaits_trainer = true;
      deleted = c.deleted ++ prune_rejected config.rejected_weight_retention learner.1 c.manifest;
    })

    unfoldable pub announce : Attempt → Bool → Attempt → Artifact × Option ℕ → Act (Unit {0})
    announce row accept leader learner = do
      modify (λ c. record c {
        trainer_commands =
            c.trainer_commands
            ++ decision accept leader.attempt_n learner.0 (get_state "accepted_count" c.manifest)
                row.submitted_fresh_games c.stop_requested
              ∷ [];
      })
      current ← (λ c. value_of (champion c.manifest) c)
      archives ← (λ c. value_of (accepted_models config.archive_depth c.manifest) c)
      finish learner current archives

    unfoldable pub teach : Attempt → ArenaResult → Bool → ℕ → Act (Unit {0})
    teach row r accept count = do
      modify (λ c. record c { stop_requested = stop_after c.candidate_decisions count })
      note "arena_progress" (
          ("state", word (label r.decision))
          ∷ ("attempt", int row.attempt_n)
          ∷ ("score", real r.score)
          ∷ [])
      leader ← (λ c. value_of (champion c.manifest) c)
      learner ← choose_learner accept r.score row leader
      announce row accept leader learner

    unfoldable pub count_decision : Attempt → ArenaResult → Bool → Act (Unit {0})
    count_decision row r accept = do
      modify (λ c. record c { candidate_decisions = suc c.candidate_decisions })
      count ← (λ c. value_of (state_number 0 (get_state "accepted_count" c.manifest)) c)
      teach row r accept count

    -- The verdict for the candidate that waits.
    unfoldable pub conclude : Attempt → ArenaResult → Act (Unit {0})
    conclude row r = call (decide_attempt row.attempt_n r) >>= λ accept. count_decision row r accept

    unfoldable pub match_pending : ℕ → ArenaResult → Option Attempt → Act (Unit {0})
    match_pending n r none = raise no_match
    match_pending n r (some row) = if row.attempt_n == n then conclude row r else raise no_match

    unfoldable pub with_result : ℕ → Option ArenaResult → Act (Unit {0})
    with_result n none = raise bad_override
    with_result n (some r) = gets (λ c. pending_attempt c.manifest) >>= match_pending n r

    unfoldable pub on_arena : ℕ → ArenaResult → Act (Unit {0})
    on_arena n result =
        modify (λ c. record c { actor_busy = false; arena_waiting = false })
        >> with_result n (overruled o.override result)

    unfoldable pub on_removed : ℕ → Act (Unit {0})
    on_removed n = modify (λ c. record c {
      pending_deletions = remove n c.pending_deletions;
      deleted = unlink (get n c.pending_deletions) c.deleted;
    })

    unfoldable pub on_effective_batch : Component → ℕ → Act (Unit {0})
    on_effective_batch component n = do
      current ← (λ c. value_of (configuration (get_state "config" c.manifest)) c)
      modify (λ c. record c {
        manifest = set_state "config" (settings (resized component n current)) c.manifest;
      })

    unfoldable pub handle : Event → Act (Unit {0})
    handle (Event.failed component) = raise child_failed
    handle (Event.shard batch_final live e) = on_shard batch_final live e
    handle (Event.self_play_progress live) = note "actor_progress" live
    handle (Event.candidate val_loss steps samples fresh_games) =
        on_candidate val_loss steps samples fresh_games
    handle (Event.arena_progress live) = note "arena_progress" live
    handle (Event.arena_result n result) = on_arena n result
    handle (Event.shard_removed n) = on_removed n
    handle (Event.decision_applied fresh_games n) = do
      modify (λ c. record c { awaits_trainer = false; trainer_fresh_games = fresh_games })
      note "trainer_progress" (("state", word "ready") ∷ ("champion_attempt", int n) ∷ [])
    handle (Event.model_reloaded n) = do
      modify (λ c. record c { awaits_actor = false })
      note "actor_progress" (("state", word "ready") ∷ ("champion_attempt", int n) ∷ [])
    handle (Event.trainer_progress budget fresh_games live) = do
      modify (λ c. record c { trainer_budget = budget; trainer_fresh_games = fresh_games })
      note "trainer_progress" live
    handle (Event.effective_batch component n) = on_effective_batch component n
