-- ===== src/Coordinator/Loop.antt =====
-- The coordinator's loop: its start, and one round of it.
use connect4codex.Prelude.{
  ℕ, Bool, true, false, not, ◌&&◌, ◌||◌, none, some, List, [], ◌∷◌, Floats, ◌>>=◌, ◌>>◌, pure,
  raise, gets, modify, ltb, leb, ◌==◌, if◌then◌else◌, length, sum_by,
}
use connect4codex.Config.Training.{TrainingV2Config}
use connect4codex.Manifest.Tables.{Shard, int, word}
use connect4codex.Manifest.Statements.{
  get_state, state_number, champion, accepted_models, pending_attempt, active_shards,
}
use connect4codex.Coordinator.State.{
  cancelled, child_exited, generate, arena, TrainerCommand, Event, Coordinator, Act, note,
  send_actor, send_trainer,
}
use connect4codex.Coordinator.Handlers.{Outside, value_of, handle}

module _ ⦃fl : Floats⦄ where
  abbrev greater : fl.F → fl.F → fl.F
  greater a b = if fl.lt a b then b else a

  -- Kept when no shard is active.
  unfoldable pub average : fl.F → List Shard → fl.F
  average old rows =
      if length rows == 0
      then old
      else greater (fl.of_ℕ 1)
          (fl.div (fl.of_ℕ (sum_by (λ s. s.train_samples) rows)) (fl.of_ℕ (length rows)))

  abbrev pub awaits_child : Coordinator → Bool
  awaits_child c = c.awaits_actor || c.awaits_trainer

  unfoldable pub is_done : Coordinator → Bool
  is_done c = c.stop_requested && not c.arena_waiting && not (awaits_child c)

  module _ (config : TrainingV2Config) where
    unfoldable pub queue_generation : Act (Unit {0})
    queue_generation = do
      leader ← (λ c. value_of (champion c.manifest) c)
      archives ← (λ c. value_of (accepted_models config.archive_depth c.manifest) c)
      first ← (λ c. value_of (state_number 1 (get_state "next_game_id" c.manifest)) c)
      send_actor (generate leader archives first)
      modify (λ c. record c { actor_busy = true })

    -- Before the loop: a candidate that waits from an earlier run has its arena first.
    unfoldable pub start : Act (Unit {0})
    start = do
      found ← gets (λ c. pending_attempt c.manifest)
      leader ← (λ c. value_of (champion c.manifest) c)
      (elim found [
        | none ↦ queue_generation
        | some row ↦ (do
          note "trainer_progress" (("state", word "waiting_for_arena") ∷ [])
          note "arena_progress" (("state", word "resuming") ∷ ("attempt", int row.attempt_n) ∷ [])
          send_trainer TrainerCommand.pending
          send_actor (arena leader row)
          modify (λ c. record c { actor_busy = true }))
      ])

    -- `debt_shards`
    unfoldable pub debt : ℕ → fl.F → ℕ
    debt budget samples = fl.ceil (fl.div (fl.of_ℕ budget) (fl.mul samples config.replay_ratio))

    -- Self-play pauses at the upper watermark and goes on at the lower one.
    unfoldable pub backpressure : ℕ → Bool → Bool
    backpressure shards paused =
        if leb config.debt_pause_shards shards
        then true
        else if leb shards config.debt_resume_shards
        then false
        else paused

    unfoldable pub balance : Coordinator → Coordinator
    balance c =
        let samples = average c.average_train_samples (active_shards c.manifest) in
        record c {
          average_train_samples = samples;
          paused_for_debt = backpressure (debt c.trainer_budget samples) c.paused_for_debt;
        }

    unfoldable pub may_generate : Coordinator → Bool
    may_generate c =
        not c.actor_busy
        && not c.arena_waiting
        && not c.paused_for_debt
        && ltb c.trainer_fresh_games config.replay_warmup_games
        && not (awaits_child c)
        && not c.stop_requested

    module _ (o : Outside) where
      unfoldable pub handle_all : List Event → Act (Unit {0})
      handle_all [] = pure tt
      handle_all (e ∷ events) = handle config o e >> handle_all events

      -- The end of a round: whether the run is over.
      unfoldable pub proceed : Bool → Act Bool
      proceed alive = do
        done ← gets is_done
        (if done then pure true else (do
          more ← gets may_generate
          (if more then queue_generation else pure tt)
          (if alive then pure false else raise child_exited)))

      -- One round: the messages that have come from the actor, then those from the trainer.
      unfoldable pub round : Bool → List Event → List Event → Bool → Act Bool
      round cancel from_actor from_trainer alive =
          if cancel
          then raise cancelled
          else (do handle_all from_actor; handle_all from_trainer; modify balance; proceed alive)
