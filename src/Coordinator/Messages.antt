-- ===== src/Coordinator/Messages.antt =====
-- Every message that the protocol allows is handled without an error, and keeps the invariant.
use connect4codex.Prelude.{
  ℕ, ◌≡◌, refl, ap, ◌∙◌, false, none, some, List, [], ◌∷◌, Floats, ok, bind-ok, string_eq, get,
  exists, modify, Bool-cases, inl, inr,
}
use mathlib.Core.Path.{subst}
use connect4codex.Config.Training.{TrainingV2Config}
use connect4codex.Manifest.Tables.{Shard, Attempt, int, word, settings, progress}
use connect4codex.Manifest.Statements.{
  same_path, get_state, set_state, configuration, pending_attempt,
}
use connect4codex.Manifest.Invariant.{state_at}
use connect4codex.Coordinator.State.{Component, Coordinator, Event}
use connect4codex.Coordinator.Handlers.{
  Outside, value_of, resized, handle, on_removed, on_effective_batch,
}
use connect4codex.Coordinator.Invariant.{IsSteady, report_lem}
use connect4codex.Coordinator.Shards.{on_shard-IsSteady, steady_lem}
use connect4codex.Coordinator.Verdicts.{on_arena-Settled}
use connect4codex.Coordinator.Candidates.{on_candidate-Submitted, on_candidate-stopping}
use connect4codex.Coordinator.Loop.{handle_all}

module _ ⦃fl : Floats⦄ where
  abbrev HasConfig : Coordinator → Type 0
  HasConfig c =
      (stored : TrainingV2Config) × (get "config" c.manifest.state ≡ some (settings stored))

  -- What the children and the arena keep to.
  abbrev pub Expected : Event → Coordinator → Type 0
  Expected (Event.failed component) c = ⊥
  Expected (Event.shard batch_final live e) c =
      (exists (λ (s : Shard). same_path s.path e.path) c.manifest.shards ≡ false) × HasConfig c
  Expected (Event.self_play_progress live) c = Unit {0}
  Expected (Event.candidate val_loss steps samples fresh_games) c = c.arena_waiting ≡ false
  Expected (Event.arena_progress live) c = Unit {0}
  Expected (Event.arena_result n r) c =
      (row : Attempt) × ((pending_attempt c.manifest ≡ some row) × (row.attempt_n ≡ n))
  Expected (Event.shard_removed n) c = Unit {0}
  Expected (Event.decision_applied fresh_games n) c = Unit {0}
  Expected (Event.model_reloaded n) c = Unit {0}
  Expected (Event.trainer_progress budget fresh_games live) c = Unit {0}
  Expected (Event.effective_batch component n) c = HasConfig c

  module _ (config : TrainingV2Config) (o : Outside) where
    abbrev Goes : Event → Coordinator → Type 0
    Goes e c = (c' : Coordinator) × ((handle config o e c ≡ (ok tt, c')) × IsSteady c')

    resize-Goes :
        (component : Component) (n : ℕ) (c : Coordinator)
        → IsSteady c
        → HasConfig c
        → Goes (Event.effective_batch component n) c
    unfolding handle on_effective_batch configuration
    resize-Goes component n c s (stored, have) =
        let value = settings (resized component n stored) in
        (
          record c { manifest = set_state "config" value c.manifest },
          (
            bind-ok (λ c. value_of (configuration (get_state "config" c.manifest)) c)
                (λ current. modify (λ c. record c {
                  manifest = set_state "config" (settings (resized component n current)) c.manifest;
                }))
                c (ap (λ v. value_of (configuration v) c) (state_at c.manifest "config" have)),
            report_lem "config" value c refl refl refl refl s,
          ),
        )

    candidate-Goes :
        (val_loss : fl.F) (steps samples fresh_games : ℕ) (c : Coordinator)
        → IsSteady c
        → c.arena_waiting ≡ false
        → Goes (Event.candidate val_loss steps samples fresh_games) c
    unfolding handle
    candidate-Goes val_loss steps samples fresh_games c s idle =
        elim (Bool-cases c.stop_requested) [
          | inl stop ↦
              let (c', done) =
                on_candidate-stopping config o val_loss steps samples fresh_games c s idle stop in
              (c', (done.0, done.1.steady))
          | inr going ↦
              let (c', (e, d)) =
                on_candidate-Submitted config o val_loss steps samples fresh_games c s idle going in
              (c', (e, d.steady))
        ]

    -- With the invariant and no override, a message that keeps to the protocol (no failure, a new path
    -- for a shard, a candidate only while no arena is awaited, a result only for the candidate that waits) is
    -- handled without an error, and the invariant holds again.
    pub handle-IsSteady :
        (e : Event) (c : Coordinator)
        → o.override ≡ none
        → IsSteady c
        → Expected e c
        → (c' : Coordinator) × ((handle config o e c ≡ (ok tt, c')) × IsSteady c')
    unfolding handle on_removed
    handle-IsSteady (Event.failed component) c plain s x = elim x [ ]
    handle-IsSteady (Event.shard batch_final live e) c plain s x =
        on_shard-IsSteady config o batch_final live e c x.1.0 s x.0 x.1.1
    handle-IsSteady (Event.self_play_progress live) c plain s x =
        (_, (refl, report_lem "actor_progress" (progress live) c refl refl refl refl s))
    handle-IsSteady (Event.candidate val_loss steps samples fresh_games) c plain s x =
        candidate-Goes val_loss steps samples fresh_games c s x
    handle-IsSteady (Event.arena_progress live) c plain s x =
        (_, (refl, report_lem "arena_progress" (progress live) c refl refl refl refl s))
    handle-IsSteady (Event.arena_result n r) c plain s (row, (p, same)) =
        subst (λ n. Goes (Event.arena_result n r) c) same
          (let (c', (e, d)) = on_arena-Settled config o row r c s p plain in (c', (e, d.steady)))
    handle-IsSteady (Event.shard_removed n) c plain s x = (_, (refl, steady_lem c _ refl refl s))
    handle-IsSteady (Event.decision_applied fresh_games n) c plain s x =
        let d = record c { awaits_trainer = false; trainer_fresh_games = fresh_games } in
        (
          _,
          (
            refl,
            report_lem "trainer_progress"
                (progress (("state", word "ready") ∷ ("champion_attempt", int n) ∷ [])) d refl refl
                refl refl (steady_lem c d refl refl s),
          ),
        )
    handle-IsSteady (Event.model_reloaded n) c plain s x =
        let d = record c { awaits_actor = false } in
        (
          _,
          (
            refl,
            report_lem "actor_progress"
                (progress (("state", word "ready") ∷ ("champion_attempt", int n) ∷ [])) d refl refl
                refl refl (steady_lem c d refl refl s),
          ),
        )
    handle-IsSteady (Event.trainer_progress budget fresh_games live) c plain s x =
        let d = record c { trainer_budget = budget; trainer_fresh_games = fresh_games } in
        (
          _,
          (
            refl,
            report_lem "trainer_progress" (progress live) d refl refl refl refl
                (steady_lem c d refl refl s),
          ),
        )
    handle-IsSteady (Event.effective_batch component n) c plain s x = resize-Goes component n c s x

    -- Each message keeps to the protocol where it arrives.
    abbrev pub Protocol : List Event → Coordinator → Type 0
    Protocol [] c = Unit {0}
    Protocol (e ∷ events) c =
        Expected e c × ((c' : Coordinator) → handle config o e c ≡ (ok tt, c') → Protocol events c')

    -- With the invariant and no override, messages that each keep to the protocol where they arrive are
    -- all handled without an error, in their order, and the invariant holds at the end.
    pub handle_all-IsSteady :
        (events : List Event) (c : Coordinator)
        → o.override ≡ none
        → IsSteady c
        → Protocol events c
        → (c' : Coordinator) × ((handle_all config o events c ≡ (ok tt, c')) × IsSteady c')
    unfolding handle_all
    handle_all-IsSteady [] c plain s x = (c, (refl, s))
    handle_all-IsSteady (e ∷ events) c plain s x =
        let (c1, (done, s1)) = handle-IsSteady e c plain s x.0 in
        let (c2, (rest, s2)) = handle_all-IsSteady events c1 plain s1 (x.1 c1 done) in
        (c2, (bind-ok (handle config o e) (λ u. handle_all config o events) c done ∙ rest, s2))
