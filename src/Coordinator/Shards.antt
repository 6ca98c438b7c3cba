-- ===== src/Coordinator/Shards.antt =====
-- A finished shard is stored, shared and shown without an error.
use Prim.Native.String.{String}
use connect4codex.Prelude.{
  ℕ, ◌+◌, ◌≡◌, refl, ap, sym, ◌∙◌, Bool, true, false, not, some, List, [], ◌∷◌, ◌++◌, Dict, Floats,
  ok, bind-ok, string_eq, get, get-put, exists, pure,
}
use connect4codex.Config.Training.{TrainingV2Config}
use connect4codex.Manifest.Tables.{Shard, Field, num, settings, progress, Manifest}
use connect4codex.Manifest.Statements.{
  ShardEvent, same_path, champion, register_shard, pending_attempt,
}
use connect4codex.Manifest.Invariant.{champion-Inv}
use connect4codex.Manifest.Window.{register_lem, inserted, trimmed}
use connect4codex.Manifest.Kept.{Kept, Kept-Inv, Kept-pending, get_state-cong}
use connect4codex.Coordinator.State.{Coordinator, call, lifted, note, add_shard}
use connect4codex.Coordinator.Learner.{is_some}
use connect4codex.Coordinator.Handlers.{
  Outside, value_of, retire_later, show_shard, share_shard, on_shard,
}
use connect4codex.Coordinator.Invariant.{IsSteady, IsReadable-same, report_lem}

module _ ⦃fl : Floats⦄ where
  -- The invariant reads only the manifest and one flag.
  pub steady_lem :
      (c d : Coordinator)
      → d.manifest ≡ c.manifest
      → d.arena_waiting ≡ c.arena_waiting
      → IsSteady c
      → IsSteady d
  steady_lem c d m a s = record {
    manifest_inv = rw m s.manifest_inv;
    arena_matches = a ∙ s.arena_matches ∙ sym (ap (λ x. is_some (pending_attempt x)) m);
    readable = rw m s.readable;
  }

  retire_later-same :
      (rows : List Shard) (c : Coordinator)
      → ((retire_later rows c).manifest ≡ c.manifest)
        × ((retire_later rows c).arena_waiting ≡ c.arena_waiting)
  retire_later-same [] c = (refl, refl)
  retire_later-same (s ∷ rows) c = retire_later-same rows _

  -- The manifest after a shard.
  abbrev stored_in : ShardEvent → String → ℕ → Manifest → Manifest
  stored_in e now capacity m =
      let m' = inserted e now m in record m' { shards = (trimmed capacity m').1 }

  stored_in-Kept :
      (e : ShardEvent) (now : String) (capacity : ℕ) (m : Manifest)
      → Kept m (stored_in e now capacity m)
  stored_in-Kept e now capacity m = record {
    attempts_same = refl;
    leader_same =
        get-put "next_game_id" "champion_attempt" (num (e.first_game_id + e.games)) m.state;
    count_same = get-put "next_game_id" "accepted_count" (num (e.first_game_id + e.games)) m.state;
  }

  module _ (config : TrainingV2Config) (o : Outside) where
    show_shard-IsSteady :
        (batch_final : Bool) (live : Dict String Field) (c : Coordinator)
        → IsSteady c
        → (c' : Coordinator) × ((show_shard config o batch_final live c ≡ (ok tt, c'))
            × IsSteady c')
    unfolding show_shard
    show_shard-IsSteady true live c s =
        let e = champion-Inv c.manifest s.manifest_inv in
        (
          _,
          (
            bind-ok (λ c. value_of (champion c.manifest) c) (λ x. note "actor_progress" live) c
                (ap (λ q. value_of q c) e),
            report_lem "actor_progress" (progress live) c refl refl refl refl s,
          ),
        )
    show_shard-IsSteady false live c s =
        let e = champion-Inv c.manifest s.manifest_inv in
        (
          c,
          (
            bind-ok (λ c. value_of (champion c.manifest) c) (λ x. pure tt) c
                (ap (λ q. value_of q c) e),
            s,
          ),
        )

    pub on_shard-IsSteady :
        (batch_final : Bool) (live : Dict String Field) (e : ShardEvent) (c : Coordinator)
        (stored : TrainingV2Config)
        → IsSteady c
        → exists (λ (s : Shard). same_path s.path e.path) c.manifest.shards ≡ false
        → get "config" c.manifest.state ≡ some (settings stored)
        → (c' : Coordinator) × ((on_shard config o batch_final live e c ≡ (ok tt, c'))
            × IsSteady c')
    unfolding on_shard share_shard call
    on_shard-IsSteady batch_final live e c stored s unused have =
        let m = stored_in e o.now stored.replay_capacity_games c.manifest in
        let rows = (trimmed stored.replay_capacity_games (inserted e o.now c.manifest)).0 in
        let done = register_lem e o.now c.manifest stored unused have in
        let c1 = record c {
          actor_busy = not batch_final;
          trainer_budget =
              c.trainer_budget + fl.round (fl.mul (fl.of_ℕ e.train_samples) config.replay_ratio);
        } in
        let c2 = record c1 {
          manifest = m;
          trainer_commands = c.trainer_commands ++ add_shard c.manifest.next_shard_id e ∷ [];
        } in
        let k = stored_in-Kept e o.now stored.replay_capacity_games c.manifest in
        let other = λ (j : String) (q : get j m.state ≡ get j c.manifest.state).
          get_state-cong j c.manifest m q in
        let steady : IsSteady c2 = record {
          manifest_inv = Kept-Inv c.manifest m k s.manifest_inv;
          arena_matches = s.arena_matches ∙ sym (ap is_some (Kept-pending c.manifest m k));
          readable =
              IsReadable-same c.manifest m
                (other "learner_incumbent_attempt" (
                  get-put "next_game_id" "learner_incumbent_attempt"
                    (num (e.first_game_id + e.games)) c.manifest.state))
                (other "learner_incumbent_score" (
                  get-put "next_game_id" "learner_incumbent_score" (num (e.first_game_id + e.games))
                    c.manifest.state))
                s.readable;
        } in
        let (same, flag) = retire_later-same rows c2 in
        let (c', (shown, last)) =
          show_shard-IsSteady batch_final live (retire_later rows c2)
            (steady_lem c2 (retire_later rows c2) same flag steady) in
        (
          c',
          (
            bind-ok (call (register_shard e o.now)) (λ x. share_shard config o batch_final live e x)
                  c1 (ap (λ q. lifted c1 q) done)
                ∙ shown,
            last,
          ),
        )
