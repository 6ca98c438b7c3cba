-- ===== src/Manifest/Statements.antt =====
-- The methods of `RunManifest`. Each is an action on the tables that returns a value or raises; a
-- statement that has run stays in the connection's view when a later one raises, except inside
-- `with self.connection`, which rolls back.
use Prim.Native.String.{String}
use text.Mathlib.Text.{◌==◌ as str_eq}
use mathlib.Core.List.{reverse}
use connect4codex.Prelude.{
  ℕ, zero, suc, ◌+◌, ◌-◌, Bool, true, false, not, ◌&&◌, Option, none, some, List, [], ◌∷◌, ◌++◌,
  Floats, Result, ok, err, Exec, ◌>>=◌, ◌>>◌, pure, gets, modify, leb, ◌==◌, if◌then◌else◌, exists,
  get, put, keep_if, take, sum_by, nat_eq, string_eq,
}
use connect4codex.Config.Training.{TrainingV2Config}
use connect4codex.Manifest.Tables.{
  Status, accepted, pending, rejected, interrupted, same_status, Artifact, Shard, Attempt, Value,
  null, num, settings, ArenaResult, Manifest, insert_row, find_attempt, set_status, first_pending,
  after_last, active_rows, deactivate,
}

pub data Fault : Type 0 where
  integrity no_champion missing_champion no_configuration bad_value : Fault

abbrev pub same_path : Artifact → Artifact → Bool
same_path [] [] = true
same_path [] (q ∷ qs) = false
same_path (p ∷ ps) [] = false
same_path (p ∷ ps) (q ∷ qs) = str_eq p q && same_path ps qs

-- The `for` loop over the active shards, oldest first: what it retires, and the table after it.
unfoldable pub retire : ℕ → ℕ → List Shard → List Shard → List Shard × List Shard
retire capacity total [] table = ([], table)
retire capacity total (s ∷ rows) table =
    let rest = retire capacity (total - s.games) rows (deactivate s.shard_id table) in
    if leb total capacity then ([], table) else (s ∷ rest.0, rest.1)

module _ ⦃fl : Floats⦄ where
  abbrev pub Store : Type 0 → Type 0
  Store A = Exec Manifest Fault A

  -- `with self.connection`: what raises changes nothing.
  unfoldable pub transaction : {A : Type 0} → Store A → Store A
  transaction m s = elim (m s).0 [ ok a ↦ (ok a, (m s).1) | err e ↦ (err e, s) ]

  -- A missing key and a stored null both read as None.
  unfoldable pub get_state : String → Manifest → Value
  get_state key m = elim (get key m.state) [ none ↦ null | some v ↦ v ]

  unfoldable pub set_state : String → Value → Manifest → Manifest
  set_state key v m = record m { state = put key v m.state }

  -- `int(self.get_state(key) or default)`
  unfoldable pub state_number : ℕ → Value → Result Fault ℕ
  state_number default null = ok default
  state_number default (num zero) = ok default
  state_number default (num (suc n)) = ok (suc n)
  state_number default _ = err bad_value

  -- INSERT INTO attempts: the primary key is unique.
  unfoldable pub insert_attempt : Attempt → Store (Unit {0})
  insert_attempt row m = elim (find_attempt row.attempt_n m.attempts) [
    | some _ ↦ (err integrity, m)
    | none ↦ (ok tt, record m { attempts = insert_row row m.attempts })
  ]

  abbrev pub bare_attempt : ℕ → Status → Option ℕ → Artifact → String → Attempt
  bare_attempt n st parent checkpoint now = record {
    attempt_n = n;
    status = st;
    parent_attempt = parent;
    checkpoint_path = checkpoint;
    created_at = now;
    val_loss = none;
    training_steps = 0;
    training_samples = 0;
    submitted_fresh_games = 0;
  }

  unfoldable pub add_root : Artifact → String → Store (Unit {0})
  add_root checkpoint now m = elim m.attempts [
    | a ∷ rows ↦ (ok tt, m)
    | [] ↦
        (do
          insert_attempt (bare_attempt 0 accepted none checkpoint now)
          modify (set_state "champion_attempt" (num 0)))
          m
  ]

  unfoldable pub next_attempt : Manifest → ℕ
  next_attempt m = after_last m.attempts

  abbrev pub candidate_row : ℕ → ℕ → Artifact → fl.F → ℕ → ℕ → ℕ → String → Attempt
  candidate_row n parent checkpoint val_loss steps samples fresh now = record {
    attempt_n = n;
    status = pending;
    parent_attempt = some parent;
    checkpoint_path = checkpoint;
    created_at = now;
    val_loss = some val_loss;
    training_steps = steps;
    training_samples = samples;
    submitted_fresh_games = fresh;
  }

  unfoldable pub add_pending_attempt :
      ℕ → ℕ → Artifact → fl.F → ℕ → ℕ → ℕ → String → Store (Unit {0})
  add_pending_attempt n parent checkpoint val_loss steps samples fresh now =
      insert_attempt (candidate_row n parent checkpoint val_loss steps samples fresh now)

  unfoldable pub add_interrupted_attempt : ℕ → ℕ → Artifact → String → Store (Unit {0})
  add_interrupted_attempt n parent checkpoint now =
      insert_attempt (bare_attempt n interrupted (some parent) checkpoint now)

  unfoldable pub pending_attempt : Manifest → Option Attempt
  pending_attempt m = first_pending m.attempts

  unfoldable pub champion_row : Value → List Attempt → Result Fault Attempt
  champion_row null rows = err no_champion
  champion_row (num n) rows = elim (find_attempt n rows) [
    | some a ↦ ok a
    | none ↦ err missing_champion
  ]
  champion_row _ rows = err missing_champion

  unfoldable pub champion : Manifest → Result Fault Attempt
  champion m = champion_row (get_state "champion_attempt" m) m.attempts

  -- Past champions, the newest first.
  unfoldable pub past_champions : ℕ → Attempt → List Attempt → List Attempt
  past_champions limit c rows = take limit (
      reverse
        (keep_if (λ a. same_status a.status accepted && not (a.attempt_n == c.attempt_n)) rows))

  unfoldable pub accepted_models : ℕ → Manifest → Result Fault (List Attempt)
  accepted_models limit m = elim (champion m) [
    | err e ↦ err e
    | ok c ↦ ok (past_champions limit c m.attempts)
  ]

  unfoldable pub is_accepted : ArenaResult → Bool
  is_accepted r = same_status r.decision accepted

  -- The champion pointer and the count of accepted candidates.
  unfoldable pub promote : ℕ → Store (Unit {0})
  promote n = do
    modify (set_state "champion_attempt" (num n))
    value ← gets (get_state "accepted_count")
    count ← (λ m. (state_number 0 value, m))
    modify (set_state "accepted_count" (num (count + 1)))

  unfoldable pub decide_attempt : ℕ → ArenaResult → Store Bool
  decide_attempt n result =
      let accept = is_accepted result in
      transaction (do
        modify (λ m. record m {
          attempts = set_status n (if accept then accepted else rejected) m.attempts;
        })
        modify (λ m. record m { arena_results = put n result m.arena_results })
        (if accept then promote n else pure tt)
        pure accept)

  -- The fields of a shard event that the manifest stores.
  pub record ShardEvent : Type 0 where
    pub path : Artifact
    pub games : ℕ
    pub samples : ℕ
    pub train_samples : ℕ
    pub champion_attempt : ℕ
    pub first_game_id : ℕ

  unfoldable pub insert_shard : ShardEvent → String → Store ℕ
  insert_shard e now m =
      if exists (λ (s : Shard). same_path s.path e.path) m.shards then (err integrity, m) else (
        ok m.next_shard_id,
        record m {
          shards =
              m.shards
              ++ record {
                shard_id = m.next_shard_id;
                path = e.path;
                games = e.games;
                samples = e.samples;
                train_samples = e.train_samples;
                champion_attempt = e.champion_attempt;
                first_game_id = e.first_game_id;
                created_at = now;
                active = true;
              }
                ∷ [];
          next_shard_id = suc m.next_shard_id;
        },
      )

  unfoldable pub configuration : Value → Result Fault TrainingV2Config
  configuration (settings c) = ok c
  configuration _ = err no_configuration

  unfoldable pub active_shards : Manifest → List Shard
  active_shards m = active_rows m.shards

  unfoldable pub retire_over : ℕ → Store (List Shard)
  retire_over capacity m =
      let (retired, table) =
        retire capacity (sum_by (λ s. s.games) (active_shards m)) (active_shards m) m.shards in
      (ok retired, record m { shards = table })

  -- The `with` block: the row and the next game, or neither.
  unfoldable pub record_shard : ShardEvent → String → Store ℕ
  record_shard e now = transaction (do
    n ← insert_shard e now
    modify (set_state "next_game_id" (num (e.first_game_id + e.games)))
    pure n)

  unfoldable pub load_config : Store TrainingV2Config
  load_config m = (configuration (get_state "config" m), m)

  unfoldable pub register_shard : ShardEvent → String → Store (ℕ × List Shard)
  register_shard e now = do
    shard_id ← record_shard e now
    config ← load_config
    retired ← retire_over config.replay_capacity_games
    pure (shard_id, retired)
