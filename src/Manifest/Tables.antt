-- ===== src/Manifest/Tables.antt =====
-- The four tables. A table with an INTEGER PRIMARY KEY is the list of its rows by rising key, so
-- `ORDER BY` that key is the order of the list.
use Prim.Native.String.{String}
use connect4codex.Prelude.{
  ℕ, suc, Bool, true, false, Option, none, some, List, [], ◌∷◌, Dict, Floats, max, ltb, ◌==◌,
  if◌then◌else◌,
}
use connect4codex.Config.Training.{TrainingV2Config}

pub data Status : Type 0 where
  accepted pending rejected interrupted : Status

abbrev pub same_status : Status → Status → Bool
same_status accepted accepted = true
same_status pending pending = true
same_status rejected rejected = true
same_status interrupted interrupted = true
same_status _ _ = false

-- A path below the run's directory, by its parts.
abbrev pub Artifact : Type 0
Artifact = List String

pub record Shard : Type 0 where
  pub shard_id : ℕ
  pub path : Artifact
  pub games : ℕ
  pub samples : ℕ
  pub train_samples : ℕ
  pub champion_attempt : ℕ
  pub first_game_id : ℕ
  pub created_at : String
  pub active : Bool

module _ ⦃fl : Floats⦄ where
  pub record Attempt : Type 0 where
    pub attempt_n : ℕ
    pub status : Status
    pub parent_attempt : Option ℕ
    pub checkpoint_path : Artifact
    pub created_at : String
    pub val_loss : Option fl.F
    pub training_steps : ℕ
    pub training_samples : ℕ
    pub submitted_fresh_games : ℕ

  -- A field of a progress report.
  pub data Field : Type 0 where
    int : ℕ → Field
    real : fl.F → Field
    word : String → Field

  -- What `json.loads` gives for the values that the program stores in `run_state`.
  pub data Value : Type 0 where
    null : Value
    num : ℕ → Value
    float : fl.F → Value
    str : String → Value
    settings : TrainingV2Config → Value
    progress : Dict String Field → Value

  -- The verdict of an arena run, as far as the coordinator reads it.
  pub record ArenaResult : Type 0 where
    pub decision : Status
    pub reason : String
    pub score : fl.F

  -- `next_shard_id` is SQLite's AUTOINCREMENT sequence.
  pub record Manifest : Type 0 where
    pub base_dir : List String
    pub state : Dict String Value
    pub attempts : List Attempt
    pub shards : List Shard
    pub next_shard_id : ℕ
    pub arena_results : Dict ℕ ArenaResult

  -- A new row in its place by key.
  unfoldable pub insert_row : Attempt → List Attempt → List Attempt
  insert_row r [] = r ∷ []
  insert_row r (a ∷ rows) =
      if ltb r.attempt_n a.attempt_n then r ∷ a ∷ rows else a ∷ insert_row r rows

  -- SELECT * FROM attempts WHERE attempt_n = n
  unfoldable pub find_attempt : ℕ → List Attempt → Option Attempt
  find_attempt n [] = none
  find_attempt n (a ∷ rows) = if a.attempt_n == n then some a else find_attempt n rows

  -- UPDATE attempts SET status = st WHERE attempt_n = n
  unfoldable pub set_status : ℕ → Status → List Attempt → List Attempt
  set_status n st [] = []
  set_status n st (a ∷ rows) =
      (if a.attempt_n == n then record a { status = st } else a) ∷ set_status n st rows

  -- SELECT * FROM attempts WHERE status = 'pending' ORDER BY attempt_n LIMIT 1
  unfoldable pub first_pending : List Attempt → Option Attempt
  first_pending [] = none
  first_pending (a ∷ rows) = if same_status a.status pending then some a else first_pending rows

  -- COALESCE(MAX(attempt_n), -1) + 1
  unfoldable pub after_last : List Attempt → ℕ
  after_last [] = 0
  after_last (a ∷ rows) = max (suc a.attempt_n) (after_last rows)

-- SELECT * FROM replay_shards WHERE active = 1 ORDER BY shard_id
unfoldable pub active_rows : List Shard → List Shard
active_rows [] = []
active_rows (s ∷ ss) = let rest = active_rows ss in if s.active then s ∷ rest else rest

-- UPDATE replay_shards SET active = 0 WHERE shard_id = n
unfoldable pub deactivate : ℕ → List Shard → List Shard
deactivate n [] = []
deactivate n (s ∷ ss) =
    (if s.shard_id == n then record s { active = false } else s) ∷ deactivate n ss
