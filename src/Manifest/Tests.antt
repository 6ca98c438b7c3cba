-- ===== src/Manifest/Tests.antt =====
-- The manifest's theorems at concrete tables: a run with its first champion, then one with a candidate.
use connect4codex.Prelude.{
  ◌+◌, ◌≤◌, ◌≡◌, refl, true, none, some, List, [], ◌∷◌, ◌++◌, ok, arith, get, put, string_eq,
  nat_eq, if◌then◌else◌, Bool-cases, inl, inr, exists, false, ap,
}
use connect4codex.Prelude.Samples.{hundredths}
use connect4codex.Config.Tests.{defaults}
use connect4codex.Manifest.Tables.{
  accepted, Attempt, Shard, num, settings, ArenaResult, Manifest, find_attempt, first_pending,
  insert_row,
}
use connect4codex.Manifest.Statements.{
  get_state, set_state, insert_attempt, bare_attempt, candidate_row, add_root, next_attempt,
  add_pending_attempt, pending_attempt, champion, is_accepted, decide_attempt, ShardEvent,
  register_shard, active_shards,
}
use connect4codex.Manifest.Rows.{count_status}
use connect4codex.Manifest.Invariant.{Inv, add_pending_attempt-Inv}
use connect4codex.Manifest.Decisions.{decide_attempt-Inv}
use Prim.Native.String.{String}
use text.Mathlib.Text.{◌==◌ as str_eq}
use connect4codex.Manifest.Artifacts.{relative_to, FilePath, relative_artifact, resolve_artifact}
use connect4codex.Manifest.Paths.{IsPlain, relative_artifact-resolve_artifact}
use connect4codex.Manifest.Window.{Keyed, games_of, Needed, new_shard, register_shard-window}

abbrev pub root : Attempt
root = bare_attempt 0 accepted none ("attempts" ∷ "0" ∷ []) "t0"

abbrev pub started : Manifest
started = record {
  base_dir = "run" ∷ [];
  state =
      ("config", settings (record defaults { replay_capacity_games = 40 }))
      ∷ ("accepted_count", num 0)
      ∷ ("champion_attempt", num 0)
      ∷ [];
  attempts = root ∷ [];
  shards = [];
  next_shard_id = 1;
  arena_results = [];
}

pub started-Inv : Inv started
unfolding get find_attempt count_status
started-Inv = record {
  rising = (omega arith, tt);
  leader = 0;
  leader_row = root;
  points = refl;
  found = refl;
  holds = refl;
  tally = 0;
  counted = refl;
  counts = refl;
  one_waits = omega arith;
}

abbrev pub candidate : Attempt
candidate = candidate_row 1 0 ("attempts" ∷ "1" ∷ []) 30 100 6400 200 "t1"

abbrev pub waiting : Manifest
waiting = record started { attempts = root ∷ candidate ∷ [] }

pub waiting-Inv : Inv waiting
unfolding get find_attempt count_status
waiting-Inv = record {
  rising = (omega arith, (omega arith, tt));
  leader = 0;
  leader_row = root;
  points = refl;
  found = refl;
  holds = refl;
  tally = 0;
  counted = refl;
  counts = refl;
  one_waits = omega arith;
}

abbrev pub won : ArenaResult
won = record { decision = accepted; reason = "sprt"; score = 60 }

rooted :
    (add_root ("attempts" ∷ "0" ∷ []) "t0" (record started { attempts = [] })).1.attempts
    ≡ root ∷ []
unfolding add_root insert_attempt find_attempt insert_row set_state put
rooted = refl

pub waits : pending_attempt waiting ≡ some candidate
unfolding pending_attempt first_pending
waits = refl

pub idle : pending_attempt started ≡ none
unfolding pending_attempt first_pending
idle = refl

add_pending_attempt-Inv_example :
    let n = next_attempt started in
    let (r, m') = add_pending_attempt n 0 ("attempts" ∷ "1" ∷ []) 30 100 6400 200 "t1" started in
    (r ≡ ok tt)
    × Inv m'
    × (pending_attempt m' ≡ some (candidate_row n 0 ("attempts" ∷ "1" ∷ []) 30 100 6400 200 "t1"))
add_pending_attempt-Inv_example =
    add_pending_attempt-Inv started 0 ("attempts" ∷ "1" ∷ []) 30 100 6400 200 "t1" started-Inv idle

decide_attempt-Inv_example :
    let (r, m') = decide_attempt 1 won waiting in
    let accept = is_accepted won in
    (r ≡ ok accept)
    × Inv m'
    × (pending_attempt m' ≡ none)
    × (champion m'
        ≡ (if accept then ok (record candidate { status = accepted }) else champion waiting))
    × (get_state "accepted_count" m' ≡ num (if accept then 0 + 1 else 0))
unfolding waiting-Inv
decide_attempt-Inv_example = decide_attempt-Inv waiting candidate won waiting-Inv waits

abbrev old_shard : Shard
old_shard = record {
  shard_id = 1;
  path = "replay" ∷ "1" ∷ [];
  games = 32;
  samples = 600;
  train_samples = 540;
  champion_attempt = 0;
  first_game_id = 0;
  created_at = "t1";
  active = true;
}

abbrev stocked : Manifest
stocked = record started { shards = old_shard ∷ []; next_shard_id = 2 }

abbrev pub arrived : ShardEvent
arrived = record {
  path = "replay" ∷ "2" ∷ [];
  games = 32;
  samples = 610;
  train_samples = 550;
  champion_attempt = 0;
  first_game_id = 32;
}

register_shard-window_example :
    let m' = (register_shard arrived "t2" stocked).1 in
    (retired : List Shard) × (((register_shard arrived "t2" stocked).0 ≡ ok (2, retired))
      × (retired ++ active_shards m' ≡ active_shards stocked ++ new_shard arrived "t2" 2 ∷ [])
      × (games_of (active_shards m') ≤ 40)
      × Needed 40 retired (games_of (active_shards m'))
      × (get_state "next_game_id" m' ≡ num (32 + 32))
      × Keyed 0 m'.next_shard_id m'.shards)
unfolding get
register_shard-window_example =
    register_shard-window arrived "t2" stocked (record defaults { replay_capacity_games = 40 })
      (omega arith, omega arith, tt) refl refl

-- A file system in which a path that is not absolute lies in the folder /run, and has no "..".
abbrev drop_dots : List String → List String
drop_dots [] = []
drop_dots (p ∷ parts) = let rest = drop_dots parts in if str_eq p ".." then rest else p ∷ rest

abbrev resolve_in : FilePath → List String
resolve_in path = if path.absolute then drop_dots path.parts else "run" ∷ drop_dots path.parts

drop_dots-IsPlain : (parts : List String) → IsPlain (drop_dots parts)
drop_dots-IsPlain [] = refl
drop_dots-IsPlain (p ∷ parts) = elim (Bool-cases (str_eq p "..")) [
  | inl dots ↦ rw dots (drop_dots-IsPlain parts)
  | inr plain ↦ rw (plain, exists, plain) (drop_dots-IsPlain parts)
]

drop_dots-same : (parts : List String) → IsPlain parts → drop_dots parts ≡ parts
drop_dots-same [] h = refl
drop_dots-same (p ∷ parts) h = elim (Bool-cases (str_eq p "..")) [
  | inl dots ↦ let bad : true ≡ false = rw (exists, dots) at h in ground arith
  | inr plain ↦ rw plain (ap (λ xs. p ∷ xs) (drop_dots-same parts (rw (exists, plain) at h)))
]

resolve_in-IsPlain : (path : FilePath) → IsPlain (resolve_in path)
resolve_in-IsPlain path = elim (Bool-cases path.absolute) [
  | inl rooted ↦ rw rooted (drop_dots-IsPlain path.parts)
  | inr loose ↦ rw loose (drop_dots-IsPlain path.parts)
]

abbrev model_path : FilePath
model_path = record { absolute = false; parts = "attempts" ∷ "1" ∷ [] }

relative_artifact-resolve_artifact_example :
    IsPlain ("attempts" ∷ "1" ∷ [])
    × ((q : FilePath) × (q.parts ≡ "run" ∷ "attempts" ∷ "1" ∷ [])
        × (resolve_artifact resolve_in ("run" ∷ []) model_path ≡ ok q)
        × (relative_artifact resolve_in ("run" ∷ []) q ≡ ok ("attempts" ∷ "1" ∷ []))
        × (resolve_artifact resolve_in ("run" ∷ []) q ≡ ok q))
unfolding relative_artifact relative_to
relative_artifact-resolve_artifact_example =
    relative_artifact-resolve_artifact resolve_in ("run" ∷ []) refl resolve_in-IsPlain
      (λ parts plain. ap (λ xs. "run" ∷ xs) (drop_dots-same parts plain)) model_path
      ("attempts" ∷ "1" ∷ []) refl
