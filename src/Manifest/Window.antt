-- ===== src/Manifest/Window.antt =====
-- What `register_shard` leaves of the replay window: the newest shards, within the capacity.
use Prim.Native.String.{String}
use connect4codex.Prelude.{
  ℕ, suc, ◌+◌, ◌-◌, ◌≤◌, ◌<◌, ◌≡◌, refl, ap, sym, ◌∙◌, true, false, some, List, [], ◌∷◌, ◌++◌,
  Floats, ok, get, put, get-put, leb, arith, Bool-cases, inl, inr, string_eq, exists, bind-ok,
  modify, pure, ◌>>=◌, ◌>>◌, sum_by, sum_by-append, not_leb,
}
use connect4codex.Config.Training.{TrainingV2Config}
use connect4codex.Manifest.Invariant.{state_at, commit}
use connect4codex.Manifest.Tables.{Shard, num, settings, Manifest, active_rows, deactivate}
use connect4codex.Manifest.Statements.{
  get_state, set_state, retire, ShardEvent, same_path, insert_shard, configuration, active_shards,
  retire_over, record_shard, load_config, register_shard,
}

-- The shards' keys rise, from k on and below n.
abbrev pub Keyed : ℕ → ℕ → List Shard → Type 0
Keyed k n [] = Unit {0}
Keyed k n (s ∷ rows) = (k ≤ s.shard_id) × (s.shard_id < n) × Keyed (suc s.shard_id) n rows

abbrev pub games_of : List Shard → ℕ
games_of rows = sum_by (λ s. s.games) rows

-- Each of these was over the capacity with what came after it.
abbrev pub Needed : ℕ → List Shard → ℕ → Type 0
Needed capacity [] rest = Unit {0}
Needed capacity (s ∷ rows) rest =
    (capacity < games_of (s ∷ rows) + rest) × Needed capacity rows rest

deactivate_below :
    (j k n : ℕ) (rows : List Shard) → Keyed k n rows → j < k → deactivate j rows ≡ rows
unfolding deactivate
deactivate_below j k n [] f h = refl
deactivate_below j k n (s ∷ rows) f h =
    ground (arith, deactivate_below j (suc s.shard_id) n rows f.2)

active-deactivate :
    (k n : ℕ) (s : Shard) (rest rows : List Shard)
    → Keyed k n rows
    → active_rows rows ≡ s ∷ rest
    → active_rows (deactivate s.shard_id rows) ≡ rest
unfolding active_rows deactivate
active-deactivate k n s rest [] f h = ground arith
active-deactivate k n s rest (t ∷ rows) f h = ground (
  arith,
  active-deactivate (suc t.shard_id) n s rest rows f.2,
  deactivate_below s.shard_id (suc t.shard_id) n rows f.2,
)

deactivate-Keyed : (j k n : ℕ) (rows : List Shard) → Keyed k n rows → Keyed k n (deactivate j rows)
unfolding deactivate
deactivate-Keyed j k n [] f = tt
deactivate-Keyed j k n (s ∷ rows) f = ground (arith, deactivate-Keyed j (suc s.shard_id) n rows f.2)

-- The loop retires the oldest shards, each only while the rest are over the capacity.
pub retire_lem :
    (capacity k n : ℕ) (rows table : List Shard)
    → Keyed k n table
    → active_rows table ≡ rows
    → let (retired, left) = retire capacity (games_of rows) rows table in
      (retired ++ active_rows left ≡ rows)
      × (games_of (active_rows left) ≤ capacity)
      × Keyed k n left
      × Needed capacity retired (games_of (active_rows left))
unfolding retire
retire_lem capacity k n [] table f h = rw h (refl, omega arith, f, tt)
retire_lem capacity k n (s ∷ rows) table f h =
    elim (Bool-cases (leb (games_of (s ∷ rows)) capacity)) [
      | inl e ↦ rw (e, h) (refl, ground (arith, e), f, tt)
      | inr e ↦
          let rest = retire capacity (games_of rows) rows (deactivate s.shard_id table) in
          let (whole, fits, keyed, needed) =
            retire_lem capacity k n rows (deactivate s.shard_id table)
              (deactivate-Keyed s.shard_id k n table f) (active-deactivate k n s rows table f h) in
          let less : s.games + games_of rows - s.games ≡ games_of rows = omega arith in
          let split : games_of rest.0 + games_of (active_rows rest.1) ≡ games_of rows =
            sym (sum_by-append (λ t. t.games) rest.0 (active_rows rest.1)) ∙ ap games_of whole in
          let over = not_leb (games_of (s ∷ rows)) capacity e in
          rw (e, less) (ap (◌∷◌ s) whole, fits, keyed, (omega (arith, over, split), needed))
    ]

append-Keyed :
    (k n : ℕ) (s : Shard) (rows : List Shard)
    → Keyed k n rows
    → k ≤ n
    → s.shard_id ≡ n
    → Keyed k (suc n) (rows ++ s ∷ [])
append-Keyed k n s [] f le e = (omega (arith, e), omega (arith, e), tt)
append-Keyed k n s (t ∷ rows) f le e =
    (f.0, omega (arith, f.1), append-Keyed (suc t.shard_id) n s rows f.2 (omega (arith, f.1)) e)

active-append :
    (s : Shard) (rows : List Shard)
    → s.active ≡ true
    → active_rows (rows ++ s ∷ []) ≡ active_rows rows ++ s ∷ []
unfolding active_rows
active-append s [] e = rw e refl
active-append s (t ∷ rows) e = elim (Bool-cases t.active) [
  | inl a ↦ simp a (ap (◌∷◌ t) (active-append s rows e))
  | inr a ↦ simp a (active-append s rows e)
]

module _ ⦃fl : Floats⦄ where
  -- The row that a shard event becomes.
  abbrev pub new_shard : ShardEvent → String → ℕ → Shard
  new_shard e now n = record {
    shard_id = n;
    path = e.path;
    games = e.games;
    samples = e.samples;
    train_samples = e.train_samples;
    champion_attempt = e.champion_attempt;
    first_game_id = e.first_game_id;
    created_at = now;
    active = true;
  }

  -- The tables once the shard is in.
  abbrev pub inserted : ShardEvent → String → Manifest → Manifest
  inserted e now m = record m {
    shards = m.shards ++ new_shard e now m.next_shard_id ∷ [];
    next_shard_id = suc m.next_shard_id;
    state = put "next_game_id" (num (e.first_game_id + e.games)) m.state;
  }

  abbrev pub trimmed : ℕ → Manifest → List Shard × List Shard
  trimmed capacity m =
      retire capacity (games_of (active_rows m.shards)) (active_rows m.shards) m.shards

  insert_new :
      (e : ShardEvent) (now : String) (m : Manifest)
      → exists (λ (s : Shard). same_path s.path e.path) m.shards ≡ false
      → insert_shard e now m ≡ (
        ok m.next_shard_id,
        record m {
          shards = m.shards ++ new_shard e now m.next_shard_id ∷ [];
          next_shard_id = suc m.next_shard_id;
        },
      )
  unfolding insert_shard
  insert_new e now m fresh = rw fresh refl

  record_lem :
      (e : ShardEvent) (now : String) (m : Manifest)
      → exists (λ (s : Shard). same_path s.path e.path) m.shards ≡ false
      → record_shard e now m ≡ (ok m.next_shard_id, inserted e now m)
  unfolding record_shard set_state
  record_lem e now m fresh = commit _ m (
      bind-ok (insert_shard e now)
        (λ n. modify (set_state "next_game_id" (num (e.first_game_id + e.games))) >> pure n) m
        (insert_new e now m fresh))

  load_lem :
      (e : ShardEvent) (now : String) (m : Manifest) (c : TrainingV2Config)
      → get "config" m.state ≡ some (settings c)
      → load_config (inserted e now m) ≡ (ok c, inserted e now m)
  unfolding configuration load_config
  load_lem e now m c have =
      ap (λ v. (configuration v, inserted e now m))
        (state_at (inserted e now m) "config"
          (get-put "next_game_id" "config" (num (e.first_game_id + e.games)) m.state ∙ have))

  pub register_lem :
      (e : ShardEvent) (now : String) (m : Manifest) (c : TrainingV2Config)
      → exists (λ (s : Shard). same_path s.path e.path) m.shards ≡ false
      → get "config" m.state ≡ some (settings c)
      → let m' = inserted e now m in
        let cut = trimmed c.replay_capacity_games m' in
        register_shard e now m ≡ (ok (m.next_shard_id, cut.0), record m' { shards = cut.1 })
  unfolding register_shard retire_over active_shards
  register_lem e now m c fresh have =
      let m' = inserted e now m in
      bind-ok (record_shard e now) _ m (record_lem e now m fresh)
      ∙ bind-ok load_config
          (λ config.
            retire_over config.replay_capacity_games >>= λ retired. pure (m.next_shard_id, retired))
          m' (load_lem e now m c have)

  -- Once a shard is stored, the shards that were active and the new one are, in this order, those
  -- that were retired and those that are active; the latter fit the configured capacity, and none was
  -- retired that would have fitted. The next game follows the shard's last, and the keys stay in order. It
  -- is for a path that no shard has, in a run with its configuration.
  pub register_shard-window :
      (e : ShardEvent) (now : String) (m : Manifest) (c : TrainingV2Config)
      → Keyed 0 m.next_shard_id m.shards
      → exists (λ (s : Shard). same_path s.path e.path) m.shards ≡ false
      → get "config" m.state ≡ some (settings c)
      → let m' = (register_shard e now m).1 in
        (retired : List Shard) × (((register_shard e now m).0 ≡ ok (m.next_shard_id, retired))
          × (retired ++ active_shards m' ≡ active_shards m ++ new_shard e now m.next_shard_id ∷ [])
          × (games_of (active_shards m') ≤ c.replay_capacity_games)
          × Needed c.replay_capacity_games retired (games_of (active_shards m'))
          × (get_state "next_game_id" m' ≡ num (e.first_game_id + e.games))
          × Keyed 0 m'.next_shard_id m'.shards)
  unfolding active_shards
  register_shard-window e now m c keyed fresh have =
      let m' = inserted e now m in
      let cut = trimmed c.replay_capacity_games m' in
      let new = new_shard e now m.next_shard_id in
      let (whole, fits, ordered, needed) =
        retire_lem c.replay_capacity_games 0 (suc m.next_shard_id) (active_rows m'.shards) m'.shards
          (append-Keyed 0 m.next_shard_id new m.shards keyed (omega arith) refl) refl in
      rw (register_lem e now m c fresh have) (
        cut.0,
        (
          refl,
          whole ∙ active-append new m.shards refl,
          fits,
          needed,
          state_at _ "next_game_id"
              (get-put "next_game_id" "next_game_id" (num (e.first_game_id + e.games)) m.state),
          ordered,
        ),
      )
