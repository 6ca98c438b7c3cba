-- ===== src/Replay/Tests.antt =====
-- The replay theorems on two shards: one game that goes on for two positions, and one file that is gone.
use connect4codex.Prelude.{
  ℕ, suc, ◌+◌, ◌%◌, ◌<◌, ◌≡◌, refl, inl, inr, Bool, true, false, none, some, List, [], ◌∷◌,
  get_elem?, sum_by, Elem, ok, err, ◌==◌, if◌then◌else◌, Bool-cases, arith, get, put, remove,
}
use connect4codex.Manifest.Tables.{Shard}
use connect4codex.Replay.Games.{World, ReplayGame, partition_empty, Pool, path_eq}
use connect4codex.Replay.Pool.{
  load, batch, weighted_choice, draw_index, collect, attempt, choose_shard, draw_row, draw_game,
  turn, flip_coin, window, element, evict, mover,
}
use connect4codex.Replay.Caching.{Coherent, load-used, used}
use connect4codex.Replay.Batches.{IsFair, Kept}
use connect4codex.Replay.Rows.{Batch}
use connect4codex.Replay.Partition.{batch-Batch, batch_barren, IsBarren}
use connect4codex.Replay.Prefetching.{Sized}
use connect4codex.Replay.Prefetcher.{training_batch}
use connect4codex.Replay.Threads.{
  fetch, loader, drop_shard, drop_future, after_all, training_batch-after_all,
}

abbrev pub game : ReplayGame ℕ
game = record { game_id = 7; player0_id = 0; player1_id = 1; samples = 0 ∷ 1 ∷ [] }

abbrev pub first_weighted : List ℕ → ℕ
first_weighted [] = 0
first_weighted (x ∷ xs) = let later = first_weighted xs in if x == 0 then suc later else 0

abbrev pub toy : World
toy = record {
  Sample = ℕ;
  ply = λ s. s % 100;
  flip_h = λ s. s + 100;
  decode = λ path. elim path [ [] ↦ none | _ ∷ _ ↦ some (game ∷ []) ];
  digest = λ seed game_id. 18446744073709551616;
  Rng = ℕ;
  coin = λ g. (g % 2 == 0, g + 1);
  pick = λ ws g. (first_weighted ws, g + 1);
  below = λ n g. (g % n, g + 1);
}

first_weighted_lem :
    (ws : List ℕ)
    → 0 < sum_by (λ x. x) ws
    → (x : ℕ) × ((get_elem? ws (first_weighted ws) ≡ some x) × (0 < x))
first_weighted_lem [] h = absurd (omega arith)
first_weighted_lem (x ∷ xs) h = elim (Bool-cases (x == 0)) [
  | inl zero ↦ rw zero (first_weighted_lem xs (ground arith))
  | inr positive ↦ rw positive (x, (refl, ground arith))
]

fair : IsFair toy
fair = record { picks = λ ws g h. first_weighted_lem ws h; ranges = λ n g h. omega arith }

abbrev pub shard : Shard
shard = record {
  shard_id = 1;
  path = "a" ∷ [];
  games = 1;
  samples = 2;
  train_samples = 2;
  champion_attempt = 0;
  first_game_id = 7;
  created_at = "t0";
  active = true;
}

abbrev pool : Pool toy
pool = record { shards = shard ∷ []; cache = []; rng = 0 }

pool-Coherent : Coherent toy 1 pool
pool-Coherent = record { faithful = tt; bounded = omega arith }

load-used_example :
    load toy 1 ("a" ∷ []) pool ≡ (ok (game ∷ []), used toy 1 ("a" ∷ []) (game ∷ []) pool)
load-used_example = load-used toy 1 ("a" ∷ []) (game ∷ []) pool pool-Coherent refl

abbrev for_training : ℕ → Bool
for_training n = false

batch-Batch_example :
    Batch toy 1 (shard ∷ []) for_training false fair 2 pool (batch toy 1 for_training false 2 pool)
batch-Batch_example =
    batch-Batch toy 1 (shard ∷ []) for_training false fair 2 pool refl pool-Coherent

two_rows :
    (batch toy 1 for_training false 2 pool).0
    ≡ ok (
        record { sample = 101; policy_weight = false }
        ∷ record { sample = 0; policy_weight = true }
        ∷ [])
unfolding batch collect attempt choose_shard load weighted_choice draw_index draw_row draw_game turn
    flip_coin window element evict mover get put remove
two_rows = refl

barren : (s : Shard) → Elem s (shard ∷ []) → IsBarren toy 1 (shard ∷ []) for_training true fair s
barren s (inl e) = rw e (record {
  weighs = omega arith;
  games = game ∷ [];
  stored = refl;
  filled = omega arith;
  foreign = λ g k bad. cc;
})
barren s (inr k) = elim k [ ]

batch_barren_example :
    ((batch toy 1 for_training true 1 pool).0 ≡ err partition_empty)
    × Kept toy 1 pool (batch toy 1 for_training true 1 pool).1
batch_barren_example =
    batch_barren toy 1 (shard ∷ []) for_training true fair shard (inl refl) barren 1 pool refl
      pool-Coherent (omega arith)

training_batch-after_all_example :
    let f =
      after_all toy 1 for_training fair
        (fetch 2 ∷ loader ∷ drop_shard 3 ∷ drop_future false ∷ fetch 4 ∷ [])
        (record { pool = pool; has_executor = true; future = none; signature = none }) in
    Coherent toy 1 f.pool
    × Sized toy 1 for_training fair 3 (training_batch toy 1 for_training 3 f).0
training_batch-after_all_example =
    training_batch-after_all toy 1 for_training fair (shard ∷ []) 0 true
      (fetch 2 ∷ loader ∷ drop_shard 3 ∷ drop_future false ∷ fetch 4 ∷ []) 3
