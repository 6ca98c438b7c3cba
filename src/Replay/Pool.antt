-- ===== src/Replay/Pool.antt =====
-- `ReplayPool`: its methods, and `_validation_game`.
use connect4codex.Prelude.{
  ℕ, zero, suc, ◌+◌, ◌-◌, ◌*◌, ◌/◌, ◌%◌, ◌^◌, max, Bool, true, false, not, ◌&&◌, Option, none, some,
  List, [], ◌∷◌, ◌++◌, map, length, drop, get_elem?, keep_if, sum_by, Dict, get, put, remove,
  Floats, ok, err, ◌>>=◌, pure, raise, ltb, leb, ◌==◌, if◌then◌else◌,
}
use connect4codex.Config.Training.{TrainingV2Config}
use connect4codex.Manifest.Tables.{Artifact, Shard}
use connect4codex.Replay.Games.{
  ReplayGame, World, replay_empty, partition_empty, unreadable, no_weight, bad_index, path_eq,
  Games, Pool, Row, Draw,
}

-- The oldest entries go.
unfoldable pub evict : {A : Type 0} → ℕ → List A → List A
evict limit [] = []
evict limit (x ∷ xs) =
    let rest = evict limit xs in if ltb limit (length (x ∷ xs)) then rest else x ∷ xs

-- The newest quarter, at least one, or all.
unfoldable pub window : {A : Type 0} → Bool → List A → List A
window true xs = drop (length xs - max 1 ((length xs + 3) / 4)) xs
window false xs = xs

unfoldable pub mover : {A : Type 0} → ReplayGame A → ℕ → ℕ
mover game ply = if ply % 2 == 0 then game.player0_id else game.player1_id

abbrev pub same_bit : Bool → Bool → Bool
same_bit true b = b
same_bit false b = not b

module _ ⦃fl : Floats⦄ where
  unfoldable pub cache_limit : TrainingV2Config → ℕ
  cache_limit c =
      fl.ceil (fl.div (fl.of_ℕ c.replay_capacity_games) (fl.of_ℕ c.self_play_shard_games)) + 1

  unfoldable pub validation_game : (ℕ → ℕ → ℕ) → TrainingV2Config → ℕ → Bool
  validation_game digest c game_id =
      fl.lt (fl.div (fl.of_ℕ (digest c.run_seed game_id)) (fl.of_ℕ (2 ^ 64))) c.validation_fraction

  unfoldable pub resume_sample_budget : TrainingV2Config → List Shard → ℕ
  resume_sample_budget c [] = 0
  resume_sample_budget c (s ∷ shards) =
      let samples = sum_by (λ (x : Shard). x.train_samples) (s ∷ shards) in
      fl.ceil (
        fl.mul (fl.mul (fl.div (fl.of_ℕ samples) (fl.of_ℕ (length (s ∷ shards)))) c.replay_ratio)
          (fl.of_ℕ c.debt_resume_shards))

module _ (w : World) where
  open w use {Sample, ply, flip_h, decode, coin, pick, below}

  -- An element of a list, or an IndexError.
  unfoldable pub element : {A : Type 0} → Option A → Draw w A
  element (some a) p = (ok a, p)
  element none p = (err bad_index, p)

  -- rng.choices(xs, weights, k=1)[0]
  unfoldable pub weighted_choice : {A : Type 0} → (A → ℕ) → List A → Draw w A
  weighted_choice weight xs p =
      if sum_by weight xs == 0
      then (err no_weight, p)
      else (let (i, g) = pick (map weight xs) p.rng in
          element (get_elem? xs i) (record p { rng = g }))

  -- rng.randrange(len(xs)) and the element there
  unfoldable pub draw_index : {A : Type 0} → List A → Draw w (ℕ × A)
  draw_index xs p =
      let (i, g) = below (length xs) p.rng in
      (element (get_elem? xs i) >>= λ a. pure (i, a)) (record p { rng = g })

  unfoldable pub flip_coin : Draw w Bool
  flip_coin p = let (heads, g) = coin p.rng in (ok heads, record p { rng = g })

  unfoldable pub append_shard : Shard → Pool w → Pool w
  append_shard shard p = record p { shards = p.shards ++ shard ∷ [] }

  unfoldable pub forget : List Shard → Dict Artifact (Games w) → Dict Artifact (Games w)
  forget [] cache = cache
  forget (s ∷ removed) cache = forget removed (remove s.path cache)

  unfoldable pub remove_shard : ℕ → Pool w → Pool w
  remove_shard shard_id p = record p {
    shards = keep_if (λ (s : Shard). not (s.shard_id == shard_id)) p.shards;
    cache = forget (keep_if (λ (s : Shard). s.shard_id == shard_id) p.shards) p.cache;
  }

  module _ (limit : ℕ) where
    unfoldable pub decoded : Artifact → Option (Games w) → Draw w (Games w)
    decoded path (some games) p =
        (ok games, record p { cache = evict limit (put path games p.cache) })
    decoded path none p = (err unreadable, p)

    unfoldable pub cached : Artifact → Option (Games w) → Draw w (Games w)
    cached path (some games) p =
        (ok games, record p { cache = put path games (remove path p.cache) })
    cached path none p = decoded path (decode path) p

    unfoldable pub load : Artifact → Draw w (Games w)
    unfolding cached decoded
    load path p = cached path (get path p.cache) p

    unfoldable pub choose_from : List Shard → Draw w Shard
    choose_from [] = raise replay_empty
    choose_from (s ∷ shards) =
        flip_coin >>= λ recent. weighted_choice (λ x. x.samples) (window recent (s ∷ shards))

    unfoldable pub choose_shard : Draw w Shard
    unfolding choose_from
    choose_shard p = choose_from p.shards p

    module _ (is_validation : ℕ → Bool) (validation : Bool) where
      -- A position of the game, mirrored half of the time when it is for training.
      unfoldable pub draw_row : Shard → ReplayGame Sample → Draw w (Row w)
      draw_row shard game = draw_index game.samples >>= λ drawn.
          (if validation then pure false else flip_coin) >>= λ flipped.
          let sample = if flipped then flip_h drawn.1 else drawn.1 in
          let terminal = drawn.0 == length game.samples - 1 in
          pure (record {
            sample = sample;
            policy_weight = not terminal && mover game (ply sample) == shard.champion_attempt;
          })

      unfoldable pub draw_game : Shard → Games w → Draw w (Option (Row w))
      draw_game shard [] = pure none
      draw_game shard (g ∷ games) = weighted_choice (λ x. length x.samples) (g ∷ games) >>= λ game.
          if same_bit (is_validation game.game_id) validation
          then (draw_row shard game >>= (λ row. pure (some row)))
          else pure none

      -- The body of the loop; none is its `continue`.
      unfoldable pub attempt : Draw w (Option (Row w))
      attempt = choose_shard >>= λ shard. load shard.path >>= λ games. draw_game shard games

      -- What a turn of the loop leads to.
      unfoldable pub turn :
          (List (Row w) → Draw w (List (Row w)))
          → List (Row w)
          → Option (Row w)
          → Draw w (List (Row w))
      turn rest rows (some row) = rest (rows ++ row ∷ [])
      turn rest rows none = rest rows

      -- The `while` loop, by the attempts that are left.
      unfoldable pub collect : ℕ → ℕ → List (Row w) → Draw w (List (Row w))
      collect zero size rows p =
          if leb size (length rows) then (ok rows, p) else (err partition_empty, p)
      collect (suc left) size rows p =
          let next = (attempt >>= turn (collect left size) rows) p in
          if leb size (length rows) then (ok rows, p) else next

      unfoldable pub batch : ℕ → Draw w (List (Row w))
      batch batch_size = collect (batch_size * 500) batch_size []
