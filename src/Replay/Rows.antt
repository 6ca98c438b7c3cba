-- ===== src/Replay/Rows.antt =====
-- The rows of a batch, and the batch.
use connect4codex.Prelude.{
  ℕ, ◌+◌, ◌-◌, ◌/◌, ◌<◌, ◌≡◌, refl, sym, ◌⊎◌, inl, inr, max, Bool, true, false, Option, none, some,
  List, [], ◌∷◌, length, length-drop, sum_by, All, Elem, Result, ok, err, pure, if◌then◌else◌,
  Bool-cases, Option-cases, arith,
}
use connect4codex.Manifest.Tables.{Shard}
use connect4codex.Replay.Games.{ReplayGame, World, ReplayFault, partition_empty, Games, Pool, Row}
use connect4codex.Replay.Pool.{
  window, same_bit, weighted_choice, draw_index, flip_coin, load, choose_from, choose_shard,
  draw_row, draw_game, attempt,
}
use connect4codex.Replay.Caching.{Coherent, load-used, load_unreadable, used-Coherent}
use connect4codex.Replay.Batches.{
  IsFair, Elem-window, Kept, Draws, Draws-bind, Draws-weaken, Cause, Drawn, weighted_choice-Draws,
  draw_index-Draws, flip-Draws,
}

same_eq : (a b : Bool) → same_bit a b ≡ true → a ≡ b
same_eq a b h = ground arith

zero_weight : {A : Type 0} (f : A → ℕ) (x : A) (xs : List A) → sum_by f (x ∷ xs) ≡ 0 → f x ≡ 0
zero_weight f x xs h = omega arith

window-cons :
    {A : Type 0} (recent : Bool) (x : A) (xs : List A)
    → (y : A) × (ys : List A) × (window recent (x ∷ xs) ≡ y ∷ ys)
unfolding window
window-cons false x xs = (x, xs, refl)
window-cons {A} true x xs =
    nonempty _
      (omega (arith, length-drop (length (x ∷ xs) - max 1 ((length (x ∷ xs) + 3) / 4)) (x ∷ xs)))
  where
    nonempty : (l : List A) → 0 < length l → (y : A) × (ys : List A) × (l ≡ y ∷ ys)
    nonempty [] h = absurd (omega arith)
    nonempty (y ∷ ys) h = (y, ys, refl)

module _ (w : World) (limit : ℕ) (shards : List Shard) (is_validation : ℕ → Bool)
    (validation : Bool) (fair : IsFair w) where
  open w use {Sample, decode}

  abbrev pub Cause' : ReplayFault → Type 0
  Cause' = Cause w limit shards is_validation validation fair

  abbrev pub Drawn' : Row w → Type 0
  Drawn' = Drawn w limit shards is_validation validation fair

  -- Nothing for a game of the other partition.
  abbrev pub Maybe : Option (Row w) → Type 0
  Maybe none = Unit
  Maybe (some row) = Drawn' row

  module _ (shard : Shard) (listed : Elem shard shards) where
    draw_row-Draws :
        (games : Games w) (game : ReplayGame Sample) (p : Pool w)
        → decode shard.path ≡ some games
        → Elem game games
        → 0 < length game.samples
        → is_validation game.game_id ≡ validation
        → Coherent w limit p
        → Draws w limit Cause' Drawn' p (draw_row w limit is_validation validation shard game p)
    unfolding draw_row
    draw_row-Draws games game p stored k h part c =
        Draws-bind w limit Cause' _ Drawn' (draw_index w game.samples) _ p
          (draw_index-Draws w limit shards is_validation validation fair game.samples p c h)
          λ drawn q kept found.
            Draws-bind w limit Cause' _ Drawn' (if validation then pure false else flip_coin w) _ q
              (flip-Draws w limit shards is_validation validation fair q kept.coherent)
              λ flipped r kept' side. (
                record { shards = refl; coherent = kept'.coherent },
                record {
                  shard = shard;
                  listed = listed;
                  games = games;
                  stored = stored;
                  game = game;
                  played = k;
                  partition = part;
                  place = drawn.0;
                  sample = drawn.1;
                  found = found;
                  mirrored = ground arith;
                  weight = refl;
                },
              )

    draw_game-Draws :
        (games : Games w) (p : Pool w)
        → decode shard.path ≡ some games
        → Coherent w limit p
        → Draws w limit Cause' Maybe p (draw_game w limit is_validation validation shard games p)
    unfolding draw_game
    draw_game-Draws [] p stored c = (record { shards = refl; coherent = c }, tt)
    draw_game-Draws (g ∷ games) p stored c =
        Draws-bind w limit Cause' _ Maybe (weighted_choice w (λ x. length x.samples) (g ∷ games)) _
          p
          (weighted_choice-Draws w limit shards is_validation validation fair
            (λ x. length x.samples) (g ∷ games) p c
            (λ z. (shard, (listed, inr (g ∷ games, (stored, z))))))
          λ game q kept chosen.
            elim (Bool-cases (same_bit (is_validation game.game_id) validation)) [
              | inr other ↦ rw other (record { shards = refl; coherent = kept.coherent }, tt)
              | inl part ↦ rw part (
                  Draws-bind w limit Cause' Drawn' Maybe
                    (draw_row w limit is_validation validation shard game) _ q
                    (draw_row-Draws (g ∷ games) game q stored chosen.0 chosen.1 (same_eq _ _ part)
                      kept.coherent)
                    λ row r kept' drawn.
                      (record { shards = refl; coherent = kept'.coherent }, drawn))
            ]

  load-Draws :
      (shard : Shard) (p : Pool w)
      → Elem shard shards
      → Coherent w limit p
      → Draws w limit Cause' (λ games. decode shard.path ≡ some games) p (load w limit shard.path p)
  load-Draws shard p listed c = elim (Option-cases (decode shard.path)) [
    | inl missing ↦
        rw (load_unreadable w limit shard.path p c missing)
          (record { shards = refl; coherent = c }, (shard, (listed, missing)))
    | inr (games, stored) ↦ rw (load-used w limit shard.path games p c stored) (
      record { shards = refl; coherent = used-Coherent w limit shard.path games p c stored },
      stored,
    )
  ]

  choose_from-Draws :
      (ss : List Shard) (p : Pool w)
      → shards ≡ ss
      → Coherent w limit p
      → Draws w limit Cause' (λ s. Elem s shards) p (choose_from w limit ss p)
  unfolding choose_from flip_coin
  choose_from-Draws [] p e c = (record { shards = refl; coherent = c }, e)
  choose_from-Draws (s ∷ ss) p e c =
      let heads = (w.coin p.rng).0 in
      let q : Pool w = record p { rng = (w.coin p.rng).1 } in
      let same_cache : Coherent w limit q = record { faithful = c.faithful; bounded = c.bounded } in
      let seen : (x : Shard) → Elem x (window heads (s ∷ ss)) → Elem x shards =
        λ x k. rw e (Elem-window x heads (s ∷ ss) k) in
      let (y, ys, some_shard) = window-cons heads s ss in
      Draws-weaken w limit Cause' _ (λ x. Elem x shards) p q _
        (record { shards = refl; coherent = same_cache }) (λ x k. seen x k.0)
        (weighted_choice-Draws w limit shards is_validation validation fair (λ x. x.samples)
          (window heads (s ∷ ss)) q same_cache
          (λ z. (
            y,
            (
              seen y (rw some_shard (inl refl)),
              inl (zero_weight (λ x. x.samples) y ys (rw some_shard at z)),
            ),
          )))

  pub attempt-Draws :
      (p : Pool w)
      → p.shards ≡ shards
      → Coherent w limit p
      → Draws w limit Cause' Maybe p (attempt w limit is_validation validation p)
  unfolding attempt choose_shard
  attempt-Draws p e c =
      Draws-bind w limit Cause' (λ s. Elem s shards) Maybe (choose_shard w limit) _ p
        (choose_from-Draws p.shards p (sym e) c)
        λ shard q kept listed.
          Draws-bind w limit Cause' (λ games. decode shard.path ≡ some games) Maybe
            (load w limit shard.path) _ q (load-Draws shard q listed kept.coherent)
            λ games r kept' stored. draw_game-Draws shard listed games r stored kept'.coherent

  -- The rows of a batch of the given size, or the reason why there are none: a cause in the shards, or
  -- that the attempts ended.
  abbrev pub Batch : ℕ → Pool w → Result ReplayFault (List (Row w)) × Pool w → Type 0
  Batch size p (ok rows, p') = Kept w limit p p' × (length rows ≡ size) × All Drawn' rows
  Batch size p (err e, p') = Kept w limit p p' × ((e ≡ partition_empty) ⊎ Cause' e)
