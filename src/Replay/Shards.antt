-- ===== src/Replay/Shards.antt =====
-- No draw changes the pool's shards.
use connect4codex.Prelude.{
  ℕ, zero, suc, ◌*◌, ◌≡◌, refl, ◌∙◌, Bool, false, Option, none, some, List, [], ◌∷◌, length, sum_by,
  get, get_elem?, map, Result, ok, err, continue, ◌>>=◌, pure, leb, ◌==◌, if◌then◌else◌, Bool-cases,
  inl, inr,
}
use connect4codex.Manifest.Tables.{Artifact, Shard}
use connect4codex.Replay.Games.{ReplayGame, World, ReplayFault, path_eq, Games, Pool, Row, Draw}
use connect4codex.Replay.Pool.{
  window, same_bit, element, weighted_choice, draw_index, flip_coin, decoded, cached, load,
  choose_from, choose_shard, draw_row, draw_game, attempt, turn, collect, batch,
}

module _ (w : World) (limit : ℕ) where
  open w use {Sample, decode}

  abbrev Leaves : {A : Type 0} → Draw w A → Type 0
  Leaves m = (p : Pool w) → (m p).1.shards ≡ p.shards

  module _ {A B : Type 0} where
    Leaves-continue :
        (f : A → Draw w B) (p : Pool w) (o : Result ReplayFault A × Pool w)
        → ((a : A) → Leaves (f a))
        → o.1.shards ≡ p.shards
        → (continue o.0 f o.1).1.shards ≡ p.shards
    Leaves-continue f p (ok a, q) h e = h a q ∙ e
    Leaves-continue f p (err x, q) h e = e

    Leaves-bind :
        (m : Draw w A) (f : A → Draw w B) → Leaves m → ((a : A) → Leaves (f a)) → Leaves (m >>= f)
    Leaves-bind m f k h p = Leaves-continue f p (m p) h (k p)

  Leaves-element : {A : Type 0} (o : Option A) → Leaves (element w o)
  unfolding element
  Leaves-element (some a) p = refl
  Leaves-element none p = refl

  Leaves-choice : {A : Type 0} (weight : A → ℕ) (xs : List A) → Leaves (weighted_choice w weight xs)
  unfolding weighted_choice
  Leaves-choice weight xs p = elim (Bool-cases (sum_by weight xs == 0)) [
    | inl nothing ↦ rw nothing refl
    | inr something ↦ rw something (
        Leaves-element (get_elem? xs (w.pick (map weight xs) p.rng).0)
          (record p { rng = (w.pick (map weight xs) p.rng).1 }))
  ]

  Leaves-index : {A : Type 0} (xs : List A) → Leaves (draw_index w xs)
  unfolding draw_index
  Leaves-index xs p =
      let i = (w.below (length xs) p.rng).0 in
      Leaves-bind (element w (get_elem? xs i)) (λ a. pure (i, a)) (Leaves-element (get_elem? xs i))
        (λ a q. refl) (record p { rng = (w.below (length xs) p.rng).1 })

  Leaves-decoded : (path : Artifact) (o : Option (Games w)) → Leaves (decoded w limit path o)
  unfolding decoded
  Leaves-decoded path (some games) p = refl
  Leaves-decoded path none p = refl

  Leaves-cached : (path : Artifact) (o : Option (Games w)) → Leaves (cached w limit path o)
  unfolding cached
  Leaves-cached path (some games) p = refl
  Leaves-cached path none p = Leaves-decoded path (decode path) p

  Leaves-from : (ss : List Shard) → Leaves (choose_from w limit ss)
  unfolding choose_from flip_coin
  Leaves-from [] p = refl
  Leaves-from (s ∷ ss) p =
      Leaves-choice (λ x. x.samples) (window (w.coin p.rng).0 (s ∷ ss))
        (record p { rng = (w.coin p.rng).1 })

  module _ (is_validation : ℕ → Bool) (validation : Bool) where
    Leaves-flip : Leaves (if validation then pure false else flip_coin w)
    unfolding flip_coin
    Leaves-flip p = elim (Bool-cases validation) [ inl on ↦ rw on refl | inr off ↦ rw off refl ]

    Leaves-row :
        (shard : Shard) (game : ReplayGame Sample)
        → Leaves (draw_row w limit is_validation validation shard game)
    unfolding draw_row
    Leaves-row shard game =
        Leaves-bind (draw_index w game.samples) _ (Leaves-index game.samples) (λ d.
          Leaves-bind (if validation then pure false else flip_coin w) _ Leaves-flip (λ f q. refl))

    Leaves-game :
        (shard : Shard) (games : Games w)
        → Leaves (draw_game w limit is_validation validation shard games)
    unfolding draw_game
    Leaves-game shard [] = λ p. refl
    Leaves-game shard (g ∷ games) =
        Leaves-bind (weighted_choice w (λ x. length x.samples) (g ∷ games)) _
          (Leaves-choice (λ x. length x.samples) (g ∷ games))
          λ game q. elim (Bool-cases (same_bit (is_validation game.game_id) validation)) [
            | inr other ↦ rw other refl
            | inl part ↦ rw part (
                Leaves-bind (draw_row w limit is_validation validation shard game)
                  (λ row. pure (some row)) (Leaves-row shard game) (λ row r. refl) q)
          ]

    Leaves-attempt : Leaves (attempt w limit is_validation validation)
    unfolding attempt choose_shard load
    Leaves-attempt =
        Leaves-bind (choose_shard w limit) _ (λ p. Leaves-from p.shards p)
          λ shard.
            Leaves-bind (load w limit shard.path) _
              (λ p. Leaves-cached shard.path (get shard.path p.cache) p)
              (λ games. Leaves-game shard games)

    Leaves-turn :
        (rest : List (Row w) → Draw w (List (Row w))) (rows : List (Row w)) (o : Option (Row w))
        → ((more : List (Row w)) → Leaves (rest more))
        → Leaves (turn w limit is_validation validation rest rows o)
    unfolding turn
    Leaves-turn rest rows (some row) h = h _
    Leaves-turn rest rows none h = h _

    Leaves-collect :
        (left size : ℕ) (rows : List (Row w))
        → Leaves (collect w limit is_validation validation left size rows)
    unfolding collect
    Leaves-collect zero size rows p = elim (Bool-cases (leb size (length rows))) [
      | inl done ↦ rw done refl
      | inr short ↦ rw short refl
    ]
    Leaves-collect (suc left) size rows p = elim (Bool-cases (leb size (length rows))) [
      | inl done ↦ rw done refl
      | inr short ↦ rw short (
          Leaves-bind (attempt w limit is_validation validation)
            (turn w limit is_validation validation
              (collect w limit is_validation validation left size) rows)
            Leaves-attempt (λ o. Leaves-turn _ rows o (λ more. Leaves-collect left size more)) p)
    ]

    pub batch-shards :
        (size : ℕ) (p : Pool w)
        → (batch w limit is_validation validation size p).1.shards ≡ p.shards
    unfolding batch
    batch-shards size p = Leaves-collect (size * 500) size [] p
