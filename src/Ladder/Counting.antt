-- ===== src/Ladder/Counting.antt =====
-- A level ends with a full account of its games.
use connect4codex.Prelude.{
  ℕ, zero, suc, ◌+◌, ◌*◌, ◌%◌, ◌≤◌, ◌<◌, ◌≡◌, refl, ◌∙◌, ◌⊎◌, inl, inr, true, false, Option, List,
  [], ◌∷◌, Result, ok, ltb, ◌==◌, if◌then◌else◌, length, arith, Bool-cases, ltb→lt, not_ltb,
}
use connect4codex.Minimax.Search.{Failure}
use connect4codex.Arena.Run.{Played}
use connect4codex.Ladder.Levels.{
  LadderConfig, Pairing, pairings, Score, model_score, add_game, add_games, half_points, pair_count,
  with_results, play_level,
}

-- The engine plays every game that it is asked for.
abbrev pub PlaysAll : (Option ℕ → List Pairing → Result Failure (List Played)) → Type 0
PlaysAll play =
    (depth : Option ℕ) (rs : List Pairing)
    → (games : List Played) × ((play depth rs ≡ ok games) × (length games ≡ length rs))

abbrev pub decided : Score → ℕ
decided s = s.wins + s.draws + s.losses

length-pairings : (n k : ℕ) → length (pairings n k) ≡ 2 * n
unfolding pairings
length-pairings zero k = refl
length-pairings (suc n) k = omega (arith, length-pairings n (k + 2))

add_game-decided :
    (s : Score) (x : ℕ)
    → (decided (add_game s x) ≡ decided s + 1) × ((add_game s x).games ≡ s.games)
unfolding add_game
add_game-decided s x = elim (Bool-cases (x == 2)) [
  | inl e ↦ rw e (omega arith, refl)
  | inr e ↦ elim (Bool-cases (x == 1)) [
    | inl f ↦ rw (e, f) (omega arith, refl)
    | inr f ↦ rw (e, f) (omega arith, refl)
  ]
]

add_games-decided :
    (gs : List Played) (s : Score)
    → (decided (add_games gs s) ≡ decided s + length gs) × ((add_games gs s).games ≡ s.games)
unfolding add_games
add_games-decided [] s = (omega arith, refl)
add_games-decided (g ∷ gs) s =
    let (one, same) = add_game-decided s (model_score g) in
    let (rest, same') = add_games-decided gs (add_game s (model_score g)) in
    (omega (arith, one, rest), same' ∙ same)

-- All games are decided, in whole pairs and within the level's number.
pub record IsCounted (c : LadderConfig) (s : Score) : Type 0 where
  pub counted : s.games ≡ decided s
  pub even : s.games % 2 ≡ 0
  pub within : s.games ≤ c.games_per_level

module _ (play : Option ℕ → List Pairing → Result Failure (List Played)) (c : LadderConfig) where
  -- How a level ends: over the threshold, or with all its games and not over it.
  abbrev pub Outcome : Score → Type 0
  Outcome s =
      (c.games_per_level < half_points s)
      ⊎ ((s.games ≡ c.games_per_level) × (half_points s ≤ c.games_per_level))

  batch_lem :
      (s : Score) (gs : List Played)
      → IsCounted c s
      → s.games < c.games_per_level
      → c.games_per_level % 2 ≡ 0
      → 1 ≤ c.pair_batch_size
      → length gs ≡ 2 * pair_count play c s
      → IsCounted c (with_results play c s gs) × (s.games < (with_results play c s gs).games)
  batch_lem s gs k lt even some_batch len =
      let (sum, same) = add_games-decided gs s in
      (
        record {
          counted = omega (arith, sum, same, k.counted);
          even = omega (arith, same, len, k.even);
          within = omega (arith, same, len, k.even, k.within, even, lt);
        },
        omega (arith, same, len, k.even, even, lt, some_batch),
      )

  level_done :
      (fuel : ℕ) (depth : Option ℕ) (next : ℕ) (s : Score)
      → ltb s.games c.games_per_level ≡ false
      → play_level play c (suc fuel) depth next s ≡ ok (s, next)
  unfolding play_level
  level_done fuel depth next s h = rw h refl

  level_next :
      (fuel : ℕ) (depth : Option ℕ) (next : ℕ) (s : Score) (gs : List Played)
      → ltb s.games c.games_per_level ≡ true
      → play depth (pairings (pair_count play c s) next) ≡ ok gs
      → let t = with_results play c s gs in
        let next' = next + 2 * pair_count play c s in
        play_level play c (suc fuel) depth next s ≡ (
          if ltb c.games_per_level (half_points t)
          then ok (t, next')
          else play_level play c fuel depth next' t)
  unfolding play_level
  level_next fuel depth next s gs lt e = rw (lt, e) refl

  -- From a score at or under the threshold, with fuel for the games that are left.
  pub play_level-Outcome :
      (fuel : ℕ) (depth : Option ℕ) (next : ℕ) (s : Score)
      → PlaysAll play
      → c.games_per_level % 2 ≡ 0
      → 1 ≤ c.pair_batch_size
      → IsCounted c s
      → half_points s ≤ c.games_per_level
      → c.games_per_level < fuel + s.games
      → (t : Score) × ((next' : ℕ) × ((play_level play c fuel depth next s ≡ ok (t, next'))
            × IsCounted c t
            × Outcome t))
  play_level-Outcome zero depth next s plays even some_batch k low enough =
      let bad = k.within in ground arith
  play_level-Outcome (suc fuel) depth next s plays even some_batch k low enough =
      elim (Bool-cases (ltb s.games c.games_per_level)) [
        | inr full ↦ (
          s,
          (
            next,
            (
              level_done fuel depth next s full,
              k,
              inr (omega (arith, k.within, not_ltb _ _ full), low),
            ),
          ),
        )
        | inl lt ↦
            let (gs, (played, len)) = plays depth (pairings (pair_count play c s) next) in
            let t = with_results play c s gs in
            let next' = next + 2 * pair_count play c s in
            let (k', more) =
              batch_lem s gs k (ltb→lt _ _ lt) even some_batch
                (len ∙ length-pairings (pair_count play c s) next) in
            let step = level_next fuel depth next s gs lt played in
            elim (Bool-cases (ltb c.games_per_level (half_points t))) [
              | inl over ↦ (t, (next', (step ∙ rw over refl, k', inl (ltb→lt _ _ over))))
              | inr under ↦
                  let (u, (next'', (rest, k'', out))) =
                    play_level-Outcome fuel depth next' t plays even some_batch k'
                      (not_ltb _ _ under) (omega (arith, enough, more)) in
                  (u, (next'', (step ∙ rw under rest, k'', out)))
            ]
      ]
