-- ===== src/Ladder/Climb.antt =====
-- The ladder stops at the first level without a promotion.
use mathlib.Core.List.{append-nil, append_assoc}
use connect4codex.Prelude.{
  ℕ, suc, ◌%◌, ◌≤◌, ◌<◌, ◌≡◌, refl, ap, sym, ◌∙◌, ◌⊎◌, inl, inr, true, false, Option, none, some,
  List, [], ◌∷◌, ◌++◌, Result, ok, err, ltb, if◌then◌else◌, arith, Bool-cases,
}
use connect4codex.Minimax.Search.{Failure}
use connect4codex.Arena.Run.{Played}
use connect4codex.Ladder.Levels.{
  LadderConfig, Pairing, Score, half_points, play_level, level_of, LevelResult, LadderResult, climb,
  depths_of, evaluate_minimax_ladder,
}
use connect4codex.Ladder.Counting.{PlaysAll, IsCounted, Outcome, play_level-Outcome}

module _ (play : Option ℕ → List Pairing → Result Failure (List Played)) (c : LadderConfig) where
  -- A level's report: promoted over half of the points of a full level, or else after all its games.
  pub record IsFair (l : LevelResult) : Type 0 where
    pub counted : IsCounted c l.score
    pub ending :
        ((l.promoted ≡ true) × (c.games_per_level < half_points l.score))
        ⊎ ((l.promoted ≡ false)
            × (l.auto_promoted ≡ false)
            × (l.score.games ≡ c.games_per_level)
            × (half_points l.score ≤ c.games_per_level))

  -- Fair levels for these depths in turn, up to the first that did not promote, if any.
  abbrev pub Climbs : List (Option ℕ) → List LevelResult → Option (Option ℕ) → Type 0
  Climbs [] [] stop = stop ≡ none
  Climbs [] (l ∷ levels) stop = ⊥
  Climbs (d ∷ depths) [] stop = ⊥
  Climbs (d ∷ depths) (l ∷ levels) stop =
      (l.depth ≡ d)
      × IsFair l
      × (((l.promoted ≡ true) × Climbs depths levels stop)
          ⊎ ((l.promoted ≡ false) × (levels ≡ []) × (stop ≡ some d)))

  fair :
      (depth : Option ℕ) (s : Score)
      → IsCounted c s
      → Outcome play c s
      → IsFair (level_of play c depth s)
  fair depth s k o = record { counted = k; ending = ends o }
    where
      ends :
          Outcome play c s
          → let l = level_of play c depth s in
            ((l.promoted ≡ true) × (c.games_per_level < half_points s))
            ⊎ ((l.promoted ≡ false)
                × (l.auto_promoted ≡ false)
                × (s.games ≡ c.games_per_level)
                × (half_points s ≤ c.games_per_level))
      ends (inl over) = inl (ground arith, over)
      ends (inr (all, low)) =
          let off : ltb c.games_per_level (half_points s) ≡ false = ground arith in
          inr (off, ground (arith, off), all, low)

  climb_step :
      (depth : Option ℕ) (depths : List (Option ℕ)) (next next' : ℕ) (levels : List LevelResult)
      (s : Score)
      → play_level play c
          (suc c.games_per_level)
          depth
          next
          (record { wins = 0; draws = 0; losses = 0; games = 0 })
        ≡ ok (s, next')
      → let level = level_of play c depth s in
        climb play c (depth ∷ depths) next levels ≡ (
          if level.promoted
          then climb play c depths next' (levels ++ level ∷ [])
          else ok (record { levels = levels ++ level ∷ []; stopped_at = some depth }))
  unfolding climb
  climb_step depth depths next next' levels s e =
      ap
        (λ r. elim r [
          | err f ↦ err f
          | ok (t, k) ↦
              let level = level_of play c depth t in
              if level.promoted
              then climb play c depths k (levels ++ level ∷ [])
              else ok (record { levels = levels ++ level ∷ []; stopped_at = some depth })
        ])
        e

  climb-Climbs :
      (depths : List (Option ℕ)) (next : ℕ) (levels : List LevelResult)
      → PlaysAll play
      → c.games_per_level % 2 ≡ 0
      → 1 ≤ c.pair_batch_size
      → (new : List LevelResult) × ((stop : Option (Option ℕ)) × ((climb play c depths next levels
              ≡ ok (record { levels = levels ++ new; stopped_at = stop }))
            × Climbs depths new stop))
  unfolding climb
  climb-Climbs [] next levels plays even some_batch = (
    [],
    (
      none,
      (ap (λ ls. ok (record { levels = ls; stopped_at = none })) (sym (append-nil levels)), refl),
    ),
  )
  climb-Climbs (d ∷ depths) next levels plays even some_batch =
      let start : Score = record { wins = 0; draws = 0; losses = 0; games = 0 } in
      let fresh : IsCounted c start = record {
        counted = refl;
        even = refl;
        within = omega arith;
      } in
      let (s, (next', (e, k, o))) =
        play_level-Outcome play c (suc c.games_per_level) d next start plays even some_batch fresh
          (omega arith) (omega arith) in
      let l = level_of play c d s in
      let f = fair d s k o in
      let step = climb_step d depths next next' levels s e in
      elim (Bool-cases l.promoted) [
        | inl up ↦
            let (new, (stop, (rest, shape))) =
              climb-Climbs depths next' (levels ++ l ∷ []) plays even some_batch in
            (
              l ∷ new,
              (
                stop,
                (
                  step
                      ∙ ap
                          (λ b.
                            if b
                            then climb play c depths next' (levels ++ l ∷ [])
                            else ok (record { levels = levels ++ l ∷ []; stopped_at = some d }))
                          up
                      ∙ rest
                      ∙ ap (λ ls. ok (record { levels = ls; stopped_at = stop }))
                          (append_assoc levels (l ∷ []) new),
                  (refl, f, inl (up, shape)),
                ),
              ),
            )
        | inr down ↦ (
          l ∷ [],
          (
            some d,
            (
              step
                  ∙ ap
                      (λ b.
                        if b
                        then climb play c depths next' (levels ++ l ∷ [])
                        else ok (record { levels = levels ++ l ∷ []; stopped_at = some d }))
                      down,
              (refl, f, inr (down, refl, refl)),
            ),
          ),
        )
      ]

  -- With an engine that plays every game it is asked for, an even number of games for a level and
  -- batches of at least one pair, the ladder ends with a result. Its levels are the first of random play
  -- and the depths 1, 2 and so on, each with all its games decided, in whole pairs and within the level's
  -- number, and promoted exactly if it has more than half of a full level's points. It stops at the first
  -- level that does not promote, which has played all its games, and at none if all promote.
  pub evaluate_minimax_ladder-Climbs :
      PlaysAll play
      → c.games_per_level % 2 ≡ 0
      → 1 ≤ c.pair_batch_size
      → (r : LadderResult) × ((evaluate_minimax_ladder play c ≡ ok r)
          × Climbs (depths_of c.max_depth) r.levels r.stopped_at)
  unfolding evaluate_minimax_ladder
  evaluate_minimax_ladder-Climbs plays even some_batch =
      let (new, (stop, (e, shape))) =
        climb-Climbs (depths_of c.max_depth) 0 [] plays even some_batch in
      (record { levels = new; stopped_at = stop }, (e, shape))
