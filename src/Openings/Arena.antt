-- ===== src/Openings/Arena.antt =====
-- `_run_async_training_owned` draws the openings for the configuration's most games, and the actor hands
-- them to `_run_arena`.
use connect4codex.Prelude.{
  ℕ, zero, suc, ◌*◌, ◌≤◌, ◌≡◌, refl, ap, ◌∙◌, none, some, List, [], ◌∷◌, length, take, Floats,
  Result, ok, bit_xor, arith,
}
use connect4codex.Arena.Gate.{ArenaFault, Gate, new_gate}
use connect4codex.Arena.Run.{Request, Played, ArenaReport, run_arena}
use connect4codex.Arena.Rounds.{Plays}
use connect4codex.Arena.Reports.{IsSound, run_arena-IsSound}
use connect4codex.Openings.Draw.{OpeningRng, half_up, arena_openings}
use connect4codex.Openings.Loop.{IsLively}
use connect4codex.Openings.Pairs.{arena_openings-ArePaired}

take-all : {A : Type 0} (n : ℕ) (xs : List A) → length xs ≡ n → take n xs ≡ xs
take-all zero [] h = refl
take-all zero (x ∷ xs) h = absurd (omega (arith, h))
take-all (suc n) [] h = refl
take-all (suc n) (x ∷ xs) h = ap (◌∷◌ x) (take-all n xs (omega (arith, h)))

module _ ⦃fl : Floats⦄ (r : OpeningRng) (seed patience fuel : ℕ) (log : fl.F → fl.F)
    (play : List Request → Result ArenaFault (List Played)) where
  -- Where a pass within so many offers an opening that is accepted, for as long as more are needed, and
  -- the passes suffice, with an engine that plays every game it is asked for and scores it in half
  -- points, a gate that was built and batches of at least one pair: openings are drawn for the most
  -- games, and on them the arena ends with a sound report. So it does on the saved ones, in a later run
  -- with the same most games.
  pub run_arena-arena_openings :
      (batch candidate champion : ℕ) (p0 p1 alpha beta : fl.F) (least most : ℕ) (g : Gate)
      → new_gate log p0 p1 alpha beta least most ≡ ok g
      → Plays play
      → 1 ≤ batch
      → IsLively r (bit_xor seed 667210) (half_up (half_up most)) patience
      → half_up (half_up most) * patience ≤ fuel
      → (saved openings : List (List ℕ)) × ((arena_openings r none seed most fuel
            ≡ some (some saved, openings))
          × (arena_openings r (some saved) seed most fuel ≡ some (none, openings))
          × ((report : ArenaReport) × ((run_arena log play batch candidate champion
                    (new_gate log p0 p1 alpha beta least most)
                    openings
                  ≡ ok report)
                × IsSound least most report)))
  run_arena-arena_openings batch candidate champion p0 p1 alpha beta least most g built plays
        some_batch l enough =
      let (saved, openings, (drawn, paired, later)) =
        arena_openings-ArePaired r seed most patience fuel l enough in
      (
        saved,
        openings,
        (
          drawn,
          later r seed most fuel (omega arith)
              ∙ ap (λ os. some (none, os)) (take-all (half_up most) openings paired.0),
          run_arena-IsSound log play batch candidate champion p0 p1 alpha beta least most openings g
              built plays some_batch (omega (arith, paired.0)),
        ),
      )
