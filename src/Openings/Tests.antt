-- ===== src/Openings/Tests.antt =====
-- Openings drawn from small generators.
use connect4codex.Prelude.{
  ok, ℕ, ◌+◌, ◌*◌, ◌%◌, ◌≤◌, ◌<◌, ◌≡◌, refl, true, false, none, some, List, [], ◌∷◌, length, take,
  arith,
}
use connect4codex.Prelude.Samples.{hundredths}
use connect4codex.Arena.Gate.{new_gate}
use connect4codex.Arena.Run.{ArenaReport, run_arena}
use connect4codex.Arena.Reports.{IsSound}
use connect4codex.Arena.Tests.{flat, draws, gate, built, draws-Plays}
use connect4codex.Openings.Board.{
  along, held_at, put, winning, nonterminal_from, opening_is_nonterminal, board_from, opening_key,
}
use connect4codex.Openings.Draw.{
  same_moves, before, earlier_key, insert_moves, sort_moves, mirrored, is_among, Drawn, accepts,
  offer, OpeningRng, drawn_moves, collect, with_mirrors, save_and_cut, half_up, draw_openings,
  arena_openings,
}
use connect4codex.Openings.Found.{IsFound}
use connect4codex.Openings.Loop.{IsLively}
use connect4codex.Openings.Pairs.{ArePaired, arena_openings-ArePaired}
use connect4codex.Openings.Arena.{run_arena-arena_openings}

-- The second column in each pass.
abbrev pub second_column : OpeningRng
second_column = record { randint = λ seed pass. 1; randrange = λ seed pass i. 1 }

short-empty : {A : Type 0} (xs : List A) → length xs < 1 → xs ≡ []
short-empty [] h = refl
short-empty (x ∷ xs) h = absurd (omega arith)

second_column-accepts :
    (seed : ℕ) (d : Drawn) (pass : ℕ)
    → d.base ≡ []
    → IsFound d
    → accepts (drawn_moves second_column seed pass) d ≡ true
unfolding accepts drawn_moves same_moves mirrored is_among opening_key board_from put
    opening_is_nonterminal nonterminal_from winning along held_at
second_column-accepts seed d pass e f =
    let no_positions : d.positions ≡ [] = rw e at f.kept in rw (e, no_positions) refl

pub second_column-IsLively : (seed : ℕ) → IsLively second_column seed 1 1
second_column-IsLively seed d pass f h =
    (0, (omega arith, second_column-accepts seed d (pass + 0) (short-empty d.base h) f))

arena_openings-ArePaired_example :
    (saved openings : List (List ℕ)) × ((arena_openings second_column none 5 4 1
        ≡ some (some saved, openings))
      × ArePaired 2 openings
      × ((later : OpeningRng) (seed' games' fuel' : ℕ)
          → games' ≤ 4
          → arena_openings later (some saved) seed' games' fuel'
            ≡ some (none, take (half_up games') openings)))
arena_openings-ArePaired_example =
    arena_openings-ArePaired second_column 5 4 1 1 (second_column-IsLively 667215) (omega arith)

run_arena-arena_openings_example :
    (saved openings : List (List ℕ)) × ((arena_openings second_column none 5 4 1
        ≡ some (some saved, openings))
      × (arena_openings second_column (some saved) 5 4 1 ≡ some (none, openings))
      × ((report : ArenaReport) × ((run_arena flat draws 1 7 4
                (new_gate flat 50 55 5 5 2 4)
                openings
              ≡ ok report)
            × IsSound 2 4 report)))
run_arena-arena_openings_example =
    run_arena-arena_openings second_column 5 1 1 flat draws 1 7 4 50 55 5 5 2 4 gate built
      draws-Plays (omega arith) (second_column-IsLively 667215) (omega arith)

-- Moves that change from pass to pass.
abbrev mixed : OpeningRng
mixed = record {
  randint = λ seed pass. pass % 6 + 1;
  randrange = λ seed pass i. (pass * 3 + i * i + 1) % 7;
}

two_pairs :
    arena_openings mixed none 5 7 9
    ≡ some (
      some ((1 ∷ []) ∷ (5 ∷ []) ∷ (4 ∷ 5 ∷ []) ∷ (2 ∷ 1 ∷ []) ∷ []),
      (1 ∷ []) ∷ (5 ∷ []) ∷ (4 ∷ 5 ∷ []) ∷ (2 ∷ 1 ∷ []) ∷ [],
    )
unfolding arena_openings draw_openings collect offer save_and_cut with_mirrors sort_moves
    insert_moves earlier_key before accepts drawn_moves same_moves mirrored is_among opening_key
    board_from put opening_is_nonterminal nonterminal_from winning along held_at
two_pairs = refl

-- Red's fourth piece in a column ends the game.
column_wins : opening_is_nonterminal (0 ∷ 1 ∷ 0 ∷ 1 ∷ 0 ∷ 1 ∷ 0 ∷ []) ≡ false
unfolding opening_is_nonterminal nonterminal_from put winning along held_at
column_wins = refl
