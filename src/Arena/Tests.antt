-- ===== src/Arena/Tests.antt =====
-- Runs of the arena, and its theorems at a concrete engine.
use connect4codex.Prelude.{ℕ, ◌≡◌, refl, List, [], ◌∷◌, map, Result, ok, err, arith, length-map}
use connect4codex.Prelude.Samples.{hundredths}
use connect4codex.Arena.Gate.{ArenaFault, bad_limits, Gate, new_gate, fresh_gate}
use connect4codex.Arena.Run.{Request, Played, pair_requests, sort_games, insert_game}
use connect4codex.Arena.Counts.{IsScored}
use connect4codex.Arena.Rounds.{Plays}

abbrev pub flat : ℕ → ℕ
flat x = 100

-- Every game is drawn.
abbrev pub drawn : Request → Played
drawn r = record { game_id = r.game_id; player0_id = r.player0_id; player0_score = 1 }

abbrev pub draws : List Request → Result ArenaFault (List Played)
draws rs = ok (map drawn rs)

drawn-IsScored : (rs : List Request) → IsScored (map drawn rs)
drawn-IsScored [] = tt
drawn-IsScored (r ∷ rs) = (omega arith, drawn-IsScored rs)

pub draws-Plays : Plays draws
draws-Plays rs = (map drawn rs, (refl, length-map drawn rs, drawn-IsScored rs))

abbrev two_openings : List (List ℕ)
two_openings = (0 ∷ 1 ∷ []) ∷ (3 ∷ 3 ∷ []) ∷ []

abbrev pub gate : Gate
gate = fresh_gate flat 50 55 5 5 2 4

pub built : new_gate flat 50 55 5 5 2 4 ≡ ok gate
unfolding new_gate
built = refl

odd_limits : new_gate flat 50 55 5 5 2 5 ≡ err bad_limits
unfolding new_gate
odd_limits = refl

colours :
    map (λ (r : Request). r.player0_id) (pair_requests 7 4 1 two_openings) ≡ 7 ∷ 4 ∷ 7 ∷ 4 ∷ []
unfolding pair_requests
colours = refl

ordered :
    map
      (λ (r : Played). r.game_id)
      (sort_games (
        record { game_id = 2; player0_id = 4; player0_score = 0 }
        ∷ record { game_id = 1; player0_id = 7; player0_score = 2 }
        ∷ []))
    ≡ 1 ∷ 2 ∷ []
unfolding sort_games insert_game
ordered = refl
