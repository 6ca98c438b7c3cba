-- ===== src/League/Tests.antt =====
-- The identifiers of a game against each baseline, and the requests of a small batch.
use connect4codex.Prelude.{
  ℕ, ◌+◌, ◌-◌, ◌≤◌, ◌≡◌, refl, some, List, [], ◌∷◌, length, get_or, ok, inr, arith,
}
use mathlib.Core.List.{Perm}
use mathlib.Core.List.Perm
use connect4codex.Prelude.Samples.{hundredths}
use connect4codex.Config.Training.{TrainingV2Config}
use connect4codex.Config.Tests.{defaults}
use connect4codex.League.Requests.{
  bump, bump_all, slice_to, total_of, without_archive, categories_from, prepend, or_fault,
  insert_index, sort_indices, floors, remainder_order, allocate_counts, weights_of, LeagueRng,
  categories, opponent, game, seated, against, requests, league_requests,
}
use connect4codex.League.Allocation.{IsSplit}
use connect4codex.League.Fairness.{allocate_counts-fair}
use connect4codex.League.Ids.{
  uniform_model_id, random_model_id, baseline_model_id, baseline_kind_and_game,
}
use connect4codex.League.Codes.{baseline_kind_and_game-baseline_model_id}

baseline_kind_and_game-baseline_model_id_example :
    (id : ℕ) × ((baseline_model_id random_model_id 5 ≡ some id)
      × (9223372036854775808 ≤ id)
      × (baseline_kind_and_game id ≡ some (random_model_id, 5)))
baseline_kind_and_game-baseline_model_id_example =
    baseline_kind_and_game-baseline_model_id random_model_id 5 (inr refl) (omega arith)

uniform_game : baseline_model_id uniform_model_id 1 ≡ some 18446744073709551613
unfolding baseline_model_id
uniform_game = refl

-- A batch of seven: the shares are 4.2, 1.4, 0.7 and 0.7 games.
abbrev seven : TrainingV2Config
seven = record defaults { self_play_batch_games = 7 }

-- Two draws of a generator that meet its promises.
abbrev swap_front : List ℕ → List ℕ
swap_front [] = []
swap_front (x ∷ []) = x ∷ []
swap_front (x ∷ y ∷ ks) = y ∷ x ∷ ks

abbrev draws : LeagueRng
draws = record {
  shuffle = λ seed ks. swap_front ks;
  choose = λ seed weights. length weights - 1;
  pow = λ base exponent. base;
}

seven-IsSplit : IsSplit 7 (weights_of seven)
unfolding total_of floors
seven-IsSplit = record { below = omega arith; close = omega arith }

allocated : allocate_counts 7 (weights_of seven) ≡ 4 ∷ 1 ∷ 1 ∷ 1 ∷ []
unfolding allocate_counts remainder_order sort_indices insert_index floors slice_to bump_all bump
    total_of
allocated = refl

allocate_counts-fair_example :
    (length (allocate_counts 7 (weights_of seven)) ≡ 4)
    × (total_of (allocate_counts 7 (weights_of seven)) ≡ 7)
    × ((i : ℕ)
        → (get_or (floors 7 (weights_of seven)) i 0
            ≤ get_or (allocate_counts 7 (weights_of seven)) i 0)
          × (get_or (allocate_counts 7 (weights_of seven)) i 0
              ≤ get_or (floors 7 (weights_of seven)) i 0 + 1))
allocate_counts-fair_example = allocate_counts-fair 7 (weights_of seven) seven-IsSplit

no_archive :
    league_requests draws seven 3 [] 100
    ≡ ok (
        game 100 3 3
        ∷ game 101 3 3
        ∷ game 102 3 3
        ∷ game 103 3 3
        ∷ game 104 3 3
        ∷ game 105 3 18446744073709551405
        ∷ game 106 3 18446744073709551614
        ∷ [])
unfolding league_requests requests against prepend seated opponent or_fault baseline_model_id
    categories categories_from without_archive allocate_counts remainder_order sort_indices
    insert_index floors slice_to bump_all bump total_of
no_archive = refl
