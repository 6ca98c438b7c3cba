-- ===== src/Minimax/Tests.antt =====
-- Runs of the minimax opponent, and its theorems at concrete positions.
use connect4codex.Prelude.{
  List, ℕ, zero, suc, ◌+◌, ◌^◌, ◌≤◌, ◌≡◌, refl, Bool, true, false, [], ◌∷◌, length, ok, arith, get,
  put,
}
use connect4codex.Prelude.Int.{ℤ, pos, negsuc}
use connect4codex.Minimax.Board.{winning_masks, bit_count, move_bit, has_four, legal_moves}
use connect4codex.Minimax.Search.{
  Memo, score, poll, visit, expand, best_reply, remember, cache_limit,
}
use connect4codex.Minimax.Negamax.{negamax}
use connect4codex.Minimax.Computes.{IsConsistent, Answers}
use connect4codex.Minimax.Cached.{score-negamax}
use connect4codex.Minimax.Bounds.{score_bounded, work}
use connect4codex.Minimax.Policy.{Planes, evaluate}
use connect4codex.Minimax.Rows.{AreOptimal, evaluate-AreOptimal}

four_lines : length winning_masks ≡ 69
unfolding winning_masks
four_lines = refl

counted : bit_count (2 ^ 40 + 2 ^ 7 + 5) ≡ 4
unfolding bit_count
counted = refl

stacked : move_bit (2 ^ 3 + 2 ^ 10 + 2 ^ 4) 3 ≡ 2 ^ 17
unfolding move_bit
stacked = refl

diagonal : has_four (2 ^ 3 + 2 ^ 9 + 2 ^ 15 + 2 ^ 21) ≡ true
unfolding has_four
diagonal = refl

wraps_no_row : has_four (2 ^ 5 + 2 ^ 6 + 2 ^ 7 + 2 ^ 8) ≡ false
unfolding has_four
wraps_no_row = refl

abbrev fresh : Memo
fresh = record { nodes = 0; cache = [] }

abbrev quiet : ℕ → Bool
quiet n = false

-- Three in a row for the side to move.
abbrev three : ℕ
three = 2 ^ 1 + 2 ^ 2 + 2 ^ 3

abbrev other : ℕ
other = 2 ^ 8 + 2 ^ 9 + 2 ^ 6

wins_at_once : (score quiet quiet 2 three other fresh).0 ≡ ok (pos 1)
unfolding score visit poll expand best_reply has_four legal_moves move_bit remember get put
wins_at_once = refl

loses_in_two : (score quiet quiet 3 0 (2 ^ 2 + 2 ^ 3 + 2 ^ 4) fresh).0 ≡ ok (negsuc 0)
unfolding score visit poll expand best_reply has_four legal_moves move_bit remember get put
loses_in_two = refl

score-negamax_example :
    IsConsistent (score quiet quiet 3 three other fresh).1
    × Answers quiet quiet (negamax 3 three other) (score quiet quiet 3 three other fresh).0
score-negamax_example = score-negamax quiet quiet 3 three other fresh tt

score_bounded_example :
    ((score quiet quiet 3 three other fresh).1.nodes ≤ 0 + work 3)
    × (length (score quiet quiet 3 three other fresh).1.cache ≤ cache_limit)
score_bounded_example = score_bounded quiet quiet 3 three other fresh (omega arith)

-- The side to move has stones at the bottom of columns 0, 1 and 2.
abbrev opening_planes : Planes
opening_planes zero zero zero = true
opening_planes zero zero (suc zero) = true
opening_planes zero zero (suc (suc zero)) = true
opening_planes _ _ _ = false

evaluate-AreOptimal_example :
    IsConsistent (evaluate quiet quiet 2 (opening_planes ∷ []) fresh).1
    × ((results : List (List ℤ × ℤ)) × (AreOptimal 2 (opening_planes ∷ []) results
          × Answers quiet quiet results (evaluate quiet quiet 2 (opening_planes ∷ []) fresh).0))
evaluate-AreOptimal_example = evaluate-AreOptimal quiet quiet 2 (opening_planes ∷ []) fresh tt
