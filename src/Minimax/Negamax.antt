-- ===== src/Minimax/Negamax.antt =====
-- The reference for `_score`: plain negamax, with no cache, no cut-off and no interruption.
use connect4codex.Prelude.{◌≡◌, ℕ, zero, suc, List, [], ◌∷◌, bit_or, if◌then◌else◌, arith}
use connect4codex.Prelude.Int.{ℤ, pos, negsuc, neg, max_ℤ, ◌≤ℤ◌}
use connect4codex.Minimax.Board.{has_four, legal_moves, move_bit}

-- `child` values the position after a move that makes no four.
unfoldable pub move_value : (ℕ → ℤ) → ℕ → ℕ → ℕ → ℤ
move_value child current occupied col =
    let after_move = bit_or current (move_bit occupied col) in
    if has_four after_move then pos 1 else child after_move

-- The greatest value of a move, and -1 if there is none.
unfoldable pub best_value : (ℕ → ℤ) → ℕ → ℕ → List ℕ → ℤ
best_value child current occupied [] = negsuc 0
best_value child current occupied (col ∷ cols) =
    max_ℤ (move_value child current occupied col) (best_value child current occupied cols)

-- A full board is a draw.
unfoldable pub position_value : (ℕ → ℤ) → ℕ → ℕ → List ℕ → ℤ
position_value child current occupied [] = pos 0
position_value child current occupied (col ∷ cols) = best_value child current occupied (col ∷ cols)

unfoldable pub negamax : ℕ → ℕ → ℕ → ℤ
negamax (suc (suc d)) current opponent =
    position_value (λ after_move. neg (negamax (suc d) opponent after_move)) current
      (bit_or current opponent) (legal_moves (bit_or current opponent))
negamax d current opponent =
    position_value (λ after_move. pos 0) current (bit_or current opponent)
      (legal_moves (bit_or current opponent))

-- A loss, a draw or a win.
abbrev pub IsScore : ℤ → Type 0
IsScore v = (negsuc 0 ≤ℤ v) × (v ≤ℤ pos 1)

module _ (child : ℕ → ℤ) (scored : (a : ℕ) → IsScore (child a)) (current occupied : ℕ) where
  pub move_value-IsScore : (col : ℕ) → IsScore (move_value child current occupied col)
  unfolding move_value
  move_value-IsScore col = ground (arith, scored (bit_or current (move_bit occupied col)))

  pub best_value-IsScore : (cols : List ℕ) → IsScore (best_value child current occupied cols)
  unfolding best_value
  best_value-IsScore [] = omega arith
  best_value-IsScore (col ∷ cols) = ground (arith, move_value-IsScore col, best_value-IsScore cols)

  pub position_value-IsScore :
      (cols : List ℕ) → IsScore (position_value child current occupied cols)
  unfolding position_value
  position_value-IsScore [] = omega arith
  position_value-IsScore (col ∷ cols) = best_value-IsScore (col ∷ cols)

pub neg-IsScore : (v : ℤ) → IsScore v → IsScore (neg v)
neg-IsScore v h = ground arith

-- The value is -1, 0 or 1.
pub negamax-IsScore : (d current opponent : ℕ) → IsScore (negamax d current opponent)
unfolding negamax
negamax-IsScore (suc (suc d)) current opponent =
    position_value-IsScore _ (λ a. neg-IsScore _ (negamax-IsScore (suc d) opponent a)) current _ _
negamax-IsScore (suc zero) current opponent =
    position_value-IsScore _ (λ a. omega arith) current _ _
negamax-IsScore zero current opponent = position_value-IsScore _ (λ a. omega arith) current _ _

pub max_assoc : (a b c : ℤ) → max_ℤ (max_ℤ a b) c ≡ max_ℤ a (max_ℤ b c)
max_assoc a b c = ground arith

pub max_comm : (a b : ℤ) → max_ℤ a b ≡ max_ℤ b a
max_comm a b = ground arith
