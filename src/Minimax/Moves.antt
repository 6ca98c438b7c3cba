-- ===== src/Minimax/Moves.antt =====
-- The value of what a move leads to, by the plain search.
use connect4codex.Prelude.{ℕ, zero, suc, ◌≡◌, refl, bit_or, arith}
use connect4codex.Prelude.Int.{ℤ, pos, neg}
use connect4codex.Minimax.Board.{legal_moves}
use connect4codex.Minimax.Negamax.{position_value, negamax, IsScore, negamax-IsScore, neg-IsScore}

unfoldable pub child_value : ℕ → ℕ → ℕ → ℤ
child_value (suc (suc d)) opponent a = neg (negamax (suc d) opponent a)
child_value d opponent a = pos 0

pub child_value-IsScore : (d opponent a : ℕ) → IsScore (child_value d opponent a)
unfolding child_value
child_value-IsScore (suc (suc d)) opponent a = neg-IsScore _ (negamax-IsScore (suc d) opponent a)
child_value-IsScore (suc zero) opponent a = omega arith
child_value-IsScore zero opponent a = omega arith

pub negamax_value :
    (d current opponent : ℕ)
    → negamax d current opponent
      ≡ position_value
          (child_value d opponent)
          current
          (bit_or current opponent)
          (legal_moves (bit_or current opponent))
unfolding negamax child_value
negamax_value (suc (suc d)) current opponent = refl
negamax_value (suc zero) current opponent = refl
negamax_value zero current opponent = refl
