-- ===== src/Minimax/Policy.antt =====
-- `_MinimaxEvaluator.__call__` and `_bitboards`: the policy and the value of each position of a batch.
use connect4codex.Prelude.{
  ℕ, suc, ◌+◌, ◌*◌, ◌^◌, Bool, List, [], ◌∷◌, ◌++◌, bit_or, range, flat_map, map, exists,
  if◌then◌else◌, ◌==◌, ◌>>=◌, pure,
}
use connect4codex.Prelude.Int.{ℤ, pos, negsuc, neg, ltb_ℤ, eqb_ℤ}
use connect4codex.Minimax.Board.{has_four, legal_moves, move_bit}
use connect4codex.Minimax.Search.{Search, score}

-- One row of the input tensor: whether plane `channel` is not 0 at a row and a column.
abbrev pub Planes : Type 0
Planes = ℕ → ℕ → ℕ → Bool

unfoldable pub place : Planes → ℕ × ℕ → ℕ × ℕ → ℕ × ℕ
place planes (current, opponent) (row, col) =
    let bit = 2 ^ (row * 7 + col) in
    if planes 0 row col
    then (bit_or current bit, opponent)
    else if planes 1 row col
    then (current, bit_or opponent bit)
    else (current, opponent)

unfoldable pub place_all : Planes → ℕ × ℕ → List (ℕ × ℕ) → ℕ × ℕ
place_all planes boards [] = boards
place_all planes boards (cell ∷ cells) = place_all planes (place planes boards cell) cells

unfoldable pub bitboards : Planes → ℕ × ℕ
unfolding place_all place
bitboards planes =
    place_all planes (0, 0) (flat_map (λ row. map (λ col. (row, col)) (range 7)) (range 6))

-- The loop over the legal columns: the best value so far, and the columns that have it.
unfoldable pub choose : (ℕ → Search ℤ) → ℕ → ℕ → ℤ → List ℕ → List ℕ → Search (ℤ × List ℕ)
choose reply current occupied best best_moves [] = pure (best, best_moves)
choose reply current occupied best best_moves (col ∷ cols) = do
  let after_move = bit_or current (move_bit occupied col)
  value ← (if has_four after_move then pure (pos 1) else reply after_move)
  let better = choose reply current occupied value (col ∷ []) cols
  let equal = choose reply current occupied best (best_moves ++ col ∷ []) cols
  let worse = choose reply current occupied best best_moves cols
  if ltb_ℤ best value then better else if eqb_ℤ value best then equal else worse

-- A logit of 0 for each best column, -1.0e9 for the others.
unfoldable pub policy_row : List ℕ → List ℤ
policy_row best_moves =
    map (λ col. if exists (λ m. m == col) best_moves then pos 0 else negsuc 999_999_999) (range 7)

unfoldable pub value_of : ℤ → ℤ
value_of best = if eqb_ℤ best (negsuc 1) then pos 0 else best

module _ (should_cancel past_deadline : ℕ → Bool) where
  -- `-self._score(opponent, after_move, self.depth - 1) if self.depth > 1 else 0`
  unfoldable pub root_reply : ℕ → ℕ → ℕ → Search ℤ
  root_reply (suc (suc d)) opponent after_move = do
    value ← score should_cancel past_deadline (suc d) opponent after_move
    pure (neg value)
  root_reply d opponent after_move = pure (pos 0)

  -- The best value and the best columns; -2 stands for a board with no move.
  unfoldable pub root : ℕ → ℕ → ℕ → Search (ℤ × List ℕ)
  root depth current opponent =
      choose (root_reply depth opponent) current (bit_or current opponent) (negsuc 1) []
        (legal_moves (bit_or current opponent))

  unfoldable pub evaluate_row : ℕ → Planes → Search (List ℤ × ℤ)
  evaluate_row depth planes = do
    let (current, opponent) = bitboards planes
    (best, best_moves) ← root depth current opponent
    pure (policy_row best_moves, value_of best)

  unfoldable pub evaluate : ℕ → List Planes → Search (List (List ℤ × ℤ))
  evaluate depth [] = pure []
  evaluate depth (planes ∷ rows) = do
    row ← evaluate_row depth planes
    rest ← evaluate depth rows
    pure (row ∷ rest)
