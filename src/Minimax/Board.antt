-- ===== src/Minimax/Board.antt =====
-- Bitboards: bit row * 7 + col stands for the cell at (row, col), row 0 at the bottom.
use connect4codex.Prelude.{
  ℕ, zero, suc, ◌+◌, ◌*◌, ◌/◌, ◌%◌, ◌^◌, Bool, true, false, ◌&&◌, List, [], ◌∷◌, map, bit_and,
  range, exists, keep_if, flat_map, sum_by, ◌==◌,
}
use connect4codex.Prelude.Int.{ℤ, pos, negsuc, pos_part, ◌+ℤ◌, ◌*ℤ◌, in_range}

-- The columns, from the centre outwards.
abbrev pub center_first : List ℕ
center_first = 3 ∷ 2 ∷ 4 ∷ 1 ∷ 5 ∷ 0 ∷ 6 ∷ []

-- All six cells of a column.
abbrev pub column_mask : ℕ → ℕ
column_mask col = sum_by (λ row. 2 ^ (row * 7 + col)) (range 6)

-- Along a row, up a column, and along both diagonals.
abbrev directions : List (ℕ × ℤ)
directions = (0, pos 1) ∷ (1, pos 0) ∷ (1, pos 1) ∷ (1, negsuc 0) ∷ []

abbrev fits : ℕ → ℕ → ℕ × ℤ → Bool
fits row col (dr, dc) = in_range (pos (row + 3 * dr)) 6 && in_range (pos col +ℤ pos 3 *ℤ dc) 7

abbrev line_mask : ℕ → ℕ → ℕ × ℤ → ℕ
line_mask row col (dr, dc) =
    sum_by (λ step. 2 ^ pos_part (pos ((row + step * dr) * 7 + col) +ℤ pos step *ℤ dc)) (range 4)

unfoldable pub winning_masks : List ℕ
winning_masks =
    flat_map
      (λ row.
        flat_map (λ col. map (line_mask row col) (keep_if (fits row col) directions)) (range 7))
      (range 6)

unfoldable pub has_four : ℕ → Bool
unfolding winning_masks
has_four bits = exists (λ mask. bit_and bits mask == mask) winning_masks

-- A column takes a move while its top cell, bit 35 + col, is clear.
unfoldable pub legal_moves : ℕ → List ℕ
legal_moves occupied = keep_if (λ col. bit_and occupied (2 ^ (35 + col)) == 0) center_first

-- `int.bit_count`; the fuel is the number itself, which has fewer bits than that.
bits_set : ℕ → ℕ → ℕ
bits_set zero n = 0
bits_set (suc fuel) n = elim (n == 0) [ true ↦ 0 | false ↦ n % 2 + bits_set fuel (n / 2) ]

unfoldable pub bit_count : ℕ → ℕ
unfolding bits_set
bit_count n = bits_set n n

-- The lowest free cell of a column, as a bit.
unfoldable pub move_bit : ℕ → ℕ → ℕ
unfolding bit_count
move_bit occupied col = 2 ^ (bit_count (bit_and occupied (column_mask col)) * 7 + col)
