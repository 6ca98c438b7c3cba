-- ===== src/Openings/Board.antt =====
-- `_winning`, `_opening_is_nonterminal` and `_opening_key`: a board of rows, from the lowest, and the
-- heights of its columns. A move is a natural number. A key of a full column's move raises IndexError
-- in the source; the openings drawn here are too short for one.
use connect4codex.Prelude.{
  ℕ, ◌+◌, ◌-◌, Bool, true, false, Option, none, some, List, [], ◌∷◌, flat_map, replicate, range,
  exists, forall, get_or, set, ltb, leb, ◌==◌, ◌&&◌, ◌||◌, if◌then◌else◌,
}

abbrev pub Grid : Type 0
Grid = List (List ℕ)

-- [[0] * 7 for _ in range(6)]
abbrev pub empty_grid : Grid
empty_grid = replicate 6 (replicate 7 0)

abbrev pub cell : Grid → ℕ → ℕ → ℕ
cell board row col = get_or (get_or board row []) col 0

-- board[row][col] = player
unfoldable pub put : Grid → ℕ → ℕ → ℕ → Grid
put board row col player = set board row (set (get_or board row []) col player)

-- (1, 0), (0, 1), (1, 1) and (1, -1)
pub data Direction : Type 0 where
  up right rising falling : Direction

abbrev pub directions : List Direction
directions = up ∷ right ∷ rising ∷ falling ∷ []

-- (row + dr * step, col + dc * step), where none has a column below 0
unfoldable pub along : Direction → ℕ → ℕ → ℕ → Option (ℕ × ℕ)
along up row col step = some (row + step, col)
along right row col step = some (row, col + step)
along rising row col step = some (row + step, col + step)
along falling row col step = if ltb col step then none else some (row + step, col - step)

unfoldable pub held_at : Grid → ℕ → Option (ℕ × ℕ) → Bool
held_at board player none = false
held_at board player (some (row, col)) = ltb row 6 && (ltb col 7 && (cell board row col == player))

unfoldable pub winning : Grid → ℕ → Bool
unfolding along held_at
winning board player =
    exists
      (λ row.
        exists
          (λ col.
            exists (λ d. forall (λ step. held_at board player (along d row col step)) (range 4))
              directions)
          (range 7))
      (range 6)

unfoldable pub nonterminal_from : Grid → List ℕ → ℕ → List ℕ → Bool
unfolding put winning
nonterminal_from board heights player [] = true
nonterminal_from board heights player (move ∷ moves) =
    let board' = put board (get_or heights move 0) move player in
    let rest =
      nonterminal_from board' (set heights move (get_or heights move 0 + 1)) (3 - player) moves in
    if leb 7 move || leb 6 (get_or heights move 0)
    then false
    else if winning board' player
    then false
    else rest

unfoldable pub opening_is_nonterminal : List ℕ → Bool
opening_is_nonterminal moves = nonterminal_from empty_grid (replicate 7 0) 1 moves

unfoldable pub board_from : Grid → List ℕ → ℕ → List ℕ → Grid
unfolding put
board_from board heights player [] = board
board_from board heights player (move ∷ moves) =
    board_from (put board (get_or heights move 0) move player)
      (set heights move (get_or heights move 0 + 1)) (3 - player) moves

unfoldable pub opening_key : List ℕ → List ℕ
opening_key moves = flat_map (λ row. row) (board_from empty_grid (replicate 7 0) 1 moves)
