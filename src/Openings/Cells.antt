-- ===== src/Openings/Cells.antt =====
-- A piece put on a board changes its own cell and no other.
use connect4codex.Prelude.{
  ℕ, ◌<◌, ◌≡◌, ◌≢◌, sym, ap, ◌∙◌, [], length, length-set, get_or, get_or-set, get_or-set_other, set,
  All, All-set, All-get_or, ◌==◌, ==_iff, Bool-cases, inl, inr, arith,
}
use connect4codex.Openings.Board.{Grid, cell, put}

-- Six rows of seven cells.
pub record IsSized (board : Grid) : Type 0 where
  pub rows : length board ≡ 6
  pub columns : All (λ row. length row ≡ 7) board

module _ (board : Grid) (row col player : ℕ) where
  pub put-IsSized : row < 6 → IsSized board → IsSized (put board row col player)
  unfolding put
  put-IsSized h s = record {
    rows = length-set board row _ ∙ s.rows;
    columns =
        All-set (λ cells. length cells ≡ 7) board row _ s.columns
          (length-set (get_or board row []) col player
            ∙ All-get_or (λ cells. length cells ≡ 7) board row [] s.columns
                (omega (arith, h, s.rows)));
  }

  pub cell-put :
      row < 6 → col < 7 → IsSized board → cell (put board row col player) row col ≡ player
  unfolding put
  cell-put h h' s =
      let wide =
        All-get_or (λ cells. length cells ≡ 7) board row [] s.columns (omega (arith, h, s.rows)) in
      ap (λ cells. get_or cells col 0)
        (get_or-set board row (set (get_or board row []) col player) [] (omega (arith, h, s.rows)))
      ∙ get_or-set (get_or board row []) col player 0 (omega (arith, h', wide))

  pub cell-put_other_row :
      (r c : ℕ) → row ≢ r → cell (put board row col player) r c ≡ cell board r c
  unfolding put
  cell-put_other_row r c h = ap (λ cells. get_or cells c 0) (get_or-set_other board row r _ [] h)

  pub cell-put_other :
      (r c : ℕ)
      → r < 6
      → IsSized board
      → col ≢ c
      → cell (put board row col player) r c ≡ cell board r c
  unfolding put
  cell-put_other r c low s h = elim (Bool-cases (row == r)) [
    | inl e ↦
        let same = (==_iff row r).0 e in
        let changed : get_or (set board row (set (get_or board row []) col player)) row []
            ≡ set (get_or board row []) col player =
          get_or-set board row _ [] (omega (arith, low, s.rows, same)) in
        ap (λ k. cell (put board row col player) k c) (sym same)
        ∙ ap (λ cells. get_or cells c 0) changed
        ∙ get_or-set_other (get_or board row []) col c player 0 h
        ∙ ap (λ k. cell board k c) same
    | inr e ↦ cell-put_other_row r c (ground arith)
  ]
