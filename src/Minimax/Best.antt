-- ===== src/Minimax/Best.antt =====
-- The greatest of the values of some moves, and the moves that reach it.
use connect4codex.Prelude.{
  ℕ, ◌≡◌, refl, ap, ◌∙◌, true, false, List, [], ◌∷◌, ◌++◌, keep_if, arith, if◌then◌else◌,
}
use mathlib.Core.List.{append_assoc, append-nil}
use connect4codex.Prelude.Int.{ℤ, max_ℤ, ltb_ℤ, eqb_ℤ, ◌≤ℤ◌}
use connect4codex.Minimax.Negamax.{max_assoc}

module _ (value : ℕ → ℤ) where
  -- The greatest value met, from a start.
  unfoldable pub top : ℤ → List ℕ → ℤ
  top best [] = best
  top best (col ∷ cols) = top (max_ℤ best (value col)) cols

  top-ge : (best : ℤ) (cols : List ℕ) → best ≤ℤ top best cols
  unfolding top
  top-ge best [] = omega arith
  top-ge best (col ∷ cols) = ground (arith, top-ge (max_ℤ best (value col)) cols)

  -- The columns whose value is `best`.
  abbrev pub worth : ℤ → List ℕ → List ℕ
  worth best cols = keep_if (λ col. eqb_ℤ (value col) best) cols

  abbrev pub kept : ℤ → ℤ → List ℕ → List ℕ
  kept best whole best_moves = if eqb_ℤ whole best then best_moves else []

  kept_better :
      (best whole : ℤ) (best_moves : List ℕ) (col : ℕ) (rest : List ℕ)
      → ltb_ℤ best (value col) ≡ true
      → value col ≤ℤ whole
      → kept (value col) whole (col ∷ []) ++ rest
        ≡ kept best whole best_moves
          ++ (elim (eqb_ℤ (value col) whole) [ true ↦ col ∷ rest | false ↦ rest ])
  kept_better best whole best_moves col rest h k = ground arith

  kept_worse :
      (best whole : ℤ) (best_moves : List ℕ) (col : ℕ) (rest : List ℕ)
      → ltb_ℤ best (value col) ≡ false
      → eqb_ℤ (value col) best ≡ false
      → best ≤ℤ whole
      → kept best whole best_moves ++ rest
        ≡ kept best whole best_moves
          ++ (elim (eqb_ℤ (value col) whole) [ true ↦ col ∷ rest | false ↦ rest ])
  kept_worse best whole best_moves col rest h k l = ground arith

  kept_equal :
      (best whole : ℤ) (best_moves : List ℕ) (col : ℕ) (rest : List ℕ)
      → eqb_ℤ (value col) best ≡ true
      → kept best whole (best_moves ++ col ∷ []) ++ rest
        ≡ kept best whole best_moves
          ++ (elim (eqb_ℤ (value col) whole) [ true ↦ col ∷ rest | false ↦ rest ])
  kept_equal best whole best_moves col rest h =
      ground (arith, append_assoc best_moves (col ∷ []) rest)

  kept_all : (best : ℤ) (best_moves : List ℕ) → kept best best best_moves ++ [] ≡ best_moves
  kept_all best best_moves = ground (arith, append-nil best_moves)

  -- What the loop finds from a best value and its columns.
  unfoldable pub found : ℤ → List ℕ → List ℕ → ℤ × List ℕ
  found best best_moves cols =
      (top best cols, kept best (top best cols) best_moves ++ worth (top best cols) cols)

  max_better : (best v : ℤ) → ltb_ℤ best v ≡ true → max_ℤ best v ≡ v
  max_better best v h = ground arith

  max_worse : (best v : ℤ) → ltb_ℤ best v ≡ false → max_ℤ best v ≡ best
  max_worse best v h = ground arith

  pub found_nil : (best : ℤ) (best_moves : List ℕ) → (best, best_moves) ≡ found best best_moves []
  unfolding found top
  found_nil best best_moves = ground (arith, kept_all best best_moves)

  pub found_better :
      (best : ℤ) (best_moves : List ℕ) (col : ℕ) (cols : List ℕ)
      → ltb_ℤ best (value col) ≡ true
      → found (value col) (col ∷ []) cols ≡ found best best_moves (col ∷ cols)
  unfolding found top
  found_better best best_moves col cols h = rw (max_better best (value col) h) (
      ap (λ l. (top (value col) cols, l))
        (kept_better best (top (value col) cols) best_moves col _ h (top-ge (value col) cols)))

  pub found_equal :
      (best : ℤ) (best_moves : List ℕ) (col : ℕ) (cols : List ℕ)
      → ltb_ℤ best (value col) ≡ false
      → eqb_ℤ (value col) best ≡ true
      → found best (best_moves ++ col ∷ []) cols ≡ found best best_moves (col ∷ cols)
  unfolding found top
  found_equal best best_moves col cols h k =
      rw (max_worse best (value col) h)
        (ap (λ l. (top best cols, l)) (kept_equal best (top best cols) best_moves col _ k))

  pub found_worse :
      (best : ℤ) (best_moves : List ℕ) (col : ℕ) (cols : List ℕ)
      → ltb_ℤ best (value col) ≡ false
      → eqb_ℤ (value col) best ≡ false
      → found best best_moves cols ≡ found best best_moves (col ∷ cols)
  unfolding found top
  found_worse best best_moves col cols h k = rw (max_worse best (value col) h) (
      ap (λ l. (top best cols, l))
        (kept_worse best (top best cols) best_moves col _ h k (top-ge best cols)))

  pub top_max : (best b : ℤ) (cols : List ℕ) → top (max_ℤ best b) cols ≡ max_ℤ best (top b cols)
  unfolding top
  top_max best b [] = refl
  top_max best b (col ∷ cols) =
      ap (λ v. top v cols) (max_assoc best b (value col)) ∙ top_max best (max_ℤ b (value col)) cols
