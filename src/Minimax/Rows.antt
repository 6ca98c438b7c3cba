-- ===== src/Minimax/Rows.antt =====
-- What a batch evaluation returns for each position, told cell by cell and column by column.
use connect4codex.Prelude.{
  either, or_first, or_later, ℕ, zero, suc, ◌+◌, ◌<◌, ◌≡◌, refl, sym, ap, ◌∙◌, Bool, true, some,
  List, [], ◌∷◌, length, map, bit_or, range, range_from, get_elem?, exists, Elem, Elem-keep_if,
  keep_if-Elem, if◌then◌else◌, ◌==◌, ==_iff, Bool-cases, inl, inr, arith,
}
use mathlib.Core.Path.{subst}
use connect4codex.Prelude.Int.{ℤ, pos, negsuc, eqb_ℤ}
use connect4codex.Minimax.Board.{legal_moves}
use connect4codex.Minimax.Search.{Memo}
use connect4codex.Minimax.Negamax.{move_value, negamax}
use connect4codex.Minimax.Moves.{child_value}
use connect4codex.Minimax.Computes.{IsConsistent, Answers}
use connect4codex.Minimax.Policy.{Planes, policy_row, evaluate}
use connect4codex.Minimax.Boards.{is_own, is_other, board_of, bitboards-board_of}
use connect4codex.Minimax.Optimal.{best_columns, optimal_row, evaluate-optimal_row}

-- A legal column whose move has the value of the position.
abbrev pub IsBest : ℕ → ℕ → ℕ → ℕ → Type 0
IsBest d own other col =
    Elem col (legal_moves (bit_or own other))
    × (move_value (child_value d other) own (bit_or own other) col ≡ negamax d own other)

-- A policy of seven logits, 0 for a best column and -1.0e9 for any other, and the position's value.
abbrev IsRow : ℕ → ℕ → ℕ → List ℤ × ℤ → Type 0
IsRow d own other row =
    (length row.0 ≡ 7)
    × ((col : ℕ)
        → col < 7
        → (IsBest d own other col → get_elem? row.0 col ≡ some (pos 0))
          × ((IsBest d own other col → ⊥) → get_elem? row.0 col ≡ some (negsuc 999_999_999)))
    × (row.1 ≡ negamax d own other)

-- Of the two boards that the planes show.
abbrev pub IsOptimal : ℕ → Planes → List ℤ × ℤ → Type 0
IsOptimal d planes row = IsRow d (board_of (is_own planes)) (board_of (is_other planes)) row

abbrev pub AreOptimal : ℕ → List Planes → List (List ℤ × ℤ) → Type 0
AreOptimal d [] [] = Unit
AreOptimal d [] (row ∷ rows) = ⊥
AreOptimal d (planes ∷ rest) [] = ⊥
AreOptimal d (planes ∷ rest) (row ∷ rows) = IsOptimal d planes row × AreOptimal d rest rows

get_elem?-map-range_from :
    {A : Type 0} (f : ℕ → A) (n i k : ℕ)
    → k < n
    → get_elem? (map f (range_from n i)) k ≡ some (f (i + k))
get_elem?-map-range_from f zero i k h = absurd (omega arith)
get_elem?-map-range_from f (suc n) i zero h = let here : i + 0 ≡ i = omega arith in rw here refl
get_elem?-map-range_from f (suc n) i (suc k) h =
    let next : i + suc k ≡ suc i + k = omega arith in
    rw next (get_elem?-map-range_from f n (suc i) k (omega arith))

get_elem?-map-range :
    {A : Type 0} (f : ℕ → A) (n k : ℕ) → k < n → get_elem? (map f (range n)) k ≡ some (f k)
get_elem?-map-range f n k h =
    get_elem?-map-range_from f n 0 k h ∙ ap (λ j. some (f j)) (omega arith)

exists-Elem : (col : ℕ) (cols : List ℕ) → Elem col cols → exists (λ m. m == col) cols ≡ true
exists-Elem col (m ∷ cols) (inl e) =
    or_first (m == col) (exists (λ m. m == col) cols) ((==_iff m col).1 (sym e))
exists-Elem col (m ∷ cols) (inr e) = or_later (m == col) _ (exists-Elem col cols e)
exists-Elem col [] e = absurd e

Elem-exists : (col : ℕ) (cols : List ℕ) → exists (λ m. m == col) cols ≡ true → Elem col cols
Elem-exists col [] h = cc
Elem-exists col (m ∷ cols) h = elim (either (m == col) (exists (λ m. m == col) cols) h) [
  | inl e ↦ inl (sym ((==_iff m col).0 e))
  | inr later ↦ inr (Elem-exists col cols later)
]

eqb_ℤ→≡ : (a b : ℤ) → eqb_ℤ a b ≡ true → a ≡ b
eqb_ℤ→≡ a b h = ground arith

≡→eqb_ℤ : (a b : ℤ) → a ≡ b → eqb_ℤ a b ≡ true
≡→eqb_ℤ a b h = ground arith

module _ (d own other : ℕ) where
  IsBest-Elem : (col : ℕ) → IsBest d own other col → Elem col (best_columns d own other)
  unfolding best_columns
  IsBest-Elem col (legal, best) = Elem-keep_if _ col _ legal (≡→eqb_ℤ _ _ best)

  best_columns-IsBest : (col : ℕ) → Elem col (best_columns d own other) → IsBest d own other col
  unfolding best_columns
  best_columns-IsBest col e =
      let (legal, best) = keep_if-Elem _ col _ e in (legal, eqb_ℤ→≡ _ _ best)

  policy-IsRow : IsRow d own other (policy_row (best_columns d own other), negamax d own other)
  unfolding policy_row
  policy-IsRow =
      let cols = best_columns d own other in
      let marked = λ (col : ℕ). exists (λ m. m == col) cols in
      let at = λ (col : ℕ) (h : col < 7).
        get_elem?-map-range (λ col. if marked col then pos 0 else negsuc 999_999_999) 7 col h in
      (
        refl,
        λ col h. (
          λ best.
              at col h
              ∙ ap (λ b. some (if b then pos 0 else negsuc 999_999_999))
                  (exists-Elem col cols (IsBest-Elem col best)),
          λ other_col. elim (Bool-cases (marked col)) [
            | inl e ↦ absurd (other_col (best_columns-IsBest col (Elem-exists col cols e)))
            | inr e ↦ at col h ∙ ap (λ b. some (if b then pos 0 else negsuc 999_999_999)) e
          ],
        ),
        refl,
      )

optimal_row-IsOptimal : (d : ℕ) (planes : Planes) → IsOptimal d planes (optimal_row d planes)
unfolding optimal_row
optimal_row-IsOptimal d planes =
    subst
      (λ (boards : ℕ × ℕ).
        IsOptimal d planes
          (policy_row (best_columns d boards.0 boards.1), negamax d boards.0 boards.1))
      (sym (bitboards-board_of planes))
      (policy-IsRow d (board_of (is_own planes)) (board_of (is_other planes)))

all_optimal : (d : ℕ) (rows : List Planes) → AreOptimal d rows (map (optimal_row d) rows)
all_optimal d [] = tt
all_optimal d (planes ∷ rows) = (optimal_row-IsOptimal d planes, all_optimal d rows)

-- From a cache that agrees with plain negamax, the batch evaluation returns a row for each position, or it
-- stops at a poll that told it to cancel or found the deadline past; the cache still agrees. A
-- row has seven logits, 0 for exactly the legal columns whose move has the position's value and -1.0e9
-- for the others, and that value, which is plain negamax's for the boards that the two planes show: the
-- side to move owns the cells of the first plane, the other side those of the second alone.
pub evaluate-AreOptimal :
    (should_cancel past_deadline : ℕ → Bool) (depth : ℕ) (rows : List Planes) (s : Memo)
    → IsConsistent s
    → IsConsistent (evaluate should_cancel past_deadline depth rows s).1
      × ((results : List (List ℤ × ℤ)) × (AreOptimal depth rows results
            × Answers should_cancel past_deadline results
                (evaluate should_cancel past_deadline depth rows s).0))
evaluate-AreOptimal should_cancel past_deadline depth rows s h =
    let (agrees, answers) = evaluate-optimal_row should_cancel past_deadline depth rows s h in
    (agrees, (map (optimal_row depth) rows, (all_optimal depth rows, answers)))
