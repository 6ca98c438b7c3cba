-- ===== src/Minimax/Optimal.antt =====
-- The loop of `__call__` finds the value of a position and every column that has it.
use connect4codex.Prelude.{
  ℕ, zero, suc, ◌≡◌, refl, ap, ◌∙◌, Bool, List, [], ◌∷◌, ◌++◌, bit_or, arith, if◌then◌else◌, pure,
  map,
}
use connect4codex.Prelude.Int.{ℤ, pos, negsuc, max_ℤ, ltb_ℤ, eqb_ℤ}
use connect4codex.Minimax.Board.{has_four, legal_moves, move_bit}
use connect4codex.Minimax.Search.{Search, Memo}
use connect4codex.Minimax.Negamax.{
  move_value, best_value, position_value, negamax, IsScore, move_value-IsScore, best_value-IsScore,
  max_comm,
}
use connect4codex.Minimax.Moves.{child_value, child_value-IsScore, negamax_value}
use connect4codex.Minimax.Computes.{
  IsConsistent, Answers, Computes, Computes-bind, Computes-pure, Computes-if, Computes-cast,
}
use connect4codex.Minimax.Cached.{score-negamax}
use connect4codex.Minimax.Policy.{
  Planes, bitboards, choose, root_reply, root, policy_row, value_of, evaluate_row, evaluate,
}
use connect4codex.Minimax.Best.{
  top, worth, kept, found, found_nil, top_max, found_better, found_equal, found_worse,
}

module _ (should_cancel past_deadline : ℕ → Bool) where
  Computes-move :
      (reply : ℕ → Search ℤ) (child : ℕ → ℤ) (current occupied : ℕ)
      → ((a : ℕ) → Computes should_cancel past_deadline (child a) (reply a))
      → (col : ℕ)
      → Computes should_cancel past_deadline (move_value child current occupied col) (
          if has_four (bit_or current (move_bit occupied col))
          then pure (pos 1)
          else reply (bit_or current (move_bit occupied col)))
  unfolding move_value
  Computes-move reply child current occupied computes col =
      Computes-if should_cancel past_deadline _ (has_four (bit_or current (move_bit occupied col)))
        _ _ (λ four. rw (four, move_value) (Computes-pure should_cancel past_deadline _ _ refl))
        (λ quiet. rw (quiet, move_value) (computes _))

  Computes-choose :
      (reply : ℕ → Search ℤ) (child : ℕ → ℤ) (current occupied : ℕ)
      → ((a : ℕ) → Computes should_cancel past_deadline (child a) (reply a))
      → (best : ℤ) (best_moves cols : List ℕ)
      → Computes should_cancel past_deadline
          (found (move_value child current occupied) best best_moves cols)
          (choose reply current occupied best best_moves cols)
  unfolding choose
  Computes-choose reply child current occupied computes best best_moves [] =
      Computes-pure should_cancel past_deadline _ _
        (found_nil (move_value child current occupied) best best_moves)
  Computes-choose reply child current occupied computes best best_moves (col ∷ cols) =
      let value = move_value child current occupied in
      let from =
        λ (b : ℤ) (ms : List ℕ). Computes-choose reply child current occupied computes b ms cols in
      Computes-bind should_cancel past_deadline (value col) _ _ _
        (Computes-move reply child current occupied computes col)
        (Computes-if should_cancel past_deadline _ (ltb_ℤ best (value col)) _ _
          (λ h.
            Computes-cast should_cancel past_deadline _ _
              (choose reply current occupied (value col) (col ∷ []) cols)
              (found_better value best best_moves col cols h) (from (value col) (col ∷ [])))
          (λ h.
            Computes-if should_cancel past_deadline _ (eqb_ℤ (value col) best) _ _
              (λ k.
                Computes-cast should_cancel past_deadline _ _
                  (choose reply current occupied best (best_moves ++ col ∷ []) cols)
                  (found_equal value best best_moves col cols h k)
                  (from best (best_moves ++ col ∷ [])))
              (λ k.
                Computes-cast should_cancel past_deadline _ _
                  (choose reply current occupied best best_moves cols)
                  (found_worse value best best_moves col cols h k) (from best best_moves))))

  Computes-root_reply :
      (d opponent a : ℕ)
      → Computes should_cancel past_deadline
          (child_value d opponent a)
          (root_reply should_cancel past_deadline d opponent a)
  unfolding root_reply child_value
  Computes-root_reply (suc (suc d)) opponent a =
      Computes-bind should_cancel past_deadline _ _ _ _
        (score-negamax should_cancel past_deadline (suc d) opponent a)
        (Computes-pure should_cancel past_deadline _ _ refl)
  Computes-root_reply (suc zero) opponent a = Computes-pure should_cancel past_deadline _ _ refl
  Computes-root_reply zero opponent a = Computes-pure should_cancel past_deadline _ _ refl

-- The legal columns whose move has the value of the position, from the centre outwards.
unfoldable pub best_columns : ℕ → ℕ → ℕ → List ℕ
best_columns d current opponent =
    worth (move_value (child_value d opponent) current (bit_or current opponent))
      (negamax d current opponent) (legal_moves (bit_or current opponent))

-- What `__call__` promises for one position.
unfoldable pub optimal_row : ℕ → Planes → List ℤ × ℤ
optimal_row d planes =
    let (current, opponent) = bitboards planes in
    (policy_row (best_columns d current opponent), negamax d current opponent)

module _ (child : ℕ → ℤ) (scored : (a : ℕ) → IsScore (child a)) (current occupied : ℕ) where
  abbrev mv : ℕ → ℤ
  mv = move_value child current occupied

  top-best_value : (cols : List ℕ) → top mv (negsuc 0) cols ≡ best_value child current occupied cols
  unfolding top best_value
  top-best_value [] = refl
  top-best_value (col ∷ cols) =
      ap (λ v. top mv v cols) (max_comm (negsuc 0) (mv col))
      ∙ top_max mv (mv col) (negsuc 0) cols
      ∙ ap (max_ℤ (mv col)) (top-best_value cols)

  max_from : (v : ℤ) → IsScore v → max_ℤ (negsuc 1) v ≡ max_ℤ (negsuc 0) v
  max_from v h = ground arith

  top_root :
      (col : ℕ) (cols : List ℕ)
      → top mv (negsuc 1) (col ∷ cols) ≡ best_value child current occupied (col ∷ cols)
  unfolding top
  top_root col cols =
      ap (λ v. top mv v cols)
        (max_from (mv col) (move_value-IsScore child scored current occupied col))
      ∙ top-best_value (col ∷ cols)

  value_of_score : (v : ℤ) → IsScore v → value_of v ≡ v
  unfolding value_of
  value_of_score v h = ground arith

  kept_none : (best whole : ℤ) (rest : List ℕ) → kept mv best whole [] ++ rest ≡ rest
  kept_none best whole rest = ground arith

  -- From -2 and no column, the loop finds the value of the position and every column that has it.
  found_root :
      (cols : List ℕ)
      → (value_of (found mv (negsuc 1) [] cols).0 ≡ position_value child current occupied cols)
        × ((found mv (negsuc 1) [] cols).1
            ≡ worth mv (position_value child current occupied cols) cols)
  unfolding found position_value
  found_root [] = (unfold top value_of in refl, kept_none (negsuc 1) (top mv (negsuc 1) []) [])
  found_root (col ∷ cols) = (
    ap value_of (top_root col cols)
        ∙ value_of_score _ (best_value-IsScore child scored current occupied (col ∷ cols)),
    kept_none (negsuc 1) (top mv (negsuc 1) (col ∷ cols)) _
        ∙ ap (λ v. worth mv v (col ∷ cols)) (top_root col cols),
  )

module _ (should_cancel past_deadline : ℕ → Bool) where
  Computes-row :
      (depth : ℕ) (planes : Planes)
      → Computes should_cancel past_deadline
          (optimal_row depth planes)
          (evaluate_row should_cancel past_deadline depth planes)
  unfolding evaluate_row root optimal_row best_columns
  Computes-row depth planes =
      let current = (bitboards planes).0 in
      let opponent = (bitboards planes).1 in
      let child = child_value depth opponent in
      let scored = child_value-IsScore depth opponent in
      let legal = legal_moves (bit_or current opponent) in
      let (v, ms) = found_root child scored current (bit_or current opponent) legal in
      Computes-bind should_cancel past_deadline _ _ _ _
        (Computes-choose should_cancel past_deadline _ child current (bit_or current opponent)
          (Computes-root_reply should_cancel past_deadline depth opponent) (negsuc 1) [] legal)
        (Computes-pure should_cancel past_deadline _ _
          (rw (v, ms, negamax_value depth current opponent)))

  Computes-evaluate :
      (depth : ℕ) (rows : List Planes)
      → Computes should_cancel past_deadline
          (map (optimal_row depth) rows)
          (evaluate should_cancel past_deadline depth rows)
  unfolding evaluate
  Computes-evaluate depth [] = Computes-pure should_cancel past_deadline _ _ refl
  Computes-evaluate depth (planes ∷ rows) =
      Computes-bind should_cancel past_deadline _ _ _ _ (Computes-row depth planes) (
        Computes-bind should_cancel past_deadline _ _ _ _ (Computes-evaluate depth rows)
          (Computes-pure should_cancel past_deadline _ _ refl))

-- From a cache that agrees with plain negamax, the batch evaluation returns for each position its
-- value and the policy that marks exactly the legal columns with that value, or it stops at a poll
-- that told it to cancel or found the deadline past; the cache still agrees.
pub evaluate-optimal_row :
    (should_cancel past_deadline : ℕ → Bool) (depth : ℕ) (rows : List Planes) (s : Memo)
    → IsConsistent s
    → IsConsistent (evaluate should_cancel past_deadline depth rows s).1
      × Answers should_cancel past_deadline
          (map (optimal_row depth) rows)
          (evaluate should_cancel past_deadline depth rows s).0
evaluate-optimal_row should_cancel past_deadline depth rows s h =
    Computes-evaluate should_cancel past_deadline depth rows s h
