-- ===== src/Minimax/Cached.antt =====
-- `_score` against the reference: the cut-off, the cache and its clearing change no value.
use connect4codex.Prelude.{
  ℕ, zero, suc, ◌≡◌, refl, Bool, true, Option, none, some, List, [], ◌∷◌, bit_or, arith, get, pure,
  ◌>>=◌, ◌>>◌, modify,
}
use connect4codex.Prelude.Int.{ℤ, pos, negsuc, neg, max_ℤ, eqb_ℤ}
use connect4codex.Minimax.Board.{has_four, legal_moves, move_bit}
use connect4codex.Minimax.Search.{
  Key, Memo, Search, best_reply, remember, expand, visit, score, key_eq,
}
use connect4codex.Minimax.Negamax.{
  move_value, best_value, position_value, negamax, IsScore, best_value-IsScore, negamax-IsScore,
  neg-IsScore, max_assoc,
}
use connect4codex.Minimax.Computes.{
  reference, IsConsistent, get-reference, remember-IsConsistent, Answers, Computes, Computes-bind,
  Computes-pure, Computes-if, Computes-poll,
}

module _ (should_cancel past_deadline : ℕ → Bool) where
  max_cut :
      (best x rest : ℤ)
      → IsScore rest
      → eqb_ℤ (max_ℤ best x) (pos 1) ≡ true
      → max_ℤ best x ≡ max_ℤ best (max_ℤ x rest)
  max_cut best x rest h e = ground arith

  max_bottom : (v : ℤ) → IsScore v → max_ℤ (negsuc 0) v ≡ v
  max_bottom v h = ground arith

  max_won : (best rest : ℤ) → IsScore best → IsScore rest → pos 1 ≡ max_ℤ best (max_ℤ (pos 1) rest)
  max_won best rest h k = ground arith

  max-IsScore : (a b : ℤ) → IsScore a → IsScore b → IsScore (max_ℤ a b)
  max-IsScore a b h k = ground arith

  Computes-best_reply :
      (reply : ℕ → Search ℤ) (child : ℕ → ℤ)
      → ((a : ℕ) → IsScore (child a))
      → ((a : ℕ) → Computes should_cancel past_deadline (child a) (reply a))
      → (current occupied : ℕ) (best : ℤ) (cols : List ℕ) → IsScore best
      → Computes should_cancel past_deadline
          (max_ℤ best (best_value child current occupied cols))
          (best_reply reply current occupied best cols)
  unfolding best_reply best_value move_value
  Computes-best_reply reply child scored computes current occupied best [] b =
      Computes-pure should_cancel past_deadline _ _ (ground arith)
  Computes-best_reply reply child scored computes current occupied best (col ∷ cols) b =
      let after_move = bit_or current (move_bit occupied col) in
      let x = child after_move in
      let rest = best_value child current occupied cols in
      let rest_scored = best_value-IsScore child scored current occupied cols in
      Computes-if should_cancel past_deadline _ (has_four after_move) _ _
        (λ four.
          rw (four, move_value)
            (Computes-pure should_cancel past_deadline _ _ (max_won best rest b rest_scored)))
        (λ quiet.
          rw (quiet, move_value)
            (Computes-bind should_cancel past_deadline x _ (reply after_move) _
              (computes after_move)
              (Computes-if should_cancel past_deadline _ (eqb_ℤ (max_ℤ best x) (pos 1)) _ _
                (λ won.
                  Computes-pure should_cancel past_deadline _ _
                    (max_cut best x rest rest_scored won))
                (λ open_. rw (← max_assoc best x rest) (
                  Computes-best_reply reply child scored computes current occupied (max_ℤ best x)
                    cols (max-IsScore best x b (scored after_move)))))))

  Computes-remember :
      (k : Key) (w : ℤ) (m : Search ℤ)
      → w ≡ reference k
      → Computes should_cancel past_deadline w m
      → Computes should_cancel past_deadline w (m >>= λ best. modify (remember k best) >> pure best)
  Computes-remember k w m e c =
      Computes-bind should_cancel past_deadline w w m _ c
        λ s h. (remember-IsConsistent k w s e h, refl)

  Computes-expand :
      (reply : ℕ → Search ℤ) (child : ℕ → ℤ)
      → ((a : ℕ) → IsScore (child a))
      → ((a : ℕ) → Computes should_cancel past_deadline (child a) (reply a))
      → (k : Key) (legal : List ℕ) (cached : Option ℤ)
      → position_value child k.current (bit_or k.current k.opponent) legal ≡ reference k
      → ((v : ℤ) → cached ≡ some v → v ≡ reference k)
      → Computes should_cancel past_deadline
          (position_value child k.current (bit_or k.current k.opponent) legal)
          (expand reply k.current k.opponent k.depth legal cached)
  unfolding expand position_value
  Computes-expand reply child scored computes k legal (some v) e hit =
      Computes-pure should_cancel past_deadline _ _ (rw (e, hit v refl))
  Computes-expand reply child scored computes k [] none e hit =
      Computes-pure should_cancel past_deadline _ _ refl
  Computes-expand reply child scored computes k (col ∷ cols) none e hit =
      let occupied = bit_or k.current k.opponent in
      let whole = best_value-IsScore child scored k.current occupied (col ∷ cols) in
      Computes-remember k _ _ e (
        rw (max_bottom (best_value child k.current occupied (col ∷ cols)) whole) at (
          Computes-best_reply reply child scored computes k.current occupied (negsuc 0) (col ∷ cols)
            (omega arith)))

  Computes-visit :
      (reply : ℕ → Search ℤ) (child : ℕ → ℤ)
      → ((a : ℕ) → IsScore (child a))
      → ((a : ℕ) → Computes should_cancel past_deadline (child a) (reply a))
      → (k : Key)
      → position_value child k.current
          (bit_or k.current k.opponent)
          (legal_moves (bit_or k.current k.opponent))
        ≡ reference k
      → Computes should_cancel past_deadline
          (reference k)
          (visit should_cancel past_deadline reply k.current k.opponent k.depth)
  unfolding visit
  Computes-visit reply child scored computes k e = rw (← e) (
      Computes-poll should_cancel past_deadline _ _ (λ s h.
        Computes-expand reply child scored computes k _ (get k s.cache) e
          (λ v. get-reference k v s.cache h) s h))

  Computes-score :
      (d current opponent : ℕ)
      → Computes should_cancel past_deadline
          (negamax d current opponent)
          (score should_cancel past_deadline d current opponent)
  unfolding score
  Computes-score (suc (suc d)) current opponent =
      Computes-visit _ (λ a. neg (negamax (suc d) opponent a))
        (λ a. neg-IsScore _ (negamax-IsScore (suc d) opponent a))
        (λ a.
          Computes-bind should_cancel past_deadline _ _ _ _ (Computes-score (suc d) opponent a)
            (Computes-pure should_cancel past_deadline _ _ refl))
        (record { current = current; opponent = opponent; depth = suc (suc d) })
        (unfold negamax in refl)
  Computes-score (suc zero) current opponent =
      Computes-visit _ (λ a. pos 0) (λ a. omega arith)
        (λ a. Computes-pure should_cancel past_deadline _ _ refl)
        (record { current = current; opponent = opponent; depth = suc zero })
        (unfold negamax in refl)
  Computes-score zero current opponent =
      Computes-visit _ (λ a. pos 0) (λ a. omega arith)
        (λ a. Computes-pure should_cancel past_deadline _ _ refl)
        (record { current = current; opponent = opponent; depth = zero }) (unfold negamax in refl)

-- From a cache that agrees with plain negamax, a search leaves such a cache. If it returns, the
-- value is that of plain negamax; if it raises, some poll, at a node count divisible by 256, was
-- told to cancel or found the deadline past, and the error says which.
pub score-negamax :
    (should_cancel past_deadline : ℕ → Bool) (d current opponent : ℕ) (s : Memo)
    → IsConsistent s
    → IsConsistent (score should_cancel past_deadline d current opponent s).1
      × Answers should_cancel past_deadline
          (negamax d current opponent)
          (score should_cancel past_deadline d current opponent s).0
score-negamax should_cancel past_deadline d current opponent s h =
    Computes-score should_cancel past_deadline d current opponent s h
