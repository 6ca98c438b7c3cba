-- ===== src/Minimax/Bounds.antt =====
-- The work and the memory of a search: nodes visited, and entries cached.
use connect4codex.Prelude.{
  bit_and, ◌^◌, ℕ, zero, suc, ◌+◌, ◌*◌, ◌≤◌, ◌≡◌, refl, Bool, true, false, Option, none, some, List,
  [], ◌∷◌, bit_or, length, if◌then◌else◌, Result, ok, err, arith, ◌>>=◌, pure, continue, keep_if,
  length-put, leb, ◌==◌, Bool-cases, inl, inr,
}
use connect4codex.Prelude.Int.{ℤ, pos, negsuc, max_ℤ, eqb_ℤ}
use connect4codex.Minimax.Board.{has_four, legal_moves, move_bit, center_first}
use connect4codex.Minimax.Search.{
  Failure, Key, Memo, Search, cache_limit, poll, best_reply, remember, expand, visit, score, key_eq,
}

-- At most `w` further nodes, and never more than `cache_limit` entries.
pub record Within {A : Type 0} (w : ℕ) (m : Search A) : Type 0 where
  pub at :
      (s : Memo)
      → length s.cache ≤ cache_limit
      → ((m s).1.nodes ≤ s.nodes + w) × (length (m s).1.cache ≤ cache_limit)

module _ {A B : Type 0} where
  Within-continue :
      (b : ℕ) (r : Result Failure A) (f : A → Search B) (s : Memo)
      → length s.cache ≤ cache_limit
      → ((x : A) → Within b (f x))
      → ((continue r f s).1.nodes ≤ s.nodes + b) × (length (continue r f s).1.cache ≤ cache_limit)
  Within-continue b (ok x) f s h c = (c x).at s h
  Within-continue b (err e) f s h c = (omega arith, h)

  Within-bind :
      (a b : ℕ) (m : Search A) (f : A → Search B)
      → Within a m
      → ((x : A) → Within b (f x))
      → Within (a + b) (m >>= f)
  Within-bind a b m f cm cf = record {
    at = λ s h.
        let first = cm.at s h in
        let rest = Within-continue b (m s).0 f (m s).1 first.1 cf in
        (omega (arith, first.0, rest.0), rest.1);
  }

Within-pure : {A : Type 0} (w : ℕ) (x : A) → Within w (pure x)
Within-pure w x = record { at = λ s h. (omega arith, h) }

Within-if :
    {A : Type 0} (w : ℕ) (b : Bool) (m n : Search A)
    → Within w m
    → Within w n
    → Within w (if b then m else n)
Within-if w true m n cm cn = cm
Within-if w false m n cm cn = cn

Within-mono : {A : Type 0} (a b : ℕ) (m : Search A) → a ≤ b → Within a m → Within b m
Within-mono a b m h c = record { at = λ s k. (omega (arith, (c.at s k).0), (c.at s k).1) }

remember_within :
    (k : Key) (v : ℤ) (s : Memo)
    → length s.cache ≤ cache_limit
    → ((remember k v s).nodes ≡ s.nodes) × (length (remember k v s).cache ≤ cache_limit)
unfolding remember
remember_within k v s h = elim (Bool-cases (leb cache_limit (length s.cache))) [
  | inl full ↦ (refl, rw full (omega (arith, length-put k v [])))
  | inr room ↦ (refl, rw room (ground (arith, length-put k v s.cache)))
]

module _ (should_cancel past_deadline : ℕ → Bool) where
  Within-poll : Within 1 (poll should_cancel past_deadline)
  unfolding poll
  Within-poll = record { at = λ s h. (ground arith, ground arith) }

Within-best_reply :
    (reply : ℕ → Search ℤ) (w : ℕ)
    → ((a : ℕ) → Within w (reply a))
    → (current occupied : ℕ) (best : ℤ) (cols : List ℕ)
    → Within (length cols * w) (best_reply reply current occupied best cols)
unfolding best_reply
Within-best_reply reply w c current occupied best [] = Within-pure _ _
Within-best_reply reply w c current occupied best (col ∷ cols) =
    let after_move = bit_or current (move_bit occupied col) in
    Within-if _ (has_four after_move) _ _ (Within-pure _ _) (
      Within-mono (w + length cols * w) (length (col ∷ cols) * w) _ (grind arith) (
        Within-bind w (length cols * w) (reply after_move) _ (c after_move) λ value.
          Within-if _ (eqb_ℤ (max_ℤ best value) (pos 1)) _ _ (Within-pure _ _)
            (Within-best_reply reply w c current occupied (max_ℤ best value) cols)))

length-keep_if : (p : ℕ → Bool) (xs : List ℕ) → length (keep_if p xs) ≤ length xs
length-keep_if p [] = omega arith
length-keep_if p (x ∷ xs) = ground (arith, length-keep_if p xs)

legal_at_most_seven : (occupied : ℕ) → length (legal_moves occupied) ≤ 7
unfolding legal_moves
legal_at_most_seven occupied =
    length-keep_if (λ col. bit_and occupied (2 ^ (35 + col)) == 0) center_first

Within-expand :
    (reply : ℕ → Search ℤ) (w : ℕ)
    → ((a : ℕ) → Within w (reply a))
    → (current opponent depth : ℕ) (legal : List ℕ) (cached : Option ℤ) → length legal ≤ 7
    → Within (7 * w) (expand reply current opponent depth legal cached)
unfolding expand
Within-expand reply w c current opponent depth legal (some v) l = Within-pure _ _
Within-expand reply w c current opponent depth [] none l = Within-pure _ _
Within-expand reply w c current opponent depth (col ∷ cols) none l =
    Within-mono (length (col ∷ cols) * w + 0) (7 * w) _ (grind arith) (
      Within-bind _ 0 _ _
        (Within-best_reply reply w c current (bit_or current opponent) (negsuc 0) (col ∷ cols))
        λ best. record {
          at = λ s h.
              let kept =
                remember_within (record { current = current; opponent = opponent; depth = depth })
                  best s h in
              (omega (arith, kept.0), kept.1);
        })

-- The nodes of a full tree with seven moves at each.
unfoldable pub work : ℕ → ℕ
work (suc (suc d)) = 1 + 7 * work (suc d)
work d = 1

module _ (should_cancel past_deadline : ℕ → Bool) where
  Within-visit :
      (reply : ℕ → Search ℤ) (w : ℕ)
      → ((a : ℕ) → Within w (reply a))
      → (current opponent depth : ℕ)
      → Within (1 + 7 * w) (visit should_cancel past_deadline reply current opponent depth)
  unfolding visit
  Within-visit reply w c current opponent depth =
      Within-bind 1 (7 * w) _ _ (Within-poll should_cancel past_deadline) λ _. record {
        at = λ s h.
            (Within-expand reply w c current opponent depth _ _
                (legal_at_most_seven (bit_or current opponent))).at
              s h;
      }

  Within-score :
      (d current opponent : ℕ)
      → Within (work d) (score should_cancel past_deadline d current opponent)
  unfolding score work
  Within-score (suc (suc d)) current opponent =
      Within-visit _ (work (suc d))
        (λ a.
          Within-mono (work (suc d) + 0) (work (suc d)) _ (omega arith) (
            Within-bind (work (suc d)) 0 _ _ (Within-score (suc d) opponent a)
              λ v. Within-pure _ _))
        current opponent (suc (suc d))
  Within-score (suc zero) current opponent =
      Within-visit _ 0 (λ a. Within-pure _ _) current opponent 1
  Within-score zero current opponent = Within-visit _ 0 (λ a. Within-pure _ _) current opponent 0

-- From a cache within its limit, a search to depth d visits at most as many further nodes as a full
-- tree with seven moves at each position has, whether it returns or raises, and it leaves the cache
-- within 250,000 entries.
pub score_bounded :
    (should_cancel past_deadline : ℕ → Bool) (d current opponent : ℕ) (s : Memo)
    → length s.cache ≤ cache_limit
    → ((score should_cancel past_deadline d current opponent s).1.nodes ≤ s.nodes + work d)
      × (length (score should_cancel past_deadline d current opponent s).1.cache ≤ cache_limit)
score_bounded should_cancel past_deadline d current opponent s h =
    (Within-score should_cancel past_deadline d current opponent).at s h
