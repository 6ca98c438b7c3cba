-- ===== src/Minimax/Search.antt =====
-- `_MinimaxEvaluator._score`: negamax with a cut-off at a won move, a cache of finished positions
-- and a poll of the caller's cancellation and of the deadline at every 256th node.
use connect4codex.Prelude.{
  ℕ, suc, ◌+◌, ◌%◌, ◌≡◌, Bool, true, ◌&&◌, Option, none, some, List, [], ◌∷◌, bit_or, length, leb,
  ◌==◌, if◌then◌else◌, Exec, ◌>>=◌, ◌>>◌, pure, gets, modify, raise_if, Eq, Dict, get, put, arith,
  ◌↔◌,
}
use connect4codex.Prelude.Int.{ℤ, pos, negsuc, neg, max_ℤ, eqb_ℤ}
use connect4codex.Minimax.Board.{has_four, legal_moves, move_bit}

pub data Failure : Type 0 where
  cancelled timeout : Failure

-- (current, opponent, depth)
pub record Key : Type 0 where
  pub current : ℕ
  pub opponent : ℕ
  pub depth : ℕ

abbrev pub same_key : Key → Key → Bool
same_key a b = a.current == b.current && (a.opponent == b.opponent && a.depth == b.depth)

pub same_key_iff : (a b : Key) → (same_key a b ≡ true) ↔ (a ≡ b)
same_key_iff a b = ground arith

instance abbrev pub key_eq : Eq Key
key_eq = record { beq = same_key; beq_iff = same_key_iff }

-- The fields that `_score` changes.
pub record Memo : Type 0 where
  pub nodes : ℕ
  pub cache : Dict Key ℤ

abbrev pub cache_limit : ℕ
cache_limit = 250_000

abbrev pub Search : Type 0 → Type 0
Search A = Exec Memo Failure A

-- What `should_cancel()` answers, and whether the clock has reached the deadline, when the node
-- counter stands at a number.
module _ (should_cancel past_deadline : ℕ → Bool) where
  unfoldable pub poll : Search (Unit {0})
  poll = do
    modify (λ s. record s { nodes = s.nodes + 1 })
    n ← gets (λ s. s.nodes)
    if n % 256 == 0
        then (do raise_if (should_cancel n) cancelled; raise_if (past_deadline n) timeout)
        else pure tt

-- The `for` loop over the legal columns. `reply` values a position that the move leaves open.
unfoldable pub best_reply : (ℕ → Search ℤ) → ℕ → ℕ → ℤ → List ℕ → Search ℤ
best_reply reply current occupied best [] = pure best
best_reply reply current occupied best (col ∷ cols) =
    let after_move = bit_or current (move_bit occupied col) in
    let rest = (do
      value ← reply after_move
      let best' = max_ℤ best value
      let more = best_reply reply current occupied best' cols
      if eqb_ℤ best' (pos 1) then pure best' else more) in
    if has_four after_move then pure (pos 1) else rest

unfoldable pub remember : Key → ℤ → Memo → Memo
remember key best s = record s {
  cache = put key best (if leb cache_limit (length s.cache) then [] else s.cache);
}

-- What follows the poll: the cached value, a full board, or the loop.
unfoldable pub expand : (ℕ → Search ℤ) → ℕ → ℕ → ℕ → List ℕ → Option ℤ → Search ℤ
expand reply current opponent depth legal (some cached) = pure cached
expand reply current opponent depth [] none = pure (pos 0)
expand reply current opponent depth (col ∷ cols) none = do
  best ← best_reply reply current (bit_or current opponent) (negsuc 0) (col ∷ cols)
  modify (remember (record { current = current; opponent = opponent; depth = depth }) best)
  pure best

module _ (should_cancel past_deadline : ℕ → Bool) where
  unfoldable pub visit : (ℕ → Search ℤ) → ℕ → ℕ → ℕ → Search ℤ
  visit reply current opponent depth = do
    poll should_cancel past_deadline
    cached ←
        gets (λ s. get (record { current = current; opponent = opponent; depth = depth }) s.cache)
    expand reply current opponent depth (legal_moves (bit_or current opponent)) cached

  -- The last ply is worth 0 if it makes no four.
  unfoldable pub score : ℕ → ℕ → ℕ → Search ℤ
  score (suc (suc d)) current opponent =
      visit (λ after_move. do value ← score (suc d) opponent after_move; pure (neg value)) current
        opponent (suc (suc d))
  score d current opponent = visit (λ after_move. pure (pos 0)) current opponent d
