-- ===== src/Minimax/Computes.antt =====
-- Searches that compute a given value from a cache that agrees with the reference.
use connect4codex.Prelude.{
  ℕ, ◌+◌, ◌%◌, ◌≡◌, refl, Bool, true, false, some, [], ◌∷◌, if◌then◌else◌, Result, ok, err, arith,
  Bool-cases, inl, inr, All, Dict, get, put, leb, length, pure, ◌>>=◌, continue, ◌>>◌, ◌==◌, ==_iff,
}
use connect4codex.Prelude.Int.{ℤ}
use connect4codex.Minimax.Search.{
  Failure, cancelled, timeout, Key, same_key_iff, Memo, Search, cache_limit, poll, remember, key_eq,
}
use connect4codex.Minimax.Negamax.{negamax}

abbrev pub reference : Key → ℤ
reference k = negamax k.depth k.current k.opponent

-- Every cached value is the reference's.
abbrev pub IsConsistent : Memo → Type 0
IsConsistent s = All (λ (e : Key × ℤ). e.1 ≡ reference e.0) s.cache

pub get-reference :
    (k : Key) (v : ℤ) (d : Dict Key ℤ)
    → All (λ (e : Key × ℤ). e.1 ≡ reference e.0) d
    → get k d ≡ some v
    → v ≡ reference k
unfolding get
get-reference k v [] h e = ground arith
get-reference k v ((j, w) ∷ d) h e = ground (arith, same_key_iff j k, get-reference k v d h.1)

put-IsConsistent :
    (k : Key) (v : ℤ) (d : Dict Key ℤ)
    → v ≡ reference k
    → All (λ (e : Key × ℤ). e.1 ≡ reference e.0) d
    → All (λ (e : Key × ℤ). e.1 ≡ reference e.0) (put k v d)
unfolding put
put-IsConsistent k v [] e h = (e, tt)
put-IsConsistent k v ((j, w) ∷ d) e h = ground (arith, put-IsConsistent k v d e h.1)

pub remember-IsConsistent :
    (k : Key) (v : ℤ) (s : Memo) → v ≡ reference k → IsConsistent s → IsConsistent (remember k v s)
unfolding remember
remember-IsConsistent k v s e h = elim (Bool-cases (leb cache_limit (length s.cache))) [
  | inl full ↦ rw full (put-IsConsistent k v [] e tt)
  | inr room ↦ rw room (put-IsConsistent k v s.cache e h)
]

module _ (should_cancel past_deadline : ℕ → Bool) where
  -- A search answers with the value, or stops at a poll that tells it to.
  abbrev pub Answers : {A : Type 0} → A → Result Failure A → Type 0
  Answers v (ok w) = w ≡ v
  Answers v (err cancelled) = (n : ℕ) × (n % 256 ≡ 0) × (should_cancel n ≡ true)
  Answers v (err timeout) = (n : ℕ) × (n % 256 ≡ 0) × (past_deadline n ≡ true)

  abbrev pub Computes : {A : Type 0} → A → Search A → Type 0
  Computes v m = (s : Memo) → IsConsistent s → IsConsistent (m s).1 × Answers v (m s).0

  Answers-err : {A B : Type 0} (v : A) (w : B) (e : Failure) → Answers v (err e) → Answers w (err e)
  Answers-err v w cancelled a = a
  Answers-err v w timeout a = a

  Computes-continue :
      {A B : Type 0} (v : A) (w : B) (r : Result Failure A) (f : A → Search B) (s : Memo)
      → IsConsistent s
      → Answers v r
      → Computes w (f v)
      → IsConsistent (continue r f s).1 × Answers w (continue r f s).0
  Computes-continue v w (ok x) f s h a c = rw a (c s h)
  Computes-continue v w (err e) f s h a c = (h, Answers-err v w e a)

  pub Computes-bind :
      {A B : Type 0} (v : A) (w : B) (m : Search A) (f : A → Search B)
      → Computes v m
      → Computes w (f v)
      → Computes w (m >>= f)
  Computes-bind v w m f cm cf s h = Computes-continue v w (m s).0 f (m s).1 (cm s h).0 (cm s h).1 cf

  pub Computes-pure : {A : Type 0} (v w : A) → v ≡ w → Computes w (pure v)
  Computes-pure v w e s h = (h, e)

  pub Computes-cast : {A : Type 0} (v w : A) (m : Search A) → v ≡ w → Computes v m → Computes w m
  Computes-cast v w m e c = rw (← e) c

  pub Computes-if :
      {A : Type 0} (w : A) (b : Bool) (m n : Search A)
      → (b ≡ true → Computes w m)
      → (b ≡ false → Computes w n)
      → Computes w (if b then m else n)
  Computes-if w true m n cm cn = cm refl
  Computes-if w false m n cm cn = cn refl

  pub Computes-poll :
      {A : Type 0} (w : A) (m : Search A)
      → Computes w m
      → Computes w (poll should_cancel past_deadline >> m)
  unfolding poll
  Computes-poll w m c s h = elim (Bool-cases ((s.nodes + 1) % 256 == 0)) [
    | inl due ↦ elim (Bool-cases (should_cancel (s.nodes + 1))) [
      | inl stop ↦ rw (due, stop) (h, (s.nodes + 1, (==_iff _ 0).0 due, stop))
      | inr go ↦ elim (Bool-cases (past_deadline (s.nodes + 1))) [
        | inl stop ↦ rw (due, go, stop) (h, (s.nodes + 1, (==_iff _ 0).0 due, stop))
        | inr go' ↦ rw (due, go, go') (c (record s { nodes = s.nodes + 1 }) h)
      ]
    ]
    | inr later ↦ rw later (c (record s { nodes = s.nodes + 1 }) h)
  ]
