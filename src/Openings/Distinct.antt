-- ===== src/Openings/Distinct.antt =====
-- No two of the positions that are kept are the same.
use connect4codex.Prelude.{
  and_true, ℕ, ◌≤◌, ◌≡◌, refl, sym, Bool, true, false, List, [], ◌∷◌, sum_by, exists, ◌==◌, ==_iff,
  if◌then◌else◌, Bool-cases, inl, inr, arith,
}
use connect4codex.Openings.Draw.{same_moves, is_among}

-- How often a position is among others.
abbrev pub repeats : List ℕ → List (List ℕ) → ℕ
repeats x = sum_by (λ k. if same_moves k x then 1 else 0)

same_moves→≡ : (xs ys : List ℕ) → same_moves xs ys ≡ true → xs ≡ ys
unfolding same_moves
same_moves→≡ [] [] h = refl
same_moves→≡ [] (y ∷ ys) h = cc
same_moves→≡ (x ∷ xs) [] h = cc
same_moves→≡ (x ∷ xs) (y ∷ ys) h =
    let (head, tail) = and_true (x == y) (same_moves xs ys) h in
    let first = (==_iff x y).0 head in let others = same_moves→≡ xs ys tail in cc

neither :
    (b rest : Bool) → elim b [ true ↦ true | false ↦ rest ] ≡ false → (b ≡ false) × (rest ≡ false)
neither true rest h = cc
neither false rest h = (refl, h)

passed : (b rest : Bool) → b ≡ false → rest ≡ false → elim b [ true ↦ true | false ↦ rest ] ≡ false
passed true rest e h = cc
passed false rest e h = h

absent-repeats : (x : List ℕ) (ks : List (List ℕ)) → is_among x ks ≡ false → repeats x ks ≡ 0
unfolding is_among
absent-repeats x [] h = refl
absent-repeats x (k ∷ ks) h =
    let (e, later) = neither (same_moves k x) (exists (λ other. same_moves other x) ks) h in
    rw e (omega (arith, absent-repeats x ks later))

-- A position that is absent, before others that repeat none.
fresh-cons :
    (k : List ℕ) (ks : List (List ℕ))
    → is_among k ks ≡ false
    → ((x : List ℕ) → repeats x ks ≤ 1)
    → (x : List ℕ) → repeats x (k ∷ ks) ≤ 1
fresh-cons k ks absent single x = elim (Bool-cases (same_moves k x)) [
  | inl e ↦
      let same = same_moves→≡ k x e in
      let none_more : repeats x ks ≡ 0 = rw (sym same) (absent-repeats k ks absent) in
      rw e (omega (arith, none_more))
  | inr e ↦ rw e (omega (arith, single x))
]

is_among-cons :
    (k m : List ℕ) (ks : List (List ℕ))
    → same_moves k m ≡ false
    → is_among m ks ≡ false
    → is_among m (k ∷ ks) ≡ false
unfolding is_among
is_among-cons k m ks e absent = passed (same_moves k m) (is_among m ks) e absent

-- Two different positions that are absent.
pub fresh_pair :
    (k m : List ℕ) (ks : List (List ℕ))
    → same_moves k m ≡ false
    → is_among k ks ≡ false
    → is_among m ks ≡ false
    → ((x : List ℕ) → repeats x ks ≤ 1)
    → (x : List ℕ) → repeats x (m ∷ k ∷ ks) ≤ 1
fresh_pair k m ks differ absent absent' single =
    fresh-cons m (k ∷ ks) (is_among-cons k m ks differ absent') (fresh-cons k ks absent single)
