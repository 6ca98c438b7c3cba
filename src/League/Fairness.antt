-- ===== src/League/Fairness.antt =====
-- Each weight's share of the games is its floor or one more, since no index is raised twice.
use connect4codex.Prelude.{
  ltb, ℕ, zero, suc, ◌+◌, ◌-◌, ◌≤◌, ◌<◌, ◌≡◌, refl, sym, false, List, [], ◌∷◌, length, range,
  range_from, get_or, get_or-set, get_or-set_other, set, sum_by, sum_by-take, All, Floats, ◌==◌,
  if◌then◌else◌, ==_iff, Bool-cases, inl, inr, arith,
}
use connect4codex.League.Requests.{
  bump, bump_all, slice_to, total_of, insert_index, sort_indices, floors, remainder_order,
  allocate_counts,
}
use connect4codex.League.Allocation.{
  occurrences, length-bump, IsSplit, slice_to-order, allocate_counts_lem,
}

pub get_or-bump :
    (counts : List ℕ) (j i : ℕ)
    → j < length counts
    → get_or (bump j counts) i 0 ≡ get_or counts i 0 + (if j == i then 1 else 0)
unfolding bump
get_or-bump counts j i h = elim (Bool-cases (j == i)) [
  | inl e ↦
      let same = (==_iff j i).0 e in
      let here : get_or (set counts j (get_or counts j 0 + 1)) j 0 ≡ get_or counts j 0 + 1 =
        get_or-set counts j _ 0 h in
      rw e (rw (sym same) here)
  | inr e ↦
      let there : get_or (set counts j (get_or counts j 0 + 1)) i 0 ≡ get_or counts i 0 =
        get_or-set_other counts j i _ 0 (ground arith) in
      rw (e, there) (omega arith)
]

get_or-bump_all :
    (order counts : List ℕ) (i : ℕ)
    → All (λ j. j < length counts) order
    → get_or (bump_all order counts) i 0 ≡ get_or counts i 0 + occurrences i order
unfolding bump_all
get_or-bump_all [] counts i h = omega arith
get_or-bump_all (j ∷ order) counts i h =
    let later = get_or-bump_all order (bump j counts) i (rw (length-bump j counts) h.1) in
    omega (arith, later, get_or-bump counts j i h.0)

before-range_from : (n j i : ℕ) → i < j → occurrences i (range_from n j) ≡ 0
before-range_from zero j i h = refl
before-range_from (suc n) j i h =
    let other : (j == i) ≡ false = ground arith in
    rw other (omega (arith, before-range_from n (suc j) i (omega arith)))

once-range_from : (n j i : ℕ) → occurrences i (range_from n j) ≤ 1
once-range_from zero j i = omega arith
once-range_from (suc n) j i = elim (Bool-cases (j == i)) [
  | inl e ↦
      let h : i < suc j = ground arith in rw e (omega (arith, before-range_from n (suc j) i h))
  | inr e ↦ rw e (omega (arith, once-range_from n (suc j) i))
]

module _ ⦃fl : Floats⦄ (key : ℕ → fl.F) (f : ℕ → ℕ) where
  sum_by-insert_index :
      (i : ℕ) (order : List ℕ) → sum_by f (insert_index key i order) ≡ f i + sum_by f order
  unfolding insert_index
  sum_by-insert_index i [] = refl
  sum_by-insert_index i (j ∷ order) = elim (Bool-cases (fl.lt (key i) (key j))) [
    | inl later ↦ rw later (omega (arith, sum_by-insert_index i order))
    | inr here ↦ rw here refl
  ]

  sum_by-sort_indices : (is : List ℕ) → sum_by f (sort_indices key is) ≡ sum_by f is
  unfolding sort_indices
  sum_by-sort_indices [] = refl
  sum_by-sort_indices (i ∷ is) =
      omega (arith, sum_by-sort_indices is, sum_by-insert_index i (sort_indices key is))

module _ ⦃fl : Floats⦄ (total : ℕ) (weights : List fl.F) where
  once-remainder_order : (i : ℕ) → occurrences i (remainder_order total weights) ≤ 1
  unfolding remainder_order
  once-remainder_order i = omega (
    arith,
    sum_by-sort_indices _ (λ x. if x == i then 1 else 0) (range (length weights)),
    once-range_from (length weights) 0 i,
  )

  once-slice :
      (a b i : ℕ) (order : List ℕ)
      → occurrences i order ≤ 1
      → occurrences i (slice_to a b order) ≤ 1
  unfolding slice_to
  once-slice a b i order h = elim (Bool-cases (ltb a b)) [
    | inl e ↦ rw e (
        omega (arith, h, sum_by-take (λ x. if x == i then 1 else 0) (length order - (b - a)) order))
    | inr e ↦ rw e (omega (arith, h, sum_by-take (λ x. if x == i then 1 else 0) (a - b) order))
  ]

  -- Where the floors of the weights' shares lack at most one each of the total, the counts that are
  -- allocated are as many as the weights, they sum to the total, and each is its share's floor or one more.
  pub allocate_counts-fair :
      IsSplit total weights
      → (length (allocate_counts total weights) ≡ length weights)
        × (total_of (allocate_counts total weights) ≡ total)
        × ((i : ℕ)
            → (get_or (floors total weights) i 0 ≤ get_or (allocate_counts total weights) i 0)
              × (get_or (allocate_counts total weights) i 0
                  ≤ get_or (floors total weights) i 0 + 1))
  unfolding allocate_counts
  allocate_counts-fair s =
      let (sum, long) = allocate_counts_lem total weights s in
      let order =
        slice_to total (total_of (floors total weights)) (remainder_order total weights) in
      let raised : (i : ℕ)
          → get_or (bump_all order (floors total weights)) i 0
            ≡ get_or (floors total weights) i 0 + occurrences i order =
        λ i. get_or-bump_all order (floors total weights) i (slice_to-order total weights s).0 in
      let once : (i : ℕ) → occurrences i order ≤ 1 =
        λ i. once-slice total (total_of (floors total weights)) i _ (once-remainder_order i) in
      (long, sum, λ i. (omega (arith, raised i), omega (arith, raised i, once i)))
