-- ===== src/League/Allocation.antt =====
-- The counts of the categories sum to the batch, and each category gets its count.
use connect4codex.Prelude.{
  ℕ, zero, suc, ◌+◌, ◌-◌, ◌≤◌, ◌<◌, ◌≡◌, refl, ap, ◌∙◌, false, List, [], ◌∷◌, length, length-map,
  length-take, length-set, take, range, range_from, get_or, set, sum_by, All, Floats, ltb, ◌==◌,
  if◌then◌else◌, Bool-cases, inl, inr, arith,
}
use connect4codex.League.Requests.{
  bump, bump_all, slice_to, total_of, insert_index, sort_indices, floors, remainder_order,
  allocate_counts,
}

abbrev pub occurrences : ℕ → List ℕ → ℕ
occurrences k = sum_by (λ x. if x == k then 1 else 0)

pub length-bump : (i : ℕ) (counts : List ℕ) → length (bump i counts) ≡ length counts
unfolding bump
length-bump i counts = length-set counts i _

total_of-set :
    (counts : List ℕ) (i v : ℕ)
    → i < length counts
    → total_of (set counts i v) + get_or counts i 0 ≡ total_of counts + v
unfolding total_of
total_of-set [] i v h = absurd (omega arith)
total_of-set (x ∷ xs) zero v h = omega arith
total_of-set (x ∷ xs) (suc i) v h = omega (arith, total_of-set xs i v (omega arith))

total_of-bump :
    (i : ℕ) (counts : List ℕ) → i < length counts → total_of (bump i counts) ≡ total_of counts + 1
unfolding bump
total_of-bump i counts h = omega (arith, total_of-set counts i (get_or counts i 0 + 1) h)

total_of-bump_all :
    (order counts : List ℕ)
    → All (λ i. i < length counts) order
    → (total_of (bump_all order counts) ≡ total_of counts + length order)
      × (length (bump_all order counts) ≡ length counts)
unfolding bump_all
total_of-bump_all [] counts h = (omega arith, refl)
total_of-bump_all (i ∷ order) counts h =
    let same = length-bump i counts in
    let (total, size) = total_of-bump_all order (bump i counts) (rw same (h.1)) in
    (omega (arith, total, total_of-bump i counts h.0), size ∙ same)

All-take : {A : Type 0} (P : A → Type 0) (n : ℕ) (xs : List A) → All P xs → All P (take n xs)
All-take P zero xs h = tt
All-take P (suc n) [] h = tt
All-take P (suc n) (x ∷ xs) h = (h.0, All-take P n xs h.1)

pub length-range_from : (n i : ℕ) → length (range_from n i) ≡ n
length-range_from zero i = refl
length-range_from (suc n) i = ap suc (length-range_from n (suc i))

All-range_from : (n i m : ℕ) → i + n ≤ m → All (λ k. k < m) (range_from n i)
All-range_from zero i m h = tt
All-range_from (suc n) i m h = (omega arith, All-range_from n (suc i) m (omega arith))

module _ ⦃fl : Floats⦄ (key : ℕ → fl.F) where
  insert_index_lem :
      (P : ℕ → Type 0) (i : ℕ) (order : List ℕ)
      → P i
      → All P order
      → All P (insert_index key i order) × (length (insert_index key i order) ≡ suc (length order))
  unfolding insert_index
  insert_index_lem P i [] p h = ((p, tt), refl)
  insert_index_lem P i (j ∷ order) p h = elim (Bool-cases (fl.lt (key i) (key j))) [
    | inl later ↦
        let (all, size) = insert_index_lem P i order p h.1 in rw later ((h.0, all), ap suc size)
    | inr here ↦ rw here ((p, h), refl)
  ]

  sort_indices_lem :
      (P : ℕ → Type 0) (is : List ℕ)
      → All P is
      → All P (sort_indices key is) × (length (sort_indices key is) ≡ length is)
  unfolding sort_indices
  sort_indices_lem P [] h = (tt, refl)
  sort_indices_lem P (i ∷ is) h =
      let (all, size) = sort_indices_lem P is h.1 in
      let (all', size') = insert_index_lem P i (sort_indices key is) h.0 all in
      (all', size' ∙ ap suc size)

module _ ⦃fl : Floats⦄ (total : ℕ) (weights : List fl.F) where
  -- The floors of the weights' shares lack at most one each.
  pub record IsSplit : Type 0 where
    pub below : total_of (floors total weights) ≤ total
    pub close : total ≤ total_of (floors total weights) + length weights

  remainder_order_lem :
      All (λ i. i < length weights) (remainder_order total weights)
      × (length (remainder_order total weights) ≡ length weights)
  unfolding remainder_order
  remainder_order_lem =
      let (all, size) =
        sort_indices_lem _ (λ i. i < length weights) (range (length weights))
          (All-range_from (length weights) 0 (length weights) (omega arith)) in
      (all, size ∙ length-range_from (length weights) 0)

  length-floors : length (floors total weights) ≡ length weights
  unfolding floors
  length-floors = length-map _ weights

  pub slice_to-order :
      IsSplit
      → All
          (λ i. i < length (floors total weights))
          (slice_to total (total_of (floors total weights)) (remainder_order total weights))
        × (length (slice_to total (total_of (floors total weights)) (remainder_order total weights))
            ≡ total - total_of (floors total weights))
  unfolding slice_to
  slice_to-order s =
      let order = remainder_order total weights in
      let (all, size) = remainder_order_lem in
      let upright : ltb total (total_of (floors total weights)) ≡ false = ground (arith, s.below) in
      rw (upright, length-floors)
        (
          All-take (λ i. i < length weights) (total - total_of (floors total weights)) order all,
          length-take (total - total_of (floors total weights)) order
              ∙ omega (arith, size, s.close),
        )

  pub allocate_counts_lem :
      IsSplit
      → (total_of (allocate_counts total weights) ≡ total)
        × (length (allocate_counts total weights) ≡ length weights)
  unfolding allocate_counts
  allocate_counts_lem s =
      let (all, size) = slice_to-order s in
      let (sum, long) = total_of-bump_all _ (floors total weights) all in
      (omega (arith, sum, size, s.below), long ∙ length-floors)
