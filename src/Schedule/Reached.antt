-- ===== src/Schedule/Reached.antt =====
-- The learning rate is that of the last threshold reached.
use connect4codex.Prelude.{
  ℕ, ◌≡◌, refl, ap, ◌∙◌, ◌≤◌, ◌<◌, inl, inr, Option, List, [], ◌∷◌, ltb, arith, Elem, Bool-cases,
  ok, Dict,
}
use connect4codex.Schedule.Rates.{
  sort_rates, rate_after, rate_of, rate_in, parse_lr_schedule, learning_rate,
}
use connect4codex.Schedule.Sorting.{InOrder, From-Elem, sort_rates-InOrder, Elem-sort_rates}

-- A pair of the schedule whose threshold is reached, and no pair's reached threshold is higher.
abbrev pub IsReached : {A : Type 0} → ℕ → List (ℕ × A) → ℕ × A → Type 0
IsReached {A} n schedule p =
    Elem p schedule
    × (p.0 ≤ n)
    × ((other : ℕ × A) → Elem other schedule → other.0 ≤ n → other.0 ≤ p.0)

module _ {A : Type 0} where
  rate_after-IsReached :
      (n : ℕ) (x : ℕ × A) (xs : List (ℕ × A))
      → x.0 ≤ n
      → InOrder (x ∷ xs)
      → (p : ℕ × A) × ((rate_after n x.1 xs ≡ p.1) × IsReached n (x ∷ xs) p)
  unfolding rate_after
  rate_after-IsReached n x [] le h = (
    x,
    (
      refl,
      (inl refl, le, λ other k below. elim k [ inl e ↦ rw e (omega arith) | inr e ↦ elim e [ ] ]),
    ),
  )
  rate_after-IsReached n x (y ∷ ys) le h = elim (Bool-cases (ltb n y.0)) [
    | inl q ↦
        let over : n < y.0 = ground (arith, q) in
        (
          x,
          (
            rw q refl,
            (
              inl refl,
              le,
              λ other k below. elim k [
                | inl e ↦ rw e (omega arith)
                | inr m ↦ elim m [
                  | inl e ↦ omega (arith, over, below, ap (λ (z : ℕ × A). z.0) e)
                  | inr m' ↦ omega (arith, over, below, From-Elem y.0 other ys (h.1.0) m')
                ]
              ],
            ),
          ),
        )
    | inr q ↦
        let reached : y.0 ≤ n = ground (arith, q) in
        let (p, (same, (found, at_most, best))) = rate_after-IsReached n y ys reached h.1 in
        (
          p,
          (
            rw (q, same) refl,
            (
              inr found,
              at_most,
              λ other k below. elim k [
                | inl e ↦ omega (arith, h.0.0, best y (inl refl) reached, ap (λ (z : ℕ × A). z.0) e)
                | inr m ↦ best other m below
              ],
            ),
          ),
        )
  ]

  rate_of-IsReached :
      (n : ℕ) (xs : List (ℕ × A)) (start : ℕ × A)
      → InOrder xs
      → Elem start xs
      → start.0 ≤ n
      → (p : ℕ × A) × ((rate_of n xs ≡ ok p.1) × IsReached n xs p)
  unfolding rate_of
  rate_of-IsReached n [] start h k le = elim k [ ]
  rate_of-IsReached n (x ∷ xs) start h k le =
      let first : x.0 ≤ n = elim k [
        | inl e ↦ omega (arith, le, ap (λ (z : ℕ × A). z.0) e)
        | inr m ↦ omega (arith, le, From-Elem x.0 start xs h.0 m)
      ] in
      let (p, (same, reached)) = rate_after-IsReached n x xs first h in (p, (ap ok same, reached))

  pub reached_lem :
      (whole : A → Option ℕ) (values : List A) (schedule : Dict ℕ A) (n : ℕ) (start : ℕ × A)
      → parse_lr_schedule whole values ≡ ok schedule
      → Elem start schedule
      → start.0 ≤ n
      → (p : ℕ × A) × ((learning_rate whole values n ≡ ok p.1) × IsReached n schedule p)
  unfolding learning_rate rate_in
  reached_lem whole values schedule n start parsed k le =
      let sorted = sort_rates schedule in
      let into = (Elem-sort_rates start schedule).0 k in
      let (p, (same, (found, at_most, best))) =
        rate_of-IsReached n sorted start (sort_rates-InOrder schedule) into le in
      (
        p,
        (
          ap (rate_in n) parsed ∙ same,
          (
            (Elem-sort_rates p schedule).1 found,
            at_most,
            λ other m below. best other ((Elem-sort_rates other schedule).0 m) below,
          ),
        ),
      )
