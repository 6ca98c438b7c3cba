-- ===== src/Schedule/Sorting.antt =====
-- Sorting a schedule keeps its pairs and puts their thresholds in order.
use connect4codex.Prelude.{ℕ, ◌≤◌, inl, inr, List, [], ◌∷◌, ltb, arith, All, Elem, Bool-cases}
use connect4codex.Schedule.Rates.{insert_rate, sort_rates}

module _ {A : Type 0} where
  abbrev pub From : ℕ → List (ℕ × A) → Type 0
  From t ps = All (λ p. t ≤ p.0) ps

  -- Each threshold is at most the later ones.
  abbrev pub InOrder : List (ℕ × A) → Type 0
  InOrder [] = Unit
  InOrder (x ∷ xs) = From x.0 xs × InOrder xs

  pub From-Elem : (t : ℕ) (p : ℕ × A) (xs : List (ℕ × A)) → From t xs → Elem p xs → t ≤ p.0
  From-Elem t p [] h k = elim k [ ]
  From-Elem t p (x ∷ xs) h (inl e) = rw e (h.0)
  From-Elem t p (x ∷ xs) h (inr k) = From-Elem t p xs h.1 k

  From-From : (s t : ℕ) (xs : List (ℕ × A)) → s ≤ t → From t xs → From s xs
  From-From s t [] le h = h
  From-From s t (x ∷ xs) le h = (omega (arith, h.0), From-From s t xs le h.1)

  insert_rate-From :
      (t : ℕ) (x : ℕ × A) (xs : List (ℕ × A)) → t ≤ x.0 → From t xs → From t (insert_rate x xs)
  unfolding insert_rate
  insert_rate-From t x [] le h = (le, tt)
  insert_rate-From t x (y ∷ ys) le h = elim (Bool-cases (ltb y.0 x.0)) [
    | inl q ↦ rw q (h.0, insert_rate-From t x ys le h.1)
    | inr q ↦ rw q (le, h)
  ]

  insert_rate-InOrder : (x : ℕ × A) (xs : List (ℕ × A)) → InOrder xs → InOrder (insert_rate x xs)
  unfolding insert_rate
  insert_rate-InOrder x [] h = (tt, tt)
  insert_rate-InOrder x (y ∷ ys) h = elim (Bool-cases (ltb y.0 x.0)) [
    | inl q ↦
        let le : y.0 ≤ x.0 = ground (arith, q) in
        rw q (insert_rate-From y.0 x ys le h.0, insert_rate-InOrder x ys h.1)
    | inr q ↦ let le : x.0 ≤ y.0 = ground (arith, q) in rw q ((le, From-From x.0 y.0 ys le h.0), h)
  ]

  pub sort_rates-InOrder : (xs : List (ℕ × A)) → InOrder (sort_rates xs)
  unfolding sort_rates
  sort_rates-InOrder [] = tt
  sort_rates-InOrder (x ∷ xs) = insert_rate-InOrder x (sort_rates xs) (sort_rates-InOrder xs)

  Elem-insert_rate :
      (p x : ℕ × A) (xs : List (ℕ × A))
      → (Elem p (x ∷ xs) → Elem p (insert_rate x xs))
        × (Elem p (insert_rate x xs) → Elem p (x ∷ xs))
  unfolding insert_rate
  Elem-insert_rate p x [] = (λ h. h, λ h. h)
  Elem-insert_rate p x (y ∷ ys) = elim (Bool-cases (ltb y.0 x.0)) [
    | inr q ↦ rw q (λ h. h, λ h. h)
    | inl q ↦
        let (to, from) = Elem-insert_rate p x ys in
        rw q (
          λ h. elim h [
            | inl e ↦ inr (to (inl e))
            | inr k ↦ elim k [ inl e ↦ inl e | inr m ↦ inr (to (inr m)) ]
          ],
          λ h. elim h [
            | inl e ↦ inr (inl e)
            | inr k ↦ elim (from k) [ inl e ↦ inl e | inr m ↦ inr (inr m) ]
          ],
        )
  ]

  pub Elem-sort_rates :
      (p : ℕ × A) (xs : List (ℕ × A))
      → (Elem p xs → Elem p (sort_rates xs)) × (Elem p (sort_rates xs) → Elem p xs)
  unfolding sort_rates
  Elem-sort_rates p [] = (λ h. h, λ h. h)
  Elem-sort_rates p (x ∷ xs) =
      let (to, from) = Elem-sort_rates p xs in
      let (into, out) = Elem-insert_rate p x (sort_rates xs) in
      (
        λ h. elim h [ inl e ↦ into (inl e) | inr k ↦ into (inr (to k)) ],
        λ h. elim (out h) [ inl e ↦ inl e | inr k ↦ inr (from k) ],
      )
