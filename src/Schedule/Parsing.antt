-- ===== src/Schedule/Parsing.antt =====
-- A list of whole, rising thresholds with their rates parses to those pairs.
use mathlib.Core.List.{append_assoc, append-nil}
use connect4codex.Prelude.{
  ℕ, ◌*◌, ◌%◌, ◌≡◌, refl, ap, sym, ◌∙◌, ◌≤◌, ◌<◌, true, false, Option, some, List, [], ◌∷◌, ◌++◌,
  length, ◌==◌, arith, All, Elem, ok, put, nat_eq, ==_iff,
}
use connect4codex.Schedule.Rates.{parse_pairs, parse_lr_schedule, learning_rate}
use connect4codex.Schedule.Reached.{IsReached, reached_lem}

module _ {A : Type 0} where
  -- The thresholds rise.
  abbrev pub Climbing : List (ℕ × A) → Type 0
  Climbing [] = Unit
  Climbing (x ∷ xs) = All (λ y. x.0 < y.0) xs × Climbing xs

  -- The values are the pairs, one after the other, with each threshold a whole number.
  abbrev pub Listed : (A → Option ℕ) → List A → List (ℕ × A) → Type 0
  Listed whole [] [] = Unit
  Listed whole [] (p ∷ ps) = ⊥
  Listed whole (a ∷ []) ps = ⊥
  Listed whole (a ∷ rate ∷ values) [] = ⊥
  Listed whole (a ∷ rate ∷ values) (p ∷ ps) =
      (whole a ≡ some p.0) × (rate ≡ p.1) × Listed whole values ps

  All-middle :
      (P : ℕ × A → Type 0) (d : List (ℕ × A)) (p : ℕ × A) (ps : List (ℕ × A))
      → All P (d ++ p ∷ ps)
      → P p
  All-middle P [] p ps h = h.0
  All-middle P (x ∷ d) p ps h = All-middle P d p ps h.1

  put-Climbing :
      (d ps : List (ℕ × A)) (p : ℕ × A) → Climbing (d ++ p ∷ ps) → put p.0 p.1 d ≡ d ++ p ∷ []
  unfolding put
  put-Climbing [] ps p h = refl
  put-Climbing (x ∷ d) ps p h =
      let less : x.0 < p.0 = All-middle (λ y. x.0 < y.0) d p ps h.0 in
      let other : (x.0 == p.0) ≡ false = ground (arith, less) in
      rw other (ap (λ ys. x ∷ ys) (put-Climbing d ps p h.1))

  parse_pairs-Listed :
      (whole : A → Option ℕ) (values : List A) (ps d : List (ℕ × A))
      → Listed whole values ps
      → Climbing (d ++ ps)
      → parse_pairs whole values d ≡ ok (d ++ ps)
  unfolding parse_pairs
  parse_pairs-Listed whole [] [] d l h = ap ok (sym (append-nil d))
  parse_pairs-Listed whole [] (p ∷ ps) d l h = elim l [ ]
  parse_pairs-Listed whole (a ∷ []) ps d l h = elim l [ ]
  parse_pairs-Listed whole (a ∷ rate ∷ values) [] d l h = elim l [ ]
  parse_pairs-Listed whole (a ∷ rate ∷ values) (p ∷ ps) d (number, same, l) h =
      let joined = append_assoc d (p ∷ []) ps in
      let next = parse_pairs-Listed whole values ps (d ++ p ∷ []) l (rw joined h) in
      let stored : put p.0 rate d ≡ d ++ p ∷ [] = rw same (put-Climbing d ps p h) in
      let step : parse_pairs whole (a ∷ rate ∷ values) d
          ≡ parse_pairs whole values (put p.0 rate d) =
        rw (parse_pairs, number) refl in
      step ∙ ap (λ s. parse_pairs whole values s) stored ∙ next ∙ ap ok joined

  length-Listed :
      (whole : A → Option ℕ) (values : List A) (ps : List (ℕ × A))
      → Listed whole values ps
      → length values ≡ 2 * length ps
  length-Listed whole [] [] l = refl
  length-Listed whole [] (p ∷ ps) l = elim l [ ]
  length-Listed whole (a ∷ []) ps l = elim l [ ]
  length-Listed whole (a ∷ rate ∷ values) [] l = elim l [ ]
  length-Listed whole (a ∷ rate ∷ values) (p ∷ ps) l =
      omega (arith, length-Listed whole values ps l.2)

  parse_lr_schedule-Listed :
      (whole : A → Option ℕ) (values : List A) (ps : List (ℕ × A))
      → Listed whole values ps
      → Climbing ps
      → parse_lr_schedule whole values ≡ ok ps
  unfolding parse_lr_schedule
  parse_lr_schedule-Listed whole values ps l h =
      let even : (length values % 2 == 0) ≡ true =
        (==_iff (length values % 2) 0).1 (omega (arith, length-Listed whole values ps l)) in
      rw even (parse_pairs-Listed whole values ps [] l h)

  -- For a list of whole, rising thresholds, each followed by its rate, one of which the count of accepted
  -- candidates has reached: the list parses to its pairs, and the learning rate is the rate of the pair
  -- whose threshold is reached and is the highest of those.
  pub learning_rate-IsReached :
      (whole : A → Option ℕ) (values : List A) (ps : List (ℕ × A)) (n : ℕ) (start : ℕ × A)
      → Listed whole values ps
      → Climbing ps
      → Elem start ps
      → start.0 ≤ n
      → (parse_lr_schedule whole values ≡ ok ps)
        × ((p : ℕ × A) × ((learning_rate whole values n ≡ ok p.1) × IsReached n ps p))
  learning_rate-IsReached whole values ps n start l h k le =
      let parsed = parse_lr_schedule-Listed whole values ps l h in
      (parsed, reached_lem whole values ps n start parsed k le)
