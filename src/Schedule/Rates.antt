-- ===== src/Schedule/Rates.antt =====
-- `parse_lr_schedule` and `_learning_rate`. A threshold counts accepted candidates. What a float is as
-- a whole number is a parameter, none where int(value) is another number; below 0 there is none here.
use connect4codex.Prelude.{
  ℕ, ◌%◌, ◌==◌, Option, none, some, List, [], ◌∷◌, length, ltb, if◌then◌else◌, Result, ok, err,
  Dict, put, nat_eq,
}

-- The two ValueErrors, and the IndexError of schedule[0].
pub data ScheduleFault : Type 0 where
  unpaired not_whole empty : ScheduleFault

-- sorted(...), of pairs with different thresholds
unfoldable pub insert_rate : {A : Type 0} → ℕ × A → List (ℕ × A) → List (ℕ × A)
insert_rate x [] = x ∷ []
insert_rate x (y ∷ ys) = let rest = insert_rate x ys in if ltb y.0 x.0 then y ∷ rest else x ∷ y ∷ ys

unfoldable pub sort_rates : {A : Type 0} → List (ℕ × A) → List (ℕ × A)
sort_rates [] = []
sort_rates (x ∷ xs) = insert_rate x (sort_rates xs)

-- The loop over schedule[1:], with its `break`.
unfoldable pub rate_after : {A : Type 0} → ℕ → A → List (ℕ × A) → A
rate_after accepted_count rate [] = rate
rate_after accepted_count rate (next ∷ later) =
    let rest = rate_after accepted_count next.1 later in
    if ltb accepted_count next.0 then rate else rest

unfoldable pub rate_of : {A : Type 0} → ℕ → List (ℕ × A) → Result ScheduleFault A
rate_of accepted_count [] = err empty
rate_of accepted_count (first ∷ later) = ok (rate_after accepted_count first.1 later)

unfoldable pub rate_in : {A : Type 0} → ℕ → Result ScheduleFault (Dict ℕ A) → Result ScheduleFault A
rate_in accepted_count (ok schedule) = rate_of accepted_count (sort_rates schedule)
rate_in accepted_count (err e) = err e

module _ {A : Type 0} (whole : A → Option ℕ) where
  unfoldable pub parse_pairs : List A → Dict ℕ A → Result ScheduleFault (Dict ℕ A)
  parse_pairs [] schedule = ok schedule
  parse_pairs (threshold ∷ []) schedule = err unpaired
  parse_pairs (threshold ∷ rate ∷ values) schedule = elim (whole threshold) [
    | none ↦ err not_whole
    | some t ↦ parse_pairs values (put t rate schedule)
  ]

  unfoldable pub parse_lr_schedule : List A → Result ScheduleFault (Dict ℕ A)
  parse_lr_schedule values = if length values % 2 == 0 then parse_pairs values [] else err unpaired

  unfoldable pub learning_rate : List A → ℕ → Result ScheduleFault A
  learning_rate lr_schedule accepted_count = rate_in accepted_count (parse_lr_schedule lr_schedule)
