-- ===== src/Schedule/Tests.antt =====
-- A schedule of three thresholds, its rates in tenths of a thousandth.
use connect4codex.Prelude.{
  ℕ, ◌≡◌, refl, inl, Option, some, List, [], ◌∷◌, ok, err, put, arith, nat_eq,
}
use connect4codex.Schedule.Rates.{
  unpaired, insert_rate, sort_rates, rate_after, rate_of, rate_in, parse_pairs, parse_lr_schedule,
  learning_rate,
}
use connect4codex.Schedule.Reached.{IsReached}
use connect4codex.Schedule.Parsing.{learning_rate-IsReached}

abbrev values : List ℕ
values = 0 ∷ 20 ∷ 10 ∷ 8 ∷ 30 ∷ 4 ∷ []

abbrev pairs : List (ℕ × ℕ)
pairs = (0, 20) ∷ (10, 8) ∷ (30, 4) ∷ []

abbrev whole : ℕ → Option ℕ
whole n = some n

learning_rate-IsReached_example :
    (parse_lr_schedule whole values ≡ ok pairs)
    × ((p : ℕ × ℕ) × ((learning_rate whole values 12 ≡ ok p.1) × IsReached 12 pairs p))
learning_rate-IsReached_example =
    learning_rate-IsReached whole values pairs 12 (0, 20)
      (refl, refl, (refl, refl, (refl, refl, tt)))
      ((omega arith, (omega arith, tt)), ((omega arith, tt), (tt, tt))) (inl refl) (omega arith)

rates :
    (learning_rate whole values 9 ≡ ok 20)
    × (learning_rate whole values 10 ≡ ok 8)
    × (learning_rate whole values 30 ≡ ok 4)
unfolding learning_rate parse_lr_schedule parse_pairs put rate_in rate_of rate_after sort_rates
    insert_rate
rates = (refl, refl, refl)

odd_values : learning_rate whole (1 ∷ []) 0 ≡ err unpaired
unfolding learning_rate parse_lr_schedule rate_in
odd_values = refl

unsorted_values : learning_rate whole (10 ∷ 8 ∷ 0 ∷ 20 ∷ []) 4 ≡ ok 20
unfolding learning_rate parse_lr_schedule parse_pairs put rate_in rate_of rate_after sort_rates
    insert_rate
unsorted_values = refl
