-- ===== src/Arena/Likelihood.antt =====
-- `paired_log_likelihood`. The logarithm and NumPy's sums are read as the operations of `Floats` from
-- the left; the interval is halved 48 times.
use connect4codex.Prelude.{ℕ, zero, suc, List, [], ◌∷◌, map, Floats, if◌then◌else◌, range}

module _ ⦃fl : Floats⦄ where
  abbrev sum_of : List fl.F → fl.F
  sum_of [] = fl.of_ℕ 0
  sum_of (x ∷ xs) = fl.add x (sum_of xs)

  abbrev greatest : fl.F → List fl.F → fl.F
  greatest m [] = m
  greatest m (x ∷ xs) = greatest (if fl.lt m x then x else m) xs

  abbrev least : fl.F → List fl.F → fl.F
  least m [] = m
  least m (x ∷ xs) = least (if fl.lt x m then x else m) xs

  abbrev zip_by : (fl.F → fl.F → fl.F) → List fl.F → List fl.F → List fl.F
  zip_by f [] ys = []
  zip_by f (x ∷ xs) [] = []
  zip_by f (x ∷ xs) (y ∷ ys) = f x y ∷ zip_by f xs ys

  -- np.arange(5) / 4 - mean
  unfoldable pub deltas : fl.F → List fl.F
  deltas mean = map (λ i. fl.sub (fl.div (fl.of_ℕ i) (fl.of_ℕ 4)) mean) (range 5)

  -- The mean of `frequency * delta` under a multiplier.
  unfoldable pub derivative : List fl.F → List fl.F → fl.F → fl.F
  derivative frequency delta multiplier = sum_of (
      zip_by (λ f d. fl.div (fl.mul f d) (fl.add (fl.of_ℕ 1) (fl.mul multiplier d))) frequency
        delta)

  unfoldable pub bisect : ℕ → (fl.F → fl.F) → fl.F → fl.F → fl.F × fl.F
  bisect zero slope lower upper = (lower, upper)
  bisect (suc n) slope lower upper =
      let middle = fl.div (fl.add lower upper) (fl.of_ℕ 2) in
      let half : fl.F × fl.F =
        if fl.lt (fl.of_ℕ 0) (slope middle) then (middle, upper) else (lower, middle) in
      bisect n slope half.0 half.1

  module _ (log : fl.F → fl.F) where
    unfoldable pub paired_log_likelihood : List ℕ → fl.F → fl.F
    unfolding deltas derivative bisect
    paired_log_likelihood counts mean =
        let observed = map (λ c. fl.of_ℕ c) counts in
        let delta = deltas mean in
        let total = fl.add (sum_of observed) (fl.lit 5 6) in
        let frequency = map (λ c. fl.div (fl.add c (fl.lit 1 6)) total) observed in
        let most = greatest (fl.sub (fl.of_ℕ 0) mean) delta in
        let fewest = least (fl.sub (fl.of_ℕ 0) mean) delta in
        let minus_one = fl.sub (fl.of_ℕ 0) (fl.of_ℕ 1) in
        let lower = fl.add (fl.div minus_one most) (fl.lit 1 12) in
        let upper = fl.sub (fl.div minus_one fewest) (fl.lit 1 12) in
        let bounds = bisect 48 (derivative frequency delta) lower upper in
        let multiplier = fl.div (fl.add bounds.0 bounds.1) (fl.of_ℕ 2) in
        let probability =
          zip_by (λ f d. fl.div f (fl.add (fl.of_ℕ 1) (fl.mul multiplier d))) frequency delta in
        sum_of (zip_by (λ c p. fl.mul c (log p)) observed probability)
