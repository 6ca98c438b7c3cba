-- ===== src/League/Requests.antt =====
-- `_allocate_counts` and `_league_requests`. The draws of the seeded generators and the power of floats are parameters.
-- A game's number is a natural number, and the seeds are what `^` and `<<` give.
use connect4codex.Prelude.{
  ℕ, suc, ◌+◌, ◌-◌, ◌*◌, ◌%◌, ◌^◌, bit_xor, Option, none, some, List, [], ◌∷◌, ◌++◌, map, length,
  take, replicate, range, get_elem?, get_or, set, sum_by, Floats, Result, ok, err, ltb, ◌==◌,
  if◌then◌else◌,
}
use connect4codex.Config.Training.{TrainingV2Config}
use connect4codex.Arena.Run.{Request}
use connect4codex.League.Ids.{uniform_model_id, random_model_id, baseline_model_id}

-- The IndexError of an empty choice, and the ValueError of `_baseline_model_id`.
pub data LeagueFault : Type 0 where
  no_opponent unknown_baseline : LeagueFault

-- counts[index] += 1
unfoldable pub bump : ℕ → List ℕ → List ℕ
bump index counts = set counts index (get_or counts index 0 + 1)

unfoldable pub bump_all : List ℕ → List ℕ → List ℕ
unfolding bump
bump_all [] counts = counts
bump_all (index ∷ order) counts = bump_all order (bump index counts)

-- xs[:a - b], where a negative end counts from the back
unfoldable pub slice_to : {A : Type 0} → ℕ → ℕ → List A → List A
slice_to a b xs = if ltb a b then take (length xs - (b - a)) xs else take (a - b) xs

unfoldable pub total_of : List ℕ → ℕ
total_of = sum_by (λ n. n)

-- Without archived champions their games are the champion's own.
unfoldable pub without_archive : List ℕ → List ℕ → List ℕ
without_archive [] counts = set (set counts 0 (get_or counts 0 0 + get_or counts 1 0)) 1 0
without_archive (a ∷ archive) counts = counts

-- Each category as often as its count.
unfoldable pub categories_from : ℕ → List ℕ → List ℕ
categories_from index [] = []
categories_from index (count ∷ counts) = replicate count index ++ categories_from (suc index) counts

-- An exception, or the first request before the rest.
unfoldable pub prepend :
    Request → Result LeagueFault (List Request) → Result LeagueFault (List Request)
prepend r (ok requests) = ok (r ∷ requests)
prepend r (err e) = err e

unfoldable pub or_fault : {A : Type 0} → LeagueFault → Option A → Result LeagueFault A
or_fault e none = err e
or_fault e (some a) = ok a

abbrev pub game : ℕ → ℕ → ℕ → Request
game game_id red gold = record {
  game_id = game_id;
  player0_id = red;
  player1_id = gold;
  opening = [];
}

module _ ⦃fl : Floats⦄ where
  -- sorted(range(n), key=..., reverse=True), which keeps the order of equal keys
  unfoldable pub insert_index : (ℕ → fl.F) → ℕ → List ℕ → List ℕ
  insert_index key i [] = i ∷ []
  insert_index key i (j ∷ order) =
      let later = insert_index key i order in
      if fl.lt (key i) (key j) then j ∷ later else i ∷ j ∷ order

  unfoldable pub sort_indices : (ℕ → fl.F) → List ℕ → List ℕ
  sort_indices key [] = []
  sort_indices key (i ∷ is) = insert_index key i (sort_indices key is)

  unfoldable pub floors : ℕ → List fl.F → List ℕ
  floors total weights = map (λ x. fl.floor (fl.mul (fl.of_ℕ total) x)) weights

  unfoldable pub remainder_order : ℕ → List fl.F → List ℕ
  unfolding floors
  remainder_order total weights =
      sort_indices
        (λ i.
          fl.sub (get_or (map (λ x. fl.mul (fl.of_ℕ total) x) weights) i (fl.of_ℕ 0))
            (fl.of_ℕ (get_or (floors total weights) i 0)))
        (range (length weights))

  unfoldable pub allocate_counts : ℕ → List fl.F → List ℕ
  allocate_counts total weights =
      let counts = floors total weights in
      bump_all (slice_to total (total_of counts) (remainder_order total weights)) counts

  abbrev pub weights_of : TrainingV2Config → List fl.F
  weights_of c =
      c.champion_self_play_weight ∷ c.archive_weight ∷ c.uniform_weight ∷ c.random_weight ∷ []

  -- `shuffle` and `choose` stand for random.Random(seed).shuffle and the index that its choices takes.
  pub record LeagueRng : Type 0 where
    pub shuffle : ℕ → List ℕ → List ℕ
    pub choose : ℕ → List fl.F → ℕ
    pub pow : fl.F → ℕ → fl.F

  module _ (r : LeagueRng) (c : TrainingV2Config) (champion_attempt : ℕ)
      (archive_attempts : List ℕ) where
    unfoldable pub categories : ℕ → List ℕ
    categories first_game_id = r.shuffle (bit_xor c.run_seed first_game_id) (
        categories_from 0 (
          without_archive archive_attempts
            (allocate_counts c.self_play_batch_games (weights_of c))))

    -- The opponent of a game in category 1, 2 or 3.
    unfoldable pub opponent : ℕ → ℕ → Result LeagueFault ℕ
    unfolding or_fault
    opponent category game_id =
        if category == 1
        then or_fault no_opponent (
            get_elem? archive_attempts (
              r.choose (bit_xor (c.run_seed * 2 ^ 64) game_id)
                (map (λ age. r.pow c.archive_recency age) (range (length archive_attempts)))))
        else if category == 2
        then or_fault unknown_baseline (baseline_model_id uniform_model_id game_id)
        else ok random_model_id

    -- The champion is red in the first game of a category, and every second one from then on.
    unfoldable pub seated : ℕ → ℕ → ℕ → Request
    seated game_id offset other =
        if offset % 2 == 0
        then game game_id champion_attempt other
        else game game_id other champion_attempt

    -- Of a game whose opponent is known: its request, before those of the games after it.
    unfoldable pub against :
        ℕ
        → ℕ
        → Result LeagueFault ℕ
        → Result LeagueFault (List Request)
        → Result LeagueFault (List Request)
    unfolding seated prepend
    against game_id offset (ok other) rest = prepend (seated game_id offset other) rest
    against game_id offset (err e) rest = err e

    unfoldable pub requests : ℕ → List ℕ → List ℕ → Result LeagueFault (List Request)
    unfolding against
    requests game_id offsets [] = ok []
    requests game_id offsets (category ∷ later) =
        let own =
          prepend (game game_id champion_attempt champion_attempt)
            (requests (suc game_id) offsets later) in
        let other =
          against game_id (get_or offsets category 0) (opponent category game_id)
            (requests (suc game_id) (bump category offsets) later) in
        if category == 0 then own else other

    unfoldable pub league_requests : ℕ → Result LeagueFault (List Request)
    league_requests first_game_id =
        requests first_game_id (0 ∷ 0 ∷ 0 ∷ 0 ∷ []) (categories first_game_id)
