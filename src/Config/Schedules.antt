-- ===== src/Config/Schedules.antt =====
-- The learning rates of an accepted configuration: its schedule against the code that reads it.
use connect4codex.Prelude.{
  ℕ, zero, suc, ◌%◌, ◌<◌, ◌≡◌, ◌≢◌, refl, Bool, true, false, not, ◌||◌, Option, some, List, [], ◌∷◌,
  Floats, ok, All, forall, exists, drop, length, get_elem?, ◌==◌, inl, inr, Elem, and_parts,
  and_true, or_false, arith,
}
use connect4codex.Config.Training.{TrainingV2Config}
use connect4codex.Config.Checks.{
  Invalid, validate, v2_checks, field_bounds, schedule_checks, evens, odds, starts_at_zero,
  ascending, float_fields, all_finite,
}
use connect4codex.Config.Accepted.{validate-ok, pick, double_not}
use connect4codex.Schedule.Rates.{parse_lr_schedule, learning_rate}
use connect4codex.Schedule.Reached.{IsReached}
use connect4codex.Schedule.Parsing.{Listed, Climbing, learning_rate-IsReached}

forall-drop :
    {A : Type 0} (p : A → Bool) (n : ℕ) (xs : List A)
    → forall p xs ≡ true
    → forall p (drop n xs) ≡ true
forall-drop p zero xs h = h
forall-drop p (suc n) [] h = refl
forall-drop p (suc n) (x ∷ xs) h = forall-drop p n xs (and_parts (p x) (forall p xs) h).1

none_such :
    {A : Type 0} (p : A → Bool) (x : A) (xs : List A)
    → exists p (x ∷ xs) ≡ false
    → (p x ≡ false) × (exists p xs ≡ false)
none_such p x xs h = ground arith

past :
    {A : Type 0} (j k : ℕ) (ps : List (ℕ × A))
    → j < k
    → All (λ p. k < p.0) ps
    → All (λ p. j < p.0) ps
past j k [] h a = tt
past j k (p ∷ ps) h (first, a) = (omega (arith, h, first), past j k ps h a)

module _ ⦃fl : Floats⦄ where
  -- What a float is as a whole number: there is one for a finite float that is an integer and not below
  -- 0; it keeps the order, and is 0 for 0.
  abbrev pub IsWhole : (fl.F → Option ℕ) → Type 0
  IsWhole whole =
      ((x : fl.F)
        → fl.is_finite x ≡ true
        → fl.lt x (fl.of_ℕ 0) ≡ false
        → fl.is_integer x ≡ true
        → (n : ℕ) × (whole x ≡ some n))
      × ((x y : fl.F) (n k : ℕ) → whole x ≡ some n → whole y ≡ some k → fl.lt x y ≡ true → n < k)
      × ((x : fl.F) (n : ℕ) → whole x ≡ some n → fl.eq x (fl.of_ℕ 0) ≡ true → n ≡ 0)

  abbrev ArePositive : List (ℕ × fl.F) → Type 0
  ArePositive ps = (p : ℕ × fl.F) → Elem p ps → fl.le p.1 (fl.of_ℕ 0) ≡ false

  abbrev not_whole : fl.F → Bool
  not_whole g = fl.lt g (fl.of_ℕ 0) || not (fl.is_integer g)

  abbrev not_positive : fl.F → Bool
  not_positive r = fl.le r (fl.of_ℕ 0)

  module _ (whole : fl.F → Option ℕ) (law : IsWhole whole) where
    abbrev IsPaired : List fl.F → Type 0
    IsPaired xs = (ps : List (ℕ × fl.F)) × (Listed whole xs ps × Climbing ps × ArePositive ps)

    prepend :
        (x y z w : fl.F) (xs : List fl.F) (n : ℕ)
        → whole x ≡ some n
        → fl.lt x z ≡ true
        → fl.le y (fl.of_ℕ 0) ≡ false
        → (ps : List (ℕ × fl.F)) → Listed whole (z ∷ w ∷ xs) ps
        → Climbing ps
        → ArePositive ps
        → Listed whole (x ∷ y ∷ z ∷ w ∷ xs) ((n, y) ∷ ps)
          × Climbing ((n, y) ∷ ps)
          × ArePositive ((n, y) ∷ ps)
    prepend x y z w xs n number less rate [] l c a = absurd l
    prepend x y z w xs n number less rate (p ∷ ps) (number', same', l) (c, cs) a =
        let below : n < p.0 = law.1 x z n p.0 number number' less in
        (
          (number, refl, (number', same', l)),
          ((below, past n p.0 ps below c), (c, cs)),
          λ q e. elim e [ inl same ↦ rw same rate | inr e' ↦ a q e' ],
        )

    rates-IsPaired :
        (xs : List fl.F)
        → length xs % 2 ≡ 0
        → forall fl.is_finite xs ≡ true
        → exists not_whole (evens xs) ≡ false
        → ascending (evens xs) ≡ true
        → exists not_positive (odds xs) ≡ false
        → IsPaired xs
    unfolding ascending
    rates-IsPaired [] even finite integers rising positive = ([], (tt, tt, λ p e. absurd e))
    rates-IsPaired (x ∷ []) even finite integers rising positive = absurd (omega arith)
    rates-IsPaired (x ∷ y ∷ []) even finite integers rising positive =
        let (here, later) = and_parts (fl.is_finite x) (forall fl.is_finite (y ∷ [])) finite in
        let (off, rest) = none_such not_whole x [] integers in
        let (over, whole_off) = or_false (fl.lt x (fl.of_ℕ 0)) (not (fl.is_integer x)) off in
        let (n, number) = law.0 x here over (double_not _ whole_off) in
        let (rate, more) = none_such not_positive y [] positive in
        (
          (n, y) ∷ [],
          (
            (number, refl, tt),
            (tt, tt),
            λ p e. elim e [ inl same ↦ rw same rate | inr e' ↦ absurd e' ],
          ),
        )
    rates-IsPaired (x ∷ y ∷ z ∷ []) even finite integers rising positive = absurd (omega arith)
    rates-IsPaired (x ∷ y ∷ z ∷ w ∷ xs) even finite integers rising positive =
        let tail = z ∷ w ∷ xs in
        let (here, later) = and_parts (fl.is_finite x) (forall fl.is_finite (y ∷ tail)) finite in
        let (next, finite') = and_parts (fl.is_finite y) (forall fl.is_finite tail) later in
        let (off, rest) = none_such not_whole x (evens tail) integers in
        let (over, whole_off) = or_false (fl.lt x (fl.of_ℕ 0)) (not (fl.is_integer x)) off in
        let (n, number) = law.0 x here over (double_not _ whole_off) in
        let (rate, more) = none_such not_positive y (odds tail) positive in
        let (less, rising') = and_true (fl.lt x z) (ascending (evens tail)) rising in
        let (ps, (l, c, a)) = rates-IsPaired (z ∷ w ∷ xs) (omega arith) finite' rest rising' more in
        ((n, y) ∷ ps, prepend x y z w xs n number less rate ps l c a)

  -- What the checks on the schedule and on the floats say of it.
  checked :
      (c : TrainingV2Config)
      → All (λ b. b ≡ true) (field_bounds c)
      → All (λ p. p.0 ≡ false) (v2_checks c)
      → ((length c.lr_schedule == 0) ≡ false)
        × ((not (length c.lr_schedule % 2 == 0)) ≡ false)
        × (forall fl.is_finite c.lr_schedule ≡ true)
        × (exists not_whole (evens c.lr_schedule) ≡ false)
        × (ascending (evens c.lr_schedule) ≡ true)
        × (starts_at_zero (evens c.lr_schedule) ≡ true)
        × (exists not_positive (odds c.lr_schedule) ≡ false)
  unfolding field_bounds v2_checks schedule_checks all_finite
  checked c b k =
      let check = λ (i : ℕ) (x : Bool × Invalid) (e : get_elem? (v2_checks c) i ≡ some x).
        pick (λ p. p.0 ≡ false) (v2_checks c) i x e k in
      let finite = pick (λ x. x ≡ true) (field_bounds c) 43 _ refl b in
      let (some_value, even) =
        or_false (length c.lr_schedule == 0) (not (length c.lr_schedule % 2 == 0))
          (check 8 _ refl) in
      (
        some_value,
        even,
        forall-drop fl.is_finite 21 (float_fields c) finite,
        check 9 _ refl,
        double_not _ (check 10 _ refl),
        double_not _ (check 11 _ refl),
        check 12 _ refl,
      )

  module _ (whole : fl.F → Option ℕ) (law : IsWhole whole) where
    at_zero :
        (xs : List fl.F) (ps : List (ℕ × fl.F))
        → length xs ≢ 0
        → starts_at_zero (evens xs) ≡ true
        → Listed whole xs ps
        → (p : ℕ × fl.F) × (Elem p ps × (p.0 ≡ 0))
    at_zero [] ps some_value start l = absurd (some_value refl)
    at_zero (x ∷ []) ps some_value start l = absurd l
    at_zero (x ∷ y ∷ xs) [] some_value start l = absurd l
    at_zero (x ∷ y ∷ []) (p ∷ ps) some_value start (number, same, l) =
        (p, (inl refl, law.2 x p.0 number start))
    at_zero (x ∷ y ∷ z ∷ xs) (p ∷ ps) some_value start (number, same, l) =
        (p, (inl refl, law.2 x p.0 number start))

    -- In an accepted configuration, the schedule is a list of whole thresholds that rise from 0, each
    -- followed by its rate: it parses to these pairs, and after any number of accepted candidates the
    -- learning rate is that of the highest threshold reached, and is over 0. A float is taken to be a
    -- whole number where it is finite, not below 0 and an integer; these keep their order, and 0 is 0.
    pub validate-learning_rate :
        (c d : TrainingV2Config)
        → validate c ≡ ok d
        → (ps : List (ℕ × fl.F)) × (Listed whole d.lr_schedule ps
            × Climbing ps
            × (parse_lr_schedule whole d.lr_schedule ≡ ok ps)
            × ((accepted_count : ℕ)
                → (p : ℕ × fl.F) × ((learning_rate whole d.lr_schedule accepted_count ≡ ok p.1)
                    × IsReached accepted_count ps p
                    × (fl.le p.1 (fl.of_ℕ 0) ≡ false))))
    validate-learning_rate c d accepted =
        let (same, bounds, checks) = validate-ok c d accepted in
        let (some_value, even, finite, integers, rising, start, positive) =
          checked d (rw same at bounds) (rw same at checks) in
        let (ps, (l, climbing, rates)) =
          rates-IsPaired whole law d.lr_schedule (ground (arith, even)) finite integers rising
            positive in
        let (first, (there, at_start)) =
          at_zero d.lr_schedule ps (ground (arith, some_value)) start l in
        let reach = λ (n : ℕ).
          learning_rate-IsReached whole d.lr_schedule ps n first l climbing there
            (rw at_start (omega arith)) in
        (
          ps,
          (
            l,
            climbing,
            (reach 0).0,
            λ n. let (p, (rate, reached)) = (reach n).1 in (p, (rate, reached, rates p reached.0)),
          ),
        )
