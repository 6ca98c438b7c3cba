-- ===== src/Config/Accepted.antt =====
-- What the arena and the back-pressure need of an accepted configuration.
use connect4codex.Prelude.{
  ◌&&◌, ltb, and_parts, ℕ, ◌%◌, ◌≤◌, ◌<◌, ◌≡◌, ◌≢◌, refl, Bool, true, false, Option, none, some,
  List, [], ◌∷◌, Floats, ok, All, forall, get_elem?, leb→le, not_ltb, not_leb, or_false, and_true,
  not, ◌==◌, zero, suc, Bool-cases, inl, inr, arith,
}
use mathlib.Core.Path.{subst}
use connect4codex.Arena.Gate.{limits_off}
use connect4codex.Config.Training.{TrainingV2Config}
use connect4codex.Config.Checks.{
  Invalid, field_bound, first_failure, first_error, field_bounds, v2_checks, verdict, validate,
  all_finite, float_fields,
}

first_failure-none :
    (checks : List (Bool × Invalid)) → first_failure checks ≡ none → All (λ c. c.0 ≡ false) checks
unfolding first_failure
first_failure-none [] h = tt
first_failure-none ((true, e) ∷ rest) h = ground arith
first_failure-none ((false, e) ∷ rest) h = (refl, first_failure-none rest h)

forall-All : (bs : List Bool) → forall (λ b. b) bs ≡ true → All (λ b. b ≡ true) bs
forall-All [] h = tt
forall-All (true ∷ bs) h = (refl, forall-All bs h)
forall-All (false ∷ bs) h = ground arith

first_error-none :
    (bounds : List Bool) (checks : List (Bool × Invalid))
    → first_error bounds checks ≡ none
    → All (λ b. b ≡ true) bounds × All (λ c. c.0 ≡ false) checks
unfolding first_error
first_error-none bounds checks h = elim (Bool-cases (forall (λ b. b) bounds)) [
  | inl e ↦ (forall-All bounds e, first_failure-none checks (rw e at h))
  | inr e ↦ let h' : some field_bound ≡ none = rw e at h in ground arith
]

nonzero : (n : ℕ) → (n == 0) ≡ false → n ≢ 0
nonzero n h = ground arith

pub double_not : (b : Bool) → not b ≡ false → b ≡ true
double_not b h = ground arith

pub pick {ℓ κ} :
    {A : Type ℓ} (P : A → Type κ) (xs : List A) (i : ℕ) (x : A)
    → get_elem? xs i ≡ some x
    → All P xs
    → P x
pick P [] i x e h = ground arith
pick P (y ∷ xs) zero x e h = subst P (cc) h.0
pick P (y ∷ xs) (suc i) x e h = pick P xs i x e h.1

limits :
    (least most : ℕ)
    → 2 ≤ least
    → least ≤ most
    → not (least % 2 == 0) ≡ false
    → not (most % 2 == 0) ≡ false
    → limits_off least most ≡ false
limits least most low order even even' =
    let e : ltb least 2 ≡ false = ground arith in
    let e' : ltb most least ≡ false = ground arith in rw (e, e', even, even') refl

module _ ⦃fl : Floats⦄ where
  verdict-ok :
      (c d : TrainingV2Config) (o : Option Invalid) → verdict c o ≡ ok d → (o ≡ none) × (c ≡ d)
  unfolding verdict
  verdict-ok c d none h = ground arith
  verdict-ok c d (some e) h = ground arith

  pub validate-ok :
      (c d : TrainingV2Config)
      → validate c ≡ ok d
      → (c ≡ d) × All (λ b. b ≡ true) (field_bounds c) × All (λ p. p.0 ≡ false) (v2_checks c)
  unfolding validate
  validate-ok c d h =
      let (e, same) = verdict-ok c d (first_error (field_bounds c) (v2_checks c)) h in
      let (b, k) = first_error-none (field_bounds c) (v2_checks c) e in (same, b, k)

  -- What the arena and the back-pressure need of it.
  pub record IsAccepted (c : TrainingV2Config) : Type 0 where
    pub arena_limits : limits_off c.arena_min_games c.arena_max_games ≡ false
    pub some_pair : 1 ≤ c.arena_pair_batch_size
    pub p0_open : (fl.lt (fl.of_ℕ 0) c.arena_p0 && fl.lt c.arena_p0 (fl.of_ℕ 1)) ≡ true
    pub p1_open : (fl.lt (fl.of_ℕ 0) c.arena_p1 && fl.lt c.arena_p1 (fl.of_ℕ 1)) ≡ true
    pub finite : (fl.is_finite c.arena_p0 ≡ true) × (fl.is_finite c.arena_p1 ≡ true)
    pub hypotheses : fl.le c.arena_p1 c.arena_p0 ≡ false
    pub alpha_low : (fl.lt (fl.of_ℕ 0) c.arena_alpha && fl.lt c.arena_alpha (fl.lit 5 1)) ≡ true
    pub beta_low : (fl.lt (fl.of_ℕ 0) c.arena_beta && fl.lt c.arena_beta (fl.lit 5 1)) ≡ true
    pub watermarks : c.debt_resume_shards < c.debt_pause_shards

  floats_finite :
      (xs : List fl.F) (i : ℕ) (x : fl.F)
      → forall fl.is_finite xs ≡ true
      → get_elem? xs i ≡ some x
      → fl.is_finite x ≡ true
  floats_finite [] i x h e = ground arith
  floats_finite (y ∷ xs) zero x h e =
      let (here, later) = and_parts (fl.is_finite y) (forall fl.is_finite xs) h in
      subst (λ z. fl.is_finite z ≡ true) (cc) here
  floats_finite (y ∷ xs) (suc i) x h e =
      let (here, later) = and_parts (fl.is_finite y) (forall fl.is_finite xs) h in
      floats_finite xs i x later e

  checks-IsAccepted :
      (c : TrainingV2Config)
      → All (λ b. b ≡ true) (field_bounds c)
      → All (λ p. p.0 ≡ false) (v2_checks c)
      → IsAccepted c
  unfolding field_bounds v2_checks all_finite
  checks-IsAccepted c b k =
      let bound = λ (i : ℕ) (x : Bool) (e : get_elem? (field_bounds c) i ≡ some x).
        pick (λ x. x ≡ true) (field_bounds c) i x e b in
      let check = λ (i : ℕ) (x : Bool × Invalid) (e : get_elem? (v2_checks c) i ≡ some x).
        pick (λ p. p.0 ≡ false) (v2_checks c) i x e k in
      let (least, most) = or_false _ _ (check 4 _ refl) in
      record {
        arena_limits =
            limits c.arena_min_games c.arena_max_games (leb→le _ _ (bound 17 _ refl))
              (not_ltb _ _ (check 5 _ refl)) least most;
        some_pair = leb→le _ _ (and_true _ _ (bound 23 _ refl)).0;
        p0_open = bound 19 _ refl;
        p1_open = bound 20 _ refl;
        finite = (
          floats_finite (float_fields c) 11 _ (bound 43 _ refl) refl,
          floats_finite (float_fields c) 12 _ (bound 43 _ refl) refl,
        );
        hypotheses = check 6 _ refl;
        alpha_low = bound 21 _ refl;
        beta_low = bound 22 _ refl;
        watermarks = not_leb _ _ (check 7 _ refl);
      }

  pub validate-IsAccepted : (c d : TrainingV2Config) → validate c ≡ ok d → (c ≡ d) × IsAccepted c
  validate-IsAccepted c d h = let (e, b, k) = validate-ok c d h in (e, checks-IsAccepted c b k)
