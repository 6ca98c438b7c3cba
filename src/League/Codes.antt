-- ===== src/League/Codes.antt =====
-- The identifiers decode.
use connect4codex.Prelude.{
  ℕ, ◌+◌, ◌-◌, ◌*◌, ◌/◌, ◌%◌, ◌≤◌, ◌<◌, ◌≡◌, refl, ap, ◌∙◌, ◌⊎◌, inl, inr, true, false, some, ltb,
  ◌==◌, arith, ==_iff,
}
use connect4codex.League.Ids.{
  uniform_model_id, random_model_id, baseline_model_id, baseline_of, baseline_kind_and_game,
}

even_code : (g : ℕ) → baseline_of (2 * g) ≡ (uniform_model_id, g)
unfolding baseline_of
even_code g =
    let even : (2 * g % 2 == 0) ≡ true = (==_iff (2 * g % 2) 0).1 (omega arith) in
    let half : 2 * g / 2 ≡ g = omega arith in rw (even, half) refl

odd_code : (g : ℕ) → baseline_of (2 * g + 1) ≡ (random_model_id, g)
unfolding baseline_of
odd_code g =
    let odd : ((2 * g + 1) % 2 == 0) ≡ false = ground arith in
    let half : (2 * g + 1 - 1) / 2 ≡ g = omega arith in rw (odd, half) refl

decode :
    (id delta : ℕ)
    → 9223372036854775808 ≤ id
    → id ≤ uniform_model_id
    → uniform_model_id - id ≡ delta
    → baseline_kind_and_game id ≡ some (baseline_of delta)
unfolding baseline_kind_and_game
decode id delta low high e =
    let l : ltb id 9223372036854775808 ≡ false = ground arith in
    let h : ltb uniform_model_id id ≡ false = ground arith in rw (l, h, e) refl

-- For a game's number below 2 ^ 62, the identifier of a baseline decodes to the baseline and the game,
-- and is at least 2 ^ 63, so that it is no attempt's number below that.
pub baseline_kind_and_game-baseline_model_id :
    (kind g : ℕ)
    → (kind ≡ uniform_model_id) ⊎ (kind ≡ random_model_id)
    → g < 4611686018427387904
    → (id : ℕ) × ((baseline_model_id kind g ≡ some id)
        × (9223372036854775808 ≤ id)
        × (baseline_kind_and_game id ≡ some (kind, g)))
unfolding baseline_model_id
baseline_kind_and_game-baseline_model_id kind g (inl u) h = (
  uniform_model_id - 2 * g,
  (
    rw u refl,
    omega arith,
    decode (uniform_model_id - 2 * g) (2 * g) (omega arith) (omega arith) (omega arith)
        ∙ ap (λ x. some x) (even_code g)
        ∙ rw u refl,
  ),
)
baseline_kind_and_game-baseline_model_id kind g (inr r) h = (
  random_model_id - 2 * g,
  (
    rw r refl,
    omega arith,
    decode (random_model_id - 2 * g) (2 * g + 1) (omega arith) (omega arith) (omega arith)
        ∙ ap (λ x. some x) (odd_code g)
        ∙ rw r refl,
  ),
)
