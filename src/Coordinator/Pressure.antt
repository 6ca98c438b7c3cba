-- ===== src/Coordinator/Pressure.antt =====
-- The hysteresis of the replay debt, over any run of rounds.
use connect4codex.Prelude.{
  ℕ, ◌≤◌, ◌<◌, ◌≡◌, ◌↔◌, refl, ap, sym, ◌∙◌, ◌⊎◌, Bool, true, false, List, [], ◌∷◌, ◌++◌, Floats,
  leb, All, arith, Bool-cases, inl, inr, leb→le, not_leb,
}
use connect4codex.Config.Training.{TrainingV2Config}
use connect4codex.Coordinator.Loop.{backpressure}

module _ ⦃fl : Floats⦄ where
  module _ (config : TrainingV2Config) where
    -- The flag after the rounds that saw these debts.
    abbrev pub after_rounds : List ℕ → Bool → Bool
    after_rounds [] paused = paused
    after_rounds (d ∷ ds) paused = after_rounds ds (backpressure config d paused)

    abbrev pub Above : List ℕ → Type 0
    Above ds = All (λ d. config.debt_resume_shards < d) ds

    -- A debt at the upper watermark, and none at the lower one since; or none since a pause.
    abbrev pub IsHeld : List ℕ → Bool → Type 0
    IsHeld ds paused =
        (Above ds × (paused ≡ true))
        ⊎ ((before : List ℕ) × (d : ℕ) × (after : List ℕ) × ((ds ≡ before ++ d ∷ after)
              × (config.debt_pause_shards ≤ d)
              × Above after))

    pressure-up :
        (d : ℕ) (paused : Bool) → config.debt_pause_shards ≤ d → backpressure config d paused ≡ true
    unfolding backpressure
    pressure-up d paused h = ground arith

    pressure-down :
        (d : ℕ) (paused : Bool)
        → config.debt_resume_shards < config.debt_pause_shards
        → d ≤ config.debt_resume_shards
        → backpressure config d paused ≡ false
    unfolding backpressure
    pressure-down d paused gap h = ground arith

    pressure-between :
        (d : ℕ) (paused : Bool)
        → config.debt_resume_shards < d
        → d < config.debt_pause_shards
        → backpressure config d paused ≡ paused
    unfolding backpressure
    pressure-between d paused h k = ground arith

    history :
        (ds : List ℕ) (paused : Bool)
        → config.debt_resume_shards < config.debt_pause_shards
        → after_rounds ds paused ≡ true
        → IsHeld ds paused
    history [] paused gap h = inl (tt, h)
    history (d ∷ ds) paused gap h = elim (history ds (backpressure config d paused) gap h) [
      | inr (before, d', after, (split, high, above)) ↦
          inr (d ∷ before, d', after, (ap (◌∷◌ d) split, high, above))
      | inl (above, on) ↦ elim (Bool-cases (leb config.debt_pause_shards d)) [
        | inl up ↦ inr ([], d, ds, (refl, leb→le _ _ up, above))
        | inr low ↦ elim (Bool-cases (leb d config.debt_resume_shards)) [
          | inl down ↦
              let off : backpressure config d paused ≡ false =
                pressure-down d paused gap (leb→le _ _ down) in
              ground (arith, off, on)
          | inr mid ↦ inl (
            (not_leb _ _ mid, above),
            sym (pressure-between d paused (not_leb _ _ mid) (not_leb _ _ low)) ∙ on,
          )
        ]
      ]
    ]

    stays_on : (ds : List ℕ) → Above ds → after_rounds ds true ≡ true
    unfolding backpressure
    stays_on [] h = refl
    stays_on (d ∷ ds) h =
        let on : backpressure config d true ≡ true = ground (arith, h.0) in
        ap (after_rounds ds) on ∙ stays_on ds h.1

    after_rounds-append :
        (before after : List ℕ) (paused : Bool)
        → after_rounds (before ++ after) paused ≡ after_rounds after (after_rounds before paused)
    after_rounds-append [] after paused = refl
    after_rounds-append (d ∷ before) after paused =
        after_rounds-append before after (backpressure config d paused)

    from_history : (ds : List ℕ) (paused : Bool) → IsHeld ds paused → after_rounds ds paused ≡ true
    from_history ds paused (inl (above, on)) = ap (after_rounds ds) on ∙ stays_on ds above
    from_history ds paused (inr (before, d, after, (split, high, above))) =
        ap (λ xs. after_rounds xs paused) split
        ∙ after_rounds-append before (d ∷ after) paused
        ∙ ap (after_rounds after) (pressure-up d (after_rounds before paused) high)
        ∙ stays_on after above

    -- With the lower watermark below the upper one, self-play is paused after a run of rounds exactly if
    -- some round saw a debt at or over the upper watermark and none since was at or under the lower one,
    -- or if it was paused before and no round saw a debt at or under the lower one.
    pub after_rounds-IsHeld :
        (ds : List ℕ) (paused : Bool)
        → config.debt_resume_shards < config.debt_pause_shards
        → (after_rounds ds paused ≡ true) ↔ IsHeld ds paused
    after_rounds-IsHeld ds paused gap = (history ds paused gap, from_history ds paused)
