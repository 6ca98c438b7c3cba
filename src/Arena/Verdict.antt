-- ===== src/Arena/Verdict.antt =====
-- The gate's decisions, and where the arena's loop ends.
use connect4codex.Prelude.{
  ℕ, ◌≤◌, ◌<◌, ◌≡◌, refl, ap, ◌∙◌, Bool, true, Option, none, some, Floats, leb, ◌⊎◌, if◌then◌else◌,
  arith, Bool-cases, inl, inr, not_leb, leb→le,
}
use connect4codex.Arena.Gate.{Verdict, accepted, rejected, Gate, judge, decision, ratio}

module _ ⦃fl : Floats⦄ where
  -- What each answer of the gate means.
  abbrev pub Means : Option Verdict → (least most games : ℕ) → (crossed : Bool) → Gate → Type 0
  Means none least most games crossed g = (games < most) × (g.crossed_boundary ≡ crossed)
  Means (some accepted) least most games crossed g =
      (least ≤ games) × (fl.le g.upper g.llr ≡ true) × (g.crossed_boundary ≡ true)
  Means (some rejected) least most games crossed g =
      ((least ≤ games) × (fl.le g.llr g.lower ≡ true) × (g.crossed_boundary ≡ true))
      ⊎ ((most ≤ games) × (g.crossed_boundary ≡ crossed))

  abbrev pub Ruling : Option Verdict × Gate → Gate → Type 0
  Ruling r g = Means r.0 g.minimum_games g.maximum_games g.games g.crossed_boundary r.1

  judge-Means : (g : Gate) → Ruling (judge g) g
  unfolding judge
  judge-Means g = elim (Bool-cases (leb g.minimum_games g.games)) [
    | inr e ↦ rw e (at_limit g)
    | inl e ↦ elim (Bool-cases (fl.le g.upper g.llr)) [
      | inl f ↦ rw (e, f) (leb→le _ _ e, f, refl)
      | inr f ↦ elim (Bool-cases (fl.le g.llr g.lower)) [
        | inl h ↦ rw (e, f, h) (inl (leb→le _ _ e, h, refl))
        | inr h ↦ rw (e, f, h) (at_limit g)
      ]
    ]
  ]
    where
      at_limit :
          (g : Gate) → Ruling ((if leb g.maximum_games g.games then some rejected else none), g) g
      at_limit g = elim (Bool-cases (leb g.maximum_games g.games)) [
        | inl e ↦ rw e (inr (leb→le _ _ e, refl))
        | inr e ↦ rw e (not_leb _ _ e, refl)
      ]

  judge-same :
      (g : Gate)
      → let g' = (judge g).1 in
        (g'.counts ≡ g.counts)
        × (g'.games ≡ g.games)
        × (g'.first ≡ g.first)
        × (g'.maximum_games ≡ g.maximum_games)
        × (g'.minimum_games ≡ g.minimum_games)
  unfolding judge
  judge-same g = ground arith

  decision_ruled :
      (log : fl.F → fl.F) (g : Gate)
      → g.first ≡ none
      → decision log g ≡ judge (record g { llr = ratio log g })
  unfolding decision
  decision_ruled log g e =
      ap (λ o. elim o [ some f ↦ (none, g) | none ↦ judge (record g { llr = ratio log g }) ]) e

  -- With every game paired, the gate accepts only over its upper boundary and from the least number of
  -- games on, and rejects only under its lower boundary or at the most games; it goes on only below
  -- the most games. It changes no count, and says a boundary was crossed exactly where one was.
  pub decision-Means :
      (log : fl.F → fl.F) (g : Gate)
      → g.first ≡ none
      → let r = decision log g in
        let g' = r.1 in
        Ruling r g
        × (g'.counts ≡ g.counts)
        × (g'.games ≡ g.games)
        × (g'.first ≡ none)
        × (g'.maximum_games ≡ g.maximum_games)
        × (g'.minimum_games ≡ g.minimum_games)
  decision-Means log g e =
      let h = record g { llr = ratio log g } in
      let (same_counts, same_games, same_first, same_most, same_least) = judge-same h in
      rw (decision_ruled log g e)
        (judge-Means h, same_counts, same_games, same_first ∙ e, same_most, same_least)
