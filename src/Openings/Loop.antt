-- ===== src/Openings/Loop.antt =====
-- The loop that draws openings ends where an opening that it accepts is drawn often enough.
use connect4codex.Prelude.{
  ℕ, zero, suc, ◌+◌, ◌*◌, ◌≤◌, ◌<◌, ◌≡◌, refl, true, false, Option, some, [], length, ltb,
  Bool-cases, inl, inr, arith,
}
use connect4codex.Openings.Draw.{Drawn, accepts, OpeningRng, drawn_moves, collect}
use connect4codex.Openings.Found.{IsFound, added, accepts-IsFound, offer-taken, offer-refused}

module _ (r : OpeningRng) (seed needed patience : ℕ) where
  -- Within so many passes, one offers an opening that is accepted, for as long as more are needed.
  abbrev pub IsLively : Type 0
  IsLively =
      (d : Drawn) (pass : ℕ)
      → IsFound d
      → length d.base < needed
      → (j : ℕ) × ((j < patience) × (accepts (drawn_moves r seed (pass + j)) d ≡ true))

  -- The passes that are left suffice for the next opening, and for `left` more after it.
  Awaits : ℕ → ℕ → ℕ → Drawn → Type 0
  Awaits fuel left pass d =
      (j : ℕ) × ((j + 1 + left * patience ≤ fuel)
        × (accepts (drawn_moves r seed (pass + j)) d ≡ true))

  abbrev pub Collected : Option Drawn → Type 0
  Collected outcome = (d : Drawn) × ((outcome ≡ some d) × (length d.base ≡ needed) × IsFound d)

  collected :
      (fuel pass : ℕ) (d : Drawn)
      → length d.base ≡ needed
      → IsFound d
      → Collected (collect r seed needed fuel pass d)
  unfolding collect
  collected zero pass d full f =
      let h : ltb (length d.base) needed ≡ false = ground arith in (d, (rw h refl, full, f))
  collected (suc fuel) pass d full f =
      let h : ltb (length d.base) needed ≡ false = ground arith in (d, (rw h refl, full, f))

  lively :
      IsLively
      → (fuel left pass : ℕ) (d : Drawn) → IsFound d
      → length d.base < needed
      → patience + left * patience ≤ fuel
      → Awaits fuel left pass d
  unfolding Awaits
  lively l fuel left pass d f h enough =
      let (j, (soon, e)) = l d pass f h in (j, (omega (arith, soon, enough), e))

  idle : (left pass : ℕ) (d : Drawn) → Awaits 0 left pass d → ⊥
  unfolding Awaits
  idle left pass d (j, (enough, e)) = omega (arith, enough)

  -- A pass that is refused comes before the one that is accepted.
  refused_lem :
      (fuel left pass : ℕ) (d : Drawn)
      → accepts (drawn_moves r seed pass) d ≡ false
      → Awaits (suc fuel) left pass d
      → Awaits fuel left (suc pass) d
  unfolding Awaits
  refused_lem fuel left pass d refused (zero, (enough, e)) =
      let now : pass + 0 ≡ pass = omega arith in
      let e' : accepts (drawn_moves r seed pass) d ≡ true = rw now at e in cc
  refused_lem fuel left pass d refused (suc j, (enough, e)) =
      let next : pass + suc j ≡ suc pass + j = omega arith in
      (j, (omega (arith, enough), rw next at e))

  taken_lem :
      (fuel left pass : ℕ) (d : Drawn)
      → Awaits (suc fuel) (suc left) pass d
      → patience + left * patience ≤ fuel
  unfolding Awaits
  taken_lem fuel left pass d (j, (enough, e)) =
      let times : suc left * patience ≡ patience + left * patience = omega arith in
      omega (arith, enough, times)

  collect_lem :
      IsLively
      → (fuel left pass : ℕ) (d : Drawn) → length d.base + suc left ≡ needed
      → IsFound d
      → Awaits fuel left pass d
      → Collected (collect r seed needed fuel pass d)
  unfolding collect
  collect_lem l zero left pass d few f a = absurd (idle left pass d a)
  collect_lem l (suc fuel) zero pass d few f a =
      let moves = drawn_moves r seed pass in
      let h : ltb (length d.base) needed ≡ true = ground arith in
      elim (Bool-cases (accepts moves d)) [
        | inl taken ↦
            rw (h, offer-taken moves d taken)
              (collected fuel (suc pass) (added moves d) (omega (arith, few))
                (accepts-IsFound moves d taken f))
        | inr refused ↦
            rw (h, offer-refused moves d refused)
              (collect_lem l fuel zero (suc pass) d few f (refused_lem fuel zero pass d refused a))
      ]
  collect_lem l (suc fuel) (suc left) pass d few f a =
      let moves = drawn_moves r seed pass in
      let h : ltb (length d.base) needed ≡ true = ground arith in
      elim (Bool-cases (accepts moves d)) [
        | inl taken ↦
            let found = accepts-IsFound moves d taken f in
            let next =
              lively l fuel left (suc pass) (added moves d) found (omega (arith, few))
                (taken_lem fuel left pass d a) in
            rw (h, offer-taken moves d taken)
              (collect_lem l fuel left (suc pass) (added moves d) (omega (arith, few)) found next)
        | inr refused ↦
            rw (h, offer-refused moves d refused)
              (collect_lem l fuel (suc left) (suc pass) d few f
                (refused_lem fuel (suc left) pass d refused a))
      ]

nothing : IsFound (record { base = []; positions = [] })
nothing = record { kept = refl; single = λ x. omega arith; opens = tt }

pub start_lem :
    (r : OpeningRng) (seed needed patience fuel : ℕ)
    → IsLively r seed needed patience
    → needed * patience ≤ fuel
    → Collected r seed needed patience
        (collect r seed needed fuel 0 (record { base = []; positions = [] }))
start_lem r seed zero patience fuel l enough = collected r seed 0 patience fuel 0 _ refl nothing
start_lem r seed (suc needed) patience fuel l enough =
    let times : suc needed * patience ≡ patience + needed * patience = omega arith in
    collect_lem r seed (suc needed) patience l fuel needed 0 _ (omega arith) nothing (
      lively r seed (suc needed) patience l fuel needed 0 _ nothing (omega arith)
        (omega (arith, enough, times)))
