-- ===== src/Arena/Reports.antt =====
-- What the arena reports.
use connect4codex.Prelude.{
  ℕ, ◌+◌, ◌*◌, ◌%◌, ◌≤◌, ◌≡◌, ◌≢◌, refl, ap, ◌∙◌, true, false, none, List, [], Floats, Result, ok,
  err, ◌==◌, ◌⊎◌, length, replicate, arith, Bool-cases, inl, inr, not_ltb, or_false, not-==,
}
use mathlib.Core.Path.{subst}
use connect4codex.Arena.Gate.{
  Verdict, accepted, rejected, ArenaFault, bad_hypotheses, bad_limits, Gate, new_gate, fresh_gate,
  hypotheses_off, limits_off,
}
use connect4codex.Arena.Run.{
  Request, Played, Standing, rounds, run_arena, report, summary, ArenaReport,
}
use connect4codex.Arena.Counts.{total, points}
use connect4codex.Arena.Rounds.{Plays, Between, Reason, Finished, even_games}
use connect4codex.Arena.Ends.{rounds-Finished}

module _ ⦃fl : Floats⦄ where
  -- A gate that was built has even, ordered limits.
  record IsFresh (least most : ℕ) (g : Gate) : Type 0 where
    pub least_is : g.minimum_games ≡ least
    pub most_is : g.maximum_games ≡ most
    pub two : 2 ≤ least
    pub even : most % 2 ≡ 0
    pub ordered : least ≤ most
    pub no_game : g.games ≡ 0
    pub no_count : g.counts ≡ replicate 5 0
    pub no_half : g.first ≡ none
    pub uncrossed : g.crossed_boundary ≡ false

  limits_lem :
      (least most : ℕ)
      → limits_off least most ≡ false
      → (2 ≤ least) × (least % 2 ≡ 0) × (most % 2 ≡ 0) × (least ≤ most)
  limits_lem least most e =
      let (rest, over) = or_false _ _ e in
      let (rest', odd') = or_false _ _ rest in
      let (low, odd) = or_false _ _ rest' in
      (not_ltb _ _ low, not-== _ _ odd, not-== _ _ odd', not_ltb _ _ over)

  new_gate-ok :
      (log : fl.F → fl.F) (p0 p1 alpha beta : fl.F) (least most : ℕ) (g : Gate)
      → new_gate log p0 p1 alpha beta least most ≡ ok g
      → (limits_off least most ≡ false) × (fresh_gate log p0 p1 alpha beta least most ≡ g)
  unfolding new_gate
  new_gate-ok log p0 p1 alpha beta least most g e =
      elim (Bool-cases (hypotheses_off p0 p1 alpha beta)) [
        | inl off ↦ let e' : err bad_hypotheses ≡ ok g = rw off at e in ground arith
        | inr on ↦ elim (Bool-cases (limits_off least most)) [
          | inl off ↦ let e' : err bad_limits ≡ ok g = rw (on, off) at e in ground arith
          | inr fine ↦
              let e' : ok (fresh_gate log p0 p1 alpha beta least most) ≡ ok g =
                rw (on, fine) at e in
              (fine, ground arith)
        ]
      ]

  new_gate-IsFresh :
      (log : fl.F → fl.F) (p0 p1 alpha beta : fl.F) (least most : ℕ) (g : Gate)
      → new_gate log p0 p1 alpha beta least most ≡ ok g
      → IsFresh least most g
  new_gate-IsFresh log p0 p1 alpha beta least most g e =
      let (fine, same) = new_gate-ok log p0 p1 alpha beta least most g e in
      let (two, _, even, ordered) = limits_lem least most fine in
      subst (λ g. IsFresh least most g) same
        (record {
          least_is = refl;
          most_is = refl;
          two = two;
          even = even;
          ordered = ordered;
          no_game = refl;
          no_count = refl;
          no_half = refl;
          uncrossed = refl;
        })

  abbrev start : Gate → Standing
  start g = record { gate = g; wins = 0; draws = 0; losses = 0; path = [] }

  start-Between : (least most : ℕ) (g : Gate) → IsFresh least most g → Between (start g)
  start-Between least most g f = record {
    tally = record {
      bins = rw f.no_count refl;
      played = f.no_game;
      paired = rw (f.no_game, f.no_count, f.no_half) refl;
      scored = rw (f.no_count, f.no_half) refl;
      small = rw f.no_half (omega arith);
    };
    even = f.no_half;
  }

  -- What a report says of a run with these limits.
  abbrev pub Footing : Verdict → ℕ → ℕ → ArenaReport → Type 0
  Footing accepted least most r = (least ≤ r.games) × (r.by_sprt ≡ true)
  Footing rejected least most r =
      ((least ≤ r.games) × (r.by_sprt ≡ true)) ⊎ ((r.games ≡ most) × (r.by_sprt ≡ false))

  pub record IsSound (least most : ℕ) (r : ArenaReport) : Type 0 where
    pub played : r.games ≡ r.wins + r.draws + r.losses
    pub paired : r.games ≡ 2 * total r.paired_outcomes
    pub scored : 2 * r.wins + r.draws ≡ points r.paired_outcomes
    pub openings_used : r.openings ≡ total r.paired_outcomes
    pub within : r.games ≤ most
    pub grounds : Footing r.decision least most r

  report-ok :
      (v : Verdict) (s : Standing) → s.wins + s.draws + s.losses ≢ 0 → report v s ≡ ok (summary v s)
  unfolding report
  report-ok v s h = elim (Bool-cases ((s.wins + s.draws + s.losses) == 0)) [
    | inl e ↦ ground (arith, e)
    | inr e ↦ rw e refl
  ]

  -- A verdict's reason, in terms of the limits.
  grounds_of :
      (v : Verdict) (n least most : ℕ) (g : Gate) (s : Standing)
      → IsFresh least most g
      → most ≤ 2 * n
      → Finished v n (start g) s
      → Footing v least most (summary v s) × (s.gate.games ≢ 0)
  unfolding summary
  grounds_of accepted n least most g s f h e =
      let games = e.between.tally.played in
      (
        (omega (arith, e.reason.0, f.least_is, games), e.reason.2),
        omega (arith, e.reason.0, f.least_is, f.two),
      )
  grounds_of rejected n least most g s f h e = go e.reason
    where
      go :
          Reason rejected n (start g) s
          → Footing rejected least most (summary rejected s) × (s.gate.games ≢ 0)
      go (inl (low, _, crossed)) = (
        inl (omega (arith, low, f.least_is, e.between.tally.played), crossed),
        omega (arith, low, f.least_is, f.two),
      )
      go (inr (why, same)) =
          let most_played : s.gate.games ≡ most = elim why [
            | inl full ↦ omega (arith, full, e.within, f.most_is)
            | inr spent ↦ omega (arith, spent, f.no_game, e.within, f.most_is, h)
          ] in
          (
            inr (omega (arith, most_played, e.between.tally.played), same ∙ f.uncrossed),
            omega (arith, most_played, f.two, f.ordered),
          )

  ended-IsSound :
      (v : Verdict) (n least most : ℕ) (g : Gate) (s : Standing)
      → IsFresh least most g
      → most ≤ 2 * n
      → Finished v n (start g) s
      → (s.wins + s.draws + s.losses ≢ 0) × IsSound least most (summary v s)
  unfolding summary
  ended-IsSound v n least most g s f h e =
      let t = e.between.tally in
      let games = even_games s e.between in
      let (grounds, some_game) = grounds_of v n least most g s f h e in
      let scored : 2 * s.wins + s.draws ≡ points s.gate.counts + 0 =
        rw e.between.even at t.scored in
      (
        omega (arith, some_game, t.played),
        record {
          played = refl;
          paired = omega (arith, games, t.played);
          scored = omega (arith, scored);
          openings_used = omega (arith, games, t.played);
          within = omega (arith, e.within, f.most_is, t.played);
          grounds = grounds;
        },
      )

  run-from :
      (log : fl.F → fl.F) (play : List Request → Result ArenaFault (List Played))
      (batch candidate champion : ℕ) (openings : List (List ℕ)) (g : Gate) (v : Verdict)
      (s : Standing)
      → rounds log play batch candidate champion (length openings) 1 openings (start g) ≡ ok (v, s)
      → run_arena log play batch candidate champion (ok g) openings ≡ report v s
  unfolding run_arena
  run-from log play batch candidate champion openings g v s e =
      ap (λ r. elim r [ err f ↦ err f | ok (w, t) ↦ report w t ]) e

  pub run_arena-IsSound :
      (log : fl.F → fl.F) (play : List Request → Result ArenaFault (List Played))
      (batch candidate champion : ℕ) (p0 p1 alpha beta : fl.F) (least most : ℕ)
      (openings : List (List ℕ)) (g : Gate)
      → new_gate log p0 p1 alpha beta least most ≡ ok g
      → Plays play
      → 1 ≤ batch
      → most ≤ 2 * length openings
      → (r : ArenaReport) × ((run_arena log play batch candidate champion
              (new_gate log p0 p1 alpha beta least most)
              openings
            ≡ ok r)
          × IsSound least most r)
  run_arena-IsSound log play batch candidate champion p0 p1 alpha beta least most openings g built
        plays some_batch enough =
      let f = new_gate-IsFresh log p0 p1 alpha beta least most g built in
      let (v, (s, (e, end))) =
        rounds-Finished log play batch candidate champion (length openings) 1 openings (start g)
          plays some_batch (rw f.most_is f.even) (omega (arith, f.no_game))
          (start-Between least most g f) (omega arith) in
      let (some_game, sound) = ended-IsSound v (length openings) least most g s f enough end in
      (
        summary v s,
        (
          rw built (
              run-from log play batch candidate champion openings g v s e
              ∙ report-ok v s some_game),
          sound,
        ),
      )
