-- ===== src/Config/Runs.antt =====
-- An accepted configuration against the code that it is handed to: the arena's gate, which has checks of
-- its own, the arena on the openings drawn for it, and the back-pressure.
use connect4codex.Prelude.{
  ℕ, ◌*◌, ◌≤◌, ◌≡◌, ◌↔◌, refl, Bool, true, false, none, some, List, Floats, Result, ok, bit_xor,
  and_true,
}
use connect4codex.Config.Training.{TrainingV2Config}
use connect4codex.Config.Checks.{validate}
use connect4codex.Config.Accepted.{IsAccepted, validate-IsAccepted}
use connect4codex.Arena.Gate.{ArenaFault, Gate, new_gate, fresh_gate}
use connect4codex.Arena.Run.{Request, Played, ArenaReport, run_arena}
use connect4codex.Arena.Rounds.{Plays}
use connect4codex.Arena.Reports.{IsSound}
use connect4codex.Openings.Draw.{OpeningRng, half_up, arena_openings}
use connect4codex.Openings.Loop.{IsLively}
use connect4codex.Openings.Arena.{run_arena-arena_openings}
use connect4codex.Coordinator.Pressure.{after_rounds, IsHeld, after_rounds-IsHeld}

module _ ⦃fl : Floats⦄ where
  -- Of two finite floats one is below the other or not over it.
  abbrev pub IsOrdered : Type 0
  IsOrdered =
      (x y : fl.F)
      → fl.is_finite x ≡ true
      → fl.is_finite y ≡ true
      → fl.le y x ≡ false
      → fl.lt x y ≡ true

  -- The gate that `_run_arena` builds.
  abbrev pub gate_of : (fl.F → fl.F) → TrainingV2Config → Result ArenaFault Gate
  gate_of log c =
      new_gate log c.arena_p0 c.arena_p1 c.arena_alpha c.arena_beta c.arena_min_games
        c.arena_max_games

  gate_of-ok :
      (log : fl.F → fl.F) (c : TrainingV2Config)
      → IsOrdered
      → IsAccepted c
      → gate_of log c
        ≡ ok (
            fresh_gate log c.arena_p0 c.arena_p1 c.arena_alpha c.arena_beta c.arena_min_games
              c.arena_max_games)
  unfolding new_gate
  gate_of-ok log c ordered a =
      let (p0_over, p0_under) =
        and_true (fl.lt (fl.of_ℕ 0) c.arena_p0) (fl.lt c.arena_p0 (fl.of_ℕ 1)) a.p0_open in
      let (p1_over, p1_under) =
        and_true (fl.lt (fl.of_ℕ 0) c.arena_p1) (fl.lt c.arena_p1 (fl.of_ℕ 1)) a.p1_open in
      let apart = ordered c.arena_p0 c.arena_p1 a.finite.0 a.finite.1 a.hypotheses in
      rw (p0_over, apart, p1_under, a.alpha_low, a.beta_low, a.arena_limits) refl

  module _ (r : OpeningRng) (patience fuel : ℕ) (log : fl.F → fl.F)
      (play : List Request → Result ArenaFault (List Played)) where
    pub validate-run_arena :
        (c d : TrainingV2Config) (candidate champion : ℕ)
        → IsOrdered
        → validate c ≡ ok d
        → Plays play
        → IsLively r (bit_xor d.run_seed 667210) (half_up (half_up d.arena_max_games)) patience
        → half_up (half_up d.arena_max_games) * patience ≤ fuel
        → (c ≡ d)
          × ((saved openings : List (List ℕ)) × ((arena_openings r none d.run_seed d.arena_max_games
                    fuel
                  ≡ some (some saved, openings))
                × ((report : ArenaReport) × ((run_arena log play d.arena_pair_batch_size candidate
                          champion
                          (gate_of log d)
                          openings
                        ≡ ok report)
                      × IsSound d.arena_min_games d.arena_max_games report))))
          × ((debts : List ℕ) (paused : Bool)
              → (after_rounds d debts paused ≡ true) ↔ IsHeld d debts paused)
    validate-run_arena c d candidate champion ordered accepted plays lively enough =
        let (e, a) = validate-IsAccepted c d accepted in
        let b : IsAccepted d = rw e at a in
        let (saved, openings, (drawn, again, sound)) =
          run_arena-arena_openings r d.run_seed patience fuel log play d.arena_pair_batch_size
            candidate champion d.arena_p0 d.arena_p1 d.arena_alpha d.arena_beta d.arena_min_games
            d.arena_max_games
            (fresh_gate log d.arena_p0 d.arena_p1 d.arena_alpha d.arena_beta d.arena_min_games
              d.arena_max_games)
            (gate_of-ok log d ordered b) plays b.some_pair lively enough in
        (
          e,
          (saved, openings, (drawn, sound)),
          λ debts paused. after_rounds-IsHeld d debts paused b.watermarks,
        )
