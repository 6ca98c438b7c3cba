-- ===== src/Arena/Ends.antt =====
-- The arena's loop ends, and its report.
use connect4codex.Prelude.{
  ℕ, zero, suc, ◌+◌, ◌*◌, ◌%◌, ◌≤◌, ◌<◌, ◌≡◌, refl, ◌∙◌, true, false, none, some, List, [], ◌∷◌,
  Floats, Result, ok, ltb, length, take, drop, arith, Bool-cases, inl, inr, Option-cases, ltb→lt,
  not_ltb, length-take, length-drop,
}
use connect4codex.Arena.Gate.{Verdict, rejected, ArenaFault}
use connect4codex.Arena.Run.{
  Request, Played, pair_requests, Standing, after_batch, pair_count, rounds,
}
use connect4codex.Arena.Rounds.{
  Plays, length-pair_requests, Between, BatchDone, even_games, batch_lem, Finished, here_lem,
  batch-Finished, later-Finished,
}

module _ ⦃fl : Floats⦄ (log : fl.F → fl.F) (play : List Request → Result ArenaFault (List Played))
    (batch candidate champion : ℕ) where
  abbrev requests : ℕ → List (List ℕ) → Standing → List Request
  requests game_id openings s =
      pair_requests candidate champion game_id
        (take (pair_count log play batch candidate champion s openings) openings)

  rounds-some :
      (fuel game_id : ℕ) (o : List ℕ) (os : List (List ℕ)) (s s' : Standing) (v : Verdict)
      (games : List Played)
      → ltb s.gate.games s.gate.maximum_games ≡ true
      → play (requests game_id (o ∷ os) s) ≡ ok games
      → after_batch log play candidate s (ok games) ≡ ok (some v, s')
      → rounds log play batch candidate champion (suc fuel) game_id (o ∷ os) s ≡ ok (v, s')
  unfolding rounds
  rounds-some fuel game_id o os s s' v games lt e f = rw (lt, e, f) refl

  rounds-none :
      (fuel game_id : ℕ) (o : List ℕ) (os : List (List ℕ)) (s s' : Standing) (games : List Played)
      → ltb s.gate.games s.gate.maximum_games ≡ true
      → play (requests game_id (o ∷ os) s) ≡ ok games
      → after_batch log play candidate s (ok games) ≡ ok (none, s')
      → let pairs = pair_count log play batch candidate champion s (o ∷ os) in
        rounds log play batch candidate champion (suc fuel) game_id (o ∷ os) s
        ≡ rounds log play batch candidate champion fuel
            (game_id + 2 * pairs)
            (drop pairs (o ∷ os))
            s'
  unfolding rounds
  rounds-none fuel game_id o os s s' games lt e f = rw (lt, e, f) refl

  ends :
      (fuel game_id : ℕ) (s : Standing)
      → rounds log play batch candidate champion fuel game_id [] s ≡ ok (rejected, s)
  unfolding rounds
  ends fuel game_id s = refl

  stop :
      (fuel game_id : ℕ) (o : List ℕ) (os : List (List ℕ)) (s : Standing)
      → ltb s.gate.games s.gate.maximum_games ≡ false
      → rounds log play batch candidate champion (suc fuel) game_id (o ∷ os) s ≡ ok (rejected, s)
  unfolding rounds
  stop fuel game_id o os s full = rw full refl

  pair_bounds :
      (s : Standing) (os : List (List ℕ))
      → Between s
      → 1 ≤ batch
      → 1 ≤ length os
      → s.gate.maximum_games % 2 ≡ 0
      → s.gate.games < s.gate.maximum_games
      → let pairs = pair_count log play batch candidate champion s os in
        (1 ≤ pairs) × (pairs ≤ length os) × (s.gate.games + 2 * pairs ≤ s.gate.maximum_games)
  unfolding pair_count
  pair_bounds s os b h k even lt =
      let twice = even_games s b in (omega (arith, twice), omega arith, omega (arith, twice))

  -- With the engine playing and fuel for every opening, the loop ends with a verdict.
  pub rounds-Finished :
      (fuel game_id : ℕ) (openings : List (List ℕ)) (s : Standing)
      → Plays play
      → 1 ≤ batch
      → s.gate.maximum_games % 2 ≡ 0
      → s.gate.games ≤ s.gate.maximum_games
      → Between s
      → length openings ≤ fuel
      → (v : Verdict) × ((s' : Standing) × ((rounds log play batch candidate champion fuel game_id
                openings s
              ≡ ok (v, s'))
            × Finished v (length openings) s s'))
  rounds-Finished fuel game_id [] s plays some_batch even fits b enough =
      (rejected, (s, (ends fuel game_id s, here_lem 0 s b fits (inr refl))))
  rounds-Finished zero game_id (o ∷ os) s plays some_batch even fits b enough = ground arith
  rounds-Finished (suc fuel) game_id (o ∷ os) s plays some_batch even fits b enough =
      elim (Bool-cases (ltb s.gate.games s.gate.maximum_games)) [
        | inr full ↦ (
          rejected,
          (
            s,
            (
              stop fuel game_id o os s full,
              here_lem (suc (length os)) s b fits (inl (not_ltb _ _ full)),
            ),
          ),
        )
        | inl lt ↦
            let pairs = pair_count log play batch candidate champion s (o ∷ os) in
            let below = ltb→lt _ _ lt in
            let (least, most, room) =
              pair_bounds s (o ∷ os) b some_batch (omega arith) even below in
            let (games, (played, len, k)) = plays (requests game_id (o ∷ os) s) in
            let whole : length games ≡ 2 * pairs = omega (
              arith,
              len,
              length-pair_requests candidate champion game_id (take pairs (o ∷ os)),
              length-take pairs (o ∷ os),
            ) in
            let (v, (t, (e, done))) = batch_lem log play candidate pairs s games k whole b in
            elim (Option-cases v) [
              | inr (w, q) ↦
                  let e' : after_batch log play candidate s (ok games) ≡ ok (some w, t) =
                    rw q at e in
                  let done' : BatchDone pairs s (some w) t = rw q at done in
                  (
                    w,
                    (
                      t,
                      (
                        rounds-some fuel game_id o os s t w games lt played e',
                        batch-Finished pairs (suc (length os)) s t w done' room,
                      ),
                    ),
                  )
              | inl q ↦
                  let e' : after_batch log play candidate s (ok games) ≡ ok (none, t) = rw q at e in
                  let done' : BatchDone pairs s none t = rw q at done in
                  let left = length-drop pairs (o ∷ os) in
                  let (w, (s', (f, end))) =
                    rounds-Finished fuel (game_id + 2 * pairs) (drop pairs (o ∷ os)) t plays
                      some_batch (rw done'.most_same even)
                      (omega (arith, done'.added, done'.most_same, room)) done'.between
                      (omega (arith, left, least, enough)) in
                  (
                    w,
                    (
                      s',
                      (
                        rounds-none fuel game_id o os s t games lt played e' ∙ f,
                        later-Finished pairs (suc (length os)) (length (drop pairs (o ∷ os))) s t s'
                            w done' (omega (arith, left, most)) end,
                      ),
                    ),
                  )
            ]
      ]
