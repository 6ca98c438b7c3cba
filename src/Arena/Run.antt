-- ===== src/Arena/Run.antt =====
-- `_run_arena`. The engine's `play_games_v2` is a parameter: what it plays for a batch of requests, or
-- that it raised. A score is a number of half points. Progress reports and rates are left out.
use connect4codex.Prelude.{
  ℕ, zero, suc, ◌+◌, ◌-◌, ◌*◌, ◌/◌, Bool, Option, none, some, List, [], ◌∷◌, ◌++◌, Floats, Result,
  ok, err, ltb, ◌==◌, if◌then◌else◌, min, length, take, drop,
}
use connect4codex.Arena.Gate.{
  Verdict, rejected, ArenaFault, no_games, never_ends, Gate, update, decision,
}

-- A game to play: its metadata and opening moves.
pub record Request : Type 0 where
  pub game_id : ℕ
  pub player0_id : ℕ
  pub player1_id : ℕ
  pub opening : List ℕ

-- A finished game, and the first player's half points.
pub record Played : Type 0 where
  pub game_id : ℕ
  pub player0_id : ℕ
  pub player0_score : ℕ

-- Two games for each opening, with the colours exchanged.
unfoldable pub pair_requests : ℕ → ℕ → ℕ → List (List ℕ) → List Request
pair_requests candidate champion game_id [] = []
pair_requests candidate champion game_id (opening ∷ openings) =
    record { game_id = game_id; player0_id = candidate; player1_id = champion; opening = opening }
    ∷ record {
      game_id = game_id + 1;
      player0_id = champion;
      player1_id = candidate;
      opening = opening;
    }
    ∷ pair_requests candidate champion (game_id + 2) openings

-- sorted(results, key=game_id): a stable insertion
unfoldable pub insert_game : Played → List Played → List Played
insert_game r [] = r ∷ []
insert_game r (s ∷ rest) =
    let later = insert_game r rest in if ltb s.game_id r.game_id then s ∷ later else r ∷ s ∷ rest

unfoldable pub sort_games : List Played → List Played
sort_games [] = []
sort_games (r ∷ rest) = insert_game r (sort_games rest)

unfoldable pub candidate_score : ℕ → Played → ℕ
candidate_score candidate r =
    if r.player0_id == candidate then r.player0_score else 2 - r.player0_score

module _ ⦃fl : Floats⦄ where
  -- The loop's variables.
  pub record Standing : Type 0 where
    pub gate : Gate
    pub wins : ℕ
    pub draws : ℕ
    pub losses : ℕ
    pub path : List fl.F

  unfoldable pub count_game : ℕ → Standing → Standing
  count_game score s =
      if score == 2
      then record s { wins = s.wins + 1 }
      else if score == 1
      then record s { draws = s.draws + 1 }
      else record s { losses = s.losses + 1 }

  abbrev with_gate : Standing → Result ArenaFault Gate → Result ArenaFault Standing
  with_gate s (ok g) = ok (record s { gate = g })
  with_gate s (err e) = err e

  unfoldable pub record_game : ℕ → Standing → Result ArenaFault Standing
  record_game score s = with_gate (count_game score s) (update score s.gate)

  unfoldable pub record_games : ℕ → List Played → Standing → Result ArenaFault Standing
  record_games candidate [] s = ok s
  record_games candidate (r ∷ rest) s = elim (record_game (candidate_score candidate r) s) [
    | ok s' ↦ record_games candidate rest s'
    | err e ↦ err e
  ]

  pub record ArenaReport : Type 0 where
    pub decision : Verdict
    pub by_sprt : Bool
    pub paired_outcomes : List ℕ
    pub games : ℕ
    pub wins : ℕ
    pub draws : ℕ
    pub losses : ℕ
    pub score : fl.F
    pub llr : fl.F
    pub llr_path : List fl.F
    pub openings : ℕ

  unfoldable pub summary : Verdict → Standing → ArenaReport
  summary verdict s =
      let games = s.wins + s.draws + s.losses in
      record {
        decision = verdict;
        by_sprt = s.gate.crossed_boundary;
        paired_outcomes = s.gate.counts;
        games = games;
        wins = s.wins;
        draws = s.draws;
        losses = s.losses;
        score =
            fl.div (fl.add (fl.of_ℕ s.wins) (fl.mul (fl.lit 5 1) (fl.of_ℕ s.draws)))
              (fl.of_ℕ games);
        llr = s.gate.llr;
        llr_path = s.path;
        openings = games / 2;
      }

  -- The score divides by the number of games.
  unfoldable pub report : Verdict → Standing → Result ArenaFault ArenaReport
  report verdict s =
      if (s.wins + s.draws + s.losses) == 0 then err no_games else ok (summary verdict s)

  module _ (log : fl.F → fl.F) (play : List Request → Result ArenaFault (List Played)) where
    -- What a batch's results lead to: an error, a verdict, or the next batch.
    unfoldable pub after_batch :
        ℕ
        → Standing
        → Result ArenaFault (List Played)
        → Result ArenaFault (Option Verdict × Standing)
    after_batch candidate s (err e) = err e
    after_batch candidate s (ok results) = elim (record_games candidate (sort_games results) s) [
      | err e ↦ err e
      | ok s' ↦
          let (verdict, g) = decision log s'.gate in
          ok (verdict, record s' { gate = g; path = s'.path ++ g.llr ∷ [] })
    ]

    module _ (batch candidate champion : ℕ) where
      unfoldable pub pair_count : Standing → List (List ℕ) → ℕ
      pair_count s openings =
          min batch (min ((s.gate.maximum_games - s.gate.games) / 2) (length openings))

      -- The `while` loop, on fuel. An exhausted list of openings rejects.
      unfoldable pub rounds :
          ℕ → ℕ → List (List ℕ) → Standing → Result ArenaFault (Verdict × Standing)
      rounds fuel game_id [] s = ok (rejected, s)
      rounds zero game_id (o ∷ os) s = err never_ends
      rounds (suc fuel) game_id (o ∷ os) s =
          if ltb s.gate.games s.gate.maximum_games
          then (let pairs = pair_count s (o ∷ os) in
              elim (after_batch candidate s
                (play (pair_requests candidate champion game_id (take pairs (o ∷ os))))) [
                  | err e ↦ err e
                  | ok (some verdict, s') ↦ ok (verdict, s')
                  | ok (none, s') ↦ rounds fuel (game_id + 2 * pairs) (drop pairs (o ∷ os)) s'
                ])
          else ok (rejected, s)

      unfoldable pub run_arena :
          Result ArenaFault Gate → List (List ℕ) → Result ArenaFault ArenaReport
      run_arena (err e) openings = err e
      run_arena (ok gate) openings =
          elim (rounds (length openings) 1 openings
            (record { gate = gate; wins = 0; draws = 0; losses = 0; path = [] })) [
              | err e ↦ err e
              | ok (verdict, s) ↦ report verdict s
            ]
