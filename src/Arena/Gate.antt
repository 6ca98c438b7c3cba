-- ===== src/Arena/Gate.antt =====
-- `PairedSprtGate`. A score is a number of half points. The log-likelihood ratio of the counts is a
-- parameter: `ratio` below is the program's.
use connect4codex.Prelude.{
  ℕ, ◌+◌, ◌%◌, Bool, true, false, not, ◌&&◌, ◌||◌, Option, none, some, List, Floats, Result, ok,
  err, ltb, leb, ◌==◌, if◌then◌else◌, get_or, set, replicate,
}
use connect4codex.Arena.Likelihood.{paired_log_likelihood}

pub data Verdict : Type 0 where
  accepted rejected : Verdict

pub data ArenaFault : Type 0 where
  bad_hypotheses bad_limits bad_score play_failed no_games never_ends : ArenaFault

abbrev pub limits_off : ℕ → ℕ → Bool
limits_off minimum_games maximum_games =
    ltb minimum_games 2
    || not (minimum_games % 2 == 0)
    || not (maximum_games % 2 == 0)
    || ltb maximum_games minimum_games

module _ ⦃fl : Floats⦄ where
  pub record Gate : Type 0 where
    pub p0 : fl.F
    pub p1 : fl.F
    pub minimum_games : ℕ
    pub maximum_games : ℕ
    pub upper : fl.F
    pub lower : fl.F
    pub counts : List ℕ
    pub games : ℕ
    pub llr : fl.F
    pub crossed_boundary : Bool
    pub first : Option ℕ

  abbrev between : fl.F → fl.F → fl.F → Bool
  between a x b = fl.lt a x && fl.lt x b

  abbrev pub hypotheses_off : fl.F → fl.F → fl.F → fl.F → Bool
  hypotheses_off p0 p1 alpha beta = not (
      fl.lt (fl.of_ℕ 0) p0
      && fl.lt p0 p1
      && fl.lt p1 (fl.of_ℕ 1)
      && between (fl.of_ℕ 0) alpha (fl.lit 5 1)
      && between (fl.of_ℕ 0) beta (fl.lit 5 1))

  module _ (log : fl.F → fl.F) where
    abbrev pub fresh_gate : fl.F → fl.F → fl.F → fl.F → ℕ → ℕ → Gate
    fresh_gate p0 p1 alpha beta minimum_games maximum_games = record {
      p0 = p0;
      p1 = p1;
      minimum_games = minimum_games;
      maximum_games = maximum_games;
      upper = log (fl.div (fl.sub (fl.of_ℕ 1) beta) alpha);
      lower = log (fl.div beta (fl.sub (fl.of_ℕ 1) alpha));
      counts = replicate 5 0;
      games = 0;
      llr = fl.of_ℕ 0;
      crossed_boundary = false;
      first = none;
    }

    -- PairedSprtGate(...)
    unfoldable pub new_gate : fl.F → fl.F → fl.F → fl.F → ℕ → ℕ → Result ArenaFault Gate
    new_gate p0 p1 alpha beta minimum_games maximum_games =
        if hypotheses_off p0 p1 alpha beta
        then err bad_hypotheses
        else if limits_off minimum_games maximum_games
        then err bad_limits
        else ok (fresh_gate p0 p1 alpha beta minimum_games maximum_games)

    unfoldable pub ratio : Gate → fl.F
    ratio g =
        fl.sub (paired_log_likelihood log g.counts g.p1) (paired_log_likelihood log g.counts g.p0)

  unfoldable pub pair_up : Option ℕ → ℕ → Gate → Gate
  pair_up none score g = record g { games = g.games + 1; first = some score }
  pair_up (some f) score g = record g {
    games = g.games + 1;
    counts = set g.counts (f + score) (get_or g.counts (f + score) 0 + 1);
    first = none;
  }

  unfoldable pub update : ℕ → Gate → Result ArenaFault Gate
  update score g = if leb score 2 then ok (pair_up g.first score g) else err bad_score

  -- The boundaries, then the limit.
  unfoldable pub judge : Gate → Option Verdict × Gate
  judge g =
      let limit = if leb g.maximum_games g.games then some rejected else none in
      if leb g.minimum_games g.games
      then (if fl.le g.upper g.llr
          then (some accepted, record g { crossed_boundary = true })
          else if fl.le g.llr g.lower
          then (some rejected, record g { crossed_boundary = true })
          else (limit, g))
      else (limit, g)

  module _ (log : fl.F → fl.F) where
    unfoldable pub decision : Gate → Option Verdict × Gate
    decision g = elim g.first [ some f ↦ (none, g) | none ↦ judge (record g { llr = ratio log g }) ]
