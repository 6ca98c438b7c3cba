-- ===== src/Arena/Rounds.antt =====
-- The arena's loop from batch to batch, and its report.
use connect4codex.Prelude.{
  ℕ, ◌+◌, ◌*◌, ◌%◌, ◌≤◌, ◌≡◌, refl, ◌∙◌, true, Option, none, some, List, [], ◌∷◌, Floats, Result,
  ok, ◌⊎◌, length, arith, inl, inr, ◌++◌,
}
use connect4codex.Arena.Gate.{Verdict, accepted, rejected, ArenaFault, decision}
use connect4codex.Arena.Run.{
  Request, Played, pair_requests, sort_games, Standing, record_games, after_batch,
}
use connect4codex.Arena.Counts.{
  IsScored, sort_games-IsScored, length-sort_games, Tally, Moved, halves, record_games-Tally, total,
  points,
}
use connect4codex.Arena.Verdict.{Means, decision-Means}

-- The engine plays every game that it is asked for, and scores it in half points.
abbrev pub Plays : (List Request → Result ArenaFault (List Played)) → Type 0
Plays play =
    (rs : List Request)
    → (games : List Played) × ((play rs ≡ ok games) × (length games ≡ length rs) × IsScored games)

pub length-pair_requests :
    (c d k : ℕ) (os : List (List ℕ)) → length (pair_requests c d k os) ≡ 2 * length os
unfolding pair_requests
length-pair_requests c d k [] = refl
length-pair_requests c d k (o ∷ os) = omega (arith, length-pair_requests c d (k + 2) os)

module _ ⦃fl : Floats⦄ where
  -- Between two batches: no game waits for its pair.
  pub record Between (s : Standing) : Type 0 where
    pub tally : Tally s
    pub even : s.gate.first ≡ none

  -- A batch of n pairs, recorded, and the gate's answer.
  pub record BatchDone (n : ℕ) (s : Standing) (v : Option Verdict) (s' : Standing) : Type 0 where
    pub between : Between s'
    pub added : s'.gate.games ≡ s.gate.games + 2 * n
    pub most_same : s'.gate.maximum_games ≡ s.gate.maximum_games
    pub least_same : s'.gate.minimum_games ≡ s.gate.minimum_games
    pub ruling :
        Means v s.gate.minimum_games s.gate.maximum_games s'.gate.games s.gate.crossed_boundary
          s'.gate

  paired-even :
      (total_pairs games : ℕ) (o : Option ℕ)
      → games ≡ 2 * total_pairs + halves o
      → games % 2 ≡ 0
      → o ≡ none
  paired-even t games none e h = refl
  paired-even t games (some f) e h = ground arith

  asked :
      (log : fl.F → fl.F) (n : ℕ) (s s' : Standing)
      → Tally s'
      → Moved (2 * n) s s'
      → s'.gate.first ≡ none
      → let r = decision log s'.gate in
        BatchDone n s r.0 (record s' { gate = r.1; path = s'.path ++ r.1.llr ∷ [] })
  asked log n s s' t m e =
      let (means, counts, games, first, most, least) = decision-Means log s'.gate e in
      let g = (decision log s'.gate).1 in
      let paired : s'.gate.games ≡ 2 * total s'.gate.counts + 0 = rw e at t.paired in
      let scored : 2 * s'.wins + s'.draws ≡ points s'.gate.counts + 0 = rw e at t.scored in
      record {
        between = record {
          tally = record {
            bins = rw counts t.bins;
            played = games ∙ t.played;
            paired = rw (first, counts, games) paired;
            scored = rw (first, counts) scored;
            small = rw first (omega arith);
          };
          even = first;
        };
        added = games ∙ m.games_moved;
        most_same = most ∙ m.most_same;
        least_same = least ∙ m.least_same;
        ruling = rw (← m.least_same, ← m.most_same, ← m.boundary_same, games) means;
      }

  pub even_games : (s : Standing) → Between s → s.gate.games ≡ 2 * total s.gate.counts
  even_games s b =
      let paired : s.gate.games ≡ 2 * total s.gate.counts + 0 = rw b.even at b.tally.paired in
      omega (arith, paired)

  after-ok :
      (log : fl.F → fl.F) (play : List Request → Result ArenaFault (List Played)) (candidate : ℕ)
      (s s' : Standing) (games : List Played)
      → record_games candidate (sort_games games) s ≡ ok s'
      → let r = decision log s'.gate in
        after_batch log play candidate s (ok games)
        ≡ ok (r.0, record s' { gate = r.1; path = s'.path ++ r.1.llr ∷ [] })
  unfolding after_batch
  after-ok log play candidate s s' games e = rw (e, after_batch) refl

  -- A batch that the engine played is recorded whole, and the gate is asked.
  pub batch_lem :
      (log : fl.F → fl.F) (play : List Request → Result ArenaFault (List Played)) (candidate n : ℕ)
      (s : Standing) (games : List Played)
      → IsScored games
      → length games ≡ 2 * n
      → Between s
      → (v : Option Verdict) × ((s' : Standing) × ((after_batch log play candidate s (ok games)
              ≡ ok (v, s'))
            × BatchDone n s v s'))
  batch_lem log play candidate n s games k len b =
      let (t, (e, tally, moved)) =
        record_games-Tally candidate (sort_games games) s (sort_games-IsScored games k) b.tally in
      let moved' : Moved (2 * n) s t = rw (length-sort_games games, len) at moved in
      let even : t.gate.first ≡ none =
        paired-even (total t.gate.counts) t.gate.games t.gate.first tally.paired
          (omega (arith, moved'.games_moved, even_games s b)) in
      let r = decision log t.gate in
      (
        r.0,
        (
          record t { gate = r.1; path = t.path ++ r.1.llr ∷ [] },
          (after-ok log play candidate s t games e, asked log n s t tally moved' even),
        ),
      )

  -- Why a run ended, n openings after a standing s.
  abbrev pub Reason : Verdict → ℕ → Standing → Standing → Type 0
  Reason accepted n s s' =
      (s.gate.minimum_games ≤ s'.gate.games)
      × (fl.le s'.gate.upper s'.gate.llr ≡ true)
      × (s'.gate.crossed_boundary ≡ true)
  Reason rejected n s s' =
      ((s.gate.minimum_games ≤ s'.gate.games)
        × (fl.le s'.gate.llr s'.gate.lower ≡ true)
        × (s'.gate.crossed_boundary ≡ true))
      ⊎ (((s.gate.maximum_games ≤ s'.gate.games) ⊎ (s'.gate.games ≡ s.gate.games + 2 * n))
          × (s'.gate.crossed_boundary ≡ s.gate.crossed_boundary))

  pub record Finished (v : Verdict) (n : ℕ) (s s' : Standing) : Type 0 where
    pub between : Between s'
    pub within : s'.gate.games ≤ s.gate.maximum_games
    pub most_same : s'.gate.maximum_games ≡ s.gate.maximum_games
    pub reason : Reason v n s s'

  pub here_lem :
      (n : ℕ) (s : Standing)
      → Between s
      → s.gate.games ≤ s.gate.maximum_games
      → (s.gate.maximum_games ≤ s.gate.games) ⊎ (n ≡ 0)
      → Finished rejected n s s
  here_lem n s b h (inl full) = record {
    between = b;
    within = h;
    most_same = refl;
    reason = inr (inl full, refl);
  }
  here_lem n s b h (inr spent) = record {
    between = b;
    within = h;
    most_same = refl;
    reason = inr (inr (omega (arith, spent)), refl);
  }

  -- A verdict after a batch ends the run.
  pub batch-Finished :
      (n k : ℕ) (s s' : Standing) (v : Verdict)
      → BatchDone n s (some v) s'
      → s.gate.games + 2 * n ≤ s.gate.maximum_games
      → Finished v k s s'
  batch-Finished n k s s' accepted b h = record {
    between = b.between;
    within = omega (arith, b.added);
    most_same = b.most_same;
    reason = b.ruling;
  }
  batch-Finished n k s s' rejected b h = record {
    between = b.between;
    within = omega (arith, b.added);
    most_same = b.most_same;
    reason = why b.ruling;
  }
    where
      why :
          Means
            (some rejected)
            s.gate.minimum_games
            s.gate.maximum_games
            s'.gate.games
            s.gate.crossed_boundary
            s'.gate
          → Reason rejected k s s'
      why (inl low) = inl low
      why (inr full) = inr (inl full.0, full.1)

  -- A run that goes on from a batch ends as the rest of it does.
  pub later-Finished :
      (n k j : ℕ) (s t s' : Standing) (v : Verdict)
      → BatchDone n s none t
      → k ≡ j + n
      → Finished v j t s'
      → Finished v k s s'
  later-Finished n k j s t s' accepted b h e = record {
    between = e.between;
    within = rw (← b.most_same) e.within;
    most_same = e.most_same ∙ b.most_same;
    reason = rw (← b.least_same) e.reason;
  }
  later-Finished n k j s t s' rejected b h e = record {
    between = e.between;
    within = rw (← b.most_same) e.within;
    most_same = e.most_same ∙ b.most_same;
    reason = why e.reason;
  }
    where
      why : Reason rejected j t s' → Reason rejected k s s'
      why (inl (low, r, c)) = inl (omega (arith, low, b.least_same), r, c)
      why (inr (inl full, c)) = inr (inl (omega (arith, full, b.most_same)), c ∙ b.ruling.1)
      why (inr (inr spent, c)) = inr (inr (omega (arith, spent, b.added, h)), c ∙ b.ruling.1)
