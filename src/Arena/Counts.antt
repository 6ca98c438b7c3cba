-- ===== src/Arena/Counts.antt =====
-- The gate's histogram of pairs against the tally of wins, draws and losses.
use connect4codex.Prelude.{
  ℕ, zero, suc, ◌+◌, ◌*◌, ◌≤◌, ◌<◌, ◌≡◌, refl, ◌∙◌, Option, none, some, List, [], ◌∷◌, Floats, ok,
  ltb, leb, ◌==◌, length, length-set, get_or, set, All, arith, Bool-cases, inl, inr,
}
use connect4codex.Arena.Gate.{Gate, update, pair_up}
use connect4codex.Arena.Run.{
  Played, insert_game, sort_games, candidate_score, Standing, count_game, record_game, record_games,
}

abbrev pub total : List ℕ → ℕ
total [] = 0
total (c ∷ cs) = c + total cs

-- 0 * c0 + 1 * c1 + 2 * c2 + ...
abbrev pub points : List ℕ → ℕ
points [] = 0
points (c ∷ cs) = total cs + points cs

total-set :
    (cs : List ℕ) (i : ℕ) → i < length cs → total (set cs i (get_or cs i 0 + 1)) ≡ total cs + 1
total-set [] i h = ground arith
total-set (c ∷ cs) zero h = omega arith
total-set (c ∷ cs) (suc i) h = omega (arith, total-set cs i (omega arith))

points-set :
    (cs : List ℕ) (i : ℕ) → i < length cs → points (set cs i (get_or cs i 0 + 1)) ≡ points cs + i
points-set [] i h = ground arith
points-set (c ∷ cs) zero h = omega arith
points-set (c ∷ cs) (suc i) h =
    omega (arith, points-set cs i (omega arith), total-set cs i (omega arith))

abbrev pub halves : Option ℕ → ℕ
halves none = 0
halves (some f) = 1

abbrev pub held : Option ℕ → ℕ
held none = 0
held (some f) = f

length-insert_game : (r : Played) (rs : List Played) → length (insert_game r rs) ≡ suc (length rs)
unfolding insert_game
length-insert_game r [] = refl
length-insert_game r (s ∷ rs) = ground (arith, length-insert_game r rs)

pub length-sort_games : (rs : List Played) → length (sort_games rs) ≡ length rs
unfolding sort_games
length-sort_games [] = refl
length-sort_games (r ∷ rs) =
    omega (arith, length-insert_game r (sort_games rs), length-sort_games rs)

abbrev pub IsScored : List Played → Type 0
IsScored rs = All (λ r. r.player0_score ≤ 2) rs

insert_game-IsScored :
    (r : Played) (rs : List Played)
    → r.player0_score ≤ 2
    → IsScored rs
    → IsScored (insert_game r rs)
unfolding insert_game
insert_game-IsScored r [] h k = (h, tt)
insert_game-IsScored r (s ∷ rs) h k = elim (Bool-cases (ltb s.game_id r.game_id)) [
  | inl e ↦ rw e (k.0, insert_game-IsScored r rs h k.1)
  | inr e ↦ rw e (h, k)
]

pub sort_games-IsScored : (rs : List Played) → IsScored rs → IsScored (sort_games rs)
unfolding sort_games
sort_games-IsScored [] k = tt
sort_games-IsScored (r ∷ rs) k =
    insert_game-IsScored r (sort_games rs) k.0 (sort_games-IsScored rs k.1)

candidate_bound :
    (candidate : ℕ) (r : Played) → r.player0_score ≤ 2 → candidate_score candidate r ≤ 2
unfolding candidate_score
candidate_bound candidate r h = ground arith

module _ ⦃fl : Floats⦄ where
  -- The histogram and the tally count the same games and the same points.
  pub record Tally (s : Standing) : Type 0 where
    pub bins : length s.gate.counts ≡ 5
    pub played : s.gate.games ≡ s.wins + s.draws + s.losses
    pub paired : s.gate.games ≡ 2 * total s.gate.counts + halves s.gate.first
    pub scored : 2 * s.wins + s.draws ≡ points s.gate.counts + held s.gate.first
    pub small : held s.gate.first ≤ 2

  -- The standing after one more game.
  abbrev noted : ℕ → Standing → Standing
  noted score s = record (count_game score s) { gate = pair_up s.gate.first score s.gate }

  count_sum :
      (score : ℕ) (s : Standing)
      → score ≤ 2
      → let t = count_game score s in
        (t.wins + t.draws + t.losses ≡ suc (s.wins + s.draws + s.losses))
        × (2 * t.wins + t.draws ≡ 2 * s.wins + s.draws + score)
  unfolding count_game
  count_sum score s h = elim (Bool-cases (score == 2)) [
    | inl e ↦ ground arith
    | inr e ↦ ground arith
  ]

  -- Both count the new game.
  noted-Tally : (score : ℕ) (s : Standing) → score ≤ 2 → Tally s → Tally (noted score s)
  unfolding pair_up
  noted-Tally score s h t =
      let (more, gained) = count_sum score s h in go s.gate.first refl more gained
    where
      go :
          (o : Option ℕ)
          → s.gate.first ≡ o
          → let c = count_game score s in
            (c.wins + c.draws + c.losses ≡ suc (s.wins + s.draws + s.losses))
            → (2 * c.wins + c.draws ≡ 2 * s.wins + s.draws + score)
            → Tally (record c { gate = pair_up o score s.gate })
      go none e more gained =
          let paired : s.gate.games ≡ 2 * total s.gate.counts + 0 = rw e at t.paired in
          let scored : 2 * s.wins + s.draws ≡ points s.gate.counts + 0 = rw e at t.scored in
          record {
            bins = t.bins;
            played = omega (arith, t.played, more);
            paired = omega (arith, paired);
            scored = omega (arith, scored, gained);
            small = h;
          }
      go (some f) e more gained =
          let paired : s.gate.games ≡ 2 * total s.gate.counts + 1 = rw e at t.paired in
          let scored : 2 * s.wins + s.draws ≡ points s.gate.counts + f = rw e at t.scored in
          let small : f ≤ 2 = rw e at t.small in
          let room : f + score < length s.gate.counts = omega (arith, t.bins, small) in
          record {
            bins = omega (
              arith,
              t.bins,
              length-set s.gate.counts (f + score) (get_or s.gate.counts (f + score) 0 + 1),
            );
            played = omega (arith, t.played, more);
            paired = omega (arith, paired, total-set s.gate.counts (f + score) room);
            scored = omega (arith, scored, gained, points-set s.gate.counts (f + score) room);
            small = omega arith;
          }

  record_game_lem :
      (score : ℕ) (s : Standing) → score ≤ 2 → record_game score s ≡ ok (noted score s)
  unfolding record_game update count_game
  record_game_lem score s h = elim (Bool-cases (leb score 2)) [
    | inl e ↦ rw e refl
    | inr e ↦ ground arith
  ]

  pair_up-games :
      (o : Option ℕ) (score : ℕ) (g : Gate)
      → let g' = pair_up o score g in
        (g'.games ≡ g.games + 1)
        × (g'.minimum_games ≡ g.minimum_games)
        × (g'.maximum_games ≡ g.maximum_games)
        × (g'.crossed_boundary ≡ g.crossed_boundary)
  unfolding pair_up
  pair_up-games none score g = (refl, refl, refl, refl)
  pair_up-games (some f) score g = (refl, refl, refl, refl)

  -- What a run of games leaves as it was, and how far it moves the count.
  pub record Moved (n : ℕ) (s s' : Standing) : Type 0 where
    pub games_moved : s'.gate.games ≡ s.gate.games + n
    pub least_same : s'.gate.minimum_games ≡ s.gate.minimum_games
    pub most_same : s'.gate.maximum_games ≡ s.gate.maximum_games
    pub boundary_same : s'.gate.crossed_boundary ≡ s.gate.crossed_boundary

  -- Scored games are all recorded, in their order, and the histogram keeps up with the tally.
  pub record_games-Tally :
      (candidate : ℕ) (rs : List Played) (s : Standing)
      → IsScored rs
      → Tally s
      → (s' : Standing) × ((record_games candidate rs s ≡ ok s')
          × Tally s'
          × Moved (length rs) s s')
  unfolding record_games
  record_games-Tally candidate [] s k t = (
    s,
    (
      refl,
      t,
      record {
        games_moved = omega arith;
        least_same = refl;
        most_same = refl;
        boundary_same = refl;
      },
    ),
  )
  record_games-Tally candidate (r ∷ rs) s k t =
      let score = candidate_score candidate r in
      let small = candidate_bound candidate r k.0 in
      let next = noted score s in
      let (s', (e, t', m)) =
        record_games-Tally candidate rs next k.1 (noted-Tally score s small t) in
      let (one, least, most, crossed) = pair_up-games s.gate.first score s.gate in
      (
        s',
        (
          rw (record_game_lem score s small, record_games) e,
          t',
          record {
            games_moved = omega (arith, m.games_moved, one);
            least_same = m.least_same ∙ least;
            most_same = m.most_same ∙ most;
            boundary_same = m.boundary_same ∙ crossed;
          },
        ),
      )
