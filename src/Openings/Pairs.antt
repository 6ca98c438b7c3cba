-- ===== src/Openings/Pairs.antt =====
-- The list of openings that the arena gets.
use connect4codex.Prelude.{
  ℕ, zero, suc, ◌+◌, ◌*◌, ◌≤◌, ◌<◌, ◌≡◌, refl, sym, ap, ◌∙◌, true, none, some, List, [], ◌∷◌,
  length, length-sum_by, length-take, take, get_elem?, sum_by, sum_by-take, All, leb, bit_xor,
  if◌then◌else◌, Bool-cases, inl, inr, arith,
}
use connect4codex.Openings.Board.{opening_is_nonterminal, opening_key}
use connect4codex.Openings.Draw.{
  same_moves, earlier_key, insert_moves, sort_moves, mirrored, Drawn, OpeningRng, with_mirrors,
  save_and_cut, half_up, draw_openings, arena_openings,
}
use connect4codex.Openings.Distinct.{repeats}
use connect4codex.Openings.Images.{opening_is_nonterminal-mirrored}
use connect4codex.Openings.Found.{keys_of, Opens, IsFound}
use connect4codex.Openings.Loop.{IsLively, start_lem}

-- Sorting keeps every sum over the openings, and what holds of each.
sum_by-insert_moves :
    (f : List ℕ → ℕ) (a : List ℕ) (base : List (List ℕ))
    → sum_by f (insert_moves a base) ≡ f a + sum_by f base
unfolding insert_moves
sum_by-insert_moves f a [] = refl
sum_by-insert_moves f a (b ∷ base) = elim (Bool-cases (earlier_key b a)) [
  | inl later ↦ rw later (omega (arith, sum_by-insert_moves f a base))
  | inr here ↦ rw here refl
]

sum_by-sort_moves :
    (f : List ℕ → ℕ) (base : List (List ℕ)) → sum_by f (sort_moves base) ≡ sum_by f base
unfolding sort_moves
sum_by-sort_moves f [] = refl
sum_by-sort_moves f (a ∷ base) =
    omega (arith, sum_by-sort_moves f base, sum_by-insert_moves f a (sort_moves base))

All-insert_moves :
    (P : List ℕ → Type 0) (a : List ℕ) (base : List (List ℕ))
    → P a
    → All P base
    → All P (insert_moves a base)
unfolding insert_moves
All-insert_moves P a [] p h = (p, tt)
All-insert_moves P a (b ∷ base) p h = elim (Bool-cases (earlier_key b a)) [
  | inl later ↦ rw later (h.0, All-insert_moves P a base p h.1)
  | inr here ↦ rw here (p, h)
]

All-sort_moves : (P : List ℕ → Type 0) (base : List (List ℕ)) → All P base → All P (sort_moves base)
unfolding sort_moves
All-sort_moves P [] h = tt
All-sort_moves P (a ∷ base) h =
    All-insert_moves P a (sort_moves base) h.0 (All-sort_moves P base h.1)

length-sort_moves : (base : List (List ℕ)) → length (sort_moves base) ≡ length base
length-sort_moves base =
    length-sum_by (sort_moves base) ∙ sum_by-sort_moves (λ x. 1) base ∙ sym (length-sum_by base)

-- How often the positions of a list's openings are x.
abbrev pub reached : List ℕ → List (List ℕ) → ℕ
reached x = sum_by (λ moves. if same_moves (opening_key moves) x then 1 else 0)

abbrev pair_reached : List ℕ → List ℕ → ℕ
pair_reached x moves =
    (if same_moves (opening_key (mirrored moves)) x then 1 else 0)
    + (if same_moves (opening_key moves) x then 1 else 0)

reached-with_mirrors :
    (x : List ℕ) (base : List (List ℕ))
    → reached x (with_mirrors base) ≡ sum_by (pair_reached x) base
unfolding with_mirrors
reached-with_mirrors x [] = refl
reached-with_mirrors x (moves ∷ base) = omega (arith, reached-with_mirrors x base)

repeats-keys_of :
    (x : List ℕ) (base : List (List ℕ)) → repeats x (keys_of base) ≡ sum_by (pair_reached x) base
repeats-keys_of x [] = refl
repeats-keys_of x (moves ∷ base) = omega (arith, repeats-keys_of x base)

length-with_mirrors : (base : List (List ℕ)) → length (with_mirrors base) ≡ 2 * length base
unfolding with_mirrors
length-with_mirrors [] = refl
length-with_mirrors (moves ∷ base) = omega (arith, length-with_mirrors base)

pair_at :
    (base : List (List ℕ)) (i : ℕ)
    → i < length base
    → All Opens base
    → (moves : List ℕ) × ((get_elem? (with_mirrors base) (2 * i) ≡ some moves)
        × (get_elem? (with_mirrors base) (2 * i + 1) ≡ some (mirrored moves))
        × Opens moves)
unfolding with_mirrors
pair_at [] i h o = absurd (omega arith)
pair_at (moves ∷ base) zero h o = (moves, (refl, refl, o.0))
pair_at (moves ∷ base) (suc i) h o =
    let (m, (e, e', opens)) = pair_at base i (omega arith) o.1 in
    let first : 2 * suc i ≡ suc (suc (2 * i)) = omega arith in
    let second : 2 * suc i + 1 ≡ suc (suc (2 * i + 1)) = omega arith in
    (m, (rw first e, rw second e', opens))

get_elem?-take :
    {A : Type 0} (n i : ℕ) (xs : List A) → i < n → get_elem? (take n xs) i ≡ get_elem? xs i
get_elem?-take zero i xs h = absurd (omega arith)
get_elem?-take (suc n) i [] h = refl
get_elem?-take (suc n) zero (x ∷ xs) h = refl
get_elem?-take (suc n) (suc i) (x ∷ xs) h = get_elem?-take n i xs (omega arith)

take-take : {A : Type 0} (m n : ℕ) (xs : List A) → m ≤ n → take m (take n xs) ≡ take m xs
take-take zero n xs h = refl
take-take (suc m) zero xs h = absurd (omega arith)
take-take (suc m) (suc n) [] h = refl
take-take (suc m) (suc n) (x ∷ xs) h = ap (◌∷◌ x) (take-take m n xs (omega arith))

-- Of the openings: no two of them reach the same position; those at even indices have a move and end no
-- game, and each is followed by its mirror image, where one follows.
abbrev pub ArePaired : ℕ → List (List ℕ) → Type 0
ArePaired count openings =
    (length openings ≡ count)
    × ((x : List ℕ) → reached x openings ≤ 1)
    × ((i : ℕ)
        → 2 * i < count
        → (moves : List ℕ) × ((get_elem? openings (2 * i) ≡ some moves)
            × Opens moves
            × (2 * i + 1 < count
                → (get_elem? openings (2 * i + 1) ≡ some (mirrored moves))
                  × (opening_is_nonterminal (mirrored moves) ≡ true))))

cut-ArePaired :
    (count : ℕ) (d : Drawn)
    → length d.base ≡ half_up count
    → IsFound d
    → ArePaired count (take count (with_mirrors (sort_moves d.base)))
cut-ArePaired count d full f =
    let base = sort_moves d.base in
    let size : length base ≡ half_up count = length-sort_moves d.base ∙ full in
    let once : (x : List ℕ) → reached x (with_mirrors base) ≤ 1 = λ x. omega (
      arith,
      reached-with_mirrors x base,
      sum_by-sort_moves (pair_reached x) d.base,
      repeats-keys_of x d.base,
      ap (repeats x) f.kept,
      f.single x,
    ) in
    (
      length-take count (with_mirrors base) ∙ omega (arith, length-with_mirrors base, size),
      λ x. omega (
        arith,
        once x,
        sum_by-take (λ moves. if same_moves (opening_key moves) x then 1 else 0) count
            (with_mirrors base),
      ),
      λ i h.
          let (moves, (e, e', opens)) =
            pair_at base i (omega (arith, size, h)) (All-sort_moves Opens d.base f.opens) in
          (
            moves,
            (
              get_elem?-take count (2 * i) (with_mirrors base) h ∙ e,
              opens,
              λ h'. (
                get_elem?-take count (2 * i + 1) (with_mirrors base) h' ∙ e',
                opening_is_nonterminal-mirrored moves opens.1,
              ),
            ),
          ),
    )

module _ (r : OpeningRng) (seed total_games patience fuel : ℕ) where
  -- Where a pass within so many offers an opening that is accepted, for as long as more are needed, and
  -- the passes suffice, a run without saved openings draws as many as it needs, saves them and returns
  -- half as many as the games, rounded up: no two reach the same position, and each opening at an even
  -- index has a move, ends no game and is followed by its mirror image, which ends no game, where one
  -- follows. A later run with at most as many games returns the first of them and saves nothing,
  -- whatever it draws.
  pub arena_openings-ArePaired :
      IsLively r (bit_xor seed 667210) (half_up (half_up total_games)) patience
      → half_up (half_up total_games) * patience ≤ fuel
      → (saved openings : List (List ℕ)) × ((arena_openings r none seed total_games fuel
            ≡ some (some saved, openings))
          × ArePaired (half_up total_games) openings
          × ((later : OpeningRng) (seed' games' fuel' : ℕ)
              → games' ≤ total_games
              → arena_openings later (some saved) seed' games' fuel'
                ≡ some (none, take (half_up games') openings)))
  unfolding arena_openings draw_openings save_and_cut
  arena_openings-ArePaired l enough =
      let count = half_up total_games in
      let (d, (e, full, f)) =
        start_lem r (bit_xor seed 667210) (half_up count) patience fuel l enough in
      let saved = with_mirrors (sort_moves d.base) in
      let size : length saved ≡ 2 * half_up count =
        length-with_mirrors (sort_moves d.base)
        ∙ ap (λ n. 2 * n) (length-sort_moves d.base ∙ full) in
      (
        saved,
        take count saved,
        (
          rw e refl,
          cut-ArePaired count d full f,
          λ later seed' games' fuel' fewer.
              let enough_saved : leb (half_up games') (length saved) ≡ true =
                ground (arith, size, fewer) in
              rw (enough_saved, take-take (half_up games') count saved (omega (arith, fewer))) refl,
        ),
      )
