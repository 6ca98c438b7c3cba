-- ===== src/Openings/Draw.antt =====
-- `_arena_openings`. The generator's draws and the saved file are parameters; a pass of the loop that
-- draws is numbered, and the loop has fuel.
use connect4codex.Prelude.{
  ℕ, zero, suc, ◌+◌, ◌-◌, ◌/◌, Bool, true, false, not, Option, none, some, List, [], ◌∷◌, map,
  length, take, range, exists, flat_map, ltb, leb, ◌==◌, ◌&&◌, ◌||◌, if◌then◌else◌, bit_xor,
}
use connect4codex.Openings.Board.{opening_is_nonterminal, opening_key}

-- The equality of tuples, and their order.
unfoldable pub same_moves : List ℕ → List ℕ → Bool
same_moves [] [] = true
same_moves [] (y ∷ ys) = false
same_moves (x ∷ xs) [] = false
same_moves (x ∷ xs) (y ∷ ys) = (x == y) && same_moves xs ys

unfoldable pub before : List ℕ → List ℕ → Bool
before [] [] = false
before [] (y ∷ ys) = true
before (x ∷ xs) [] = false
before (x ∷ xs) (y ∷ ys) = ltb x y || ((x == y) && before xs ys)

-- (len(a), a) < (len(b), b)
unfoldable pub earlier_key : List ℕ → List ℕ → Bool
unfolding before
earlier_key a b = ltb (length a) (length b) || ((length a == length b) && before a b)

unfoldable pub insert_moves : List ℕ → List (List ℕ) → List (List ℕ)
unfolding earlier_key
insert_moves a [] = a ∷ []
insert_moves a (b ∷ base) =
    let later = insert_moves a base in if earlier_key b a then b ∷ later else a ∷ b ∷ base

unfoldable pub sort_moves : List (List ℕ) → List (List ℕ)
sort_moves [] = []
sort_moves (a ∷ base) = insert_moves a (sort_moves base)

unfoldable pub mirrored : List ℕ → List ℕ
mirrored moves = map (λ move. 6 - move) moves

unfoldable pub is_among : List ℕ → List (List ℕ) → Bool
unfolding same_moves
is_among moves set_of = exists (λ other. same_moves other moves) set_of

-- `base` and `positions`, the last added first.
pub record Drawn : Type 0 where
  pub base : List (List ℕ)
  pub positions : List (List ℕ)

unfoldable pub accepts : List ℕ → Drawn → Bool
unfolding same_moves is_among mirrored opening_key opening_is_nonterminal
accepts moves d =
    not (same_moves moves (mirrored moves))
    && (opening_is_nonterminal moves
        && (not (is_among (mirrored moves) d.base)
            && (not (same_moves (opening_key moves) (opening_key (mirrored moves)))
                && (not (is_among (opening_key moves) d.positions)
                    && not (is_among (opening_key (mirrored moves)) d.positions)))))

unfoldable pub offer : List ℕ → Drawn → Drawn
unfolding accepts
offer moves d =
    if accepts moves d
    then record {
      base = moves ∷ d.base;
      positions = opening_key (mirrored moves) ∷ opening_key moves ∷ d.positions;
    }
    else d

-- The draws of random.Random(seed): by the pass, its depth, and each of its moves.
pub record OpeningRng : Type 0 where
  pub randint : ℕ → ℕ → ℕ
  pub randrange : ℕ → ℕ → ℕ → ℕ

unfoldable pub drawn_moves : OpeningRng → ℕ → ℕ → List ℕ
drawn_moves r seed pass = map (r.randrange seed pass) (range (r.randint seed pass))

unfoldable pub collect : OpeningRng → ℕ → ℕ → ℕ → ℕ → Drawn → Option Drawn
unfolding offer drawn_moves
collect r seed needed zero pass d = if ltb (length d.base) needed then none else some d
collect r seed needed (suc fuel) pass d =
    let later = collect r seed needed fuel (suc pass) (offer (drawn_moves r seed pass) d) in
    if ltb (length d.base) needed then later else some d

unfoldable pub with_mirrors : List (List ℕ) → List (List ℕ)
unfolding mirrored
with_mirrors base = flat_map (λ moves. moves ∷ mirrored moves ∷ []) base

-- The openings that are saved, and those that are returned.
unfoldable pub save_and_cut : ℕ → Option Drawn → Option (Option (List (List ℕ)) × List (List ℕ))
unfolding with_mirrors sort_moves
save_and_cut opening_count none = none
save_and_cut opening_count (some d) =
    let openings = with_mirrors (sort_moves d.base) in
    some (some openings, take opening_count openings)

-- math.ceil(n / 2)
abbrev pub half_up : ℕ → ℕ
half_up n = (n + 1) / 2

unfoldable pub draw_openings :
    OpeningRng → ℕ → ℕ → ℕ → Option (Option (List (List ℕ)) × List (List ℕ))
unfolding collect save_and_cut
draw_openings r seed fuel opening_count = save_and_cut opening_count (
    collect r (bit_xor seed 667210) (half_up opening_count) fuel 0
      (record { base = []; positions = [] }))

unfoldable pub arena_openings :
    OpeningRng
    → Option (List (List ℕ))
    → ℕ
    → ℕ
    → ℕ
    → Option (Option (List (List ℕ)) × List (List ℕ))
unfolding draw_openings
arena_openings r none seed total_games fuel = draw_openings r seed fuel (half_up total_games)
arena_openings r (some persisted) seed total_games fuel =
    let fresh = draw_openings r seed fuel (half_up total_games) in
    if leb (half_up total_games) (length persisted)
    then some (none, take (half_up total_games) persisted)
    else fresh
