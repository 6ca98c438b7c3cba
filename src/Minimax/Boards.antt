-- ===== src/Minimax/Boards.antt =====
-- The two bitboards of a position, cell by cell.
use connect4codex.Prelude.{
  ℕ, suc, ◌+◌, ◌*◌, ◌^◌, ◌≤◌, ◌<◌, ◌≡◌, refl, ap, ◌∙◌, Bool, true, not, ◌&&◌, List, [], ◌∷◌, range,
  flat_map, map, sum_by, if◌then◌else◌, leb, leb→le, and_true, Bool-cases, inl, inr, arith,
}
use native.Mathlib.Nat.{two-pow-succ, pow-le-pow_right}
use connect4codex.Minimax.Policy.{Planes, place, place_all, bitboards}
use connect4codex.Minimax.Bits.{bit_or-power}

abbrev weight : (ℕ × ℕ → Bool) → ℕ × ℕ → ℕ
weight shown cell = if shown cell then 2 ^ (cell.0 * 7 + cell.1) else 0

-- The cells of a board, row by row from the lowest.
abbrev pub cells : List (ℕ × ℕ)
cells = flat_map (λ row. map (λ col. (row, col)) (range 7)) (range 6)

-- A stone of the side to move, and one of the other side where there is none of the first.
abbrev pub is_own : Planes → ℕ × ℕ → Bool
is_own planes (row, col) = planes 0 row col

abbrev pub is_other : Planes → ℕ × ℕ → Bool
is_other planes (row, col) = not (planes 0 row col) && planes 1 row col

-- The number with bit row * 7 + col set for exactly the cells that are shown.
unfoldable pub board_of : (ℕ × ℕ → Bool) → ℕ
board_of shown = sum_by (weight shown) cells

-- The cells have ever higher bits.
abbrev rises : ℕ → List (ℕ × ℕ) → Bool
rises k [] = true
rises k (cell ∷ rest) = leb k (cell.0 * 7 + cell.1) && rises (suc (cell.0 * 7 + cell.1)) rest

below : (j k a : ℕ) → j ≤ k → a < 2 ^ j → a < 2 ^ k
below j k a h lt =
    let up : 2 ^ j ≤ 2 ^ k = pow-le-pow_right (omega arith) h in omega (arith, up, lt)

weight_most : (shown : ℕ × ℕ → Bool) (row col : ℕ) → weight shown (row, col) ≤ 2 ^ (row * 7 + col)
weight_most shown row col = elim (Bool-cases (shown (row, col))) [
  | inl e ↦ rw e (omega arith)
  | inr e ↦ rw e (omega arith)
]

raised :
    (shown : ℕ × ℕ → Bool) (row col a : ℕ)
    → a < 2 ^ (row * 7 + col)
    → a + weight shown (row, col) < 2 ^ suc (row * 7 + col)
raised shown row col a h = omega (arith, h, weight_most shown row col, two-pow-succ (row * 7 + col))

place_lem :
    (planes : Planes) (row col a b : ℕ)
    → a < 2 ^ (row * 7 + col)
    → b < 2 ^ (row * 7 + col)
    → place planes (a, b) (row, col)
      ≡ (a + weight (is_own planes) (row, col), b + weight (is_other planes) (row, col))
unfolding place
place_lem planes row col a b la lb =
    let ea : a + 0 ≡ a = omega arith in
    let eb : b + 0 ≡ b = omega arith in
    elim (Bool-cases (planes 0 row col)) [
      | inl p ↦ rw (p, bit_or-power (row * 7 + col) a la, eb) refl
      | inr p ↦ elim (Bool-cases (planes 1 row col)) [
        | inl q ↦ rw (p, q, bit_or-power (row * 7 + col) b lb, ea) refl
        | inr q ↦ rw (p, q, ea, eb) refl
      ]
    ]

place_all-sum_by :
    (planes : Planes) (cs : List (ℕ × ℕ)) (k a b : ℕ)
    → rises k cs ≡ true
    → a < 2 ^ k
    → b < 2 ^ k
    → place_all planes (a, b) cs
      ≡ (a + sum_by (weight (is_own planes)) cs, b + sum_by (weight (is_other planes)) cs)
unfolding place_all
place_all-sum_by planes [] k a b r ha hb =
    let ea : a + 0 ≡ a = omega arith in let eb : b + 0 ≡ b = omega arith in rw (ea, eb) refl
place_all-sum_by planes ((row, col) ∷ cs) k a b r ha hb =
    let j = row * 7 + col in
    let (up, rest) = and_true (leb k j) (rises (suc j) cs) r in
    let la = below k j a (leb→le k j up) ha in
    let lb = below k j b (leb→le k j up) hb in
    let own = weight (is_own planes) (row, col) in
    let other = weight (is_other planes) (row, col) in
    let ih =
      place_all-sum_by planes cs (suc j) (a + own) (b + other) rest
        (raised (is_own planes) row col a la) (raised (is_other planes) row col b lb) in
    let sa : a + own + sum_by (weight (is_own planes)) cs
        ≡ a + (own + sum_by (weight (is_own planes)) cs) =
      omega arith in
    let sb : b + other + sum_by (weight (is_other planes)) cs
        ≡ b + (other + sum_by (weight (is_other planes)) cs) =
      omega arith in
    ap (λ boards. place_all planes boards cs) (place_lem planes row col a b la lb)
    ∙ ih
    ∙ ap (λ x. (x, b + other + sum_by (weight (is_other planes)) cs)) sa
    ∙ ap (λ y. (a + (own + sum_by (weight (is_own planes)) cs), y)) sb

from_empty :
    (planes : Planes) (cs : List (ℕ × ℕ))
    → rises 0 cs ≡ true
    → place_all planes (0, 0) cs
      ≡ (sum_by (weight (is_own planes)) cs, sum_by (weight (is_other planes)) cs)
from_empty planes cs r =
    let sa : 0 + sum_by (weight (is_own planes)) cs ≡ sum_by (weight (is_own planes)) cs =
      omega arith in
    let sb : 0 + sum_by (weight (is_other planes)) cs ≡ sum_by (weight (is_other planes)) cs =
      omega arith in
    place_all-sum_by planes cs 0 0 0 r (omega arith) (omega arith)
    ∙ ap (λ x. (x, 0 + sum_by (weight (is_other planes)) cs)) sa
    ∙ ap (λ y. (sum_by (weight (is_own planes)) cs, y)) sb

pub bitboards-board_of :
    (planes : Planes) → bitboards planes ≡ (board_of (is_own planes), board_of (is_other planes))
unfolding bitboards board_of
bitboards-board_of planes = from_empty planes cells refl
