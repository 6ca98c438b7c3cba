-- ===== src/Openings/Images.antt =====
-- The mirror image of an opening ends no game where the opening ends none.
use connect4codex.Prelude.{
  or_false, ℕ, zero, suc, ◌+◌, ◌-◌, ◌<◌, ◌≡◌, refl, sym, ◌∙◌, Bool, true, false, List, [], ◌∷◌,
  length, length-set, get_or, get_or-set, get_or-set_other, set, All-get_or, replicate, leb, ◌==◌,
  ==_iff, if◌then◌else◌, Bool-cases, inl, inr, arith,
}
use connect4codex.Openings.Board.{
  Grid, empty_grid, cell, put, winning, nonterminal_from, opening_is_nonterminal,
}
use connect4codex.Openings.Draw.{mirrored}
use connect4codex.Openings.Lines.{IsMirror, IsMirror-sym, winning-mirror}
use connect4codex.Openings.Cells.{
  IsSized, put-IsSized, cell-put, cell-put_other_row, cell-put_other,
}

-- A position and its mirror image.
record AreImages (board board' : Grid) (heights heights' : List ℕ) : Type 0 where
  sized : IsSized board
  sized' : IsSized board'
  mirror : IsMirror board board'
  seven : length heights ≡ 7
  seven' : length heights' ≡ 7
  level : (c : ℕ) → c < 7 → get_or heights' (6 - c) 0 ≡ get_or heights c 0

module _ (board board' : Grid) (heights heights' : List ℕ) (move player : ℕ)
    (a : AreImages board board' heights heights') (within : move < 7)
    (room : get_or heights move 0 < 6) where
  put-IsMirror :
      IsMirror
        (put board (get_or heights move 0) move player)
        (put board' (get_or heights move 0) (6 - move) player)
  put-IsMirror row col low left = elim (Bool-cases (get_or heights move 0 == row)) [
    | inl e ↦ elim (Bool-cases (move == col)) [
      | inl e' ↦
          let top = (==_iff (get_or heights move 0) row).0 e in
          let here = (==_iff move col).0 e' in
          rw (sym top, sym here)
            (cell-put board' (get_or heights move 0) (6 - move) player room (omega arith) a.sized'
              ∙ sym (cell-put board (get_or heights move 0) move player room within a.sized))
      | inr e' ↦
          cell-put_other board' (get_or heights move 0) (6 - move) player row (6 - col) low a.sized'
            (ground (arith, within, left))
          ∙ a.mirror row col low left
          ∙ sym (
              cell-put_other board (get_or heights move 0) move player row col low a.sized
                (ground arith))
    ]
    | inr e ↦
        cell-put_other_row board' (get_or heights move 0) (6 - move) player row (6 - col)
          (ground arith)
        ∙ a.mirror row col low left
        ∙ sym (cell-put_other_row board (get_or heights move 0) move player row col (ground arith))
  ]

  put_level :
      (c : ℕ)
      → c < 7
      → get_or (set heights' (6 - move) (get_or heights move 0 + 1)) (6 - c) 0
        ≡ get_or (set heights move (get_or heights move 0 + 1)) c 0
  put_level c left = elim (Bool-cases (move == c)) [
    | inl e ↦
        let here = (==_iff move c).0 e in
        rw (sym here) (
          get_or-set heights' (6 - move) (get_or heights move 0 + 1) 0 (omega (arith, a.seven'))
          ∙ sym (
              get_or-set heights move (get_or heights move 0 + 1) 0
                (omega (arith, a.seven, within))))
    | inr e ↦
        get_or-set_other heights' (6 - move) (6 - c) _ 0 (ground (arith, within, left))
        ∙ a.level c left
        ∙ sym (get_or-set_other heights move c _ 0 (ground arith))
  ]

  put-AreImages :
      AreImages
        (put board (get_or heights move 0) move player)
        (put board' (get_or heights move 0) (6 - move) player)
        (set heights move (get_or heights move 0 + 1))
        (set heights' (6 - move) (get_or heights move 0 + 1))
  put-AreImages = record {
    sized = put-IsSized board (get_or heights move 0) move player room a.sized;
    sized' = put-IsSized board' (get_or heights move 0) (6 - move) player room a.sized';
    mirror = put-IsMirror;
    seven = length-set heights move _ ∙ a.seven;
    seven' = length-set heights' (6 - move) _ ∙ a.seven';
    level = put_level;
  }

passed_on :
    (b w rest : Bool)
    → (if b then false else if w then false else rest) ≡ true
    → (b ≡ false) × (w ≡ false) × (rest ≡ true)
passed_on true w rest h = cc
passed_on false true rest h = cc
passed_on false false rest h = (refl, refl, h)

no_winner :
    (board board' : Grid) (player : ℕ)
    → IsMirror board board'
    → winning board player ≡ false
    → winning board' player ≡ false
no_winner board board' player m h = elim (Bool-cases (winning board' player)) [
  | inl e ↦
      let won = winning-mirror board' board (IsMirror-sym board board' m) player e in absurd cc
  | inr e ↦ e
]

nonterminal_from-mirrored :
    (board board' : Grid) (heights heights' : List ℕ) (player : ℕ) (moves : List ℕ)
    → AreImages board board' heights heights'
    → nonterminal_from board heights player moves ≡ true
    → nonterminal_from board' heights' player (mirrored moves) ≡ true
unfolding nonterminal_from mirrored
nonterminal_from-mirrored board board' heights heights' player [] a h = refl
nonterminal_from-mirrored board board' heights heights' player (move ∷ moves) a h =
    let height = get_or heights move 0 in
    let (fits, quiet, rest) = passed_on _ _ _ h in
    let (in_width, in_height) = or_false (leb 7 move) (leb 6 height) fits in
    let within : move < 7 = ground arith in
    let room : height < 6 = ground arith in
    let image = put-AreImages board board' heights heights' move player a within room in
    let same_height : get_or heights' (6 - move) 0 ≡ height = a.level move within in
    let in_width' : leb 7 (6 - move) ≡ false = ground arith in
    let next = put board height move player in
    let next' = put board' height (6 - move) player in
    let quiet' : winning next' player ≡ false = no_winner next next' player image.mirror quiet in
    let rest' =
      nonterminal_from-mirrored next next' (set heights move (height + 1))
        (set heights' (6 - move) (height + 1)) (3 - player) moves image rest in
    rw (same_height, in_width', in_height, quiet') rest'

get_or-replicate : (n c : ℕ) → get_or {A = ℕ} (replicate n 0) c 0 ≡ 0
get_or-replicate zero c = refl
get_or-replicate (suc n) zero = refl
get_or-replicate (suc n) (suc c) = get_or-replicate n c

zero_cell : (row col : ℕ) → row < 6 → cell empty_grid row col ≡ 0
zero_cell row col h =
    let z = get_or-replicate 7 in
    All-get_or (λ cells. (c : ℕ) → get_or cells c 0 ≡ 0) empty_grid row []
      (z, (z, (z, (z, (z, (z, tt)))))) h col

-- The first position is its own image.
empty-AreImages : AreImages empty_grid empty_grid (replicate 7 0) (replicate 7 0)
empty-AreImages = record {
  sized = record { rows = refl; columns = (refl, (refl, (refl, (refl, (refl, (refl, tt)))))) };
  sized' = record { rows = refl; columns = (refl, (refl, (refl, (refl, (refl, (refl, tt)))))) };
  mirror = λ row col low left. zero_cell row (6 - col) low ∙ sym (zero_cell row col low);
  seven = refl;
  seven' = refl;
  level = λ c left. get_or-replicate 7 (6 - c) ∙ sym (get_or-replicate 7 c);
}

pub opening_is_nonterminal-mirrored :
    (moves : List ℕ)
    → opening_is_nonterminal moves ≡ true
    → opening_is_nonterminal (mirrored moves) ≡ true
unfolding opening_is_nonterminal
opening_is_nonterminal-mirrored moves h =
    nonterminal_from-mirrored empty_grid empty_grid (replicate 7 0) (replicate 7 0) 1 moves
      empty-AreImages h
