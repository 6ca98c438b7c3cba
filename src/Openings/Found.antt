-- ===== src/Openings/Found.antt =====
-- What the loop that draws openings has found, before and after an opening that it accepts.
use connect4codex.Prelude.{
  and_true, not-true, ℕ, ◌≤◌, ◌≡◌, refl, ap, true, false, List, [], ◌∷◌, length, All, arith,
}
use connect4codex.Openings.Board.{opening_is_nonterminal, opening_key}
use connect4codex.Openings.Draw.{same_moves, mirrored, Drawn, accepts, offer}
use connect4codex.Openings.Distinct.{repeats, fresh_pair}

-- The positions after the openings and after their mirror images.
abbrev pub keys_of : List (List ℕ) → List (List ℕ)
keys_of [] = []
keys_of (moves ∷ base) = opening_key (mirrored moves) ∷ opening_key moves ∷ keys_of base

-- An opening of at least one move, of which none ends the game.
abbrev pub Opens : List ℕ → Type 0
Opens moves = (1 ≤ length moves) × (opening_is_nonterminal moves ≡ true)

pub record IsFound (d : Drawn) : Type 0 where
  pub kept : d.positions ≡ keys_of d.base
  pub single : (x : List ℕ) → repeats x d.positions ≤ 1
  pub opens : All Opens d.base

moved : (moves : List ℕ) → same_moves moves (mirrored moves) ≡ false → 1 ≤ length moves
unfolding same_moves mirrored
moved [] h = cc
moved (move ∷ moves) h = omega arith

abbrev pub added : List ℕ → Drawn → Drawn
added moves d = record {
  base = moves ∷ d.base;
  positions = opening_key (mirrored moves) ∷ opening_key moves ∷ d.positions;
}

pub accepts-IsFound :
    (moves : List ℕ) (d : Drawn) → accepts moves d ≡ true → IsFound d → IsFound (added moves d)
unfolding accepts
accepts-IsFound moves d h f =
    let (turned, h1) = and_true _ _ h in
    let (nonterminal, h2) = and_true _ _ h1 in
    let (new, h3) = and_true _ _ h2 in
    let (differ, h4) = and_true _ _ h3 in
    let (absent, absent') = and_true _ _ h4 in
    record {
      kept = ap (λ ks. opening_key (mirrored moves) ∷ opening_key moves ∷ ks) f.kept;
      single =
          fresh_pair (opening_key moves) (opening_key (mirrored moves)) d.positions
            (not-true _ differ) (not-true _ absent) (not-true _ absent') f.single;
      opens = ((moved moves (not-true _ turned), nonterminal), f.opens);
    }

pub offer-taken :
    (moves : List ℕ) (d : Drawn) → accepts moves d ≡ true → offer moves d ≡ added moves d
unfolding offer
offer-taken moves d e = rw e refl

pub offer-refused : (moves : List ℕ) (d : Drawn) → accepts moves d ≡ false → offer moves d ≡ d
unfolding offer
offer-refused moves d e = rw e refl
