-- ===== src/Openings/Lines.antt =====
-- A board and its mirror image have winners of the same lines.
use connect4codex.Prelude.{
  and_parts, either, or_first, or_later, and_true, ℕ, zero, suc, ◌+◌, ◌-◌, ◌≤◌, ◌<◌, ◌≡◌, refl, sym,
  ap, ◌∙◌, ◌⊎◌, Bool, true, false, some, range, range_from, exists, forall, ltb, ◌==◌, ==_iff,
  Bool-cases, ltb→lt, lt→ltb, inl, inr, arith,
}
use connect4codex.Openings.Board.{
  Grid, cell, Direction, up, right, rising, falling, directions, along, held_at, winning,
}

-- The columns in reverse.
abbrev pub IsMirror : Grid → Grid → Type 0
IsMirror board board' =
    (row col : ℕ) → row < 6 → col < 7 → cell board' row (6 - col) ≡ cell board row col

pub IsMirror-sym : (board board' : Grid) → IsMirror board board' → IsMirror board' board
IsMirror-sym board board' m row col h h' =
    let back : 6 - (6 - col) ≡ col = omega arith in
    sym (m row (6 - col) h (omega arith)) ∙ ap (cell board' row) back

and_both : (b rest : Bool) → b ≡ true → rest ≡ true → elim b [ true ↦ rest | false ↦ false ] ≡ true
and_both true rest e h = h
and_both false rest e h = cc

first-or-later : (i k : ℕ) → i ≤ k → (i ≡ k) ⊎ (suc i ≤ k)
first-or-later i k low = elim (Bool-cases (i == k)) [
  | inl e ↦ inl ((==_iff i k).0 e)
  | inr e ↦ inr (ground arith)
]

module _ (p : ℕ → Bool) where
  exists-range_from :
      (n i k : ℕ) → i ≤ k → k < i + n → p k ≡ true → exists p (range_from n i) ≡ true
  exists-range_from zero i k low high h = absurd (omega arith)
  exists-range_from (suc n) i k low high h = elim (first-or-later i k low) [
    | inl e ↦ or_first (p i) (exists p (range_from n (suc i))) (ap p e ∙ h)
    | inr later ↦
        or_later (p i) (exists p (range_from n (suc i)))
          (exists-range_from n (suc i) k later (omega arith) h)
  ]

  range_from-exists :
      (n i : ℕ)
      → exists p (range_from n i) ≡ true
      → (k : ℕ) × ((i ≤ k) × (k < i + n) × (p k ≡ true))
  range_from-exists zero i h = absurd cc
  range_from-exists (suc n) i h = elim (either (p i) (exists p (range_from n (suc i))) h) [
    | inl e ↦ (i, (omega arith, omega arith, e))
    | inr later ↦
        let (k, (low, high, held)) = range_from-exists n (suc i) later in
        (k, (omega (arith, low), omega (arith, high), held))
  ]

  forall-range_from :
      (n i : ℕ) → ((k : ℕ) → i ≤ k → k < i + n → p k ≡ true) → forall p (range_from n i) ≡ true
  forall-range_from zero i h = refl
  forall-range_from (suc n) i h =
      and_both (p i) (forall p (range_from n (suc i))) (h i (omega arith) (omega arith))
        (forall-range_from n (suc i) (λ k low high. h k (omega (arith, low)) (omega (arith, high))))

  range_from-forall :
      (n i : ℕ) → forall p (range_from n i) ≡ true → (k : ℕ) → i ≤ k → k < i + n → p k ≡ true
  range_from-forall zero i h k low high = absurd (omega arith)
  range_from-forall (suc n) i h k low high =
      let (here, later) = and_parts (p i) (forall p (range_from n (suc i))) h in
      elim (first-or-later i k low) [
        | inl e ↦ ap p (sym e) ∙ here
        | inr above ↦ range_from-forall n (suc i) later k above (omega (arith, high))
      ]

exists-directions : (q : Direction → Bool) (d : Direction) → q d ≡ true → exists q directions ≡ true
exists-directions q up h = or_first (q up) _ h
exists-directions q right h = or_later (q up) _ (or_first (q right) _ h)
exists-directions q rising h = or_later (q up) _ (or_later (q right) _ (or_first (q rising) _ h))
exists-directions q falling h =
    or_later (q up) _ (or_later (q right) _ (or_later (q rising) _ (or_first (q falling) _ h)))

directions-exists :
    (q : Direction → Bool) → exists q directions ≡ true → (d : Direction) × (q d ≡ true)
directions-exists q h = elim (either (q up) _ h) [
  | inl e ↦ (up, e)
  | inr h1 ↦ elim (either (q right) _ h1) [
    | inl e ↦ (right, e)
    | inr h2 ↦ elim (either (q rising) _ h2) [
      | inl e ↦ (rising, e)
      | inr h3 ↦ elim (either (q falling) _ h3) [ inl e ↦ (falling, e) | inr h4 ↦ absurd cc ]
    ]
  ]
]

module _ (board board' : Grid) (m : IsMirror board board') (player : ℕ) where
  held_at-mirror :
      (row col col' : ℕ)
      → held_at board player (some (row, col)) ≡ true
      → col + col' ≡ 6
      → held_at board' player (some (row, col')) ≡ true
  unfolding held_at
  held_at-mirror row col col' h turned =
      let (low, h1) = and_true (ltb row 6) _ h in
      let (left, held) = and_true (ltb col 7) _ h1 in
      let across : 6 - col ≡ col' = omega (arith, turned) in
      let same : cell board' row col' ≡ cell board row col =
        ap (cell board' row) (sym across) ∙ m row col (ltb→lt row 6 low) (ltb→lt col 7 left) in
      let left' : ltb col' 7 ≡ true = lt→ltb col' 7 (omega (arith, turned)) in
      rw (low, left', same, held) refl

  held_at-column : (row col : ℕ) → held_at board player (some (row, col)) ≡ true → col < 7
  unfolding held_at
  held_at-column row col h =
      let (low, h1) = and_true (ltb row 6) _ h in
      let (left, held) = and_true (ltb col 7) _ h1 in ltb→lt col 7 left

  held_at-falling :
      (row col k : ℕ)
      → held_at board player (along falling row col k) ≡ true
      → (k ≤ col) × (held_at board player (some (row + k, col - k)) ≡ true)
  unfolding along held_at
  held_at-falling row col k h = elim (Bool-cases (ltb col k)) [
    | inl e ↦ let bad : false ≡ true = rw e at h in absurd cc
    | inr e ↦ (ground arith, rw e at h)
  ]

  -- A line, and the one that is its image.
  abbrev line : Grid → Direction → ℕ → ℕ → Bool
  line grid d row col = forall (λ step. held_at grid player (along d row col step)) (range 4)

  line-image :
      (row col' : ℕ) (d' : Direction)
      → col' < 7
      → ((k : ℕ) → k < 4 → held_at board' player (along d' row col' k) ≡ true)
      → exists (λ col. exists (λ d. line board' d row col) directions) (range 7) ≡ true
  line-image row col' d' within h =
      exists-range_from (λ col. exists (λ d. line board' d row col) directions) 7 0 col'
        (omega arith) (omega (arith, within))
        (exists-directions (λ d. line board' d row col') d'
          (forall-range_from (λ step. held_at board' player (along d' row col' step)) 4 0
            (λ k low high. h k (omega (arith, high)))))

  line-mirror :
      (row col : ℕ) (d : Direction)
      → col < 7
      → ((k : ℕ) → k < 4 → held_at board player (along d row col k) ≡ true)
      → exists (λ col. exists (λ d. line board' d row col) directions) (range 7) ≡ true
  unfolding along
  line-mirror row col up within h =
      line-image row (6 - col) up (omega arith)
        (λ k high. held_at-mirror (row + k) col (6 - col) (h k high) (omega (arith, within)))
  line-mirror row col right within h =
      let far : col + 3 < 7 = held_at-column row (col + 3) (h 3 (omega arith)) in
      line-image row (3 - col) right (omega arith) (λ k high.
        held_at-mirror row (col + (3 - k)) (3 - col + k) (h (3 - k) (omega arith))
          (omega (arith, far, high)))
  line-mirror row col rising within h = line-image row (6 - col) falling (omega arith) (λ k high.
      let far : col + k < 7 = held_at-column (row + k) (col + k) (h k high) in
      let over : ltb (6 - col) k ≡ false = ground (arith, far) in
      rw over (held_at-mirror (row + k) (col + k) (6 - col - k) (h k high) (omega (arith, far))))
  line-mirror row col falling within h = line-image row (6 - col) rising (omega arith) (λ k high.
      let (back, held) = held_at-falling row col k (h k high) in
      held_at-mirror (row + k) (col - k) (6 - col + k) held (omega (arith, within, back)))

  pub winning-mirror : winning board player ≡ true → winning board' player ≡ true
  unfolding winning
  winning-mirror w =
      let (row, (low, high, h)) =
        range_from-exists
          (λ row. exists (λ col. exists (λ d. line board d row col) directions) (range 7)) 6 0 w in
      let (col, (low', high', h')) =
        range_from-exists (λ col. exists (λ d. line board d row col) directions) 7 0 h in
      let (d, held) = directions-exists (λ d. line board d row col) h' in
      exists-range_from
        (λ row. exists (λ col. exists (λ d. line board' d row col) directions) (range 7)) 6 0 row
        low high
        (line-mirror row col d (omega (arith, high')) (λ k few.
          range_from-forall (λ step. held_at board player (along d row col step)) 4 0 held k
            (omega arith) (omega (arith, few))))
