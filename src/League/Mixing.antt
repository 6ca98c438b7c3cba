-- ===== src/League/Mixing.antt =====
-- The categories of a batch before and after they are shuffled.
use connect4codex.Prelude.{
  ℕ, zero, suc, ◌+◌, ◌≤◌, ◌<◌, ◌≡◌, refl, sym, ap, ◌∙◌, ◌⊎◌, true, false, List, [], ◌∷◌, length,
  length-append, length-sum_by, replicate, get_or, sum_by, sum_by-append, All, Floats, ◌==◌,
  if◌then◌else◌, inl, inr, arith,
}
use mathlib.Core.Logic.{∥∥₁_elim}
use mathlib.Core.List.{Perm, Permᴰ}
use native.Mathlib.Nat.{ℕ_set}
use connect4codex.Config.Training.{TrainingV2Config}
use connect4codex.League.Requests.{
  total_of, without_archive, categories_from, allocate_counts, weights_of, LeagueRng, categories,
}
use connect4codex.League.Allocation.{occurrences, IsSplit, allocate_counts_lem}

module _ {A : Type 0} where
  sum_by-Permᴰ : (f : A → ℕ) {xs ys : List A} → Permᴰ xs ys → sum_by f xs ≡ sum_by f ys
  sum_by-Permᴰ f Permᴰ.nil = refl
  sum_by-Permᴰ f (Permᴰ.cons e d) = omega (arith, ap f e, sum_by-Permᴰ f d)
  sum_by-Permᴰ f (Permᴰ.swap e e') = omega (arith, ap f e, ap f e')
  sum_by-Permᴰ f (Permᴰ.trans d d') = sum_by-Permᴰ f d ∙ sum_by-Permᴰ f d'

  sum_by-Perm : (f : A → ℕ) {xs ys : List A} → Perm xs ys → sum_by f xs ≡ sum_by f ys
  sum_by-Perm f p = ∥∥₁_elim p (ℕ_set _ _) (λ d. sum_by-Permᴰ f d)

  length-Perm : {xs ys : List A} → Perm xs ys → length xs ≡ length ys
  length-Perm {xs} {ys} p = length-sum_by xs ∙ sum_by-Perm _ p ∙ sym (length-sum_by ys)

  length-replicate : (n : ℕ) (a : A) → length (replicate n a) ≡ n
  length-replicate zero a = refl
  length-replicate (suc n) a = ap suc (length-replicate n a)

occurrences-replicate : (k n j : ℕ) → occurrences k (replicate n j) ≡ (if j == k then n else 0)
occurrences-replicate k zero j = ground arith
occurrences-replicate k (suc n) j = ground (arith, occurrences-replicate k n j)

length-categories_from :
    (index : ℕ) (counts : List ℕ) → length (categories_from index counts) ≡ total_of counts
unfolding categories_from total_of
length-categories_from index [] = refl
length-categories_from index (count ∷ counts) = omega (
  arith,
  length-append (replicate count index) (categories_from (suc index) counts),
  length-replicate count index,
  length-categories_from (suc index) counts,
)

before-categories_from :
    (index k : ℕ) (counts : List ℕ) → k < index → occurrences k (categories_from index counts) ≡ 0
unfolding categories_from
before-categories_from index k [] h = refl
before-categories_from index k (count ∷ counts) h =
    let other : (index == k) ≡ false = ground arith in
    let none_here : occurrences k (replicate count index) ≡ 0 =
      occurrences-replicate k count index ∙ rw other refl in
    omega (
      arith,
      sum_by-append (λ x. if x == k then 1 else 0) (replicate count index)
          (categories_from (suc index) counts),
      none_here,
      before-categories_from (suc index) k counts (omega arith),
    )

occurrences-categories_from :
    (index j : ℕ) (counts : List ℕ)
    → occurrences (index + j) (categories_from index counts) ≡ get_or counts j 0
unfolding categories_from
occurrences-categories_from index j [] = refl
occurrences-categories_from index zero (count ∷ counts) =
    let same : (index == index + 0) ≡ true = ground arith in
    let here : occurrences (index + 0) (replicate count index) ≡ count =
      occurrences-replicate (index + 0) count index ∙ rw same refl in
    omega (
      arith,
      sum_by-append (λ x. if x == index + 0 then 1 else 0) (replicate count index)
          (categories_from (suc index) counts),
      here,
      before-categories_from (suc index) (index + 0) counts (omega arith),
    )
occurrences-categories_from index (suc j) (count ∷ counts) =
    let other : (index == index + suc j) ≡ false = ground arith in
    let none_here : occurrences (index + suc j) (replicate count index) ≡ 0 =
      occurrences-replicate (index + suc j) count index ∙ rw other refl in
    let move : index + suc j ≡ suc index + j = omega arith in
    let later : occurrences (index + suc j) (categories_from (suc index) counts)
        ≡ get_or counts j 0 =
      rw move (occurrences-categories_from (suc index) j counts) in
    omega (
      arith,
      sum_by-append (λ x. if x == index + suc j then 1 else 0) (replicate count index)
          (categories_from (suc index) counts),
      none_here,
      later,
    )

-- A category that a batch can hold: the archive's only when there is one.
abbrev pub Playable : List ℕ → ℕ → Type 0
Playable archive k = (k ≡ 0) ⊎ ((k ≡ 1) × (1 ≤ length archive)) ⊎ (k ≡ 2) ⊎ (k ≡ 3)

archived :
    (archive counts : List ℕ)
    → length counts ≡ 4
    → (k : ℕ) → 1 ≤ length archive
    → 1 ≤ get_or counts k 0
    → Playable archive k
archived archive counts h zero a p = inl refl
archived archive counts h (suc zero) a p = inr (inl (refl, a))
archived archive counts h (suc (suc zero)) a p = inr (inr (inl refl))
archived archive counts h (suc (suc (suc zero))) a p = inr (inr (inr refl))
archived archive [] h (suc (suc (suc (suc k)))) a p = absurd (omega (arith, p))
archived archive (c0 ∷ []) h (suc (suc (suc (suc k)))) a p = absurd (omega (arith, p))
archived archive (c0 ∷ c1 ∷ []) h (suc (suc (suc (suc k)))) a p = absurd (omega (arith, p))
archived archive (c0 ∷ c1 ∷ c2 ∷ []) h (suc (suc (suc (suc k)))) a p = absurd (omega (arith, p))
archived archive (c0 ∷ c1 ∷ c2 ∷ c3 ∷ []) h (suc (suc (suc (suc k)))) a p =
    absurd (omega (arith, p))
archived archive (c0 ∷ c1 ∷ c2 ∷ c3 ∷ c4 ∷ counts) h (suc (suc (suc (suc k)))) a p =
    absurd (omega (arith, h))

unarchived : (c0 c1 c2 c3 k : ℕ) → 1 ≤ get_or ((c0 + c1) ∷ 0 ∷ c2 ∷ c3 ∷ []) k 0 → Playable [] k
unarchived c0 c1 c2 c3 zero p = inl refl
unarchived c0 c1 c2 c3 (suc zero) p = absurd (omega (arith, p))
unarchived c0 c1 c2 c3 (suc (suc zero)) p = inr (inr (inl refl))
unarchived c0 c1 c2 c3 (suc (suc (suc zero))) p = inr (inr (inr refl))
unarchived c0 c1 c2 c3 (suc (suc (suc (suc k)))) p = absurd (omega (arith, p))

without_archive_lem :
    (archive counts : List ℕ)
    → length counts ≡ 4
    → (total_of (without_archive archive counts) ≡ total_of counts)
      × ((k : ℕ) → 1 ≤ get_or (without_archive archive counts) k 0 → Playable archive k)
unfolding without_archive total_of
without_archive_lem [] [] h = absurd (omega (arith, h))
without_archive_lem [] (c0 ∷ []) h = absurd (omega (arith, h))
without_archive_lem [] (c0 ∷ c1 ∷ []) h = absurd (omega (arith, h))
without_archive_lem [] (c0 ∷ c1 ∷ c2 ∷ []) h = absurd (omega (arith, h))
without_archive_lem [] (c0 ∷ c1 ∷ c2 ∷ c3 ∷ c4 ∷ counts) h = absurd (omega (arith, h))
without_archive_lem [] (c0 ∷ c1 ∷ c2 ∷ c3 ∷ []) h = (omega arith, unarchived c0 c1 c2 c3)
without_archive_lem (a ∷ archive) counts h =
    (refl, λ k p. archived (a ∷ archive) counts h k (omega arith) p)

present-All : (P : ℕ → Type 0) (ks : List ℕ) → ((k : ℕ) → 1 ≤ occurrences k ks → P k) → All P ks
present-All P [] h = tt
present-All P (x ∷ ks) h = (h x (ground arith), present-All P ks (λ k p. h k (omega (arith, p))))

-- What the shuffle and the choice of Python's generators promise.
pub record IsRng ⦃fl : Floats⦄ (r : LeagueRng) : Type 0 where
  pub shuffled : (seed : ℕ) (ks : List ℕ) → Perm (r.shuffle seed ks) ks
  pub chosen :
      (seed : ℕ) (weights : List fl.F) → 1 ≤ length weights → r.choose seed weights < length weights

module _ ⦃fl : Floats⦄ (r : LeagueRng) (c : TrainingV2Config) (champion_attempt : ℕ)
    (archive : List ℕ) where
  abbrev pub shares : List ℕ
  shares = without_archive archive (allocate_counts c.self_play_batch_games (weights_of c))

  pub categories_lem :
      (first_game_id : ℕ)
      → IsRng r
      → IsSplit c.self_play_batch_games (weights_of c)
      → (length (categories r c champion_attempt archive first_game_id) ≡ c.self_play_batch_games)
        × ((k : ℕ)
            → occurrences k (categories r c champion_attempt archive first_game_id)
              ≡ get_or shares k 0)
        × All (Playable archive) (categories r c champion_attempt archive first_game_id)
  unfolding categories
  categories_lem first_game_id g s =
      let (sum, long) = allocate_counts_lem c.self_play_batch_games (weights_of c) s in
      let (kept, playable) =
        without_archive_lem archive (allocate_counts c.self_play_batch_games (weights_of c)) long in
      let mixed = g.shuffled _ (categories_from 0 shares) in
      let counted : (k : ℕ)
          → occurrences k (categories r c champion_attempt archive first_game_id)
            ≡ get_or shares k 0 =
        λ k.
          sum_by-Perm _ mixed
          ∙ ap (λ j. occurrences j (categories_from 0 shares)) (omega arith)
          ∙ occurrences-categories_from 0 k shares in
      (
        length-Perm mixed ∙ length-categories_from 0 shares ∙ kept ∙ sum,
        counted,
        present-All (Playable archive) _ (λ k p. playable k (omega (arith, p, counted k))),
      )
