-- ===== src/Replay/Caching.antt =====
-- The cache of decoded shards against an ideal one, which holds what was used last.
use connect4codex.Prelude.{
  ℕ, zero, suc, ◌-◌, ◌≤◌, ◌<◌, ◌≡◌, refl, ap, sym, ◌∙◌, inl, inr, none, some, List, [], ◌∷◌, ◌++◌,
  length, length-append, length-drop, drop, All, All-append, Dict, Eq, get, put, remove, get-remove,
  ok, err, ltb, Bool-cases, Option-cases, arith,
}
use connect4codex.Manifest.Tables.{Artifact}
use connect4codex.Replay.Games.{World, unreadable, path_eq, Games, Pool}
use connect4codex.Replay.Pool.{evict, load}

-- The last entries of a list.
abbrev pub newest : {A : Type 0} → ℕ → List A → List A
newest n xs = drop (length xs - n) xs

evict-newest : {A : Type 0} (n : ℕ) (xs : List A) → evict n xs ≡ newest n xs
unfolding evict
evict-newest n [] = let none_over : 0 - n ≡ 0 = omega arith in rw none_over refl
evict-newest n (x ∷ xs) = elim (Bool-cases (ltb n (suc (length xs)))) [
  | inl over ↦
      let more : suc (length xs) - n ≡ suc (length xs - n) = ground (arith, over) in
      rw (over, more) (evict-newest n xs)
  | inr fits ↦
      let none_over : suc (length xs) - n ≡ 0 = ground (arith, fits) in rw (fits, none_over) refl
]

pub drop-All : {A : Type 0} (P : A → Type 0) (n : ℕ) (xs : List A) → All P xs → All P (drop n xs)
drop-All P zero xs h = h
drop-All P (suc n) [] h = tt
drop-All P (suc n) (x ∷ xs) h = drop-All P n xs h.1

module _ {K V : Type 0} ⦃e : Eq K⦄ where
  get-All :
      (P : K × V → Type 0) (k : K) (v : V) (d : Dict K V) → All P d → get k d ≡ some v → P (k, v)
  unfolding get
  get-All P k v [] h g = ground arith
  get-All P k v ((j, w) ∷ d) h g = elim (Bool-cases (e.beq j k)) [
    | inl hit ↦
        let here : some w ≡ some v = rw hit at g in
        let value : w ≡ v = ground (arith, here) in
        let key : j ≡ k = (e.beq_iff j k).0 hit in rw (← key, ← value) (h.0)
    | inr miss ↦ get-All P k v d h.1 (rw miss at g)
  ]

  pub remove-All : (P : K × V → Type 0) (k : K) (d : Dict K V) → All P d → All P (remove k d)
  unfolding remove
  remove-All P k [] h = tt
  remove-All P k ((j, w) ∷ d) h = elim (Bool-cases (e.beq j k)) [
    | inl hit ↦ rw hit (remove-All P k d h.1)
    | inr miss ↦ rw miss (h.0, remove-All P k d h.1)
  ]

  put_absent : (k : K) (v : V) (d : Dict K V) → get k d ≡ none → put k v d ≡ d ++ (k, v) ∷ []
  unfolding get put
  put_absent k v [] g = refl
  put_absent k v ((j, w) ∷ d) g = elim (Bool-cases (e.beq j k)) [
    | inl hit ↦ let bad : some w ≡ none = rw hit at g in ground arith
    | inr miss ↦ rw miss (ap (λ d'. (j, w) ∷ d') (put_absent k v d (rw miss at g)))
  ]

  remove_absent : (k : K) (d : Dict K V) → get k d ≡ none → remove k d ≡ d
  unfolding get remove
  remove_absent k [] g = refl
  remove_absent k ((j, w) ∷ d) g = elim (Bool-cases (e.beq j k)) [
    | inl hit ↦ let bad : some w ≡ none = rw hit at g in ground arith
    | inr miss ↦ rw miss (ap (λ d'. (j, w) ∷ d') (remove_absent k d (rw miss at g)))
  ]

  pub get-remove_self : (k : K) (d : Dict K V) → get k (remove k d) ≡ none
  get-remove_self k d = get-remove k k d ∙ rw ((e.beq_iff k k).1 refl) refl

  pub length-remove-le : (k : K) (d : Dict K V) → length (remove k d) ≤ length d
  unfolding remove
  length-remove-le k [] = omega arith
  length-remove-le k ((j, w) ∷ d) = ground (arith, length-remove-le k d)

  length-remove-lt :
      (k : K) (v : V) (d : Dict K V) → get k d ≡ some v → length (remove k d) < length d
  unfolding get remove
  length-remove-lt k v [] g = ground arith
  length-remove-lt k v ((j, w) ∷ d) g = elim (Bool-cases (e.beq j k)) [
    | inl hit ↦ rw hit (omega (arith, length-remove-le k d))
    | inr miss ↦ rw miss (omega (arith, length-remove-lt k v d (rw miss at g)))
  ]

module _ (w : World) (limit : ℕ) where
  open w use {decode}

  -- Every entry is what its file holds, and there are at most as many as the limit.
  pub record Coherent (p : Pool w) : Type 0 where
    pub faithful : All (λ entry. decode entry.0 ≡ some entry.1) p.cache
    pub bounded : length p.cache ≤ limit

  abbrev pub used : Artifact → Games w → Pool w → Pool w
  used path games p = record p { cache = newest limit (remove path p.cache ++ (path, games) ∷ []) }

  -- In a pool whose cache agrees with the files and is within its limit: loading a shard gives what its file
  -- holds, and moves it behind what was used before, of which the oldest go beyond the limit.
  pub load-used :
      (path : Artifact) (games : Games w) (p : Pool w)
      → Coherent p
      → decode path ≡ some games
      → load w limit path p ≡ (ok games, used path games p)
  unfolding load
  load-used path games p c e = elim (Option-cases (get path p.cache)) [
    | inr (found, hit) ↦
        let same : some found ≡ some games =
          sym (get-All (λ entry. decode entry.0 ≡ some entry.1) path found p.cache c.faithful hit)
          ∙ e in
        let value : found ≡ games = ground (arith, same) in
        let d = remove path p.cache in
        let all : length (d ++ (path, games) ∷ []) - limit ≡ 0 = omega (
          arith,
          length-append d ((path, games) ∷ []),
          length-remove-lt path found p.cache hit,
          c.bounded,
        ) in
        rw (hit, value, put_absent path games d (get-remove_self path p.cache), all) refl
    | inl miss ↦
        rw
          (
            miss,
            e,
            put_absent path games p.cache miss,
            evict-newest,
            remove_absent path p.cache miss,
          )
          refl
  ]

  -- A file that cannot be read raises, and changes nothing.
  pub load_unreadable :
      (path : Artifact) (p : Pool w)
      → Coherent p
      → decode path ≡ none
      → load w limit path p ≡ (err unreadable, p)
  unfolding load
  load_unreadable path p c e = elim (Option-cases (get path p.cache)) [
    | inr (found, hit) ↦
        let bad : some found ≡ none =
          sym (get-All (λ entry. decode entry.0 ≡ some entry.1) path found p.cache c.faithful hit)
          ∙ e in
        ground arith
    | inl miss ↦ rw (miss, e) refl
  ]

  pub used-Coherent :
      (path : Artifact) (games : Games w) (p : Pool w)
      → Coherent p
      → decode path ≡ some games
      → Coherent (used path games p)
  used-Coherent path games p c e = record {
    faithful = drop-All _ _ _ (
        All-append _ (remove path p.cache) ((path, games) ∷ [])
          (remove-All _ path p.cache c.faithful) (e, tt));
    bounded = omega (
      arith,
      length-drop (length (remove path p.cache ++ (path, games) ∷ []) - limit)
          (remove path p.cache ++ (path, games) ∷ []),
    );
  }
