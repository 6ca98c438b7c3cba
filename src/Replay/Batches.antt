-- ===== src/Replay/Batches.antt =====
-- What a batch holds, and why none comes.
use connect4codex.Prelude.{
  ℕ, zero, suc, ◌-◌, ◌<◌, ◌≡◌, refl, ◌∙◌, ◌⊎◌, inl, inr, Bool, true, false, not, ◌&&◌, none, some,
  List, [], ◌∷◌, map, length, drop, get_elem?, sum_by, Elem, Result, ok, err, ◌>>=◌, continue, pure,
  ◌==◌, if◌then◌else◌, Bool-cases, arith,
}
use connect4codex.Manifest.Tables.{Shard}
use connect4codex.Replay.Games.{
  ReplayGame, World, ReplayFault, replay_empty, partition_empty, unreadable, no_weight, bad_index,
  Games, Pool, Row, Draw,
}
use connect4codex.Replay.Pool.{window, mover, element, weighted_choice, draw_index, flip_coin}
use connect4codex.Replay.Caching.{Coherent}

-- `choices` takes something that has a weight, and `randrange` stays below its bound.
pub record IsFair (w : World) : Type 0 where
  pub picks :
      (ws : List ℕ) (g : w.Rng)
      → 0 < sum_by (λ x. x) ws
      → (x : ℕ) × ((get_elem? ws (w.pick ws g).0 ≡ some x) × (0 < x))
  pub ranges : (n : ℕ) (g : w.Rng) → 0 < n → (w.below n g).0 < n

sum_by-map : {A : Type 0} (f : A → ℕ) (xs : List A) → sum_by (λ x. x) (map f xs) ≡ sum_by f xs
sum_by-map f [] = refl
sum_by-map f (x ∷ xs) = omega (arith, sum_by-map f xs)

get_elem?-map :
    {A : Type 0} (f : A → ℕ) (i x : ℕ) (xs : List A)
    → get_elem? (map f xs) i ≡ some x
    → (a : A) × ((get_elem? xs i ≡ some a) × (f a ≡ x) × Elem a xs)
get_elem?-map f i x [] e = absurd (ground arith)
get_elem?-map f zero x (a ∷ xs) e = (a, (refl, ground arith, inl refl))
get_elem?-map f (suc i) x (a ∷ xs) e =
    let (b, (here, weight, k)) = get_elem?-map f i x xs e in (b, (here, weight, inr k))

get_elem?-lt :
    {A : Type 0} (i : ℕ) (xs : List A) → i < length xs → (a : A) × (get_elem? xs i ≡ some a)
get_elem?-lt i [] h = absurd (omega arith)
get_elem?-lt zero (x ∷ xs) h = (x, refl)
get_elem?-lt (suc i) (x ∷ xs) h = get_elem?-lt i xs (omega arith)

Elem-drop : {A : Type 0} (a : A) (n : ℕ) (xs : List A) → Elem a (drop n xs) → Elem a xs
Elem-drop a zero xs k = k
Elem-drop a (suc n) [] k = elim k [ ]
Elem-drop a (suc n) (x ∷ xs) k = inr (Elem-drop a n xs k)

pub Elem-window :
    {A : Type 0} (a : A) (recent : Bool) (xs : List A) → Elem a (window recent xs) → Elem a xs
unfolding window
Elem-window a true xs k = Elem-drop a _ xs k
Elem-window a false xs k = k

module _ (w : World) (limit : ℕ) where
  open w use {Sample, ply, flip_h, decode}

  -- What every draw leaves alone: the shards, and the cache's agreement with the files.
  pub record Kept (p p' : Pool w) : Type 0 where
    pub shards : p'.shards ≡ p.shards
    pub coherent : Coherent w limit p'

  pub Kept-trans : {p q r : Pool w} → Kept p q → Kept q r → Kept p r
  Kept-trans a b = record { shards = b.shards ∙ a.shards; coherent = b.coherent }

  -- A result within P, or an error with its cause.
  abbrev pub Draws :
      {A : Type 0}
      → (ReplayFault → Type 0)
      → (A → Type 0)
      → Pool w
      → Result ReplayFault A × Pool w
      → Type 0
  Draws Cause P p (ok a, p') = Kept p p' × P a
  Draws Cause P p (err e, p') = Kept p p' × Cause e

  pub Draws-weaken :
      {A : Type 0} (Cause : ReplayFault → Type 0) (P Q : A → Type 0) (p q : Pool w)
      (o : Result ReplayFault A × Pool w)
      → Kept p q
      → ((a : A) → P a → Q a)
      → Draws Cause P q o
      → Draws Cause Q p o
  Draws-weaken Cause P Q p q (ok a, r) k f d = (Kept-trans k d.0, f a d.1)
  Draws-weaken Cause P Q p q (err e, r) k f d = (Kept-trans k d.0, d.1)

  module _ {A B : Type 0} (Cause : ReplayFault → Type 0) where
    Draws-continue :
        (P : A → Type 0) (Q : B → Type 0) (f : A → Draw w B) (p : Pool w)
        (o : Result ReplayFault A × Pool w)
        → Draws Cause P p o
        → ((a : A) (q : Pool w) → Kept p q → P a → Draws Cause Q q (f a q))
        → Draws Cause Q p (continue o.0 f o.1)
    Draws-continue P Q f p (err e, q) d next = d
    Draws-continue P Q f p (ok a, q) d next =
        Draws-weaken Cause Q Q p q (f a q) d.0 (λ b x. x) (next a q d.0 d.1)

    pub Draws-bind :
        (P : A → Type 0) (Q : B → Type 0) (m : Draw w A) (f : A → Draw w B) (p : Pool w)
        → Draws Cause P p (m p)
        → ((a : A) (q : Pool w) → Kept p q → P a → Draws Cause Q q (f a q))
        → Draws Cause Q p ((m >>= f) p)
    Draws-bind P Q m f p d next = Draws-continue P Q f p (m p) d next

  module _ (shards : List Shard) (is_validation : ℕ → Bool) (validation : Bool)
      (fair : IsFair w) where
    -- Why a draw raises.
    abbrev pub Cause : ReplayFault → Type 0
    Cause replay_empty = shards ≡ []
    Cause unreadable = (s : Shard) × (Elem s shards × (decode s.path ≡ none))
    Cause no_weight =
        (s : Shard) × (Elem s shards
          × ((s.samples ≡ 0)
              ⊎ ((games : Games w) × ((decode s.path ≡ some games)
                    × (sum_by (λ g. length g.samples) games ≡ 0)))))
    Cause partition_empty = ⊥
    Cause bad_index = ⊥

    -- A row of the partition: a position of a game of one of the shards, mirrored only for training. Its
    -- policy counts where the shard's champion moved and the game went on.
    pub record Drawn (row : Row w) : Type 0 where
      pub shard : Shard
      pub listed : Elem shard shards
      pub games : Games w
      pub stored : decode shard.path ≡ some games
      pub game : ReplayGame Sample
      pub played : Elem game games
      pub partition : is_validation game.game_id ≡ validation
      pub place : ℕ
      pub sample : Sample
      pub found : get_elem? game.samples place ≡ some sample
      pub mirrored : (row.sample ≡ sample) ⊎ ((validation ≡ false) × (row.sample ≡ flip_h sample))
      pub weight : row.policy_weight ≡ (
          not (place == length game.samples - 1)
          && mover game (ply row.sample) == shard.champion_attempt)

    pub weighted_choice-Draws :
        {A : Type 0} (weight : A → ℕ) (xs : List A) (p : Pool w)
        → Coherent w limit p
        → (sum_by weight xs ≡ 0 → Cause no_weight)
        → Draws Cause (λ a. Elem a xs × (0 < weight a)) p (weighted_choice w weight xs p)
    unfolding weighted_choice element
    weighted_choice-Draws weight xs p c cause = elim (Bool-cases (sum_by weight xs == 0)) [
      | inl nothing ↦
          rw nothing (record { shards = refl; coherent = c }, cause (ground (arith, nothing)))
      | inr something ↦
          let positive : 0 < sum_by (λ x. x) (map weight xs) =
            ground (arith, something, sum_by-map weight xs) in
          let (x, (chosen, pos)) = fair.picks (map weight xs) p.rng positive in
          let (a, (here, same_weight, k)) = get_elem?-map weight _ x xs chosen in
          rw (something, here)
            (
              record {
                shards = refl;
                coherent = record { faithful = c.faithful; bounded = c.bounded };
              },
              (k, omega arith),
            )
    ]

    pub draw_index-Draws :
        {A : Type 0} (xs : List A) (p : Pool w)
        → Coherent w limit p
        → 0 < length xs
        → Draws Cause (λ d. get_elem? xs d.0 ≡ some d.1) p (draw_index w xs p)
    unfolding draw_index element
    draw_index-Draws xs p c h =
        let (a, here) = get_elem?-lt _ xs (fair.ranges (length xs) p.rng h) in
        rw here (
          record {
            shards = refl;
            coherent = record { faithful = c.faithful; bounded = c.bounded };
          },
          here,
        )

    pub flip-Draws :
        (p : Pool w)
        → Coherent w limit p
        → Draws Cause
            (λ (heads : Bool). (validation ≡ false) ⊎ (heads ≡ false))
            p
            ((if validation then pure false else flip_coin w) p)
    unfolding flip_coin
    flip-Draws p c = elim (Bool-cases validation) [
      | inl on ↦ rw on (record { shards = refl; coherent = c }, inr refl)
      | inr off ↦ rw off (
        record { shards = refl; coherent = record { faithful = c.faithful; bounded = c.bounded } },
        inl refl,
      )
    ]
