-- ===== src/Replay/Partition.antt =====
-- A batch is full or raises; it raises where the partition has no game.
use connect4codex.Prelude.{
  ℕ, zero, suc, ◌*◌, ◌≤◌, ◌<◌, ◌≡◌, ◌≢◌, refl, ap, inl, inr, Bool, Option, none, some, List, [],
  ◌∷◌, ◌++◌, length, length-append, sum_by, All, All-append, Elem, Result, ok, err, continue, leb,
  Bool-cases, arith,
}
use connect4codex.Manifest.Tables.{Shard}
use connect4codex.Replay.Games.{
  ReplayGame, World, ReplayFault, replay_empty, partition_empty, unreadable, no_weight, bad_index,
  Games, Pool, Row, Draw,
}
use connect4codex.Replay.Pool.{turn, collect, batch}
use connect4codex.Replay.Caching.{Coherent}
use connect4codex.Replay.Batches.{IsFair, Kept, Kept-trans, Draws, Cause, Drawn}
use connect4codex.Replay.Rows.{Maybe, Batch, attempt-Draws}

module _ (w : World) (limit : ℕ) (shards : List Shard) (is_validation : ℕ → Bool)
    (validation : Bool) (fair : IsFair w) where
  open w use {decode}

  abbrev Batch' : ℕ → Pool w → Result ReplayFault (List (Row w)) × Pool w → Type 0
  Batch' = Batch w limit shards is_validation validation fair

  abbrev loop : ℕ → ℕ → List (Row w) → Draw w (List (Row w))
  loop = collect w limit is_validation validation

  Batch-weaken :
      (size : ℕ) (p q : Pool w) (o : Result ReplayFault (List (Row w)) × Pool w)
      → Kept w limit p q
      → Batch' size q o
      → Batch' size p o
  Batch-weaken size p q (ok rows, r) k b = (Kept-trans w limit k b.0, b.1, b.2)
  Batch-weaken size p q (err e, r) k b = (Kept-trans w limit k b.0, b.1)

  abbrev Full : ℕ → ℕ → Type 0
  Full left size =
      (rows : List (Row w)) (p : Pool w)
      → p.shards ≡ shards
      → Coherent w limit p
      → length rows ≤ size
      → All (Drawn w limit shards is_validation validation fair) rows
      → Batch' size p (loop left size rows p)

  after_attempt :
      (left size : ℕ) (rows : List (Row w)) (p : Pool w)
      (o : Result ReplayFault (Option (Row w)) × Pool w)
      → Full left size
      → p.shards ≡ shards
      → length rows < size
      → All (Drawn w limit shards is_validation validation fair) rows
      → Draws w limit
          (Cause w limit shards is_validation validation fair)
          (Maybe w limit shards is_validation validation fair)
          p
          o
      → Batch' size p
          (continue o.0 (turn w limit is_validation validation (loop left size) rows) o.1)
  unfolding turn
  after_attempt left size rows p (err e, q) full listed h all d = (d.0, inr d.1)
  after_attempt left size rows p (ok none, q) full listed h all d =
      Batch-weaken size p q _ d.0
        (full rows q (rw (d.0.shards) listed) d.0.coherent (omega arith) all)
  after_attempt left size rows p (ok (some row), q) full listed h all d =
      Batch-weaken size p q _ d.0 (
        full (rows ++ row ∷ []) q (rw (d.0.shards) listed) d.0.coherent
          (omega (arith, length-append rows (row ∷ [])))
          (All-append _ rows (row ∷ []) all (d.1, tt)))

  collect-Batch : (left size : ℕ) → Full left size
  unfolding collect
  collect-Batch zero size rows p listed c h all = elim (Bool-cases (leb size (length rows))) [
    | inl done ↦
        let exact : length rows ≡ size = ground (arith, done) in
        rw done (record { shards = refl; coherent = c }, exact, all)
    | inr short ↦ rw short (record { shards = refl; coherent = c }, inl refl)
  ]
  collect-Batch (suc left) size rows p listed c h all = elim (Bool-cases (leb size (length rows))) [
    | inl done ↦
        let exact : length rows ≡ size = ground (arith, done) in
        rw done (record { shards = refl; coherent = c }, exact, all)
    | inr short ↦
        let less : length rows < size = ground (arith, short) in
        rw short (
          after_attempt left size rows p _ (collect-Batch left size) listed less all
            (attempt-Draws w limit shards is_validation validation fair p listed c))
  ]

  -- For a pool with these shards whose cache agrees with the files and is within its limit, and fair draws: a batch has
  -- exactly the rows asked for, each a position of a stored game of the partition, mirrored only for training,
  -- with its policy's weight; or it raises, with the cause in the shards, or with ReplayPartitionEmpty.
  -- Either way the shards stay, and the cache still agrees and is within its limit.
  pub batch-Batch :
      (size : ℕ) (p : Pool w)
      → p.shards ≡ shards
      → Coherent w limit p
      → Batch' size p (batch w limit is_validation validation size p)
  unfolding batch
  batch-Batch size p listed c = collect-Batch (size * 500) size [] p listed c (omega arith) tt

  -- A shard with samples, all of whose games are of the other partition.
  pub record IsBarren (s : Shard) : Type 0 where
    pub weighs : 0 < s.samples
    pub games : Games w
    pub stored : decode s.path ≡ some games
    pub filled : 0 < sum_by (λ g. length g.samples) games
    pub foreign : (g : ReplayGame w.Sample) → Elem g games → is_validation g.game_id ≢ validation

  module _ (first : Shard) (listed : Elem first shards)
      (barren : (s : Shard) → Elem s shards → IsBarren s) where
    no_row : (row : Row w) → Drawn w limit shards is_validation validation fair row → ⊥
    no_row row d =
        let b = barren d.shard d.listed in
        let same : some d.games ≡ some b.games = rw (← d.stored) b.stored in
        let games : d.games ≡ b.games = ground (arith, same) in
        b.foreign d.game (rw (← games) (d.played)) d.partition

    no-Cause : (e : ReplayFault) → Cause w limit shards is_validation validation fair e → ⊥
    no-Cause replay_empty c = nothing (rw c at listed)
      where
        nothing : Elem first [] → ⊥
        nothing k = elim k [ ]
    no-Cause unreadable (s, (k, missing)) =
        let b = barren s k in let bad : none ≡ some b.games = rw missing at b.stored in ground arith
    no-Cause no_weight (s, (k, inl z)) = let b = barren s k in omega (arith, b.weighs)
    no-Cause no_weight (s, (k, inr (games, (stored, z)))) =
        let b = barren s k in
        let same : some games ≡ some b.games = rw (← stored) b.stored in
        let e : games ≡ b.games = ground (arith, same) in
        let z' : sum_by (λ (g : ReplayGame w.Sample). length g.samples) b.games ≡ 0 = rw e at z in
        omega (arith, b.filled)
    no-Cause partition_empty c = elim c [ ]
    no-Cause bad_index c = elim c [ ]

    fails :
        (size : ℕ) (p : Pool w) (o : Result ReplayFault (List (Row w)) × Pool w)
        → 0 < size
        → Batch' size p o
        → (o.0 ≡ err partition_empty) × Kept w limit p o.1
    fails size p (ok [], q) h b = absurd (omega (arith, b.1))
    fails size p (ok (row ∷ rows), q) h b = absurd (no_row row b.2.0)
    fails size p (err e, q) h (kept, inl same) = (ap (λ x. err x) same, kept)
    fails size p (err e, q) h (kept, inr cause) = absurd (no-Cause e cause)

    -- Under the same conditions, with at least one shard: if all shards can be read and have samples, and all
    -- their games are of the other partition, then a batch of at least one row raises
    -- ReplayPartitionEmpty, and the shards stay, and the cache still agrees and is within its limit.
    pub batch_barren :
        (size : ℕ) (p : Pool w)
        → p.shards ≡ shards
        → Coherent w limit p
        → 0 < size
        → ((batch w limit is_validation validation size p).0 ≡ err partition_empty)
          × Kept w limit p (batch w limit is_validation validation size p).1
    batch_barren size p listed c h = fails size p _ h (batch-Batch size p listed c)
