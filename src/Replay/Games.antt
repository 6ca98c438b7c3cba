-- ===== src/Replay/Games.antt =====
-- What a pool is made of, and what is outside it. `c4a0_cpp` reads a shard's file, counts a
-- sample's plies and mirrors it; `random.Random` draws; `hashlib.blake2b` hashes.
use text.Mathlib.TextEquality.{eq_iff}
use connect4codex.Prelude.{
  ℕ, ◌≡◌, ◌↔◌, refl, Bool, true, Option, List, [], ◌∷◌, Dict, Eq, Exec, arith,
}
use connect4codex.Manifest.Tables.{Artifact, Shard}
use connect4codex.Manifest.Statements.{same_path}

pub record ReplayGame (Sample : Type 0) : Type 0 where
  pub game_id : ℕ
  pub player0_id : ℕ
  pub player1_id : ℕ
  pub samples : List Sample

-- `decode` is none where the file cannot be read. A generator's methods give the number and the
-- next state: `coin` is random() < 0.5, `pick` the index that choices takes by the weights.
pub record World : Type 1 where
  pub Sample : Type 0
  pub ply : Sample → ℕ
  pub flip_h : Sample → Sample
  pub decode : Artifact → Option (List (ReplayGame Sample))
  pub digest : ℕ → ℕ → ℕ
  pub Rng : Type 0
  pub coin : Rng → Bool × Rng
  pub pick : List ℕ → Rng → ℕ × Rng
  pub below : ℕ → Rng → ℕ × Rng

pub data ReplayFault : Type 0 where
  replay_empty partition_empty unreadable no_weight bad_index : ReplayFault

same_path_eq : (p q : Artifact) → same_path p q ≡ true → p ≡ q
same_path_eq [] [] h = refl
same_path_eq [] (b ∷ q) h = ground arith
same_path_eq (a ∷ p) [] h = ground arith
same_path_eq (a ∷ p) (b ∷ q) h = ground (arith, eq_iff a b, same_path_eq p q)

same_path_refl : (p : Artifact) → same_path p p ≡ true
same_path_refl [] = refl
same_path_refl (a ∷ p) = ground (arith, eq_iff a a, same_path_refl p)

pub same_path_iff : (p q : Artifact) → (same_path p q ≡ true) ↔ (p ≡ q)
same_path_iff p q = (same_path_eq p q, λ e. rw e (same_path_refl q))

instance abbrev pub path_eq : Eq Artifact
path_eq = record { beq = same_path; beq_iff = same_path_iff }

module _ (w : World) where
  open w use {Sample, Rng}

  abbrev pub Games : Type 0
  Games = List (ReplayGame Sample)

  -- The settings that the pool reads: the limit of its cache, and which games are validation games.
  pub record Pool : Type 0 where
    pub shards : List Shard
    pub cache : Dict Artifact Games
    pub rng : Rng

  -- An entry of a batch: a position, mirrored or not, and the weight of its policy.
  pub record Row : Type 0 where
    pub sample : Sample
    pub policy_weight : Bool

  abbrev pub Draw : Type 0 → Type 0
  Draw A = Exec Pool ReplayFault A
