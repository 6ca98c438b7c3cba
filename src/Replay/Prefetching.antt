-- ===== src/Replay/Prefetching.antt =====
-- A training batch has the size asked for, whatever was drawn ahead.
use connect4codex.Prelude.{
  ℕ, ◌≡◌, refl, ◌∙◌, inl, inr, Bool, true, false, Option, none, some, List, length, Result, ok, err,
  continue, ◌>>◌, pure, modify, ◌==◌, Bool-cases, arith,
}
use connect4codex.Replay.Games.{World, ReplayFault, Pool, Row}
use connect4codex.Replay.Caching.{Coherent}
use connect4codex.Replay.Batches.{IsFair}
use connect4codex.Replay.Rows.{Batch}
use connect4codex.Replay.Partition.{batch-Batch}
use connect4codex.Replay.Prefetcher.{
  Future, waiting, drawn, Prefetcher, training_rows, run, outcome, fetched, from_pool, submit_next,
  training_batch, wait_out, invalidate,
}

module _ (w : World) (limit : ℕ) (is_validation : ℕ → Bool) (fair : IsFair w) where
  -- A result with so many rows, or an error.
  abbrev pub Sized : ℕ → Result ReplayFault (List (Row w)) → Type 0
  Sized n (ok rows) = length rows ≡ n
  Sized n (err e) = Unit

  resize : (m n : ℕ) (r : Result ReplayFault (List (Row w))) → m ≡ n → Sized m r → Sized n r
  resize m n (ok rows) e s = s ∙ e
  resize m n (err fault) e s = tt

  abbrev pub Promised : Option (Future w) → Option ℕ → Type 0
  Promised none signature = Unit
  Promised (some future) none = Unit
  Promised (some (waiting m)) (some n) = m ≡ n
  Promised (some (drawn r)) (some n) = Sized n r

  -- The pool's cache agrees with the files and is within its limit, and what is drawn ahead has its signature.
  pub record Ready (f : Prefetcher w) : Type 0 where
    pub coherent : Coherent w limit f.pool
    pub promised : Promised f.future f.signature

  pub rows-Sized :
      (size : ℕ) (p : Pool w)
      → Coherent w limit p
      → Sized size (training_rows w limit is_validation size p).0
        × Coherent w limit (training_rows w limit is_validation size p).1
  rows-Sized size p c =
      sized (training_rows w limit is_validation size p)
        (batch-Batch w limit p.shards is_validation false fair size p refl c)
    where
      sized :
          (o : Result ReplayFault (List (Row w)) × Pool w)
          → Batch w limit p.shards is_validation false fair size p o
          → Sized size o.0 × Coherent w limit o.1
      sized (ok rows, q) b = (b.1, b.0.coherent)
      sized (err e, q) b = (tt, b.0.coherent)

  pub run-Ready :
      (future : Option (Future w)) (f : Prefetcher w)
      → f.future ≡ future
      → Ready f
      → Ready (run w limit is_validation future f)
  unfolding run
  run-Ready none f e h = h
  run-Ready (some (drawn r)) f e h = h
  run-Ready (some (waiting m)) f e h =
      let s = rows-Sized m f.pool h.coherent in
      record { coherent = s.1; promised = kept f.signature (rw e at h.promised) s.0 }
    where
      kept :
          (signature : Option ℕ)
          → Promised (some (waiting m)) signature
          → Sized m (training_rows w limit is_validation m f.pool).0
          → Promised (some (drawn (training_rows w limit is_validation m f.pool).0)) signature
      kept none p s = tt
      kept (some n) p s = rw (← p) s

  -- A batch of this size, or an error, and a prefetcher that is ready again.
  abbrev pub Fetched : ℕ → Result ReplayFault (List (Row w)) × Prefetcher w → Type 0
  Fetched size (r, f) = Sized size r × Ready f

  fresh-Fetched :
      (size : ℕ) (f : Prefetcher w)
      → Ready f
      → Fetched size (from_pool w (training_rows w limit is_validation size f.pool) f)
  fresh-Fetched size f h =
      let s = rows-Sized size f.pool h.coherent in
      (s.0, record { coherent = s.1; promised = h.promised })

  fetched-Fetched :
      (future : Option (Future w)) (signature : Option ℕ) (size : ℕ) (f : Prefetcher w)
      → f.future ≡ future
      → f.signature ≡ signature
      → Ready f
      → Fetched size (fetched w limit is_validation future signature size f)
  unfolding fetched outcome
  fetched-Fetched none signature size f e e' h = fresh-Fetched size f h
  fetched-Fetched (some future) none size f e e' h = fresh-Fetched size f h
  fetched-Fetched (some (waiting m)) (some n) size f e e' h = elim (Bool-cases (n == size)) [
    | inr other ↦ rw other (fresh-Fetched size f h)
    | inl same ↦
        let promise : m ≡ n = rw (e, e') at h.promised in
        let sizes : n ≡ size = ground (arith, same) in
        let s = rows-Sized m f.pool h.coherent in
        let value : Sized size (training_rows w limit is_validation m f.pool).0 =
          resize m size _ (promise ∙ sizes) s.0 in
        rw same (value, record { coherent = s.1; promised = rw e' (resize m n _ promise s.0) })
  ]
  fetched-Fetched (some (drawn r)) (some n) size f e e' h = elim (Bool-cases (n == size)) [
    | inr other ↦ rw other (fresh-Fetched size f h)
    | inl same ↦
        let sizes : n ≡ size = ground (arith, same) in
        let value : Sized n r = rw (e, e') at h.promised in rw same (rw sizes at value, h)
  ]

  submit_next-Ready :
      (size : ℕ) (f : Prefetcher w) → Ready f → Ready (submit_next w limit is_validation size f)
  unfolding submit_next
  submit_next-Ready size f h = elim (Bool-cases f.has_executor) [
    | inl has ↦ rw has (record { coherent = h.coherent; promised = refl })
    | inr has_none ↦ rw has_none (record { coherent = h.coherent; promised = tt })
  ]

  pub training_batch-Fetched :
      (size : ℕ) (f : Prefetcher w)
      → Ready f
      → Fetched size (training_batch w limit is_validation size f)
  unfolding training_batch
  training_batch-Fetched size f h =
      next (fetched w limit is_validation f.future f.signature size f)
        (fetched-Fetched f.future f.signature size f refl refl h)
    where
      next :
          (o : Result ReplayFault (List (Row w)) × Prefetcher w)
          → Fetched size o
          → Fetched size (
              continue o.0
                (λ rows. modify (submit_next w limit is_validation size) >> pure rows)
                o.1)
      next (ok rows, g) d = (d.0, submit_next-Ready size g d.1)
      next (err e, g) d = (tt, d.1)

  wait_out-Ready :
      (cancels : Bool) (future : Option (Future w)) (f : Prefetcher w)
      → f.future ≡ future
      → Ready f
      → Ready (wait_out w limit is_validation cancels future f).1
  unfolding wait_out outcome
  wait_out-Ready true none f e h = h
  wait_out-Ready false none f e h = h
  wait_out-Ready true (some (waiting m)) f e h = h
  wait_out-Ready false (some (waiting m)) f e h =
      waited (training_rows w limit is_validation m f.pool) (rows-Sized m f.pool h.coherent)
        (promise f.signature (rw e at h.promised))
    where
      promise :
          (signature : Option ℕ)
          → Promised (some (waiting m)) signature
          → (r : Result ReplayFault (List (Row w))) → Sized m r
          → Promised (some (drawn r)) signature
      promise none p r s = tt
      promise (some n) p r s = resize m n r p s

      waited :
          (o : Result ReplayFault (List (Row w)) × Pool w)
          → Sized m o.0 × Coherent w limit o.1
          → ((r : Result ReplayFault (List (Row w)))
              → Sized m r
              → Promised (some (drawn r)) f.signature)
          → Ready
              (continue o.0
                (λ rows. pure tt)
                (record f { pool = o.1; future = some (drawn o.0) })).1
      waited (ok rows, q) s p = record { coherent = s.1; promised = p (ok rows) s.0 }
      waited (err fault, q) s p = record { coherent = s.1; promised = p (err fault) s.0 }
  wait_out-Ready true (some (drawn (ok rows))) f e h = h
  wait_out-Ready true (some (drawn (err fault))) f e h = h
  wait_out-Ready false (some (drawn (ok rows))) f e h = h
  wait_out-Ready false (some (drawn (err fault))) f e h = h

  pub invalidate-Ready :
      (cancels : Bool) (f : Prefetcher w)
      → Ready f
      → Ready (invalidate w limit is_validation cancels f).1
  unfolding invalidate
  invalidate-Ready cancels f h =
      next (wait_out w limit is_validation cancels f.future f)
        (wait_out-Ready cancels f.future f refl h)
    where
      next :
          (o : Result ReplayFault (Unit {0}) × Prefetcher w)
          → Ready o.1
          → Ready
              (continue o.0 (λ _. modify (λ g. record g { future = none; signature = none })) o.1).1
      next (ok u, g) d = record { coherent = d.coherent; promised = tt }
      next (err e, g) d = d
