-- ===== src/Replay/Threads.antt =====
-- The pool's methods and the prefetcher's, in any order that two threads make.
use connect4codex.Prelude.{
  ℕ, refl, Bool, true, none, List, [], ◌∷◌, keep_if, remove, Result, ok, err, ◌==◌, arith,
}
use connect4codex.Manifest.Tables.{Shard}
use connect4codex.Replay.Games.{World, ReplayFault, Pool, Row, path_eq}
use connect4codex.Replay.Pool.{append_shard, remove_shard, forget, batch}
use connect4codex.Replay.Caching.{Coherent, remove-All, length-remove-le}
use connect4codex.Replay.Batches.{IsFair}
use connect4codex.Replay.Rows.{Batch}
use connect4codex.Replay.Partition.{batch-Batch}
use connect4codex.Replay.Prefetcher.{Prefetcher, run_loader, training_batch, invalidate}
use connect4codex.Replay.Prefetching.{
  Sized, Ready, run-Ready, training_batch-Fetched, invalidate-Ready,
}

-- What the trainer's thread and the executor's thread do, one at a time.
pub data Call : Type 0 where
  fetch : (batch_size : ℕ) → Call
  validate : (batch_size : ℕ) → Call
  drop_future : (cancels : Bool) → Call
  add_shard : Shard → Call
  drop_shard : (shard_id : ℕ) → Call
  loader : Call

module _ (w : World) (limit : ℕ) where
  open w use {decode}

  forget-Coherent :
      (ss : List Shard) (p : Pool w)
      → Coherent w limit p
      → Coherent w limit (record p { cache = forget w ss p.cache })
  unfolding forget
  forget-Coherent [] p c = c
  forget-Coherent (s ∷ ss) p c =
      forget-Coherent ss (record p { cache = remove s.path p.cache })
        (record {
          faithful = remove-All _ s.path p.cache c.faithful;
          bounded = omega (arith, length-remove-le s.path p.cache, c.bounded);
        })

  remove_shard-Coherent :
      (n : ℕ) (p : Pool w) → Coherent w limit p → Coherent w limit (remove_shard w n p)
  unfolding remove_shard
  remove_shard-Coherent n p c =
      let f = forget-Coherent (keep_if (λ (s : Shard). s.shard_id == n) p.shards) p c in
      record { faithful = f.faithful; bounded = f.bounded }

  module _ (is_validation : ℕ → Bool) (fair : IsFair w) where
    unfoldable pub after : Call → Prefetcher w → Prefetcher w
    after (fetch size) f = (training_batch w limit is_validation size f).1
    after (validate size) f = record f { pool = (batch w limit is_validation true size f.pool).1 }
    after (drop_future cancels) f = (invalidate w limit is_validation cancels f).1
    after (add_shard s) f = record f { pool = append_shard w s f.pool }
    after (drop_shard n) f = record f { pool = remove_shard w n f.pool }
    after loader f = run_loader w limit is_validation f

    unfoldable pub after_all : List Call → Prefetcher w → Prefetcher w
    after_all [] f = f
    after_all (c ∷ calls) f = after_all calls (after c f)

    validate-Coherent :
        (size : ℕ) (p : Pool w)
        → Coherent w limit p
        → Coherent w limit (batch w limit is_validation true size p).1
    validate-Coherent size p c =
        kept (batch w limit is_validation true size p)
          (batch-Batch w limit p.shards is_validation true fair size p refl c)
      where
        kept :
            (o : Result ReplayFault (List (Row w)) × Pool w)
            → Batch w limit p.shards is_validation true fair size p o
            → Coherent w limit o.1
        kept (ok rows, q) b = b.0.coherent
        kept (err e, q) b = b.0.coherent

    after-Ready :
        (c : Call) (f : Prefetcher w)
        → Ready w limit is_validation fair f
        → Ready w limit is_validation fair (after c f)
    unfolding after append_shard run_loader
    after-Ready (fetch size) f h = (training_batch-Fetched w limit is_validation fair size f h).1
    after-Ready (validate size) f h = record {
      coherent = validate-Coherent size f.pool h.coherent;
      promised = h.promised;
    }
    after-Ready (drop_future cancels) f h = invalidate-Ready w limit is_validation fair cancels f h
    after-Ready (add_shard s) f h = record {
      coherent = record { faithful = h.coherent.faithful; bounded = h.coherent.bounded };
      promised = h.promised;
    }
    after-Ready (drop_shard n) f h = record {
      coherent = remove_shard-Coherent n f.pool h.coherent;
      promised = h.promised;
    }
    after-Ready loader f h = run-Ready w limit is_validation fair f.future f refl h

    pub after_all-Ready :
        (calls : List Call) (f : Prefetcher w)
        → Ready w limit is_validation fair f
        → Ready w limit is_validation fair (after_all calls f)
    unfolding after_all
    after_all-Ready [] f h = h
    after_all-Ready (c ∷ calls) f h = after_all-Ready calls (after c f) (after-Ready c f h)

    -- With fair draws, from a pool without cached shards and with nothing drawn ahead: after any calls of the
    -- trainer's thread and steps of the executor's, in any order, the cache is within its limit
    -- and agrees with the files, and a training batch that does not raise has exactly the rows asked for.
    pub training_batch-after_all :
        (shards : List Shard) (rng : w.Rng) (has_executor : Bool) (calls : List Call) (size : ℕ)
        → let f = after_all calls (record {
          pool = record { shards = shards; cache = []; rng = rng };
          has_executor = has_executor;
          future = none;
          signature = none;
        }) in
          Coherent w limit f.pool
          × Sized w limit is_validation fair size (training_batch w limit is_validation size f).0
    training_batch-after_all shards rng has_executor calls size =
        let start : Prefetcher w = record {
          pool = record { shards = shards; cache = []; rng = rng };
          has_executor = has_executor;
          future = none;
          signature = none;
        } in
        let h =
          after_all-Ready calls start (record {
            coherent = record { faithful = tt; bounded = omega arith };
            promised = tt;
          }) in
        (h.coherent, (training_batch-Fetched w limit is_validation fair size _ h).0)
