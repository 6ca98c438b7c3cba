-- ===== src/Replay/Prefetcher.antt =====
-- `ReplayPrefetcher`. A batch that the executor has is still waiting, or drawn; `run_loader` is the step of
-- the executor's thread, under the pool's lock. The device is the same in a process, so a
-- signature is the batch's size.
use connect4codex.Prelude.{
  ℕ, Bool, true, false, Option, none, some, List, Result, Exec, ◌>>=◌, ◌>>◌, pure, modify, ◌==◌,
  if◌then◌else◌,
}
use connect4codex.Replay.Games.{World, ReplayFault, Pool, Row}
use connect4codex.Replay.Pool.{batch}

module _ (w : World) where
  pub data Future : Type 0 where
    waiting : (batch_size : ℕ) → Future
    drawn : Result ReplayFault (List (Row w)) → Future

  pub record Prefetcher : Type 0 where
    pub pool : Pool w
    pub has_executor : Bool
    pub future : Option Future
    pub signature : Option ℕ

  abbrev pub Load : Type 0 → Type 0
  Load A = Exec Prefetcher ReplayFault A

  -- A method of the pool.
  abbrev pub from_pool :
      {A : Type 0} → Result ReplayFault A × Pool w → Prefetcher → Result ReplayFault A × Prefetcher
  from_pool (r, pool) f = (r, record f { pool = pool })

  module _ (limit : ℕ) (is_validation : ℕ → Bool) where
    abbrev pub training_rows : ℕ → Pool w → Result ReplayFault (List (Row w)) × Pool w
    training_rows = batch w limit is_validation false

    unfoldable pub run : Option Future → Prefetcher → Prefetcher
    run (some (waiting size)) f =
        let (r, pool) = training_rows size f.pool in
        record f { pool = pool; future = some (drawn r) }
    run (some (drawn r)) f = f
    run none f = f

    unfoldable pub run_loader : Prefetcher → Prefetcher
    unfolding run
    run_loader f = run f.future f

    -- future.result() waits for the executor, and raises what its call raised.
    unfoldable pub outcome : Future → Load (List (Row w))
    outcome (waiting size) f =
        let (r, pool) = training_rows size f.pool in
        (r, record f { pool = pool; future = some (drawn r) })
    outcome (drawn r) f = (r, f)

    unfoldable pub fetched : Option Future → Option ℕ → ℕ → Load (List (Row w))
    fetched none signature size f = from_pool (training_rows size f.pool) f
    fetched (some future) none size f = from_pool (training_rows size f.pool) f
    fetched (some future) (some n) size f =
        if n == size then outcome future f else from_pool (training_rows size f.pool) f

    unfoldable pub submit_next : ℕ → Prefetcher → Prefetcher
    submit_next size f =
        if f.has_executor
        then record f { future = some (waiting size); signature = some size }
        else record f { future = none }

    unfoldable pub training_batch : ℕ → Load (List (Row w))
    unfolding fetched submit_next outcome
    training_batch size f =
        (fetched f.future f.signature size >>= λ rows. modify (submit_next size) >> pure rows) f

    -- Whether a waiting call could be cancelled is the executor's choice.
    unfoldable pub wait_out : Bool → Option Future → Load (Unit {0})
    wait_out cancels none = pure tt
    wait_out true (some (waiting size)) = pure tt
    wait_out false (some (waiting size)) = outcome (waiting size) >>= λ rows. pure tt
    wait_out cancels (some (drawn r)) = outcome (drawn r) >>= λ rows. pure tt

    unfoldable pub invalidate : Bool → Load (Unit {0})
    unfolding wait_out outcome
    invalidate cancels f =
        (wait_out cancels f.future >> modify (λ g. record g { future = none; signature = none })) f
