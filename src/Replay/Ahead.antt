-- ===== src/Replay/Ahead.antt =====
-- Nor does the prefetcher.
use connect4codex.Prelude.{
  ℕ, ◌≡◌, refl, ◌∙◌, Bool, true, false, Option, none, some, Result, ok, err, continue, ◌>>=◌, ◌>>◌,
  pure, modify, ◌==◌, Bool-cases, inl, inr,
}
use connect4codex.Replay.Games.{World, ReplayFault}
use connect4codex.Replay.Shards.{batch-shards}
use connect4codex.Replay.Prefetcher.{
  Future, waiting, drawn, Prefetcher, Load, outcome, fetched, submit_next, training_batch, wait_out,
  invalidate,
}

module _ (w : World) (limit : ℕ) (is_validation : ℕ → Bool) where
  abbrev Holds : {A : Type 0} → Load w A → Type 0
  Holds m = (f : Prefetcher w) → (m f).1.pool.shards ≡ f.pool.shards

  module _ {A B : Type 0} where
    Holds-continue :
        (g : A → Load w B) (f : Prefetcher w) (o : Result ReplayFault A × Prefetcher w)
        → ((a : A) → Holds (g a))
        → o.1.pool.shards ≡ f.pool.shards
        → (continue o.0 g o.1).1.pool.shards ≡ f.pool.shards
    Holds-continue g f (ok a, q) h e = h a q ∙ e
    Holds-continue g f (err x, q) h e = e

    Holds-bind :
        (m : Load w A) (g : A → Load w B) → Holds m → ((a : A) → Holds (g a)) → Holds (m >>= g)
    Holds-bind m g k h f = Holds-continue g f (m f) h (k f)

  Holds-outcome : (future : Future w) → Holds (outcome w limit is_validation future)
  unfolding outcome
  Holds-outcome (waiting size) f = batch-shards w limit is_validation false size f.pool
  Holds-outcome (drawn r) f = refl

  Holds-fetched :
      (future : Option (Future w)) (signature : Option ℕ) (size : ℕ)
      → Holds (fetched w limit is_validation future signature size)
  unfolding fetched
  Holds-fetched none signature size f = batch-shards w limit is_validation false size f.pool
  Holds-fetched (some future) none size f = batch-shards w limit is_validation false size f.pool
  Holds-fetched (some future) (some n) size f = elim (Bool-cases (n == size)) [
    | inl same ↦ rw same (Holds-outcome future f)
    | inr other ↦ rw other (batch-shards w limit is_validation false size f.pool)
  ]

  Holds-submit :
      (size : ℕ) (f : Prefetcher w)
      → (submit_next w limit is_validation size f).pool.shards ≡ f.pool.shards
  unfolding submit_next
  Holds-submit size f = elim (Bool-cases f.has_executor) [
    | inl has ↦ rw has refl
    | inr lone ↦ rw lone refl
  ]

  pub training_batch-shards :
      (size : ℕ) (f : Prefetcher w)
      → (training_batch w limit is_validation size f).1.pool.shards ≡ f.pool.shards
  unfolding training_batch
  training_batch-shards size f =
      Holds-bind (fetched w limit is_validation f.future f.signature size)
        (λ rows. modify (submit_next w limit is_validation size) >> pure rows)
        (Holds-fetched f.future f.signature size) (λ rows g. Holds-submit size g) f

  Holds-wait :
      (cancels : Bool) (future : Option (Future w))
      → Holds (wait_out w limit is_validation cancels future)
  unfolding wait_out
  Holds-wait true none = λ f. refl
  Holds-wait false none = λ f. refl
  Holds-wait true (some (waiting size)) = λ f. refl
  Holds-wait false (some (waiting size)) =
      Holds-bind (outcome w limit is_validation (waiting size)) (λ rows. pure tt)
        (Holds-outcome (waiting size)) (λ rows f. refl)
  Holds-wait true (some (drawn r)) =
      Holds-bind (outcome w limit is_validation (drawn r)) (λ rows. pure tt)
        (Holds-outcome (drawn r)) (λ rows f. refl)
  Holds-wait false (some (drawn r)) =
      Holds-bind (outcome w limit is_validation (drawn r)) (λ rows. pure tt)
        (Holds-outcome (drawn r)) (λ rows f. refl)

  pub invalidate-shards :
      (cancels : Bool) (f : Prefetcher w)
      → (invalidate w limit is_validation cancels f).1.pool.shards ≡ f.pool.shards
  unfolding invalidate
  invalidate-shards cancels f =
      Holds-bind (wait_out w limit is_validation cancels f.future)
        (λ _. modify (λ g. record g { future = none; signature = none }))
        (Holds-wait cancels f.future) (λ u g. refl) f
