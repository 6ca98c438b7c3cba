-- ===== src/Coordinator/Learning.antt =====
-- Which weights the learner goes on from, described apart from the code that chooses them.
use connect4codex.Prelude.{
  ℕ, ◌≤◌, ◌≡◌, ◌↔◌, ◌⊎◌, refl, Bool, true, false, not, Option, none, some, List, Floats, leb, ◌&&◌,
  ◌||◌, Bool-cases, Option-cases, inl, inr, leb→le, arith,
}
use connect4codex.Config.Training.{TrainingV2Config}
use connect4codex.Manifest.Tables.{Artifact, Attempt, Value, null, num, float, find_attempt}
use connect4codex.Coordinator.Learner.{
  Learner, fresh, promoted, kept, incumbent_file, takes_over, stays, after_rejection, is_some,
}
use connect4codex.Coordinator.Handlers.{Outside, stop_after, reaches}

differ : (b : Bool) → b ≡ false → b ≡ true → ⊥
differ true e h = cc
differ false e h = cc

takes_true :
    (p q r i : Bool)
    → (p && (q || r || not i)) ≡ true
    → (p ≡ true) × ((q ≡ true) ⊎ (r ≡ true) ⊎ (i ≡ false))
takes_true true true r i h = (refl, inl refl)
takes_true true false true i h = (refl, inr (inl refl))
takes_true true false false true h = cc
takes_true true false false false h = (refl, inr (inr refl))
takes_true false q r i h = cc

takes_false :
    (p q r i : Bool)
    → (p && (q || r || not i)) ≡ false
    → p ≡ true
    → (q ≡ false) × (r ≡ false) × (i ≡ true)
takes_false false q r i h e = cc
takes_false true true r i h e = cc
takes_false true false true i h e = cc
takes_false true false false true h e = (refl, refl, refl)
takes_false true false false false h e = cc

any_true : (p q r : Bool) → (p || q || r) ≡ true → (p ≡ true) ⊎ (q ≡ true) ⊎ (r ≡ true)
any_true true q r h = inl refl
any_true false true r h = inr (inl refl)
any_true false false r h = inr (inr h)

true_any : (p q r : Bool) → (p ≡ true) ⊎ (q ≡ true) ⊎ (r ≡ true) → (p || q || r) ≡ true
true_any true q r h = refl
true_any false true r h = refl
true_any false false r (inl h) = cc
true_any false false r (inr (inl h)) = cc
true_any false false r (inr (inr h)) = h

module _ ⦃fl : Floats⦄ where
  module _ (is_file : Artifact → Bool) (rows : List Attempt) (old_number : Option ℕ) where
    -- The incumbent is an attempt of these rows, and its weights are on the disk.
    abbrev pub HasWeights : ℕ → Artifact → Type 0
    HasWeights n path =
        (old_number ≡ some n)
        × ((a : Attempt) × ((find_attempt n rows ≡ some a)
              × (is_file a.checkpoint_path ≡ true)
              × (a.checkpoint_path ≡ path)))

    module _ (least score : fl.F) (old : Option fl.F) where
      -- A rejected candidate replaces the incumbent: it scored the least score, and there was none, or one
      -- below the least score or below the candidate's, or one without its weights.
      abbrev pub Challenges : Type 0
      Challenges =
          (fl.le least score ≡ true)
          × ((old ≡ none)
              ⊎ ((x : fl.F) × ((old ≡ some x) × ((fl.lt x least ≡ true) ⊎ (fl.lt x score ≡ true))))
              ⊎ ((n : ℕ) (path : Artifact) → HasWeights n path → ⊥))

      -- Or the incumbent, with its weights, stays at the least score.
      abbrev pub Holds : ℕ → Artifact → Type 0
      Holds n path = ((x : fl.F) × ((old ≡ some x) × (fl.le least x ≡ true))) × HasWeights n path

  -- What the learner goes on from after a verdict, and the incumbent that is stored.
  abbrev pub LearnsFrom :
      (Artifact → Bool)
      → List Attempt
      → Option ℕ
      → Option fl.F
      → fl.F
      → fl.F
      → Bool
      → Attempt
      → Attempt
      → Artifact × Option ℕ
      → Value × Value
      → Value × Value
      → Type 0
  LearnsFrom is_file rows old_number old least score accept candidate leader learner before after =
      ((accept ≡ true) × (learner ≡ (leader.checkpoint_path, none)) × (after ≡ (null, null)))
      ⊎ ((accept ≡ false)
          × Challenges is_file rows old_number least score old
          × (learner ≡ (candidate.checkpoint_path, some candidate.attempt_n))
          × (after ≡ (num candidate.attempt_n, float score)))
      ⊎ ((accept ≡ false)
          × (Challenges is_file rows old_number least score old → ⊥)
          × ((n : ℕ) × ((path : Artifact) × (Holds is_file rows old_number least score old n path
                  × (learner ≡ (path, some n)))))
          × (after ≡ before))
      ⊎ ((accept ≡ false)
          × (Challenges is_file rows old_number least score old → ⊥)
          × ((n : ℕ) (path : Artifact) → Holds is_file rows old_number least score old n path → ⊥)
          × (learner ≡ (leader.checkpoint_path, none))
          × (after ≡ (null, null)))

  module _ (is_file : Artifact → Bool) (rows : List Attempt) where
    FileIs : Option ℕ → Option (ℕ × Artifact) → Type 0
    FileIs number file =
        ((n : ℕ) × ((path : Artifact) × ((file ≡ some (n, path))
              × HasWeights is_file rows number n path)))
        ⊎ ((file ≡ none) × ((n : ℕ) (path : Artifact) → HasWeights is_file rows number n path → ⊥))

    file_lem : (number : Option ℕ) → FileIs number (incumbent_file is_file rows number)
    unfolding incumbent_file FileIs
    file_lem none = inr (refl, λ n path w. absurd (none-some n w.0))
      where
        none-some : (n : ℕ) → none ≡ some n → ⊥
        none-some n e = cc
    file_lem (some k) = elim (Option-cases (find_attempt k rows)) [
      | inl e ↦
          rw (e, incumbent_file)
            (inr (refl, λ n path w. let (same, (b, (found, on_disk, at_path))) = w in cc))
      | inr (a, e) ↦ elim (Bool-cases (is_file a.checkpoint_path)) [
        | inl f ↦
            rw (e, incumbent_file, f)
              (inl (k, (a.checkpoint_path, (refl, (refl, (a, (e, f, refl)))))))
        | inr f ↦
            rw (e, incumbent_file, f)
              (inr (refl, λ n path w. let (same, (b, (found, on_disk, at_path))) = w in cc))
      ]
    ]

    missing :
        (number : Option ℕ) (file : Option (ℕ × Artifact))
        → FileIs number file
        → is_some file ≡ false
        → (n : ℕ) (path : Artifact) → HasWeights is_file rows number n path
        → ⊥
    unfolding FileIs
    missing number file (inl (n, (path, (e, w)))) h k p v = let h' : true ≡ false = rw e at h in cc
    missing number file (inr (e, gone)) h k p v = gone k p v

    present :
        (number : Option ℕ) (file : Option (ℕ × Artifact))
        → FileIs number file
        → is_some file ≡ true
        → ((n : ℕ) (path : Artifact) → HasWeights is_file rows number n path → ⊥)
        → ⊥
    unfolding FileIs
    present number file (inl (n, (path, (e, w)))) h none_has = none_has n path w
    present number file (inr (e, gone)) h none_has = let h' : false ≡ true = rw e at h in cc

    module _ (least score : fl.F) (candidate leader : Attempt) (before : Value × Value) where
      challenge_lem :
          (number : Option ℕ) (old : Option fl.F) (file : Option (ℕ × Artifact))
          → FileIs number file
          → (takes_over least score old file ≡ true
              → Challenges is_file rows number least score old)
            × (takes_over least score old file ≡ false
                → Challenges is_file rows number least score old
                → ⊥)
      unfolding takes_over FileIs
      challenge_lem number none file f =
          (λ h. (h, inl refl), λ h c. differ (fl.le least score) h c.0)
      challenge_lem number (some x) file f = (
        λ h.
            let (enough, why) =
              takes_true (fl.le least score) (fl.lt x least) (fl.lt x score) (is_some file) h in
            (
              enough,
              elim why [
                | inl low ↦ inr (inl (x, (refl, inl low)))
                | inr (inl beaten) ↦ inr (inl (x, (refl, inr beaten)))
                | inr (inr gone) ↦ inr (inr (missing number file f gone))
              ],
            ),
        λ h c.
            let (low, beaten, there) =
              takes_false (fl.le least score) (fl.lt x least) (fl.lt x score) (is_some file) h
                c.0 in
            elim c.1 [
              | inl e ↦ absurd cc
              | inr (inl (y, (e, inl q))) ↦ absurd cc
              | inr (inl (y, (e, inr q))) ↦ absurd cc
              | inr (inr none_has) ↦ present number file f there none_has
            ],
      )

      -- The old incumbent stays exactly if it holds.
      stays_lem :
          (number : Option ℕ) (old : Option fl.F) (file : Option (ℕ × Artifact))
          → FileIs number file
          → ((n : ℕ) × ((path : Artifact) × ((stays least old file ≡ some (n, path))
                  × Holds is_file rows number least score old n path)))
            ⊎ ((stays least old file ≡ none)
                × ((n : ℕ) (path : Artifact)
                    → Holds is_file rows number least score old n path
                    → ⊥))
      unfolding stays FileIs
      stays_lem number none file f = inr (refl, λ n path h. let ((x, (e, le)), w) = h in cc)
      stays_lem number (some x) file f = elim (Bool-cases (fl.le least x)) [
        | inl le ↦ rw le (elim f [
          | inl (n, (path, (e, w))) ↦ inl (n, (path, (e, ((x, (refl, le)), w))))
          | inr (e, gone) ↦ inr (e, λ n path h. gone n path h.1)
        ])
        | inr low ↦ rw low (inr (refl, λ n path h. let ((y, (e, le)), w) = h in cc))
      ]

      -- The weights and the values that a choice stands for.
      abbrev pub outcome : Learner → (Artifact × Option ℕ) × (Value × Value)
      outcome fresh = (
        (candidate.checkpoint_path, some candidate.attempt_n),
        (num candidate.attempt_n, float score),
      )
      outcome promoted = ((leader.checkpoint_path, none), (null, null))
      outcome (kept n path) = ((path, some n), before)

      pub rejection_lem :
          (number : Option ℕ) (old : Option fl.F)
          → let r =
              outcome (after_rejection least score old (incumbent_file is_file rows number)) in
            LearnsFrom is_file rows number old least score false candidate leader r.0 before r.1
      unfolding after_rejection
      rejection_lem number old =
          let file = incumbent_file is_file rows number in
          let f = file_lem number in
          let (yes_taken, not_taken) = challenge_lem number old file f in
          elim (Bool-cases (takes_over least score old file)) [
            | inl t ↦ rw t (inr (inl (refl, yes_taken t, refl, refl)))
            | inr t ↦ rw t (elim (stays_lem number old file f) [
              | inl (n, (path, (e, h))) ↦
                  rw e (inr (inr (inl (refl, not_taken t, (n, (path, (h, refl))), refl))))
              | inr (e, gone) ↦ rw e (inr (inr (inr (refl, not_taken t, gone, refl, refl))))
            ])
          ]

  -- When a run stops after a decision: the caller says so, enough candidates were accepted, or enough
  -- were decided.
  abbrev pub Stops : TrainingV2Config → Outside → ℕ → ℕ → Type 0
  Stops config o decisions count =
      (o.should_stop decisions ≡ true)
      ⊎ ((k : ℕ) × ((config.max_gens ≡ some k) × (k ≤ count)))
      ⊎ ((k : ℕ) × ((config.max_candidate_attempts ≡ some k) × (k ≤ decisions)))

  reaches_iff :
      (n : ℕ) (limit : Option ℕ)
      → (reaches n limit ≡ true) ↔ ((k : ℕ) × ((limit ≡ some k) × (k ≤ n)))
  reaches_iff n none = (λ h. cc, λ w. let (k, (e, le)) = w in cc)
  reaches_iff n (some k) =
      (λ h. (k, (refl, leb→le k n h)), λ w. let (j, (e, le)) = w in reached j e le)
    where
      reached : (j : ℕ) → some k ≡ some j → j ≤ n → leb k n ≡ true
      reached j e le = let same : k ≡ j = cc in ground arith

  pub stop_after-Stops :
      (config : TrainingV2Config) (o : Outside) (decisions count : ℕ)
      → (stop_after config o decisions count ≡ true) ↔ Stops config o decisions count
  unfolding stop_after
  stop_after-Stops config o decisions count =
      let (gens, gens') = reaches_iff count config.max_gens in
      let (tries, tries') = reaches_iff decisions config.max_candidate_attempts in
      (
        λ h.
            elim (any_true (o.should_stop decisions) (reaches count config.max_gens)
              (reaches decisions config.max_candidate_attempts) h) [
                | inl told ↦ inl told
                | inr (inl g) ↦ inr (inl (gens g))
                | inr (inr t) ↦ inr (inr (tries t))
              ],
        λ w.
            true_any (o.should_stop decisions) (reaches count config.max_gens)
              (reaches decisions config.max_candidate_attempts)
              (elim w [
                | inl told ↦ inl told
                | inr (inl g) ↦ inr (inl (gens' g))
                | inr (inr t) ↦ inr (inr (tries' t))
              ]),
      )
