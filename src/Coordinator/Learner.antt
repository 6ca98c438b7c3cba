-- ===== src/Coordinator/Learner.antt =====
-- Which weights the learner continues from after a verdict, and which rejected weights are deleted.
use mathlib.Core.List.{reverse}
use connect4codex.Prelude.{
  ℕ, Bool, true, false, not, ◌&&◌, ◌||◌, Option, none, some, List, ◌∷◌, Floats, Result, ok, err,
  exists, ◌==◌, if◌then◌else◌, keep_if, take, map,
}
use connect4codex.Manifest.Tables.{
  Artifact, Attempt, rejected, same_status, Value, null, num, float, Manifest, find_attempt,
}
use connect4codex.Manifest.Statements.{Fault, bad_value, set_state}

abbrev pub is_some : {A : Type 0} → Option A → Bool
is_some none = false
is_some (some a) = true

module _ ⦃fl : Floats⦄ where
  -- `float(...)` of a stored score, if there is one.
  unfoldable pub stored_score : Value → Result Fault (Option fl.F)
  stored_score null = ok none
  stored_score (float x) = ok (some x)
  stored_score (num n) = ok (some (fl.of_ℕ n))
  stored_score _ = err bad_value

  unfoldable pub stored_attempt : Value → Result Fault (Option ℕ)
  stored_attempt null = ok none
  stored_attempt (num n) = ok (some n)
  stored_attempt _ = err bad_value

  -- The incumbent's number and weights, when its row is there and its file too.
  unfoldable pub incumbent_file :
      (Artifact → Bool) → List Attempt → Option ℕ → Option (ℕ × Artifact)
  incumbent_file is_file rows none = none
  incumbent_file is_file rows (some n) = elim (find_attempt n rows) [
    | none ↦ none
    | some row ↦ if is_file row.checkpoint_path then some (n, row.checkpoint_path) else none
  ]

  -- The first condition: the rejected candidate becomes the incumbent.
  unfoldable pub takes_over : fl.F → fl.F → Option fl.F → Option (ℕ × Artifact) → Bool
  takes_over least score none file = fl.le least score
  takes_over least score (some old) file =
      fl.le least score && (fl.lt old least || fl.lt old score || not (is_some file))

  -- The second one: the old incumbent stays.
  unfoldable pub stays : fl.F → Option fl.F → Option (ℕ × Artifact) → Option (ℕ × Artifact)
  stays least none file = none
  stays least (some old) file = if fl.le least old then file else none

  pub data Learner : Type 0 where
    fresh : Learner
    promoted : Learner
    kept : ℕ → Artifact → Learner

  -- `fresh` takes the candidate's weights, `promoted` the champion's.
  unfoldable pub after_rejection : fl.F → fl.F → Option fl.F → Option (ℕ × Artifact) → Learner
  after_rejection least score old file =
      if takes_over least score old file
      then fresh
      else (elim (stays least old file) [ some (n, path) ↦ kept n path | none ↦ promoted ])

  abbrev pub set_incumbent : Value → Value → Manifest → Manifest
  set_incumbent n score m =
      set_state "learner_incumbent_score" score (set_state "learner_incumbent_attempt" n m)

  -- What the choice writes, the learner's weights, and the incumbent's number.
  unfoldable pub settle :
      Learner → fl.F → Attempt → Attempt → Manifest → (Artifact × Option ℕ) × Manifest
  settle fresh score candidate champion m = (
    (candidate.checkpoint_path, some candidate.attempt_n),
    set_incumbent (num candidate.attempt_n) (float score) m,
  )
  settle promoted score candidate champion m =
      ((champion.checkpoint_path, none), set_incumbent null null m)
  settle (kept n path) score candidate champion m = ((path, some n), m)

  abbrev pub with_preserved : Option ℕ → List ℕ → List ℕ
  with_preserved none ns = ns
  with_preserved (some n) ns = n ∷ ns

  -- `_prune_rejected`: the weights of the rejected candidates, the newest of which stay.
  unfoldable pub prune_rejected : ℕ → Option ℕ → Manifest → List Artifact
  prune_rejected retention preserve m =
      let rows = reverse (keep_if (λ (a : Attempt). same_status a.status rejected) m.attempts) in
      let retained =
        with_preserved preserve (map (λ (a : Attempt). a.attempt_n) (take retention rows)) in
      map (λ (a : Attempt). a.checkpoint_path)
        (keep_if (λ (a : Attempt). not (exists (λ n. n == a.attempt_n) retained)) rows)
