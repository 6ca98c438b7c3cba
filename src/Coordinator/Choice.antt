-- ===== src/Coordinator/Choice.antt =====
-- The choice of the learner's weights always succeeds and writes only the incumbent.
use connect4codex.Prelude.{
  ℕ, ◌≡◌, refl, sym, ap, ◌∙◌, inl, Bool, true, false, Option, none, some, Floats, ok, bind-ok,
  ◌>>=◌, string_eq,
}
use mathlib.Core.Path.{subst}
use connect4codex.Config.Training.{TrainingV2Config}
use connect4codex.Manifest.Tables.{Artifact, Attempt, Value, null, num, float, Manifest}
use connect4codex.Manifest.Statements.{get_state, set_state}
use connect4codex.Manifest.Kept.{Kept, Kept-trans, set_state-Kept, get_state-other, get_state-same}
use connect4codex.Coordinator.State.{Coordinator}
use connect4codex.Coordinator.Learner.{
  Learner, fresh, promoted, kept, stored_attempt, stored_score, incumbent_file, after_rejection,
  settle, set_incumbent,
}
use connect4codex.Coordinator.Handlers.{Outside, value_of, settle_on, choose_learner}
use connect4codex.Coordinator.Learning.{LearnsFrom, outcome, rejection_lem}
use connect4codex.Coordinator.Invariant.{IsReadable}

module _ ⦃fl : Floats⦄ where
  set_incumbent-Kept : (n s : Value) (m : Manifest) → Kept m (set_incumbent n s m)
  set_incumbent-Kept n s m =
      Kept-trans m (set_state "learner_incumbent_attempt" n m) (set_incumbent n s m)
        (set_state-Kept "learner_incumbent_attempt" n m refl refl)
        (set_state-Kept "learner_incumbent_score" s (set_state "learner_incumbent_attempt" n m) refl
          refl)

  set_incumbent-IsReadable :
      (n s : Value) (m : Manifest) (a : Option ℕ) (x : Option fl.F)
      → stored_attempt n ≡ ok a
      → stored_score s ≡ ok x
      → IsReadable (set_incumbent n s m)
  set_incumbent-IsReadable n s m a x e f =
      let m' = set_state "learner_incumbent_attempt" n m in
      record {
        number = a;
        score = x;
        reads_number =
            ap stored_attempt (
              get_state-other "learner_incumbent_score" "learner_incumbent_attempt" s m' refl
              ∙ get_state-same "learner_incumbent_attempt" n m refl)
            ∙ e;
        reads_score = ap stored_score (get_state-same "learner_incumbent_score" s m' refl) ∙ f;
      }

  -- The incumbent as it is stored.
  abbrev pub incumbent : Manifest → Value × Value
  incumbent m = (get_state "learner_incumbent_attempt" m, get_state "learner_incumbent_score" m)

  incumbent-set : (n s : Value) (m : Manifest) → incumbent (set_incumbent n s m) ≡ (n, s)
  incumbent-set n s m =
      let m' = set_state "learner_incumbent_attempt" n m in
      let number =
        get_state-other "learner_incumbent_score" "learner_incumbent_attempt" s m' refl
        ∙ get_state-same "learner_incumbent_attempt" n m refl in
      let score = get_state-same "learner_incumbent_score" s m' refl in rw (number, score) refl

  -- What a choice wrote.
  pub record Chosen (m : Manifest) (learner : Artifact × Option ℕ) (m' : Manifest) : Type 0 where
    pub same : Kept m m'
    pub readable : IsReadable m'

  all_same : (m : Manifest) → Kept m m
  all_same m = record { attempts_same = refl; leader_same = refl; count_same = refl }

  settle-Chosen :
      (choice : Learner) (score : fl.F) (candidate leader : Attempt) (m : Manifest)
      → IsReadable m
      → let r = settle choice score candidate leader m in Chosen m r.0 r.1
  unfolding settle stored_attempt stored_score
  settle-Chosen fresh score candidate leader m r =
      let n = num candidate.attempt_n in
      record {
        same = set_incumbent-Kept n (float score) m;
        readable =
            set_incumbent-IsReadable n (float score) m (some candidate.attempt_n) (some score) refl
              refl;
      }
  settle-Chosen promoted score candidate leader m r = record {
    same = set_incumbent-Kept null null m;
    readable = set_incumbent-IsReadable null null m none none refl refl;
  }
  settle-Chosen (kept n path) score candidate leader m r = record {
    same = all_same m;
    readable = r;
  }

  settle-outcome :
      (choice : Learner) (least score : fl.F) (is_file : Artifact → Bool)
      (candidate leader : Attempt) (m : Manifest)
      → let r = settle choice score candidate leader m in
        (r.0, incumbent r.1)
        ≡ outcome is_file m.attempts least score candidate leader (incumbent m) choice
  unfolding settle
  settle-outcome fresh least score is_file candidate leader m =
      rw (incumbent-set (num candidate.attempt_n) (float score) m) refl
  settle-outcome promoted least score is_file candidate leader m =
      rw (incumbent-set null null m) refl
  settle-outcome (kept n path) least score is_file candidate leader m = refl

  module _ (config : TrainingV2Config) (o : Outside) where
    pub choose_learner-Chosen :
        (accept : Bool) (score : fl.F) (candidate leader : Attempt) (c : Coordinator)
        (r : IsReadable c.manifest)
        → (learner : Artifact × Option ℕ) × ((m : Manifest) × ((choose_learner config o accept score
                  candidate leader c
                ≡ (ok learner, record c { manifest = m }))
              × Chosen c.manifest learner m
              × LearnsFrom o.is_file c.manifest.attempts r.number r.score
                  config.learner_incumbent_min_score score accept candidate leader learner
                  (incumbent c.manifest)
                  (incumbent m)))
    unfolding choose_learner settle_on stored_attempt stored_score
    choose_learner-Chosen true score candidate leader c r = (
      (leader.checkpoint_path, none),
      (
        set_incumbent null null c.manifest,
        (
          refl,
          record {
            same = set_incumbent-Kept null null c.manifest;
            readable = set_incumbent-IsReadable null null c.manifest none none refl refl;
          },
          inl (refl, refl, incumbent-set null null c.manifest),
        ),
      ),
    )
    choose_learner-Chosen false score candidate leader c r =
        let file = incumbent_file o.is_file c.manifest.attempts r.number in
        let choice = after_rejection config.learner_incumbent_min_score score r.score file in
        let done = settle choice score candidate leader c.manifest in
        let number = λ (c : Coordinator).
          value_of (stored_attempt (get_state "learner_incumbent_attempt" c.manifest)) c in
        let old = λ (c : Coordinator).
          value_of (stored_score (get_state "learner_incumbent_score" c.manifest)) c in
        let found =
          bind-ok number (λ n. old >>= λ x. settle_on config o score candidate leader n x) c
            (ap (λ q. value_of q c) r.reads_number)
          ∙ bind-ok old (λ x. settle_on config o score candidate leader r.number x) c
              (ap (λ q. value_of q c) r.reads_score) in
        let least = config.learner_incumbent_min_score in
        let before = incumbent c.manifest in
        let learns =
          subst
            (λ q.
              LearnsFrom o.is_file c.manifest.attempts r.number r.score least score false candidate
                leader q.0 before q.1)
            (sym (settle-outcome choice least score o.is_file candidate leader c.manifest))
            (rejection_lem o.is_file c.manifest.attempts least score candidate leader before
              r.number r.score) in
        (
          done.0,
          (done.1, (found, settle-Chosen choice score candidate leader c.manifest r, learns)),
        )
