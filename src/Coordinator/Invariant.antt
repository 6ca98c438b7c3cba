-- ===== src/Coordinator/Invariant.antt =====
-- What holds of the coordinator between two messages.
use Prim.Native.String.{String}
use text.Mathlib.Text.{◌==◌ as str_eq}
use connect4codex.Prelude.{ℕ, ◌≡◌, ap, sym, ◌∙◌, false, Option, Floats, ok, string_eq}
use connect4codex.Manifest.Tables.{Value, Manifest}
use connect4codex.Manifest.Statements.{get_state, set_state, pending_attempt}
use connect4codex.Manifest.Invariant.{Inv}
use connect4codex.Manifest.Kept.{Kept-Inv, Kept-pending, set_state-Kept, get_state-other}
use connect4codex.Coordinator.State.{Coordinator}
use connect4codex.Coordinator.Learner.{is_some, stored_attempt, stored_score}

module _ ⦃fl : Floats⦄ where
  -- The learner's incumbent reads as a number and a score, or as none.
  pub record IsReadable (m : Manifest) : Type 0 where
    pub number : Option ℕ
    pub score : Option fl.F
    pub reads_number : stored_attempt (get_state "learner_incumbent_attempt" m) ≡ ok number
    pub reads_score : stored_score (get_state "learner_incumbent_score" m) ≡ ok score

  pub record IsSteady (c : Coordinator) : Type 0 where
    pub manifest_inv : Inv c.manifest
    pub arena_matches : c.arena_waiting ≡ is_some (pending_attempt c.manifest)
    pub readable : IsReadable c.manifest

  pub IsReadable-same :
      (m m' : Manifest)
      → get_state "learner_incumbent_attempt" m' ≡ get_state "learner_incumbent_attempt" m
      → get_state "learner_incumbent_score" m' ≡ get_state "learner_incumbent_score" m
      → IsReadable m
      → IsReadable m'
  IsReadable-same m m' a s r = record {
    number = r.number;
    score = r.score;
    reads_number = ap stored_attempt a ∙ r.reads_number;
    reads_score = ap stored_score s ∙ r.reads_score;
  }

  -- A report on a component.
  pub report_lem :
      (key : String) (v : Value) (c : Coordinator)
      → str_eq key "champion_attempt" ≡ false
      → str_eq key "accepted_count" ≡ false
      → str_eq key "learner_incumbent_attempt" ≡ false
      → str_eq key "learner_incumbent_score" ≡ false
      → IsSteady c
      → IsSteady (record c { manifest = set_state key v c.manifest })
  report_lem key v c h i j k s =
      let kept = set_state-Kept key v c.manifest h i in
      record {
        manifest_inv = Kept-Inv c.manifest (set_state key v c.manifest) kept s.manifest_inv;
        arena_matches =
            s.arena_matches
            ∙ sym (ap is_some (Kept-pending c.manifest (set_state key v c.manifest) kept));
        readable =
            IsReadable-same c.manifest (set_state key v c.manifest)
              (get_state-other key "learner_incumbent_attempt" v c.manifest j)
              (get_state-other key "learner_incumbent_score" v c.manifest k) s.readable;
      }
