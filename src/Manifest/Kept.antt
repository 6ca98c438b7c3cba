-- ===== src/Manifest/Kept.antt =====
-- Writes that leave the attempts, the champion pointer and the count of promotions as they are.
use Prim.Native.String.{String}
use text.Mathlib.Text.{◌==◌ as str_eq}
use connect4codex.Prelude.{
  ℕ, ◌≡◌, refl, ap, sym, ◌∙◌, true, false, none, some, Floats, ok, err, get, put, get-put,
  string_eq, nat_eq, ◌+◌, Bool-cases, Option-cases, inl, inr,
}
use connect4codex.Manifest.Tables.{
  find_attempt, interrupted, Artifact, Attempt, Value, null, num, ArenaResult, Manifest, accepted,
  rejected,
}
use connect4codex.Manifest.Statements.{
  get_state, set_state, pending_attempt, champion, accepted_models, is_accepted, decide_attempt,
  past_champions, insert_attempt, add_pending_attempt, add_interrupted_attempt, candidate_row,
  bare_attempt,
}
use connect4codex.Manifest.Invariant.{Inv, champion_found, champion-Inv, state_at}
use connect4codex.Manifest.Decisions.{decide-accept, decide-reject, settled, promoted}

module _ ⦃fl : Floats⦄ where
  pub record Kept (m m' : Manifest) : Type 0 where
    pub attempts_same : m'.attempts ≡ m.attempts
    pub leader_same : get "champion_attempt" m'.state ≡ get "champion_attempt" m.state
    pub count_same : get "accepted_count" m'.state ≡ get "accepted_count" m.state

  pub Kept-trans : (m m' m'' : Manifest) → Kept m m' → Kept m' m'' → Kept m m''
  Kept-trans m m' m'' k l = record {
    attempts_same = l.attempts_same ∙ k.attempts_same;
    leader_same = l.leader_same ∙ k.leader_same;
    count_same = l.count_same ∙ k.count_same;
  }

  pub Kept-Inv : (m m' : Manifest) → Kept m m' → Inv m → Inv m'
  Kept-Inv m m' k v = record {
    rising = rw k.attempts_same v.rising;
    leader = v.leader;
    leader_row = v.leader_row;
    points = k.leader_same ∙ v.points;
    found = rw k.attempts_same v.found;
    holds = v.holds;
    tally = v.tally;
    counted = k.count_same ∙ v.counted;
    counts = rw k.attempts_same v.counts;
    one_waits = rw k.attempts_same v.one_waits;
  }

  pub Kept-champion : (m m' : Manifest) → Kept m m' → Inv m → champion m' ≡ champion m
  Kept-champion m m' k v =
      champion_found m' v.leader v.leader_row (k.leader_same ∙ v.points)
        (rw k.attempts_same v.found)
      ∙ sym (champion-Inv m v)

  pub Kept-pending : (m m' : Manifest) → Kept m m' → pending_attempt m' ≡ pending_attempt m
  unfolding pending_attempt
  Kept-pending m m' k = rw k.attempts_same refl

  pub set_state-Kept :
      (key : String) (v : Value) (m : Manifest)
      → str_eq key "champion_attempt" ≡ false
      → str_eq key "accepted_count" ≡ false
      → Kept m (set_state key v m)
  unfolding set_state
  set_state-Kept key v m a b = record {
    attempts_same = refl;
    leader_same = get-put key "champion_attempt" v m.state ∙ rw a refl;
    count_same = get-put key "accepted_count" v m.state ∙ rw b refl;
  }

  pub get_state-cong :
      (j : String) (m m' : Manifest)
      → get j m'.state ≡ get j m.state
      → get_state j m' ≡ get_state j m
  unfolding get_state
  get_state-cong j m m' e = ap (λ o. elim o [ none ↦ null | some v ↦ v ]) e

  pub get_state-other :
      (key j : String) (v : Value) (m : Manifest)
      → str_eq key j ≡ false
      → get_state j (set_state key v m) ≡ get_state j m
  unfolding set_state
  get_state-other key j v m e =
      get_state-cong j m (record m { state = put key v m.state })
        (get-put key j v m.state ∙ rw e refl)

  pub get_state-same :
      (key : String) (v : Value) (m : Manifest)
      → str_eq key key ≡ true
      → get_state key (set_state key v m) ≡ v
  unfolding set_state
  get_state-same key v m e =
      state_at (record m { state = put key v m.state }) key (get-put key key v m.state ∙ rw e refl)

  -- A verdict writes no other key.
  pub get_state-decide_attempt :
      (j : String) (n t : ℕ) (r : ArenaResult) (m : Manifest)
      → get "accepted_count" m.state ≡ some (num t)
      → str_eq "champion_attempt" j ≡ false
      → str_eq "accepted_count" j ≡ false
      → get_state j (decide_attempt n r m).1 ≡ get_state j m
  get_state-decide_attempt j n t r m e a b = elim (Bool-cases (is_accepted r)) [
    | inr fell ↦ rw (decide-reject m n r fell) (get_state-cong j m (settled n r rejected m) refl)
    | inl won ↦ rw (decide-accept m n t r won e) (
        get_state-cong j m (promoted n t (settled n r accepted m)) (
          get-put "accepted_count" j (num (t + 1)) (put "champion_attempt" (num n) m.state)
          ∙ rw b (get-put "champion_attempt" j (num n) m.state ∙ rw a refl)))
  ]

  pub accepted_models-ok :
      (limit : ℕ) (a : Attempt) (m : Manifest)
      → champion m ≡ ok a
      → accepted_models limit m ≡ ok (past_champions limit a m.attempts)
  unfolding accepted_models
  accepted_models-ok limit a m e =
      ap (λ r. elim r [ err f ↦ err f | ok c ↦ ok (past_champions limit c m.attempts) ]) e

  -- Nor does a new attempt.
  insert_attempt-state : (row : Attempt) (m : Manifest) → (insert_attempt row m).1.state ≡ m.state
  unfolding insert_attempt
  insert_attempt-state row m = elim (Option-cases (find_attempt row.attempt_n m.attempts)) [
    | inl e ↦ rw (e, insert_attempt) refl
    | inr (a, e) ↦ rw (e, insert_attempt) refl
  ]

  pub get_state-add_pending_attempt :
      (j : String) (n parent : ℕ) (checkpoint : Artifact) (val_loss : fl.F)
      (steps samples fresh : ℕ) (now : String) (m : Manifest)
      → get_state j (add_pending_attempt n parent checkpoint val_loss steps samples fresh now m).1
        ≡ get_state j m
  unfolding add_pending_attempt
  get_state-add_pending_attempt j n parent checkpoint val_loss steps samples fresh now m =
      get_state-cong j m _ (
        ap (λ s. get j s)
          (insert_attempt-state (candidate_row n parent checkpoint val_loss steps samples fresh now)
            m))

  pub get_state-add_interrupted_attempt :
      (j : String) (n parent : ℕ) (checkpoint : Artifact) (now : String) (m : Manifest)
      → get_state j (add_interrupted_attempt n parent checkpoint now m).1 ≡ get_state j m
  unfolding add_interrupted_attempt
  get_state-add_interrupted_attempt j n parent checkpoint now m = get_state-cong j m _ (
      ap (λ s. get j s)
        (insert_attempt-state (bare_attempt n interrupted (some parent) checkpoint now) m))
