-- ===== src/Manifest/Invariant.antt =====
-- What every manifest of a started run satisfies, and that each method keeps it.
use Prim.Native.String.{String}
use connect4codex.Prelude.{
  if◌then◌else◌, ◌==◌, ℕ, suc, ◌+◌, ◌≤◌, ◌≡◌, refl, sym, ◌∙◌, ap, false, none, some, List, Floats,
  ok, err, get, arith, string_eq, nat_eq,
}
use connect4codex.Manifest.Tables.{
  accepted, pending, interrupted, same_status, Artifact, Attempt, Value, num, Manifest, insert_row,
  find_attempt,
}
use connect4codex.Manifest.Statements.{
  Store, transaction, get_state, insert_attempt, next_attempt, candidate_row, bare_attempt,
  add_pending_attempt, add_interrupted_attempt, pending_attempt, champion_row, champion,
}
use connect4codex.Manifest.Rows.{
  one_if, From, count_status, find-after_last, insert-From, find-insert, count-insert,
  count-pending, pending-insert, quiet-insert,
}

module _ ⦃fl : Floats⦄ where
  pub record Inv (m : Manifest) : Type 0 where
    -- the attempts are listed by rising number
    pub rising : From 0 m.attempts
    -- the champion pointer names an accepted attempt
    pub leader : ℕ
    pub leader_row : Attempt
    pub points : get "champion_attempt" m.state ≡ some (num leader)
    pub found : find_attempt leader m.attempts ≡ some leader_row
    pub holds : leader_row.status ≡ accepted
    -- the count leaves out the first champion
    pub tally : ℕ
    pub counted : get "accepted_count" m.state ≡ some (num tally)
    pub counts : count_status accepted m.attempts ≡ suc tally
    -- at most one candidate waits for its arena
    pub one_waits : count_status pending m.attempts ≤ 1

  pub commit :
      {A : Type 0} (x : Store A) (m : Manifest) {a : A} {m' : Manifest}
      → x m ≡ (ok a, m')
      → transaction x m ≡ (ok a, m')
  unfolding transaction
  commit x m e = ap (λ r. elim r.0 [ ok a ↦ (ok a, r.1) | err f ↦ (err f, m) ]) e

  pub state_at :
      (m : Manifest) (key : String) {x : Value} → get key m.state ≡ some x → get_state key m ≡ x
  unfolding get_state
  state_at m key e = rw (e, get_state)

  champion_at :
      (n : ℕ) {a : Attempt} (rows : List Attempt)
      → find_attempt n rows ≡ some a
      → champion_row (num n) rows ≡ ok a
  unfolding champion_row
  champion_at n rows e = rw (e, champion_row)

  insert_free :
      (row : Attempt) (m : Manifest)
      → find_attempt row.attempt_n m.attempts ≡ none
      → insert_attempt row m ≡ (ok tt, record m { attempts = insert_row row m.attempts })
  unfolding insert_attempt
  insert_free row m e = rw (e, insert_attempt)

  pub champion_found :
      (m : Manifest) (n : ℕ) (a : Attempt)
      → get "champion_attempt" m.state ≡ some (num n)
      → find_attempt n m.attempts ≡ some a
      → champion m ≡ ok a
  unfolding champion
  champion_found m n a p f = rw (state_at m "champion_attempt" p) (champion_at n m.attempts f)

  pub champion-Inv : (m : Manifest) (v : Inv m) → champion m ≡ ok v.leader_row
  champion-Inv m v = champion_found m v.leader v.leader_row v.points v.found

  insert-found :
      (m : Manifest) (row : Attempt) (v : Inv m)
      → find_attempt row.attempt_n m.attempts ≡ none
      → find_attempt v.leader (insert_row row m.attempts) ≡ some v.leader_row
  insert-found m row v absent = ground (arith, find-insert v.leader row m.attempts absent, v.found)

  -- A new row that is not accepted, and not pending beside another.
  insert-Inv :
      (m : Manifest) (row : Attempt)
      → Inv m
      → find_attempt row.attempt_n m.attempts ≡ none
      → same_status row.status accepted ≡ false
      → one_if (same_status row.status pending) + count_status pending m.attempts ≤ 1
      → Inv (record m { attempts = insert_row row m.attempts })
  insert-Inv m row v absent quiet room = record {
    rising = insert-From 0 row m.attempts v.rising (omega arith) absent;
    leader = v.leader;
    leader_row = v.leader_row;
    points = v.points;
    found = insert-found m row v absent;
    holds = v.holds;
    tally = v.tally;
    counted = v.counted;
    counts = omega (arith, count-insert accepted row m.attempts, quiet_row);
    one_waits = rw (count-insert pending row m.attempts) room;
  }
    where
      quiet_row : one_if (same_status row.status accepted) ≡ 0
      quiet_row = rw quiet

  pub next_absent : (m : Manifest) → find_attempt (next_attempt m) m.attempts ≡ none
  unfolding next_attempt
  next_absent m = find-after_last _ m.attempts (omega arith)

  -- The number that `next_attempt` gives is free, so registering a candidate under it succeeds. If
  -- no candidate waits, the new one is then the one that waits, and the invariant holds.
  pub add_pending_attempt-Inv :
      (m : Manifest) (parent : ℕ) (checkpoint : Artifact) (val_loss : fl.F)
      (steps samples fresh : ℕ) (now : String)
      → Inv m
      → pending_attempt m ≡ none
      → let n = next_attempt m in
        let (r, m') = add_pending_attempt n parent checkpoint val_loss steps samples fresh now m in
        (r ≡ ok tt)
        × Inv m'
        × (pending_attempt m'
            ≡ some (candidate_row n parent checkpoint val_loss steps samples fresh now))
  unfolding add_pending_attempt pending_attempt
  add_pending_attempt-Inv m parent checkpoint val_loss steps samples fresh now v idle =
      let n = next_attempt m in
      let row = candidate_row n parent checkpoint val_loss steps samples fresh now in
      rw (insert_free row m (next_absent m)) (
        refl,
        insert-Inv m row v (next_absent m) refl (omega (arith, count-pending m.attempts idle)),
        pending-insert row m.attempts refl idle,
      )

  -- The row under its number after an interrupted candidate is stored, and the rows as they were
  -- under every other one.
  pub stored_interrupted :
      (m : Manifest) (parent : ℕ) (checkpoint : Artifact) (now : String) (j : ℕ)
      → find_attempt j (add_interrupted_attempt (next_attempt m) parent checkpoint now m).1.attempts
        ≡ (if next_attempt m == j
            then some (bare_attempt (next_attempt m) interrupted (some parent) checkpoint now)
            else find_attempt j m.attempts)
  unfolding add_interrupted_attempt
  stored_interrupted m parent checkpoint now j =
      let row = bare_attempt (next_attempt m) interrupted (some parent) checkpoint now in
      rw (insert_free row m (next_absent m)) (find-insert j row m.attempts (next_absent m))

  -- So does registering an interrupted one, which leaves the waiting candidate as it is.
  pub add_interrupted_attempt-Inv :
      (m : Manifest) (parent : ℕ) (checkpoint : Artifact) (now : String)
      → Inv m
      → let (r, m') = add_interrupted_attempt (next_attempt m) parent checkpoint now m in
        (r ≡ ok tt) × Inv m' × (champion m' ≡ champion m) × (pending_attempt m' ≡ pending_attempt m)
  unfolding add_interrupted_attempt pending_attempt
  add_interrupted_attempt-Inv m parent checkpoint now v =
      let row = bare_attempt (next_attempt m) interrupted (some parent) checkpoint now in
      let v' = insert-Inv m row v (next_absent m) refl (omega (arith, v.one_waits)) in
      rw (insert_free row m (next_absent m)) (
        refl,
        v',
        champion_found _ v.leader v.leader_row v.points (insert-found m row v (next_absent m))
            ∙ sym (champion-Inv m v),
        quiet-insert row m.attempts refl,
      )
