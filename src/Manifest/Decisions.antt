-- ===== src/Manifest/Decisions.antt =====
-- What `decide_attempt` does to the candidate that waits.
use connect4codex.Prelude.{
  ℕ, zero, suc, ◌+◌, ◌≡◌, refl, sym, ◌∙◌, true, false, none, some, List, Floats, ok, get, put,
  get-put, ◌==◌, if◌then◌else◌, arith, Bool-cases, bind-ok, pure, inl, inr, string_eq, nat_eq,
}
use connect4codex.Manifest.Tables.{
  Status, accepted, pending, rejected, same_status, Attempt, num, ArenaResult, Manifest,
  find_attempt, set_status,
}
use connect4codex.Manifest.Statements.{
  get_state, set_state, state_number, pending_attempt, champion, is_accepted, promote,
  decide_attempt, transaction,
}
use connect4codex.Manifest.Rows.{
  count_status, set-From, find-set, count-set, pending-count, find-pending,
}
use connect4codex.Manifest.Invariant.{Inv, champion_found, champion-Inv, state_at, commit}

module _ ⦃fl : Floats⦄ where
  -- The state table after a promotion.
  abbrev pub promoted : ℕ → ℕ → Manifest → Manifest
  promoted n t m = record m {
    state = put "accepted_count" (num (t + 1)) (put "champion_attempt" (num n) m.state);
  }

  count_after :
      (n t : ℕ) (m : Manifest)
      → get "accepted_count" m.state ≡ some (num t)
      → get_state "accepted_count" (set_state "champion_attempt" (num n) m) ≡ num t
  unfolding set_state
  count_after n t m e =
      state_at (record m { state = put "champion_attempt" (num n) m.state }) "accepted_count"
        (rw (get-put "champion_attempt" "accepted_count" (num n) m.state) e)

  pub number_of : (t : ℕ) → state_number 0 (num t) ≡ ok t
  unfolding state_number
  number_of zero = refl
  number_of (suc t) = refl

  promote_lem :
      (n t : ℕ) (m : Manifest)
      → get "accepted_count" m.state ≡ some (num t)
      → promote n m ≡ (ok tt, promoted n t m)
  unfolding promote set_state
  promote_lem n t m e = rw (count_after n t m e, number_of t) refl

  -- The row of a waiting candidate, decided.
  decided :
      (n : ℕ) (st : Status) (row : Attempt) (rows : List Attempt)
      → find_attempt n rows ≡ some row
      → find_attempt n (set_status n st rows) ≡ some (record row { status = st })
  decided n st row rows e = ground (arith, find-set n n st rows, e)

  none_waits :
      (m : Manifest) (st : Status) (row : Attempt)
      → Inv m
      → find_attempt row.attempt_n m.attempts ≡ some row
      → row.status ≡ pending
      → same_status st pending ≡ false
      → count_status pending (set_status row.attempt_n st m.attempts) ≡ 0
  none_waits m st row v found waits done =
      let moved : count_status pending (set_status row.attempt_n st m.attempts) + 1
          ≡ count_status pending m.attempts + 0 =
        rw (waits, done) at (count-set 0 row.attempt_n st pending row m.attempts v.rising found) in
      omega (arith, moved, v.one_waits)

  -- The tables after a verdict.
  abbrev pub settled : ℕ → ArenaResult → Status → Manifest → Manifest
  settled n result st m = record m {
    attempts = set_status n st m.attempts;
    arena_results = put n result m.arena_results;
  }

  pub decide-reject :
      (m : Manifest) (n : ℕ) (result : ArenaResult)
      → is_accepted result ≡ false
      → decide_attempt n result m ≡ (ok false, settled n result rejected m)
  unfolding decide_attempt transaction
  decide-reject m n result fell = rw fell refl

  pub decide-accept :
      (m : Manifest) (n t : ℕ) (result : ArenaResult)
      → is_accepted result ≡ true
      → get "accepted_count" m.state ≡ some (num t)
      → decide_attempt n result m ≡ (ok true, promoted n t (settled n result accepted m))
  unfolding decide_attempt
  decide-accept m n t result won e = rw won (
      commit _ m (
        bind-ok (promote n) (λ _. pure true) (settled n result accepted m)
          (promote_lem n t (settled n result accepted m) e)))

  -- The candidate that waits is not the champion.
  others :
      (m : Manifest) (row : Attempt) (v : Inv m)
      → find_attempt row.attempt_n m.attempts ≡ some row
      → row.status ≡ pending
      → (row.attempt_n == v.leader) ≡ false
  others m row v found waits = elim (Bool-cases (row.attempt_n == v.leader)) [
    | inr e ↦ e
    | inl e ↦
        let same : row.attempt_n ≡ v.leader = ground (arith, e) in
        let one : some row ≡ some v.leader_row = sym found ∙ rw (← same) at v.found in
        ground (arith, waits, v.holds, one)
  ]

  reject-Inv :
      (m : Manifest) (row : Attempt) (result : ArenaResult)
      → Inv m
      → find_attempt row.attempt_n m.attempts ≡ some row
      → row.status ≡ pending
      → Inv (settled row.attempt_n result rejected m)
  reject-Inv m row result v found waits =
      let apart = others m row v found waits in
      let moved : count_status accepted (set_status row.attempt_n rejected m.attempts) + 0
          ≡ count_status accepted m.attempts + 0 =
        rw waits at (count-set 0 row.attempt_n rejected accepted row m.attempts v.rising found) in
      record {
        rising = set-From 0 row.attempt_n rejected m.attempts v.rising;
        leader = v.leader;
        leader_row = v.leader_row;
        points = v.points;
        found = rw (find-set v.leader row.attempt_n rejected m.attempts, apart) v.found;
        holds = v.holds;
        tally = v.tally;
        counted = v.counted;
        counts = omega (arith, moved, v.counts);
        one_waits = omega (arith, none_waits m rejected row v found waits refl);
      }

  accept-Inv :
      (m : Manifest) (row : Attempt) (result : ArenaResult) (v : Inv m)
      → find_attempt row.attempt_n m.attempts ≡ some row
      → row.status ≡ pending
      → Inv (promoted row.attempt_n v.tally (settled row.attempt_n result accepted m))
  accept-Inv m row result v found waits =
      let moved : count_status accepted (set_status row.attempt_n accepted m.attempts) + 0
          ≡ count_status accepted m.attempts + 1 =
        rw waits at (count-set 0 row.attempt_n accepted accepted row m.attempts v.rising found) in
      let crowned = put "champion_attempt" (num row.attempt_n) m.state in
      record {
        rising = set-From 0 row.attempt_n accepted m.attempts v.rising;
        leader = row.attempt_n;
        leader_row = record row { status = accepted };
        points =
            get-put "accepted_count" "champion_attempt" (num (v.tally + 1)) crowned
            ∙ get-put "champion_attempt" "champion_attempt" (num row.attempt_n) m.state;
        found = decided row.attempt_n accepted row m.attempts found;
        holds = refl;
        tally = v.tally + 1;
        counted = get-put "accepted_count" "accepted_count" (num (v.tally + 1)) crowned;
        counts = omega (arith, moved, v.counts);
        one_waits = omega (arith, none_waits m accepted row v found waits refl);
      }

  -- Deciding the waiting candidate returns whether the arena accepted it. Afterwards no candidate
  -- waits, the invariant holds, and the champion and the count of promotions are those before or, after
  -- an acceptance, the candidate's row and one more.
  pub decide_attempt-Inv :
      (m : Manifest) (row : Attempt) (result : ArenaResult) (v : Inv m)
      → pending_attempt m ≡ some row
      → let (r, m') = decide_attempt row.attempt_n result m in
        let accept = is_accepted result in
        (r ≡ ok accept)
        × Inv m'
        × (pending_attempt m' ≡ none)
        × (champion m' ≡ (if accept then ok (record row { status = accepted }) else champion m))
        × (get_state "accepted_count" m' ≡ num (if accept then v.tally + 1 else v.tally))
  unfolding pending_attempt accept-Inv reject-Inv
  decide_attempt-Inv m row result v p =
      let (found, waits, _) = find-pending 0 row m.attempts v.rising p in
      elim (Bool-cases (is_accepted result)) [
        | inl e ↦
            let v' = accept-Inv m row result v found waits in
            rw (decide-accept m row.attempt_n v.tally result e v.counted, e)
              (
                refl,
                v',
                pending-count _ (none_waits m accepted row v found waits refl),
                champion_found _ row.attempt_n (record row { status = accepted }) v'.points
                    v'.found,
                state_at _ "accepted_count" v'.counted,
              )
        | inr e ↦
            let v' = reject-Inv m row result v found waits in
            rw (decide-reject m row.attempt_n result e, e)
              (
                refl,
                v',
                pending-count _ (none_waits m rejected row v found waits refl),
                champion_found _ v.leader v.leader_row v'.points v'.found ∙ sym (champion-Inv m v),
                state_at _ "accepted_count" v'.counted,
              )
      ]
