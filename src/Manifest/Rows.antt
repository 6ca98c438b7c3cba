-- ===== src/Manifest/Rows.antt =====
-- The attempts table: its order by key, and what its statements do to look-ups and to the number of
-- rows with a status.
use connect4codex.Prelude.{
  ℕ, suc, ◌+◌, ◌≤◌, ◌<◌, ◌≡◌, refl, Bool, true, false, Option, none, some, List, [], ◌∷◌, Floats,
  ltb, ◌==◌, if◌then◌else◌, arith, Bool-cases, inl, inr,
}
use connect4codex.Manifest.Tables.{
  Status, pending, same_status, Attempt, insert_row, find_attempt, set_status, first_pending,
  after_last,
}

abbrev pub one_if : Bool → ℕ
one_if true = 1
one_if false = 0

module _ ⦃fl : Floats⦄ where
  -- The keys rise, from k on.
  abbrev pub From : ℕ → List Attempt → Type 0
  From k [] = Unit {0}
  From k (a ∷ rows) = (k ≤ a.attempt_n) × From (suc a.attempt_n) rows

  unfoldable pub count_status : Status → List Attempt → ℕ
  count_status st [] = 0
  count_status st (a ∷ rows) = one_if (same_status a.status st) + count_status st rows

  pub From-mono : (j k : ℕ) (rows : List Attempt) → j ≤ k → From k rows → From j rows
  From-mono j k [] h f = tt
  From-mono j k (a ∷ rows) h f = (omega arith, f.1)

  find_below : (n k : ℕ) (rows : List Attempt) → From k rows → n < k → find_attempt n rows ≡ none
  unfolding find_attempt
  find_below n k [] f h = refl
  find_below n k (a ∷ rows) f h = ground (arith, find_below n (suc a.attempt_n) rows f.1)

  pub find-after_last :
      (n : ℕ) (rows : List Attempt) → after_last rows ≤ n → find_attempt n rows ≡ none
  unfolding find_attempt after_last
  find-after_last n [] h = refl
  find-after_last n (a ∷ rows) h = ground (arith, find-after_last n rows)

  pub insert-From :
      (k : ℕ) (r : Attempt) (rows : List Attempt)
      → From k rows
      → k ≤ r.attempt_n
      → find_attempt r.attempt_n rows ≡ none
      → From k (insert_row r rows)
  unfolding insert_row find_attempt
  insert-From k r [] f h e = (h, tt)
  insert-From k r (a ∷ rows) f h e = ground (
    arith,
    insert-From (suc a.attempt_n) r rows f.1,
    From-mono (suc r.attempt_n) (suc a.attempt_n) rows,
  )

  pub find-insert :
      (j : ℕ) (r : Attempt) (rows : List Attempt)
      → find_attempt r.attempt_n rows ≡ none
      → find_attempt j (insert_row r rows)
        ≡ (if r.attempt_n == j then some r else find_attempt j rows)
  unfolding insert_row find_attempt
  find-insert j r [] e = refl
  find-insert j r (a ∷ rows) e = ground (arith, find-insert j r rows)

  pub count-insert :
      (st : Status) (r : Attempt) (rows : List Attempt)
      → count_status st (insert_row r rows)
        ≡ one_if (same_status r.status st) + count_status st rows
  unfolding insert_row count_status
  count-insert st r [] = refl
  count-insert st r (a ∷ rows) = elim (Bool-cases (ltb r.attempt_n a.attempt_n)) [
    | inl e ↦ rw e
    | inr e ↦ rw e (omega (arith, count-insert st r rows))
  ]

  pub set-From :
      (k n : ℕ) (st : Status) (rows : List Attempt) → From k rows → From k (set_status n st rows)
  unfolding set_status
  set-From k n st [] f = tt
  set-From k n st (a ∷ rows) f = ground (arith, set-From (suc a.attempt_n) n st rows f.1)

  abbrev pub with_status : Status → Option Attempt → Option Attempt
  with_status st none = none
  with_status st (some a) = some (record a { status = st })

  pub find-set :
      (j n : ℕ) (st : Status) (rows : List Attempt)
      → find_attempt j (set_status n st rows)
        ≡ (if n == j then with_status st (find_attempt j rows) else find_attempt j rows)
  unfolding set_status find_attempt
  find-set j n st [] = ground arith
  find-set j n st (a ∷ rows) = ground (arith, find-set j n st rows)

  set_below :
      (k n : ℕ) (st : Status) (rows : List Attempt)
      → From k rows
      → n < k
      → set_status n st rows ≡ rows
  unfolding set_status
  set_below k n st [] f h = refl
  set_below k n st (a ∷ rows) f h = ground (arith, set_below (suc a.attempt_n) n st rows f.1)

  -- A row that changes its status moves from one count to the other.
  pub count-set :
      (k n : ℕ) (st of : Status) (a : Attempt) (rows : List Attempt)
      → From k rows
      → find_attempt n rows ≡ some a
      → count_status of (set_status n st rows) + one_if (same_status a.status of)
        ≡ count_status of rows + one_if (same_status st of)
  unfolding set_status find_attempt count_status
  count-set k n st of a [] f e = ground arith
  count-set k n st of a (b ∷ rows) f e = elim (Bool-cases (b.attempt_n == n)) [
    | inl here ↦
        let q : some b ≡ some a = rw here at e in
        let same : a.status ≡ b.status = cc in
        rw (here, same, set_below (suc b.attempt_n) n st rows f.1 (ground arith)) (omega arith)
    | inr there ↦
        rw there (omega (arith, count-set (suc b.attempt_n) n st of a rows f.1 (rw there at e)))
  ]

  pub pending-count :
      (rows : List Attempt) → count_status pending rows ≡ 0 → first_pending rows ≡ none
  unfolding first_pending count_status
  pending-count [] h = refl
  pending-count (a ∷ rows) h = ground (arith, pending-count rows)

  pub count-pending :
      (rows : List Attempt) → first_pending rows ≡ none → count_status pending rows ≡ 0
  unfolding first_pending count_status
  count-pending [] h = refl
  count-pending (a ∷ rows) h = ground (arith, count-pending rows)

  pub find-pending :
      (k : ℕ) (a : Attempt) (rows : List Attempt)
      → From k rows
      → first_pending rows ≡ some a
      → (find_attempt a.attempt_n rows ≡ some a) × (a.status ≡ pending) × (k ≤ a.attempt_n)
  unfolding first_pending find_attempt
  find-pending k a [] f h = ground arith
  find-pending k a (b ∷ rows) f h = ground (arith, find-pending (suc b.attempt_n) a rows f.1)

  -- A pending row joins a table with none.
  pub pending-insert :
      (r : Attempt) (rows : List Attempt)
      → r.status ≡ pending
      → first_pending rows ≡ none
      → first_pending (insert_row r rows) ≡ some r
  unfolding first_pending insert_row
  pending-insert r [] p h = ground arith
  pending-insert r (a ∷ rows) p h = ground (arith, pending-insert r rows p)

  -- A row that is not pending changes nothing about which one is.
  pub quiet-insert :
      (r : Attempt) (rows : List Attempt)
      → same_status r.status pending ≡ false
      → first_pending (insert_row r rows) ≡ first_pending rows
  unfolding first_pending insert_row
  quiet-insert r [] q = rw q refl
  quiet-insert r (a ∷ rows) q = ground (arith, quiet-insert r rows)
