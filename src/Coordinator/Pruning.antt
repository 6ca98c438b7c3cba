-- ===== src/Coordinator/Pruning.antt =====
-- Whose weights `_prune_rejected` deletes.
use connect4codex.Prelude.{
  ℕ, zero, suc, ◌≤◌, ◌<◌, ◌≡◌, ◌≢◌, ◌↔◌, refl, sym, ap, ◌∙◌, Bool, true, false, not, ltb, Option,
  none, some, List, [], ◌∷◌, map, take, Floats, keep_if, keep, leave, exists, ◌==◌, Elem,
  keep_if-Elem, map-Elem, reverse-Elem, Elem-keep_if, Elem-map, Elem-reverse, length,
  length-keep_if-reverse, Bool-cases, inl, inr, arith,
}
use mathlib.Core.Path.{subst}
use mathlib.Core.List.{reverse, reverse_aux}
use connect4codex.Manifest.Tables.{
  Artifact, Attempt, Status, accepted, pending, rejected, interrupted, same_status, Manifest,
}
use connect4codex.Manifest.Rows.{From, From-mono}
use connect4codex.Coordinator.Learner.{prune_rejected, with_preserved}

is_rejected : (s : Status) → (same_status s rejected ≡ true) ↔ (s ≡ rejected)
is_rejected accepted = (λ h. cc, λ h. cc)
is_rejected pending = (λ h. cc, λ h. cc)
is_rejected rejected = (λ h. refl, λ h. refl)
is_rejected interrupted = (λ h. cc, λ h. cc)

-- The numbers that are kept, and a number beside them.
module _ (k : ℕ) where
  abbrev free : List ℕ → Bool
  free ns = not (exists (λ j. j == k) ns)

  free_cons : (n : ℕ) (ns : List ℕ) → (n == k) ≡ false → free (n ∷ ns) ≡ free ns
  free_cons n ns h = ap (λ b. not (elim b [ true ↦ true | false ↦ exists (λ j. j == k) ns ])) h

  not_free : (n : ℕ) (ns : List ℕ) → n ≡ k → free (n ∷ ns) ≡ true → ⊥
  not_free n ns e h = ground arith

some_same : (n k : ℕ) → some n ≡ some k → n ≡ k
some_same n k e = cc

module _ ⦃fl : Floats⦄ where
  free_preserved :
      (k : ℕ) (preserve : Option ℕ) (ns : List ℕ)
      → (free k (with_preserved preserve ns) ≡ true) ↔ ((preserve ≢ some k) × (free k ns ≡ true))
  free_preserved k none ns = (λ h. (λ e. cc, h), λ h. h.1)
  free_preserved k (some n) ns = (
    λ h.
        let other : n ≢ k = λ e. not_free k n ns e h in
        let unlike : (n == k) ≡ false = ground arith in
        (λ e. other (some_same n k e), sym (free_cons k n ns unlike) ∙ h),
    λ h.
        let other : n ≢ k = λ e. h.0 (ap some e) in
        let unlike : (n == k) ≡ false = ground arith in free_cons k n ns unlike ∙ h.1,
  )

  abbrev Falling : List Attempt → Type 0
  Falling [] = Unit
  Falling (a ∷ rows) = ((b : Attempt) → Elem b rows → b.attempt_n < a.attempt_n) × Falling rows

  keep_if-From :
      (p : Attempt → Bool) (k : ℕ) (rows : List Attempt) → From k rows → From k (keep_if p rows)
  keep_if-From p k [] f = tt
  keep_if-From p k (a ∷ rows) (h, f) = elim (Bool-cases (p a)) [
    | inl e ↦
        subst (λ xs. From k xs) (sym (keep p a rows e)) (h, keep_if-From p (suc a.attempt_n) rows f)
    | inr e ↦
        subst (λ xs. From k xs) (sym (leave p a rows e))
          (From-mono k (suc a.attempt_n) (keep_if p rows) (omega arith)
            (keep_if-From p (suc a.attempt_n) rows f))
  ]

  reverse_aux-Falling :
      (k : ℕ) (rows acc : List Attempt)
      → From k rows
      → Falling acc
      → ((b : Attempt) → Elem b acc → b.attempt_n < k)
      → Falling (reverse_aux rows acc)
  reverse_aux-Falling k [] acc f g below = g
  reverse_aux-Falling k (a ∷ rows) acc (h, f) g below =
      reverse_aux-Falling (suc a.attempt_n) rows (a ∷ acc) f
        ((λ b e. let low = below b e in omega arith), g)
        λ b e. elim e [
          | inl same ↦ let eq = ap (λ (x : Attempt). x.attempt_n) same in omega arith
          | inr old ↦ let low = below b old in omega arith
        ]

  -- Of falling rows the first `count` are those with less than `count` above them.
  module _ (a : Attempt) where
    abbrev above : List Attempt → List Attempt
    above rows = keep_if (λ (b : Attempt). ltb a.attempt_n b.attempt_n) rows

    abbrev first_numbers : ℕ → List Attempt → List ℕ
    first_numbers count rows = map (λ (b : Attempt). b.attempt_n) (take count rows)

    none_above :
        (rows : List Attempt)
        → ((b : Attempt) → Elem b rows → b.attempt_n ≤ a.attempt_n)
        → length (above rows) ≡ 0
    none_above [] h = refl
    none_above (b ∷ rows) h =
        let low = h b (inl refl) in
        let no : ltb a.attempt_n b.attempt_n ≡ false = ground arith in
        ap length (leave _ b rows no) ∙ none_above rows (λ x e. h x (inr e))

    free-above :
        (count : ℕ) (rows : List Attempt)
        → Falling rows
        → Elem a rows
        → free a.attempt_n (first_numbers count rows) ≡ true
        → count ≤ length (above rows)
    free-above zero rows f e h = omega arith
    free-above (suc count) [] f e h = absurd e
    free-above (suc count) (b ∷ rows) f (inl same) h =
        let eq = ap (λ (x : Attempt). x.attempt_n) same in
        absurd (not_free a.attempt_n b.attempt_n _ (sym eq) h)
    free-above (suc count) (b ∷ rows) f (inr later) h =
        let low = f.0 a later in
        let up : ltb a.attempt_n b.attempt_n ≡ true = ground arith in
        let other : (b.attempt_n == a.attempt_n) ≡ false = ground arith in
        let rest =
          free-above count rows f.1 later (sym (free_cons a.attempt_n b.attempt_n _ other) ∙ h) in
        let more = ap length (keep (λ (x : Attempt). ltb a.attempt_n x.attempt_n) b rows up) in
        omega arith

    above-free :
        (count : ℕ) (rows : List Attempt)
        → Falling rows
        → Elem a rows
        → count ≤ length (above rows)
        → free a.attempt_n (first_numbers count rows) ≡ true
    above-free zero rows f e h = refl
    above-free (suc count) [] f e h = absurd e
    above-free (suc count) (b ∷ rows) f (inl same) h =
        let eq = ap (λ (x : Attempt). x.attempt_n) same in
        let nothing = none_above (b ∷ rows) λ x e. elim e [
          | inl first ↦ let also = ap (λ (y : Attempt). y.attempt_n) first in omega arith
          | inr later ↦ let low = f.0 x later in omega arith
        ] in
        absurd (omega arith)
    above-free (suc count) (b ∷ rows) f (inr later) h =
        let low = f.0 a later in
        let up : ltb a.attempt_n b.attempt_n ≡ true = ground arith in
        let other : (b.attempt_n == a.attempt_n) ≡ false = ground arith in
        let more = ap length (keep (λ (x : Attempt). ltb a.attempt_n x.attempt_n) b rows up) in
        free_cons a.attempt_n b.attempt_n _ other ∙ above-free count rows f.1 later (omega arith)

  abbrev with_status : Manifest → List Attempt
  with_status m = keep_if (λ (a : Attempt). same_status a.status rejected) m.attempts

  -- A rejected attempt that is not preserved and has `retention` rejected ones after it.
  abbrev pub IsStale : ℕ → Option ℕ → Manifest → Attempt → Type 0
  IsStale retention preserve m a =
      Elem a m.attempts
      × (a.status ≡ rejected)
      × (preserve ≢ some a.attempt_n)
      × (retention ≤ length (above a (with_status m)))

  -- The weights of just these attempts.
  abbrev pub AreStale : ℕ → Option ℕ → Manifest → List Artifact → Type 0
  AreStale retention preserve m removed =
      (path : Artifact)
      → Elem path removed
        ↔ ((a : Attempt) × (IsStale retention preserve m a × (a.checkpoint_path ≡ path)))

  module _ (retention : ℕ) (preserve : Option ℕ) (m : Manifest) (rising : From 0 m.attempts) where
    newest_first : Falling (reverse (with_status m))
    newest_first =
        reverse_aux-Falling 0 (with_status m) [] (keep_if-From _ 0 m.attempts rising) tt
          (λ b e. absurd e)

    after_it :
        (a : Attempt)
        → length (above a (reverse (with_status m))) ≡ length (above a (with_status m))
    after_it a = length-keep_if-reverse _ (with_status m)

    removed-IsStale :
        (path : Artifact)
        → Elem path (prune_rejected retention preserve m)
        → (a : Attempt) × (IsStale retention preserve m a × (a.checkpoint_path ≡ path))
    unfolding prune_rejected
    removed-IsStale path e =
        let (a, (left_over, same)) = map-Elem _ path _ e in
        let (found, open_now) = keep_if-Elem _ a _ left_over in
        let (there, status) = keep_if-Elem _ a _ (reverse-Elem a _ found) in
        let (other, unlisted) = (free_preserved a.attempt_n preserve _).0 open_now in
        let count = free-above a retention _ newest_first found unlisted in
        (a, ((there, (is_rejected _).0 status, other, rw (sym (after_it a)) count), same))

    IsStale-removed :
        (a : Attempt)
        → IsStale retention preserve m a
        → Elem a.checkpoint_path (prune_rejected retention preserve m)
    unfolding prune_rejected
    IsStale-removed a (there, status, other, count) =
        let listed = Elem-reverse a _ (
          Elem-keep_if (λ (b : Attempt). same_status b.status rejected) a m.attempts there
            ((is_rejected _).1 status)) in
        let unlisted = above-free a retention _ newest_first listed (rw (after_it a) count) in
        Elem-map (λ (b : Attempt). b.checkpoint_path) a _
          (Elem-keep_if _ a _ listed ((free_preserved a.attempt_n preserve _).1 (other, unlisted)))

    pub prune_rejected-AreStale :
        AreStale retention preserve m (prune_rejected retention preserve m)
    prune_rejected-AreStale path = (
      removed-IsStale path,
      λ (a, (stale, same)).
          subst (λ p. Elem p (prune_rejected retention preserve m)) same (IsStale-removed a stale),
    )
