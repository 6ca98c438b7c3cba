-- ===== src/League/Seats.antt =====
-- The seats of a game and the games of a batch, one category after the other.
use connect4codex.Prelude.{
  ℕ, zero, suc, ◌+◌, ◌%◌, ◌<◌, ◌≡◌, ◌≢◌, refl, sym, ap, ◌⊎◌, false, none, some, List, [], ◌∷◌,
  length, take, get_elem?, get_or, Elem, ◌==◌, if◌then◌else◌, inl, inr, arith,
}
use connect4codex.Arena.Run.{Request}
use connect4codex.League.Ids.{uniform_model_id, random_model_id, baseline_model_id}
use connect4codex.League.Requests.{game, requests}
use connect4codex.League.Allocation.{occurrences}

-- An opponent of a game in category 1, 2 or 3.
abbrev pub HasOpponent : List ℕ → ℕ → ℕ → ℕ → Type 0
HasOpponent archive k game_id other =
    ((k ≡ 1) × Elem other archive)
    ⊎ ((k ≡ 2) × (baseline_model_id uniform_model_id game_id ≡ some other))
    ⊎ ((k ≡ 3) × (other ≡ random_model_id))

-- A game of category k after n others of it: of the champion alone in category 0, and with an
-- opponent in the others, where the champion is red after an even number and gold after an odd one.
abbrev pub IsSeated : ℕ → List ℕ → ℕ → ℕ → ℕ → Request → Type 0
IsSeated champion archive k n game_id request =
    ((k ≡ 0) × (request ≡ game game_id champion champion))
    ⊎ ((other : ℕ) × (HasOpponent archive k game_id other
          × (((n % 2 ≡ 0) × (request ≡ game game_id champion other))
              ⊎ ((n % 2 ≡ 1) × (request ≡ game game_id other champion)))))

-- The games of the given categories, one for each and numbered in order, where `offsets` counts the
-- games of the categories before them.
abbrev pub IsDeal : ℕ → List ℕ → ℕ → List ℕ → List ℕ → List Request → Type 0
IsDeal champion archive game_id offsets ks requests =
    (length requests ≡ length ks)
    × ((i k : ℕ)
        → get_elem? ks i ≡ some k
        → (request : Request) × ((get_elem? requests i ≡ some request)
            × IsSeated champion archive k (get_or offsets k 0 + occurrences k (take i ks))
                (game_id + i) request))

-- With an equal count, or in category 0, where the count does not matter.
recount :
    (champion : ℕ) (archive : List ℕ) (k n m game_id : ℕ) (request : Request)
    → (k ≡ 0) ⊎ (n ≡ m)
    → IsSeated champion archive k n game_id request
    → IsSeated champion archive k m game_id request
recount champion archive k n m game_id request e (inl own) = inl own
recount champion archive k n m game_id request (inr e) (inr seat) = rw (sym e) (inr seat)
recount champion archive k n m game_id request (inl z) (inr (other, (inl (o, h), seat))) =
    absurd (omega (arith, z, o))
recount champion archive k n m game_id request (inl z) (inr (other, (inr (inl (o, h)), seat))) =
    absurd (omega (arith, z, o))
recount champion archive k n m game_id request (inl z) (inr (other, (inr (inr (o, h)), seat))) =
    absurd (omega (arith, z, o))

pub none≢some_ℕ : (k : ℕ) → none ≢ some k
none≢some_ℕ k e = cc

some-injective : {A : Type 0} {a b : A} → some a ≡ some b → a ≡ b
some-injective {A} {a} {b} e = ap (λ o. elim o [ none ↦ a | some x ↦ x ]) e

pub get_elem?-Elem :
    (xs : List ℕ) (i : ℕ) → i < length xs → (a : ℕ) × ((get_elem? xs i ≡ some a) × Elem a xs)
get_elem?-Elem [] i h = absurd (omega arith)
get_elem?-Elem (x ∷ xs) zero h = (x, (refl, inl refl))
get_elem?-Elem (x ∷ xs) (suc i) h =
    let (a, (e, m)) = get_elem?-Elem xs i (omega arith) in (a, (e, inr m))

pub still : (category k n : ℕ) → category ≡ 0 → (k ≡ 0) ⊎ (n ≡ n + (if category == k then 1 else 0))
still category zero n z = inl refl
still category (suc k) n z =
    let other : (category == suc k) ≡ false = ground arith in inr (rw other (omega arith))

module _ (champion : ℕ) (archive : List ℕ) where
  -- The games of one category more, in front of those dealt already.
  module _ (game_id category : ℕ) (offsets offsets' ks : List ℕ) (request : Request)
      (requests : List Request)
      (step : (k : ℕ)
        → (k ≡ 0) ⊎ (get_or offsets' k 0 ≡ get_or offsets k 0 + (if category == k then 1 else 0)))
      (seat : IsSeated champion archive category (get_or offsets category 0) game_id request)
      (deal : IsDeal champion archive (suc game_id) offsets' ks requests) where
    at :
        (i k : ℕ)
        → get_elem? (category ∷ ks) i ≡ some k
        → (r : Request) × ((get_elem? (request ∷ requests) i ≡ some r)
            × IsSeated champion archive k
                (get_or offsets k 0 + occurrences k (take i (category ∷ ks)))
                (game_id + i)
                r)
    at zero k e =
        let same : category ≡ k = some-injective e in
        let zeroth : game_id + 0 ≡ game_id = omega arith in
        let seat' : IsSeated champion archive k (get_or offsets k 0) game_id request =
          rw (sym same) seat in
        (
          request,
          (
            refl,
            rw zeroth (recount champion archive k _ _ game_id request (inr (omega arith)) seat'),
          ),
        )
    at (suc i) k e =
        let (r, (found, s)) = deal.1 i k e in
        let next : game_id + suc i ≡ suc game_id + i = omega arith in
        let counts : (k ≡ 0)
            ⊎ (get_or offsets' k 0 + occurrences k (take i ks)
                ≡ get_or offsets k 0 + occurrences k (take (suc i) (category ∷ ks))) =
          elim (step k) [ inl z ↦ inl z | inr h ↦ inr (omega (arith, h)) ] in
        (r, (found, rw next (recount champion archive k _ _ (suc game_id + i) r counts s)))

    pub IsDeal-cons : IsDeal champion archive game_id offsets (category ∷ ks) (request ∷ requests)
    IsDeal-cons = (ap suc deal.0, at)
