-- ===== src/Manifest/Paths.antt =====
-- A stored path reads back as itself.
use Prim.Native.String.{String}
use text.Mathlib.Text.{◌==◌ as str_eq}
use text.Mathlib.TextEquality.{eq_iff}
use connect4codex.Prelude.{
  ◌≡◌, refl, Bool, true, false, Option, none, some, List, [], ◌∷◌, ◌++◌, ok, err, exists,
  if◌then◌else◌, arith, ◌⊎◌, Bool-cases, Option-cases, inl, inr,
}
use connect4codex.Manifest.Artifacts.{
  FilePath, parent_traversal, outside_run, relative_to, from_last, or_else, relocated,
  relative_artifact, resolve_artifact, joined,
}

-- No part is "..".
abbrev pub IsPlain : List String → Type 0
IsPlain parts = exists (λ p. str_eq p "..") parts ≡ false

exists_off :
    (p : String → Bool) (x : String) (xs : List String)
    → exists p (x ∷ xs) ≡ false
    → (p x ≡ false) × (exists p xs ≡ false)
exists_off p x xs h = ground arith

exists_cons :
    (p : String → Bool) (x : String) (xs : List String)
    → p x ≡ false
    → exists p xs ≡ false
    → exists p (x ∷ xs) ≡ false
exists_cons p x xs h k = ground arith

IsPlain-append : (xs ys : List String) → IsPlain xs → IsPlain ys → IsPlain (xs ++ ys)
IsPlain-append [] ys h k = k
IsPlain-append (x ∷ xs) ys h k =
    let dots = λ (p : String). str_eq p ".." in
    let (one, rest) = exists_off dots x xs h in
    exists_cons dots x (xs ++ ys) one (IsPlain-append xs ys rest k)

IsPlain-tail : (x : String) (xs : List String) → IsPlain (x ∷ xs) → IsPlain xs
IsPlain-tail x xs h = (exists_off (λ p. str_eq p "..") x xs h).1

relative_to-append : (base rel : List String) → relative_to base (base ++ rel) ≡ some rel
unfolding relative_to
relative_to-append [] rel = refl
relative_to-append (b ∷ base) rel =
    let same : str_eq b b ≡ true = (eq_iff b b).1 refl in rw same (relative_to-append base rel)

relative_to-IsPlain :
    (base parts rel : List String) → relative_to base parts ≡ some rel → IsPlain parts → IsPlain rel
unfolding relative_to
relative_to-IsPlain [] parts rel e h =
    let same : some parts ≡ some rel = e in ground (arith, same, h)
relative_to-IsPlain (b ∷ base) [] rel e h = ground arith
relative_to-IsPlain (b ∷ base) (p ∷ parts) rel e h = elim (Bool-cases (str_eq b p)) [
  | inl q ↦ relative_to-IsPlain base parts rel (rw q at e) (IsPlain-tail p parts h)
  | inr q ↦ let bad : none ≡ some rel = rw q at e in ground arith
]

from_last-IsPlain :
    (component : String) (parts found : List String)
    → from_last component parts ≡ some found
    → IsPlain parts
    → IsPlain found
unfolding from_last
from_last-IsPlain component [] found e h = ground arith
from_last-IsPlain component (p ∷ parts) found e h =
    elim (Option-cases (from_last component parts)) [
      | inr (later, q) ↦
          let e' : some later ≡ some found = rw (q, from_last) at e in
          let k = from_last-IsPlain component parts later q (IsPlain-tail p parts h) in
          ground (arith, e', k)
      | inl q ↦ elim (Bool-cases (str_eq p component)) [
        | inl here ↦
            let e' : some (p ∷ parts) ≡ some found = rw (q, here, from_last) at e in
            ground (arith, e', h)
        | inr there ↦ let bad : none ≡ some found = rw (q, there, from_last) at e in ground arith
      ]
    ]

or_else-cases :
    (x y : Option (List String)) (found : List String)
    → or_else x y ≡ some found
    → (x ≡ some found) ⊎ (y ≡ some found)
unfolding or_else
or_else-cases (some x) y found e = inl e
or_else-cases none y found e = inr e

relocated-IsPlain :
    (path : FilePath) (rel : List String)
    → relocated path ≡ ok rel
    → IsPlain path.parts
    → IsPlain rel
unfolding relocated
relocated-IsPlain path rel e h =
    elim (Option-cases
      (or_else (from_last "attempts" path.parts) (from_last "replay" path.parts))) [
        | inr (found, q) ↦
            let same : ok found ≡ ok rel = rw (relocated, q) at e in
            let k : IsPlain found = elim (or_else-cases _ _ found q) [
              | inl a ↦ from_last-IsPlain "attempts" path.parts found a h
              | inr r ↦ from_last-IsPlain "replay" path.parts found r h
            ] in
            ground (arith, same, k)
        | inl q ↦
            let unfound : (if path.absolute then err outside_run else ok path.parts) ≡ ok rel =
              rw (relocated, q) at e in
            elim (Bool-cases path.absolute) [
              | inl rooted ↦
                  let bad : err outside_run ≡ ok rel = rw rooted at unfound in ground arith
              | inr loose ↦
                  let same : ok path.parts ≡ ok rel = rw loose at unfound in ground (arith, same, h)
            ]
      ]

module _ (resolve : FilePath → List String) (base_dir : List String) (base_plain : IsPlain base_dir)
    (resolved_plain : (p : FilePath) → IsPlain (resolve p))
    (inside : (parts : List String)
      → IsPlain parts
      → resolve (record { absolute = true; parts = base_dir ++ parts }) ≡ base_dir ++ parts) where
  relative_artifact-IsPlain :
      (path : FilePath) (rel : List String)
      → relative_artifact resolve base_dir path ≡ ok rel
      → IsPlain rel
  unfolding relative_artifact
  relative_artifact-IsPlain path rel e =
      elim (Bool-cases (exists (λ p. str_eq p "..") path.parts)) [
        | inl dots ↦ let bad : err parent_traversal ≡ ok rel = rw dots at e in ground arith
        | inr plain ↦ elim (Option-cases (relative_to base_dir (resolve path))) [
          | inr (found, q) ↦
              let same : ok found ≡ ok rel = rw (plain, q) at e in
              let k = relative_to-IsPlain base_dir (resolve path) found q (resolved_plain path) in
              ground (arith, same, k)
          | inl q ↦ relocated-IsPlain path rel (rw (plain, q) at e) plain
        ]
      ]

  relative_artifact-inside :
      (rel : List String)
      → IsPlain rel
      → relative_artifact resolve base_dir (record { absolute = true; parts = base_dir ++ rel })
        ≡ ok rel
  unfolding relative_artifact
  relative_artifact-inside rel h =
      rw (IsPlain-append base_dir rel base_plain h, inside rel h, relative_to-append base_dir rel)
        refl

  -- In a run's folder whose resolved path has no "..", with no links inside, and where resolved paths
  -- have no "..": if a path has a form to store, that form has no ".." either, the path resolves to
  -- the folder followed by it, and what it resolves to has the same form and resolves to itself.
  pub relative_artifact-resolve_artifact :
      (path : FilePath) (rel : List String)
      → relative_artifact resolve base_dir path ≡ ok rel
      → IsPlain rel
        × ((q : FilePath) × (q.parts ≡ base_dir ++ rel)
            × (resolve_artifact resolve base_dir path ≡ ok q)
            × (relative_artifact resolve base_dir q ≡ ok rel)
            × (resolve_artifact resolve base_dir q ≡ ok q))
  unfolding resolve_artifact joined
  relative_artifact-resolve_artifact path rel e =
      let h = relative_artifact-IsPlain path rel e in
      let again = relative_artifact-inside rel h in
      (
        h,
        (
          record { absolute = true; parts = base_dir ++ rel },
          refl,
          rw e refl,
          again,
          rw again refl,
        ),
      )
