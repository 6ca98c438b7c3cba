-- ===== src/Manifest/Artifacts.antt =====
-- `relative_artifact` and `resolve_artifact`: paths as the manifest stores them. `Path.resolve` reads
-- the file system's links, so it is a parameter.
use Prim.Native.String.{String}
use text.Mathlib.Text.{◌==◌ as str_eq}
use connect4codex.Prelude.{
  Bool, true, Option, none, some, List, [], ◌∷◌, ◌++◌, Result, ok, err, exists, if◌then◌else◌,
}

pub record FilePath : Type 0 where
  pub absolute : Bool
  pub parts : List String

pub data PathFault : Type 0 where
  parent_traversal outside_run : PathFault

-- path.relative_to(base), on the parts of two absolute paths
unfoldable pub relative_to : List String → List String → Option (List String)
relative_to [] parts = some parts
relative_to (b ∷ base) [] = none
relative_to (b ∷ base) (p ∷ parts) = if str_eq b p then relative_to base parts else none

-- The parts from the last occurrence of a component on.
unfoldable pub from_last : String → List String → Option (List String)
from_last component [] = none
from_last component (p ∷ parts) = elim (from_last component parts) [
  | some found ↦ some found
  | none ↦ if str_eq p component then some (p ∷ parts) else none
]

unfoldable pub or_else : Option (List String) → Option (List String) → Option (List String)
or_else (some x) y = some x
or_else none y = y

-- The `except` branch: a run that was moved, or a path that is relative already.
unfoldable pub relocated : FilePath → Result PathFault (List String)
unfolding from_last or_else
relocated path = elim (or_else (from_last "attempts" path.parts) (from_last "replay" path.parts)) [
  | some found ↦ ok found
  | none ↦ if path.absolute then err outside_run else ok path.parts
]

-- base_dir / path, or the error of what gave the path
unfoldable pub joined : List String → Result PathFault (List String) → Result PathFault FilePath
joined base_dir (ok found) = ok (record { absolute = true; parts = base_dir ++ found })
joined base_dir (err e) = err e

module _ (resolve : FilePath → List String) where
  unfoldable pub relative_artifact : List String → FilePath → Result PathFault (List String)
  unfolding relative_to relocated
  relative_artifact base_dir path =
      if exists (λ p. str_eq p "..") path.parts
      then err parent_traversal
      else (elim (relative_to base_dir (resolve path)) [
        | some found ↦ ok found
        | none ↦ relocated path
      ])

  unfoldable pub resolve_artifact : List String → FilePath → Result PathFault FilePath
  resolve_artifact base_dir path = joined base_dir (relative_artifact base_dir path)
