-- ===== src/Prelude/Floating.antt =====
-- Python's floats, as far as the program computes with them: a type with its operations. No law is
-- assumed here; a theorem that needs one has it as a hypothesis.
use Prim.Native.Nat.{ℕ}
use mathlib.Core.Bool.{Bool}

pub record Floats : Type 1 where
  pub F : Type 0
  pub of_ℕ : ℕ → F
  -- the literal with these digits and so many of them behind the point
  pub lit : ℕ → ℕ → F
  pub add : F → F → F
  pub sub : F → F → F
  pub mul : F → F → F
  pub div : F → F → F
  pub abs : F → F
  pub lt : F → F → Bool
  pub le : F → F → Bool
  pub eq : F → F → Bool
  pub is_integer : F → Bool
  -- neither NaN nor an infinity
  pub is_finite : F → Bool
  -- `math.ceil`, `math.floor` and `round`, of a value that is not negative
  pub ceil : F → ℕ
  pub floor : F → ℕ
  pub round : F → ℕ
