-- ===== src/Prelude/Samples.antt =====
-- Hundredths, rounded down, in place of floats: the tests run on them.
use Prim.Native.Nat.{ℕ, ◌+◌, ◌-◌, ◌*◌, ◌/◌, ◌%◌, ◌^◌}
use mathlib.Core.Bool.{true}
use connect4codex.Prelude.Tests.{ltb, leb, ◌==◌}
use connect4codex.Prelude.Floating.{Floats}

instance abbrev pub hundredths : Floats
hundredths = record {
  F = ℕ;
  of_ℕ = λ n. 100 * n;
  lit = λ digits places. 100 * digits / 10 ^ places;
  add = λ a b. a + b;
  sub = λ a b. a - b;
  mul = λ a b. a * b / 100;
  div = λ a b. 100 * a / b;
  abs = λ a. a;
  lt = λ a b. ltb a b;
  le = λ a b. leb a b;
  eq = λ a b. a == b;
  is_integer = λ a. a % 100 == 0;
  is_finite = λ a. true;
  ceil = λ a. (a + 99) / 100;
  floor = λ a. a / 100;
  round = λ a. (a + 50) / 100;
}
