-- ===== src/Common/Fixed.antt =====
-- An arithmetic in which the tests run: thousandths, never negative. It stands for no machine.
use disguise.Common.Floats.{Floats}
use disguise.Common.Int.{pos}
use disguise.Common.Tests.{ltb, leb, ◌==◌}
use Prim.Native.Nat.{ℕ, ◌+◌, ◌-◌, ◌*◌, ◌/◌, ◌^◌, max as nat_max}

instance abbrev pub fixed : Floats
fixed = record {
  Float = ℕ;
  constant = λ n d. n * 1000 / 10 ^ d;
  of_int = λ n. n * 1000;
  to_int = λ x. pos (x / 1000);
  add = λ x y. x + y;
  sub = λ x y. x - y;
  mul = λ x y. x * y / 1000;
  div = λ x y. x * 1000 / y;
  max = λ x y. nat_max x y;
  pow = λ x y. x;
  log = λ x. x;
  most_negative = 0;
  eq = λ x y. x == y;
  lt = ltb;
  le = leb;
}
