-- ===== src/Tests/Floats.antt =====
-- Floats with two decimals and a coarse logarithm, at which the theorems on fees are applied.
use seth.Prelude.{
  ℕ, ◌+◌, ◌-◌, ◌*◌, ◌/◌, ◌≤◌, ◌<◌, List, [], ◌∷◌, arith, ltb, leb, ◌==◌, if◌then◌else◌, length,
  get_elem?, none, some,
}
use seth.Prelude.Int.{ℤ, pos, negsuc}
use seth.Prelude.Text.{codes}
use seth.Prelude.Errors.{Result, ok, err, plain}
use seth.GasAdjuster.Floats.{FloatLib, StatsLib, Rounds, Ordered}

abbrev scaled : ℤ → ℕ
scaled (pos n) = 100 * n
scaled (negsuc n) = 0

abbrev scaled_product : ℤ → ℕ → ℤ
scaled_product (pos n) f = pos (n * f / 100)
scaled_product (negsuc n) f = pos 0

abbrev pub cents : FloatLib
cents = record {
  Float = ℕ;
  of_int = scaled;
  to_int = λ x. pos (x / 100);
  hundredths = λ n. n;
  add = ◌+◌;
  sub = ◌-◌;
  mul = λ a b. a * b / 100;
  div = λ a b. a * 100 / b;
  log10 = λ x. if ltb x 10_000 then 100 else 200;
  floor = λ x. pos (x / 100);
  ceil = λ x. pos ((x + 99) / 100);
  lt = ltb;
  le = leb;
  eq = ◌==◌;
  times = λ a b. pos (a * b / 10_000);
  times_int = scaled_product;
}

pub share_le : (a b : ℕ) → a ≤ b → 0 < b → a * 100 / b ≤ 100
share_le a b h p = grind arith

pub product_le : (a b : ℕ) → a ≤ 100 → a * b / 100 ≤ b
product_le a b h = grind arith

pub cents-Rounds : Rounds cents
cents-Rounds = record {
  of_int_mono = λ m n h. ground arith;
  eq_zero = λ n p h. ground arith;
  add_mono = λ a b c d h g. ground arith;
  add_one = λ n a b h g k. ground arith;
  mul_share = λ a b h g. ground (arith, product_le a b);
  div_share = λ n a b h g k e. ground (arith, share_le a b);
  div_words = λ a b h p w. ground (arith, share_le (100 * a) (100 * b));
  div_log = λ n h. ground (arith);
}

pub cents-Ordered : Ordered cents
cents-Ordered = record {
  le_trans = λ a b c h g. ground arith;
  le_lt_trans = λ a b c h g. ground arith;
}

abbrev largest : List ℕ → ℕ
largest [] = 0
largest (x ∷ xs) = if leb (largest xs) x then x else largest xs

abbrev pub empty_error : Result ℕ
empty_error = err (plain (codes "Input must not be empty."))

-- the percentile of a sorted list
abbrev pub cents_stats : StatsLib cents
cents_stats = record {
  max = λ fa. if length fa == 0 then empty_error else ok (largest fa);
  percentile =
      λ fa p. elim (get_elem? fa (p * length fa / 101)) [ none ↦ empty_error | some x ↦ ok x ];
}
