-- ===== src/GasAdjuster/Floats.antt =====
-- Go's float64, with the functions of packages math, math/big and montanaflynn/stats that
-- gas_adjuster.go and gas.go call on it: a parameter.
use seth.Prelude.{ℕ, ◌+◌, ◌≤◌, ◌<◌, ◌^◌, ◌≡◌, Bool, true, false, List}
use seth.Prelude.Int.{ℤ, pos}
use seth.Prelude.Errors.{Result}

-- `of_int` and `to_int` are the conversions float64(n) and int64(f), `hundredths n` is the constant
-- n / 100, and `floor` and `ceil` are converted to an int. `times` and `times_int` are the product of two
-- floats, or of an integer and a float, as big.Float, cut down to an integer by Int.
pub record FloatLib : Type 1 where
  pub Float : Type 0
  pub of_int : ℤ → Float
  pub to_int : Float → ℤ
  pub hundredths : ℕ → Float
  pub add : Float → Float → Float
  pub sub : Float → Float → Float
  pub mul : Float → Float → Float
  pub div : Float → Float → Float
  pub log10 : Float → Float
  pub floor : Float → ℤ
  pub ceil : Float → ℤ
  pub lt : Float → Float → Bool
  pub le : Float → Float → Bool
  pub eq : Float → Float → Bool
  pub times : Float → Float → ℤ
  pub times_int : ℤ → Float → ℤ

-- stats.Max and stats.Percentile
pub record StatsLib (lib : FloatLib) : Type 0 where
  pub max : List lib.Float → Result lib.Float
  pub percentile : List lib.Float → ℕ → Result lib.Float

-- 0 ≤ a ≤ b
abbrev pub Within : (lib : FloatLib) → lib.Float → lib.Float → Type 0
Within lib a b = (lib.le (lib.of_int (pos 0)) a ≡ true) × (lib.le a b ≡ true)

-- What rounding to the nearest float gives for numbers that are finite and not negative: it keeps the
-- order, and whole numbers below 2 ^ 53 are exact.
pub record Rounds (lib : FloatLib) : Type 0 where
  pub of_int_mono : (m n : ℕ) → m ≤ n → Within lib (lib.of_int (pos m)) (lib.of_int (pos n))
  pub eq_zero :
      (n : ℕ) → 0 < n → n < 2 ^ 53 → lib.eq (lib.of_int (pos n)) (lib.of_int (pos 0)) ≡ false
  pub add_mono :
      (a b c d : lib.Float)
      → Within lib a b
      → Within lib c d
      → Within lib (lib.add a c) (lib.add b d)
  pub add_one :
      (n : ℕ) (a b : lib.Float)
      → n + 1 < 2 ^ 53
      → Within lib a (lib.of_int (pos n))
      → Within lib b (lib.of_int (pos 1))
      → Within lib (lib.add a b) (lib.of_int (pos (n + 1)))
  pub mul_share :
      (a b : lib.Float)
      → Within lib a (lib.of_int (pos 1))
      → Within lib b (lib.of_int (pos 1))
      → Within lib (lib.mul a b) b
  pub div_share :
      (n : ℕ) (a b : lib.Float)
      → n < 2 ^ 53
      → Within lib a b
      → Within lib b (lib.of_int (pos n))
      → lib.eq b (lib.of_int (pos 0)) ≡ false
      → Within lib (lib.div a b) (lib.of_int (pos 1))
  pub div_words :
      (a b : ℕ)
      → a ≤ b
      → 0 < b
      → b < 2 ^ 64
      → Within lib (lib.div (lib.of_int (pos a)) (lib.of_int (pos b))) (lib.of_int (pos 1))
  -- the decimal logarithm of 10 and more is at least 1
  pub div_log :
      (n : ℕ)
      → n < 2 ^ 53
      → Within lib
          (lib.div
            (lib.of_int (pos 1))
            (lib.log10 (lib.add (lib.of_int (pos n)) (lib.of_int (pos 10)))))
          (lib.of_int (pos 1))

-- The order of the floats that are not NaN.
pub record Ordered (lib : FloatLib) : Type 0 where
  pub le_trans : (a b c : lib.Float) → lib.le a b ≡ true → lib.le b c ≡ true → lib.le a c ≡ true
  pub le_lt_trans : (a b c : lib.Float) → lib.le a b ≡ true → lib.lt b c ≡ true → lib.lt a c ≡ true
