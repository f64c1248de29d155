-- ===== src/Duration.antt =====
-- The type Duration of util.go: a time span in nanoseconds that is not negative. Parsing and printing
-- belong to package time.
use seth.Prelude.{Bool, ◌≡◌, arith, if◌then◌else◌, holds}
use seth.Prelude.Int.{ℤ, pos, ◌-ℤ◌, ltb_ℤ, ◌≤ℤ◌, ℤ_discrete}
use seth.Prelude.Text.{codes}
use seth.Prelude.Errors.{Error, plain, Result, ok, err}

-- the text of the error, without the duration that ends it
abbrev pub negative_error : Error
negative_error = plain (codes "cannot make negative time duration")

unfoldable pub make_duration : ℤ → Result ℤ
make_duration d = if ltb_ℤ d (pos 0) then err negative_error else ok d

-- an error of MakeDuration panics
unfoldable pub must_make_duration : ℤ → Result ℤ
must_make_duration d = elim (make_duration d) [
  | ok x ↦ ok x
  | err e ↦ Result.panic
  | Result.panic ↦ Result.panic
]

-- the time d before t
unfoldable pub before : ℤ → ℤ → ℤ
before d t = t -ℤ d

unfoldable pub shorter : ℤ → ℤ → Bool
shorter d od = ltb_ℤ d od

unfoldable pub is_instant : ℤ → Bool
is_instant d = holds (ℤ_discrete d (pos 0))

pub must_make_duration_nonneg : (d : ℤ) → pos 0 ≤ℤ d → must_make_duration d ≡ ok d
unfolding must_make_duration make_duration
must_make_duration_nonneg d h = ground arith

pub must_make_duration_neg :
    (d : ℤ) → ltb_ℤ d (pos 0) ≡ Bool.true → must_make_duration d ≡ Result.panic
unfolding must_make_duration make_duration
must_make_duration_neg d h = ground arith
