-- ===== src/Prelude/Words.antt =====
-- Go's 64-bit integers: a `uint64` is a number below 2 ^ 64, an `int64` or `int` an integer in two's
-- complement.
use Prim.Native.Nat.{ℕ, ◌+◌, ◌-◌, ◌%◌, ◌^◌, ◌<◌, ◌*◌}
use mathlib.Core.Path.{◌≡◌}
use mathlib.Core.Bool.{◌&&◌}
use mathlib.Core.List.{List, [], ◌∷◌}
use mathlib.Core.Option.{Option, none, some}
use native.Mathlib.Omega.{arith}
use seth.Prelude.Tests.{ltb, leb, ◌==◌, if◌then◌else◌}
use seth.Prelude.Int.{ℤ, pos, negsuc, ◌-ℤ◌}

abbrev pub two63 : ℕ
two63 = 2 ^ 63

abbrev pub two64 : ℕ
two64 = 2 ^ 64

-- the conversion uint64(n) of a number
unfoldable pub uint64 : ℕ → ℕ
uint64 n = n % two64

-- the conversion int64(w) of a word
unfoldable pub int64_of_word : ℕ → ℤ
int64_of_word w = if ltb w two63 then pos w else negsuc (two64 - 1 - w)

-- the conversion uint64(i), and the low 64 bits of an integer
unfoldable pub uint64_of_int : ℤ → ℕ
uint64_of_int (pos n) = n % two64
uint64_of_int (negsuc n) = two64 - 1 - n % two64

-- an integer brought back into the range of int64
unfoldable pub int64 : ℤ → ℤ
unfolding int64_of_word uint64_of_int
int64 i = int64_of_word (uint64_of_int i)

-- a - b of two uint64
unfoldable pub sub64 : ℕ → ℕ → ℕ
sub64 a b = (a + two64 - b) % two64

unfoldable pub add64 : ℕ → ℕ → ℕ
add64 a b = (a + b) % two64

-- A number of the range converts to itself.
pub int64_pos : (n : ℕ) → n < two63 → int64 (pos n) ≡ pos n
unfolding int64
int64_pos n h = ground arith

pub int64_of_word_pos : (n : ℕ) → n < two63 → int64_of_word n ≡ pos n
unfolding int64_of_word
int64_of_word_pos n h = ground arith

-- the value of a hexadecimal digit
unfoldable pub hex_digit : ℕ → Option ℕ
hex_digit c =
    if leb b'0' c && leb c b'9'
    then some (c - 48)
    else (if leb b'a' c && leb c b'f'
        then some (c - 87)
        else (if leb b'A' c && leb c b'F' then some (c - 55) else none))

unfoldable pub hex_digits : List ℕ → ℕ → Option ℕ
unfolding hex_digit
hex_digits [] n = some n
hex_digits (c ∷ cs) n = elim (hex_digit c) [ none ↦ none | some d ↦ hex_digits cs (16 * n + d) ]

-- a number without a sign, which has a digit
unfoldable pub hex_number : List ℕ → Option ℕ
unfolding hex_digits
hex_number [] = none
hex_number (c ∷ cs) = hex_digits (c ∷ cs) 0

unfoldable pub positive : Option ℕ → Option ℤ
positive none = none
positive (some n) = if ltb n two63 then some (pos n) else none

unfoldable pub negative : Option ℕ → Option ℤ
negative none = none
negative (some n) = if ltb two63 n then none else some (pos 0 -ℤ pos n)

-- strconv.ParseInt(s, 16, 64), `none` for its error
unfoldable pub parse_hex_int : List ℕ → Option ℤ
unfolding positive negative hex_number
parse_hex_int [] = none
parse_hex_int (c ∷ cs) =
    if c == b'-'
    then negative (hex_number cs)
    else (if c == b'+' then positive (hex_number cs) else positive (hex_number (c ∷ cs)))
