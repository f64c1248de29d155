-- ===== src/Pragma.antt =====
-- The compiler version in a contract's bytecode: DecodePragmaVersion and DoesPragmaSupportCustomRevert
-- of util.go. The bytecode is its hexadecimal text.
pub mod Decoded
use seth.Prelude.{
  ℕ, ◌-◌, ◌*◌, Bool, not, ◌&&◌, ◌||◌, Option, none, some, length, take, drop, if◌then◌else◌, ltb,
  leb, ◌==◌,
}
use seth.Prelude.Text.{Text, codes, ◌==ₜ◌, contains}
use seth.Prelude.Words.{hex_digits, hex_number}
use seth.Prelude.Errors.{Error, plain, Result, ok, err, ◌>>=◌}

pub record Pragma : Type 0 where
  pub minor : ℕ
  pub major : ℕ
  pub patch : ℕ

abbrev pub length_error : Error
length_error = plain (codes "failed to decode metadata length")

abbrev pub not_found_error : Error
not_found_error = plain (codes "metadata section not found")

abbrev pub invalid_length_error : Error
invalid_length_error = plain (codes "invalid metadata length")

abbrev pub not_solc_error : Error
not_solc_error = plain (codes "not compiled with solc")

abbrev pub metadata_error : Error
metadata_error = plain (codes "failed to decode metadata")

-- the byte fe, and the text solc, in hexadecimal
abbrev pub metadata_marker : Text
metadata_marker = codes "fe"

abbrev pub solc_marker : Text
solc_marker = codes "736f6c63"

-- bytecode[a:b], inside the bytecode
unfoldable pub slice : Text → ℕ → ℕ → Text
slice s a b = take (b - a) (drop a s)

unfoldable pub number_of : Text → Result ℕ
number_of s = elim (hex_number s) [ none ↦ err metadata_error | some n ↦ ok n ]

unfoldable pub version_of : Text → Result Pragma
version_of s = do
  major ← number_of (slice s 0 2)
  minor ← number_of (slice s 2 4)
  patch ← number_of (slice s 4 6)
  ok (record { minor = minor; major = major; patch = patch })

-- the metadata from `start` to `stop`, `n` characters long
unfoldable pub with_metadata : Text → ℕ → ℕ → ℕ → Result Pragma
with_metadata s start stop n =
    if not (length (slice s start stop) == n)
    then err invalid_length_error
    else (if ltb start 2
        then Result.panic
        else (if not (slice s (start - 2) start ==ₜ metadata_marker)
            then err not_found_error
            else (if not (contains (slice s start stop) solc_marker)
                then err not_solc_error
                else (if ltb stop 6 then Result.panic else version_of (slice s (stop - 6) stop)))))

-- after the length of the metadata, in bytes
unfoldable pub with_length : Text → ℕ → Option ℕ → Result Pragma
with_length s stop none = err length_error
with_length s stop (some n) =
    if ltb (length s) (n * 2)
    then err not_found_error
    else (if ltb stop (n * 2) then Result.panic else with_metadata s (stop - n * 2) stop (n * 2))

unfoldable pub decode_pragma_version : Text → Result Pragma
decode_pragma_version s =
    if ltb (length s) 4
    then Result.panic
    else with_length s (length s - 4) (hex_digits (drop (length s - 4) s) 0)

unfoldable pub does_pragma_support_custom_revert : Pragma → Bool
does_pragma_support_custom_revert p =
    ltb 8 p.minor || (p.minor == 8 && leb 4 p.patch) || ltb 0 p.major
