-- ===== src/Tests/Pragma.antt =====
-- Compiler versions in concrete bytecodes.
use seth.Prelude.{◌≡◌, refl, [], ◌++◌}
use seth.Prelude.Text.{codes, text_dec, contains, has_prefix}
use seth.Prelude.Words.{hex_digit, hex_digits, hex_number}
use seth.Prelude.Errors.{Result, ok, err}
use seth.Pragma.{
  Pragma, not_found_error, slice, number_of, version_of, with_metadata, with_length,
  decode_pragma_version, does_pragma_support_custom_revert,
}
use seth.Pragma.Decoded.{bytecode, decode_pragma_version-bytecode}

program : Unit {0}
unfolding text_dec contains has_prefix hex_digit hex_digits hex_number slice number_of version_of
    with_metadata with_length decode_pragma_version does_pragma_support_custom_revert
program = tt

-- Version 0.8.19.
abbrev version : Pragma
version = record { minor = 8; major = 0; patch = 19 }

decode_pragma_version-bytecode_example :
    decode_pragma_version (
      bytecode
        (codes "6080")
        (codes "64736f6c6343")
        (codes "00" ++ (codes "08" ++ codes "13"))
        (codes "0009"))
    ≡ ok version
unfolding program
decode_pragma_version-bytecode_example =
    decode_pragma_version-bytecode (codes "6080") (codes "64736f6c6343") (codes "00") (codes "08")
      (codes "13") (codes "0009") 9 0 8 19 refl refl refl refl refl refl refl refl refl refl

no_metadata : decode_pragma_version (codes "6080ffff") ≡ err not_found_error
unfolding program
no_metadata = refl

-- An address without code has the empty bytecode.
empty_code : decode_pragma_version [] ≡ Result.panic
unfolding program
empty_code = refl
