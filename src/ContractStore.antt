-- ===== src/ContractStore.antt =====
-- contract_store.go: the ABIs and bytecodes by file name. The mutex is not modelled: each operation
-- holds it from start to end. What an ABI is, `abi.JSON` and `common.FromHex` belong to go-ethereum
-- and are parameters.
pub mod Names
pub mod Load
use seth.Prelude.{ℕ, Option, none, some, List, [], ◌∷◌, ◌++◌, if◌then◌else◌}
use seth.Prelude.Text.{Text, codes, text_dec, ◌==ₜ◌, has_suffix}
use seth.Prelude.Errors.{Result, ok, ◌>>=◌, wrap_err}
use seth.Prelude.Map.{Map, lookup, insert}
use seth.ContractMap.{abi_suffix}

abbrev pub bin_suffix : Text
bin_suffix = codes ".bin"

abbrev pub err_open_abi_file : Text
err_open_abi_file = codes "failed to open ABI file"

abbrev pub err_parse_abi : Text
err_parse_abi = codes "failed to parse ABI file"

abbrev pub err_open_bin_file : Text
err_open_bin_file = codes "failed to open BIN file"

-- `if !strings.HasSuffix(name, suffix) { name = name + suffix }`
unfoldable pub with_suffix : Text → Text → Text
with_suffix suffix name = if has_suffix name suffix then name else name ++ suffix

-- An entry of a directory, with what opening and reading the file gives.
pub record DirEntry : Type 0 where
  pub name : Text
  pub opened : Result Text

module _ (Abi : Type 0) where
  pub record ContractStore : Type 0 where
    pub abis : Map Text Abi
    pub bins : Map Text (List ℕ)

module _ {Abi : Type 0} where
  unfoldable pub get_abi : ContractStore Abi → Text → Option Abi
  get_abi c name = lookup text_dec (with_suffix abi_suffix name) c.abis

  unfoldable pub add_abi : ContractStore Abi → Text → Abi → ContractStore Abi
  add_abi c name abi = record c { abis = insert text_dec (with_suffix abi_suffix name) abi c.abis }

  unfoldable pub get_bin : ContractStore Abi → Text → Option (List ℕ)
  get_bin c name = lookup text_dec (with_suffix bin_suffix name) c.bins

  unfoldable pub add_bin : ContractStore Abi → Text → List ℕ → ContractStore Abi
  add_bin c name bin = record c { bins = insert text_dec (with_suffix bin_suffix name) bin c.bins }

  module _ (parse_abi : Text → Result Abi) where
    -- the loop over the ABI directory
    unfoldable pub load_abis : List DirEntry → Map Text Abi → Result (Map Text Abi)
    load_abis [] abis = ok abis
    load_abis (f ∷ files) abis =
        let rest = λ (m : Map Text Abi). load_abis files m in
        if has_suffix f.name abi_suffix
        then (do
          ff ← wrap_err err_open_abi_file f.opened
          a ← wrap_err err_parse_abi (parse_abi ff)
          rest (insert text_dec f.name a abis))
        else rest abis

module _ (from_hex : Text → List ℕ) where
  -- the loop over the BIN directory
  unfoldable pub load_bins : List DirEntry → Map Text (List ℕ) → Result (Map Text (List ℕ))
  load_bins [] bins = ok bins
  load_bins (f ∷ files) bins =
      let rest = λ (m : Map Text (List ℕ)). load_bins files m in
      if has_suffix f.name bin_suffix
      then (do
        bin ← wrap_err err_open_bin_file f.opened
        rest (insert text_dec f.name (from_hex bin) bins))
      else rest bins

-- `read_dir` is os.ReadDir; a path that is empty is skipped.
module _ (read_dir : Text → Result (List DirEntry)) where
  unfoldable pub read_abis : {Abi : Type 0} → (Text → Result Abi) → Text → Result (Map Text Abi)
  read_abis parse_abi path =
      if path ==ₜ [] then ok [] else (do files ← read_dir path; load_abis parse_abi files [])

  unfoldable pub read_bins : (Text → List ℕ) → Text → Result (Map Text (List ℕ))
  read_bins from_hex path =
      if path ==ₜ [] then ok [] else (do files ← read_dir path; load_bins from_hex files [])

  unfoldable pub new_contract_store :
      {Abi : Type 0}
      → (Text → Result Abi)
      → (Text → List ℕ)
      → Text
      → Text
      → Result (ContractStore Abi)
  new_contract_store parse_abi from_hex abi_path bin_path = do
    abis ← read_abis parse_abi abi_path
    bins ← read_bins from_hex bin_path
    ok (record { abis = abis; bins = bins })
