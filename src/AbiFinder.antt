-- ===== src/AbiFinder.antt =====
-- abi_finder.go: which ABI and method a call to an address belongs to. An ABI, a method and
-- `MethodById` belong to go-ethereum and are the parameter `AbiLib`.
pub mod Found
pub mod Learned
use seth.Prelude.{ℕ, ◌+◌, Option, none, some, List, [], ◌∷◌, ◌++◌, if◌then◌else◌}
use seth.Prelude.Int.{ℤ, pos, ◌-ℤ◌}
use seth.Prelude.Text.{Text, codes, text_dec, trim_suffix}
use seth.Prelude.Errors.{Error, plain, Result, ok, err}
use seth.Prelude.Map.{Map, lookup}
use seth.ContractMap.{ContractMap, abi_suffix, is_known_address, get_contract_name, add_contract}
use seth.ContractStore.{ContractStore}

abbrev pub err_no_abi_found : Text
err_no_abi_found = codes "no ABI found in Contract Store"

abbrev pub err_no_abi_method : Text
err_no_abi_method = codes "no ABI method found"

-- `method_by_id` gives `none` where MethodById returns an error, and `method_error` is that error.
pub record AbiLib : Type 1 where
  pub Abi : Type 0
  pub Method : Type 0
  pub method_by_id : Abi → Text → Option Method
  pub method_error : Abi → Text → Error

module _ (lib : AbiLib) where
  open lib use {Abi, Method, method_by_id, method_error}

  pub record AbiFinderResult : Type 0 where
    pub abi : Abi
    pub method : Method
    pub duplicate_count : ℤ
    pub contract_name : Text

  pub record AbiFinder : Type 0 where
    pub contract_map : ContractMap
    pub contract_store : ContractStore Abi

  -- (a *ABIFinderResult) ContractName()
  unfoldable pub contract_name_of : AbiFinderResult → Text
  contract_name_of r = trim_suffix r.contract_name abi_suffix

  -- the number of ABIs that have the method
  unfoldable pub count_with : Text → Map Text Abi → ℕ
  count_with sig [] = 0
  count_with sig ((name, a) ∷ abis) = elim (method_by_id a sig) [
    | some m ↦ count_with sig abis + 1
    | none ↦ count_with sig abis
  ]

  unfoldable pub get_duplicate_count : AbiFinder → Text → ℤ
  get_duplicate_count f sig = pos (count_with sig f.contract_store.abis) -ℤ pos 1

  pub record Match : Type 0 where
    pub name : Text
    pub abi : Abi
    pub method : Method

  -- the loop over all ABIs: the first that has the method
  unfoldable pub first_match : Text → Map Text Abi → Option Match
  first_match sig [] = none
  first_match sig ((name, a) ∷ abis) = elim (method_by_id a sig) [
    | some m ↦ some (record { name = name; abi = a; method = m })
    | none ↦ first_match sig abis
  ]

  -- The first match is written to the contract map and returned; `e` is the error without a match.
  unfoldable pub adopt :
      AbiFinder → Text → Text → Error → Option Match → AbiFinder × Result AbiFinderResult
  adopt f address sig e none = (f, err e)
  adopt f address sig e (some found) = (
    record f { contract_map = add_contract f.contract_map address found.name },
    ok (record {
      abi = found.abi;
      method = found.method;
      duplicate_count = get_duplicate_count f sig;
      contract_name = found.name;
    }),
  )

  -- the branch for a known address, with the ABI that the store has under its name
  unfoldable pub find_known :
      AbiFinder → Text → Text → Text → Option Abi → AbiFinder × Result AbiFinderResult
  find_known f address sig name none = (f, err (plain err_no_abi_found))
  find_known f address sig name (some candidate) = elim (method_by_id candidate sig) [
    | some m ↦ (
      f,
      ok (record { abi = candidate; method = m; duplicate_count = pos 0; contract_name = name }),
    )
    | none ↦
        adopt f address sig (method_error candidate sig) (first_match sig f.contract_store.abis)
  ]

  unfoldable pub find_abi_by_method : AbiFinder → Text → Text → AbiFinder × Result AbiFinderResult
  find_abi_by_method f address sig =
      let name = get_contract_name f.contract_map address in
      if is_known_address f.contract_map address
      then find_known f address sig name
          (lookup text_dec (name ++ abi_suffix) f.contract_store.abis)
      else adopt f address sig (plain err_no_abi_method) (first_match sig f.contract_store.abis)
