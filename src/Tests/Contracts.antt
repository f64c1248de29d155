-- ===== src/Tests/Contracts.antt =====
-- The contract map, the contract store and the ABI finder on concrete contracts.
use seth.Prelude.{ℕ, ◌≡◌, refl, List, [], ◌∷◌, arith, ℕ_discrete, All}
use seth.Prelude.Int.{pos, ◌-ℤ◌}
use seth.Prelude.Text.{Text, codes, text_dec, to_lower, lower_byte, trim_suffix, has_suffix}
use seth.Prelude.Errors.{plain, Result, ok, err, wrap_err}
use seth.Prelude.Map.{Map, lookup, insert}
use seth.ContractMap.{
  ContractMap, read, is_known_address, get_contract_name, get_contract_address, key_of,
  add_contract, named_contracts, load_deployed_contracts,
}
use seth.ContractStore.{
  ContractStore, DirEntry, with_suffix, get_abi, add_abi, load_abis, load_bins, read_abis,
  read_bins, new_contract_store,
}
use seth.ContractStore.Names.{WellNamed}
use seth.ContractStore.Load.{IsLoaded, new_contract_store-IsLoaded}
use seth.AbiFinder.{
  AbiLib, AbiFinder, AbiFinderResult, contract_name_of, count_with, get_duplicate_count,
  first_match, adopt, find_known, find_abi_by_method,
}
use seth.AbiFinder.Found.{IsSound, find_abi_by_method-IsSound}

program : Unit {0}
unfolding text_dec to_lower lower_byte trim_suffix has_suffix wrap_err lookup insert read
    is_known_address get_contract_name get_contract_address key_of add_contract named_contracts
    load_deployed_contracts with_suffix get_abi add_abi load_abis load_bins read_abis read_bins
    new_contract_store contract_name_of count_with get_duplicate_count first_match adopt find_known
    find_abi_by_method ℕ_discrete ◌-ℤ◌
program = tt

abbrev token : Text
token = codes "0xAb"

abbrev contracts : ContractMap
contracts = record { address_map = (codes "0xab", codes "Token") ∷ [] }

add_contract_run :
    get_contract_name (add_contract contracts token (codes "Link.abi")) (codes "0xAB")
    ≡ codes "Link"
unfolding program
add_contract_run = refl

-- Addresses are texts here, spelled as they are, and a file holds one contract.
abbrev parse_file : Text → Result (Map Text Text)
parse_file file = ok ((token, file) ∷ [])

-- An ABI lists its methods, each a number under its signature.
abbrev lib : AbiLib
lib = record {
  Abi = Map Text ℕ;
  Method = ℕ;
  method_by_id = λ a sig. lookup text_dec sig a;
  method_error = λ a sig. plain (codes "no method");
}

abbrev store : ContractStore (Map Text ℕ)
store = record {
  abis =
      (codes "Token.abi", (codes "aa", 1) ∷ [])
      ∷ (codes "Link.abi", (codes "aa", 2) ∷ (codes "bb", 3) ∷ [])
      ∷ [];
  bins = [];
}

store-WellNamed : WellNamed store.abis
unfolding program
store-WellNamed = (refl, refl, (refl, refl, tt))

abbrev dir : List DirEntry
dir =
    record { name = codes "A.abi"; opened = ok (codes "aa") }
    ∷ record { name = codes "notes"; opened = err (plain []) }
    ∷ []

abbrev read_dir : Text → Result (List DirEntry)
read_dir path = ok dir

abbrev parse_abi : Text → Result Text
parse_abi file = ok file

new_contract_store-IsLoaded_example :
    WellNamed {Abi = Text} ((codes "A.abi", codes "aa") ∷ [])
    × All (IsLoaded parse_abi ((codes "A.abi", codes "aa") ∷ [])) dir
unfolding program
new_contract_store-IsLoaded_example =
    new_contract_store-IsLoaded parse_abi (λ t. t) read_dir (codes "abi") [] dir
      (record { abis = (codes "A.abi", codes "aa") ∷ []; bins = [] }) (ground arith) refl
      ((ground arith, tt), (tt, tt)) refl

abbrev finder : AbiFinder lib
finder = record { contract_map = contracts; contract_store = store }

-- The token has no method "bb", so its name is corrected to the contract that has it.
abbrev corrected : AbiFinder lib
corrected = record finder {
  contract_map = record { address_map = (codes "0xab", codes "Link") ∷ [] };
}

abbrev found : AbiFinderResult lib
found = record {
  abi = (codes "aa", 2) ∷ (codes "bb", 3) ∷ [];
  method = 3;
  duplicate_count = pos 0;
  contract_name = codes "Link.abi";
}

find_corrected : find_abi_by_method lib finder token (codes "bb") ≡ (corrected, ok found)
unfolding program
find_corrected = refl

find_abi_by_method-IsSound_example : IsSound lib finder (codes "bb") found
unfolding program
find_abi_by_method-IsSound_example =
    find_abi_by_method-IsSound lib finder token (codes "bb") found store-WellNamed refl refl
