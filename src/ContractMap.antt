-- ===== src/ContractMap.antt =====
-- contract_map.go: the names of the contracts at known addresses. The Go map is shared by the client,
-- the tracer and the ABI finder, so the functions that write it return the new map. The mutex is not
-- modelled: each operation holds it from start to end.
pub mod Lookup
use seth.Prelude.{Option, none, some, List, [], ◌∷◌, ℕ, Bool, not, length, if◌then◌else◌, ite}
use seth.Prelude.Text.{Text, codes, text_dec, ◌==ₜ◌, to_lower, trim_suffix}
use seth.Prelude.Errors.{Error, Result, ok, err}
use seth.Prelude.Map.{Map, lookup, insert}

-- UNKNOWN of tracing.go
abbrev pub unknown : Text
unknown = codes "unknown"

abbrev pub abi_suffix : Text
abi_suffix = codes ".abi"

pub record ContractMap : Type 0 where
  pub address_map : Map Text Text

unfoldable pub new_empty_contract_map : ContractMap
new_empty_contract_map = record { address_map = [] }

unfoldable pub new_contract_map : Map Text Text → ContractMap
new_contract_map contracts = record { address_map = contracts }

-- m[k] of a map to strings: the empty string if the key is missing
unfoldable pub read : Map Text Text → Text → Text
read m k = elim (lookup text_dec k m) [ none ↦ [] | some v ↦ v ]

unfoldable pub is_known_address : ContractMap → Text → Bool
is_known_address c addr = not (read c.address_map (to_lower addr) ==ₜ [])

unfoldable pub get_contract_name : ContractMap → Text → Text
get_contract_name c addr = read c.address_map (to_lower addr)

-- the loop over the map: the first key that has the value
unfoldable pub key_of : Text → Map Text Text → Text
key_of name [] = unknown
key_of name ((k, v) ∷ m) = if v ==ₜ name then k else key_of name m

unfoldable pub get_contract_address : ContractMap → Text → Text
get_contract_address c addr = if addr ==ₜ unknown then unknown else key_of addr c.address_map

unfoldable pub add_contract : ContractMap → Text → Text → ContractMap
add_contract c addr name = if addr ==ₜ unknown then c else record c {
  address_map = insert text_dec (to_lower addr) (trim_suffix name abi_suffix) c.address_map;
}

unfoldable pub size : ContractMap → ℕ
size c = length c.address_map

module _ {Address : Type 0} (hex : Address → Text) where
  -- the loop of LoadDeployedContracts over the parsed file
  unfoldable pub named_contracts : Map Address Text → Map Text Text → Map Text Text
  named_contracts [] contracts = contracts
  named_contracts ((k, v) ∷ raw) contracts =
      named_contracts raw (insert text_dec (hex k) v contracts)

  -- `file` is the text of the file, `none` if it cannot be opened; `parse` is toml.Unmarshal, and
  -- `hex` is Address.Hex.
  unfoldable pub load_deployed_contracts :
      (Text → Result (Map Address Text)) → Option Text → Result (Map Text Text)
  load_deployed_contracts parse none = ok []
  load_deployed_contracts parse (some file) = elim (parse file) [
    | ok raw ↦ ok (named_contracts raw [])
    | err e ↦ err e
    | Result.panic ↦ Result.panic
  ]
