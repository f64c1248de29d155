-- ===== src/ContractMap/Lookup.antt =====
-- What is read from the contract map after a write, and after a load from a file.
use seth.Prelude.{some, [], ◌∷◌, false, ite, ◌≡◌, ◌≢◌, refl, arith, Bool-cases, inl, inr}
use seth.Prelude.Text.{Text, text_dec, ◌==ₜ◌, to_lower, to_lower_idem, trim_suffix}
use seth.Prelude.Errors.{Result, ok}
use seth.Prelude.Map.{Map, lookup, insert, lookup-insert, Distinct, insert-Distinct}
use seth.ContractMap.{
  ContractMap, unknown, abi_suffix, read, is_known_address, get_contract_name, get_contract_address,
  key_of, add_contract, named_contracts, load_deployed_contracts,
}

read-empty : (k : Text) → read [] k ≡ []
unfolding read lookup
read-empty k = refl

pub read-insert :
    (k j v : Text) (m : Map Text Text)
    → read (insert text_dec k v m) j ≡ ite (text_dec k j) v (read m j)
unfolding read
read-insert k j v m = ground (arith, lookup-insert text_dec k j v m)

-- The name read after AddContract of an address other than "unknown": the new name, without its
-- suffix ".abi", at every spelling of that address; the old name at every other address.
pub get_contract_name-add_contract :
    (c : ContractMap) (addr other name : Text)
    → addr ≢ unknown
    → get_contract_name (add_contract c addr name) other
      ≡ ite
          (text_dec (to_lower addr) (to_lower other))
          (trim_suffix name abi_suffix)
          (get_contract_name c other)
unfolding get_contract_name add_contract
get_contract_name-add_contract c addr other name h = ground (
  arith,
  read-insert (to_lower addr) (to_lower other) (trim_suffix name abi_suffix) c.address_map,
)

-- AddContract at "unknown" changes nothing.
pub add_contract-unknown : (c : ContractMap) (name : Text) → add_contract c unknown name ≡ c
unfolding add_contract
add_contract-unknown c name = ground arith

key_of-lookup :
    (name : Text) (m : Map Text Text)
    → Distinct text_dec m
    → key_of name m ≢ unknown
    → lookup text_dec (key_of name m) m ≡ some name
unfolding key_of lookup
key_of-lookup name [] d h = absurd (h refl)
key_of-lookup name ((k, v) ∷ m) d h = ground (arith, key_of-lookup name m d.1, d.0)

to_lower-unknown : to_lower unknown ≡ unknown
unfolding to_lower
to_lower-unknown = refl

-- Each key is in lower case.
abbrev pub Lowered : Map Text Text → Type 0
Lowered [] = Unit
Lowered ((k, v) ∷ m) = (to_lower k ≡ k) × Lowered m

key_of-lower :
    (name : Text) (m : Map Text Text) → Lowered m → to_lower (key_of name m) ≡ key_of name m
unfolding key_of
key_of-lower name [] l = to_lower-unknown
key_of-lower name ((k, v) ∷ m) l = ground (arith, key_of-lower name m l.1, l.0)

-- An address that GetContractAddress finds for a name is one that GetContractName maps to that name,
-- if the map has each key once and in lower case.
pub get_contract_name-get_contract_address :
    (c : ContractMap) (name : Text)
    → Distinct text_dec c.address_map
    → Lowered c.address_map
    → get_contract_address c name ≢ unknown
    → get_contract_name c (get_contract_address c name) ≡ name
unfolding get_contract_name get_contract_address read
get_contract_name-get_contract_address c name d l h =
    ground (arith, key_of-lookup name c.address_map d, key_of-lower name c.address_map l)

insert-Lowered :
    (k v : Text) (m : Map Text Text) → to_lower k ≡ k → Lowered m → Lowered (insert text_dec k v m)
unfolding insert
insert-Lowered k v [] e l = (e, tt)
insert-Lowered k v ((j, w) ∷ m) e l = ground (arith, insert-Lowered k v m e l.1, l.0)

-- AddContract keeps each key once and in lower case.
pub add_contract-Lowered :
    (c : ContractMap) (addr name : Text)
    → Distinct text_dec c.address_map × Lowered c.address_map
    → Distinct text_dec (add_contract c addr name).address_map
      × Lowered (add_contract c addr name).address_map
unfolding add_contract
add_contract-Lowered c addr name h = elim (Bool-cases (addr ==ₜ unknown)) [
  | inl e ↦ rw e h
  | inr e ↦ rw e (
    insert-Distinct text_dec (to_lower addr) (trim_suffix name abi_suffix) c.address_map h.0,
    insert-Lowered (to_lower addr) (trim_suffix name abi_suffix) c.address_map (to_lower_idem addr)
        h.1,
  )
]

module _ {Address : Type 0} (hex : Address → Text) where
  -- No address of the file has a text in lower case.
  abbrev pub NoneLowered : Map Address Text → Type 0
  NoneLowered [] = Unit
  NoneLowered ((k, v) ∷ raw) = (to_lower (hex k) ≢ hex k) × NoneLowered raw

  named_contracts_missing :
      (raw : Map Address Text) (contracts : Map Text Text) (addr : Text)
      → NoneLowered raw
      → read contracts (to_lower addr) ≡ []
      → read (named_contracts hex raw contracts) (to_lower addr) ≡ []
  unfolding named_contracts
  named_contracts_missing [] contracts addr n e = e
  named_contracts_missing ((k, v) ∷ raw) contracts addr n e =
      named_contracts_missing raw (insert text_dec (hex k) v contracts) addr n.1 (
        ground (arith, e, n.0, read-insert (hex k) (to_lower addr) v contracts, to_lower_idem addr))

  -- LoadDeployedContracts stores each address as `hex` spells it, and IsKnownAddress looks for it in
  -- lower case: where no address of the file is spelled in lower case, none is known after the load,
  -- however it is spelled.
  pub load_deployed_contracts_unknown :
      (parse : Text → Result (Map Address Text)) (file addr : Text) (raw : Map Address Text)
      (contracts : Map Text Text)
      → parse file ≡ ok raw
      → load_deployed_contracts hex parse (some file) ≡ ok contracts
      → NoneLowered raw
      → is_known_address (record { address_map = contracts }) addr ≡ false
  unfolding load_deployed_contracts is_known_address
  load_deployed_contracts_unknown parse file addr raw contracts p q n =
      ground (arith, p, q, named_contracts_missing raw [] addr n (read-empty (to_lower addr)))
