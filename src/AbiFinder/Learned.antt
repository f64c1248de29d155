-- ===== src/AbiFinder/Learned.antt =====
-- What the contract map learns from a call of FindABIByMethod.
use seth.Prelude.{
  Option, none, some, [], ◌++◌, ◌≡◌, ◌≢◌, inl, inr, refl, true, false, arith, Option-cases,
  Bool-cases, ap,
}
use mathlib.Core.Path.{subst}
use seth.Prelude.Int.{pos}
use seth.Prelude.Text.{Text, text_dec, trim_suffix, has_suffix}
use seth.Prelude.Errors.{Error, plain, Result, ok, err}
use seth.Prelude.Map.{lookup}
use seth.ContractMap.{ContractMap, unknown, abi_suffix, is_known_address, get_contract_name}
use seth.ContractMap.Lookup.{get_contract_name-add_contract}
use seth.ContractStore.Names.{WellNamed}
use seth.AbiFinder.{
  AbiLib, AbiFinder, AbiFinderResult, Match, contract_name_of, first_match, adopt, find_known,
  find_abi_by_method, err_no_abi_method,
}
use seth.AbiFinder.Found.{IsPlain, find_abi_by_method-IsSound}

module _ (lib : AbiLib) where
  open lib use {Abi, Method, method_by_id, method_error}

  -- After a success the contract map has the result's contract name at the address.
  abbrev pub Learns : AbiFinder lib → Text → AbiFinder lib × Result (AbiFinderResult lib) → Type 0
  Learns f address (f', ok r) =
      (get_contract_name f'.contract_map address ≡ contract_name_of lib r)
      × (f'.contract_store ≡ f.contract_store)
  Learns f address (f', err e) = f' ≡ f
  Learns f address (f', Result.panic) = ⊥

  adopt-Learns :
      (f : AbiFinder lib) (address sig : Text) (e : Error) (found : Option (Match lib))
      → address ≢ unknown
      → Learns f address (adopt lib f address sig e found)
  unfolding adopt contract_name_of
  adopt-Learns f address sig e none a = refl
  adopt-Learns f address sig e (some found) a = (
    ground (arith, get_contract_name-add_contract f.contract_map address address found.name a),
    refl,
  )

  find_known-Learns :
      (f : AbiFinder lib) (address sig : Text) (candidate : Option Abi)
      → address ≢ unknown
      → has_suffix (get_contract_name f.contract_map address) abi_suffix ≡ false
      → Learns f address
          (find_known lib f address sig (get_contract_name f.contract_map address) candidate)
  unfolding find_known contract_name_of trim_suffix
  find_known-Learns f address sig none a p = refl
  find_known-Learns f address sig (some c) a p = elim (Option-cases (method_by_id c sig)) [
    | inl e ↦
        rw (e, find_known)
          (adopt-Learns f address sig (method_error c sig)
            (first_match lib sig f.contract_store.abis) a)
    | inr (m, e) ↦ rw (e, find_known) (ground (arith, p), refl)
  ]

  -- A success leaves the contract's name, without ".abi", in the contract map at the address; an error
  -- leaves everything as it was; and the contract store never changes.
  pub find_abi_by_method-Learns :
      (f : AbiFinder lib) (address sig : Text)
      → address ≢ unknown
      → IsPlain f.contract_map address
      → Learns f address (find_abi_by_method lib f address sig)
  unfolding find_abi_by_method
  find_abi_by_method-Learns f address sig a p =
      elim (Bool-cases (is_known_address f.contract_map address)) [
        | inl known ↦ rw known (
            find_known-Learns f address sig
              (lookup text_dec (get_contract_name f.contract_map address ++ abi_suffix)
                f.contract_store.abis)
              a p)
        | inr no_name ↦ rw no_name (
            adopt-Learns f address sig (plain err_no_abi_method)
              (first_match lib sig f.contract_store.abis) a)
      ]

  is_known-name :
      (c : ContractMap) (address name : Text)
      → get_contract_name c address ≡ name
      → name ≢ []
      → is_known_address c address ≡ true
  unfolding is_known_address get_contract_name
  is_known-name c address name e n = ground arith

  find_abi_by_method_named :
      (f : AbiFinder lib) (address sig name : Text) (a : Abi) (m : Method)
      → get_contract_name f.contract_map address ≡ name
      → name ≢ []
      → lookup text_dec (name ++ abi_suffix) f.contract_store.abis ≡ some a
      → method_by_id a sig ≡ some m
      → find_abi_by_method lib f address sig
        ≡ (f, ok (record { abi = a; method = m; duplicate_count = pos 0; contract_name = name }))
  unfolding find_abi_by_method find_known
  find_abi_by_method_named f address sig name a m e n l q =
      ground (arith, is_known-name f.contract_map address name e n, e, l, q)

  -- Looking for the same method at the same address again gives the same ABI and method, now without
  -- duplicates, and changes nothing: the contract map has settled for this call. So it does whether
  -- the first call found the address known, corrected its name, or met it for the first time.
  pub find_abi_by_method_again :
      (f f' : AbiFinder lib) (address sig : Text) (r : AbiFinderResult lib)
      → WellNamed f.contract_store.abis
      → address ≢ unknown
      → IsPlain f.contract_map address
      → contract_name_of lib r ≢ []
      → find_abi_by_method lib f address sig ≡ (f', ok r)
      → find_abi_by_method lib f' address sig
        ≡ (f', ok (record r { duplicate_count = pos 0; contract_name = contract_name_of lib r }))
  find_abi_by_method_again f f' address sig r w a p n h =
      let l : Learns f address (f', ok r) =
        subst (Learns f address) h (find_abi_by_method-Learns f address sig a p) in
      let s =
        find_abi_by_method-IsSound lib f address sig r w p
          (ap (λ (x : AbiFinder lib × Result (AbiFinderResult lib)). x.1) h) in
      find_abi_by_method_named f' address sig (contract_name_of lib r) r.abi r.method l.0 n
        (rw l.1 s.1) s.0
