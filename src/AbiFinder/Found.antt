-- ===== src/AbiFinder/Found.antt =====
-- What a result of FindABIByMethod is, and when there is one.
use seth.Prelude.{
  Option, none, some, [], ◌∷◌, ◌++◌, ◌≡◌, ◌⊎◌, inl, inr, refl, true, false, arith, Option-cases,
  Bool-cases,
}
use seth.Prelude.Text.{Text, text_dec, trim_suffix, has_suffix}
use seth.Prelude.Errors.{Error, plain, ok, err}
use seth.Prelude.Map.{Map, lookup}
use seth.ContractMap.{ContractMap, abi_suffix, is_known_address, get_contract_name}
use seth.ContractStore.Names.{WellNamed, append-trim_suffix}
use seth.AbiFinder.{
  AbiLib, AbiFinder, AbiFinderResult, Match, contract_name_of, get_duplicate_count, first_match,
  adopt, find_known, find_abi_by_method, err_no_abi_method,
}

-- The contract map's name for the address has no suffix ".abi".
abbrev pub IsPlain : ContractMap → Text → Type 0
IsPlain c address = has_suffix (get_contract_name c address) abi_suffix ≡ false

module _ (lib : AbiLib) where
  open lib use {Abi, Method, method_by_id, method_error}

  -- No ABI of the store has the method.
  abbrev pub NoMatch : Text → Map Text Abi → Type 0
  NoMatch sig [] = Unit
  NoMatch sig ((name, a) ∷ abis) = (method_by_id a sig ≡ none) × NoMatch sig abis

  pub first_match-some :
      (sig : Text) (abis : Map Text Abi) (found : Match lib)
      → WellNamed abis
      → first_match lib sig abis ≡ some found
      → (method_by_id found.abi sig ≡ some found.method)
        × (lookup text_dec found.name abis ≡ some found.abi)
        × (has_suffix found.name abi_suffix ≡ true)
  unfolding first_match lookup
  first_match-some sig [] found w h = cc
  first_match-some sig ((name, a) ∷ abis) found w h =
      ground (arith, first_match-some sig abis found w.2, w.0, w.1)

  pub first_match-none :
      (sig : Text) (abis : Map Text Abi)
      → (first_match lib sig abis ≡ none → NoMatch sig abis)
        × (NoMatch sig abis → first_match lib sig abis ≡ none)
  unfolding first_match
  first_match-none sig [] = ground arith
  first_match-none sig ((name, a) ∷ abis) = ground (arith, first_match-none sig abis)

  -- The result has a method with the signature, and its ABI is the one that the store keeps under its
  -- contract name.
  abbrev pub IsSound : AbiFinder lib → Text → AbiFinderResult lib → Type 0
  IsSound f sig r =
      (method_by_id r.abi sig ≡ some r.method)
      × (lookup text_dec (contract_name_of lib r ++ abi_suffix) f.contract_store.abis ≡ some r.abi)

  trim_suffix_plain : (s p : Text) → has_suffix s p ≡ false → trim_suffix s p ≡ s
  unfolding trim_suffix
  trim_suffix_plain s p h = rw h

  pub adopt-IsSound :
      (f : AbiFinder lib) (address sig : Text) (e : Error) (r : AbiFinderResult lib)
      → WellNamed f.contract_store.abis
      → (adopt lib f address sig e (first_match lib sig f.contract_store.abis)).1 ≡ ok r
      → IsSound f sig r
  unfolding adopt contract_name_of
  adopt-IsSound f address sig e r w h =
      elim (Option-cases (first_match lib sig f.contract_store.abis)) [
        | inl nothing ↦ absurd (ground (arith, nothing))
        | inr (found, q) ↦
            let s = first_match-some sig f.contract_store.abis found w q in
            ground (arith, q, s, append-trim_suffix found.name abi_suffix s.2)
      ]

  find_known-IsSound :
      (f : AbiFinder lib) (address sig name : Text) (candidate : Option Abi)
      (r : AbiFinderResult lib)
      → WellNamed f.contract_store.abis
      → has_suffix name abi_suffix ≡ false
      → lookup text_dec (name ++ abi_suffix) f.contract_store.abis ≡ candidate
      → (find_known lib f address sig name candidate).1 ≡ ok r
      → IsSound f sig r
  unfolding find_known contract_name_of
  find_known-IsSound f address sig name none r w p l h = absurd (ground arith)
  find_known-IsSound f address sig name (some a) r w p l h =
      elim (Option-cases (method_by_id a sig)) [
        | inl e ↦ adopt-IsSound f address sig (method_error a sig) r w (ground (arith, e, h))
        | inr (m, e) ↦ ground (arith, e, h, l, trim_suffix_plain name abi_suffix p)
      ]

  -- A method that FindABIByMethod returns has the signature that was looked for, and the ABI beside it
  -- is the one that the store keeps under the name beside it: for an address that is known, known with
  -- another ABI, or not known. The names of the store's ABIs are well formed, and the map's name for a known
  -- address does not end in .abi itself.
  pub find_abi_by_method-IsSound :
      (f : AbiFinder lib) (address sig : Text) (r : AbiFinderResult lib)
      → WellNamed f.contract_store.abis
      → IsPlain f.contract_map address
      → (find_abi_by_method lib f address sig).1 ≡ ok r
      → IsSound f sig r
  unfolding find_abi_by_method
  find_abi_by_method-IsSound f address sig r w p h =
      elim (Bool-cases (is_known_address f.contract_map address)) [
        | inr no_name ↦
            adopt-IsSound f address sig (plain err_no_abi_method) r w (ground (arith, no_name, h))
        | inl known ↦
            find_known-IsSound f address sig (get_contract_name f.contract_map address)
              (lookup text_dec (get_contract_name f.contract_map address ++ abi_suffix)
                f.contract_store.abis)
              r w p refl (ground (arith, known, h))
      ]

  -- For an address that is not known: if some ABI has the method there is a result, and otherwise the
  -- error "no ABI method found", with the contract map as it was.
  pub find_abi_by_method_unknown :
      (f : AbiFinder lib) (address sig : Text)
      → is_known_address f.contract_map address ≡ false
      → ((r : AbiFinderResult lib) × ((find_abi_by_method lib f address sig).1 ≡ ok r)
          × ¬ NoMatch sig f.contract_store.abis)
        ⊎ (NoMatch sig f.contract_store.abis
            × (find_abi_by_method lib f address sig ≡ (f, err (plain err_no_abi_method))))
  unfolding find_abi_by_method adopt
  find_abi_by_method_unknown f address sig no_name =
      let n = first_match-none sig f.contract_store.abis in
      elim (Option-cases (first_match lib sig f.contract_store.abis)) [
        | inl nothing ↦ inr (n.0 nothing, rw (no_name, nothing, adopt))
        | inr (found, q) ↦ inl (
          record {
            abi = found.abi;
            method = found.method;
            duplicate_count = get_duplicate_count lib f sig;
            contract_name = found.name;
          },
          rw (no_name, q, adopt),
          λ none_has. ground (arith, q, n.1 none_has),
        )
      ]
