-- ===== src/Tracing/Missing/Unseen.antt =====
-- Which signatures are reported as missing from the trace.
use seth.Prelude.{
  ℕ, ◌+◌, suc, Bool, ◌||◌, Option, none, some, List, [], ◌∷◌, ◌++◌, if◌then◌else◌, length,
  length-append, ◌≡◌, ◌≢◌, refl, sym, ap, ◌∙◌, arith, Option-cases, inl, inr,
}
use seth.Prelude.Int.{pos, ◌-ℤ◌, ℤ_discrete, sub_zero, sub_self}
use seth.Prelude.Text.{Text, codes, contains, text_dec, trim_prefix}
use seth.Prelude.Errors.{Error, plain, Result, ok, err}
use seth.Prelude.Map.{Map, lookup}
use seth.Config.{any}
use seth.ContractMap.{unknown, get_contract_name, abi_suffix}
use seth.ContractMap.Lookup.{add_contract-unknown}
use seth.AbiFinder.{
  AbiLib, err_no_abi_method, AbiFinder, AbiFinderResult, Match, adopt, find_known,
  find_abi_by_method, first_match,
}
use seth.Decode.{Codec}
use seth.Tracing.Calls.{
  CallFields, Call, call, Calls, nil, cons, FourByte, Trace, calls_of, DecodedCall,
}
use seth.Tracing.Gather.{preorder, preorder_call}
use seth.Tracing.Missing.{
  expected_calls, count_traced_call, count_traced_calls, find_in_call, find_signature,
  missing_signatures, missed_call, missed_calls, check_for_missing_calls,
}

mutual
  unfolding count_traced_call preorder_call

  count_traced_call-preorder :
      (c : Call) (n : ℕ) → count_traced_call c n ≡ n + length (preorder_call c)
  count_traced_call-preorder (call f cs) n = omega (arith, count_traced_calls-preorder cs (suc n))

  count_traced_calls-preorder :
      (cs : Calls) (n : ℕ) → count_traced_calls cs n ≡ n + length (preorder cs)
  count_traced_calls-preorder nil n = omega arith
  count_traced_calls-preorder (cons c cs) n = omega (
    arith,
    count_traced_call-preorder c n,
    count_traced_calls-preorder cs (count_traced_call c n),
    length-append (preorder_call c) (preorder cs),
  )

-- the count of the whole trace starts at 1, for its main call
count_all-preorder : (c : Call) → count_traced_calls (calls_of c) 1 ≡ length (preorder_call c)
unfolding preorder_call
count_all-preorder (call f cs) = omega (arith, count_traced_calls-preorder cs 1)

-- Some input of the calls contains the signature.
abbrev pub seen : Text → List CallFields → Bool
seen sig = any (λ f. contains f.input sig)

any-append {ℓ} :
    {A : Type ℓ} (test : A → Bool) (xs ys : List A)
    → any test (xs ++ ys) ≡ (any test xs || any test ys)
unfolding any
any-append test [] ys = refl
any-append test (x ∷ xs) ys = ground (arith, any-append test xs ys)

mutual
  unfolding find_in_call preorder_call any

  find_in_call-seen : (sig : Text) (c : Call) → find_in_call sig c ≡ seen sig (preorder_call c)
  find_in_call-seen sig (call f cs) = ap (◌||◌ (contains f.input sig)) (find_signature-seen sig cs)

  find_signature-seen : (sig : Text) (cs : Calls) → find_signature sig cs ≡ seen sig (preorder cs)
  find_signature-seen sig nil = refl
  find_signature-seen sig (cons c cs) = ground (
    arith,
    find_in_call-seen sig c,
    find_signature-seen sig cs,
    any-append (λ f. contains f.input sig) (preorder_call c) (preorder cs),
  )

-- The number of signatures that no call of the trace contains.
unfoldable pub unseen : List CallFields → Map Text FourByte → ℕ
unseen calls [] = 0
unseen calls ((k, v) ∷ sigs) = if seen k calls then unseen calls sigs else suc (unseen calls sigs)

missing_signatures-unseen :
    (c : Call) (sigs : Map Text FourByte)
    → length (missing_signatures c sigs) ≡ unseen (preorder_call c) sigs
unfolding missing_signatures unseen find_in_call
missing_signatures-unseen c [] = refl
missing_signatures-unseen (call f cs) ((k, v) ∷ sigs) =
    ground (arith, missing_signatures-unseen (call f cs) sigs, find_in_call-seen k (call f cs))

module _ (lib : AbiLib) (codec : Codec lib) where
  open lib use {method_by_id, method_error}
  open codec use {Value, hex2bytes}

  -- A search for the unknown address changes nothing and does not panic.
  abbrev pub IsCalm : AbiFinder lib → AbiFinder lib × Result (AbiFinderResult lib) → Type 0
  IsCalm finder r = (r.0 ≡ finder) × (r.1 ≢ Result.panic)

  adopt-IsCalm :
      (finder : AbiFinder lib) (sig : Text) (e : Error) (found : Option (Match lib))
      → IsCalm finder (adopt lib finder unknown sig e found)
  unfolding adopt
  adopt-IsCalm finder sig e none = (refl, λ h. cc)
  adopt-IsCalm finder sig e (some m) = (
    ap (λ c. record finder { contract_map = c }) (add_contract-unknown finder.contract_map m.name),
    λ h. cc,
  )

  find_known-IsCalm :
      (finder : AbiFinder lib) (sig name : Text) (candidate : Option (AbiLib.Abi lib))
      → IsCalm finder (find_known lib finder unknown sig name candidate)
  unfolding find_known
  find_known-IsCalm finder sig name none = (refl, λ h. cc)
  find_known-IsCalm finder sig name (some a) =
      let other =
        adopt-IsCalm finder sig (method_error a sig)
          (first_match lib sig finder.contract_store.abis) in
      elim (Option-cases (method_by_id a sig)) [
        | inl e ↦ ground (arith, e, other)
        | inr (m, e) ↦ ground (arith, e)
      ]

  find_abi-IsCalm :
      (finder : AbiFinder lib) (sig : Text)
      → IsCalm finder (find_abi_by_method lib finder unknown sig)
  unfolding find_abi_by_method
  find_abi-IsCalm finder sig =
      let name = get_contract_name finder.contract_map unknown in
      ground (
        arith,
        find_known-IsCalm finder sig name
            (lookup text_dec (name ++ abi_suffix) finder.contract_store.abis),
        adopt-IsCalm finder sig (plain err_no_abi_method)
            (first_match lib sig finder.contract_store.abis),
      )

  missed_call-ok :
      (finder : AbiFinder lib) (sig : Text) (r : AbiFinder lib × Result (AbiFinderResult lib))
      → IsCalm finder r
      → ((missed_call lib codec sig r).0 ≡ finder)
        × (d : DecodedCall Value) × ((missed_call lib codec sig r).1 ≡ ok d)
  unfolding missed_call
  missed_call-ok finder sig (g, ok found) h = (h.0, _, refl)
  missed_call-ok finder sig (g, err e) h = (h.0, _, refl)
  missed_call-ok finder sig (g, Result.panic) h = absurd (h.1 refl)

  missed_calls-ok :
      (finder : AbiFinder lib) (sigs : List Text)
      → (ds : List (DecodedCall Value)) × (missed_calls lib codec finder sigs ≡ (finder, ok ds))
        × (length ds ≡ length sigs)
  unfolding missed_calls
  missed_calls-ok finder [] = ([], refl, refl)
  missed_calls-ok finder (sig ∷ sigs) =
      let r = find_abi_by_method lib finder unknown (hex2bytes (trim_prefix sig (codes "0x"))) in
      let (same, d, e) = missed_call-ok finder sig r (find_abi-IsCalm finder _) in
      let (ds, f, n) = missed_calls-ok finder sigs in
      (d ∷ ds, ground (arith, same, e, f), omega (arith, n))

  -- The check for missing calls never fails and leaves the contract map as it was. It reports nothing
  -- when the number of calls that the node counted is the number of calls in the trace; otherwise it
  -- reports one call for each counted signature that no input of a call in the trace contains.
  pub check_for_missing_calls-ok :
      (finder : AbiFinder lib) (trace : Trace)
      → (ds : List (DecodedCall Value)) × (check_for_missing_calls lib codec finder trace
          ≡ (finder, ok ds))
        × (expected_calls trace.four_byte (pos 0) ≡ pos (length (preorder_call trace.call_trace))
            → ds ≡ [])
        × (expected_calls trace.four_byte (pos 0) ≢ pos (length (preorder_call trace.call_trace))
            → length ds ≡ unseen (preorder_call trace.call_trace) trace.four_byte)
  unfolding check_for_missing_calls
  check_for_missing_calls-ok finder trace =
      let total = count_all-preorder trace.call_trace in
      let expected = expected_calls trace.four_byte (pos 0) in
      let n = count_traced_calls (calls_of trace.call_trace) 1 in
      let missing = missing_signatures trace.call_trace trace.four_byte in
      let (ds, e, l) = missed_calls-ok finder missing in
      elim (ℤ_discrete (expected -ℤ pos n) (pos 0)) [
        | yes q ↦ (
          [],
          ground (arith, q),
          λ h. refl,
          λ h. absurd (h (sub_zero expected n q ∙ ap pos total)),
        )
        | no q ↦ (
          ds,
          ground (arith, q, e),
          λ h. absurd (q (ap (λ x. x -ℤ pos n) (h ∙ ap pos (sym total)) ∙ sub_self n)),
          λ h. l ∙ missing_signatures-unseen trace.call_trace trace.four_byte,
        )
      ]
