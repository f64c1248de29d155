-- ===== src/Tracing/Missing.antt =====
-- checkForMissingCalls of tracing.go: the signatures that the node counted and the trace lacks.
pub mod Unseen
use seth.Prelude.{
  ℕ, ◌+◌, suc, Bool, true, false, not, ◌||◌, Option, none, some, List, [], ◌∷◌, ◌++◌, if◌then◌else◌,
  holds,
}
use seth.Prelude.Int.{ℤ, pos, ◌+ℤ◌, ◌-ℤ◌, ltb_ℤ, pos_part, ℤ_discrete}
use seth.Prelude.Text.{Text, codes, contains, trim_prefix, decimal}
use seth.Prelude.Errors.{Error, Result, ok, err, ◌>>=◌}
use seth.Prelude.Map.{Map}
use seth.ContractMap.{unknown, get_contract_address}
use seth.AbiFinder.{AbiLib, AbiFinder, AbiFinderResult, find_abi_by_method, contract_name_of}
use seth.Decode.{Codec}
use seth.Tracing.Calls.{
  CallFields, Call, call, Calls, nil, cons, FourByte, Trace, fields, calls_of, DecodedCommonLog,
  DecodedCall, no_data,
}
use seth.Tracing.Decode.{default_decoded_call}

-- the sum of Times
unfoldable pub expected_calls : Map Text FourByte → ℤ → ℤ
expected_calls [] n = n
expected_calls ((k, v) ∷ sigs) n = expected_calls sigs (n +ℤ v.times)

-- countAllTracedCallsFn
unfoldable mutual
  pub count_traced_call : Call → ℕ → ℕ
  count_traced_call (call f cs) previous = count_traced_calls cs (suc previous)

  pub count_traced_calls : Calls → ℕ → ℕ
  count_traced_calls nil previous = previous
  count_traced_calls (cons c cs) previous = count_traced_calls cs (count_traced_call c previous)

-- findSignatureFn
unfoldable mutual
  pub find_in_call : Text → Call → Bool
  find_in_call sig (call f cs) = contains f.input sig || find_signature sig cs

  pub find_signature : Text → Calls → Bool
  find_signature sig nil = false
  find_signature sig (cons c cs) = find_in_call sig c || find_signature sig cs

-- the keys that no input of the trace contains
unfoldable pub missing_signatures : Call → Map Text FourByte → List Text
missing_signatures trace [] = []
missing_signatures trace ((k, v) ∷ sigs) =
    if contains (fields trace).input k || find_signature k (calls_of trace)
    then missing_signatures trace sigs
    else k ∷ missing_signatures trace sigs

abbrev pub missing_call_trace : Text
missing_call_trace =
    codes
      "This call was missing from call trace, but it's signature was present in 4bytes trace. Most data is missing; Call order remains unknown"

unfoldable pub missing_comment : ℤ → Text
missing_comment duplicates =
    if ltb_ℤ (pos 0) duplicates
    then missing_call_trace
      ++ codes "; Potentially inaccurate - method present in "
      ++ decimal (pos_part duplicates)
      ++ codes " other contracts"
    else missing_call_trace

module _ (lib : AbiLib) (codec : Codec lib) where
  open codec use {Value, box, method_name, hex2bytes, hex_to_address}

  unfoldable pub warning : Option (Map Text Value)
  warning = some ((codes "warning", box no_data) ∷ [])

  unfoldable pub no_data_events : List (DecodedCommonLog Value)
  no_data_events =
      record {
        signature = no_data;
        address = hex_to_address [];
        event_data = (codes "warning", box no_data) ∷ [];
        topics = [];
      }
      ∷ []

  -- the fields that stay unset are empty
  unfoldable pub blank : DecodedCall Value
  blank = record default_decoded_call {
    call_type = [];
    signature = [];
    method = no_data;
    input = warning;
    output = warning;
    from_address = unknown;
    to_address = unknown;
    from = [];
    to = [];
    events = no_data_events;
  }

  unfoldable pub missed_call :
      Text
      → AbiFinder lib × Result (AbiFinderResult lib)
      → AbiFinder lib × Result (DecodedCall Value)
  missed_call sig (finder, err e) = (finder, ok blank)
  missed_call sig (finder, Result.panic) = (finder, Result.panic)
  missed_call sig (finder, ok found) = (
    finder,
    ok (record blank {
      signature = sig;
      method = method_name found.method;
      to_address = get_contract_address finder.contract_map (contract_name_of lib found);
      to = contract_name_of lib found;
      from = unknown;
      comment = missing_comment found.duplicate_count;
    }),
  )

  -- the loop over the missing signatures
  unfoldable pub missed_calls :
      AbiFinder lib → List Text → AbiFinder lib × Result (List (DecodedCall Value))
  missed_calls finder [] = (finder, ok [])
  missed_calls finder (sig ∷ sigs) =
      let one =
        missed_call sig
          (find_abi_by_method lib finder unknown (hex2bytes (trim_prefix sig (codes "0x")))) in
      let rest = missed_calls one.0 sigs in (rest.0, (do d ← one.1; ds ← rest.1; ok (d ∷ ds)))

  unfoldable pub check_for_missing_calls :
      AbiFinder lib → Trace → AbiFinder lib × Result (List (DecodedCall Value))
  check_for_missing_calls finder trace =
      let diff =
        expected_calls trace.four_byte (pos 0)
        -ℤ pos (count_traced_calls (calls_of trace.call_trace) 1) in
      if holds (ℤ_discrete diff (pos 0))
      then (finder, ok [])
      else missed_calls finder (missing_signatures trace.call_trace trace.four_byte)
