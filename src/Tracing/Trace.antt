-- ===== src/Tracing/Trace.antt =====
-- DecodeTrace of tracing.go, and TraceGethTX around it. Printing, JSON files and graphs are left out.
pub mod Decoded
use seth.Prelude.{ℕ, ◌+◌, Bool, true, false, List, [], ◌∷◌, ◌++◌}
use seth.Prelude.Int.{ℤ}
use seth.Prelude.Text.{Text, text_dec}
use seth.Prelude.Errors.{Error, Result, ok, err, ◌>>=◌, Done}
use seth.Prelude.Map.{Map, insert}
use seth.AbiFinder.{AbiLib, AbiFinder}
use seth.Decode.{Codec}
use seth.Tracing.Calls.{CallFields, Calls, Trace, fields, calls_of, DecodedCall}
use seth.Tracing.Gather.{get_signature, gather_all_methods}
use seth.Tracing.Walk.{Walk, process_calls}
use seth.Tracing.Decode.{decode_call}
use seth.Tracing.Missing.{check_for_missing_calls}

-- the signatures of the transaction and of the calls under it
unfoldable pub gather : Trace → Result (List Text)
gather trace = do
  main ← get_signature (fields trace.call_trace).input
  gather_all_methods (calls_of trace.call_trace) (main ∷ [])

module _ (lib : AbiLib) (codec : Codec lib) where
  open codec use {Value, box}

  -- The tracer: `has_store` tells whether it has a contract store at all.
  pub record Tracer : Type 0 where
    pub addresses : List Text
    pub has_store : Bool
    pub abi_finder : AbiFinder lib
    pub traces : Map Text Trace
    pub decoded_calls : Map Text (List (DecodedCall Value))

  abbrev pub decoder :
      List Text → AbiFinder lib → Text → CallFields → AbiFinder lib × Result (DecodedCall Value)
  decoder = decode_call lib codec

  -- the walk's start, after the main call
  unfoldable pub start :
      (addresses methods : List Text)
      → AbiFinder lib
      → DecodedCall Value
      → Walk (decoder addresses) box methods
  start addresses methods finder main = record {
    method_counter = 0;
    nesting_level = 1;
    decoded_calls = main ∷ [];
    finder = finder;
  }

  unfoldable pub with_finder : Tracer → AbiFinder lib → Tracer
  with_finder t finder = record t { abi_finder = finder }

  -- the end of DecodeTrace: the calls are kept under the transaction's hash
  unfoldable pub keep :
      Tracer
      → Trace
      → List (DecodedCall Value)
      → AbiFinder lib × Result (List (DecodedCall Value))
      → Tracer × Result (List (DecodedCall Value))
  keep t trace decoded (finder, ok missing) = (
    record t {
      abi_finder = finder;
      decoded_calls = insert text_dec trace.tx_hash (decoded ++ missing) t.decoded_calls;
    },
    ok (decoded ++ missing),
  )
  keep t trace decoded (finder, err e) = (with_finder t finder, err e)
  keep t trace decoded (finder, Result.panic) = (with_finder t finder, Result.panic)

  -- after the walk
  unfoldable pub finish :
      (t : Tracer) (trace : Trace) (methods : List Text)
      → Walk (decoder t.addresses) box methods × Done
      → Tracer × Result (List (DecodedCall Value))
  finish t trace methods (w, ok u) =
      keep t trace w.decoded_calls (check_for_missing_calls lib codec w.finder trace)
  finish t trace methods (w, err e) = (with_finder t w.finder, err e)
  finish t trace methods (w, Result.panic) = (with_finder t w.finder, Result.panic)

  -- after the main call
  unfoldable pub walk_from :
      Tracer
      → Trace
      → Text
      → List Text
      → AbiFinder lib × Result (DecodedCall Value)
      → Tracer × Result (List (DecodedCall Value))
  walk_from t trace main_sig methods (finder, ok main) = finish t trace methods (
      process_calls (decoder t.addresses) box methods (calls_of trace.call_trace) main_sig
        (start t.addresses methods finder main))
  walk_from t trace main_sig methods (finder, err e) = (with_finder t finder, err e)
  walk_from t trace main_sig methods (finder, Result.panic) = (with_finder t finder, Result.panic)

  -- methods[0], which is the main signature
  unfoldable pub decode_from :
      Tracer → Trace → Result (List Text) → Tracer × Result (List (DecodedCall Value))
  decode_from t trace (ok (sig ∷ methods)) =
      walk_from t trace sig (sig ∷ methods)
        (decode_call lib codec t.addresses t.abi_finder sig (fields trace.call_trace))
  decode_from t trace (ok []) = (t, Result.panic)
  decode_from t trace (err e) = (t, err e)
  decode_from t trace Result.panic = (t, Result.panic)

  unfoldable pub decode_trace : Tracer → Trace → Tracer × Result (List (DecodedCall Value))
  decode_trace t trace = elim t.has_store [
    | false ↦ (t, ok [])
    | true ↦ decode_from t trace (gather trace)
  ]
