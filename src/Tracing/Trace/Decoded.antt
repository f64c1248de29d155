-- ===== src/Tracing/Trace/Decoded.antt =====
-- What DecodeTrace returns and keeps.
use seth.Prelude.{true, List, [], ◌∷◌, ◌++◌, length, ◌≡◌, ◌≢◌, refl, ap, ◌∙◌, arith}
use seth.Prelude.Int.{pos}
use seth.Prelude.Text.{Text, text_dec}
use seth.Prelude.Errors.{ok}
use seth.Prelude.Map.{Map, insert}
use seth.AbiFinder.{AbiLib, AbiFinder}
use seth.Decode.{Codec}
use seth.Tracing.Calls.{CallFields, FourByte, call, Calls, Trace, DecodedCall}
use seth.Tracing.Gather.{
  gather_call_lem, gather_call, preorder_call, signatures, signature_at, AllSigned,
}
use seth.Tracing.Walk.Placed.{placed, Decoded, process_calls-Decoded}
use seth.Tracing.Decode.{decode_call}
use seth.Tracing.Missing.{expected_calls}
use seth.Tracing.Missing.Unseen.{unseen, check_for_missing_calls-ok}
use seth.Tracing.Trace.{
  Tracer, decoder, gather, start, keep, finish, walk_from, decode_from, decode_trace,
}

-- A trace, from the call of its transaction and the calls under it.
abbrev pub trace_of : Text → Map Text FourByte → CallFields → Calls → Trace
trace_of hash sigs f cs = record { tx_hash = hash; four_byte = sigs; call_trace = call f cs }

gather-preorder :
    (hash : Text) (sigs : Map Text FourByte) (f : CallFields) (cs : Calls)
    → AllSigned (preorder_call (call f cs))
    → gather (trace_of hash sigs f cs) ≡ ok (signatures (preorder_call (call f cs)))
unfolding gather gather_call
gather-preorder hash sigs f cs h = (gather_call_lem (call f cs) []).0 h

module _ (lib : AbiLib) (codec : Codec lib) where
  open codec use {Value, box}

  -- When the tracer has a contract store, every call of the trace has a signature, and the calls decode
  -- in preorder, each with the signature of its own input, DecodeTrace returns the transaction's call,
  -- the others in preorder with their depth and the parent's signature, and then the missing calls. It
  -- keeps that list under the transaction's hash. There are no missing calls when the node counted as
  -- many calls as the trace has, and else one for each counted signature that no input contains.
  pub decode_trace-Decoded :
      (t : Tracer lib codec) (hash : Text) (sigs : Map Text FourByte) (f : CallFields) (cs : Calls)
      (g g' : AbiFinder lib) (main : DecodedCall Value) (ds : List (DecodedCall Value))
      → t.has_store ≡ true
      → AllSigned (preorder_call (call f cs))
      → decode_call lib codec t.addresses t.abi_finder (signature_at f.input) f ≡ (g, ok main)
      → Decoded
          (decoder lib codec t.addresses)
          box
          (signatures (preorder_call (call f cs)))
          g
          (placed cs 1 (signature_at f.input))
          ds
          g'
      → (missing : List (DecodedCall Value)) × (decode_trace lib codec t (trace_of hash sigs f cs)
          ≡ (
            record t {
              abi_finder = g';
              decoded_calls = insert text_dec hash (main ∷ ds ++ missing) t.decoded_calls;
            },
            ok (main ∷ ds ++ missing),
          ))
        × (expected_calls sigs (pos 0) ≡ pos (length (preorder_call (call f cs))) → missing ≡ [])
        × (expected_calls sigs (pos 0) ≢ pos (length (preorder_call (call f cs)))
            → length missing ≡ unseen (preorder_call (call f cs)) sigs)
  unfolding decode_trace decode_from walk_from finish keep start preorder_call
  decode_trace-Decoded t hash sigs f cs g g' main ds store signed first rest =
      let sig = signature_at f.input in
      let trace = trace_of hash sigs f cs in
      let methods = signatures (preorder_call (call f cs)) in
      let dec = decoder lib codec t.addresses in
      let w = start lib codec t.addresses methods g main in
      let walk = process_calls-Decoded dec box methods f cs sig w ds g' refl refl rest in
      let (missing, e, none_missing, some_missing) =
        check_for_missing_calls-ok lib codec g' trace in
      (
        missing,
        ground (arith, store)
            ∙ ap (decode_from lib codec t trace) (gather-preorder hash sigs f cs signed)
            ∙ ap (walk_from lib codec t trace sig methods) first
            ∙ ap (finish lib codec t trace methods) walk
            ∙ ap (keep lib codec t trace (main ∷ ds)) e,
        none_missing,
        some_missing,
      )
