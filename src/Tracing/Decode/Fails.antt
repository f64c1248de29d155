-- ===== src/Tracing/Decode/Fails.antt =====
-- When the tracer fails to decode a call.
use seth.Prelude.{Option, List, [], ◌≡◌, ◌≢◌, refl, arith, Bool-cases, inl, inr}
use seth.Prelude.Text.{Text, codes, ◌==ₜ◌, trim_prefix}
use seth.Prelude.Errors.{Error, wrapped, Result, ok, err, wrap_err, Result-cases}
use seth.Prelude.Map.{Map}
use seth.AbiFinder.{AbiLib, AbiFinder, AbiFinderResult, find_abi_by_method}
use seth.Decode.{Codec, decode_tx_inputs, decode_tx_outputs}
use seth.Tracing.Calls.{CallFields, DecodedCall}
use seth.Tracing.Decode.{
  or_keep, decode_contract_logs, decode_output, with_abi, decode_found, decode_call,
}

or_keep-never {ℓ} : {A : Type ℓ} (a : A) (r : Result A) (e : Error) → or_keep a r ≢ err e
unfolding or_keep
or_keep-never a (ok b) e = λ h. cc
or_keep-never a (err x) e = λ h. cc
or_keep-never a Result.panic e = λ h. cc

module _ (lib : AbiLib) (codec : Codec lib) where
  open codec use {Value, hexutil_decode, hex2bytes}

  -- The output has bytes that are no hexadecimal text.
  abbrev pub IsBadOutput : CallFields → Error → Type 0
  IsBadOutput f e =
      (f.output ≢ [])
      × (x : Error) × (hexutil_decode f.output ≡ err x)
      × (e ≡ wrapped (codes "failed to decode transaction output") x)

  decode_output-err :
      (f : CallFields) (method : AbiLib.Method lib) (before : Option (Map Text Value)) (e : Error)
      → decode_output lib codec f method before ≡ err e
      → IsBadOutput f e
  unfolding decode_output wrap_err
  decode_output-err f method before e h = elim (Bool-cases (f.output ==ₜ [])) [
    | inl q ↦ absurd (ground (arith, q))
    | inr q ↦ elim (Result-cases (hexutil_decode f.output)) [
      | inr (inl (x, r)) ↦ (ground (arith, q), x, r, ground (arith, q, r))
      | inr (inr r) ↦ absurd (ground (arith, q, r))
      | inl (out, r) ↦
          absurd
            (or_keep-never before (decode_tx_outputs lib codec out method) e (ground (arith, q, r)))
    ]
  ]

  with_abi-err :
      (f : CallFields) (d : DecodedCall Value) (found : AbiFinderResult lib) (e : Error)
      → with_abi lib codec f d found ≡ err e
      → IsBadOutput f e
  unfolding with_abi
  with_abi-err f d found e h =
      let inputs =
        or_keep d.input (
          decode_tx_inputs lib codec (hex2bytes (trim_prefix f.input (codes "0x"))) found.method) in
      let logs = or_keep d.events (decode_contract_logs lib codec f.logs found.abi) in
      elim (Result-cases inputs) [
        | inr (inl (x, q)) ↦ absurd (or_keep-never _ _ x q)
        | inr (inr q) ↦ absurd (ground (arith, q))
        | inl (i, q) ↦ elim (Result-cases (decode_output lib codec f found.method d.output)) [
          | inr (inl (x, r)) ↦ decode_output-err f found.method d.output e (ground (arith, q, r))
          | inr (inr r) ↦ absurd (ground (arith, q, r))
          | inl (o, r) ↦ elim (Result-cases logs) [
            | inr (inl (x, s)) ↦ absurd (or_keep-never _ _ x s)
            | inr (inr s) ↦ absurd (ground (arith, q, r, s))
            | inl (l, s) ↦ absurd (ground (arith, q, r, s))
          ]
        ]
      ]

  decode_found-err :
      (addresses : List Text) (sig : Text) (f : CallFields)
      (r : AbiFinder lib × Result (AbiFinderResult lib)) (e : Error)
      → (decode_found lib codec addresses sig f r).1 ≡ err e
      → ((found : AbiFinderResult lib) × (r.1 ≡ ok found)) × IsBadOutput f e
  unfolding decode_found
  decode_found-err addresses sig f (finder, ok found) e h =
      ((found, refl), with_abi-err f _ found e h)
  decode_found-err addresses sig f (finder, err x) e h = cc
  decode_found-err addresses sig f (finder, Result.panic) e h = cc

  -- The ABI of the call is found, with what the finder gives for its address and signature.
  abbrev pub IsFound : AbiFinder lib → Text → CallFields → Type 0
  IsFound finder sig f =
      (found : AbiFinderResult lib) × ((find_abi_by_method lib finder f.to (hex2bytes sig)).1
        ≡ ok found)

  -- Decoding a call fails only when its ABI is found and the node's output for it is no hexadecimal
  -- text: a call without an ABI, and inputs, outputs or events that do not decode, are no errors.
  pub decode_call-err :
      (addresses : List Text) (finder : AbiFinder lib) (sig : Text) (f : CallFields) (e : Error)
      → (decode_call lib codec addresses finder sig f).1 ≡ err e
      → IsFound finder sig f × IsBadOutput f e
  unfolding decode_call
  decode_call-err addresses finder sig f e h =
      decode_found-err addresses (hex2bytes sig) f
        (find_abi_by_method lib finder f.to (hex2bytes sig)) e h
