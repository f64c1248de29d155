-- ===== src/TxDecode/Run/Returned.antt =====
-- What Decode returns.
use seth.Prelude.{
  ◌≡◌, ◌≢◌, true, Option, none, some, [], Bool-cases, List-cases, inl, inr, ◌⊎◌, refl, ap, sym, ◌∙◌,
  subst, arith, ℕ_discrete,
}
use seth.Prelude.Text.{Text, ◌==ₜ◌}
use seth.Prelude.Errors.{Error, Result, ok, err, Result-cases, Done}
use seth.Config.{Config}
use seth.Config.Validate.{tracing_none}
use seth.AbiFinder.{AbiLib, AbiFinder}
use seth.Decode.{Codec}
use seth.Mining.{Receipt, RetryLib, Times, mined}
use seth.TxDecode.{TxParts, DecodedTransaction, Decoding, decode_transaction}
use seth.TxDecode.Reverts.{RevertLib, decode_custom_abi_err}
use seth.TxDecode.Reverts.Reasons.{call_and_get_revert_reason-none}
use seth.TxDecode.Run.{
  Decoder, TraceTx, Outcome, is_traced, is_debug_missing, is_some, is_fresh, after_trace, returned,
  trace_decoded, with_decoding, revert_error, decode_mined, submission_error, decode,
}

module _ (lib : AbiLib) (codec : Codec lib) {Signed : Type 0} (parts : TxParts Signed)
    (reverts : RevertLib lib Signed) (retry_lib : RetryLib) (times : Times Signed)
    (trace_tx : TraceTx lib codec) where
  open codec use {Value}

  -- The configuration afterwards: as before, or without tracing, where the transaction was to be traced
  -- and the node had no debug API.
  abbrev pub KeepsConfig : Config → Config → Option Error → Type 0
  KeepsConfig c c' revert =
      (c' ≡ c)
      ⊎ ((c' ≡ record c { tracing_level = tracing_none })
          × (is_traced c.tracing_level revert ≡ true)
          × ((finder : Option (AbiFinder lib)) × (hash : Text) × (e : Error) × ((trace_tx finder
                  hash revert).1
                ≡ err e)
              × (is_debug_missing e ≡ true)))

  after_trace-KeepsConfig :
      (s s' : Decoder lib codec) (hash : Text) (revert : Option Error) (done : Done)
      → is_traced s.config.tracing_level revert ≡ true
      → after_trace lib codec parts reverts retry_lib times trace_tx s
          (trace_tx s.finder hash revert)
        ≡ (s', done)
      → KeepsConfig s.config s'.config revert
  unfolding after_trace
  after_trace-KeepsConfig s s' hash revert done t h =
      elim (Result-cases (trace_tx s.finder hash revert).1) [
        | inl (u, e) ↦ inl (ground (arith, e, h))
        | inr (inr e) ↦ inl (ground (arith, e, h))
        | inr (inl (x, e)) ↦ elim (Bool-cases (is_debug_missing x)) [
          | inl m ↦ inr (ground (arith, e, m, h), t, (s.finder, hash, x, e, m))
          | inr m ↦ inl (ground (arith, e, m, h))
        ]
      ]

  returned-ok :
      (d d' : DecodedTransaction Signed Value) (revert r : Option Error)
      (out : Decoder lib codec × Done) (s' : Decoder lib codec)
      → returned lib codec parts reverts retry_lib times trace_tx d' revert out
        ≡ (s', ok (some d, r))
      → (d ≡ d') × (r ≡ revert) × (out.0 ≡ s')
  unfolding returned
  returned-ok d d' revert r (s, ok u) s' h =
      (ground (arith, h), ground (arith, h), ground (arith, h))
  returned-ok d d' revert r (s, err e) s' h = absurd (ground (arith, h))
  returned-ok d d' revert r (s, Result.panic) s' h = absurd (ground (arith, h))

  trace_decoded-some :
      (s s' : Decoder lib codec) (revert r : Option Error) (decoding : Decoding lib codec parts)
      (d : DecodedTransaction Signed Value)
      → trace_decoded lib codec parts reverts retry_lib times trace_tx s revert decoding
        ≡ (s', ok (some d, r))
      → (d ≡ decoding.0) × (r ≡ revert) × KeepsConfig s.config s'.config revert
  unfolding trace_decoded is_fresh
  trace_decoded-some s s' revert r (d', decode_err) d h =
      elim (Bool-cases (s.config.tracing_level ==ₜ tracing_none)) [
        | inl e ↦ (ground (arith, e, h), ground (arith, e, h), inl (ground (arith, e, h)))
        | inr e ↦ elim (Bool-cases (is_traced s.config.tracing_level revert)) [
          | inr f ↦
              (ground (arith, e, f, h), ground (arith, e, f, h), inl (ground (arith, e, f, h)))
          | inl f ↦
              let out =
                after_trace lib codec parts reverts retry_lib times trace_tx s
                  (trace_tx s.finder d'.hash revert) in
              let (same, rest, state) =
                returned-ok d d' revert r out s' (ground (arith, e, f, h)) in
              (
                same,
                rest,
                subst (λ (t : Decoder lib codec). KeepsConfig s.config t.config revert) state
                    (after_trace-KeepsConfig s out.0 d'.hash revert out.1 f refl),
              )
        ]
      ]

  -- Decode of a mined transaction: the transaction that decodeTransaction gives, with the revert error
  -- alone.
  abbrev pub IsReturned :
      Decoder lib codec
      → Decoder lib codec
      → Signed
      → Receipt
      → DecodedTransaction Signed Value
      → Option Error
      → Type 0
  IsReturned s s' tx receipt d revert =
      (revert_error lib codec parts reverts retry_lib times trace_tx s tx receipt ≡ ok revert)
      × ((finder : Option (AbiFinder lib)) × (decode_err : Option Error) × (decode_transaction lib
              codec parts (is_some s.store) s.finder tx receipt
            ≡ (finder, ok (d, decode_err))))
      × KeepsConfig s.config s'.config revert

  with_decoding-some :
      (s s' : Decoder lib codec) (revert r : Option Error) (d : DecodedTransaction Signed Value)
      (out : Option (AbiFinder lib) × Result (Decoding lib codec parts))
      → with_decoding lib codec parts reverts retry_lib times trace_tx s revert out
        ≡ (s', ok (some d, r))
      → ((finder : Option (AbiFinder lib)) × (decode_err : Option Error) × (out
            ≡ (finder, ok (d, decode_err))))
        × (r ≡ revert)
        × KeepsConfig s.config s'.config revert
  unfolding with_decoding
  with_decoding-some s s' revert r d (finder, err e) h = absurd (ground (arith, h))
  with_decoding-some s s' revert r d (finder, Result.panic) h = absurd (ground (arith, h))
  with_decoding-some s s' revert r d (finder, ok (d', decode_err)) h =
      let (same, rest, kept) =
        trace_decoded-some (record s { finder = finder }) s' revert r (d', decode_err) d h in
      ((finder, decode_err, ap (λ x. (finder, ok (x, decode_err))) (sym same)), rest, kept)

  decode_mined-some :
      (s s' : Decoder lib codec) (tx : Signed) (receipt : Receipt)
      (d : DecodedTransaction Signed Value) (r : Option Error)
      → decode_mined lib codec parts reverts retry_lib times trace_tx s tx receipt
        ≡ (s', ok (some d, r))
      → IsReturned s s' tx receipt d r
  unfolding decode_mined
  decode_mined-some s s' tx receipt d r h =
      elim (Result-cases
        (revert_error lib codec parts reverts retry_lib times trace_tx s tx receipt)) [
          | inr (inl (e, q)) ↦ absurd (ground (arith, q, h))
          | inr (inr q) ↦ absurd (ground (arith, q, h))
          | inl (revert, q) ↦
              let (decoded, same, kept) =
                with_decoding-some s s' revert r d
                  (decode_transaction lib codec parts (is_some s.store) s.finder tx receipt)
                  (ground (arith, q, h)) in
              (
                q ∙ ap ok (sym same),
                decoded,
                subst (λ x. KeepsConfig s.config s'.config x) (sym same) kept,
              )
        ]

  not_submitted :
      (d : DecodedTransaction Signed Value) (r : Option Error) (e : Error)
      (s s' : Decoder lib codec) (reason : Result Text)
      → ◌≡◌ {A = Decoder lib codec × Result (Outcome lib codec Signed)}
          (s, submission_error lib codec parts reverts retry_lib times trace_tx e reason)
          (s', ok (some d, r))
      → ⊥
  unfolding submission_error
  not_submitted d r e s s' (ok text) h = ground (arith, h)
  not_submitted d r e s s' (err x) h = ground (arith, h)
  not_submitted d r e s s' Result.panic h = ground (arith, h)

  pub decode-IsReturned :
      (s s' : Decoder lib codec) (tx : Option Signed) (tx_err : Option Error)
      (d : DecodedTransaction Signed Value) (r : Option Error)
      → decode lib codec parts reverts retry_lib times trace_tx s tx tx_err ≡ (s', ok (some d, r))
      → (s.errors ≡ [])
        × (tx_err ≡ none)
        × (t : Signed) × (tx ≡ some t)
        × (t' : Signed) × (receipt : Receipt) × (mined retry_lib times s.config s.addresses t
            ≡ ok (t', receipt))
        × IsReturned s s' t' receipt d r
  unfolding decode
  decode-IsReturned s s' tx (some e) d r h = elim (List-cases s.errors) [
    | inr (x, xs, q) ↦ absurd (ground (arith, q, h))
    | inl q ↦ absurd (
        not_submitted d r e s s' (decode_custom_abi_err lib reverts s.store (some e))
          (ground (arith, q, h)))
  ]
  decode-IsReturned s s' none none d r h = elim (List-cases s.errors) [
    | inr (x, xs, q) ↦ absurd (ground (arith, q, h))
    | inl q ↦ absurd (ground (arith, q, h))
  ]
  decode-IsReturned s s' (some t) none d r h = elim (List-cases s.errors) [
    | inr (x, xs, q) ↦ absurd (ground (arith, q, h))
    | inl q ↦ elim (Result-cases (mined retry_lib times s.config s.addresses t)) [
      | inr (inl (e, g)) ↦ absurd (ground (arith, q, g, h))
      | inr (inr g) ↦ absurd (ground (arith, q, g, h))
      | inl ((t', receipt), g) ↦ (
        q,
        refl,
        t,
        refl,
        t',
        receipt,
        g,
        decode_mined-some s s' t' receipt d r (ground (arith, q, g, h)),
      )
    ]
  ]

  -- A transaction that Decode returns without an error was mined without being reverted, or it was
  -- reverted and its sender cannot be recovered.
  pub decode_succeeded :
      (s s' : Decoder lib codec) (tx : Option Signed) (tx_err : Option Error)
      (d : DecodedTransaction Signed Value)
      → decode lib codec parts reverts retry_lib times trace_tx s tx tx_err
        ≡ (s', ok (some d, none))
      → (t t' : Signed) × (receipt : Receipt) × (tx ≡ some t)
        × (mined retry_lib times s.config s.addresses t ≡ ok (t', receipt))
        × ((receipt.status ≢ 0) ⊎ ((e : Error) × (RevertLib.sender reverts t' ≡ err e)))
  unfolding revert_error
  decode_succeeded s s' tx tx_err d h =
      let (no_errors, no_err, t, q, t', receipt, m, (reverted, decoded, kept)) =
        decode-IsReturned s s' tx tx_err d none h in
      elim (ℕ_discrete receipt.status 0) [
        | no n ↦ (t, t', receipt, q, m, inl n)
        | yes z ↦ (
          t,
          t',
          receipt,
          q,
          m,
          inr (
              call_and_get_revert_reason-none lib reverts parts s.store t' receipt
                (ground (arith, z, reverted))),
        )
      ]
