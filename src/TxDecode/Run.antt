-- ===== src/TxDecode/Run.antt =====
-- client.go and retry.go: Decode and RetryTxAndDecode. Printing and JSON files are left out.
pub mod Returned
pub mod Retried
use seth.Prelude.{
  ℕ, suc, Bool, true, false, ◌&&◌, ◌||◌, Option, none, some, List, [], ◌∷◌, ◌++◌, if◌then◌else◌,
  ◌==◌,
}
use seth.Prelude.Text.{Text, codes, ◌==ₜ◌, contains}
use seth.Prelude.Errors.{Error, plain, wrapped, message, Result, ok, err, ◌>>=◌, Done}
use seth.Config.{Config}
use seth.Config.Validate.{tracing_none, tracing_reverted, tracing_all}
use seth.AbiFinder.{AbiLib, AbiFinder}
use seth.ContractStore.{ContractStore}
use seth.Decode.{Codec}
use seth.Mining.{Receipt, RetryLib, Times, mined}
use seth.TxDecode.{TxParts, DecodedTransaction, Decoding, decode_transaction}
use seth.TxDecode.Reverts.{RevertLib, decode_custom_abi_err, call_and_get_revert_reason}

-- errors.Join: the messages on lines of their own
unfoldable pub lines : List Error → Text
lines [] = []
lines (e ∷ []) = message e
lines (e ∷ f ∷ es) = message e ++ 10 ∷ [] ++ lines (f ∷ es)

unfoldable pub join : List Error → Error
join es = plain (lines es)

-- errors.Is with an error that is made for the comparison: no other error is that one
unfoldable pub is_fresh : Option Error → Bool
is_fresh e = false

unfoldable pub is_some {ℓ} : {A : Type ℓ} → Option A → Bool
is_some none = false
is_some (some a) = true

unfoldable pub is_traced : Text → Option Error → Bool
is_traced level revert = level ==ₜ tracing_all || (level ==ₜ tracing_reverted && is_some revert)

-- the failure of a node without the debug API
unfoldable pub is_debug_missing : Error → Bool
is_debug_missing e = contains (message e) (codes "debug_traceTransaction does not exist")

unfoldable pub is_refused : Error → Bool
is_refused e = contains (message e) (codes "connection refused")

-- The variables of RetryTxAndDecode: the calls so far, and the transaction of the last one.
pub record Submission (Signed : Type 0) : Type 0 where
  pub calls : ℕ
  pub tx : Option Signed

-- `send` is the function that is given, by the number of the call
unfoldable pub submit_once :
    {Signed : Type 0} → (ℕ → Option Signed × Done) → Submission Signed → Submission Signed × Done
submit_once send s =
    let (tx, done) = send s.calls in (record { calls = suc s.calls; tx = tx }, done)

module _ (lib : AbiLib) (codec : Codec lib) where
  open lib use {Abi}
  open codec use {Value}

  -- The client's parts that Decode reads and changes.
  pub record Decoder : Type 0 where
    pub config : Config
    pub addresses : List Text
    pub errors : List Error
    pub store : Option (ContractStore Abi)
    pub finder : Option (AbiFinder lib)

  -- TraceGethTX by the hash and the revert error, which may teach the ABI finder
  abbrev pub TraceTx : Type 0
  TraceTx = Option (AbiFinder lib) → Text → Option Error → Option (AbiFinder lib) × Done

  abbrev pub Outcome : Type 0 → Type 0
  Outcome Signed = Option (DecodedTransaction Signed Value) × Option Error

  -- an outcome of `none` is the empty transaction
  unfoldable pub without_error :
      {Signed : Type 0} → Result (Outcome Signed) → Result (Outcome Signed)
  without_error Result.panic = Result.panic
  without_error (err e) = err e
  without_error (ok (d, none)) = ok (d, none)
  without_error (ok (d, some e)) = ok (none, some (wrapped (codes "error decoding transaction") e))

  module _ {Signed : Type 0} (parts : TxParts Signed) (reverts : RevertLib lib Signed)
      (retry_lib : RetryLib) (times : Times Signed) (trace_tx : TraceTx) where
    unfoldable pub after_trace : Decoder → Option (AbiFinder lib) × Done → Decoder × Done
    after_trace s (finder, ok u) = (record s { finder = finder }, ok tt)
    after_trace s (finder, Result.panic) = (record s { finder = finder }, Result.panic)
    after_trace s (finder, err e) =
        if is_debug_missing e
        then (
          record s { finder = finder; config = record s.config { tracing_level = tracing_none } },
          ok tt,
        )
        else (record s { finder = finder }, ok tt)

    unfoldable pub returned :
        DecodedTransaction Signed Value
        → Option Error
        → Decoder × Done
        → Decoder × Result (Outcome Signed)
    returned d revert (s, done) = (s, do u ← done; ok (some d, revert))

    -- after decodeTransaction
    unfoldable pub trace_decoded :
        Decoder → Option Error → Decoding lib codec parts → Decoder × Result (Outcome Signed)
    trace_decoded s revert (d, decode_err) =
        if is_fresh decode_err
        then (s, ok (some d, revert))
        else (if s.config.tracing_level ==ₜ tracing_none
            then (s, ok (some d, revert))
            else (if is_traced s.config.tracing_level revert
                then returned d revert (after_trace s (trace_tx s.finder d.hash revert))
                else (s, ok (some d, revert))))

    unfoldable pub with_decoding :
        Decoder
        → Option Error
        → Option (AbiFinder lib) × Result (Decoding lib codec parts)
        → Decoder × Result (Outcome Signed)
    with_decoding s revert (finder, ok decoding) =
        trace_decoded (record s { finder = finder }) revert decoding
    with_decoding s revert (finder, err e) = (record s { finder = finder }, err e)
    with_decoding s revert (finder, Result.panic) = (record s { finder = finder }, Result.panic)

    unfoldable pub revert_error : Decoder → Signed → Receipt → Result (Option Error)
    revert_error s tx receipt =
        if receipt.status == 0
        then call_and_get_revert_reason lib reverts parts s.store tx receipt
        else ok none

    unfoldable pub decode_mined : Decoder → Signed → Receipt → Decoder × Result (Outcome Signed)
    decode_mined s tx receipt = elim (revert_error s tx receipt) [
      | Result.panic ↦ (s, Result.panic)
      | err e ↦ (s, err e)
      | ok revert ↦
          with_decoding s revert
            (decode_transaction lib codec parts (is_some s.store) s.finder tx receipt)
    ]

    -- the error of a transaction that could not be submitted
    unfoldable pub submission_error : Error → Result Text → Result (Outcome Signed)
    submission_error tx_err (ok reason) = ok (none, some (wrapped reason tx_err))
    submission_error tx_err (err e) = ok (none, some tx_err)
    submission_error tx_err Result.panic = Result.panic

    -- The second part is what Decode returns, a transaction and an error.
    unfoldable pub decode :
        Decoder → Option Signed → Option Error → Decoder × Result (Outcome Signed)
    decode s tx tx_err = elim s.errors [
      | e ∷ es ↦ (s, ok (none, some (join (e ∷ es))))
      | [] ↦ elim tx_err [
        | some e ↦ (s, submission_error e (decode_custom_abi_err lib reverts s.store (some e)))
        | none ↦ elim tx [
          | none ↦ (s, ok (none, none))
          | some t ↦ elim (mined retry_lib times s.config s.addresses t) [
            | Result.panic ↦ (s, Result.panic)
            | err e ↦ (s, ok (none, some e))
            | ok (t', receipt) ↦ decode_mined s t' receipt
          ]
        ]
      ]
    ]

    unfoldable pub retry_tx_and_decode :
        (ℕ → Option Signed × Done) → Decoder → Decoder × Result (Outcome Signed)
    retry_tx_and_decode send s =
        let (sent, done) =
          retry_lib.retry (Submission Signed) 10 (submit_once send) (λ s e. some s) is_refused
            (record { calls = 0; tx = none }) in
        elim done [
          | Result.panic ↦ (s, Result.panic)
          | err e ↦ (s, ok (none, some (plain (codes "retry timeout"))))
          | ok u ↦ let (s', out) = decode s sent.tx none in (s', without_error out)
        ]
