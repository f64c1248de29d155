-- ===== src/TxDecode/Reverts/Reasons.antt =====
-- Which reasons a reverted transaction gets.
use seth.Prelude.{
  ℕ, suc, ◌≤◌, ◌≡◌, ◌≢◌, Option, none, some, List, [], ◌∷◌, ◌++◌, Bool-cases, Option-cases, inl,
  inr, refl, ap, ◌∙◌, arith, length, take, get_elem?, ltb,
}
use seth.Prelude.Text.{Text, codes, text_dec}
use seth.Prelude.Errors.{Error, Result, ok, err, Result-cases}
use seth.Prelude.Map.{Map}
use seth.AbiFinder.{AbiLib}
use seth.ContractStore.{ContractStore}
use seth.Mining.{Receipt}
use seth.TxDecode.{TxParts}
use seth.TxDecode.Reverts.{
  RevertLib, data_of, try_error, try_errors, try_abis, decode_custom_abi_err, call_msg_from_tx,
  log_pragma, reason_of, call_and_get_revert_reason, message_of_tx,
}

module _ (lib : AbiLib) {Signed : Type 0} (reverts : RevertLib lib Signed) where
  open lib use {Abi}
  open reverts use {
    AbiError, errors, error_id, unpack_error, error_data, sender, call_contract, body,
  }

  -- The text of a custom error: of an error of the ABI whose selector the data begins with.
  abbrev pub IsErrorText : Text → Text → Text → AbiError → Type 0
  IsErrorText s text name abi_error =
      (bytes : Text) × (data_of lib reverts s ≡ ok bytes)
      × (4 ≤ length bytes)
      × (take 4 bytes ≡ take 4 (error_id abi_error))
      × (v : Text) × (unpack_error abi_error bytes ≡ ok v)
      × (text ≡ codes "error type: " ++ name ++ codes ", error values: " ++ v)

  try_error-IsErrorText :
      (s text name : Text) (abi_error : AbiError)
      → try_error lib reverts s name abi_error ≡ ok (some text)
      → text ≢ []
      → IsErrorText s text name abi_error
  unfolding try_error
  try_error-IsErrorText s text name abi_error h n = elim (Result-cases (data_of lib reverts s)) [
    | inr (inl (e, q)) ↦ absurd (ground (arith, q, h))
    | inr (inr q) ↦ absurd (ground (arith, q, h))
    | inl (bytes, q) ↦ elim (Bool-cases (ltb (length bytes) 4)) [
      | inl e ↦ absurd (ground (arith, q, e, h, n))
      | inr e ↦ elim (text_dec (take 4 bytes) (take 4 (error_id abi_error))) [
        | no f ↦ absurd (ground (arith, q, e, f, h))
        | yes f ↦ elim (Result-cases (unpack_error abi_error bytes)) [
          | inr (inl (x, g)) ↦ absurd (ground (arith, q, e, f, g, h))
          | inr (inr g) ↦ absurd (ground (arith, q, e, f, g, h))
          | inl (v, g) ↦ (bytes, q, ground (arith, e), f, v, g, ground (arith, q, e, f, g, h))
        ]
      ]
    ]
  ]

  try_errors-IsErrorText :
      (s text : Text) (specs : List (Text × AbiError))
      → try_errors lib reverts s specs ≡ ok (some text)
      → text ≢ []
      → (j : ℕ) × (name : Text) × (abi_error : AbiError) × (get_elem? specs j
          ≡ some (name, abi_error))
        × IsErrorText s text name abi_error
  unfolding try_errors
  try_errors-IsErrorText s text [] h n = cc
  try_errors-IsErrorText s text ((name, abi_error) ∷ specs) h n =
      elim (Result-cases (try_error lib reverts s name abi_error)) [
        | inr (inl (e, q)) ↦ absurd (ground (arith, q, h))
        | inr (inr q) ↦ absurd (ground (arith, q, h))
        | inl (some found, q) ↦
            let same : found ≡ text = ground (arith, q, h) in
            (
              0,
              name,
              abi_error,
              refl,
              try_error-IsErrorText s text name abi_error (q ∙ ap (λ x. ok (some x)) same) n,
            )
        | inl (none, q) ↦
            let (j, name', abi_error', e, t) =
              try_errors-IsErrorText s text specs (ground (arith, q, h)) n in
            (suc j, name', abi_error', e, t)
      ]

  -- The outcome of try_abis: an error of one of the ABIs.
  try_abis-IsErrorText :
      (s text : Text) (abis : Map Text Abi)
      → try_abis lib reverts s abis ≡ ok text
      → text ≢ []
      → (i : ℕ) × (file : Text) × (a : Abi) × (get_elem? abis i ≡ some (file, a))
        × (j : ℕ) × (name : Text) × (abi_error : AbiError) × (get_elem? (errors a) j
            ≡ some (name, abi_error))
        × IsErrorText s text name abi_error
  unfolding try_abis
  try_abis-IsErrorText s text [] h n = absurd (ground (arith, h, n))
  try_abis-IsErrorText s text ((file, a) ∷ abis) h n =
      elim (Result-cases (try_errors lib reverts s (errors a))) [
        | inr (inl (e, q)) ↦ absurd (ground (arith, q, h))
        | inr (inr q) ↦ absurd (ground (arith, q, h))
        | inl (some found, q) ↦
            let same : found ≡ text = ground (arith, q, h) in
            let (j, name, abi_error, e, t) =
              try_errors-IsErrorText s text (errors a) (q ∙ ap (λ x. ok (some x)) same) n in
            (0, file, a, refl, j, name, abi_error, e, t)
        | inl (none, q) ↦
            let (i, file', a', f, j, name, abi_error, e, t) =
              try_abis-IsErrorText s text abis (ground (arith, q, h)) n in
            (suc i, file', a', f, j, name, abi_error, e, t)
      ]

  -- A text other than the empty one that DecodeCustomABIErr gives for an error of a call names an error
  -- of one of the ABIs of the contract store: the data of the call's error have at least 4 bytes, the
  -- first 4 are the selector of that error, and the text has its name and the values unpacked.
  pub decode_custom_abi_err-IsErrorText :
      (store : Option (ContractStore Abi)) (tx_err : Option Error) (text : Text)
      → decode_custom_abi_err lib reverts store tx_err ≡ ok text
      → text ≢ []
      → (e : Error) × (tx_err ≡ some e)
        × (s : Text) × (error_data e ≡ some (some s))
        × (kept : ContractStore Abi) × (store ≡ some kept)
        × (i : ℕ) × (file : Text) × (a : Abi) × (get_elem? kept.abis i ≡ some (file, a))
        × (j : ℕ) × (name : Text) × (abi_error : AbiError) × (get_elem? (errors a) j
            ≡ some (name, abi_error))
        × IsErrorText s text name abi_error
  unfolding decode_custom_abi_err
  decode_custom_abi_err-IsErrorText store none text h n = cc
  decode_custom_abi_err-IsErrorText none (some e) text h n = elim (Option-cases (error_data e)) [
    | inl q ↦ absurd (ground (arith, q, h))
    | inr (payload, q) ↦ absurd (ground (arith, q, h, n))
  ]
  decode_custom_abi_err-IsErrorText (some kept) (some e) text h n =
      elim (Option-cases (error_data e)) [
        | inl q ↦ absurd (ground (arith, q, h))
        | inr (none, q) ↦ absurd (ground (arith, q, h, n))
        | inr (some s, q) ↦
            let (i, file, a, f, j, name, abi_error, g, t) =
              try_abis-IsErrorText s text kept.abis (ground (arith, q, h)) n in
            (e, refl, s, q, kept, refl, i, file, a, f, j, name, abi_error, g, t)
      ]

  module _ (parts : TxParts Signed) (store : Option (ContractStore Abi)) (tx : Signed)
      (receipt : Receipt) where
    reason_of-some :
        (e : Error) (decoded : Result Text)
        → reason_of lib reverts parts tx receipt (some e) decoded ≢ ok none
    unfolding reason_of
    reason_of-some e (err x) h = cc
    reason_of-some e Result.panic h = cc
    reason_of-some e (ok text) h = elim (text_dec text []) [
      | no n ↦ ground (arith, n, h)
      | yes z ↦
          elim (Result-cases (log_pragma lib reverts (parts.recipient tx) receipt.block_number e)) [
            | inl (u, q) ↦ ground (arith, z, q, h)
            | inr (inl (x, q)) ↦ ground (arith, z, q, h)
            | inr (inr q) ↦ ground (arith, z, q, h)
          ]
    ]

    reason_of-none :
        (e : Option Error)
        → reason_of lib reverts parts tx receipt e (decode_custom_abi_err lib reverts store e)
          ≢ ok none
    unfolding reason_of decode_custom_abi_err
    reason_of-none none h = cc
    reason_of-none (some e) h =
        reason_of-some e (decode_custom_abi_err lib reverts store (some e)) h

    -- callAndGetRevertReason gives no error only where the sender of the transaction cannot be
    -- recovered: also where the call does not fail this time, since a nil error does not cast to
    -- rpc.DataError.
    pub call_and_get_revert_reason-none :
        call_and_get_revert_reason lib reverts parts store tx receipt ≡ ok none
        → (e : Error) × (sender tx ≡ err e)
    unfolding call_and_get_revert_reason call_msg_from_tx
    call_and_get_revert_reason-none h = elim (Result-cases (sender tx)) [
      | inr (inl (e, q)) ↦ (e, q)
      | inr (inr q) ↦ absurd (ground (arith, q, h))
      | inl (from, q) ↦ absurd (
          reason_of-none (call_contract (message_of_tx from (body tx)) receipt.block_number)
            (ground (arith, q, h)))
    ]
