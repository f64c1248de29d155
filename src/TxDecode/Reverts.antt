-- ===== src/TxDecode/Reverts.antt =====
-- decode.go: why a transaction was reverted. What go-ethereum and the node give is the parameter
-- `RevertLib`.
pub mod Reasons
use seth.Prelude.{
  ℕ, Bool, true, false, Option, none, some, List, [], ◌∷◌, ◌++◌, if◌then◌else◌, ltb, length, take,
  drop,
}
use seth.Prelude.Int.{ℤ}
use seth.Prelude.Text.{Text, codes, ◌==ₜ◌}
use seth.Prelude.Errors.{Error, plain, message, Result, ok, err, ◌>>=◌, wrap_err, Done}
use seth.Prelude.Map.{Map}
use seth.AbiFinder.{AbiLib}
use seth.ContractStore.{ContractStore}
use seth.Pragma.{Pragma, decode_pragma_version}
use seth.Retry.{TxBody, Tx, legacy, dynamic_fee, blob, access_list, other}
use seth.Mining.{Receipt}
use seth.TxDecode.{TxParts}

-- ethereum.CallMsg; a price that is not set is `none`
pub record CallMsg : Type 0 where
  pub from : Text
  pub to : Option Text
  pub gas : ℕ
  pub gas_price : Option ℤ
  pub gas_fee_cap : Option ℤ
  pub gas_tip_cap : Option ℤ
  pub value : ℤ
  pub payload : Text

-- `error_data` is the cast to rpc.DataError, with the data of such an error, which may be nil. The
-- errors of an ABI are the pairs of `errors`, and `unpack_error` gives the values as %v prints them.
-- `call_contract` is the error of CallContract at a block.
pub record RevertLib (lib : AbiLib) (Signed : Type 0) : Type 1 where
  pub AbiError : Type 0
  pub errors : AbiLib.Abi lib → List (Text × AbiError)
  pub error_id : AbiError → Text
  pub unpack_error : AbiError → Text → Result Text
  pub error_data : Error → Option (Option Text)
  pub hex_decode : Text → Result Text
  pub body : Signed → Tx
  pub sender : Signed → Result Text
  pub call_contract : CallMsg → ℕ → Option Error
  pub code_at : Text → ℕ → Result Text
  pub bytes_hex : Text → Text

abbrev pub cast_error : Error
cast_error = plain (codes "failed to cast CallMsg error as rpc.DataError")

-- the fields that all kinds of transaction have; another kind has none
abbrev no_body : TxBody
no_body = record { nonce = 0; to = none; value = ℤ.pos 0; gas = 0; payload = [] }

unfoldable pub message_of : Text → TxBody → CallMsg
message_of from body = record {
  from = from;
  to = body.to;
  gas = body.gas;
  gas_price = none;
  gas_fee_cap = none;
  gas_tip_cap = none;
  value = body.value;
  payload = body.payload;
}

-- the two fees of a transaction that is not a legacy one
unfoldable pub with_fees : ℤ → ℤ → CallMsg → CallMsg
with_fees cap tip msg = record msg { gas_fee_cap = some cap; gas_tip_cap = some tip }

unfoldable pub message_of_tx : Text → Tx → CallMsg
message_of_tx from (legacy body price) = record (message_of from body) { gas_price = some price }
message_of_tx from (dynamic_fee body cap tip) = with_fees cap tip (message_of from body)
message_of_tx from (blob body cap tip blob_cap hashes) = with_fees cap tip (message_of from body)
message_of_tx from (access_list body price accesses) = with_fees price price (message_of from body)
message_of_tx from (other n) = message_of from no_body

module _ (lib : AbiLib) {Signed : Type 0} (reverts : RevertLib lib Signed) where
  open lib use {Abi}
  open reverts use {
    AbiError, errors, error_id, unpack_error, error_data, hex_decode, body, sender, call_contract,
    code_at, bytes_hex,
  }

  -- s[2:] and hex.DecodeString
  unfoldable pub data_of : Text → Result Text
  data_of s = if ltb (length s) 2 then Result.panic else hex_decode (drop 2 s)

  -- One error of an ABI: the text that is returned, or `none` to go on.
  unfoldable pub try_error : Text → Text → AbiError → Result (Option Text)
  try_error s name abi_error = do
    bytes ← data_of s
    if ltb (length bytes) 4
        then ok (some [])
        else (if take 4 bytes ==ₜ take 4 (error_id abi_error)
            then (do
              v ← unpack_error abi_error bytes
              ok (some (codes "error type: " ++ name ++ codes ", error values: " ++ v)))
            else ok none)

  unfoldable pub try_errors : Text → List (Text × AbiError) → Result (Option Text)
  try_errors s [] = ok none
  try_errors s ((name, abi_error) ∷ rest) = do
    found ← try_error s name abi_error
    elim found [ some text ↦ ok (some text) | none ↦ try_errors s rest ]

  unfoldable pub try_abis : Text → Map Text Abi → Result Text
  try_abis s [] = ok []
  try_abis s ((name, a) ∷ abis) = do
    found ← try_errors s (errors a)
    elim found [ some text ↦ ok text | none ↦ try_abis s abis ]

  -- `none` is a nil error. A client without a contract store has `none`.
  unfoldable pub decode_custom_abi_err : Option (ContractStore Abi) → Option Error → Result Text
  decode_custom_abi_err store none = err cast_error
  decode_custom_abi_err store (some tx_err) = elim (error_data tx_err) [
    | none ↦ err cast_error
    | some payload ↦ elim store [
      | none ↦ ok []
      | some kept ↦ elim payload [ none ↦ ok [] | some s ↦ try_abis s kept.abis ]
    ]
  ]

  unfoldable pub call_msg_from_tx : Signed → Result CallMsg
  call_msg_from_tx tx = do from ← sender tx; ok (message_of_tx from (body tx))

  unfoldable pub download_contract_and_get_pragma : Text → ℕ → Result Pragma
  download_contract_and_get_pragma address block = do
    code ← wrap_err (codes "failed to get contract code") (code_at address block)
    decode_pragma_version (bytes_hex code)

  -- an outcome that is only logged, which a panic ends all the same
  unfoldable pub only_logged {ℓ} : {A : Type ℓ} → Result A → Done
  only_logged (ok a) = ok tt
  only_logged (err e) = ok tt
  only_logged Result.panic = Result.panic

  -- the compiler version of the contract, for the log
  unfoldable pub log_pragma : Option Text → ℕ → Error → Done
  log_pragma recipient block e =
      if message e ==ₜ codes "execution reverted"
      then elim recipient [
        | none ↦ ok tt
        | some address ↦ only_logged (download_contract_and_get_pragma address block)
      ]
      else ok tt

  -- after the call
  unfoldable pub reason_of :
      TxParts Signed → Signed → Receipt → Option Error → Result Text → Result (Option Error)
  reason_of parts tx receipt e (err decode_err) = ok (some decode_err)
  reason_of parts tx receipt e Result.panic = Result.panic
  reason_of parts tx receipt e (ok text) =
      if text ==ₜ []
      then elim e [
        | none ↦ ok none
        | some plain_err ↦ do
          u ← log_pragma (parts.recipient tx) receipt.block_number plain_err
          ok (some plain_err)
      ]
      else ok (some (plain text))

  unfoldable pub call_and_get_revert_reason :
      TxParts Signed → Option (ContractStore Abi) → Signed → Receipt → Result (Option Error)
  call_and_get_revert_reason parts store tx receipt = elim (call_msg_from_tx tx) [
    | Result.panic ↦ Result.panic
    | err e ↦ ok none
    | ok msg ↦
        reason_of parts tx receipt (call_contract msg receipt.block_number)
          (decode_custom_abi_err store (call_contract msg receipt.block_number))
  ]
