-- ===== src/TxDecode.antt =====
-- decode.go and client.go: the decoding of a transaction with its inputs and logs.
pub mod Reverts
pub mod Run
use seth.Prelude.{
  ℕ, Bool, true, false, Option, none, some, List, [], ◌∷◌, ◌++◌, if◌then◌else◌, ltb, length, take,
}
use seth.Prelude.Text.{Text, codes, ◌==ₜ◌}
use seth.Prelude.Errors.{Error, wrapped, Result, ok, err, ◌>>=◌, wrap_err}
use seth.Prelude.Map.{Map}
use seth.ContractMap.{unknown}
use seth.AbiFinder.{AbiLib, AbiFinder, AbiFinderResult, find_abi_by_method}
use seth.Decode.{Codec, Event, decode_tx_inputs, decode_event_from_log, decoded_log_from_maps}
use seth.Mining.{TxLog, Receipt}

-- Data, To().String(), Hash().String() and Protected of a transaction
pub record TxParts (Signed : Type 0) : Type 0 where
  pub tx_data : Signed → Text
  pub recipient : Signed → Option Text
  pub hash : Signed → Text
  pub protected : Signed → Bool

pub record DecodedTransactionLog (Value : Type 0) : Type 0 where
  pub signature : Text
  pub address : Text
  pub event_data : Map Text Value
  pub topics : List Text
  pub block_number : ℕ
  pub index : ℕ
  pub tx_hash : Text
  pub tx_index : ℕ
  pub removed : Bool

pub record DecodedTransaction (Signed Value : Type 0) : Type 0 where
  pub signature : Text
  pub method : Text
  pub input : Option (Map Text Value)
  pub index : ℕ
  pub receipt : Option Receipt
  pub transaction : Signed
  pub protected : Bool
  pub hash : Text
  pub events : List (DecodedTransactionLog Value)

module _ (lib : AbiLib) (codec : Codec lib) where
  open lib use {Abi, Method}
  open codec use {Kind, Value, events, method_sig, method_id, bytes2hex}

  -- the log with the data of the event, and mergeLogMeta
  unfoldable pub decode_tx_log : Abi → Event Kind → TxLog → Result (DecodedTransactionLog Value)
  decode_tx_log a event lo = do
    maps ← wrap_err (codes "failed to decode log") (
        decode_event_from_log lib codec a event
          (record { topics = lo.topics; payload = lo.payload }))
    ok (record {
      signature = event.sig;
      address = lo.address;
      event_data = decoded_log_from_maps maps.0 maps.1;
      topics = lo.topics;
      block_number = lo.block_number;
      index = lo.index;
      tx_hash = lo.tx_hash;
      tx_index = lo.tx_index;
      removed = lo.removed;
    })

  -- the inner loop, over the events of the ABI
  unfoldable pub decode_tx_log_by :
      Abi → TxLog → List (Event Kind) → Result (List (DecodedTransactionLog Value))
  decode_tx_log_by a lo [] = ok []
  decode_tx_log_by a lo (event ∷ specs) = do
    topic ← (elim lo.topics [ [] ↦ Result.panic | topic ∷ topics ↦ ok topic ])
    parsed ← (if event.id ==ₜ topic then (do d ← decode_tx_log a event lo; ok (d ∷ [])) else ok [])
    rest ← decode_tx_log_by a lo specs
    ok (parsed ++ rest)

  unfoldable pub decode_tx_logs : List TxLog → Abi → Result (List (DecodedTransactionLog Value))
  decode_tx_logs [] a = ok []
  decode_tx_logs (lo ∷ logs) a = do
    parsed ← decode_tx_log_by a lo (events a)
    rest ← decode_tx_logs logs a
    ok (parsed ++ rest)

  module _ {Signed : Type 0} (parts : TxParts Signed) where
    open parts use {tx_data, recipient, hash, protected}

    unfoldable pub default_txn : Signed → Option Receipt → DecodedTransaction Signed Value
    default_txn tx receipt = record {
      signature = [];
      method = [];
      input = none;
      index = 0;
      receipt = receipt;
      transaction = tx;
      protected = protected tx;
      hash = hash tx;
      events = [];
    }

    unfoldable pub txn_with :
        Signed
        → Receipt
        → Method
        → Option (Map Text Value)
        → List (DecodedTransactionLog Value)
        → DecodedTransaction Signed Value
    txn_with tx receipt method input logs = record (default_txn tx (some receipt)) {
      signature = bytes2hex (method_id method);
      method = method_sig method;
      input = input;
      index = receipt.transaction_index;
      events = logs;
    }

    -- A decoded transaction and the error of its decoding.
    abbrev pub Decoding : Type 0
    Decoding = DecodedTransaction Signed Value × Option Error

    -- the transaction with its ABI and method
    unfoldable pub decode_with : Signed → Receipt → AbiFinderResult lib → Result Decoding
    decode_with tx receipt found = elim (decode_tx_inputs lib codec (tx_data tx) found.method) [
      | Result.panic ↦ Result.panic
      | err e ↦ ok (
        default_txn tx (some receipt),
        some (wrapped (codes "failed to decode transaction input") e),
      )
      | ok input ↦ elim (decode_tx_logs receipt.logs found.abi) [
        | Result.panic ↦ Result.panic
        | err e ↦ ok (default_txn tx (some receipt), some e)
        | ok logs ↦ ok (txn_with tx receipt found.method input logs, none)
      ]
    ]

    unfoldable pub decode_found_tx :
        Signed
        → Receipt
        → AbiFinder lib × Result (AbiFinderResult lib)
        → Option (AbiFinder lib) × Result Decoding
    decode_found_tx tx receipt (finder, ok found) = (some finder, decode_with tx receipt found)
    decode_found_tx tx receipt (finder, err e) =
        (some finder, ok (default_txn tx (some receipt), some e))
    decode_found_tx tx receipt (finder, Result.panic) = (some finder, Result.panic)

    unfoldable pub address_of : Option Text → Text
    address_of none = unknown
    address_of (some address) = address

    -- decodeTransaction with a receipt. `has_store` tells whether the client has a contract store; its
    -- ABI finder may be nil.
    unfoldable pub decode_transaction :
        Bool → Option (AbiFinder lib) → Signed → Receipt → Option (AbiFinder lib) × Result Decoding
    decode_transaction has_store finder tx receipt =
        let default : Result Decoding = ok (default_txn tx (some receipt), none) in
        if ltb (length (tx_data tx)) 4
        then (finder, default)
        else (if has_store
            then elim finder [
              | none ↦ (none, default)
              | some f ↦
                  decode_found_tx tx receipt
                    (find_abi_by_method lib f (address_of (recipient tx)) (take 4 (tx_data tx)))
            ]
            else (finder, default))
