-- ===== src/Tracing/Decode.antt =====
-- decodeCall of tracing.go, with decodeContractLogs and getHumanReadableAddressName.
pub mod Fails
use seth.Prelude.{
  ℕ, ◌+◌, Bool, true, false, ◌||◌, Option, none, some, List, [], ◌∷◌, ◌++◌, if◌then◌else◌, length,
  map,
}
use seth.Prelude.Int.{ℤ, pos, ltb_ℤ, pos_part}
use seth.Prelude.Text.{Text, codes, ◌==ₜ◌, to_lower, trim_prefix, decimal}
use seth.Prelude.Words.{parse_hex_int, uint64_of_int}
use seth.Prelude.Errors.{Error, Result, ok, err, ◌>>=◌, wrap_err}
use seth.Prelude.Map.{Map}
use seth.ContractMap.{ContractMap, unknown, is_known_address, get_contract_name}
use seth.AbiFinder.{AbiLib, AbiFinder, AbiFinderResult, find_abi_by_method}
use seth.Decode.{
  Codec, Event, LogView, decode_tx_inputs, decode_tx_outputs, decode_event_from_log,
  decoded_log_from_maps,
}
use seth.Tracing.Calls.{TraceLog, CallFields, DecodedCommonLog, DecodedCall, comment_missing_abi}

-- the loop of isOwnAddress
unfoldable pub is_own_address : List Text → Text → Bool
is_own_address [] addr = false
is_own_address (a ∷ addresses) addr = to_lower a ==ₜ addr || is_own_address addresses addr

unfoldable pub human_readable_name : ContractMap → List Text → Text → Text
human_readable_name contracts addresses address =
    if is_known_address contracts address
    then get_contract_name contracts address
    else (if is_own_address addresses address then codes "you" else unknown)

-- a number of the node in hexadecimal: zero where it is empty, 0x0 or no number
unfoldable pub hex_value : Text → ℤ
hex_value v =
    if v ==ₜ [] || v ==ₜ codes "0x0"
    then pos 0
    else elim (parse_hex_int (trim_prefix v (codes "0x"))) [ none ↦ pos 0 | some n ↦ n ]

-- the comment for `n` other contracts with the method
unfoldable pub duplicates_comment : ℤ → Text
duplicates_comment n =
    if ltb_ℤ (pos 0) n
    then codes "potentially inaccurate - method present in "
      ++ decimal (pos_part n)
      ++ codes " other contracts"
    else []

unfoldable pub missing_comment : Text → Text
missing_comment comment =
    if comment ==ₜ [] then comment_missing_abi else comment ++ codes "; " ++ comment_missing_abi

-- getDefaultDecodedCall
unfoldable pub default_decoded_call : {V : Type 0} → DecodedCall V
default_decoded_call = record {
  call_type = unknown;
  signature = unknown;
  method = unknown;
  input = some [];
  output = some [];
  nesting_level = pos 0;
  parent_signature = [];
  error = [];
  from_address = unknown;
  to_address = unknown;
  from = unknown;
  to = unknown;
  events = [];
  comment = [];
  value = pos 0;
  gas_limit = 0;
  gas_used = 0;
}

-- a decoding whose error is only logged leaves the value as it was
unfoldable pub or_keep {ℓ} : {A : Type ℓ} → A → Result A → Result A
or_keep a (ok b) = ok b
or_keep a (err e) = ok a
or_keep a Result.panic = Result.panic

module _ (lib : AbiLib) (codec : Codec lib) where
  open lib use {Abi, Method}
  open codec use {
    Kind, Value, events, method_sig, method_id, hex2bytes, bytes2hex, hexutil_decode, hex_to_hash,
    hex_to_address,
  }

  -- GetTopics and GetData of TraceLog
  unfoldable pub log_view : TraceLog → LogView
  log_view lo = record {
    topics = map hex_to_hash lo.topics;
    payload = hex2bytes (trim_prefix lo.payload (codes "0x"));
  }

  unfoldable pub decode_log : Abi → Event Kind → TraceLog → Result (DecodedCommonLog Value)
  decode_log a event lo = do
    maps ←
        wrap_err (codes "failed to decode log")
          (decode_event_from_log lib codec a event (log_view lo))
    ok (record {
      signature = event.sig;
      address = hex_to_address lo.address;
      event_data = decoded_log_from_maps maps.0 maps.1;
      topics = lo.topics;
    })

  -- lo.Topics[0]
  unfoldable pub first_topic : TraceLog → Result Text
  first_topic lo = elim lo.topics [ [] ↦ Result.panic | topic ∷ topics ↦ ok topic ]

  -- the inner loop, over the events of the ABI
  unfoldable pub decode_log_by :
      Abi → TraceLog → List (Event Kind) → Result (List (DecodedCommonLog Value))
  decode_log_by a lo [] = ok []
  decode_log_by a lo (event ∷ specs) = do
    topic ← first_topic lo
    parsed ← (if event.id ==ₜ topic then (do d ← decode_log a event lo; ok (d ∷ [])) else ok [])
    rest ← decode_log_by a lo specs
    ok (parsed ++ rest)

  unfoldable pub decode_contract_logs : List TraceLog → Abi → Result (List (DecodedCommonLog Value))
  decode_contract_logs [] a = ok []
  decode_contract_logs (lo ∷ logs) a = do
    parsed ← decode_log_by a lo (events a)
    rest ← decode_contract_logs logs a
    ok (parsed ++ rest)

  -- what is known of the call without its ABI
  unfoldable pub described : AbiFinder lib → List Text → Text → CallFields → ℤ → DecodedCall Value
  described finder addresses sig f duplicates = record default_decoded_call {
    signature = bytes2hex sig;
    from_address = f.from;
    to_address = f.to;
    from = human_readable_name finder.contract_map addresses f.from;
    to = human_readable_name finder.contract_map addresses f.to;
    comment = duplicates_comment duplicates;
    call_type = f.call_type;
    error = f.error;
    value = hex_value f.value;
    gas_limit = uint64_of_int (hex_value f.gas);
    gas_used = uint64_of_int (hex_value f.gas_used);
  }

  unfoldable pub decode_output :
      CallFields → Method → Option (Map Text Value) → Result (Option (Map Text Value))
  decode_output f method before = if f.output ==ₜ [] then ok before else (do
    output ← wrap_err (codes "failed to decode transaction output") (hexutil_decode f.output)
    or_keep before (decode_tx_outputs lib codec output method))

  -- the call with the method and the ABI found for it
  unfoldable pub with_abi :
      CallFields → DecodedCall Value → AbiFinderResult lib → Result (DecodedCall Value)
  with_abi f d found = do
    input ←
        or_keep d.input
          (decode_tx_inputs lib codec (hex2bytes (trim_prefix f.input (codes "0x"))) found.method)
    output ← decode_output f found.method d.output
    decoded ← or_keep d.events (decode_contract_logs f.logs found.abi)
    ok (record d {
      method = method_sig found.method;
      signature = bytes2hex (method_id found.method);
      input = input;
      output = output;
      events = decoded;
    })

  unfoldable pub decode_found :
      List Text
      → Text
      → CallFields
      → AbiFinder lib × Result (AbiFinderResult lib)
      → AbiFinder lib × Result (DecodedCall Value)
  decode_found addresses sig f (finder, ok found) =
      (finder, with_abi f (described finder addresses sig f found.duplicate_count) found)
  decode_found addresses sig f (finder, err e) = (
    finder,
    (let d = described finder addresses sig f (pos 0) in
        ok (record d { comment = missing_comment d.comment })),
  )
  decode_found addresses sig f (finder, Result.panic) = (finder, Result.panic)

  -- `sig` is the method's signature in hexadecimal, as the walk over the calls has it.
  unfoldable pub decode_call :
      List Text → AbiFinder lib → Text → CallFields → AbiFinder lib × Result (DecodedCall Value)
  decode_call addresses finder sig f =
      decode_found addresses (hex2bytes sig) f (find_abi_by_method lib finder f.to (hex2bytes sig))
