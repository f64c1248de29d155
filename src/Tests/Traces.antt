-- ===== src/Tests/Traces.antt =====
-- DecodeTrace on a small trace, with an ABI of two methods.
use seth.Prelude.{
  ℕ, true, ◌≡◌, ◌≢◌, refl, none, List, [], ◌∷◌, ◌++◌, length, if◌then◌else◌, ℕ_discrete,
}
use seth.Prelude.Int.{pos, ◌+ℤ◌, ◌-ℤ◌, ℤ_discrete}
use seth.Prelude.Text.{
  Text, codes, text_dec, ◌==ₜ◌, to_lower, lower_byte, trim_prefix, has_prefix, contains,
  trim_suffix, has_suffix, decimal,
}
use seth.Prelude.Words.{parse_hex_int, uint64_of_int}
use seth.Prelude.Errors.{plain, wrapped, Result, ok, err, wrap_err}
use seth.Prelude.Map.{Map, lookup, insert}
use seth.Config.{any}
use seth.ContractMap.{
  read, is_known_address, get_contract_name, get_contract_address, key_of, add_contract,
}
use seth.AbiFinder.{
  AbiLib, AbiFinder, find_abi_by_method, find_known, adopt, first_match, contract_name_of,
  count_with, get_duplicate_count,
}
use seth.Decode.{
  Codec, indexed_topics, decode_tx_inputs, decode_tx_outputs, decode_data, decode_topics,
  decode_event_from_log, decoded_log_from_maps, merge, is_unnamed, numbered,
}
use seth.Tracing.Calls.{
  CallFields, Trace, comment_missing_abi, Call, call, Calls, nil, cons, FourByte, DecodedCall,
}
use seth.Tracing.Gather.{get_signature, signature_at, gather_call, preorder_call}
use seth.Tracing.Walk.{
  has_calls, failed_call, push, push_failed, count, enter, leave, after_decode, at_signature, go_on,
  process_call,
}
use seth.Tracing.Walk.Placed.{placed, Decoded}
use seth.Tracing.Decode.{
  default_decoded_call, decode_call, decode_found, with_abi, described, decode_output, or_keep,
  human_readable_name, is_own_address, hex_value, duplicates_comment, missing_comment, log_view,
  decode_log, decode_log_by, decode_contract_logs, first_topic,
}
use seth.Tracing.Decode.Fails.{IsFound, IsBadOutput, decode_call-err}
use seth.Tracing.Missing.{expected_calls, check_for_missing_calls}
use seth.Tracing.Missing.Unseen.{unseen, check_for_missing_calls-ok}
use seth.Tracing.Trace.{Tracer, decode_trace}
use seth.Tracing.Trace.Decoded.{trace_of, decode_trace-Decoded}

program : Unit {0}
unfolding text_dec ℕ_discrete to_lower lower_byte trim_prefix has_prefix contains trim_suffix
    has_suffix wrap_err lookup insert any read is_known_address get_contract_name
    get_contract_address key_of add_contract find_abi_by_method find_known adopt first_match
    contract_name_of count_with get_duplicate_count indexed_topics decode_tx_inputs
    decode_tx_outputs decode_data decode_topics decode_event_from_log decoded_log_from_maps merge
    is_unnamed numbered get_signature signature_at gather_call preorder_call has_calls failed_call
    push push_failed count enter leave after_decode at_signature go_on process_call placed Decoded
    default_decoded_call decode_call decode_found with_abi described decode_output or_keep
    human_readable_name is_own_address hex_value duplicates_comment missing_comment log_view
    decode_log decode_log_by decode_contract_logs first_topic expected_calls ◌+ℤ◌ ◌-ℤ◌ ℤ_discrete
    parse_hex_int uint64_of_int unseen decimal
program = tt

-- An ABI lists its methods, each a number under its signature.
abbrev pub lib : AbiLib
lib = record {
  Abi = Map Text ℕ;
  Method = ℕ;
  method_by_id = λ a sig. lookup text_dec sig a;
  method_error = λ a sig. plain (codes "no method");
}

-- Hexadecimal texts are spelled as they are, and "z" is none.
abbrev pub hex_output : Text → Result Text
hex_output t = if t ==ₜ codes "z" then err (plain (codes "invalid hex")) else ok t

abbrev pub codec : Codec lib
codec = record {
  Kind = ℕ;
  Value = Text;
  box = λ t. t;
  inputs = λ m. [];
  outputs = λ m. [];
  method_name = λ m. decimal m;
  method_sig = λ m. decimal m;
  method_id = λ m. decimal m;
  events = λ a. [];
  unpack_into_map = λ args payload. ok [];
  unpack_values = λ args payload. ok [];
  unpack_event = λ a name payload. ok [];
  parse_topics = λ args topics. ok [];
  hex2bytes = λ t. t;
  bytes2hex = λ t. t;
  hexutil_decode = hex_output;
  hex_to_hash = λ t. t;
  hex_to_address = λ t. t;
}

abbrev pub finder : AbiFinder lib
finder = record {
  contract_map = record { address_map = (codes "0xab", codes "Token") ∷ [] };
  contract_store = record {
    abis = (codes "Token.abi", (codes "aaaaaaaa", 1) ∷ (codes "bbbbbbbb", 2) ∷ []) ∷ [];
    bins = [];
  };
}

-- A call with an input, an output and the calls under it.
abbrev a_call : Text → Text → CallFields
a_call input output = record {
  from = codes "0x1";
  gas = codes "0x5208";
  gas_used = [];
  input = input;
  logs = [];
  output = output;
  to = codes "0xab";
  call_type = codes "CALL";
  value = codes "0x0";
  error = [];
}

abbrev top_call : CallFields
top_call = a_call (codes "0xaaaaaaaa") []

abbrev first_call : CallFields
first_call = a_call (codes "0xbbbbbbbb00") (codes "z")

abbrev inner_call : CallFields
inner_call = a_call (codes "0xcccccccc") []

abbrev last_call : CallFields
last_call = a_call (codes "0xdddddddd") []

abbrev below : Calls
below = cons (call first_call (cons (call inner_call nil) nil)) (cons (call last_call nil) nil)

abbrev tree : Call
tree = call top_call below

abbrev owners : List Text
owners = codes "0x1" ∷ []

bad_output :
    (decode_call lib codec owners finder (codes "bbbbbbbb") first_call).1
    ≡ err (wrapped (codes "failed to decode transaction output") (plain (codes "invalid hex")))
unfolding program
bad_output = refl

decode_call-err_example :
    IsFound lib codec finder (codes "bbbbbbbb") first_call
    × IsBadOutput lib codec first_call
        (wrapped (codes "failed to decode transaction output") (plain (codes "invalid hex")))
decode_call-err_example =
    decode_call-err lib codec owners finder (codes "bbbbbbbb") first_call
      (wrapped (codes "failed to decode transaction output") (plain (codes "invalid hex")))
      bad_output

-- The node counted two calls more, one of them of a signature that the trace does not show.
abbrev counted : Map Text FourByte
counted =
    (codes "0xaaaaaaaa", record { call_size = pos 0; times = pos 1 })
    ∷ (codes "0xeeeeeeee", record { call_size = pos 0; times = pos 2 })
    ∷ []

abbrev one_call : Calls
one_call = cons (call last_call nil) nil

abbrev the_trace : Trace
the_trace = trace_of (codes "0xhash") counted top_call one_call

check_for_missing_calls-ok_example :
    (ds : List (DecodedCall Text)) × (check_for_missing_calls lib codec finder the_trace
      ≡ (finder, ok ds))
    × (expected_calls counted (pos 0) ≡ pos (length (preorder_call (call top_call one_call)))
        → ds ≡ [])
    × (expected_calls counted (pos 0) ≢ pos (length (preorder_call (call top_call one_call)))
        → length ds ≡ unseen (preorder_call (call top_call one_call)) counted)
check_for_missing_calls-ok_example = check_for_missing_calls-ok lib codec finder the_trace

abbrev tracer : Tracer lib codec
tracer = record {
  addresses = owners;
  has_store = true;
  abi_finder = finder;
  traces = [];
  decoded_calls = [];
}

abbrev main_decoded : DecodedCall Text
main_decoded = record default_decoded_call {
  signature = codes "1";
  method = codes "1";
  input = none;
  from_address = codes "0x1";
  to_address = codes "0xab";
  from = codes "you";
  to = codes "Token";
  call_type = codes "CALL";
  gas_limit = 21000;
}

main_run :
    decode_call lib codec owners finder (codes "aaaaaaaa") top_call ≡ (finder, ok main_decoded)
unfolding program
main_run = refl

abbrev last_decoded : DecodedCall Text
last_decoded = record default_decoded_call {
  signature = codes "dddddddd";
  from_address = codes "0x1";
  to_address = codes "0xab";
  from = codes "you";
  to = codes "Token";
  comment = comment_missing_abi;
  call_type = codes "CALL";
  gas_limit = 21000;
}

abbrev last_placed : DecodedCall Text
last_placed = record last_decoded { nesting_level = pos 1; parent_signature = codes "aaaaaaaa" }

decode_trace-Decoded_example :
    (missing : List (DecodedCall Text)) × (decode_trace lib codec tracer the_trace ≡ (
      record tracer {
        abi_finder = finder;
        decoded_calls =
            insert text_dec (codes "0xhash") (main_decoded ∷ (last_placed ∷ []) ++ missing) [];
      },
      ok (main_decoded ∷ (last_placed ∷ []) ++ missing),
    ))
    × (expected_calls counted (pos 0) ≡ pos (length (preorder_call (call top_call one_call)))
        → missing ≡ [])
    × (expected_calls counted (pos 0) ≢ pos (length (preorder_call (call top_call one_call)))
        → length missing ≡ unseen (preorder_call (call top_call one_call)) counted)
unfolding program
decode_trace-Decoded_example =
    decode_trace-Decoded lib codec tracer (codes "0xhash") counted top_call one_call finder finder
      main_decoded (last_placed ∷ []) refl (refl, (refl, tt)) main_run
      (last_decoded, finder, [], refl, refl, (refl, refl))
