-- ===== src/Tests/Tracing.antt =====
-- The tracer on small trees of calls.
use seth.Prelude.{
  ℕ, suc, true, false, ◌≡◌, ◌≢◌, refl, List, [], ◌∷◌, ◌++◌, length, if◌then◌else◌, ℕ_discrete,
}
use seth.Prelude.Int.{pos, ◌+ℤ◌, ◌-ℤ◌, ℤ_discrete}
use seth.Prelude.Text.{
  Text, codes, text_dec, ◌==ₜ◌, to_lower, lower_byte, trim_prefix, has_prefix, contains,
  trim_suffix, has_suffix, decimal,
}
use seth.Prelude.Words.{parse_hex_int, uint64_of_int}
use seth.Prelude.Errors.{plain, Result, ok, err, wrap_err}
use seth.Prelude.Map.{Map, lookup, insert}
use seth.Config.{any}
use seth.ContractMap.{
  read, is_known_address, get_contract_name, get_contract_address, key_of, add_contract,
}
use seth.AbiFinder.{
  find_abi_by_method, find_known, adopt, first_match, contract_name_of, count_with,
  get_duplicate_count,
}
use seth.Decode.{
  Argument, indexed_topics, decode_tx_inputs, decode_tx_outputs, decode_data, decode_topics,
  decode_event_from_log, decoded_log_from_maps, merge, is_unnamed, numbered,
}
use seth.Tracing.Calls.{CallFields, Call, call, Calls, nil, cons, DecodedCall}
use seth.Tracing.Gather.{
  get_signature, signature_at, gather_call, preorder_call, signatures, AllSigned, gather_call_lem,
}
use seth.Tracing.Walk.{
  Walk, counter_error, has_calls, failed_call, push, push_failed, count, enter, leave, after_decode,
  at_signature, go_on, process_call, process_calls,
}
use seth.Tracing.Walk.InRange.{process_calls-never}
use seth.Tracing.Walk.Placed.{placed, Decoded, process_calls-Decoded}
use seth.Tracing.Decode.{
  default_decoded_call, decode_call, decode_found, with_abi, described, decode_output, or_keep,
  human_readable_name, is_own_address, hex_value, duplicates_comment, missing_comment, log_view,
  decode_log, decode_log_by, decode_contract_logs, first_topic,
}
use seth.Tracing.Missing.{expected_calls}
use seth.Tracing.Missing.Unseen.{unseen}

program : Unit {0}
unfolding text_dec ℕ_discrete to_lower lower_byte trim_prefix has_prefix contains trim_suffix
    has_suffix wrap_err lookup insert any read is_known_address get_contract_name
    get_contract_address key_of add_contract find_abi_by_method find_known adopt first_match
    contract_name_of count_with get_duplicate_count indexed_topics decode_tx_inputs
    decode_tx_outputs decode_data decode_topics decode_event_from_log decoded_log_from_maps merge
    is_unnamed numbered get_signature signature_at gather_call preorder_call has_calls failed_call
    push push_failed count enter leave after_decode at_signature go_on process_call placed Decoded
    default_decoded_call decode_call decode_found with_abi described decode_output or_keep
    human_readable_name is_own_address hex_value duplicates_comment missing_comment log_view
    decode_log decode_log_by decode_contract_logs first_topic expected_calls ◌+ℤ◌ ◌-ℤ◌ ℤ_discrete
    parse_hex_int uint64_of_int unseen decimal
program = tt

abbrev indexed : Text → Argument ℕ
indexed name = record { name = name; kind = 0; indexed = true }

abbrev plain_argument : Text → Argument ℕ
plain_argument name = record { name = name; kind = 0; indexed = false }

abbrev data_map : Map Text ℕ
data_map = (codes "a", 1) ∷ (codes "b", 2) ∷ []

abbrev topic_map : Map Text ℕ
topic_map = (codes "b", 3) ∷ []

-- A call with an input, an output and the calls under it.
abbrev a_call : Text → Text → CallFields
a_call input output = record {
  from = codes "0x1";
  gas = codes "0x5208";
  gas_used = [];
  input = input;
  logs = [];
  output = output;
  to = codes "0xab";
  call_type = codes "CALL";
  value = codes "0x0";
  error = [];
}

abbrev top_call : CallFields
top_call = a_call (codes "0xaaaaaaaa") []

abbrev first_call : CallFields
first_call = a_call (codes "0xbbbbbbbb00") (codes "z")

abbrev inner_call : CallFields
inner_call = a_call (codes "0xcccccccc") []

abbrev last_call : CallFields
last_call = a_call (codes "0xdddddddd") []

abbrev below : Calls
below = cons (call first_call (cons (call inner_call nil) nil)) (cons (call last_call nil) nil)

abbrev tree : Call
tree = call top_call below

gather_call_lem_example :
    (AllSigned (preorder_call tree)
      → gather_call tree [] ≡ ok ([] ++ signatures (preorder_call tree)))
    × ((out : List Text) → gather_call tree [] ≡ ok out → AllSigned (preorder_call tree))
gather_call_lem_example = gather_call_lem tree []

-- A decoder that keeps the signature; the other one fails on the output "z".
abbrev with_signature : Text → DecodedCall ℕ
with_signature sig = record default_decoded_call { signature = sig }

abbrev plain_decoder : ℕ → Text → CallFields → ℕ × Result (DecodedCall ℕ)
plain_decoder n sig f = (suc n, ok (with_signature sig))

abbrev careful_decoder : ℕ → Text → CallFields → ℕ × Result (DecodedCall ℕ)
careful_decoder n sig f =
    (n, (if f.output ==ₜ codes "z" then err (plain []) else ok (with_signature sig)))

abbrev box_length : Text → ℕ
box_length t = length t

abbrev methods : List Text
methods = signatures (preorder_call tree)

abbrev fresh : Walk plain_decoder box_length methods
fresh = record { method_counter = 0; nesting_level = 1; decoded_calls = []; finder = 0 }

abbrev careful : Walk careful_decoder box_length methods
careful = record { method_counter = 0; nesting_level = 1; decoded_calls = []; finder = 0 }

abbrev at_place : Text → ℕ → Text → DecodedCall ℕ
at_place sig level parent = record (with_signature sig) {
  nesting_level = pos level;
  parent_signature = parent;
}

abbrev walked_calls : List (DecodedCall ℕ)
walked_calls =
    at_place (codes "bbbbbbbb") 1 (codes "aaaaaaaa")
    ∷ at_place (codes "cccccccc") 2 (codes "bbbbbbbb")
    ∷ at_place (codes "dddddddd") 1 (codes "aaaaaaaa")
    ∷ []

process_calls-Decoded_example :
    process_calls plain_decoder box_length methods below (codes "aaaaaaaa") fresh
    ≡ (record fresh { method_counter = 3; decoded_calls = walked_calls; finder = 3 }, ok tt)
unfolding program
process_calls-Decoded_example =
    process_calls-Decoded plain_decoder box_length methods top_call below (codes "aaaaaaaa") fresh
      walked_calls 3 refl refl
      (_, _, _, refl, refl, (_, _, _, refl, refl, (_, _, _, refl, refl, (refl, refl))))

process_calls-never_example :
    (process_calls careful_decoder box_length methods below (codes "aaaaaaaa") careful).1
    ≢ err counter_error
unfolding program
process_calls-never_example =
    process_calls-never careful_decoder box_length methods below (codes "aaaaaaaa") careful refl
      refl counter_error

-- The first call fails, and the last one is decoded with the signature of the inner one.
skipped_run :
    (process_calls careful_decoder box_length methods below
      (codes "aaaaaaaa")
      careful).0.decoded_calls
    ≡ failed_call careful_decoder box_length methods first_call
      ∷ at_place (codes "cccccccc") 1 (codes "aaaaaaaa")
      ∷ []
unfolding program
skipped_run = refl
