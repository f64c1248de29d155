-- ===== src/Tests/TxDecode.antt =====
-- Decode on concrete transactions.
use seth.Prelude.{
  ℕ, zero, suc, ◌<◌, ◌≡◌, ◌≢◌, refl, true, none, some, Option, List, [], ◌∷◌, get_elem?, ℕ_discrete,
  ◌⊎◌, inl, inr,
}
use seth.Prelude.Int.{pos, ◌+ℤ◌, ◌*ℤ◌, ◌-ℤ◌}
use seth.Prelude.Text.{
  Text, codes, text_dec, to_lower, lower_byte, trim_suffix, has_suffix, contains, has_prefix,
}
use seth.Prelude.Words.{uint64_of_int}
use seth.Prelude.Errors.{
  Error, plain, foreign, message, is_deadline, Result, ok, err, Done, wrap_err,
}
use seth.Prelude.Map.{lookup, insert}
use seth.Config.{deref, the_network, gas_bump_retries, has_max_bump_gas_price, any}
use seth.ClientBuilder.{default_config, default_network}
use seth.Client.{with_timeout}
use seth.ContractMap.{read, is_known_address, get_contract_name, key_of, add_contract}
use seth.ContractStore.{ContractStore}
use seth.AbiFinder.{
  find_abi_by_method, find_known, adopt, first_match, count_with, get_duplicate_count,
}
use seth.Decode.{decode_tx_inputs, decode_event_from_log, decoded_log_from_maps}
use seth.Retry.{
  Tx, dynamic_fee, index_of, check_max_price, low64, strategy_of, replacement, bump_with,
  checked_pending, key_of_sender, prepare_replacement,
}
use seth.Mining.{Receipt, wait_mined, Times, wait_once, bump_once, attempts_of, is_retried, mined}
use seth.Mining.Bumps.{Bumped, IsFirst, mined-Bumped}
use seth.TxDecode.{
  TxParts, DecodedTransaction, decode_tx_logs, default_txn, txn_with, decode_with, decode_found_tx,
  address_of, decode_transaction,
}
use seth.TxDecode.Reverts.{
  RevertLib, message_of, with_fees, message_of_tx, data_of, try_error, try_errors, try_abis,
  decode_custom_abi_err, call_msg_from_tx, only_logged, log_pragma, reason_of,
  call_and_get_revert_reason,
}
use seth.TxDecode.Reverts.Reasons.{IsErrorText, decode_custom_abi_err-IsErrorText}
use seth.TxDecode.Run.{
  is_fresh, is_some, is_traced, is_debug_missing, is_refused, submit_once, Decoder, TraceTx,
  Outcome, without_error, after_trace, returned, trace_decoded, with_decoding, revert_error,
  decode_mined, submission_error, decode, retry_tx_and_decode,
}
use seth.TxDecode.Run.Returned.{decode_succeeded}
use seth.TxDecode.Run.Retried.{IsSent, retry_tx_and_decode-IsSent}
use seth.Tests.Retries.{retry_do, retry_go, retry_go-Retries}
use seth.Tests.Traces.{lib, codec, finder}
use seth.Tests.Transactions.{chain, addresses, bumping, body, stuck}

program : Unit {0}
unfolding default_config default_network text_dec ℕ_discrete to_lower lower_byte trim_suffix
    has_suffix contains has_prefix uint64_of_int message is_deadline wrap_err lookup insert deref
    the_network gas_bump_retries has_max_bump_gas_price any with_timeout read is_known_address
    get_contract_name key_of add_contract find_abi_by_method find_known adopt first_match count_with
    get_duplicate_count decode_tx_inputs decode_event_from_log decoded_log_from_maps index_of
    check_max_price low64 strategy_of replacement bump_with checked_pending key_of_sender
    prepare_replacement wait_mined wait_once bump_once attempts_of is_retried mined decode_tx_logs
    default_txn txn_with decode_with decode_found_tx address_of decode_transaction message_of
    with_fees message_of_tx data_of try_error try_errors try_abis decode_custom_abi_err
    call_msg_from_tx only_logged log_pragma reason_of call_and_get_revert_reason is_fresh is_some
    is_traced is_debug_missing is_refused submit_once without_error after_trace returned
    trace_decoded with_decoding revert_error decode_mined submission_error decode
    retry_tx_and_decode retry_do ◌+ℤ◌ ◌*ℤ◌ ◌-ℤ◌
program = tt

abbrev receipt_of : ℕ → Receipt
receipt_of status = record { status = status; logs = []; transaction_index = 2; block_number = 7 }

-- The first attempt ends without a receipt, the second has one.
abbrev answers : ℕ → ℕ → Tx → List (Error ⊎ Receipt)
answers status zero tx = inl (Error.not_found) ∷ []
answers status (suc k) tx = inl (Error.not_found) ∷ inr (receipt_of status) ∷ []

abbrev times : ℕ → Times Tx
times status = record { chain = λ k. chain; answers = answers status }

abbrev bumped : Tx
bumped = dynamic_fee body (pos 60) (pos 40)

mined_run : mined retry_go (times 1) bumping addresses stuck ≡ ok (bumped, receipt_of 1)
unfolding program
mined_run = refl

mined-Bumped_example :
    (k : ℕ) × Bumped (times 1) bumping addresses stuck k bumped
    × (k < 3)
    × IsFirst (receipt_of 1) (answers 1 k bumped)
unfolding program
mined-Bumped_example =
    mined-Bumped (times 1) bumping addresses retry_go retry_go-Retries stuck bumped (receipt_of 1)
      mined_run

abbrev parts : TxParts Tx
parts = record {
  tx_data = λ tx. codes "aaaa";
  recipient = λ tx. some (codes "0xab");
  hash = λ tx. codes "0x1";
  protected = λ tx. true;
}

-- Calls fail with data, which is hexadecimal as it is spelled, and the ABIs have one error.
abbrev revert_error_of_call : Error
revert_error_of_call = foreign (codes "execution reverted: custom")

abbrev reverts : RevertLib lib Tx
reverts = record {
  AbiError = Text;
  errors = λ a. (codes "TooLow", codes "beefcafe") ∷ [];
  error_id = λ e. e;
  unpack_error = λ e bytes. ok (codes "[7]");
  error_data = λ e. some (some (codes "0xbeef0007"));
  hex_decode = λ t. ok t;
  body = λ tx. tx;
  sender = λ tx. ok (codes "a");
  call_contract = λ msg block. some revert_error_of_call;
  code_at = λ address block. ok [];
  bytes_hex = λ t. t;
}

abbrev too_low : Text
too_low = codes "error type: TooLow, error values: [7]"

abbrev store : ContractStore lib.Abi
store = finder.contract_store

decode_custom_abi_err-IsErrorText_example :
    (e : Error) × (some revert_error_of_call ≡ some e)
    × (s : Text) × (reverts.error_data e ≡ some (some s))
    × (kept : ContractStore lib.Abi) × (some store ≡ some kept)
    × (i : ℕ) × (file : Text) × (a : lib.Abi) × (get_elem? kept.abis i ≡ some (file, a))
    × (j : ℕ) × (name : Text) × (abi_error : Text) × (get_elem? (reverts.errors a) j
        ≡ some (name, abi_error))
    × IsErrorText lib reverts s too_low name abi_error
unfolding program
decode_custom_abi_err-IsErrorText_example =
    decode_custom_abi_err-IsErrorText lib reverts (some store) (some revert_error_of_call) too_low
      refl (λ e. cc)

-- A node without the debug API.
abbrev trace_tx : TraceTx lib codec
trace_tx f hash revert =
    (f, err (foreign (codes "the method debug_traceTransaction does not exist")))

abbrev decoder : Decoder lib codec
decoder = record {
  config = bumping;
  addresses = addresses;
  errors = [];
  store = some store;
  finder = some finder;
}

abbrev run : ℕ → Decoder lib codec × Result (Outcome lib codec Tx)
run status =
    decode lib codec parts reverts retry_go (times status) trace_tx decoder (some stuck) none

-- No ABI has the method.
abbrev undecoded : ℕ → DecodedTransaction Tx Text
undecoded status = record {
  signature = [];
  method = [];
  input = none;
  index = 0;
  receipt = some (receipt_of status);
  transaction = bumped;
  protected = true;
  hash = codes "0x1";
  events = [];
}

-- The replacement was reverted: its revert reason is returned, and tracing is turned off.
reverted_run :
    ((run 0).1 ≡ ok (some (undecoded 0), some (plain too_low)))
    × ((run 0).0.config.tracing_level ≡ codes "NONE")
unfolding program
reverted_run = (refl, refl)

decode_succeeded_example :
    (t t' : Tx) × (receipt : Receipt) × (some stuck ≡ some t)
    × (mined retry_go (times 1) bumping addresses t ≡ ok (t', receipt))
    × ((receipt.status ≢ 0) ⊎ ((e : Error) × (reverts.sender t' ≡ err e)))
unfolding program
decode_succeeded_example =
    decode_succeeded lib codec parts reverts retry_go (times 1) trace_tx decoder (run 1).0
      (some stuck) none (undecoded 1) refl

-- The first call is refused.
abbrev sends : ℕ → Option Tx × Done
sends zero = (none, err (foreign (codes "dial tcp: connection refused")))
sends (suc k) = (some stuck, ok tt)

abbrev retried : Decoder lib codec × Result (Outcome lib codec Tx)
retried = retry_tx_and_decode lib codec parts reverts retry_go (times 1) trace_tx sends decoder

retry_tx_and_decode-IsSent_example :
    (◌≡◌ {A = Option Error} none none)
    × (k : ℕ) × (tx : Option Tx) × (k < 10)
    × IsSent retry_go retry_go-Retries sends 0 k tx
    × (decode lib codec parts reverts retry_go (times 1) trace_tx decoder tx none
        ≡ (retried.0, ok (some (undecoded 1), none)))
unfolding program
retry_tx_and_decode-IsSent_example =
    retry_tx_and_decode-IsSent retry_go retry_go-Retries sends lib codec parts reverts (times 1)
      trace_tx decoder retried.0 (undecoded 1) none refl
