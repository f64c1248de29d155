-- ===== src/Tests/Client.antt =====
-- Transaction options on a concrete client.
use seth.Prelude.{true, false, ◌≡◌, refl, none, some, List, [], ◌∷◌}
use seth.Prelude.Int.{pos}
use seth.Prelude.Text.{codes, text_dec, to_lower, lower_byte, contains, has_prefix}
use seth.Prelude.Words.{int64_of_word}
use seth.Prelude.Errors.{foreign, message, is_deadline, Result, ok, err}
use seth.Config.{
  Network, Config, set, deref, the_network, write_at, is_simulated_name, is_simulated_network,
}
use seth.ClientBuilder.{default_config, default_network}
use seth.Client.{
  NonceStatus, TransactOpts, Client, Node, Fees, no_opts, with_timeout, change_network,
  get_nonce_status, default_gas_estimation_request, fallback_estimations, disable_estimations,
  is_unsupported, legacy_estimations, dynamic_estimations, calculate_gas_estimations, configure,
  apply_all,
}
use seth.Client.Options.{
  add_error, marked, at_index, check_pending, proposed, propose, get_proposed_transaction_options,
  configured, range_error, new_tx_key_opts,
}
use seth.Client.Options.Proposal.{IsKept}
use seth.Client.Options.Marked.{IsComplete, new_tx_key_opts-IsComplete}
use seth.Client.Waiting.{
  wait_until_no_pending, IsSettled, not_mined_error, are_all_timeouts, rewrite_deployment_error,
}

program : Unit {0}
unfolding default_config default_network text_dec to_lower lower_byte contains has_prefix message
    is_deadline int64_of_word set deref the_network write_at is_simulated_name is_simulated_network
    with_timeout change_network get_nonce_status default_gas_estimation_request fallback_estimations
    disable_estimations is_unsupported legacy_estimations dynamic_estimations
    calculate_gas_estimations configure apply_all add_error marked at_index check_pending proposed
    propose get_proposed_transaction_options configured range_error new_tx_key_opts
    wait_until_no_pending IsSettled not_mined_error are_all_timeouts rewrite_deployment_error
program = tt

abbrev node : Node
node = record {
  pending_nonce_at = λ a. ok 7;
  nonce_at = λ a. ok 7;
  transactor = λ key. ok (codes "0x2");
}

-- A network without EIP-1559 fees, whose legacy fees fail too.
abbrev fees : Fees
fees = record {
  legacy_fees = λ priority. err (foreign (codes "no blocks"));
  eip1559_fees = λ priority. err (foreign (codes "the method eth_feeHistory does not exist"));
}

abbrev legacy_network : Network
legacy_network = record default_network { eip1559_dynamic_fees = false }

abbrev legacy_config : Config
legacy_config = record default_config { heap = legacy_network ∷ [] }

estimations_run :
    calculate_gas_estimations fees default_config (default_gas_estimation_request default_network)
    ≡ ok (
      legacy_config,
      record {
        gas_price = some (pos 1_000_000_000);
        gas_tip_cap = some (pos 50_000_000_000);
        gas_fee_cap = some (pos 100_000_000_000);
      },
    )
unfolding program
estimations_run = refl

abbrev client : Client
client = record {
  config = record default_config { pending_nonce_protection_enabled = true };
  addresses = codes "0x1" ∷ codes "0x2" ∷ [];
  private_keys = codes "k1" ∷ codes "k2" ∷ [];
  errors = [];
}

abbrev client_after : Client
client_after = record client {
  config = record legacy_config { pending_nonce_protection_enabled = true };
}

abbrev opts_after : TransactOpts
opts_after = record no_opts {
  from = some (codes "0x2");
  nonce = some (pos 7);
  gas_price = some (pos 1_000_000_000);
}

options_run : new_tx_key_opts node fees [] client (pos 1) ≡ ok (client_after, opts_after)
unfolding program
options_run = refl

new_tx_key_opts-IsComplete_example :
    IsKept client_after opts_after
    × (opts_after.context_error ≡ none
        → IsComplete node fees client (pos 1) client_after opts_after)
unfolding program
new_tx_key_opts-IsComplete_example =
    new_tx_key_opts-IsComplete node fees client client_after (pos 1) opts_after (λ priority e. cc)
      (λ priority e. cc) options_run

past_the_end : new_tx_key_opts node fees [] client (pos 2) ≡ Result.panic
unfolding program
past_the_end = refl

-- An error, a pending transaction, and then none.
abbrev ticks : List (Result NonceStatus)
ticks =
    err (foreign (codes "timeout"))
    ∷ ok (record { last_nonce = 3; pending_nonce = 4 })
    ∷ ok (record { last_nonce = 4; pending_nonce = 4 })
    ∷ []
