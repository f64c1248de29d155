-- ===== src/Tests/Transfer.antt =====
-- Transfers on concrete nodes.
use seth.Prelude.{
  ℕ, ◌+◌, ◌*◌, ◌≤◌, ◌<◌, ◌≡◌, refl, none, some, List, [], ◌∷◌, arith, ℕ_discrete, ◌⊎◌, inl, inr,
  Bool, false, ◌==◌, if◌then◌else◌,
}
use seth.Prelude.Int.{ℤ, pos, ◌+ℤ◌, ◌-ℤ◌, ◌*ℤ◌}
use seth.Prelude.Text.{Text, codes, text_dec}
use seth.Prelude.Words.{int64, int64_of_word, uint64_of_int}
use seth.Prelude.Errors.{
  Error, plain, foreign, wrapped, deadline_exceeded, Result, ok, err, wrap_err,
}
use seth.Prelude.Map.{lookup, insert}
use seth.Config.{Network, deref, the_network}
use seth.ClientBuilder.{default_config, default_network}
use seth.Client.{with_timeout}
use seth.Client.Options.{at_index}
use seth.GasEstimator.{answered}
use seth.Funding.{gas_limit_of}
use seth.Retry.{Tx, legacy}
use seth.Nonce.{zero_nonces, new_nonce_manager, nonce_of, next_nonce}
use seth.Mining.{Receipt, wait_mined}
use seth.Transfer.{
  TransferNode, Wallet, Keyring, Transfer, no_key_error, is_out_of_range, key_at, or_configured,
  big_uint64, amount_to_return, transfer_of, estimate_gas_limit, transfer_gas_limit,
  prepare_in_range, prepare, transfer_tx, sign_transfer, receive, send_transfer, count_and_send,
  transfer_eth_from_key, suggested_or_configured, wrap_done, health_transfer, prepare_health,
  check_rpc_health, return_transfer, return_funds_of_key,
}
use seth.Transfer.Sent.{IsSent, transfer_eth_from_key-IsSent}
use seth.Transfer.Counted.{
  Numbered, run_transfers, IsCounted, IsNumbered, transfer_eth_from_key-IsCounted,
  run_transfers-IsNumbered,
}
use seth.Transfer.Health.{
  small_transfer, return_of, return_funds_of_key-IsReturned, check_rpc_health-configured,
}
use seth.Transfer.Returned.{amount_to_return_lem}
use seth.Tests.Floats.{cents, cents_stats}
use seth.Tests.GasAdjuster.{full_node, config, gas_node, turns, uncached_run}

program : Unit {0}
unfolding text_dec ℕ_discrete int64 int64_of_word uint64_of_int ◌+ℤ◌ ◌-ℤ◌ ◌*ℤ◌ wrap_err lookup
    insert deref the_network default_config default_network with_timeout at_index answered
    gas_limit_of zero_nonces new_nonce_manager nonce_of next_nonce wait_mined no_key_error
    is_out_of_range key_at or_configured big_uint64 amount_to_return transfer_of estimate_gas_limit
    transfer_gas_limit prepare_in_range prepare transfer_tx sign_transfer receive send_transfer
    count_and_send transfer_eth_from_key suggested_or_configured wrap_done health_transfer
    prepare_health check_rpc_health return_transfer return_funds_of_key Numbered run_transfers
program = tt

abbrev receipt : Receipt
receipt = record { status = 1; logs = []; transaction_index = 0; block_number = 7 }

abbrev refused : Error
refused = foreign (codes "connection refused")

-- The node refuses transactions of the value 13.
abbrev is_thirteen : ℤ → Bool
is_thirteen (pos n) = n == 13
is_thirteen (ℤ.negsuc n) = false

abbrev sent_or_refused : Tx → Error ⊎ Unit {0}
sent_or_refused (legacy body price) = if is_thirteen body.value then inl refused else inr tt
sent_or_refused tx = inr tt

abbrev node : TransferNode Tx
node = record {
  network_id = inr (pos 1337);
  hex_to_address = λ to. to;
  estimate_gas = λ from to amount. inr 21000;
  sign = λ key id tx. inr tx;
  send = sent_or_refused;
  answers = λ tx. inl refused ∷ inr receipt ∷ [];
  done = deadline_exceeded;
}

abbrev keys : Keyring
keys = record {
  private_keys = codes "k0" ∷ codes "k1" ∷ [];
  addresses = codes "root" ∷ codes "a" ∷ [];
}

abbrev wallet : Wallet Tx
wallet = record {
  manager =
      new_nonce_manager
        (record {
          key_sync_rate_limit_sec = pos 10;
          key_sync_timeout = pos 60;
          key_sync_retries = 2;
          key_sync_retry_delay = pos 5;
        })
        keys.addresses;
  sent = [];
}

abbrev transfer : ℕ → Transfer
transfer n = record {
  from_key_num = pos 1;
  to = codes "root";
  value = pos n;
  gas_price = some (pos 3);
}

abbrev done_of {ℓ} : {A B : Type ℓ} → A × B → B
done_of (a, b) = b

refused_run :
    done_of (transfer_eth_from_key node config keys (transfer 13) wallet)
    ≡ err (wrapped (codes "failed to send transaction") refused)
unfolding program
refused_run = refl

-- The number of keys itself passes the range check.
one_past_run :
    done_of
      (transfer_eth_from_key node config keys (record (transfer 5) { from_key_num = pos 2 }) wallet)
    ≡ Result.panic
unfolding program
one_past_run = refl

abbrev three : List Transfer
three = transfer 5 ∷ transfer 13 ∷ transfer 6 ∷ []

abbrev tx : ℕ → ℕ → Tx
tx nonce value =
    legacy
      (record {
        nonce = nonce;
        to = some (codes "root");
        value = pos value;
        gas = 21000;
        payload = [];
      })
      (pos 3)

-- The nonce of the refused transfer is not used again.
gap_run : (run_transfers node config keys three wallet).sent ≡ tx 0 5 ∷ tx 2 6 ∷ []
unfolding program
gap_run = refl

abbrev after_five : Wallet Tx
after_five = (transfer_eth_from_key node config keys (transfer 5) wallet).0

five_run : transfer_eth_from_key node config keys (transfer 5) wallet ≡ (after_five, ok tt)
unfolding program
five_run = refl

transfer_eth_from_key-IsSent_example : IsSent node config keys (transfer 5) wallet after_five
transfer_eth_from_key-IsSent_example =
    transfer_eth_from_key-IsSent node config keys (transfer 5) wallet after_five five_run

transfer_eth_from_key-IsCounted_example :
    IsCounted node config keys
      (transfer 13)
      wallet
      (transfer_eth_from_key node config keys (transfer 13) wallet).0
      (transfer_eth_from_key node config keys (transfer 13) wallet).1
transfer_eth_from_key-IsCounted_example =
    transfer_eth_from_key-IsCounted node config keys (transfer 13) wallet

signed_itself : (key : Text) (id : ℤ) (t s : Tx) → node.sign key id t ≡ inr s → s ≡ t
signed_itself key id t s h = ground (arith, h)

run_transfers-IsNumbered_example :
    IsNumbered node config
      (λ t. t)
      (codes "a")
      0
      3
      wallet
      (run_transfers node config keys three wallet)
unfolding program
run_transfers-IsNumbered_example =
    run_transfers-IsNumbered node config (λ t. t) keys (codes "a") three 0 wallet signed_itself
      (refl, (refl, (refl, tt))) refl (omega arith)

abbrev checked : Wallet Tx
checked = (check_rpc_health node config keys (err (plain (codes "header cache is nil"))) wallet).0

checked_run :
    check_rpc_health node config keys (err (plain (codes "header cache is nil"))) wallet
    ≡ (checked, ok tt)
unfolding program
checked_run = refl

check_rpc_health-configured_example :
    (n : Network) × (the_network config ≡ ok n)
    × (address : Text) × (at_index keys.addresses 0 ≡ ok address)
    × IsSent node config keys (small_transfer node config address n.gas_price) wallet checked
check_rpc_health-configured_example =
    check_rpc_health-configured node config cents cents_stats gas_node full_node turns
      (codes "standard") none keys (err (plain (codes "header cache is nil"))) wallet checked
      uncached_run checked_run

amount_to_return_lem_example :
    (70_000 < 3 * 21_000 → amount_to_return (pos 3) (pos 21_000) (pos 70_000) ≡ none)
    × (3 * 21_000 ≤ 70_000
        → (funds : ℕ) × (amount_to_return (pos 3) (pos 21_000) (pos 70_000) ≡ some (pos funds))
          × (funds + 3 * 21_000 ≡ 70_000))
amount_to_return_lem_example = amount_to_return_lem 3 21_000 70_000 (omega arith) (omega arith)

-- The address has 70000 wei.
abbrev balance_at : Text → Error ⊎ ℤ
balance_at address = inr (pos 70_000)

abbrev returned : Wallet Tx
returned = (return_funds_of_key node config keys balance_at (codes "root") (pos 3) 1 wallet).0

returned_run :
    return_funds_of_key node config keys balance_at (codes "root") (pos 3) 1 wallet
    ≡ (returned, ok tt)
unfolding program
returned_run = refl

returned_funds : returned.sent ≡ tx 0 7_000 ∷ []
unfolding program
returned_funds = refl

return_funds_of_key-IsReturned_example :
    (address : Text) × (at_index keys.addresses 1 ≡ ok address)
    × (balance : ℤ) × (balance_at address ≡ inr balance)
    × (limit : ℤ) × (transfer_gas_limit node config address (codes "root") balance ≡ ok limit)
    × (((amount_to_return (pos 3) limit balance ≡ none) × (returned ≡ wallet))
        ⊎ ((funds : ℤ) × (amount_to_return (pos 3) limit balance ≡ some funds)
            × IsSent node config keys
                (return_of node config (codes "root") (pos 3) 1 funds)
                wallet
                returned))
return_funds_of_key-IsReturned_example =
    return_funds_of_key-IsReturned node config keys balance_at (codes "root") (pos 3) 1 wallet
      returned returned_run
