-- ===== src/ClientBuilder.antt =====
-- client_builder.go: the fluent builder of a configuration. Its network is one object that both
-- `Network` and `Networks` point to, and each method writes it through both.
pub mod Built
pub mod Accepted
use seth.Prelude.{ℕ, Bool, true, false, Option, none, some, List, [], ◌∷◌, ◌++◌}
use seth.Prelude.Int.{ℤ, pos}
use seth.Prelude.Text.{Text, codes}
use seth.Prelude.Errors.{Result, ok, ◌>>=◌}
use seth.Config.{Network, GasBumpConfig, NonceManagerCfg, Config, write_at}
use seth.Config.Validate.{
  priority_standard, tracing_reverted, output_console, output_dot, default_dial_timeout,
}
use seth.Duration.{must_make_duration}

pub record ClientBuilder : Type 0 where
  pub config : Config

-- DefaultNetworkName of config.go
abbrev pub default_network_name : Text
default_network_name = codes "Default"

unfoldable pub default_network : Network
default_network = record {
  name = default_network_name;
  urls = [];
  eip1559_dynamic_fees = true;
  gas_price = pos 1_000_000_000;
  gas_fee_cap = pos 100_000_000_000;
  gas_tip_cap = pos 50_000_000_000;
  gas_limit = 0;
  txn_timeout = some (pos 300_000_000_000);
  dial_timeout = some default_dial_timeout;
  transfer_gas_fee = pos 21_000;
  private_keys = [];
  gas_price_estimation_enabled = true;
  gas_price_estimation_blocks = 200;
  gas_price_estimation_tx_priority = priority_standard;
  chain_id = [];
}

unfoldable pub default_config : Config
default_config = record {
  ephemeral = false;
  artifacts_dir = codes "seth_artifacts";
  ephemeral_addrs = some (pos 0);
  root_key_funds_buffer = some (pos 0);
  contract_map_file = [];
  save_deployed_contracts_map = false;
  network = some 0;
  networks = 0 ∷ [];
  heap = default_network ∷ [];
  nonce_manager = some (record {
    key_sync_rate_limit_sec = pos 10;
    key_sync_timeout = pos 60_000_000_000;
    key_sync_retries = 3;
    key_sync_retry_delay = pos 5_000_000_000;
  });
  tracing_level = tracing_reverted;
  trace_outputs = output_console ∷ output_dot ∷ [];
  pending_nonce_protection_enabled = false;
  config_dir = [];
  experiments_enabled = [];
  check_rpc_health_on_start = true;
  block_stats_rate_limit = some (pos 10);
  gas_bump = some (record { retries = 10; max_gas_price = pos 0; strategy_fn = none });
}

unfoldable pub new_client_builder : ClientBuilder
new_client_builder = record { config = default_config }

-- the second half of a setter: `Networks[0]` is written, or the network is appended to an empty list
unfoldable pub write_first : (Network → Network) → Config → ℕ → List ℕ → Result Config
write_first change c p [] = ok (record c { networks = c.networks ++ p ∷ [] })
write_first change c p (q ∷ ps) = write_at c q change

unfoldable pub write_both : (Network → Network) → ClientBuilder → Result ClientBuilder
write_both change b = elim b.config.network [
  | none ↦ Result.panic
  | some p ↦ do
    c ← write_at b.config p change
    c' ← write_first change c p c.networks
    ok (record { config = c' })
]

unfoldable pub with_rpc_url : Text → ClientBuilder → Result ClientBuilder
with_rpc_url url = write_both (λ n. record n { urls = url ∷ [] })

unfoldable pub with_private_keys : List Text → ClientBuilder → Result ClientBuilder
with_private_keys pks = write_both (λ n. record n { private_keys = pks })

unfoldable pub with_network_name : Text → ClientBuilder → Result ClientBuilder
with_network_name name = write_both (λ n. record n { name = name })

unfoldable pub with_gas_price_estimations : Bool → ℕ → Text → ClientBuilder → Result ClientBuilder
with_gas_price_estimations enabled estimation_blocks tx_priority = write_both (λ n. record n {
  gas_price_estimation_enabled = enabled;
  gas_price_estimation_blocks = estimation_blocks;
  gas_price_estimation_tx_priority = tx_priority;
})

unfoldable pub with_eip1559_dynamic_fees : Bool → ClientBuilder → Result ClientBuilder
with_eip1559_dynamic_fees enabled = write_both (λ n. record n { eip1559_dynamic_fees = enabled })

unfoldable pub with_legacy_gas_price : ℤ → ClientBuilder → Result ClientBuilder
with_legacy_gas_price gas_price = write_both (λ n. record n { gas_price = gas_price })

unfoldable pub with_dynamic_gas_prices : ℤ → ℤ → ClientBuilder → Result ClientBuilder
with_dynamic_gas_prices gas_fee_cap gas_tip_cap =
    write_both (λ n. record n { gas_fee_cap = gas_fee_cap; gas_tip_cap = gas_tip_cap })

unfoldable pub with_transfer_gas_fee : ℤ → ClientBuilder → Result ClientBuilder
with_transfer_gas_fee gas_fee = write_both (λ n. record n { transfer_gas_fee = gas_fee })

unfoldable pub with_gas_bumping : ℕ → ℤ → Option (ℤ → ℤ) → ClientBuilder → Result ClientBuilder
with_gas_bumping retries max_gas_price strategy b = ok (record {
  config = record b.config {
    gas_bump =
        some (record { retries = retries; max_gas_price = max_gas_price; strategy_fn = strategy });
  };
})

unfoldable pub with_transaction_timeout : ℤ → ClientBuilder → Result ClientBuilder
with_transaction_timeout timeout b = do
  d ← must_make_duration timeout
  write_both (λ n. record n { txn_timeout = some d }) b

unfoldable pub with_rpc_dial_timeout : ℤ → ClientBuilder → Result ClientBuilder
with_rpc_dial_timeout timeout b = do
  d ← must_make_duration timeout
  write_both (λ n. record n { dial_timeout = some d }) b

unfoldable pub with_ephemeral_addresses : ℤ → ℤ → ClientBuilder → Result ClientBuilder
with_ephemeral_addresses count buffer b = ok (record {
  config = record b.config { ephemeral_addrs = some count; root_key_funds_buffer = some buffer };
})

unfoldable pub with_tracing : Text → List Text → ClientBuilder → Result ClientBuilder
with_tracing level outputs b =
    ok (record { config = record b.config { tracing_level = level; trace_outputs = outputs } })

unfoldable pub with_protections : Bool → Bool → ClientBuilder → Result ClientBuilder
with_protections pending_nonce health_check b = ok (record {
  config = record b.config {
    pending_nonce_protection_enabled = pending_nonce;
    check_rpc_health_on_start = health_check;
  };
})

unfoldable pub with_artifacts_folder : Text → ClientBuilder → Result ClientBuilder
with_artifacts_folder folder b = ok (record { config = record b.config { artifacts_dir = folder } })

unfoldable pub with_nonce_manager : ℤ → ℕ → ℤ → ℤ → ClientBuilder → Result ClientBuilder
with_nonce_manager rate_limit_sec retries timeout retry_delay b = do
  t ← must_make_duration timeout
  d ← must_make_duration retry_delay
  ok (record {
    config = record b.config {
      nonce_manager = some (record {
        key_sync_rate_limit_sec = rate_limit_sec;
        key_sync_timeout = t;
        key_sync_retries = retries;
        key_sync_retry_delay = d;
      });
    };
  })
