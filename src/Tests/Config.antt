-- ===== src/Tests/Config.antt =====
-- The configuration and its builder on concrete inputs.
use seth.Prelude.{true, ◌≡◌, refl, none, some, List, [], ◌∷◌, ◌++◌, All, if◌then◌else◌}
use seth.Prelude.Int.{pos, negsuc}
use seth.Prelude.Text.{Text, codes, text_dec, to_lower, to_upper, lower_byte, upper_byte, ◌==ₜ◌}
use seth.Prelude.Errors.{Result, ok, wrap_err}
use seth.Config.{
  Network, Config, set, deref, the_network, write_at, append_to_named, append_pks_to_network,
}
use seth.Config.Validate.{
  is_priority, is_tracing_level, is_output, normal_priority, normal_tracing_level, validate_config,
  validate_estimation, validate_outputs, validate_rest, validate_tracing, with_dial_timeout,
  put_network,
}
use seth.Config.Validate.Accepted.{normal_config, normal_network}
use seth.Config.Validate.Allowed.{IsAllowed, IsNormal, validate_config-IsAllowed}
use seth.Config.Read.{
  System, find_network, select_named, as_default, select_default, select_network, with_root_key,
  add_root_key, load, read_config, config_path_var, network_var, url_var, root_key_var,
}
use seth.Config.Read.Ready.{IsReady, IsSelected, read_config-IsReady}
use seth.Duration.{make_duration, must_make_duration}
use seth.ClientBuilder.{
  new_client_builder, default_config, default_network, write_first, write_both, with_rpc_url,
  with_private_keys, with_gas_price_estimations, with_transaction_timeout, with_tracing,
}
use seth.ClientBuilder.Built
use seth.ClientBuilder.Accepted.{IsFine}

program : Unit {0}
unfolding default_config default_network new_client_builder write_first write_both with_rpc_url
    with_private_keys with_gas_price_estimations with_transaction_timeout with_tracing set deref
    the_network write_at append_to_named append_pks_to_network is_priority is_tracing_level
    is_output normal_priority normal_tracing_level validate_config validate_estimation
    validate_outputs validate_rest validate_tracing with_dial_timeout put_network normal_config
    normal_network text_dec to_lower to_upper lower_byte upper_byte make_duration must_make_duration
    find_network select_named as_default select_default select_network with_root_key add_root_key
    load read_config wrap_err Built.call Built.calls Built.built Built.on_config Built.on_network
    Built.all_on_config Built.all_on_network Built.is_negative Built.any_negative IsFine
program = tt

-- Priorities and levels in other letters.
abbrev shouting : Network
shouting = record default_network {
  gas_price_estimation_tx_priority = codes "FAST";
  dial_timeout = none;
  name = codes "Fuji";
}

abbrev loose : Config
loose = record default_config {
  tracing_level = codes "all";
  trace_outputs = codes "DOT" ∷ [];
  heap = shouting ∷ default_network ∷ [];
  networks = 0 ∷ 1 ∷ [];
}

loose_network : the_network loose ≡ ok shouting
unfolding program
loose_network = refl

validate_config-loose :
    validate_config loose
    ≡ ok (
      record loose {
        tracing_level = codes "ALL";
        heap =
            record shouting {
              gas_price_estimation_tx_priority = codes "fast";
              dial_timeout = some (pos 60_000_000_000);
            }
            ∷ default_network
            ∷ [];
      },
      none,
    )
unfolding program
validate_config-loose = refl

validate_config-IsAllowed_example :
    (IsAllowed loose shouting → (c' : Config) × (validate_config loose ≡ ok (c', none)))
    × ((c' : Config)
        → validate_config loose ≡ ok (c', none)
        → IsAllowed loose shouting × IsNormal loose shouting c')
validate_config-IsAllowed_example = validate_config-IsAllowed loose shouting loose_network

abbrev loose_after : Config
loose_after = record loose {
  tracing_level = codes "ALL";
  heap =
      record shouting {
        gas_price_estimation_tx_priority = codes "fast";
        dial_timeout = some (pos 60_000_000_000);
      }
      ∷ default_network
      ∷ [];
}

-- The keys of Default: the first call meets the selected network, the second another one.
abbrev keyed : Config
keyed = record default_config {
  heap =
      record shouting { private_keys = codes "a" ∷ [] }
      ∷ record default_network { private_keys = codes "b" ∷ [] }
      ∷ [];
  networks = 0 ∷ 1 ∷ [];
}

abbrev keyed_after : Config
keyed_after = record keyed {
  heap =
      record shouting { private_keys = codes "a" ∷ [] }
      ∷ record default_network { private_keys = codes "a" ∷ codes "c" ∷ [] }
      ∷ [];
}

append_pks_to_network-keyed :
    append_pks_to_network keyed (codes "c" ∷ []) (codes "default") ≡ ok (keyed_after, true)
unfolding program
append_pks_to_network-keyed = refl

-- A file with two networks and an environment that names none of them.
abbrev two_networks : Config
two_networks = record loose { network = none }

abbrev environment : Text → Text
environment var =
    if var ==ₜ config_path_var
    then codes "seth.toml"
    else (if var ==ₜ network_var
        then codes "Dev"
        else (if var ==ₜ url_var then codes "ws://node" else codes "key"))

abbrev system : System
system = record {
  getenv = environment;
  read_file = ok;
  unmarshal = λ d. ok two_networks;
  abs_path = λ p. ok (codes "/etc/" ++ p);
  dir = λ p. codes "/etc";
}

abbrev read_result : Config
read_result = record two_networks {
  network = some 1;
  config_dir = codes "/etc";
  heap =
      shouting
      ∷ record default_network {
        name = codes "Dev";
        urls = codes "ws://node" ∷ [];
        private_keys = codes "key" ∷ [];
      }
      ∷ [];
}

read_config-system : read_config system ≡ ok read_result
unfolding program
read_config-system = refl

read_config-IsReady_example :
    IsReady (environment root_key_var) read_result
    × (c : Config) × (load system (environment config_path_var) ≡ ok c)
    × IsSelected c (environment network_var) (environment url_var) read_result
read_config-IsReady_example = read_config-IsReady system read_result read_config-system

-- A chain of calls, and one with a negative duration.
abbrev chain : List Built.Setting
chain =
    Built.rpc_url (codes "ws://node")
    ∷ Built.gas_price_estimations true 20 (codes "Slow")
    ∷ Built.transaction_timeout (pos 5)
    ∷ Built.tracing (codes "all") (codes "json" ∷ [])
    ∷ []

negative_calls :
    Built.calls (Built.transaction_timeout (negsuc 0) ∷ []) new_client_builder ≡ Result.panic
unfolding program
negative_calls = refl

calls-built_example : Built.calls chain (Built.built default_config default_network) ≡ (
    if Built.any_negative chain
    then Result.panic
    else ok (
        Built.built
          (Built.all_on_config chain default_config)
          (Built.all_on_network chain default_network)))
calls-built_example = Built.calls-built chain default_config default_network

chain-IsFine : All IsFine chain
unfolding program
chain-IsFine = (refl, ((λ e. (λ z. cc, refl)), (refl, ((refl, (refl, tt)), tt))))
