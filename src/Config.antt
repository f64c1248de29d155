-- ===== src/Config.antt =====
-- config.go: the configuration. A *Network is an index into the list `heap`, since `Network` and the
-- elements of `Networks` may be one object. RPC headers and the name of the file of reverted
-- transactions are left out.
pub mod Heap
pub mod Keys
pub mod Validate
pub mod Read
use seth.Prelude.{
  ℕ, zero, suc, ◌-◌, Bool, true, false, not, ◌&&◌, ◌||◌, Option, none, some, List, [], ◌∷◌, ◌++◌,
  length, if◌then◌else◌, ltb, ◌==◌, get_elem?, holds,
}
use seth.Prelude.Int.{ℤ, pos, ◌-ℤ◌, ltb_ℤ, ℤ_discrete}
use seth.Prelude.Text.{Text, codes, ◌==ₜ◌, to_lower, equal_fold}
use seth.Prelude.Errors.{Result, ok, ◌>>=◌}

pub record Network : Type 0 where
  pub name : Text
  pub urls : List Text
  pub eip1559_dynamic_fees : Bool
  pub gas_price : ℤ
  pub gas_fee_cap : ℤ
  pub gas_tip_cap : ℤ
  pub gas_limit : ℕ
  pub txn_timeout : Option ℤ
  pub dial_timeout : Option ℤ
  pub transfer_gas_fee : ℤ
  pub private_keys : List Text
  pub gas_price_estimation_enabled : Bool
  pub gas_price_estimation_blocks : ℕ
  pub gas_price_estimation_tx_priority : Text
  pub chain_id : Text

-- A strategy turns a gas price into a higher one.
pub record GasBumpConfig : Type 0 where
  pub retries : ℕ
  pub max_gas_price : ℤ
  pub strategy_fn : Option (ℤ → ℤ)

pub record NonceManagerCfg : Type 0 where
  pub key_sync_rate_limit_sec : ℤ
  pub key_sync_timeout : ℤ
  pub key_sync_retries : ℕ
  pub key_sync_retry_delay : ℤ

pub record Config : Type 0 where
  pub ephemeral : Bool
  pub artifacts_dir : Text
  pub ephemeral_addrs : Option ℤ
  pub root_key_funds_buffer : Option ℤ
  pub contract_map_file : Text
  pub save_deployed_contracts_map : Bool
  pub network : Option ℕ
  pub networks : List ℕ
  pub heap : List Network
  pub nonce_manager : Option NonceManagerCfg
  pub tracing_level : Text
  pub trace_outputs : List Text
  pub pending_nonce_protection_enabled : Bool
  pub config_dir : Text
  pub experiments_enabled : List Text
  pub check_rpc_health_on_start : Bool
  pub block_stats_rate_limit : Option ℤ
  pub gas_bump : Option GasBumpConfig

-- the objects that pointers lead to
unfoldable pub set {ℓ} : {A : Type ℓ} → List A → ℕ → A → List A
set [] i v = []
set (x ∷ xs) zero v = v ∷ xs
set (x ∷ xs) (suc i) v = x ∷ set xs i v

unfoldable pub deref : List Network → ℕ → Result Network
deref heap p = elim (get_elem? heap p) [ none ↦ Result.panic | some n ↦ ok n ]

-- *cfg.Network: a nil pointer panics
unfoldable pub the_network : Config → Result Network
the_network c = elim c.network [ none ↦ Result.panic | some p ↦ deref c.heap p ]

unfoldable pub write_at : Config → ℕ → (Network → Network) → Result Config
write_at c p change = do n ← deref c.heap p; ok (record c { heap = set c.heap p (change n) })

unfoldable pub gas_bump_retries : Config → ℕ
gas_bump_retries c = elim c.gas_bump [ none ↦ 0 | some g ↦ g.retries ]

unfoldable pub has_max_bump_gas_price : Config → Bool
has_max_bump_gas_price c = elim c.gas_bump [ none ↦ false | some g ↦ ltb_ℤ (pos 0) g.max_gas_price ]

abbrev pub geth : Text
geth = codes "Geth"

abbrev pub anvil : Text
anvil = codes "Anvil"

-- the test of IsSimulatedNetwork on the network's name
unfoldable pub is_simulated_name : Text → Bool
is_simulated_name name = to_lower name ==ₜ to_lower geth || to_lower name ==ₜ to_lower anvil

unfoldable pub is_simulated_network : Config → Result Bool
is_simulated_network c = do n ← the_network c; ok (is_simulated_name n.name)

unfoldable pub should_save_deployed_contract_map : Config → Result Bool
should_save_deployed_contract_map c = do
  simulated ← is_simulated_network c
  ok (not simulated && c.save_deployed_contracts_map)

unfoldable pub or_zero : Option ℤ → ℤ
or_zero none = pos 0
or_zero (some n) = n

-- `ZeroInt64` stands for a pointer that is nil.
unfoldable pub set_ephemeral_addrs : Config → Config
set_ephemeral_addrs c = record c {
  ephemeral_addrs = some (or_zero c.ephemeral_addrs);
  ephemeral = not (holds (ℤ_discrete (or_zero c.ephemeral_addrs) (pos 0)));
  root_key_funds_buffer = some (or_zero c.root_key_funds_buffer);
}

-- a loop that returns true at the first element that passes
unfoldable pub any {ℓ} : {A : Type ℓ} → (A → Bool) → List A → Bool
any test [] = false
any test (x ∷ xs) = test x || any test xs

unfoldable pub is_experiment_enabled : Config → Text → Bool
is_experiment_enabled c experiment = any (λ e. e ==ₜ experiment) c.experiments_enabled

unfoldable pub has_output : Config → Text → Bool
has_output c output = any (λ o. equal_fold o output) c.trace_outputs

unfoldable pub get_max_concurrency : Config → Result ℤ
get_max_concurrency c =
    if c.ephemeral
    then (elim c.ephemeral_addrs [ none ↦ Result.panic | some n ↦ ok n ])
    else (do n ← the_network c; ok (pos (length n.private_keys) -ℤ pos 1))

-- the loop of AppendPksToNetwork over `Networks`: the network found gets the keys of the selected
-- network and the new ones
unfoldable pub append_to_named : Config → List Text → Text → List ℕ → Result (Config × Bool)
append_to_named c pks name [] = ok (c, false)
append_to_named c pks name (p ∷ ps) = do
  n ← deref c.heap p
  if equal_fold n.name name
      then (do
        selected ← the_network c
        c' ← write_at c p (λ m. record m { private_keys = selected.private_keys ++ pks })
        ok (c', true))
      else append_to_named c pks name ps

unfoldable pub append_pks_to_network : Config → List Text → Text → Result (Config × Bool)
append_pks_to_network c pks name = elim c.network [
  | none ↦ append_to_named c pks name c.networks
  | some p ↦ do
    n ← deref c.heap p
    if equal_fold n.name name
        then (do
          c' ← write_at c p (λ m. record m { private_keys = m.private_keys ++ pks })
          ok (c', true))
        else append_to_named c pks name c.networks
]
