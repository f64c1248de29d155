-- ===== src/ClientBuilder/Built.antt =====
-- What a chain of builder calls builds: the settings, each the last one made, on one shared network.
use seth.Prelude.{
  ℕ, Bool, false, ◌||◌, Option, some, List, [], ◌∷◌, ◌≡◌, refl, arith, if◌then◌else◌, Bool-cases,
  inl, inr, ap, ◌∙◌,
}
use seth.Prelude.Int.{ℤ, pos, ltb_ℤ}
use seth.Prelude.Text.{Text}
use seth.Prelude.Errors.{Result, ok, ◌>>=◌}
use seth.Config.{Network, Config, write_at, deref, set}
use seth.Duration.{must_make_duration, must_make_duration_nonneg, must_make_duration_neg}
use seth.ClientBuilder.{
  ClientBuilder, write_first, write_both, with_rpc_url, with_private_keys, with_network_name,
  with_gas_price_estimations, with_eip1559_dynamic_fees, with_legacy_gas_price,
  with_dynamic_gas_prices, with_transfer_gas_fee, with_gas_bumping, with_transaction_timeout,
  with_rpc_dial_timeout, with_ephemeral_addresses, with_tracing, with_protections,
  with_artifacts_folder, with_nonce_manager,
}

-- A call of a builder method.
pub data Setting : Type 0 where
  rpc_url : Text → Setting
  private_keys : List Text → Setting
  network_name : Text → Setting
  gas_price_estimations : Bool → ℕ → Text → Setting
  eip1559_dynamic_fees : Bool → Setting
  legacy_gas_price : ℤ → Setting
  dynamic_gas_prices : ℤ → ℤ → Setting
  transfer_gas_fee : ℤ → Setting
  gas_bumping : ℕ → ℤ → Option (ℤ → ℤ) → Setting
  transaction_timeout : ℤ → Setting
  rpc_dial_timeout : ℤ → Setting
  ephemeral_addresses : ℤ → ℤ → Setting
  tracing : Text → List Text → Setting
  protections : Bool → Bool → Setting
  artifacts_folder : Text → Setting
  nonce_manager : ℤ → ℕ → ℤ → ℤ → Setting

unfoldable pub call : Setting → ClientBuilder → Result ClientBuilder
call (rpc_url u) = with_rpc_url u
call (private_keys ks) = with_private_keys ks
call (network_name n) = with_network_name n
call (gas_price_estimations on n p) = with_gas_price_estimations on n p
call (eip1559_dynamic_fees on) = with_eip1559_dynamic_fees on
call (legacy_gas_price g) = with_legacy_gas_price g
call (dynamic_gas_prices f t) = with_dynamic_gas_prices f t
call (transfer_gas_fee g) = with_transfer_gas_fee g
call (gas_bumping r m s) = with_gas_bumping r m s
call (transaction_timeout t) = with_transaction_timeout t
call (rpc_dial_timeout t) = with_rpc_dial_timeout t
call (ephemeral_addresses n b) = with_ephemeral_addresses n b
call (tracing l os) = with_tracing l os
call (protections p h) = with_protections p h
call (artifacts_folder d) = with_artifacts_folder d
call (nonce_manager l r t d) = with_nonce_manager l r t d

-- A chain of calls.
unfoldable pub calls : List Setting → ClientBuilder → Result ClientBuilder
calls [] b = ok b
calls (s ∷ ss) b = do b' ← call s b; calls ss b'

-- The specification: what one setting means for the one network ...
unfoldable pub on_network : Setting → Network → Network
on_network (rpc_url u) n = record n { urls = u ∷ [] }
on_network (private_keys ks) n = record n { private_keys = ks }
on_network (network_name name) n = record n { name = name }
on_network (gas_price_estimations on blocks p) n = record n {
  gas_price_estimation_enabled = on;
  gas_price_estimation_blocks = blocks;
  gas_price_estimation_tx_priority = p;
}
on_network (eip1559_dynamic_fees on) n = record n { eip1559_dynamic_fees = on }
on_network (legacy_gas_price g) n = record n { gas_price = g }
on_network (dynamic_gas_prices f t) n = record n { gas_fee_cap = f; gas_tip_cap = t }
on_network (transfer_gas_fee g) n = record n { transfer_gas_fee = g }
on_network (transaction_timeout t) n = record n { txn_timeout = some t }
on_network (rpc_dial_timeout t) n = record n { dial_timeout = some t }
on_network _ n = n

-- ... and for the rest of the configuration.
unfoldable pub on_config : Setting → Config → Config
on_config (gas_bumping r m s) c = record c {
  gas_bump = some (record { retries = r; max_gas_price = m; strategy_fn = s });
}
on_config (ephemeral_addresses n b) c = record c {
  ephemeral_addrs = some n;
  root_key_funds_buffer = some b;
}
on_config (tracing l os) c = record c { tracing_level = l; trace_outputs = os }
on_config (protections p h) c = record c {
  pending_nonce_protection_enabled = p;
  check_rpc_health_on_start = h;
}
on_config (artifacts_folder d) c = record c { artifacts_dir = d }
on_config (nonce_manager l r t d) c = record c {
  nonce_manager = some (record {
    key_sync_rate_limit_sec = l;
    key_sync_timeout = t;
    key_sync_retries = r;
    key_sync_retry_delay = d;
  });
}
on_config _ c = c

unfoldable pub all_on_network : List Setting → Network → Network
all_on_network [] n = n
all_on_network (s ∷ ss) n = all_on_network ss (on_network s n)

unfoldable pub all_on_config : List Setting → Config → Config
all_on_config [] c = c
all_on_config (s ∷ ss) c = all_on_config ss (on_config s c)

-- A duration that is negative.
unfoldable pub is_negative : Setting → Bool
is_negative (transaction_timeout t) = ltb_ℤ t (pos 0)
is_negative (rpc_dial_timeout t) = ltb_ℤ t (pos 0)
is_negative (nonce_manager l r t d) = ltb_ℤ t (pos 0) || ltb_ℤ d (pos 0)
is_negative _ = false

unfoldable pub any_negative : List Setting → Bool
any_negative [] = false
any_negative (s ∷ ss) = is_negative s || any_negative ss

-- The builder whose `Network` and `Networks[0]` are the one network `n`.
unfoldable pub built : Config → Network → ClientBuilder
built c n = record { config = record c { network = some 0; networks = 0 ∷ []; heap = n ∷ [] } }

write_both-built :
    (change : Network → Network) (c : Config) (n : Network)
    → write_both change (built c n) ≡ ok (built c (change (change n)))
unfolding write_both built write_first write_at deref set
write_both-built change c n = refl

-- a method that checks one duration first
checked-built :
    (d : ℤ) (change : ℤ → Network → Network) (c : Config) (n : Network)
    → ((x : ℤ) → change x (change x n) ≡ change x n)
    → (must_make_duration d >>= λ x. write_both (change x) (built c n))
      ≡ (if ltb_ℤ d (pos 0) then Result.panic else ok (built c (change d n)))
checked-built d change c n twice = elim (Bool-cases (ltb_ℤ d (pos 0))) [
  | inl e ↦ rw (must_make_duration_neg d e, e) refl
  | inr e ↦
      rw (must_make_duration_nonneg d (ground arith), e)
        (write_both-built (change d) c n ∙ ap (λ m. ok (built c m)) (twice d))
]

call-built :
    (s : Setting) (c : Config) (n : Network)
    → call s (built c n)
      ≡ (if is_negative s then Result.panic else ok (built (on_config s c) (on_network s n)))
unfolding call on_network on_config is_negative with_rpc_url with_private_keys with_network_name
    with_gas_price_estimations with_eip1559_dynamic_fees with_legacy_gas_price
    with_dynamic_gas_prices with_transfer_gas_fee with_gas_bumping with_transaction_timeout
    with_rpc_dial_timeout with_ephemeral_addresses with_tracing with_protections
    with_artifacts_folder with_nonce_manager built
call-built (rpc_url u) c n = write_both-built _ c n
call-built (private_keys ks) c n = write_both-built _ c n
call-built (network_name name) c n = write_both-built _ c n
call-built (gas_price_estimations on blocks p) c n = write_both-built _ c n
call-built (eip1559_dynamic_fees on) c n = write_both-built _ c n
call-built (legacy_gas_price g) c n = write_both-built _ c n
call-built (dynamic_gas_prices f t) c n = write_both-built _ c n
call-built (transfer_gas_fee g) c n = write_both-built _ c n
call-built (gas_bumping r m s) c n = refl
call-built (transaction_timeout t) c n =
    checked-built t (λ x m. record m { txn_timeout = some x }) c n (λ x. refl)
call-built (rpc_dial_timeout t) c n =
    checked-built t (λ x m. record m { dial_timeout = some x }) c n (λ x. refl)
call-built (ephemeral_addresses k b) c n = refl
call-built (tracing l os) c n = refl
call-built (protections p h) c n = refl
call-built (artifacts_folder d) c n = refl
call-built (nonce_manager l r t d) c n = elim (Bool-cases (ltb_ℤ t (pos 0))) [
  | inl e ↦ rw (must_make_duration_neg t e, e) refl
  | inr e ↦ elim (Bool-cases (ltb_ℤ d (pos 0))) [
    | inl f ↦ rw (must_make_duration_nonneg t (ground arith), must_make_duration_neg d f, e, f) refl
    | inr f ↦
        rw
          (
            must_make_duration_nonneg t (ground arith),
            must_make_duration_nonneg d (ground arith),
            e,
            f,
          )
          refl
  ]
]

-- A chain of calls on a builder with one shared network panics where a duration is negative, and
-- builds otherwise the configuration that the settings describe, applied in order: the one network
-- through both of its pointers, and the rest of the configuration.
pub calls-built :
    (ss : List Setting) (c : Config) (n : Network)
    → calls ss (built c n) ≡ (
        if any_negative ss
        then Result.panic
        else ok (built (all_on_config ss c) (all_on_network ss n)))
unfolding calls any_negative all_on_config all_on_network
calls-built [] c n = refl
calls-built (s ∷ ss) c n = elim (Bool-cases (is_negative s)) [
  | inl e ↦ rw (call-built s c n, e) refl
  | inr e ↦ rw (call-built s c n, e) (calls-built ss (on_config s c) (on_network s n))
]
