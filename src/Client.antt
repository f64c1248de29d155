-- ===== src/Client.antt =====
-- client.go: the options of a transaction. What the node answers for an address is the parameter
-- `Node`, and the fees that the gas adjuster suggests are the interface `Fees`.
pub mod Estimations
pub mod Estimated
pub mod Options
pub mod Waiting
use seth.Prelude.{
  ℕ, suc, ◌+◌, Bool, true, false, not, ◌&&◌, ◌||◌, Option, none, some, List, [], ◌∷◌, ◌++◌, length,
  if◌then◌else◌, ltb, get_elem?,
}
use seth.Prelude.Int.{ℤ, pos, negsuc, ltb_ℤ}
use seth.Prelude.Text.{Text, codes, contains}
use seth.Prelude.Words.{int64_of_word}
use seth.Prelude.Errors.{Error, plain, wrapped, message, is_deadline, Result, ok, err, ◌>>=◌, Done}
use seth.Config.{Network, Config, the_network, write_at, is_simulated_network}

pub record NonceStatus : Type 0 where
  pub last_nonce : ℕ
  pub pending_nonce : ℕ

pub record GasEstimations : Type 0 where
  pub gas_price : Option ℤ
  pub gas_tip_cap : Option ℤ
  pub gas_fee_cap : Option ℤ

pub record GasEstimationRequest : Type 0 where
  pub gas_estimation_enabled : Bool
  pub fallback_gas_price : ℤ
  pub fallback_gas_fee_cap : ℤ
  pub fallback_gas_tip_cap : ℤ
  pub priority : Text

-- bind.TransactOpts; `context_error` is the error in its context, and `from` the address of its key
pub record TransactOpts : Type 0 where
  pub context_error : Option Error
  pub from : Option Text
  pub nonce : Option ℤ
  pub value : Option ℤ
  pub gas_price : Option ℤ
  pub gas_fee_cap : Option ℤ
  pub gas_tip_cap : Option ℤ
  pub gas_limit : ℕ
  pub no_send : Bool

pub record Client : Type 0 where
  pub config : Config
  pub addresses : List Text
  pub private_keys : List Text
  pub errors : List Error

-- PendingNonceAt, NonceAt, and bind.NewKeyedTransactorWithChainID, which gives the key's address
pub record Node : Type 0 where
  pub pending_nonce_at : Text → Result ℕ
  pub nonce_at : Text → Result ℕ
  pub transactor : Text → Result Text

-- The answers of GetSuggestedLegacyFees, and of GetSuggestedEIP1559Fees with the fee cap first, by the
-- priority, where the call has come to an end. Client.Estimated has the calls themselves.
pub record Fees : Type 0 where
  pub legacy_fees : Text → Result ℤ
  pub eip1559_fees : Text → Result (ℤ × ℤ)

abbrev pub no_opts : TransactOpts
no_opts = record {
  context_error = none;
  from = none;
  nonce = none;
  value = none;
  gas_price = none;
  gas_fee_cap = none;
  gas_tip_cap = none;
  gas_limit = 0;
  no_send = false;
}

abbrev pub no_status : NonceStatus
no_status = record { last_nonce = 0; pending_nonce = 0 }

abbrev pub no_estimations : GasEstimations
no_estimations = record { gas_price = none; gas_tip_cap = none; gas_fee_cap = none }

-- the context with the timeout of a transaction: a nil timeout panics
unfoldable pub with_timeout : Config → Done
with_timeout c = do n ← the_network c; elim n.txn_timeout [ none ↦ Result.panic | some t ↦ ok tt ]

unfoldable pub change_network : Config → (Network → Network) → Result Config
change_network c change = elim c.network [ none ↦ Result.panic | some p ↦ write_at c p change ]

unfoldable pub get_nonce_status : Node → Config → Text → Result NonceStatus
get_nonce_status node c address = do
  u ← with_timeout c
  pending ← node.pending_nonce_at address
  last ← node.nonce_at address
  ok (record { last_nonce = last; pending_nonce = pending })

unfoldable pub default_gas_estimation_request : Network → GasEstimationRequest
default_gas_estimation_request n = record {
  gas_estimation_enabled = n.gas_price_estimation_enabled;
  fallback_gas_price = n.gas_price;
  fallback_gas_fee_cap = n.gas_fee_cap;
  fallback_gas_tip_cap = n.gas_tip_cap;
  priority = n.gas_price_estimation_tx_priority;
}

unfoldable pub fallback_estimations : GasEstimationRequest → GasEstimations
fallback_estimations request = record {
  gas_price = some request.fallback_gas_price;
  gas_tip_cap = some request.fallback_gas_tip_cap;
  gas_fee_cap = some request.fallback_gas_fee_cap;
}

-- disableEstimationsIfNeeded
unfoldable pub disable_estimations : Error → Config → Result Config
disable_estimations e c =
    if contains (message e) (codes "either base fee or suggested tip is 0")
    then change_network c (λ n. record n { gas_price_estimation_enabled = false })
    else ok c

-- the error of a network without EIP-1559 fees
unfoldable pub is_unsupported : Error → Bool
is_unsupported e =
    contains (message e) (codes "method eth_maxPriorityFeePerGas")
    || contains (message e) (codes "method eth_maxFeePerGas")
    || contains (message e) (codes "method eth_feeHistory")
    || contains (message e) (codes "expected input list for types.txdata")

-- calculateLegacyFees, at the answer of GetSuggestedLegacyFees
unfoldable pub legacy_estimations :
    Config → GasEstimationRequest → GasEstimations → Result ℤ → Result (Config × GasEstimations)
legacy_estimations c request estimations (ok price) =
    ok (c, record estimations { gas_price = some price })
legacy_estimations c request estimations (err e) = do
  c' ← disable_estimations e c
  ok (c', record estimations { gas_price = some request.fallback_gas_price })
legacy_estimations c request estimations Result.panic = Result.panic

-- at the answer of GetSuggestedEIP1559Fees; `legacy` is the answer for legacy fees
unfoldable pub dynamic_estimations :
    Config → GasEstimationRequest → Result ℤ → Result (ℤ × ℤ) → Result (Config × GasEstimations)
dynamic_estimations c request legacy (ok (cap, tip)) =
    ok (c, record no_estimations { gas_fee_cap = some cap; gas_tip_cap = some tip })
dynamic_estimations c request legacy Result.panic = Result.panic
dynamic_estimations c request legacy (err e) =
    let fallback = record no_estimations {
      gas_fee_cap = some request.fallback_gas_fee_cap;
      gas_tip_cap = some request.fallback_gas_tip_cap;
    } in
    do
      c1 ← disable_estimations e c
      if is_unsupported e
          then (do
            c2 ← change_network c1 (λ n. record n { eip1559_dynamic_fees = false })
            legacy_estimations c2 request fallback legacy)
          else ok (c1, fallback)

unfoldable pub calculate_gas_estimations :
    Fees → Config → GasEstimationRequest → Result (Config × GasEstimations)
calculate_gas_estimations fees c request = do
  simulated ← is_simulated_network c
  if simulated || not request.gas_estimation_enabled
      then ok (c, fallback_estimations request)
      else (do
        u ← with_timeout c
        n ← the_network c
        if n.eip1559_dynamic_fees
            then dynamic_estimations c request (fees.legacy_fees request.priority)
                (fees.eip1559_fees request.priority)
            else legacy_estimations c request no_estimations (fees.legacy_fees request.priority))

-- configureTransactionOpts, before the caller's options
unfoldable pub configure : Network → ℕ → GasEstimations → TransactOpts → TransactOpts
configure n nonce estimations opts =
    let basic = record opts {
      nonce = some (int64_of_word nonce);
      gas_price = estimations.gas_price;
      gas_limit = n.gas_limit;
    } in
    if n.eip1559_dynamic_fees
    then record basic {
      gas_price = none;
      gas_tip_cap = estimations.gas_tip_cap;
      gas_fee_cap = estimations.gas_fee_cap;
    }
    else basic

-- the caller's options, each a function on the options
unfoldable pub apply_all : List (TransactOpts → TransactOpts) → TransactOpts → TransactOpts
apply_all [] opts = opts
apply_all (f ∷ fs) opts = apply_all fs (f opts)
