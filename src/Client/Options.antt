-- ===== src/Client/Options.antt =====
-- NewTXOpts and NewTXKeyOpts of client.go, and the caller's options.
pub mod Proposal
pub mod Marked
use seth.Prelude.{
  ℕ, suc, ◌+◌, ◌-◌, Bool, true, false, not, ◌&&◌, ◌||◌, Option, none, some, List, [], ◌∷◌, ◌++◌,
  length, if◌then◌else◌, ltb, get_elem?, holds,
}
use seth.Prelude.Int.{ℤ, pos, negsuc, ltb_ℤ, ◌-ℤ◌, ℤ_discrete}
use seth.Prelude.Text.{Text, codes, decimal}
use seth.Prelude.Errors.{Error, plain, wrapped, Result, ok, err, ◌>>=◌, Done}
use seth.Config.{Network, Config, the_network}
use seth.Nonce.{timeout_key_num}
use seth.Client.{
  NonceStatus, GasEstimations, TransactOpts, Client, Node, Fees, no_opts, no_status, no_estimations,
  get_nonce_status, default_gas_estimation_request, calculate_gas_estimations, configure, apply_all,
}

-- the caller's options
unfoldable pub with_value : Option ℤ → TransactOpts → TransactOpts
with_value value opts = record opts { value = value }

unfoldable pub with_gas_price : Option ℤ → TransactOpts → TransactOpts
with_gas_price gas_price opts = record opts { gas_price = gas_price }

unfoldable pub with_gas_limit : ℕ → TransactOpts → TransactOpts
with_gas_limit gas_limit opts = record opts { gas_limit = gas_limit }

unfoldable pub with_no_send : Bool → TransactOpts → TransactOpts
with_no_send no_send opts = record opts { no_send = no_send }

unfoldable pub with_nonce : Option ℤ → TransactOpts → TransactOpts
with_nonce nonce opts = record opts { nonce = nonce }

unfoldable pub with_gas_fee_cap : Option ℤ → TransactOpts → TransactOpts
with_gas_fee_cap gas_fee_cap opts = record opts { gas_fee_cap = gas_fee_cap }

unfoldable pub with_gas_tip_cap : Option ℤ → TransactOpts → TransactOpts
with_gas_tip_cap gas_tip_cap opts = record opts { gas_tip_cap = gas_tip_cap }

-- what getProposedTransactionOptions returns
pub record Proposed : Type 0 where
  pub client : Client
  pub opts : TransactOpts
  pub status : NonceStatus
  pub estimations : GasEstimations

-- an error is kept by the client, and marks the options
unfoldable pub add_error : Client → Error → Client
add_error m e = record m { errors = m.errors ++ e ∷ [] }

unfoldable pub marked : Client → Error → Proposed
marked m e = record {
  client = add_error m e;
  opts = record no_opts { context_error = some e };
  status = no_status;
  estimations = no_estimations;
}

-- the text of the error ends with a paragraph on its causes, which is left out
abbrev pub pending_error : ℕ → NonceStatus → Error
pending_error key_num status = plain (
    codes "pending nonce for key "
    ++ decimal key_num
    ++ codes " is higher than last nonce, there are "
    ++ decimal (status.pending_nonce - status.last_nonce)
    ++ codes " pending transactions.")

-- m.PrivateKeys[keyNum] and m.Addresses[keyNum]
unfoldable pub at_index : List Text → ℕ → Result Text
at_index xs i = elim (get_elem? xs i) [ none ↦ Result.panic | some x ↦ ok x ]

-- the check of pending transactions, and the error for the context
unfoldable pub check_pending : Client → ℕ → NonceStatus → Client × Option Error
check_pending m key_num status =
    if m.config.pending_nonce_protection_enabled && ltb status.last_nonce status.pending_nonce
    then (add_error m (pending_error key_num status), some (pending_error key_num status))
    else (m, none)

unfoldable pub transactor_error : Error → ℕ → Error
transactor_error e key_num =
    wrapped (codes "failed to create transactor for key " ++ decimal key_num) e

-- the end, with the transactor or its error
unfoldable pub proposed :
    Client → ℕ → NonceStatus → Option Error → GasEstimations → Result Text → Result Proposed
proposed m key_num status mark estimations (ok address) = ok (record {
  client = m;
  opts = record no_opts { context_error = mark; from = some address };
  status = status;
  estimations = estimations;
})
proposed m key_num status mark estimations (err e) = ok (marked m (transactor_error e key_num))
proposed m key_num status mark estimations Result.panic = Result.panic

-- after the nonce status
unfoldable pub propose : Node → Fees → Client → ℕ → Result NonceStatus → Result Proposed
propose node fees m key_num (err e) = ok (marked m e)
propose node fees m key_num Result.panic = Result.panic
propose node fees m key_num (ok status) = do
  n ← the_network m.config
  out ← calculate_gas_estimations fees m.config (default_gas_estimation_request n)
  key ← at_index m.private_keys key_num
  proposed (record (check_pending m key_num status).0 { config = out.0 }) key_num status
      (check_pending m key_num status).1 out.1 (node.transactor key)

unfoldable pub get_proposed_transaction_options : Node → Fees → Client → ℕ → Result Proposed
get_proposed_transaction_options node fees m key_num = do
  address ← at_index m.addresses key_num
  propose node fees m key_num (get_nonce_status node m.config address)

-- the proposal as transaction options
unfoldable pub configured :
    List (TransactOpts → TransactOpts) → Proposed → Result (Client × TransactOpts)
configured fs p = do
  n ← the_network p.client.config
  ok (p.client, apply_all fs (configure n p.status.pending_nonce p.estimations p.opts))

unfoldable pub new_tx_opts :
    Node → Fees → List (TransactOpts → TransactOpts) → Client → Result (Client × TransactOpts)
new_tx_opts node fees fs m = do p ← get_proposed_transaction_options node fees m 0; configured fs p

unfoldable pub signed_decimal : ℤ → Text
signed_decimal (pos n) = decimal n
signed_decimal (negsuc n) = codes "-" ++ decimal (suc n)

-- the error for a key that is out of the range of `n` keys
unfoldable pub range_error : ℕ → ℤ → Error
range_error n key_num =
    let text =
      codes "keyNum is out of range. Expected 0-"
      ++ signed_decimal (pos n -ℤ pos 1)
      ++ codes ". Got: "
      ++ signed_decimal key_num in
    if holds (ℤ_discrete key_num timeout_key_num)
    then plain (
        text
        ++ codes
            " (this is a probably because, we didn't manage to find any synced key before timeout)")
    else plain text

unfoldable pub new_tx_key_opts :
    Node → Fees → List (TransactOpts → TransactOpts) → Client → ℤ → Result (Client × TransactOpts)
new_tx_key_opts node fees fs m (negsuc k) = ok (
  add_error m (range_error (length m.addresses) (negsuc k)),
  record no_opts { context_error = some (range_error (length m.addresses) (negsuc k)) },
)
new_tx_key_opts node fees fs m (pos k) =
    if ltb (length m.addresses) k
    then ok (
      add_error m (range_error (length m.addresses) (pos k)),
      record no_opts { context_error = some (range_error (length m.addresses) (pos k)) },
    )
    else (do p ← get_proposed_transaction_options node fees m k; configured fs p)
