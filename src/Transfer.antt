-- ===== src/Transfer.antt =====
-- client.go: TransferETHFromKey, EstimateGasLimitForFundTransfer and checkRPCHealth, and the amount that
-- ReturnFunds of keyfile.go returns from a key. The nonce manager exists.
pub mod Sent
pub mod Counted
pub mod Health
pub mod Returned
use seth.Prelude.{
  ℕ, suc, Bool, true, false, ◌||◌, Option, none, some, List, [], ◌∷◌, ◌++◌, length, if◌then◌else◌,
  ltb, ◌⊎◌, inl, inr,
}
use seth.Prelude.Int.{ℤ, pos, negsuc, ◌-ℤ◌, ◌*ℤ◌, ltb_ℤ}
use seth.Prelude.Text.{Text, codes}
use seth.Prelude.Words.{int64, uint64_of_int}
use seth.Prelude.Errors.{Error, plain, wrapped, Result, ok, err, ◌>>=◌, Done, wrap_err}
use seth.Config.{Config, the_network}
use seth.Client.{with_timeout}
use seth.Client.Options.{at_index, signed_decimal}
use seth.GasEstimator.{answered}
use seth.Funding.{gas_limit_of}
use seth.Retry.{TxBody, Tx, legacy}
use seth.Nonce.{NonceManager, next_nonce}
use seth.Mining.{Receipt, wait_mined}

-- The node, and the signing with a private key for a chain. `answers` are the node's answers for the
-- receipt until the context is done, and `done` is the context's error.
pub record TransferNode (Signed : Type 0) : Type 0 where
  pub network_id : Error ⊎ ℤ
  pub hex_to_address : Text → Text
  pub estimate_gas : Text → Text → ℤ → Error ⊎ ℕ
  pub sign : Text → ℤ → Tx → Error ⊎ Signed
  pub send : Signed → Error ⊎ Unit {0}
  pub answers : Signed → List (Error ⊎ Receipt)
  pub done : Error

-- The nonce manager, and the transactions that the node took, the last one at the end.
pub record Wallet (Signed : Type 0) : Type 0 where
  pub manager : NonceManager
  pub sent : List Signed

-- The client's keys with their addresses.
pub record Keyring : Type 0 where
  pub private_keys : List Text
  pub addresses : List Text

-- A transfer: the number of the key, the recipient, the value, and the gas price or nil.
pub record Transfer : Type 0 where
  pub from_key_num : ℤ
  pub to : Text
  pub value : ℤ
  pub gas_price : Option ℤ

-- What is known of a transfer before its nonce.
pub record Prepared : Type 0 where
  pub chain_id : ℤ
  pub address : Text
  pub gas_limit : ℤ
  pub price : ℤ

unfoldable pub no_key_error : ℤ → Error
no_key_error n =
    wrapped (codes "requested key: " ++ signed_decimal n)
      (plain (codes "failed to load private key"))

-- The bytes of U+00AF and U+30C4 are written out.
abbrev pub health_check_text : Text
health_check_text =
    codes "RPC health check failed "
    ++ (194 ∷ 175 ∷ codes "\\_(")
    ++ (227 ∷ 131 ∷ 132 ∷ codes ")_/")
    ++ (194 ∷ 175 ∷ [])

-- the range check, which the length itself passes
unfoldable pub is_out_of_range : Keyring → ℤ → Bool
is_out_of_range keys n =
    ltb_ℤ (pos (length keys.private_keys)) n || ltb_ℤ (pos (length keys.addresses)) n

unfoldable pub key_at : List Text → ℤ → Result Text
key_at xs (negsuc k) = Result.panic
key_at xs (pos k) = at_index xs k

unfoldable pub or_configured : ℤ → Option ℤ → ℤ
or_configured configured none = configured
or_configured configured (some price) = price

-- Uint64 of package big: the low bits of the absolute value
unfoldable pub big_uint64 : ℤ → ℕ
big_uint64 (pos n) = uint64_of_int (pos n)
big_uint64 (negsuc n) = uint64_of_int (pos (suc n))

-- What ReturnFunds returns of a balance; none where the balance is too small. The fee is a product of two
-- int64.
unfoldable pub amount_to_return : ℤ → ℤ → ℤ → Option ℤ
amount_to_return gas_price limit balance =
    let funds = balance -ℤ int64 (int64 gas_price *ℤ limit) in
    if ltb_ℤ funds (pos 0) then none else some funds

unfoldable pub transfer_of : Text → ℤ → ℕ → Option ℤ → Option Transfer
transfer_of to gas_price i none = none
transfer_of to gas_price i (some funds) =
    some (record { from_key_num = pos i; to = to; value = funds; gas_price = some gas_price })

module _ {Signed : Type 0} (node : TransferNode Signed) (config : Config) where
  -- EstimateGasLimitForFundTransfer
  unfoldable pub estimate_gas_limit : Text → Text → ℤ → Result ℕ
  estimate_gas_limit from to amount = do
    t ← with_timeout config
    wrap_err (codes "failed to estimate gas for fund transfer")
        (answered (node.estimate_gas from to amount))

  -- the gas limit, the configured one where the estimate fails
  unfoldable pub transfer_gas_limit : Text → Text → ℤ → Result ℤ
  transfer_gas_limit from to amount = do
    t ← with_timeout config
    n ← the_network config
    ok (gas_limit_of n.transfer_gas_fee (estimate_gas_limit from to amount))

  -- the function until it asks for the nonce, after the range check
  unfoldable pub prepare_in_range : Keyring → Transfer → Result Prepared
  prepare_in_range keys t = do
    id ← wrap_err (codes "failed to get network ID") (answered node.network_id)
    address ← key_at keys.addresses t.from_key_num
    limit ← transfer_gas_limit address (node.hex_to_address t.to) t.value
    n ← the_network config
    ok (record {
      chain_id = id;
      address = address;
      gas_limit = limit;
      price = or_configured n.gas_price t.gas_price;
    })

  unfoldable pub prepare : Keyring → Transfer → Result Prepared
  prepare keys t =
      if is_out_of_range keys t.from_key_num
      then err (no_key_error t.from_key_num)
      else prepare_in_range keys t

  unfoldable pub transfer_tx : Transfer → Prepared → ℤ → Tx
  transfer_tx t p nonce =
      legacy
        (record {
          nonce = big_uint64 nonce;
          to = some (node.hex_to_address t.to);
          value = t.value;
          gas = uint64_of_int p.gas_limit;
          payload = [];
        })
        p.price

  unfoldable pub sign_transfer : Keyring → Transfer → Prepared → ℤ → Result Signed
  sign_transfer keys t p nonce = do
    key ← key_at keys.private_keys t.from_key_num
    signed ←
        wrap_err (codes "failed to sign tx")
          (answered (node.sign key p.chain_id (transfer_tx t p nonce)))
    u ← with_timeout config
    ok signed

  -- the wait for the receipt
  unfoldable pub receive : Signed → Done
  receive signed = do receipt ← wait_mined node.done (node.answers signed); ok tt

  unfoldable pub send_transfer : Wallet Signed → Signed → Wallet Signed × Done
  send_transfer w signed = elim (node.send signed) [
    | inl e ↦ (w, err (wrapped (codes "failed to send transaction") e))
    | inr u ↦ (record w { sent = w.sent ++ signed ∷ [] }, receive signed)
  ]

  -- NextNonce, and the function after it
  unfoldable pub count_and_send :
      Keyring → Transfer → Prepared → Wallet Signed → Wallet Signed × Done
  count_and_send keys t p w =
      let (nonce, manager) = next_nonce p.address w.manager in
      elim (sign_transfer keys t p nonce) [
        | Result.panic ↦ (record w { manager = manager }, Result.panic)
        | err e ↦ (record w { manager = manager }, err e)
        | ok signed ↦ send_transfer (record w { manager = manager }) signed
      ]

  -- TransferETHFromKey
  unfoldable pub transfer_eth_from_key : Keyring → Transfer → Wallet Signed → Wallet Signed × Done
  transfer_eth_from_key keys t w = elim (prepare keys t) [
    | Result.panic ↦ (w, Result.panic)
    | err e ↦ (w, err e)
    | ok p ↦ count_and_send keys t p w
  ]

  -- the gas price of the suggestion, or the configured one
  unfoldable pub suggested_or_configured : Result ℤ → Result ℤ
  suggested_or_configured (ok price) = ok price
  suggested_or_configured (err e) = do n ← the_network config; ok n.gas_price
  suggested_or_configured Result.panic = Result.panic

  unfoldable pub wrap_done : Text → Wallet Signed × Done → Wallet Signed × Done
  wrap_done text (w, done) = (w, wrap_err text done)

  unfoldable pub health_transfer : Text → ℤ → Transfer
  health_transfer address price = record {
    from_key_num = pos 0;
    to = address;
    value = pos 10_000;
    gas_price = some price;
  }

  unfoldable pub prepare_health : Keyring → Result ℤ → Result Transfer
  prepare_health keys suggested = do
    u ← with_timeout config
    price ← suggested_or_configured suggested
    address ← at_index keys.addresses 0
    ok (health_transfer address price)

  -- checkRPCHealth, where GetSuggestedLegacyFees answered `suggested`
  unfoldable pub check_rpc_health : Keyring → Result ℤ → Wallet Signed → Wallet Signed × Done
  check_rpc_health keys suggested w = elim (prepare_health keys suggested) [
    | Result.panic ↦ (w, Result.panic)
    | err e ↦ (w, err e)
    | ok t ↦ wrap_done health_check_text (transfer_eth_from_key keys t w)
  ]

  unfoldable pub return_transfer :
      Keyring → (Text → Error ⊎ ℤ) → Text → ℤ → ℕ → Result (Option Transfer)
  return_transfer keys balance_at to gas_price i = do
    address ← at_index keys.addresses i
    balance ← answered (balance_at address)
    limit ← transfer_gas_limit address (node.hex_to_address to) balance
    ok (transfer_of to gas_price i (amount_to_return gas_price limit balance))

  -- the goroutine of ReturnFunds for one key, whose balance the node gives
  unfoldable pub return_funds_of_key :
      Keyring → (Text → Error ⊎ ℤ) → Text → ℤ → ℕ → Wallet Signed → Wallet Signed × Done
  return_funds_of_key keys balance_at to gas_price i w =
      elim (return_transfer keys balance_at to gas_price i) [
        | Result.panic ↦ (w, Result.panic)
        | err e ↦ (w, err e)
        | ok none ↦ (w, ok tt)
        | ok (some t) ↦ transfer_eth_from_key keys t w
      ]
