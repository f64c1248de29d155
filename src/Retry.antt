-- ===== src/Retry.antt =====
-- retry.go: gas bumping. Signing, sending and the search for a transaction are go-ethereum's and the
-- node's, the parameter `Chain`; a replacement that is sent is the outcome of `send`.
pub mod Bumped
use seth.Prelude.{
  ℕ, zero, suc, ◌+◌, ◌*◌, ◌/◌, Bool, true, false, ◌&&◌, not, Option, none, some, List, [], ◌∷◌,
  ◌++◌, length, if◌then◌else◌, ◌==◌, ltb, get_elem?,
}
use seth.Prelude.Int.{ℤ, pos, negsuc, ◌+ℤ◌, ◌*ℤ◌, ltb_ℤ}
use seth.Prelude.Text.{Text, codes, ◌==ₜ◌}
use seth.Prelude.Words.{two64, uint64_of_int}
use seth.Prelude.Errors.{Error, plain, Result, ok, err, ◌>>=◌, Done}
use seth.Config.{Config, GasBumpConfig, has_max_bump_gas_price}
use seth.Config.Validate.{priority_degen, priority_fast, priority_standard, priority_slow}

-- What the four kinds of transaction that are replaced have in common.
pub record TxBody : Type 0 where
  pub nonce : ℕ
  pub to : Option Text
  pub value : ℤ
  pub gas : ℕ
  pub payload : Text

-- A transaction and its prices; `other` is any other type, by its number. An access list, and the
-- hashes of blobs, are texts.
pub data Tx : Type 0 where
  legacy : TxBody → ℤ → Tx
  dynamic_fee : TxBody → ℤ → ℤ → Tx
  blob : TxBody → ℤ → ℤ → ℤ → List Text → Tx
  access_list : TxBody → ℤ → List Text → Tx
  other : ℕ → Tx

-- the strategies that multiply by a float, which package big rounds
pub record Floats : Type 0 where
  pub times_1_3 : ℤ → ℤ
  pub times_1_15 : ℤ → ℤ
  pub times_1_05 : ℤ → ℤ

unfoldable pub no_op_strategy : ℤ → ℤ
no_op_strategy price = price

unfoldable pub priority_based_strategy : Floats → Text → ℤ → ℤ
priority_based_strategy floats priority price =
    if priority ==ₜ priority_degen
    then price *ℤ pos 2
    else (if priority ==ₜ priority_fast
        then floats.times_1_3 price
        else (if priority ==ₜ priority_standard
            then floats.times_1_15 price
            else (if priority ==ₜ priority_slow then floats.times_1_05 price else price)))

-- `by_hash` is TransactionByHash's answer on whether the transaction is pending, `sender` recovers the
-- sender; `sign` signs with the private key of an index.
pub record Chain (Signed : Type 0) : Type 0 where
  pub body : Signed → Tx
  pub by_hash : Signed → Result Bool
  pub sender : Signed → Result Text
  pub sign : ℕ → Tx → Result Signed
  pub send : Signed → Done

abbrev pub confirmed_error : Error
confirmed_error = plain (codes "transaction was confirmed before bumping gas")

abbrev pub sender_error : Error
sender_error = plain (codes "sender address not found in loaded private keys")

abbrev pub max_price_error : Error
max_price_error = plain (codes "bumped gas price is higher than max gas price")

abbrev pub blob_error : Error
blob_error = plain (codes "blob tx with nil recipient is not supported")

abbrev pub unsupported_error : Error
unsupported_error = plain (codes "unsupported tx type")

-- the loop over the addresses: the first index of the sender
unfoldable pub index_of : Text → ℕ → List Text → Option ℕ
index_of sender i [] = none
index_of sender i (a ∷ addresses) =
    if a ==ₜ sender then some i else index_of sender (suc i) addresses

-- checkMaxPrice
unfoldable pub check_max_price : Config → GasBumpConfig → ℤ → Done
check_max_price c bump price =
    if has_max_bump_gas_price c
    then (if ltb_ℤ bump.max_gas_price price then err max_price_error else ok tt)
    else ok tt

-- uint256.NewInt(x.Uint64()): the low 64 bits of the magnitude
unfoldable pub low64 : ℤ → ℤ
low64 (pos n) = pos (uint64_of_int (pos n))
low64 (negsuc n) = pos (uint64_of_int (pos (suc n)))

-- a nil strategy panics when it is called
unfoldable pub strategy_of : GasBumpConfig → Result (ℤ → ℤ)
strategy_of bump = elim bump.strategy_fn [ none ↦ Result.panic | some f ↦ ok f ]

-- The replacement of each kind, before it is signed. An access list transaction is made without its
-- gas price, whose nil counts as zero.
unfoldable pub replacement : Config → GasBumpConfig → Tx → Result Tx
replacement c bump (legacy body price) = do
  f ← strategy_of bump
  u ← check_max_price c bump (f price)
  ok (legacy body (f price))
replacement c bump (dynamic_fee body cap tip) = do
  f ← strategy_of bump
  u ← check_max_price c bump (f cap +ℤ f tip)
  ok (dynamic_fee body (f cap) (f tip))
replacement c bump (blob body cap tip blob_cap hashes) = elim body.to [
  | none ↦ err blob_error
  | some to ↦ do
    f ← strategy_of bump
    u ← check_max_price c bump (f cap +ℤ (f tip +ℤ f blob_cap))
    ok (
        blob (record body { value = low64 body.value }) (low64 (f cap)) (low64 (f tip))
          (low64 (f blob_cap)) hashes)
]
replacement c bump (access_list body price accesses) = do
  f ← strategy_of bump
  u ← check_max_price c bump (f price)
  ok (access_list body (pos 0) accesses)
replacement c bump (other n) = err unsupported_error

module _ {Signed : Type 0} (chain : Chain Signed) where
  open chain use {body, by_hash, sender, sign, send}

  -- without a configuration of gas bumping its maximum cannot be read
  unfoldable pub bump_with : Config → Tx → Result Tx
  bump_with c tx = elim c.gas_bump [ none ↦ Result.panic | some bump ↦ replacement c bump tx ]

  unfoldable pub checked_pending : Bool → Done
  checked_pending false = err confirmed_error
  checked_pending true = ok tt

  unfoldable pub key_of_sender : List Text → Text → Result ℕ
  key_of_sender addresses from = elim (index_of from 0 addresses) [
    | none ↦ err sender_error
    | some i ↦ ok i
  ]

  unfoldable pub prepare_replacement : Config → List Text → Signed → Result Signed
  prepare_replacement c addresses tx = do
    pending ← by_hash tx
    u ← checked_pending pending
    from ← sender tx
    i ← key_of_sender addresses from
    new ← bump_with c (body tx)
    signed ← sign i new
    sent ← send signed
    ok signed
