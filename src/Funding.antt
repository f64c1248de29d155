-- ===== src/Funding.antt =====
-- CalculateSubKeyFunding of util.go: how the root key's balance is split among the other keys.
pub mod Affordable
use seth.Prelude.{
  ℕ, suc, ◌/◌, ◌*◌, List, [], ◌∷◌, if◌then◌else◌, ◌==◌, get_elem?, none, some, holds,
}
use seth.Prelude.Int.{ℤ, pos, negsuc, ◌+ℤ◌, ◌-ℤ◌, ◌*ℤ◌, ltb_ℤ, ℤ_discrete}
use seth.Prelude.Text.{Text, codes}
use seth.Prelude.Words.{int64, int64_of_word}
use seth.Prelude.Errors.{Error, plain, Result, ok, err, ◌>>=◌}

pub record FundingDetails : Type 0 where
  pub root_balance : ℤ
  pub total_fee : ℤ
  pub free_balance : ℤ
  pub addr_funding : ℤ
  pub network_transfer_fee : ℤ

abbrev pub insufficient_error : Error
insufficient_error = plain (codes "insufficient root key balance")

-- one ether in wei
abbrev pub ether : ℤ
ether = pos 1_000_000_000_000_000_000

-- Div of package big, for a dividend that is not negative and a divisor that is not zero
unfoldable pub div : ℕ → ℤ → ℤ
div f (pos n) = pos (f / n)
div f (negsuc k) = pos 0 -ℤ pos (f / suc k)

-- The gas limit: the node's estimate for a transfer to a new address, or else the configured one.
unfoldable pub gas_limit_of : ℤ → Result ℕ → ℤ
gas_limit_of configured (ok w) = int64_of_word w
gas_limit_of configured r = configured

-- the share of each key, and the check that the shares can be paid
unfoldable pub split : ℤ → ℤ → ℤ → ℤ → ℤ → Result FundingDetails
split balance addrs fee total (negsuc k) = err insufficient_error
split balance addrs fee total (pos free) =
    if ltb_ℤ (pos free) (div free addrs *ℤ addrs)
    then err insufficient_error
    else ok (record {
      root_balance = balance;
      total_fee = total;
      free_balance = pos free;
      addr_funding = div free addrs;
      network_transfer_fee = fee;
    })

unfoldable pub with_fee : ℤ → ℤ → ℤ → ℤ → Result FundingDetails
with_fee balance addrs buffer fee =
    split balance addrs fee (fee *ℤ addrs) (balance -ℤ ((fee *ℤ addrs) +ℤ (buffer *ℤ ether)))

-- `balance` is the node's answer for the root key, `estimate` its answer for the gas of a transfer, or
-- the failure to make a new address. Dividing the balance by no keys panics.
unfoldable pub calculate_sub_key_funding :
    Result ℕ → Result ℕ → ℤ → ℤ → ℤ → ℤ → Result FundingDetails
calculate_sub_key_funding balance estimate transfer_gas_fee addrs gas_price buffer = do
  b ← balance
  if holds (ℤ_discrete addrs (pos 0))
      then Result.panic
      else with_fee (pos b) addrs buffer
          (int64 (gas_price *ℤ gas_limit_of transfer_gas_fee estimate))
