-- ===== src/Transfer/Returned.antt =====
-- What ReturnFunds returns of a balance.
use seth.Prelude.{ℕ, ◌+◌, ◌-◌, ◌*◌, ◌≤◌, ◌<◌, ◌≡◌, none, some, arith}
use seth.Prelude.Int.{ℤ, pos, ◌-ℤ◌, ◌*ℤ◌}
use seth.Prelude.Words.{two63, int64, int64_pos}
use seth.Transfer.{amount_to_return}

times_pos : (m n : ℕ) → pos m *ℤ pos n ≡ pos (m * n)
unfolding ◌*ℤ◌
times_pos m n = ground arith

fee_small :
    (price limit : ℕ)
    → price < two63
    → price * limit < two63
    → int64 (int64 (pos price) *ℤ pos limit) ≡ pos (price * limit)
fee_small price limit p f =
    rw (int64_pos price p, times_pos price limit) (int64_pos (price * limit) f)

returned_without :
    (price limit : ℤ) (fee balance : ℕ)
    → int64 (int64 price *ℤ limit) ≡ pos fee
    → (balance < fee → amount_to_return price limit (pos balance) ≡ none)
      × (fee ≤ balance
          → (funds : ℕ) × (amount_to_return price limit (pos balance) ≡ some (pos funds))
            × (funds + fee ≡ balance))
unfolding amount_to_return ◌-ℤ◌
returned_without price limit fee balance e = (
  λ h. rw (e, amount_to_return) (ground (arith, h)),
  λ h. (balance - fee, rw (e, amount_to_return) (ground (arith, h)), omega (arith, h)),
)

-- Where the gas price and the fee fit into an int64, a key whose balance does not cover the fee is
-- skipped, and the amount that is returned from any other key is its balance less the fee.
pub amount_to_return_lem :
    (price limit balance : ℕ)
    → price < two63
    → price * limit < two63
    → (balance < price * limit → amount_to_return (pos price) (pos limit) (pos balance) ≡ none)
      × (price * limit ≤ balance
          → (funds : ℕ) × (amount_to_return (pos price) (pos limit) (pos balance)
              ≡ some (pos funds))
            × (funds + price * limit ≡ balance))
amount_to_return_lem price limit balance p f =
    returned_without (pos price) (pos limit) (price * limit) balance (fee_small price limit p f)
