-- ===== src/Tests/Funding.antt =====
-- The split of a balance of five ether among two keys.
use seth.Prelude.{◌≡◌, refl}
use seth.Prelude.Int.{pos, ◌+ℤ◌, ◌-ℤ◌, ◌*ℤ◌, ◌≤ℤ◌, ℤ_discrete}
use seth.Prelude.Words.{int64, int64_of_word, uint64_of_int}
use seth.Prelude.Errors.{ok, Result}
use seth.Funding.{
  FundingDetails, ether, insufficient_error, div, gas_limit_of, split, with_fee,
  calculate_sub_key_funding,
}
use seth.Funding.Affordable.{calculate_sub_key_funding-covered}

program : Unit {0}
unfolding ℤ_discrete ◌+ℤ◌ ◌-ℤ◌ ◌*ℤ◌ int64 int64_of_word uint64_of_int div gas_limit_of split
    with_fee calculate_sub_key_funding
program = tt

abbrev details : FundingDetails
details = record {
  root_balance = pos 5_000_000_000_000_000_000;
  total_fee = pos 420_000_000_000_000;
  free_balance = pos 3_999_580_000_000_000_000;
  addr_funding = pos 1_999_790_000_000_000_000;
  network_transfer_fee = pos 210_000_000_000_000;
}

details_run :
    calculate_sub_key_funding
      (ok 5_000_000_000_000_000_000)
      (ok 21_000)
      (pos 30_000)
      (pos 2)
      (pos 10_000_000_000)
      (pos 1)
    ≡ ok details
unfolding program
details_run = refl

too_little :
    calculate_sub_key_funding (ok 900) (ok 21_000) (pos 30_000) (pos 2) (pos 10_000_000_000) (pos 0)
    ≡ Result.err insufficient_error
unfolding program
too_little = refl

calculate_sub_key_funding-covered_example :
    ((details.addr_funding *ℤ pos 2) +ℤ (details.total_fee +ℤ (pos 1 *ℤ ether)))
    ≤ℤ pos 5_000_000_000_000_000_000
calculate_sub_key_funding-covered_example =
    calculate_sub_key_funding-covered 5_000_000_000_000_000_000 2 (ok 21_000) (pos 30_000)
      (pos 10_000_000_000) (pos 1) details details_run
