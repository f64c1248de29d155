-- ===== src/Funding/Affordable.antt =====
-- The shares of the keys, the fees and the buffer never exceed the root key's balance.
use native.Mathlib.Nat.{div-mul-le_self}
use seth.Prelude.{
  ℕ, ◌+◌, ◌/◌, ◌*◌, ◌≤◌, ◌≡◌, refl, sym, ap, subst, ◌∙◌, arith, Bool-cases, inl, inr,
}
use seth.Prelude.Int.{ℤ, sub_ℕ, pos, negsuc, ◌+ℤ◌, ◌-ℤ◌, ◌*ℤ◌, ◌≤ℤ◌, ltb_ℤ, ℤ_discrete}
use seth.Prelude.Words.{int64}
use seth.Prelude.Errors.{Result, ok}
use seth.Funding.{
  FundingDetails, ether, div, gas_limit_of, split, with_fee, calculate_sub_key_funding,
}

no_less : (p q : ℕ) → q ≡ 0 → sub_ℕ (p + 0) q ≡ pos p
no_less p q h = ground arith

-- a product of numbers
times_pos : (m n : ℕ) → pos m *ℤ pos n ≡ pos (m * n)
unfolding ◌*ℤ◌
times_pos m n = no_less (m * n) (m * 0 + 0 * n) (omega arith)

-- what is left of a balance after `t` covers `g`
covered : (b : ℕ) (t : ℤ) (f g : ℕ) → pos b -ℤ t ≡ pos f → g ≤ f → (pos g +ℤ t) ≤ℤ pos b
unfolding ◌-ℤ◌ ◌+ℤ◌
covered b (pos t) f g h l = ground arith
covered b (negsuc t) f g h l = ground arith

split-ok :
    (balance : ℤ) (n : ℕ) (fee total free : ℤ) (d : FundingDetails)
    → split balance (pos n) fee total free ≡ ok d
    → (f : ℕ) × (free ≡ pos f)
      × (d.addr_funding ≡ pos (f / n))
      × (d.total_fee ≡ total)
      × (d.root_balance ≡ balance)
unfolding split div
split-ok balance n fee total (negsuc k) d h = cc
split-ok balance n fee total (pos f) d h =
    elim (Bool-cases (ltb_ℤ (pos f) (pos (f / n) *ℤ pos n))) [
      | inl q ↦ absurd (ground (arith, q))
      | inr q ↦ (f, refl, ground (arith, q), ground (arith, q), ground (arith, q))
    ]

with_fee-covered :
    (b n : ℕ) (buffer fee : ℤ) (d : FundingDetails)
    → with_fee (pos b) (pos n) buffer fee ≡ ok d
    → ((d.addr_funding *ℤ pos n) +ℤ (d.total_fee +ℤ (buffer *ℤ ether))) ≤ℤ pos b
unfolding with_fee
with_fee-covered b n buffer fee d h =
    let total = fee *ℤ pos n in
    let left = pos b -ℤ (total +ℤ (buffer *ℤ ether)) in
    let (f, e, share, t, r) = split-ok (pos b) n fee total left d h in
    let shares : d.addr_funding *ℤ pos n ≡ pos (f / n * n) =
      ap (λ x. x *ℤ pos n) share ∙ times_pos (f / n) n in
    let all : (d.addr_funding *ℤ pos n) +ℤ (d.total_fee +ℤ (buffer *ℤ ether))
        ≡ pos (f / n * n) +ℤ (total +ℤ (buffer *ℤ ether)) =
      ap (λ x. x +ℤ (d.total_fee +ℤ (buffer *ℤ ether))) shares
      ∙ ap (λ x. pos (f / n * n) +ℤ (x +ℤ (buffer *ℤ ether))) t in
    subst (λ x. x ≤ℤ pos b) (sym all)
      (covered b (total +ℤ (buffer *ℤ ether)) f (f / n * n) e (div-mul-le_self f n))

-- When CalculateSubKeyFunding succeeds for a number of keys, that many shares, the fees it reports and
-- the buffer in ether are together at most the root key's balance, whatever the gas price and the
-- estimate are.
pub calculate_sub_key_funding-covered :
    (b n : ℕ) (estimate : Result ℕ) (transfer_gas_fee gas_price buffer : ℤ) (d : FundingDetails)
    → calculate_sub_key_funding (ok b) estimate transfer_gas_fee (pos n) gas_price buffer ≡ ok d
    → ((d.addr_funding *ℤ pos n) +ℤ (d.total_fee +ℤ (buffer *ℤ ether))) ≤ℤ pos b
unfolding calculate_sub_key_funding
calculate_sub_key_funding-covered b n estimate transfer_gas_fee gas_price buffer d h =
    let fee = int64 (gas_price *ℤ gas_limit_of transfer_gas_fee estimate) in
    elim (ℤ_discrete (pos n) (pos 0)) [
      | yes q ↦ absurd (ground (arith, q))
      | no q ↦ with_fee-covered b n buffer fee d (ground (arith, q))
    ]
