-- ===== src/GasAdjuster/Fees/Equalized.antt =====
-- What the experiment of equal fees does.
use seth.Prelude.{◌≡◌, ◌≢◌, false, Bool-cases, inl, inr, arith, ◌⊎◌}
use seth.Prelude.Int.{ℤ, pos, ◌<ℤ◌, ltb_ℤ, ℤ_discrete, negsuc}
use seth.Prelude.Words.{int64}
use seth.GasAdjuster.Floats.{FloatLib}
use seth.GasAdjuster.Fees.{equalize, calculate_magnitude_difference}

module _ (lib : FloatLib) where
  open lib use {Float, of_int, to_int, eq}

  -- The difference in the orders of magnitude of a base fee and a tip.
  abbrev pub magnitude : Float → ℤ → ℤ
  magnitude base tip = (calculate_magnitude_difference lib base (of_int tip)).0

  -- A base fee and a tip of the same amount.
  abbrev pub IsSame : Float × ℤ → Type 0
  IsSame fees = (fees.0 ≡ of_int (int64 fees.1)) ⊎ (fees.1 ≡ to_int fees.0)

  abbrev Outcome : Float → ℤ → Type 0
  Outcome base tip =
      (magnitude base tip ≢ pos 3 → IsSame (equalize lib base tip))
      × (magnitude base tip ≡ pos 3 → equalize lib base tip ≡ (base, tip))
      × (((equalize lib base tip).0 ≡ base) ⊎ ((equalize lib base tip).1 ≡ tip))
      × (pos 0 <ℤ magnitude base tip
          → magnitude base tip <ℤ pos 3
          → equalize lib base tip ≡ (of_int (int64 tip), tip))

  to_tip :
      (base : Float) (tip : ℤ)
      → magnitude base tip ≢ pos 3
      → equalize lib base tip ≡ (of_int (int64 tip), tip)
      → Outcome base tip
  to_tip base tip n q = (λ h. inl (cc q), λ h. absurd (n h), inr (cc q), λ h g. q)

  to_base :
      (base : Float) (tip : ℤ)
      → magnitude base tip ≢ pos 3
      → (pos 0 <ℤ magnitude base tip → magnitude base tip <ℤ pos 3 → ⊥)
      → equalize lib base tip ≡ (base, to_int base)
      → Outcome base tip
  to_base base tip n out q =
      (λ h. inr (cc q), λ h. absurd (n h), inl (cc q), λ h g. absurd (out h g))

  pub eq_three : (m : ℤ) → ltb_ℤ m (pos 3) ≡ false → ltb_ℤ (pos 3) m ≡ false → m ≡ pos 3
  eq_three (pos n) h g = ground arith
  eq_three (negsuc n) h g = absurd (ground arith)

  -- After the experiment the base fee and the tip are the same amount, unless the difference in their
  -- orders of magnitude is counted as exactly 3: then both are as before. In every case one of the two is as
  -- before. A difference of 1 or 2, of a base fee that is the larger one, lowers the base fee to
  -- the tip.
  pub equalize-IsSame :
      (base : Float) (tip : ℤ)
      → (magnitude base tip ≢ pos 3 → IsSame (equalize lib base tip))
        × (magnitude base tip ≡ pos 3 → equalize lib base tip ≡ (base, tip))
        × (((equalize lib base tip).0 ≡ base) ⊎ ((equalize lib base tip).1 ≡ tip))
        × (pos 0 <ℤ magnitude base tip
            → magnitude base tip <ℤ pos 3
            → equalize lib base tip ≡ (of_int (int64 tip), tip))
  unfolding equalize
  equalize-IsSame base tip = elim (ℤ_discrete (magnitude base tip) (pos 0)) [
    | yes z ↦ elim (Bool-cases (eq base (of_int (pos 0)))) [
      | inl e ↦
          let q : equalize lib base tip ≡ (of_int (int64 tip), tip) = ground (arith, z, e) in
          to_tip base tip (λ h. ground (arith, z, h)) q
      | inr e ↦
          let q : equalize lib base tip ≡ (base, to_int base) = ground (arith, z, e) in
          to_base base tip (λ h. ground (arith, z, h)) (λ h. ground (arith, z, h)) q
    ]
    | no nz ↦ elim (Bool-cases (ltb_ℤ (magnitude base tip) (pos 3))) [
      | inl e ↦
          let q : equalize lib base tip ≡ (of_int (int64 tip), tip) = ground (arith, nz, e) in
          to_tip base tip (λ h. ground (arith, e, h)) q
      | inr e ↦ elim (Bool-cases (ltb_ℤ (pos 3) (magnitude base tip))) [
        | inl f ↦
            let q : equalize lib base tip ≡ (base, to_int base) = ground (arith, nz, e, f) in
            to_base base tip (λ h. ground (arith, f, h)) (λ h. ground (arith, f, h)) q
        | inr f ↦ (
          λ h. absurd (h (eq_three (magnitude base tip) e f)),
          λ h. ground (arith, nz, e, f),
          inl (ground (arith, nz, e, f)),
          λ h g. ground (arith, e, f, g),
        )
      ]
    ]
  ]
