-- ===== src/GasAdjuster/Fees/Factors.antt =====
-- The factors of a fee.
use seth.Prelude.{
  ℕ, ◌≤◌, ◌≡◌, true, false, none, some, Bool-cases, inl, inr, if◌then◌else◌, arith, refl,
}
use seth.Prelude.Text.{contains, text_dec}
use seth.Prelude.Errors.{Error, message, Result, ok, err}
use seth.GasAdjuster.Floats.{FloatLib, Ordered}
use seth.GasAdjuster.Metric.{block_fetching_text}
use seth.GasAdjuster.Fees.{get_congestion_factor, classify_congestion, congestion_buffer}

module _ (lib : FloatLib) where
  open lib use {Float, of_int, hundredths, lt, le}

  -- A factor between two numbers of hundredths.
  abbrev pub FactorFrom : ℕ → Float → Type 0
  FactorFrom lo metric =
      (n : ℕ) × (get_congestion_factor lib (classify_congestion lib metric) ≡ ok (hundredths n))
      × (lo ≤ n)
      × (n ≤ 140)

  factor_above_medium :
      (m : Float) → lt m (hundredths 33) ≡ false → le m (hundredths 66) ≡ false → FactorFrom 130 m
  unfolding get_congestion_factor classify_congestion text_dec
  factor_above_medium m e f = elim (Bool-cases (le m (hundredths 75))) [
    | inl g ↦ (130, rw (e, f, g), omega arith, omega arith)
    | inr g ↦ (140, rw (e, f, g), omega arith, omega arith)
  ]

  factor_above_low : (m : Float) → lt m (hundredths 33) ≡ false → FactorFrom 120 m
  unfolding get_congestion_factor classify_congestion text_dec
  factor_above_low m e = elim (Bool-cases (le m (hundredths 66))) [
    | inl f ↦ (120, rw (e, f), omega arith, omega arith)
    | inr f ↦ let (n, q, lo, hi) = factor_above_medium m e f in (n, q, omega arith, hi)
  ]

  factor_of : (m : Float) → FactorFrom 110 m
  unfolding get_congestion_factor classify_congestion text_dec
  factor_of m = elim (Bool-cases (lt m (hundredths 33))) [
    | inl e ↦ (110, rw e, omega arith, omega arith)
    | inr e ↦ let (n, q, lo, hi) = factor_above_low m e in (n, q, omega arith, hi)
  ]

  -- The congestion buffer, for every outcome of the congestion metric: a metric gives a factor from
  -- 1.10 to 1.40 and never an error, too few headers give no buffer, and any other error is returned.
  pub congestion_buffer_lem :
      (metric : Result Float)
      → ((m : Float)
          → metric ≡ ok m
          → (n : ℕ) × (congestion_buffer lib metric ≡ ok (some (hundredths n)))
            × (110 ≤ n)
            × (n ≤ 140))
        × ((e : Error)
            → metric ≡ err e
            → congestion_buffer lib metric
              ≡ (if contains (message e) block_fetching_text then ok none else err e))
        × (metric ≡ Result.panic → congestion_buffer lib metric ≡ Result.panic)
  unfolding congestion_buffer
  congestion_buffer_lem (ok m) =
      (λ m' h. let (n, e, lo, hi) = factor_of m in (n, rw e, lo, hi), λ e h. cc, λ h. cc)
  congestion_buffer_lem (err e) = (λ m h. cc, λ e' h. ground (arith, h), λ h. cc)
  congestion_buffer_lem Result.panic = (λ m h. cc, λ e h. cc, λ h. refl)

  module _ (law : Ordered lib) where
    not_low :
        (a b : Float) (n : ℕ)
        → le a b ≡ true
        → lt a (hundredths n) ≡ false
        → lt b (hundredths n) ≡ false
    not_low a b n h f = elim (Bool-cases (lt b (hundredths n))) [
      | inl e ↦ cc (law.le_lt_trans a b (hundredths n) h e)
      | inr e ↦ e
    ]

    not_below :
        (a b : Float) (n : ℕ)
        → le a b ≡ true
        → le a (hundredths n) ≡ false
        → le b (hundredths n) ≡ false
    not_below a b n h f = elim (Bool-cases (le b (hundredths n))) [
      | inl e ↦ cc (law.le_trans a b (hundredths n) h e)
      | inr e ↦ e
    ]

    -- With floats in their order, a higher congestion metric never gives a lower buffer, and both are
    -- from 1.10 to 1.40.
    pub congestion_factor_mono :
        (a b : Float)
        → le a b ≡ true
        → (m n : ℕ) × (get_congestion_factor lib (classify_congestion lib a) ≡ ok (hundredths m))
          × (get_congestion_factor lib (classify_congestion lib b) ≡ ok (hundredths n))
          × (110 ≤ m)
          × (m ≤ n)
          × (n ≤ 140)
    unfolding get_congestion_factor classify_congestion text_dec
    congestion_factor_mono a b h = elim (Bool-cases (lt a (hundredths 33))) [
      | inl e ↦ let (n, q, lo, hi) = factor_of b in (110, n, rw e, q, omega arith, lo, hi)
      | inr e ↦ elim (Bool-cases (le a (hundredths 66))) [
        | inl f ↦
            let (n, q, lo, hi) = factor_above_low b (not_low a b 33 h e) in
            (120, n, rw (e, f), q, omega arith, lo, hi)
        | inr f ↦ elim (Bool-cases (le a (hundredths 75))) [
          | inl g ↦
              let (n, q, lo, hi) =
                factor_above_medium b (not_low a b 33 h e) (not_below a b 66 h f) in
              (130, n, rw (e, f, g), q, omega arith, lo, hi)
          | inr g ↦ (
            140,
            140,
            rw (e, f, g),
            rw (not_low a b 33 h e, not_below a b 66 h f, not_below a b 75 h g),
            omega arith,
            omega arith,
            omega arith,
          )
        ]
      ]
    ]
