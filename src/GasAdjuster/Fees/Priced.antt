-- ===== src/GasAdjuster/Fees/Priced.antt =====
-- The suggested fees, described without the functions that adjust and buffer them.
use seth.Prelude.{
  ℕ, ◌≡◌, ◌≢◌, true, false, Option, some, List, Bool-cases, inl, inr, arith, ◌⊎◌, refl, subst, sym,
}
use seth.Prelude.Int.{ℤ, pos, ◌+ℤ◌, ◌≤ℤ◌, ◌<ℤ◌, ltb_ℤ, ℤ_discrete}
use seth.Prelude.Text.{Text, codes, contains, text_dec}
use seth.Prelude.Words.{int64}
use seth.Prelude.Errors.{Error, message, Result, ok, err, bind-eq-ok}
use seth.Config.{Config, Network, the_network, is_experiment_enabled}
use seth.HeaderCache.{LfuHeaderCache}
use seth.GasEstimator.{GasNode, GasSuggestions, stats}
use seth.GasAdjuster.Floats.{FloatLib, StatsLib}
use seth.GasAdjuster.Headers.{HeaderNode}
use seth.GasAdjuster.Metric.{congestion_metric}
use seth.GasAdjuster.Fees.{
  get_adjustment_factor, get_congestion_factor, classify_congestion, congestion_buffer, with_buffer,
  equalize, of_priority, historical_fee_data, current_tip, fees_to_adjust,
  get_suggested_legacy_fees, get_suggested_eip1559_fees,
}
use seth.GasAdjuster.Fees.Equalized.{magnitude, eq_three}
use seth.GasAdjuster.Fees.Suggested.{
  Buffers, get_suggested_legacy_fees-ok, get_suggested_eip1559_fees-ok,
}

module _ (lib : FloatLib) where
  open lib use {Float, of_int, to_int, hundredths, lt, le, eq, times, times_int}

  -- The factor of each of the four priorities.
  abbrev pub IsFactor : Text → Float → Type 0
  IsFactor priority factor =
      ((priority ≡ codes "degen") × (factor ≡ hundredths 150))
      ⊎ (((priority ≡ codes "fast") × (factor ≡ hundredths 120))
          ⊎ (((priority ≡ codes "standard") × (factor ≡ hundredths 100))
              ⊎ ((priority ≡ codes "slow") × (factor ≡ hundredths 80))))

  -- The hundredths of the buffer for a congestion metric.
  abbrev pub IsBufferOf : Float → ℕ → Type 0
  IsBufferOf m k =
      ((lt m (hundredths 33) ≡ true) × (k ≡ 110))
      ⊎ ((lt m (hundredths 33) ≡ false)
          × (((le m (hundredths 66) ≡ true) × (k ≡ 120))
              ⊎ ((le m (hundredths 66) ≡ false)
                  × (((le m (hundredths 75) ≡ true) × (k ≡ 130))
                      ⊎ ((le m (hundredths 75) ≡ false) × (k ≡ 140))))))

  -- A price after the buffer: raised by the buffer of the metric, or as it was where too few headers
  -- were fetched.
  abbrev pub IsBuffered : Result Float → ℤ → ℤ → Type 0
  IsBuffered metric price price' =
      ((m : Float) × (metric ≡ ok m)
        × (k : ℕ) × IsBufferOf m k
        × (price' ≡ times_int price (hundredths k)))
      ⊎ ((e : Error) × (metric ≡ err e)
          × (contains (message e)
                (codes "failed to fetch enough block headers for congestion calculation")
              ≡ true)
          × (price' ≡ price))

  -- The larger one of two tips.
  abbrev pub IsLarger : ℤ → ℤ → ℤ → Type 0
  IsLarger a b tip = ((tip ≡ a) × (b ≤ℤ a)) ⊎ ((tip ≡ b) × (a <ℤ b))

  -- What the experiment makes of a base fee and a tip.
  abbrev pub IsEqualized : Float → ℤ → Float × ℤ → Type 0
  IsEqualized base tip fees =
      ((fees ≡ (of_int (int64 tip), tip))
        × (((magnitude lib base tip ≡ pos 0) × (eq base (of_int (pos 0)) ≡ true))
            ⊎ ((magnitude lib base tip ≢ pos 0) × (magnitude lib base tip <ℤ pos 3))))
      ⊎ (((fees ≡ (base, to_int base))
            × (((magnitude lib base tip ≡ pos 0) × (eq base (of_int (pos 0)) ≡ false))
                ⊎ (pos 3 <ℤ magnitude lib base tip)))
          ⊎ ((fees ≡ (base, tip)) × (magnitude lib base tip ≡ pos 3)))

  get_adjustment_factor-IsFactor :
      (priority : Text) (factor : Float)
      → get_adjustment_factor lib priority ≡ ok factor
      → IsFactor priority factor
  unfolding get_adjustment_factor
  get_adjustment_factor-IsFactor priority factor h = ground (arith, h)

  factor_is :
      (m factor : Float) (k : ℕ)
      → get_congestion_factor lib (classify_congestion lib m) ≡ ok factor
      → get_congestion_factor lib (classify_congestion lib m) ≡ ok (hundredths k)
      → factor ≡ hundredths k
  factor_is m factor k h g = ground (arith, h, g)

  get_congestion_factor-IsBufferOf :
      (m : Float) (factor : Float)
      → get_congestion_factor lib (classify_congestion lib m) ≡ ok factor
      → (k : ℕ) × IsBufferOf m k × (factor ≡ hundredths k)
  unfolding get_congestion_factor classify_congestion text_dec
  get_congestion_factor-IsBufferOf m factor h = elim (Bool-cases (lt m (hundredths 33))) [
    | inl e ↦ (110, inl (e, refl), factor_is m factor 110 h (rw e))
    | inr e ↦ elim (Bool-cases (le m (hundredths 66))) [
      | inl f ↦ (120, inr (e, inl (f, refl)), factor_is m factor 120 h (rw (e, f)))
      | inr f ↦ elim (Bool-cases (le m (hundredths 75))) [
        | inl g ↦ (130, inr (e, inr (f, inl (g, refl))), factor_is m factor 130 h (rw (e, f, g)))
        | inr g ↦ (140, inr (e, inr (f, inr (g, refl))), factor_is m factor 140 h (rw (e, f, g)))
      ]
    ]
  ]

  with_buffer-IsBuffered :
      (metric : Result Float) (buffer : Option Float) (price : ℤ)
      → congestion_buffer lib metric ≡ ok buffer
      → IsBuffered metric price (with_buffer lib buffer price)
  unfolding congestion_buffer with_buffer
  with_buffer-IsBuffered (ok m) buffer price h =
      let (factor, f, q) =
        bind-eq-ok (get_congestion_factor lib (classify_congestion lib m))
          (λ factor. ok (some factor)) {out = buffer} h in
      let (k, b, e) = get_congestion_factor-IsBufferOf m factor f in
      inl (m, refl, k, b, ground (arith, q, e))
  with_buffer-IsBuffered (err e) buffer price h =
      inr (e, refl, ground (arith, h), ground (arith, h))
  with_buffer-IsBuffered Result.panic buffer price h = cc

  equalize-IsEqualized : (base : Float) (tip : ℤ) → IsEqualized base tip (equalize lib base tip)
  unfolding equalize
  equalize-IsEqualized base tip =
      let m = magnitude lib base tip in
      elim (ℤ_discrete (magnitude lib base tip) (pos 0)) [
        | yes z ↦ elim (Bool-cases (eq base (of_int (pos 0)))) [
          | inl e ↦ inl (ground (arith, z, e), inl (z, e))
          | inr e ↦ inr (inl (ground (arith, z, e), inl (z, e)))
        ]
        | no nz ↦ elim (Bool-cases (ltb_ℤ (magnitude lib base tip) (pos 3))) [
          | inl l ↦ inl (ground (arith, nz, l), inr (nz, ground (arith, l)))
          | inr l ↦ elim (Bool-cases (ltb_ℤ (pos 3) (magnitude lib base tip))) [
            | inl g ↦ inr (inl (ground (arith, nz, l, g), inr (ground (arith, g))))
            | inr g ↦ inr (inr (ground (arith, nz, l, g), eq_three lib m l g))
          ]
        ]
      ]

  module _ (stats_lib : StatsLib lib) (node : GasNode) where
    -- The historical base fee and tip of a priority: the largest one, or a percentile.
    abbrev pub IsHistorical : GasSuggestions lib stats_lib → Text → Float × Float → Type 0
    IsHistorical s priority fees =
        ((priority ≡ codes "degen") × (fees ≡ (s.gas_price.max, s.tip_cap.max)))
        ⊎ (((priority ≡ codes "fast") × (fees ≡ (s.gas_price.perc99, s.tip_cap.perc99)))
            ⊎ (((priority ≡ codes "standard") × (fees ≡ (s.gas_price.perc50, s.tip_cap.perc50)))
                ⊎ ((priority ≡ codes "slow") × (fees ≡ (s.gas_price.perc25, s.tip_cap.perc25)))))

    of_priority-IsHistorical :
        (s : GasSuggestions lib stats_lib) (priority : Text) (fees : Float × Float)
        → of_priority lib stats_lib node s priority ≡ ok fees
        → IsHistorical s priority fees
    unfolding of_priority
    of_priority-IsHistorical s priority fees h = ground (arith, h)

    current_tip-IsLarger :
        (suggested : ℤ) (historical : Float)
        → IsLarger suggested
            (to_int historical)
            (current_tip lib stats_lib node suggested historical)
    unfolding current_tip
    current_tip-IsLarger suggested historical = ground arith

    -- The fees that are adjusted: after the experiment where it is enabled, and else as they were.
    abbrev pub IsChosen : Config → Float → ℤ → Float × ℤ → Type 0
    IsChosen c base tip fees =
        (is_experiment_enabled c (codes "eip_1559_fee_equalizer") ≡ true
          → IsEqualized base tip fees)
        × (is_experiment_enabled c (codes "eip_1559_fee_equalizer") ≡ false → fees ≡ (base, tip))

    fees_to_adjust-IsChosen :
        (c : Config) (base : Float) (tip : ℤ)
        → IsChosen c base tip (fees_to_adjust lib stats_lib node c base tip)
    unfolding fees_to_adjust
    fees_to_adjust-IsChosen c base tip = (
      λ on.
          let e : equalize lib base tip ≡ fees_to_adjust lib stats_lib node c base tip =
            ground (arith, on) in
          subst (IsEqualized base tip) e (equalize-IsEqualized base tip),
      λ off. ground (arith, off),
    )

    module _ (headers : HeaderNode) (moves : List ℕ) (cache cache' : Option LfuHeaderCache)
        (c : Config) where
      -- The congestion metric of the network's number of blocks.
      abbrev pub IsMetric : Network → Result Float → Type 0
      IsMetric n metric =
          (the_network c ≡ ok n)
          × (congestion_metric lib headers moves cache n.gas_price_estimation_blocks
                (codes "newest_first")
              ≡ some (cache', metric))

      Buffers-IsMetric :
          (buffer : Option Float)
          → Buffers lib stats_lib node headers moves cache cache' c buffer
          → (n : Network) × (metric : Result Float) × IsMetric n metric
            × (congestion_buffer lib metric ≡ ok buffer)
      Buffers-IsMetric buffer (n, q, metric, g, b) = (n, metric, (q, g), b)

      -- When GetSuggestedLegacyFees returns a price, the node suggested a price that is not 0 as an
      -- int64, and the priority is one of the four. The price is the suggested one times 1.5 for degen,
      -- 1.2 for fast, 1 for standard and 0.8 for slow, cut down to an integer. The congestion metric
      -- of the network's blocks then raises it by 1.1, 1.2, 1.3 or 1.4, or leaves it as it is where it
      -- failed for too few headers.
      pub get_suggested_legacy_fees-IsPriced :
          (priority : Text) (price : ℤ)
          → get_suggested_legacy_fees lib stats_lib node headers moves cache c priority
            ≡ some (cache', ok price)
          → (suggested : ℤ) × (node.suggest_gas_price ≡ inr suggested)
            × (int64 suggested ≢ pos 0)
            × (factor : Float) × IsFactor priority factor
            × (n : Network) × (metric : Result Float) × IsMetric n metric
            × IsBuffered metric (times factor (of_int (int64 suggested))) price
      get_suggested_legacy_fees-IsPriced priority price h =
          let (suggested, a, nz, factor, f, buffer, e, used) =
            get_suggested_legacy_fees-ok lib stats_lib node headers moves cache cache' c priority
              price h in
          let (n, metric, m, b) = Buffers-IsMetric buffer used in
          let raised = times factor (of_int (int64 suggested)) in
          (
            suggested,
            a,
            nz,
            factor,
            get_adjustment_factor-IsFactor priority factor f,
            n,
            metric,
            m,
            subst (IsBuffered metric raised) (sym e)
                (with_buffer-IsBuffered metric buffer raised b),
          )

      historical_fee_data-IsHistorical :
          (priority : Text) (n : Network) (fees : Float × Float)
          → the_network c ≡ ok n
          → historical_fee_data lib stats_lib node c priority ≡ ok fees
          → (s : GasSuggestions lib stats_lib) × (stats lib stats_lib node
                n.gas_price_estimation_blocks
              ≡ ok s)
            × IsHistorical s priority fees
      unfolding historical_fee_data
      historical_fee_data-IsHistorical priority n fees q h =
          let (s, a, h1) =
            bind-eq-ok (stats lib stats_lib node n.gas_price_estimation_blocks)
              (λ s. of_priority lib stats_lib node s priority) {out = fees}
              (ground (arith, q, h)) in
          (s, a, of_priority-IsHistorical s priority fees h1)

      -- When GetSuggestedEIP1559Fees returns fees, the priority is one of the four, and it gives the
      -- largest historical base fee and tip, or their 99th, 50th or 25th percentile. The larger one of
      -- this tip and the node's, and the base fee, are as the experiment makes them where it is enabled;
      -- the base fee is then not 0. Both are multiplied by the factor of the priority, cut down to
      -- integers, and raised by the buffer of the congestion metric of the network's blocks, or left as
      -- they are where it failed for too few headers. The fee cap is the sum of the base fee and the tip.
      pub get_suggested_eip1559_fees-IsPriced :
          (priority : Text) (cap tip : ℤ)
          → get_suggested_eip1559_fees lib stats_lib node headers moves cache c priority
            ≡ some (cache', ok (cap, tip))
          → (suggested : ℤ) × (node.suggest_gas_tip_cap ≡ inr suggested)
            × (n : Network) × (metric : Result Float) × IsMetric n metric
            × (s : GasSuggestions lib stats_lib) × (stats lib stats_lib node
                  n.gas_price_estimation_blocks
                ≡ ok s)
            × (base : Float) × (historical : Float) × IsHistorical s priority (base, historical)
            × (larger : ℤ) × IsLarger suggested (to_int historical) larger
            × (fees : Float × ℤ) × IsChosen c base larger fees
            × (eq fees.0 (of_int (pos 0)) ≡ false)
            × (factor : Float) × IsFactor priority factor
            × (raised : ℤ) × IsBuffered metric (times factor fees.0) raised
            × (cap ≡ raised +ℤ tip)
            × IsBuffered metric (times factor (of_int (int64 fees.1))) tip
      get_suggested_eip1559_fees-IsPriced priority cap tip h =
          let (
            suggested, a, base, historical, d, base', tip', q, nz, factor, f, buffer, x, y, used,
          ) =
            get_suggested_eip1559_fees-ok lib stats_lib node headers moves cache cache' c priority
              cap tip h in
          let (n, metric, m, b) = Buffers-IsMetric buffer used in
          let (s, st, his) = historical_fee_data-IsHistorical priority n (base, historical) m.0 d in
          let larger = current_tip lib stats_lib node suggested historical in
          let adjusted_tip = times factor (of_int (int64 tip')) in
          (
            suggested,
            a,
            n,
            metric,
            m,
            s,
            st,
            base,
            historical,
            his,
            larger,
            current_tip-IsLarger suggested historical,
            (base', tip'),
            subst (IsChosen c base larger) q (fees_to_adjust-IsChosen c base larger),
            nz,
            factor,
            get_adjustment_factor-IsFactor priority factor f,
            with_buffer lib buffer (times factor base'),
            with_buffer-IsBuffered metric buffer (times factor base') b,
            y,
            subst (IsBuffered metric adjusted_tip) (sym x)
                (with_buffer-IsBuffered metric buffer adjusted_tip b),
          )
