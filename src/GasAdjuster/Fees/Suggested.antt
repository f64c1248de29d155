-- ===== src/GasAdjuster/Fees/Suggested.antt =====
-- What the suggested fees are.
use seth.Prelude.{
  ℕ, ◌≡◌, ◌≢◌, false, Option, some, List, Bool-cases, Option-cases, inl, inr, arith, ◌⊎◌, refl,
}
use seth.Prelude.Int.{ℤ, pos, ◌+ℤ◌, ℤ_discrete}
use seth.Prelude.Text.{Text}
use seth.Prelude.Words.{int64}
use seth.Prelude.Errors.{Error, Result, ok, err, ◌>>=◌, bind-eq-ok, Result-cases}
use seth.Config.{Config, Network, the_network}
use seth.HeaderCache.{LfuHeaderCache}
use seth.GasEstimator.{GasNode, answered}
use seth.GasAdjuster.Floats.{FloatLib, StatsLib}
use seth.GasAdjuster.Headers.{HeaderNode}
use seth.GasAdjuster.Metric.{congestion_metric, strategy_newest_first}
use seth.GasAdjuster.Fees.{
  get_adjustment_factor, congestion_buffer, with_buffer, buffered_price, buffered_fees,
  historical_fee_data, current_tip, fees_to_adjust, adjust_fees, eip1559_start, adjust_price,
  legacy_start, with_metric, get_suggested_legacy_fees, get_suggested_eip1559_fees,
}

answered-ok {ℓ} : {A : Type ℓ} (s : Error ⊎ A) (a : A) → answered s ≡ ok a → s ≡ inr a
unfolding answered
answered-ok (inl e) a h = cc
answered-ok (inr b) a h = ground (arith, h)

module _ (lib : FloatLib) (stats_lib : StatsLib lib) (node : GasNode) where
  open lib use {Float, of_int, times, eq}

  module _ (headers : HeaderNode) (moves : List ℕ) (cache cache' : Option LfuHeaderCache)
      (c : Config) where
    -- The congestion metric that a suggestion used, and the buffer that it gave.
    abbrev pub Buffers : Option Float → Type 0
    Buffers buffer =
        (n : Network) × (the_network c ≡ ok n)
        × (metric : Result Float) × (congestion_metric lib headers moves cache
              n.gas_price_estimation_blocks strategy_newest_first
            ≡ some (cache', metric))
        × (congestion_buffer lib metric ≡ ok buffer)

    with_metric-ok :
        {A B : Type 0} (start : Result A) (apply : A → Option Float → B) (b : B)
        → with_metric lib stats_lib node headers moves cache c start
            (λ a metric. do buffer ← congestion_buffer lib metric; ok (apply a buffer))
          ≡ some (cache', ok b)
        → (a : A) × (start ≡ ok a) × (buffer : Option Float) × (b ≡ apply a buffer) × Buffers buffer
    unfolding with_metric
    with_metric-ok (err e) apply b h = cc
    with_metric-ok Result.panic apply b h = cc
    with_metric-ok (ok a) apply b h = elim (Result-cases (the_network c)) [
      | inr (inl (e, q)) ↦ absurd (ground (arith, q))
      | inr (inr q) ↦ absurd (ground (arith, q))
      | inl (n, q) ↦
          elim (Option-cases (
            congestion_metric lib headers moves cache n.gas_price_estimation_blocks
              strategy_newest_first)) [
                | inl e ↦ absurd (ground (arith, q, e))
                | inr ((kept, metric), e) ↦
                    let (buffer, g, t) =
                      bind-eq-ok (congestion_buffer lib metric) (λ buffer. ok (apply a buffer))
                        {out = b} (ground (arith, q, e, h)) in
                    (a, refl, buffer, ground (arith, t), (n, q, metric, ground (arith, q, e, h), g))
              ]
    ]

    -- When GetSuggestedLegacyFees returns a price, the node suggested a price that is not 0 as an
    -- int64, and the price is that one times the factor of the priority, which is one of the four, cut
    -- down to an integer, and then the buffer of the congestion metric: none where too few
    -- headers were fetched.
    pub get_suggested_legacy_fees-ok :
        (priority : Text) (price : ℤ)
        → get_suggested_legacy_fees lib stats_lib node headers moves cache c priority
          ≡ some (cache', ok price)
        → (suggested : ℤ) × (node.suggest_gas_price ≡ inr suggested)
          × (int64 suggested ≢ pos 0)
          × (factor : Float) × (get_adjustment_factor lib priority ≡ ok factor)
          × (buffer : Option Float) × (price
              ≡ with_buffer lib buffer (times factor (of_int (int64 suggested))))
          × Buffers buffer
    unfolding get_suggested_legacy_fees buffered_price legacy_start adjust_price
    get_suggested_legacy_fees-ok priority price h =
        let (p, s, buffer, e, used) =
          with_metric-ok (legacy_start lib stats_lib node c priority)
            (λ p buffer. with_buffer lib buffer p) price h in
        let (suggested, a, s') =
          bind-eq-ok (answered node.suggest_gas_price) (adjust_price lib stats_lib node priority)
            {out = p} s in
        elim (ℤ_discrete (int64 suggested) (pos 0)) [
          | yes z ↦ absurd (ground (arith, z, s'))
          | no nz ↦
              let (factor, f, t) =
                bind-eq-ok (get_adjustment_factor lib priority)
                  (λ factor. ok (times factor (of_int (int64 suggested)))) {out = p}
                  (ground (arith, nz, s')) in
              (
                suggested,
                answered-ok node.suggest_gas_price suggested a,
                nz,
                factor,
                f,
                buffer,
                ground (arith, e, t),
                used,
              )
        ]

    adjust_fees-ok :
        (priority : Text) (base : Float) (tip x y : ℤ)
        → adjust_fees lib stats_lib node priority base tip ≡ ok (x, y)
        → (eq base (of_int (pos 0)) ≡ false)
          × (factor : Float) × (get_adjustment_factor lib priority ≡ ok factor)
          × (x ≡ times factor base)
          × (y ≡ times factor (of_int (int64 tip)))
    unfolding adjust_fees
    adjust_fees-ok priority base tip x y h = elim (Bool-cases (eq base (of_int (pos 0)))) [
      | inl e ↦ absurd (ground (arith, e, h))
      | inr e ↦
          let (factor, f, t) =
            bind-eq-ok {B = ℤ × ℤ} (get_adjustment_factor lib priority)
              (λ factor. ok (times factor base, times factor (of_int (int64 tip)))) {out = (x, y)}
              (ground (arith, e, h)) in
          (e, factor, f, ground (arith, t), ground (arith, t))
    ]

    -- When GetSuggestedEIP1559Fees returns fees, the fee cap is the sum of a base fee and
    -- the tip. These come from the historical base fee of the priority and the larger one of
    -- the node's tip and the historical tip, after the experiment where it is enabled; the base fee is
    -- then not 0. Each is multiplied by the factor of the priority and cut down to an integer, and then
    -- by the buffer of the congestion metric: none where too few headers were fetched.
    pub get_suggested_eip1559_fees-ok :
        (priority : Text) (cap tip : ℤ)
        → get_suggested_eip1559_fees lib stats_lib node headers moves cache c priority
          ≡ some (cache', ok (cap, tip))
        → (suggested : ℤ) × (node.suggest_gas_tip_cap ≡ inr suggested)
          × (base : Float) × (historical : Float) × (historical_fee_data lib stats_lib node c
                priority
              ≡ ok (base, historical))
          × (base' : Float) × (tip' : ℤ) × (fees_to_adjust lib stats_lib node c base
                (current_tip lib stats_lib node suggested historical)
              ≡ (base', tip'))
          × (eq base' (of_int (pos 0)) ≡ false)
          × (factor : Float) × (get_adjustment_factor lib priority ≡ ok factor)
          × (buffer : Option Float) × (tip
              ≡ with_buffer lib buffer (times factor (of_int (int64 tip'))))
          × (cap ≡ with_buffer lib buffer (times factor base') +ℤ tip)
          × Buffers buffer
    unfolding get_suggested_eip1559_fees buffered_fees eip1559_start
    get_suggested_eip1559_fees-ok priority cap tip h =
        let ((base1, tip1), s, buffer, e, used) =
          with_metric-ok (eip1559_start lib stats_lib node c priority)
            (λ fees buffer. (
              with_buffer lib buffer fees.0 +ℤ with_buffer lib buffer fees.1,
              with_buffer lib buffer fees.1,
            ))
            (cap, tip) h in
        let adjusted = λ (suggested : ℤ) (history : Float × Float).
          (let fees =
              fees_to_adjust lib stats_lib node c history.0
                (current_tip lib stats_lib node suggested history.1) in
            adjust_fees lib stats_lib node priority fees.0 fees.1) in
        let (suggested, a, s1) =
          bind-eq-ok (answered node.suggest_gas_tip_cap)
            (λ suggested. historical_fee_data lib stats_lib node c priority >>= adjusted suggested)
            {out = (base1, tip1)} s in
        let ((base, historical), d, s2) =
          bind-eq-ok (historical_fee_data lib stats_lib node c priority) (adjusted suggested)
            {out = (base1, tip1)} s1 in
        let (nz, factor, f, x, y) =
          adjust_fees-ok priority
            (fees_to_adjust lib stats_lib node c base
              (current_tip lib stats_lib node suggested historical)).0
            (fees_to_adjust lib stats_lib node c base
              (current_tip lib stats_lib node suggested historical)).1
            base1 tip1 s2 in
        (
          suggested,
          answered-ok node.suggest_gas_tip_cap suggested a,
          base,
          historical,
          d,
          (fees_to_adjust lib stats_lib node c base
              (current_tip lib stats_lib node suggested historical)).0,
          (fees_to_adjust lib stats_lib node c base
              (current_tip lib stats_lib node suggested historical)).1,
          refl,
          nz,
          factor,
          f,
          buffer,
          ground (arith, e, y),
          ground (arith, e, x, y),
          used,
        )
