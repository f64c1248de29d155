-- ===== src/GasAdjuster/Fees.antt =====
-- gas_adjuster.go: the suggested fees.
pub mod Factors
pub mod Suggested
pub mod Priced
pub mod Returned
pub mod Equalized
use seth.Prelude.{
  ℕ, zero, suc, ◌+◌, Bool, true, false, Option, none, some, List, [], ◌∷◌, ◌++◌, ◌&&◌,
  if◌then◌else◌, holds, ◌⊎◌, inl, inr,
}
use seth.Prelude.Int.{ℤ, pos, negsuc, ◌+ℤ◌, ◌-ℤ◌, ltb_ℤ, ℤ_discrete}
use seth.Prelude.Text.{Text, codes, ◌==ₜ◌, contains}
use seth.Prelude.Words.{int64}
use seth.Prelude.Errors.{Error, plain, message, Result, ok, err, ◌>>=◌}
use seth.Config.{Config, the_network, is_experiment_enabled}
use seth.Config.Validate.{priority_degen, priority_fast, priority_standard, priority_slow}
use seth.HeaderCache.{LfuHeaderCache}
use seth.GasEstimator.{GasNode, GasPercentiles, GasSuggestions, stats, answered}
use seth.GasAdjuster.Floats.{FloatLib, StatsLib}
use seth.GasAdjuster.Headers.{HeaderNode}
use seth.GasAdjuster.Metric.{
  congestion_metric, strategy_newest_first, block_fetching_text, decimal_int,
}

abbrev pub congestion_low : Text
congestion_low = codes "low"

abbrev pub congestion_medium : Text
congestion_medium = codes "medium"

abbrev pub congestion_high : Text
congestion_high = codes "high"

abbrev pub congestion_very_high : Text
congestion_very_high = codes "extreme"

abbrev pub zero_gas_error : Error
zero_gas_error = plain (codes "either base fee or suggested tip is 0")

abbrev pub unknown_priority : Text → Error
unknown_priority priority = plain (codes "unknown priority: " ++ priority)

module _ (lib : FloatLib) where
  open lib use {
    Float, of_int, to_int, hundredths, sub, log10, floor, ceil, lt, le, eq, times, times_int,
  }

  unfoldable pub get_adjustment_factor : Text → Result Float
  get_adjustment_factor priority =
      if priority ==ₜ priority_degen
      then ok (hundredths 150)
      else (if priority ==ₜ priority_fast
          then ok (hundredths 120)
          else (if priority ==ₜ priority_standard
              then ok (hundredths 100)
              else (if priority ==ₜ priority_slow
                  then ok (hundredths 80)
                  else err (unknown_priority priority))))

  unfoldable pub get_congestion_factor : Text → Result Float
  get_congestion_factor classification =
      if classification ==ₜ congestion_low
      then ok (hundredths 110)
      else (if classification ==ₜ congestion_medium
          then ok (hundredths 120)
          else (if classification ==ₜ congestion_high
              then ok (hundredths 130)
              else (if classification ==ₜ congestion_very_high
                  then ok (hundredths 140)
                  else err
                      (plain (codes "unknown congestion classification: " ++ classification)))))

  unfoldable pub classify_congestion : Float → Text
  classify_congestion metric =
      if lt metric (hundredths 33)
      then congestion_low
      else (if le metric (hundredths 66)
          then congestion_medium
          else (if le metric (hundredths 75) then congestion_high else congestion_very_high))

  -- int(math.Abs(i)) of an int
  unfoldable pub abs_int : ℤ → ℤ
  abs_int (pos n) = pos n
  abs_int (negsuc n) = pos (suc n)

  unfoldable pub calculate_magnitude_difference : Float → Float → ℤ × Text
  calculate_magnitude_difference first second =
      let diff = sub (log10 first) (log10 second) in
      if eq first (of_int (pos 0))
      then (pos 0, codes "infinite orders of magnitude smaller")
      else (if eq second (of_int (pos 0))
          then (pos 0, codes "infinite orders of magnitude larger")
          else (if lt diff (of_int (pos 0))
              then (
                floor diff,
                decimal_int (abs_int (floor diff)) ++ codes " orders of magnitude smaller",
              )
              else (if lt (of_int (pos 0)) diff && le diff (of_int (pos 1))
                  then (pos 0, codes "the same order of magnitude")
                  else (
                    ceil diff,
                    decimal_int (ceil diff) ++ codes " orders of magnitude larger",
                  ))))

  -- the experiment that makes base fee and tip equal; a tip is converted by Int64
  unfoldable pub equalize : Float → ℤ → Float × ℤ
  equalize base tip =
      let diff = (calculate_magnitude_difference base (of_int tip)).0 in
      if holds (ℤ_discrete diff (pos 0))
      then (if eq base (of_int (pos 0)) then (of_int (int64 tip), tip) else (base, to_int base))
      else (if ltb_ℤ diff (pos 3)
          then (of_int (int64 tip), tip)
          else (if ltb_ℤ (pos 3) diff then (base, to_int base) else (base, tip)))

  -- What is done with the outcome of the congestion metric: the factor of the buffer, or none where
  -- too few headers were fetched, or another error.
  unfoldable pub congestion_buffer : Result Float → Result (Option Float)
  congestion_buffer (ok metric) = do
    factor ← get_congestion_factor (classify_congestion metric)
    ok (some factor)
  congestion_buffer (err e) = if contains (message e) block_fetching_text then ok none else err e
  congestion_buffer Result.panic = Result.panic

  unfoldable pub with_buffer : Option Float → ℤ → ℤ
  with_buffer none price = price
  with_buffer (some factor) price = times_int price factor

  unfoldable pub buffered_price : ℤ → Result Float → Result ℤ
  buffered_price price metric = do buffer ← congestion_buffer metric; ok (with_buffer buffer price)

  -- the fee cap, and the tip
  unfoldable pub buffered_fees : ℤ → ℤ → Result Float → Result (ℤ × ℤ)
  buffered_fees base tip metric = do
    buffer ← congestion_buffer metric
    ok (with_buffer buffer base +ℤ with_buffer buffer tip, with_buffer buffer tip)

  module _ (stats_lib : StatsLib lib) (node : GasNode) where
    -- the base fee and the tip of a priority
    unfoldable pub of_priority : GasSuggestions lib stats_lib → Text → Result (Float × Float)
    of_priority s priority =
        if priority ==ₜ priority_degen
        then ok (s.gas_price.max, s.tip_cap.max)
        else (if priority ==ₜ priority_fast
            then ok (s.gas_price.perc99, s.tip_cap.perc99)
            else (if priority ==ₜ priority_standard
                then ok (s.gas_price.perc50, s.tip_cap.perc50)
                else (if priority ==ₜ priority_slow
                    then ok (s.gas_price.perc25, s.tip_cap.perc25)
                    else err (unknown_priority priority))))

    unfoldable pub historical_fee_data : Config → Text → Result (Float × Float)
    historical_fee_data c priority = do
      n ← the_network c
      s ← stats lib stats_lib node n.gas_price_estimation_blocks
      of_priority s priority

    -- the larger one of the node's tip and the historical one
    unfoldable pub current_tip : ℤ → Float → ℤ
    current_tip suggested historical =
        if ltb_ℤ suggested (to_int historical) then to_int historical else suggested

    unfoldable pub fees_to_adjust : Config → Float → ℤ → Float × ℤ
    fees_to_adjust c base tip =
        if is_experiment_enabled c (codes "eip_1559_fee_equalizer")
        then equalize base tip
        else (base, tip)

    unfoldable pub adjust_fees : Text → Float → ℤ → Result (ℤ × ℤ)
    adjust_fees priority base tip = if eq base (of_int (pos 0)) then err zero_gas_error else (do
      factor ← get_adjustment_factor priority
      ok (times factor base, times factor (of_int (int64 tip))))

    -- the adjusted base fee and tip, before the congestion metric
    unfoldable pub eip1559_start : Config → Text → Result (ℤ × ℤ)
    eip1559_start c priority = do
      suggested ← answered node.suggest_gas_tip_cap
      history ← historical_fee_data c priority
      let fees = fees_to_adjust c history.0 (current_tip suggested history.1)
      adjust_fees priority fees.0 fees.1

    unfoldable pub adjust_price : Text → ℤ → Result ℤ
    adjust_price priority suggested =
        if holds (ℤ_discrete (int64 suggested) (pos 0))
        then err (plain (codes "suggested gas price is 0"))
        else (do
          factor ← get_adjustment_factor priority
          ok (times factor (of_int (int64 suggested))))

    unfoldable pub legacy_start : Config → Text → Result ℤ
    legacy_start c priority = do
      suggested ← answered node.suggest_gas_price
      adjust_price priority suggested

    -- the congestion metric, after the first part gave a value
    unfoldable pub with_metric :
        {A B : Type 0}
        → HeaderNode
        → List ℕ
        → Option LfuHeaderCache
        → Config
        → Result A
        → (A → Result Float → Result B)
        → Option (Option LfuHeaderCache × Result B)
    with_metric headers moves cache c (err e) rest = some (cache, err e)
    with_metric headers moves cache c Result.panic rest = some (cache, Result.panic)
    with_metric headers moves cache c (ok a) rest = elim (the_network c) [
      | Result.panic ↦ some (cache, Result.panic)
      | err e ↦ some (cache, err e)
      | ok n ↦
          elim (congestion_metric lib headers moves cache n.gas_price_estimation_blocks
            strategy_newest_first) [
              | none ↦ none
              | some (cache', metric) ↦ some (cache', rest a metric)
            ]
    ]

    -- GetSuggestedLegacyFees; `none` is a call that waits for the headers
    unfoldable pub get_suggested_legacy_fees :
        HeaderNode
        → List ℕ
        → Option LfuHeaderCache
        → Config
        → Text
        → Option (Option LfuHeaderCache × Result ℤ)
    get_suggested_legacy_fees headers moves cache c priority =
        with_metric headers moves cache c (legacy_start c priority) buffered_price

    -- GetSuggestedEIP1559Fees, with the fee cap first
    unfoldable pub get_suggested_eip1559_fees :
        HeaderNode
        → List ℕ
        → Option LfuHeaderCache
        → Config
        → Text
        → Option (Option LfuHeaderCache × Result (ℤ × ℤ))
    get_suggested_eip1559_fees headers moves cache c priority =
        with_metric headers moves cache c (eip1559_start c priority)
          (λ fees metric. buffered_fees fees.0 fees.1 metric)
