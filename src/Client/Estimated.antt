-- ===== src/Client/Estimated.antt =====
-- client.go: CalculateGasEstimations with the gas adjuster's own suggestions, which may wait for ever.
use seth.Prelude.{
  ℕ, Bool, true, false, not, ◌||◌, Option, none, some, List, [], ◌≡◌, ◌⊎◌, if◌then◌else◌,
}
use seth.Prelude.Int.{ℤ}
use seth.Prelude.Errors.{plain, Result, ok, err, ◌>>=◌}
use seth.Config.{Config, Network, the_network, is_simulated_network}
use seth.HeaderCache.{LfuHeaderCache}
use seth.GasEstimator.{GasNode}
use seth.GasAdjuster.Floats.{FloatLib, StatsLib}
use seth.GasAdjuster.Headers.{HeaderNode}
use seth.GasAdjuster.Fees.{get_suggested_legacy_fees, get_suggested_eip1559_fees}
use seth.Client.{
  GasEstimations, GasEstimationRequest, Fees, with_timeout, is_unsupported,
  calculate_gas_estimations,
}
use seth.Client.Estimations.{IsPriced}

-- the answers of the two suggestions; the one that is not asked for is not read
unfoldable pub fees_of : Result ℤ → Result (ℤ × ℤ) → Fees
fees_of legacy eip1559 = record {
  legacy_fees = λ priority. legacy;
  eip1559_fees = λ priority. eip1559;
}

abbrev pub unasked {ℓ} : {A : Type ℓ} → Result A
unasked = err (plain [])

-- which suggestion is asked for first: none, or EIP-1559 fees or not
unfoldable pub asks_for : Config → GasEstimationRequest → Result (Option Bool)
asks_for c request = do
  simulated ← is_simulated_network c
  if simulated || not request.gas_estimation_enabled
      then ok none
      else (do u ← with_timeout c; n ← the_network c; ok (some n.eip1559_dynamic_fees))

abbrev pub Estimated : Type 0
Estimated = Option LfuHeaderCache × Result (Config × GasEstimations)

-- the estimations at the answer of GetSuggestedLegacyFees
unfoldable pub with_legacy :
    Config → GasEstimationRequest → Result (ℤ × ℤ) → Option LfuHeaderCache × Result ℤ → Estimated
with_legacy c request eip1559 (cache, Result.panic) = (cache, Result.panic)
with_legacy c request eip1559 (cache, ok price) =
    (cache, calculate_gas_estimations (fees_of (ok price) eip1559) c request)
with_legacy c request eip1559 (cache, err e) =
    (cache, calculate_gas_estimations (fees_of (err e) eip1559) c request)

-- What an outcome is when the network was `n`: a panic, or what the client makes of some answers of the
-- two suggestions, with the prices that the network asks for.
abbrev pub IsEstimated :
    Config → GasEstimationRequest → Network → Result (Config × GasEstimations) → Type 0
IsEstimated c request n out =
    (out ≡ Result.panic)
    ⊎ ((estimated : Config × GasEstimations) × (out ≡ ok estimated)
        × (fees : Fees) × (calculate_gas_estimations fees c request ≡ ok estimated)
        × IsPriced n estimated)

module _ (lib : FloatLib) (stats_lib : StatsLib lib) (node : GasNode) (headers : HeaderNode) where
  -- GetSuggestedLegacyFees, and the estimations at its answer; the goroutines make the moves `moves`
  unfoldable pub ask_legacy :
      List ℕ
      → Config
      → GasEstimationRequest
      → Result (ℤ × ℤ)
      → Option LfuHeaderCache
      → Option Estimated
  ask_legacy moves c request eip1559 cache =
      elim (get_suggested_legacy_fees lib stats_lib node headers moves cache c request.priority) [
        | none ↦ none
        | some r ↦ some (with_legacy c request eip1559 r)
      ]

  -- at the answer of GetSuggestedEIP1559Fees: legacy fees follow on a network without EIP-1559
  unfoldable pub after_eip1559 :
      List ℕ
      → Config
      → GasEstimationRequest
      → Option LfuHeaderCache × Result (ℤ × ℤ)
      → Option Estimated
  after_eip1559 moves c request (cache, Result.panic) = some (cache, Result.panic)
  after_eip1559 moves c request (cache, ok fees) =
      some (with_legacy c request (ok fees) (cache, unasked))
  after_eip1559 moves c request (cache, err e) =
      if is_unsupported e
      then ask_legacy moves c request (err e) cache
      else some (with_legacy c request (err e) (cache, unasked))

  unfoldable pub ask_eip1559 :
      List ℕ → List ℕ → Config → GasEstimationRequest → Option LfuHeaderCache → Option Estimated
  ask_eip1559 moves later c request cache =
      elim (get_suggested_eip1559_fees lib stats_lib node headers moves cache c request.priority) [
        | none ↦ none
        | some r ↦ after_eip1559 later c request r
      ]

  -- CalculateGasEstimations; `none` is a call that waits for headers. The moves of the goroutines are
  -- `moves` in the first suggestion and `later` in the second one.
  unfoldable pub run_gas_estimations :
      List ℕ → List ℕ → Config → GasEstimationRequest → Option LfuHeaderCache → Option Estimated
  run_gas_estimations moves later c request cache = elim (asks_for c request) [
    | Result.panic ↦ some (cache, Result.panic)
    | err e ↦ some (cache, err e)
    | ok none ↦ some (with_legacy c request unasked (cache, unasked))
    | ok (some false) ↦ ask_legacy moves c request unasked cache
    | ok (some true) ↦ ask_eip1559 moves later c request cache
  ]
