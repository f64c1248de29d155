-- ===== src/GasEstimator.antt =====
-- gas.go: the quantiles of the fee history.
use seth.Prelude.{ℕ, Option, none, some, List, [], ◌∷◌, map, ◌⊎◌, inl, inr}
use seth.Prelude.Int.{ℤ, pos}
use seth.Prelude.Words.{int64_of_word}
use seth.Prelude.Errors.{Error, Result, ok, err, ◌>>=◌}
use seth.GasAdjuster.Floats.{FloatLib, StatsLib}

-- ethereum.FeeHistory: a big integer that is nil is `none`
pub record FeeHistory : Type 0 where
  pub base_fee : List (Option ℤ)
  pub reward : List (List (Option ℤ))

-- BlockNumber, FeeHistory of a number of blocks up to a last one, SuggestGasPrice and SuggestGasTipCap
pub record GasNode : Type 0 where
  pub last_block : Error ⊎ ℕ
  pub fee_history : ℕ → ℤ → Error ⊎ FeeHistory
  pub suggest_gas_price : Error ⊎ ℤ
  pub suggest_gas_tip_cap : Error ⊎ ℤ

unfoldable pub answered {ℓ} : {A : Type ℓ} → Error ⊎ A → Result A
answered (inl e) = err e
answered (inr a) = ok a

module _ (lib : FloatLib) (stats_lib : StatsLib lib) where
  open lib use {Float, of_int}

  pub record GasPercentiles : Type 0 where
    pub max : Float
    pub perc99 : Float
    pub perc75 : Float
    pub perc50 : Float
    pub perc25 : Float

  pub record GasSuggestions : Type 0 where
    pub gas_price : GasPercentiles
    pub tip_cap : GasPercentiles
    pub suggested_gas_price : ℤ
    pub suggested_gas_tip_cap : ℤ

  unfoldable pub quantiles_from_float_array : List Float → Result GasPercentiles
  quantiles_from_float_array fa = do
    largest ← stats_lib.max fa
    p99 ← stats_lib.percentile fa 99
    p75 ← stats_lib.percentile fa 75
    p50 ← stats_lib.percentile fa 50
    p25 ← stats_lib.percentile fa 25
    ok (record { max = largest; perc99 = p99; perc75 = p75; perc50 = p50; perc25 = p25 })

  -- a fee that is nil counts as 0
  unfoldable pub fee_float : Option ℤ → Float
  fee_float none = of_int (pos 0)
  fee_float (some fee) = of_int fee

  -- the first reward of each block that has rewards
  unfoldable pub tips_of : List (List (Option ℤ)) → List Float
  tips_of [] = []
  tips_of ([] ∷ rewards) = tips_of rewards
  tips_of ((fee ∷ fees) ∷ rewards) = fee_float fee ∷ tips_of rewards

  unfoldable pub stats : GasNode → ℕ → Result GasSuggestions
  stats node from_number = do
    bn ← answered node.last_block
    hist ← answered (node.fee_history from_number (int64_of_word bn))
    gas_percs ← quantiles_from_float_array (map fee_float hist.base_fee)
    tip_percs ← quantiles_from_float_array (tips_of hist.reward)
    price ← answered node.suggest_gas_price
    tip ← answered node.suggest_gas_tip_cap
    ok (record {
      gas_price = gas_percs;
      tip_cap = tip_percs;
      suggested_gas_price = price;
      suggested_gas_tip_cap = tip;
    })
