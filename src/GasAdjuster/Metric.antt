-- ===== src/GasAdjuster/Metric.antt =====
-- gas_adjuster.go: CalculateNetworkCongestionMetric and what it computes of the headers.
pub mod Share
use seth.Prelude.{
  ℕ, zero, suc, ◌+◌, ◌-◌, Bool, true, false, Option, none, some, List, [], ◌∷◌, ◌++◌, if◌then◌else◌,
  ◌==◌, length, inl, inr,
}
use seth.Prelude.Int.{ℤ, pos, negsuc, ltb_ℤ}
use seth.Prelude.Text.{Text, codes, decimal, ◌==ₜ◌}
use seth.Prelude.Words.{sub64, int64_of_word}
use seth.Prelude.Errors.{plain, Result, ok, err}
use seth.HeaderCache.{Header, LfuHeaderCache, block_word}
use seth.GasAdjuster.Floats.{FloatLib}
use seth.GasAdjuster.Headers.{
  HeaderNode, Fetching, get_header_data, requested_blocks, run_tasks, started, waiting,
}

abbrev pub strategy_simple : Text
strategy_simple = codes "simple"

abbrev pub strategy_newest_first : Text
strategy_newest_first = codes "newest_first"

abbrev pub block_fetching_text : Text
block_fetching_text = codes "failed to fetch enough block headers for congestion calculation"

-- the comparison of slices.SortFunc, int(i.Number.Uint64() - j.Number.Uint64())
unfoldable pub compare_headers : Header → Header → ℤ
compare_headers i j = int64_of_word (sub64 (block_word i) (block_word j))

unfoldable pub insert_header : Header → List Header → List Header
insert_header x [] = x ∷ []
insert_header x (y ∷ ys) =
    if ltb_ℤ (compare_headers x y) (pos 0) then x ∷ y ∷ ys else y ∷ insert_header x ys

-- slices.SortFunc, by insertion
unfoldable pub sort_headers : List Header → List Header
sort_headers [] = []
sort_headers (x ∷ xs) = insert_header x (sort_headers xs)

-- %d of an int
unfoldable pub decimal_int : ℤ → Text
decimal_int (pos n) = decimal n
decimal_int (negsuc n) = codes "-" ++ decimal (suc n)

module _ (lib : FloatLib) where
  open lib use {Float, of_int, to_int, hundredths, add, mul, div, log10, eq}

  unfoldable pub used_ratio : Header → Float
  used_ratio h = div (of_int (pos h.gas_used)) (of_int (pos h.gas_limit))

  -- the loop of calculateGasUsedRatio, which skips a header without a gas limit
  unfoldable pub total_ratio : Float → List Header → Float
  total_ratio total [] = total
  total_ratio total (h ∷ hs) =
      total_ratio (if h.gas_limit == 0 then total else add total (used_ratio h)) hs

  -- calculateGasUsedRatio and calculateSimpleNetworkCongestionMetric
  unfoldable pub calculate_gas_used_ratio : List Header → Float
  calculate_gas_used_ratio headers =
      if length headers == 0
      then of_int (pos 0)
      else div (total_ratio (of_int (pos 0)) headers) (of_int (pos (length headers)))

  -- the weight of a header with `distance` newer ones
  unfoldable pub weight_of : ℕ → Float
  weight_of distance = div (of_int (pos 1)) (log10 (add (of_int (pos distance)) (of_int (pos 10))))

  -- weightedSum and totalWeight
  pub record Weights : Type 0 where
    pub weighted : Float
    pub total : Float

  -- the loop over the sorted headers; those that follow a header are newer
  unfoldable pub weigh : Weights → List Header → Weights
  weigh s [] = s
  weigh s (h ∷ hs) =
      let weight = weight_of (length hs) in
      weigh
        (record {
          weighted = add s.weighted (mul (used_ratio h) weight);
          total = add s.total weight;
        })
        hs

  unfoldable pub newest_first_metric : List Header → Float
  newest_first_metric headers =
      let s =
        weigh (record { weighted = of_int (pos 0); total = of_int (pos 0) })
          (sort_headers headers) in
      if eq s.total (of_int (pos 0)) then of_int (pos 0) else div s.weighted s.total

  unfoldable pub min_block_count : ℕ → ℤ
  min_block_count blocks = to_int (mul (of_int (pos blocks)) (hundredths 80))

  -- after wg.Wait
  unfoldable pub metric_of : ℕ → Text → List Header → Result Float
  metric_of blocks strategy headers =
      if ltb_ℤ (pos (length headers)) (min_block_count blocks)
      then err (
          plain (
            block_fetching_text
            ++ codes ". Wanted at least "
            ++ decimal_int (min_block_count blocks)
            ++ codes ", got "
            ++ decimal (length headers)))
      else (if strategy ==ₜ strategy_simple
          then ok (calculate_gas_used_ratio headers)
          else (if strategy ==ₜ strategy_newest_first
              then ok (newest_first_metric headers)
              else err (plain (codes "unknown congestion strategy: " ++ strategy))))

  -- The goroutines make the moves `moves`; `none` is a call that still waits for them. A cache that is
  -- nil is `none`.
  unfoldable pub congestion_metric :
      HeaderNode
      → List ℕ
      → Option LfuHeaderCache
      → ℕ
      → Text
      → Option (Option LfuHeaderCache × Result Float)
  congestion_metric node moves none blocks strategy =
      some (none, err (plain (codes "header cache is nil")))
  congestion_metric node moves (some cache) blocks strategy = elim node.block_number [
    | inl e ↦ some (some cache, err e)
    | inr last ↦
        let (looked, answer) = get_header_data node cache (int64_of_word last) in
        elim answer [
          | inl e ↦ some (some looked, err e)
          | inr h ↦
              let s = run_tasks node (started looked h (requested_blocks last blocks)) moves in
              if waiting s.tasks == 0
              then some (some s.cache, metric_of blocks strategy s.headers)
              else none
        ]
  ]
