-- ===== src/Tests/GasAdjuster.antt =====
-- Suggested fees on concrete nodes.
use Prim.Native.Nat.{min}
use seth.Prelude.{
  ℕ, ◌+◌, ◌-◌, ◌≤◌, ◌<◌, ◌≡◌, ◌≢◌, ◌&&◌, refl, true, false, none, some, Option, List, [], ◌∷◌, ◌++◌,
  map, length, get_elem?, arith, ℕ_discrete, ◌⊎◌, inl, inr, if◌then◌else◌, ltb,
}
use seth.Prelude.Int.{ℤ, pos, ◌+ℤ◌, ℤ_discrete}
use seth.Prelude.Text.{codes, text_dec, to_lower, lower_byte, contains, has_prefix, decimal}
use seth.Prelude.Words.{uint64, int64, int64_of_word, uint64_of_int, sub64}
use seth.Prelude.Errors.{Error, plain, foreign, message, Result, ok, err}
use seth.Prelude.Map.{lookup, insert, delete}
use seth.Config.{Config, Network, any, deref, the_network, is_experiment_enabled}
use seth.ClientBuilder.{default_config, default_network}
use seth.HeaderCache
use seth.HeaderCache.{
  Header, CacheItem, LfuHeaderCache, new_lfu_block_cache, make_room, store, evict_step, evict_loop,
  evict, next_frequency, block_key, block_word,
}
use seth.HeaderCache.Valid.{IsValid, new-IsValid}
use seth.GasEstimator.{
  GasNode, GasSuggestions, answered, quantiles_from_float_array, fee_float, tips_of, stats,
}
use seth.Client.{GasEstimations, GasEstimationRequest}
use seth.Client.Estimated.{Estimated, run_gas_estimations}
use seth.GasAdjuster.Headers.{
  HeaderNode, blocks_from, requested_blocks, fetch_header, get_header_data, step_task, move_at,
  run_tasks, waiting, started,
}
use seth.GasAdjuster.Headers.Blocks.{requested_blocks_lem}
use seth.GasAdjuster.Headers.Gathered.{count_headers, count_blocks, run_tasks-gathered}
use seth.GasAdjuster.Metric.{
  compare_headers, insert_header, sort_headers, decimal_int, used_ratio, total_ratio,
  calculate_gas_used_ratio, weight_of, weigh, newest_first_metric, min_block_count, metric_of,
  congestion_metric,
}
use seth.GasAdjuster.Fees.{
  get_adjustment_factor, get_congestion_factor, classify_congestion, abs_int,
  calculate_magnitude_difference, equalize, congestion_buffer, with_buffer, buffered_price,
  buffered_fees, of_priority, historical_fee_data, current_tip, fees_to_adjust, adjust_fees,
  eip1559_start, adjust_price, legacy_start, with_metric, get_suggested_legacy_fees,
  get_suggested_eip1559_fees,
}
use seth.GasAdjuster.Fees.Priced.{
  IsFactor, IsBuffered, IsMetric, IsHistorical, IsLarger, IsChosen,
  get_suggested_legacy_fees-IsPriced, get_suggested_eip1559_fees-IsPriced,
}
use seth.GasAdjuster.Fees.Returned.{LacksHeader, get_suggested_fees_wait, get_suggested_fees_return}
use seth.Tests.Floats.{cents, cents_stats}

program : Unit {0}
unfolding default_config default_network text_dec to_lower lower_byte contains has_prefix message
    decimal uint64 int64 int64_of_word uint64_of_int sub64 lookup insert delete ℤ_discrete ◌+ℤ◌
    ℕ_discrete deref the_network is_experiment_enabled HeaderCache.get HeaderCache.set
    new_lfu_block_cache make_room store evict_step evict_loop evict next_frequency block_key
    block_word answered quantiles_from_float_array fee_float tips_of stats blocks_from
    requested_blocks fetch_header get_header_data step_task move_at run_tasks waiting started
    compare_headers insert_header sort_headers decimal_int used_ratio total_ratio
    calculate_gas_used_ratio weight_of weigh newest_first_metric min_block_count metric_of
    congestion_metric get_adjustment_factor get_congestion_factor classify_congestion abs_int
    calculate_magnitude_difference equalize congestion_buffer with_buffer buffered_price
    buffered_fees of_priority historical_fee_data current_tip fees_to_adjust adjust_fees
    eip1559_start adjust_price legacy_start with_metric get_suggested_legacy_fees
    get_suggested_eip1559_fees
program = tt

abbrev number_of : ℤ → ℕ
number_of (pos n) = n
number_of (ℤ.negsuc n) = 0

-- Full blocks of every number up to block 6.
abbrev header : ℤ → Header
header bn = record { number = number_of bn; gas_used = 10; gas_limit = 10 }

abbrev pub full_node : HeaderNode
full_node = record { block_number = inr 6; header_by_number = λ bn. inr (header bn) }

abbrev lost : Error
lost = foreign (codes "missing trie node")

-- A node with the headers of the blocks above a first one and below 100.
abbrev answer_from : ℕ → ℤ → Error ⊎ Header
answer_from first (pos n) = if ltb n 100 && ltb first n then inr (header (pos n)) else inl lost
answer_from first (ℤ.negsuc n) = inl lost

abbrev whole_node : HeaderNode
whole_node = record { block_number = inr 6; header_by_number = answer_from 0 }

-- The headers up to block 5 are lost.
abbrev forgetful : HeaderNode
forgetful = record { block_number = inr 6; header_by_number = answer_from 5 }

answer_from-honest :
    (first : ℕ) (bn : ℤ) (h : Header) → answer_from first bn ≡ inr h → block_key h ≡ bn
unfolding block_key block_word uint64 int64_of_word
answer_from-honest first (pos n) h e = ground arith
answer_from-honest first (ℤ.negsuc n) h e = cc

abbrev three_blocks : Network
three_blocks = record default_network { gas_price_estimation_blocks = 3 }

abbrev pub config : Config
config = record default_config { heap = three_blocks ∷ [] }

abbrev pub gas_node : GasNode
gas_node = record {
  last_block = inr 6;
  fee_history = λ blocks last. inr (record {
    base_fee = some (pos 1_000) ∷ some (pos 2_000) ∷ [];
    reward = (some (pos 10) ∷ []) ∷ (some (pos 20) ∷ []) ∷ [];
  });
  suggest_gas_price = inr (pos 1_000);
  suggest_gas_tip_cap = inr (pos 30);
}

abbrev empty_cache : LfuHeaderCache
empty_cache = new_lfu_block_cache 10

-- The goroutines take turns: block 5 arrives first.
abbrev pub turns : List ℕ
turns = 1 ∷ 0 ∷ 2 ∷ 1 ∷ 1 ∷ 0 ∷ 0 ∷ 2 ∷ 2 ∷ []

abbrev outcome {ℓ} : {A B : Type ℓ} → Option (A × B) → Option B
outcome none = none
outcome (some (a, b)) = some b

-- Without a header cache.
pub uncached_run :
    get_suggested_legacy_fees cents cents_stats gas_node full_node turns none config
      (codes "standard")
    ≡ some (none, err (plain (codes "header cache is nil")))
unfolding program
uncached_run = refl

-- 1000 wei, times 1.2, times the buffer 1.4 of full blocks.
legacy_run :
    outcome (
      get_suggested_legacy_fees cents cents_stats gas_node full_node turns
        (some empty_cache)
        config
        (codes "fast"))
    ≡ some (ok (pos 1_680))
unfolding program
legacy_run = refl

eip1559_run :
    outcome (
      get_suggested_eip1559_fees cents cents_stats gas_node full_node turns
        (some empty_cache)
        config
        (codes "slow"))
    ≡ some (ok (pos 1_153, pos 33))
unfolding program any
eip1559_run = refl

gathered_numbers :
    map
      (λ h. h.number)
      (run_tasks full_node
        (started empty_cache (header (pos 6)) (requested_blocks 6 3))
        turns).headers
    ≡ 6 ∷ 5 ∷ 6 ∷ 4 ∷ []
unfolding program
gathered_numbers = refl

abbrev cache_of {ℓ} : {A : Type ℓ} → Option (Option LfuHeaderCache × A) → Option LfuHeaderCache
cache_of none = none
cache_of (some (cache, a)) = cache

abbrev legacy_cache : Option LfuHeaderCache
legacy_cache = cache_of (
    get_suggested_legacy_fees cents cents_stats gas_node full_node turns (some empty_cache) config
      (codes "fast"))

get_suggested_legacy_fees-IsPriced_example :
    (suggested : ℤ) × (gas_node.suggest_gas_price ≡ inr suggested)
    × (int64 suggested ≢ pos 0)
    × (factor : ℕ) × IsFactor cents (codes "fast") factor
    × (n : Network) × (metric : Result ℕ) × IsMetric cents cents_stats gas_node full_node turns
        (some empty_cache)
        legacy_cache
        config
        n
        metric
    × IsBuffered cents metric (cents.times factor (cents.of_int (int64 suggested))) (pos 1_680)
unfolding program
get_suggested_legacy_fees-IsPriced_example =
    get_suggested_legacy_fees-IsPriced cents cents_stats gas_node full_node turns (some empty_cache)
      legacy_cache config (codes "fast") (pos 1_680) refl

abbrev eip1559_cache : Option LfuHeaderCache
eip1559_cache = cache_of (
    get_suggested_eip1559_fees cents cents_stats gas_node full_node turns (some empty_cache) config
      (codes "slow"))

get_suggested_eip1559_fees-IsPriced_example :
    (suggested : ℤ) × (gas_node.suggest_gas_tip_cap ≡ inr suggested)
    × (n : Network) × (metric : Result ℕ) × IsMetric cents cents_stats gas_node full_node turns
        (some empty_cache)
        eip1559_cache
        config
        n
        metric
    × (s : GasSuggestions cents cents_stats) × (stats cents cents_stats gas_node
          n.gas_price_estimation_blocks
        ≡ ok s)
    × (base : ℕ) × (historical : ℕ) × IsHistorical cents cents_stats gas_node s
        (codes "slow")
        (base, historical)
    × (larger : ℤ) × IsLarger cents suggested (cents.to_int historical) larger
    × (fees : ℕ × ℤ) × IsChosen cents cents_stats gas_node config base larger fees
    × (cents.eq fees.0 (cents.of_int (pos 0)) ≡ false)
    × (factor : ℕ) × IsFactor cents (codes "slow") factor
    × (raised : ℤ) × IsBuffered cents metric (cents.times factor fees.0) raised
    × (pos 1_153 ≡ raised +ℤ pos 33)
    × IsBuffered cents metric (cents.times factor (cents.of_int (int64 fees.1))) (pos 33)
unfolding program any
get_suggested_eip1559_fees-IsPriced_example =
    get_suggested_eip1559_fees-IsPriced cents cents_stats gas_node full_node turns
      (some empty_cache) eip1559_cache config (codes "slow") (pos 1_153) (pos 33) refl

requested_blocks_lem_example :
    (3 ≤ 6 → length (requested_blocks 6 3) ≡ min 3 5)
    × ((k : ℕ)
        → k < length (requested_blocks 6 3)
        → get_elem? (requested_blocks 6 3) k ≡ some (6 - k))
    × (6 < 3 → requested_blocks 6 3 ≡ [])
requested_blocks_lem_example = requested_blocks_lem 6 3 (omega arith) (omega arith)

run_tasks-gathered_example :
    IsValid 9
      (run_tasks whole_node
        (started empty_cache (header (pos 6)) (requested_blocks 6 3))
        turns).cache
    × ((k : ℤ)
        → count_headers k
            (run_tasks whole_node
              (started empty_cache (header (pos 6)) (requested_blocks 6 3))
              turns).headers
          ≡ count_headers k (header (pos 6) ∷ []) + count_blocks k (requested_blocks 6 3))
unfolding program
run_tasks-gathered_example =
    run_tasks-gathered whole_node (answer_from-honest 0) 0 empty_cache (header (pos 6))
      (requested_blocks 6 3) turns (new-IsValid 10) (omega arith) refl

-- The forgetful node: the blocks 6 to 4 are wanted.
lacks : LacksHeader forgetful empty_cache 0 3
unfolding program
lacks = record {
  honest = answer_from-honest 5;
  valid = new-IsValid 10;
  last = 6;
  last_block = refl;
  last_word = omega arith;
  blocks_word = omega arith;
  answer = header (pos 6);
  last_header = refl;
  missing = 1;
  in_range = (omega arith, omega arith);
  error = lost;
  fails = refl;
  absent = refl;
}

get_suggested_fees_wait_example :
    ((price : ℤ)
      → legacy_start cents cents_stats gas_node config (codes "fast") ≡ ok price
      → get_suggested_legacy_fees cents cents_stats gas_node forgetful turns
          (some empty_cache)
          config
          (codes "fast")
        ≡ none)
    × ((fees : ℤ × ℤ)
        → eip1559_start cents cents_stats gas_node config (codes "fast") ≡ ok fees
        → get_suggested_eip1559_fees cents cents_stats gas_node forgetful turns
            (some empty_cache)
            config
            (codes "fast")
          ≡ none)
unfolding program
get_suggested_fees_wait_example =
    get_suggested_fees_wait cents cents_stats gas_node forgetful config empty_cache three_blocks 0
      turns (codes "fast") refl lacks (omega arith)

get_suggested_fees_return_example :
    (more : List ℕ) × (length more ≤ 9)
    × (get_suggested_legacy_fees cents cents_stats gas_node full_node
          ((2 ∷ []) ++ more)
          (some empty_cache)
          config
          (codes "fast")
        ≢ none)
    × (get_suggested_eip1559_fees cents cents_stats gas_node full_node
          ((2 ∷ []) ++ more)
          (some empty_cache)
          config
          (codes "fast")
        ≢ none)
unfolding program
get_suggested_fees_return_example =
    get_suggested_fees_return cents cents_stats gas_node full_node config (some empty_cache)
      three_blocks (2 ∷ []) (codes "fast") (λ bn. (header bn, refl)) refl
      (λ last h. ground (arith, h)) (omega arith)

abbrev request : GasEstimationRequest
request = record {
  gas_estimation_enabled = true;
  fallback_gas_price = pos 7;
  fallback_gas_fee_cap = pos 8;
  fallback_gas_tip_cap = pos 9;
  priority = codes "slow";
}

abbrev estimated : Option Estimated
estimated =
    run_gas_estimations cents cents_stats gas_node full_node turns [] config request
      (some empty_cache)

abbrev estimations : Result (Config × GasEstimations)
estimations = elim estimated [ none ↦ Result.panic | some (cache, out) ↦ out ]
