-- ===== src/GasAdjuster/Fees/Returned.antt =====
-- When the suggestions of fees return.
use Prim.Native.Nat.{min}
use seth.Prelude.{
  ℕ, ◌+◌, ◌-◌, ◌*◌, ◌≤◌, ◌<◌, ◌≡◌, ◌≢◌, false, Option, none, some, List, [], ◌∷◌, ◌++◌, Bool-cases,
  Option-cases, ⊎-cases, inl, inr, arith, refl, length, ◌∙◌, ap, ◌==◌, ltb,
}
use seth.Prelude.Int.{ℤ, ℤ_discrete}
use seth.Prelude.Text.{Text}
use seth.Prelude.Words.{two63, two64, int64_of_word}
use seth.Prelude.Errors.{Error, Result, ok, err}
use seth.Prelude.Map.{lookup}
use seth.Config.{Config, Network, the_network}
use seth.HeaderCache
use seth.HeaderCache.{LfuHeaderCache, Header}
use seth.HeaderCache.Valid.{IsValid, get-IsValid, set-IsValid, weaken}
use seth.GasEstimator.{GasNode}
use seth.GasAdjuster.Floats.{FloatLib, StatsLib}
use seth.GasAdjuster.Headers.{
  HeaderNode, get_header_data, fetch_header, requested_blocks, run_tasks, started, waiting,
  Fetching, move_at,
}
use seth.GasAdjuster.Headers.Blocks.{requested_blocks_lem}
use seth.GasAdjuster.Headers.Gathered.{IsHonest}
use seth.GasAdjuster.Headers.Waits.{IsAbsent, get-IsAbsent, fetch_header-IsAbsent, run_tasks-waits}
use seth.GasAdjuster.Headers.Returns.{Answers, run_tasks-returns}
use seth.GasAdjuster.Metric.{congestion_metric, strategy_newest_first}
use seth.GasAdjuster.Fees.{
  eip1559_start, legacy_start, with_metric, get_suggested_legacy_fees, get_suggested_eip1559_fees,
}

two_more : (n : ℕ) → n + 2 ≡ n + 1 + 1
two_more n = omega arith

length-requested_blocks :
    (last blocks : ℕ)
    → last < two64
    → blocks < two64
    → length (requested_blocks last blocks) ≤ blocks
length-requested_blocks last blocks w v =
    let r = requested_blocks_lem last blocks w v in
    elim (Bool-cases (ltb last blocks)) [
      | inl e ↦ rw (r.2 (ground (arith, e))) (omega arith)
      | inr e ↦ omega (arith, r.0 (ground (arith, e)))
    ]

module _ (node : HeaderNode) where
  -- The cache after the header of the last block.
  fetch_header-IsValid :
      (n : ℕ) (c : LfuHeaderCache) (bn : ℤ)
      → IsValid n c
      → n + 1 < two63
      → IsValid (n + 1) (fetch_header node c bn).0
  unfolding fetch_header
  fetch_header-IsValid n c bn v w = elim (⊎-cases (node.header_by_number bn)) [
    | inl (e, q) ↦ rw (q, fetch_header) (weaken v)
    | inr (h, q) ↦ rw (q, fetch_header) (set-IsValid n c (some h) v w)
  ]

  get_header_data-IsValid :
      (n : ℕ) (c : LfuHeaderCache) (bn : ℤ)
      → IsValid n c
      → n + 2 < two63
      → IsValid (n + 2) (get_header_data node c bn).0
  unfolding get_header_data
  get_header_data-IsValid n c bn v w =
      let looked = get-IsValid n c bn v (omega arith) in
      elim (Option-cases (HeaderCache.get c bn).1) [
        | inr (h, q) ↦ rw (q, get_header_data, two_more n) (weaken looked)
        | inl q ↦
            rw (q, get_header_data, two_more n)
              (fetch_header-IsValid (n + 1) (HeaderCache.get c bn).0 bn looked (omega arith))
      ]

  get_header_data-IsAbsent :
      IsHonest node
      → (k : ℤ) {e : Error} → node.header_by_number k ≡ inl e
      → (n : ℕ) (c : LfuHeaderCache) (bn : ℤ) → IsValid n c
      → n + 1 < two63
      → IsAbsent c k
      → IsAbsent (get_header_data node c bn).0 k
  unfolding get_header_data
  get_header_data-IsAbsent honest k fails n c bn v w a =
      elim (Option-cases (HeaderCache.get c bn).1) [
        | inr (h, q) ↦ rw (q, get_header_data) (get-IsAbsent c bn k a)
        | inl q ↦
            rw (q, get_header_data)
              (fetch_header-IsAbsent node honest k fails (n + 1) (HeaderCache.get c bn).0 bn
                (get-IsValid n c bn v w) (get-IsAbsent c bn k a))
      ]

  header_given :
      (c : LfuHeaderCache) (bn : ℤ) (h : Header)
      → node.header_by_number bn ≡ inr h
      → (g : Header) × ((get_header_data node c bn).1 ≡ inr g)
  unfolding get_header_data fetch_header
  header_given c bn h q = elim (Option-cases (HeaderCache.get c bn).1) [
    | inr (g, e) ↦ (g, ground (arith, e))
    | inl e ↦ (h, ground (arith, e, q))
  ]

  run_tasks-append :
      (s : Fetching) (moves more : List ℕ)
      → run_tasks node s (moves ++ more) ≡ run_tasks node (run_tasks node s moves) more
  unfolding run_tasks
  run_tasks-append s [] more = refl
  run_tasks-append s (i ∷ moves) more =
      run_tasks-append (move_at node s.cache s.headers s.tasks i) moves more

-- A call of CalculateNetworkCongestionMetric that cannot return: a header cache with few enough calls,
-- a last block, and a block of those before it that the loop asks for, whose header is not in the
-- cache and is not given by the node.
pub record LacksHeader (node : HeaderNode) (cache : LfuHeaderCache) (calls blocks : ℕ)
    : Type 0 where
  pub honest : IsHonest node
  pub valid : IsValid calls cache
  pub last : ℕ
  pub last_block : node.block_number ≡ inr last
  pub last_word : last < two64
  pub blocks_word : blocks < two64
  pub answer : Header
  pub last_header : node.header_by_number (int64_of_word last) ≡ inr answer
  pub missing : ℕ
  pub in_range : (blocks ≤ last) × (missing < min blocks (last - 1))
  pub error : Error
  pub fails : node.header_by_number (int64_of_word (last - missing)) ≡ inl error
  pub absent : lookup ℤ_discrete (int64_of_word (last - missing)) cache.cache ≡ none

module _ (lib : FloatLib) (node : HeaderNode) where
  congestion_metric_waits :
      (cache : LfuHeaderCache) (calls blocks : ℕ) (strategy : Text) (moves : List ℕ)
      → LacksHeader node cache calls blocks
      → calls + 2 + length moves < two63
      → congestion_metric lib node moves (some cache) blocks strategy ≡ none
  unfolding congestion_metric
  congestion_metric_waits cache calls blocks strategy moves l w =
      let key = int64_of_word l.last in
      let looked = (get_header_data node cache key).0 in
      let requested = requested_blocks_lem l.last blocks l.last_word l.blocks_word in
      let asked = requested.1 l.missing (omega (arith, requested.0 l.in_range.0, l.in_range.1)) in
      let (h, e) = header_given node cache key l.answer l.last_header in
      let stuck =
        run_tasks-waits node l.honest (int64_of_word (l.last - l.missing)) l.fails (calls + 2)
          looked h (l.last - l.missing) l.missing (requested_blocks l.last blocks) moves
          (get_header_data-IsValid node calls cache key l.valid (omega arith)) w asked refl
          (get_header_data-IsAbsent node l.honest (int64_of_word (l.last - l.missing)) l.fails calls
            cache key l.valid (omega arith) l.absent) in
      let some_wait : (waiting
              (run_tasks node (started looked h (requested_blocks l.last blocks)) moves).tasks
            == 0)
          ≡ false =
        ground (arith, stuck) in
      ground (arith, l.last_block, e, some_wait)

  -- The goroutines of a call that does not lack a header can go on until it returns.
  congestion_metric_returns :
      Answers node
      → (cache : Option LfuHeaderCache) (blocks : ℕ) (strategy : Text) (moves : List ℕ)
      → ((last : ℕ) → node.block_number ≡ inr last → last < two64)
      → blocks < two64
      → (more : List ℕ) × (length more ≤ 3 * blocks)
        × (congestion_metric lib node (moves ++ more) cache blocks strategy ≢ none)
  unfolding congestion_metric
  congestion_metric_returns answers none blocks strategy moves w v = ([], omega arith, λ h. cc)
  congestion_metric_returns answers (some cache) blocks strategy moves w v =
      elim (⊎-cases node.block_number) [
        | inl (e, q) ↦ ([], omega arith, λ h. ground (arith, q, h))
        | inr (last, q) ↦
            let key = int64_of_word last in
            let looked = (get_header_data node cache key).0 in
            let (g, a) = answers key in
            let (h, e) = header_given node cache key g a in
            let asked = requested_blocks last blocks in
            let (more, l, z) = run_tasks-returns node answers looked h asked moves in
            let all_moved =
              ap (λ (s : Fetching). waiting s.tasks)
                (run_tasks-append node (started looked h asked) moves more)
              ∙ z in
            (
              more,
              omega (arith, l, length-requested_blocks last blocks (w last q) v),
              λ x. ground (arith, q, e, all_moved, x),
            )
      ]

module _ (lib : FloatLib) (stats_lib : StatsLib lib) (node : GasNode) (headers : HeaderNode)
    (c : Config) where
  with_metric-waits :
      {A B : Type 0} (moves : List ℕ) (cache : LfuHeaderCache) (n : Network) (a : A)
      (rest : A → Result lib.Float → Result B)
      → the_network c ≡ ok n
      → congestion_metric lib headers moves
          (some cache)
          n.gas_price_estimation_blocks
          strategy_newest_first
        ≡ none
      → with_metric lib stats_lib node headers moves (some cache) c (ok a) rest ≡ none
  unfolding with_metric
  with_metric-waits moves cache n a rest q h = ground (arith, q, h)

  -- Where the loop asks for a block whose header is not in the valid cache and is not given by the
  -- node, and the calls of the cache and the moves are fewer than 2 ^ 63: once GetSuggestedLegacyFees
  -- or GetSuggestedEIP1559Fees has got its prices and come to the congestion metric, it never
  -- returns, in whatever order the goroutines run. It returns neither the error nor fees without the
  -- buffer. A header that the node gives for a number has that number.
  pub get_suggested_fees_wait :
      (cache : LfuHeaderCache) (n : Network) (calls : ℕ) (moves : List ℕ) (priority : Text)
      → the_network c ≡ ok n
      → LacksHeader headers cache calls n.gas_price_estimation_blocks
      → calls + 2 + length moves < two63
      → ((price : ℤ)
          → legacy_start lib stats_lib node c priority ≡ ok price
          → get_suggested_legacy_fees lib stats_lib node headers moves (some cache) c priority
            ≡ none)
        × ((fees : ℤ × ℤ)
            → eip1559_start lib stats_lib node c priority ≡ ok fees
            → get_suggested_eip1559_fees lib stats_lib node headers moves (some cache) c priority
              ≡ none)
  unfolding get_suggested_legacy_fees get_suggested_eip1559_fees
  get_suggested_fees_wait cache n calls moves priority q l w =
      let waits =
        congestion_metric_waits lib headers cache calls n.gas_price_estimation_blocks
          strategy_newest_first moves l w in
      (
        λ price e. rw e (with_metric-waits moves cache n price _ q waits),
        λ fees e. rw e (with_metric-waits moves cache n fees _ q waits),
      )

  with_metric-returns :
      {A B : Type 0} (moves : List ℕ) (cache : Option LfuHeaderCache) (n : Network)
      (start : Result A) (rest : A → Result lib.Float → Result B)
      → the_network c ≡ ok n
      → congestion_metric lib headers moves cache n.gas_price_estimation_blocks
          strategy_newest_first
        ≢ none
      → with_metric lib stats_lib node headers moves cache c start rest ≢ none
  unfolding with_metric
  with_metric-returns moves cache n (err e) rest q r = λ h. cc
  with_metric-returns moves cache n Result.panic rest q r = λ h. cc
  with_metric-returns moves cache n (ok a) rest q r =
      elim (Option-cases (
        congestion_metric lib headers moves cache n.gas_price_estimation_blocks
          strategy_newest_first)) [
            | inl e ↦ absurd (r e)
            | inr ((kept, metric), e) ↦ λ h. ground (arith, q, e, h)
          ]

  -- With a node that gives every header, and a last block and a number of blocks in 64 bits:
  -- after any moves of the goroutines they can go on, with at most three moves for each of the blocks,
  -- so that GetSuggestedLegacyFees and GetSuggestedEIP1559Fees return.
  pub get_suggested_fees_return :
      (cache : Option LfuHeaderCache) (n : Network) (moves : List ℕ) (priority : Text)
      → Answers headers
      → the_network c ≡ ok n
      → ((last : ℕ) → headers.block_number ≡ inr last → last < two64)
      → n.gas_price_estimation_blocks < two64
      → (more : List ℕ) × (length more ≤ 3 * n.gas_price_estimation_blocks)
        × (get_suggested_legacy_fees lib stats_lib node headers (moves ++ more) cache c priority
            ≢ none)
        × (get_suggested_eip1559_fees lib stats_lib node headers (moves ++ more) cache c priority
            ≢ none)
  unfolding get_suggested_legacy_fees get_suggested_eip1559_fees
  get_suggested_fees_return cache n moves priority answers q w v =
      let (more, l, r) =
        congestion_metric_returns lib headers answers cache n.gas_price_estimation_blocks
          strategy_newest_first moves w v in
      (
        more,
        l,
        with_metric-returns (moves ++ more) cache n _ _ q r,
        with_metric-returns (moves ++ more) cache n _ _ q r,
      )
