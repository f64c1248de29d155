-- ===== src/GasAdjuster/Headers.antt =====
-- gas_adjuster.go: the block headers of CalculateNetworkCongestionMetric. A goroutine is a task, and a
-- run of the goroutines is the list of the tasks that move, so that every interleaving is such a list.
pub mod Blocks
pub mod Gathered
pub mod Returns
pub mod Waits
use seth.Prelude.{
  ℕ, zero, suc, ◌+◌, Bool, true, false, not, Option, none, some, List, [], ◌∷◌, ◌++◌, map,
  if◌then◌else◌, ltb, leb, ◌==◌, ◌⊎◌, inl, inr,
}
use seth.Prelude.Int.{ℤ}
use seth.Prelude.Words.{sub64, int64_of_word}
use seth.Prelude.Errors.{Error}
use seth.HeaderCache
use seth.HeaderCache.{Header, LfuHeaderCache}

-- BlockNumber, and HeaderByNumber with an error or a header
pub record HeaderNode : Type 0 where
  pub block_number : Error ⊎ ℕ
  pub header_by_number : ℤ → Error ⊎ Header

-- the block numbers of the loop from `i`, which ends at `stop` and at block 1
unfoldable pub blocks_from : ℕ → ℕ → List ℕ
blocks_from zero stop = []
blocks_from (suc i) stop = elim (ltb stop (suc i)) [
  | false ↦ []
  | true ↦ elim (leb (suc i) 1) [ true ↦ [] | false ↦ suc i ∷ blocks_from i stop ]
]

unfoldable pub requested_blocks : ℕ → ℕ → List ℕ
requested_blocks last blocks = blocks_from last (sub64 last blocks)

-- A goroutine: before its look into the cache, before its request, before it hands over its header,
-- and after. The one whose request failed has returned without wg.Done.
pub data Task : Type 0 where
  wanted asked : ℕ → Task
  sending : Header → Task
  received : Task
  failed : ℕ → Task

pub record Fetching : Type 0 where
  pub cache : LfuHeaderCache
  pub headers : List Header
  pub tasks : List Task

module _ (node : HeaderNode) where
  -- getHeaderData after its look into the cache
  unfoldable pub fetch_header : LfuHeaderCache → ℤ → LfuHeaderCache × (Error ⊎ Header)
  fetch_header cache bn = elim (node.header_by_number bn) [
    | inl e ↦ (cache, inl e)
    | inr h ↦ ((HeaderCache.set cache (some h)).0, inr h)
  ]

  unfoldable pub get_header_data : LfuHeaderCache → ℤ → LfuHeaderCache × (Error ⊎ Header)
  get_header_data cache bn =
      let (looked, found) = HeaderCache.get cache bn in
      elim found [ some h ↦ (looked, inr h) | none ↦ fetch_header looked bn ]

  -- One step of a goroutine. The receiver appends a header and calls wg.Done.
  unfoldable pub step_task : LfuHeaderCache → List Header → Task → Fetching
  step_task cache headers (wanted n) =
      let (looked, found) = HeaderCache.get cache (int64_of_word n) in
      record {
        cache = looked;
        headers = headers;
        tasks = elim found [ some h ↦ sending h ∷ [] | none ↦ asked n ∷ [] ];
      }
  step_task cache headers (asked n) =
      let (written, answer) = fetch_header cache (int64_of_word n) in
      record {
        cache = written;
        headers = headers;
        tasks = elim answer [ inr h ↦ sending h ∷ [] | inl e ↦ failed n ∷ [] ];
      }
  step_task cache headers (sending h) = record {
    cache = cache;
    headers = headers ++ h ∷ [];
    tasks = received ∷ [];
  }
  step_task cache headers received = record {
    cache = cache;
    headers = headers;
    tasks = received ∷ [];
  }
  step_task cache headers (failed n) = record {
    cache = cache;
    headers = headers;
    tasks = failed n ∷ [];
  }

  -- the task at a place moves; a place that is out of range moves nothing
  unfoldable pub move_at : LfuHeaderCache → List Header → List Task → ℕ → Fetching
  move_at cache headers [] k = record { cache = cache; headers = headers; tasks = [] }
  move_at cache headers (t ∷ ts) zero =
      let moved = step_task cache headers t in record moved { tasks = moved.tasks ++ ts }
  move_at cache headers (t ∷ ts) (suc k) =
      let moved = move_at cache headers ts k in record moved { tasks = t ∷ moved.tasks }

  unfoldable pub run_tasks : Fetching → List ℕ → Fetching
  run_tasks s [] = s
  run_tasks s (k ∷ ks) = run_tasks (move_at s.cache s.headers s.tasks k) ks

-- the counter of the wait group: every goroutine but those that called wg.Done
unfoldable pub waiting : List Task → ℕ
waiting [] = 0
waiting (received ∷ ts) = waiting ts
waiting (wanted n ∷ ts) = suc (waiting ts)
waiting (asked n ∷ ts) = suc (waiting ts)
waiting (sending h ∷ ts) = suc (waiting ts)
waiting (failed n ∷ ts) = suc (waiting ts)

-- the header of the last block, which is fetched first, and the goroutines of the loop
unfoldable pub started : LfuHeaderCache → Header → List ℕ → Fetching
started cache last blocks = record { cache = cache; headers = last ∷ []; tasks = map wanted blocks }
