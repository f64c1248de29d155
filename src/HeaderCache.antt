-- ===== src/HeaderCache.antt =====
-- header_cache.go: the cache of block headers that evicts the least frequently used one.
-- A block number is a big.Int that is not negative. The mutex is not modelled: each operation holds
-- it from start to end, so operations are atomic.
pub mod Evict
pub mod Valid
pub mod Behaviour
use seth.Prelude.{
  ℕ, ◌+◌, ◌-◌, Bool, ◌&&◌, Option, none, some, List, [], ◌∷◌, ltb, leb, length, if◌then◌else◌,
  holds,
}
use seth.Prelude.Int.{ℤ, pos, ◌+ℤ◌, ltb_ℤ, ℤ_discrete}
use seth.Prelude.Words.{two63, two64, uint64, int64_of_word, int64}
use seth.Prelude.Text.{codes}
use seth.Prelude.Errors.{Error, plain}
use seth.Prelude.Map.{Map, lookup, insert, delete}

-- The fields of types.Header that the program reads.
pub record Header : Type 0 where
  pub number : ℕ
  pub gas_used : ℕ
  pub gas_limit : ℕ

-- header.Number.Uint64() and header.Number.Int64()
unfoldable pub block_word : Header → ℕ
block_word h = uint64 h.number

unfoldable pub block_key : Header → ℤ
block_key h = int64_of_word (block_word h)

pub record CacheItem : Type 0 where
  pub header : Header
  pub frequency : ℤ

pub record LfuHeaderCache : Type 0 where
  pub capacity : ℕ
  pub cache : Map ℤ CacheItem

unfoldable pub new_lfu_block_cache : ℕ → LfuHeaderCache
new_lfu_block_cache capacity = record { capacity = capacity; cache = [] }

-- `frequency + 1` of an int
unfoldable pub next_frequency : ℤ → ℤ
next_frequency f = int64 (f +ℤ pos 1)

unfoldable pub get : LfuHeaderCache → ℤ → LfuHeaderCache × Option Header
get c block_number = elim (lookup ℤ_discrete block_number c.cache) [
  | none ↦ (c, none)
  | some item ↦ (
    record c {
      cache =
          insert ℤ_discrete block_number (record item { frequency = next_frequency item.frequency })
            c.cache;
    },
    some item.header,
  )
]

-- The variables of the loop in `evict`.
pub record Victim : Type 0 where
  pub least_freq : ℤ
  pub evict_key : ℤ
  pub oldest : ℕ

abbrev pub no_victim : Victim
no_victim = record { least_freq = pos (two63 - 1); evict_key = pos 0; oldest = two64 - 1 }

unfoldable pub evict_step : Victim → ℤ → CacheItem → Victim
evict_step s key item =
    if ltb_ℤ item.frequency s.least_freq
    then record { least_freq = item.frequency; evict_key = key; oldest = block_word item.header }
    else if holds (ℤ_discrete item.frequency s.least_freq) && ltb (block_word item.header) s.oldest
    then record s { evict_key = key; oldest = block_word item.header }
    else s

unfoldable pub evict_loop : Victim → Map ℤ CacheItem → Victim
evict_loop s [] = s
evict_loop s ((key, item) ∷ rest) = evict_loop (evict_step s key item) rest

unfoldable pub evict : LfuHeaderCache → LfuHeaderCache
evict c = record c { cache = delete ℤ_discrete (evict_loop no_victim c.cache).evict_key c.cache }

-- `if uint64(len(c.cache)) >= c.capacity { c.evict() }`
unfoldable pub make_room : LfuHeaderCache → LfuHeaderCache
make_room c = if leb c.capacity (length c.cache) then evict c else c

unfoldable pub store : LfuHeaderCache → Header → ℤ → LfuHeaderCache
store c h f = record c {
  cache = insert ℤ_discrete (block_key h) (record { header = h; frequency = f }) c.cache;
}

-- `none` is a nil header.
unfoldable pub set : LfuHeaderCache → Option Header → LfuHeaderCache × Option Error
set c none = (c, some (plain (codes "header is nil")))
set c (some h) = elim (lookup ℤ_discrete (block_key h) c.cache) [
  | some old ↦ (store c h (next_frequency old.frequency), none)
  | none ↦ (store (make_room c) h (pos 1), none)
]
