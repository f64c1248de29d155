-- ===== src/Tests/HeaderCache.antt =====
-- The header cache on concrete calls.
use seth.Prelude.{ℕ, ◌≡◌, refl, some, List, [], ◌∷◌, arith, ℕ_discrete}
use seth.Prelude.Int.{ℤ, pos, ◌+ℤ◌, ℤ_discrete}
use seth.Prelude.Words.{uint64, int64, int64_of_word}
use seth.Prelude.Map.{lookup, insert, delete}
use seth.HeaderCache
use seth.HeaderCache.{
  Header, CacheItem, LfuHeaderCache, new_lfu_block_cache, make_room, store, evict_step, evict_loop,
  evict, next_frequency, block_key, block_word, set,
}
use seth.HeaderCache.Valid.{IsValid}
use seth.HeaderCache.Behaviour.{Call, step, run, run-IsValid, evicted, evict_order}

program : Unit {0}
unfolding HeaderCache.get set new_lfu_block_cache make_room store evict_step evict_loop evict
    next_frequency block_key block_word step run lookup insert delete ℤ_discrete uint64 int64
    int64_of_word ◌+ℤ◌ ℕ_discrete
program = tt

abbrev header : ℕ → Header
header n = record { number = n; gas_used = 5; gas_limit = 10 }

-- Blocks 1 and 2 are stored, block 1 is read, and block 3 comes: block 2 is evicted.
abbrev calls : List Call
calls =
    Call.set (some (header 1))
    ∷ Call.set (some (header 2))
    ∷ Call.get (pos 1)
    ∷ Call.set (some (header 3))
    ∷ []

abbrev two : LfuHeaderCache
two = record {
  capacity = 2;
  cache =
      (pos 1, record { header = header 1; frequency = pos 2 })
      ∷ (pos 2, record { header = header 2; frequency = pos 1 })
      ∷ [];
}

abbrev swapped : LfuHeaderCache
swapped = record {
  capacity = 2;
  cache =
      (pos 2, record { header = header 2; frequency = pos 1 })
      ∷ (pos 1, record { header = header 1; frequency = pos 2 })
      ∷ [];
}

run-calls :
    (run (new_lfu_block_cache 2) calls).cache
    ≡ (pos 1, record { header = header 1; frequency = pos 2 })
      ∷ (pos 3, record { header = header 3; frequency = pos 1 })
      ∷ []
unfolding program
run-calls = refl

run-IsValid_example : IsValid 4 (run (new_lfu_block_cache 2) calls)
run-IsValid_example = run-IsValid 2 calls (omega arith)

two-IsValid : IsValid 3 two
unfolding program
two-IsValid =
    run-IsValid 2 (Call.set (some (header 1)) ∷ Call.set (some (header 2)) ∷ Call.get (pos 1) ∷ [])
      (omega arith)

swapped-IsValid : IsValid 3 swapped
unfolding program
swapped-IsValid =
    run-IsValid 2 (Call.set (some (header 2)) ∷ Call.set (some (header 1)) ∷ Call.get (pos 1) ∷ [])
      (omega arith)

two_present :
    lookup ℤ_discrete (pos 1) two.cache ≡ some (record { header = header 1; frequency = pos 2 })
unfolding program
two_present = refl

swapped_same : (k : ℤ) → lookup ℤ_discrete k two.cache ≡ lookup ℤ_discrete k swapped.cache
unfolding lookup
swapped_same k = ground arith

evict_order_example : evicted two ≡ evicted swapped
evict_order_example =
    evict_order 3 two swapped (pos 1) (record { header = header 1; frequency = pos 2 }) two-IsValid
      swapped-IsValid (omega arith) swapped_same two_present
