-- ===== src/HeaderCache/Behaviour.antt =====
-- What the calls of the header cache promise to a client, in any order and number.
use seth.Prelude.{
  ℕ, suc, ◌+◌, ◌≤◌, ◌<◌, ◌≡◌, ◌≢◌, Option, none, some, List, [], ◌∷◌, arith, length, ite, ap, sym,
  ◌∙◌, Option-cases, inl, inr,
}
use native.Mathlib.Nat.{add-zero, zero-add}
use mathlib.Core.Path.{subst}
use seth.Prelude.Int.{ℤ, pos, ◌≤ℤ◌, ℤ_discrete}
use seth.Prelude.Words.{two63, int64_of_word}
use seth.Prelude.Map.{lookup, lookup-insert}
use seth.HeaderCache
use seth.HeaderCache.{
  Header, CacheItem, LfuHeaderCache, Victim, new_lfu_block_cache, make_room, store, evict,
  evict_loop, no_victim, next_frequency, block_key, block_word,
}
use seth.HeaderCache.Evict.{evict_choice, lookup-evict, BeforeItem}
use seth.HeaderCache.Valid.{IsValid, new-IsValid, get-IsValid, set-IsValid, below-Countable}

-- The calls that a client makes.
pub data Call : Type 0 where
  get : ℤ → Call
  set : Option Header → Call

unfoldable pub step : LfuHeaderCache → Call → LfuHeaderCache
step c (get k) = (HeaderCache.get c k).0
step c (set h) = (HeaderCache.set c h).0

unfoldable pub run : LfuHeaderCache → List Call → LfuHeaderCache
unfolding step
run c [] = c
run c (call ∷ calls) = run (step c call) calls

pub shift : (n m : ℕ) → n + 1 + m ≡ n + suc m
shift n m = omega arith

step-IsValid :
    (n : ℕ) (c : LfuHeaderCache) (call : Call)
    → IsValid n c
    → n + 1 < two63
    → IsValid (n + 1) (step c call)
unfolding step
step-IsValid n c (get k) v h = get-IsValid n c k v h
step-IsValid n c (set x) v h = set-IsValid n c x v h

run-IsValid_from :
    (n : ℕ) (c : LfuHeaderCache) (calls : List Call)
    → IsValid n c
    → n + length calls < two63
    → IsValid (n + length calls) (run c calls)
unfolding run
run-IsValid_from n c [] v h = rw add-zero v
run-IsValid_from n c (call ∷ calls) v h = rw (← shift n (length calls)) (
    run-IsValid_from (n + 1) (step c call) calls (step-IsValid n c call v (omega arith))
      (omega arith))

-- From a new cache, fewer than 2 ^ 63 calls keep the invariant: at most `capacity` entries (one where
-- the capacity is 0), each key once and under the number of its header, and frequencies from 1 up to
-- the number of calls.
pub run-IsValid :
    (capacity : ℕ) (calls : List Call)
    → length calls < two63
    → IsValid (length calls) (run (new_lfu_block_cache capacity) calls)
run-IsValid capacity calls h =
    rw (zero-add (length calls)) at
      (run-IsValid_from 0 (new_lfu_block_cache capacity) calls (new-IsValid capacity) (omega arith))

lookup-store :
    (c : LfuHeaderCache) (h : Header) (f : ℤ) (k : ℤ)
    → lookup ℤ_discrete k (store c h f).cache
      ≡ ite
          (ℤ_discrete (block_key h) k)
          (some (record { header = h; frequency = f }))
          (lookup ℤ_discrete k c.cache)
unfolding store
lookup-store c h f k =
    lookup-insert ℤ_discrete (block_key h) k (record { header = h; frequency = f }) c.cache

get_found :
    (c : LfuHeaderCache) (k : ℤ) (item : CacheItem)
    → lookup ℤ_discrete k c.cache ≡ some item
    → (HeaderCache.get c k).1 ≡ some item.header
unfolding HeaderCache.get
get_found c k item e = rw (e, HeaderCache.get)

get-store :
    (c : LfuHeaderCache) (h : Header) (f : ℤ)
    → (HeaderCache.get (store c h f) (block_key h)).1 ≡ some h
get-store c h f =
    get_found (store c h f) (block_key h) (record { header = h; frequency = f })
      (ground (arith, lookup-store c h f (block_key h)))

-- Right after `Set` of a header, `Get` of its number returns that header, whether the number was
-- in the cache, there was room, or another entry had to be evicted.
pub get-set_self :
    (c : LfuHeaderCache) (h : Header)
    → (HeaderCache.get (HeaderCache.set c (some h)).0 (block_key h)).1 ≡ some h
unfolding HeaderCache.set
get-set_self c h = elim (Option-cases (lookup ℤ_discrete (block_key h) c.cache)) [
  | inl e ↦ rw (e, HeaderCache.set) (get-store (make_room c) h (pos 1))
  | inr (old, e) ↦ rw (e, HeaderCache.set) (get-store c h (next_frequency old.frequency))
]

-- The block number that `evict` removes.
abbrev pub evicted : LfuHeaderCache → ℤ
evicted c = (evict_loop no_victim c.cache).evict_key

Before-victim :
    (r : Victim) (key : ℤ) (victim item : CacheItem)
    → r
      ≡ record { least_freq = victim.frequency; evict_key = key; oldest = block_word victim.header }
    → BeforeItem r item
    → (victim.frequency ≤ℤ item.frequency)
      × (item.frequency ≤ℤ victim.frequency → block_word victim.header ≤ block_word item.header)
Before-victim r key victim item e h = subst (λ r'. BeforeItem r' item) e h

-- On a valid cache that holds an entry, `evict` removes an entry which is used less often than every
-- other, or as often and is not newer; all other entries stay as they are.
pub evict_least :
    (n : ℕ) (c : LfuHeaderCache) (j : ℤ) (present : CacheItem)
    → IsValid n c
    → n + 1 < two63
    → lookup ℤ_discrete j c.cache ≡ some present
    → (victim : CacheItem) × (lookup ℤ_discrete (evicted c) c.cache ≡ some victim)
      × (lookup ℤ_discrete (evicted c) (evict c).cache ≡ none)
      × ((k : ℤ) (item : CacheItem)
          → lookup ℤ_discrete k c.cache ≡ some item
          → k ≢ evicted c
          → (lookup ℤ_discrete k (evict c).cache ≡ some item)
            × (victim.frequency ≤ℤ item.frequency)
            × (item.frequency ≤ℤ victim.frequency
                → block_word victim.header ≤ block_word item.header))
evict_least n c j present v h e =
    let choice =
      evict_choice c.cache j present v.distinct (λ k item q. below-Countable n c k item v h q) e in
    let entry = choice.0 in
    (
      entry.0,
      entry.1,
      ground (arith, lookup-evict c (evicted c) v.distinct),
      λ k item q other.
          let b =
            Before-victim (evict_loop no_victim c.cache) (evicted c) entry.0 item entry.2
              (choice.1 k item q) in
          (ground (arith, lookup-evict c k v.distinct), b.0, b.1),
    )

block_key-eq : (a b : Header) → block_word a ≡ block_word b → block_key a ≡ block_key b
unfolding block_key
block_key-eq a b e = ap int64_of_word e

equal_words : (f g : ℤ) (x y : ℕ) → f ≤ℤ g → (g ≤ℤ f → x ≤ y) → g ≤ℤ f → (f ≤ℤ g → y ≤ x) → x ≡ y
equal_words f g x y a b c d = omega arith

-- The order in which Go visits the map does not matter: two valid caches with the same entries, in
-- whatever order, evict the same block.
pub evict_order :
    (n : ℕ) (c d : LfuHeaderCache) (j : ℤ) (present : CacheItem)
    → IsValid n c
    → IsValid n d
    → n + 1 < two63
    → ((k : ℤ) → lookup ℤ_discrete k c.cache ≡ lookup ℤ_discrete k d.cache)
    → lookup ℤ_discrete j c.cache ≡ some present
    → evicted c ≡ evicted d
evict_order n c d j present v w h same e =
    let first =
      evict_choice c.cache j present v.distinct (λ k item q. below-Countable n c k item v h q) e in
    let second =
      evict_choice d.cache j present w.distinct (λ k item q. below-Countable n d k item w h q)
        (sym (same j) ∙ e) in
    let a = first.0 in
    let b = second.0 in
    let ab =
      Before-victim (evict_loop no_victim c.cache) (evicted c) a.0 b.0 a.2
        (first.1 (evicted d) b.0 (same (evicted d) ∙ b.1)) in
    let ba =
      Before-victim (evict_loop no_victim d.cache) (evicted d) b.0 a.0 b.2
        (second.1 (evicted c) a.0 (sym (same (evicted c)) ∙ a.1)) in
    sym (v.keyed (evicted c) a.0 a.1)
    ∙ block_key-eq a.0.header b.0.header
        (equal_words a.0.frequency b.0.frequency _ _ ab.0 ab.1 ba.0 ba.1)
    ∙ w.keyed (evicted d) b.0 b.1
