-- ===== src/HeaderCache/Valid.antt =====
-- The invariant of the header cache, over any sequence of calls of `Get` and `Set`.
use Prim.Native.Nat.{max}
use seth.Prelude.{
  ℕ, ◌+◌, ◌-◌, ◌≤◌, ◌<◌, ◌≡◌, refl, inl, inr, Option, none, some, [], ◌∷◌, arith, length, leb, ltb,
  ltb→lt, Bool-cases, Option-cases,
}
use seth.Prelude.Int.{ℤ, pos, ◌+ℤ◌, ◌≤ℤ◌, ◌<ℤ◌, ℤ_discrete}
use seth.Prelude.Words.{two63, int64}
use seth.Prelude.Map.{
  Map, lookup, insert, Distinct, lookup-insert, insert-Distinct, delete-Distinct,
  length-insert_found, length-delete-le, length-insert-le, length-delete_found,
}
use seth.HeaderCache.{
  Header, CacheItem, LfuHeaderCache, new_lfu_block_cache, get, set, make_room, store, evict,
  evict_loop, no_victim, next_frequency, block_key,
}
use seth.HeaderCache.Evict.{evict_choice, lookup-evict}

-- At most `capacity` entries, or one where the capacity is 0; each under the number of its header;
-- with a frequency from 1 to `n`.
pub record IsValid (n : ℕ) (c : LfuHeaderCache) : Type 0 where
  pub distinct : Distinct ℤ_discrete c.cache
  pub bounded : length c.cache ≤ max c.capacity 1
  pub keyed :
      (k : ℤ) (item : CacheItem)
      → lookup ℤ_discrete k c.cache ≡ some item
      → block_key item.header ≡ k
  pub counted :
      (k : ℤ) (item : CacheItem)
      → lookup ℤ_discrete k c.cache ≡ some item
      → (pos 1 ≤ℤ item.frequency) × (item.frequency ≤ℤ pos n)

next_frequency-eq :
    (n : ℕ) (f : ℤ)
    → pos 1 ≤ℤ f
    → f ≤ℤ pos n
    → n + 1 < two63
    → (pos 1 ≤ℤ next_frequency f) × (next_frequency f ≤ℤ pos (n + 1))
unfolding next_frequency int64 ◌+ℤ◌
next_frequency-eq n f lo hi h = ground arith

pub new-IsValid : (cap : ℕ) → IsValid 0 (new_lfu_block_cache cap)
unfolding new_lfu_block_cache lookup
new-IsValid cap = record {
  distinct = tt;
  bounded = omega arith;
  keyed = λ k item h. cc;
  counted = λ k item h. cc;
}

pub weaken : {n : ℕ} {c : LfuHeaderCache} → IsValid n c → IsValid (n + 1) c
weaken v = record {
  distinct = v.distinct;
  bounded = v.bounded;
  keyed = v.keyed;
  counted = λ k item h. let b = v.counted k item h in omega arith;
}

-- Writing one entry keeps the invariant, if the number of entries stays in bounds.
insert-IsValid :
    (n : ℕ) (c : LfuHeaderCache) (k : ℤ) (item : CacheItem)
    → IsValid n c
    → block_key item.header ≡ k
    → (pos 1 ≤ℤ item.frequency) × (item.frequency ≤ℤ pos n)
    → length (insert ℤ_discrete k item c.cache) ≤ max c.capacity 1
    → IsValid n (record c { cache = insert ℤ_discrete k item c.cache })
insert-IsValid n c k item v key b room = record {
  distinct = insert-Distinct ℤ_discrete k item c.cache v.distinct;
  bounded = room;
  keyed = λ j it q. ground (arith, key, v.keyed j it, lookup-insert ℤ_discrete k j item c.cache);
  counted = λ j it q. ground (arith, v.counted j it, b, lookup-insert ℤ_discrete k j item c.cache);
}

pub get-IsValid :
    (n : ℕ) (c : LfuHeaderCache) (k : ℤ) → IsValid n c → n + 1 < two63 → IsValid (n + 1) (get c k).0
unfolding get
get-IsValid n c k v h = elim (Option-cases (lookup ℤ_discrete k c.cache)) [
  | inl e ↦ rw (e, get) (weaken v)
  | inr (item, e) ↦
      let b = v.counted k item e in
      let new : CacheItem = record item { frequency = next_frequency item.frequency } in
      rw (e, get)
        (insert-IsValid (n + 1) c k new (weaken v) (v.keyed k item e)
          (next_frequency-eq n item.frequency b.0 b.1 h)
          (omega (arith, v.bounded, length-insert_found ℤ_discrete k new item c.cache e)))
]

pub below-Countable :
    (n : ℕ) (c : LfuHeaderCache) (k : ℤ) (item : CacheItem)
    → IsValid n c
    → n + 1 < two63
    → lookup ℤ_discrete k c.cache ≡ some item
    → item.frequency <ℤ pos (two63 - 1)
below-Countable n c k item v h e = let b = v.counted k item e in omega arith

-- A cache with an entry: its first key is present.
first_present :
    (m : Map ℤ CacheItem)
    → 0 < length m
    → (k : ℤ) × (item : CacheItem) × (lookup ℤ_discrete k m ≡ some item)
unfolding lookup
first_present [] h = absurd (omega arith)
first_present ((k, item) ∷ m) h = (k, item, ground arith)

evict-IsValid : (n : ℕ) (c : LfuHeaderCache) → IsValid n c → IsValid n (evict c)
unfolding evict
evict-IsValid n c v =
    let r = (evict_loop no_victim c.cache).evict_key in
    record {
      distinct = delete-Distinct ℤ_discrete r c.cache v.distinct;
      bounded = omega (arith, v.bounded, length-delete-le ℤ_discrete r c.cache);
      keyed = λ j it q. ground (arith, v.keyed j it, lookup-evict c j v.distinct);
      counted = λ j it q. ground (arith, v.counted j it, lookup-evict c j v.distinct);
    }

-- Eviction makes room for one more entry.
length-evict :
    (n : ℕ) (c : LfuHeaderCache)
    → IsValid n c
    → n + 1 < two63
    → 0 < length c.cache
    → length (evict c).cache + 1 ≡ length c.cache
unfolding evict
length-evict n c v h some_entry =
    let (j, present, e) = first_present c.cache some_entry in
    let entry =
      evict_choice c.cache j present v.distinct (λ k item q. below-Countable n c k item v h q) e in
    length-delete_found ℤ_discrete (evict_loop no_victim c.cache).evict_key entry.0.0 c.cache
      entry.0.1

length-evict-le : (c : LfuHeaderCache) → length (evict c).cache ≤ length c.cache
unfolding evict
length-evict-le c = length-delete-le ℤ_discrete (evict_loop no_victim c.cache).evict_key c.cache

make_room-IsValid : (n : ℕ) (c : LfuHeaderCache) → IsValid n c → IsValid n (make_room c)
unfolding make_room
make_room-IsValid n c v = elim (Bool-cases (leb c.capacity (length c.cache))) [
  | inl full ↦ rw full (evict-IsValid n c v)
  | inr room ↦ rw room v
]

capacity-make_room : (c : LfuHeaderCache) → (make_room c).capacity ≡ c.capacity
unfolding make_room evict
capacity-make_room c = ground arith

length-make_room :
    (n : ℕ) (c : LfuHeaderCache)
    → IsValid n c
    → n + 1 < two63
    → length (make_room c).cache + 1 ≤ max c.capacity 1
unfolding make_room
length-make_room n c v h = elim (Bool-cases (leb c.capacity (length c.cache))) [
  | inl full ↦ elim (Bool-cases (ltb 0 (length c.cache))) [
    | inl some_entry ↦
        rw full (omega (arith, v.bounded, length-evict n c v h (ltb→lt _ _ some_entry)))
    | inr empty ↦ ground (arith, length-evict-le c)
  ]
  | inr room ↦ rw room (ground arith)
]

store-IsValid :
    (n : ℕ) (c : LfuHeaderCache) (h : Header) (f : ℤ)
    → IsValid n c
    → (pos 1 ≤ℤ f) × (f ≤ℤ pos n)
    → length (store c h f).cache ≤ max c.capacity 1
    → IsValid n (store c h f)
unfolding store
store-IsValid n c h f v b room =
    insert-IsValid n c (block_key h) (record { header = h; frequency = f }) v refl b room

pub set-IsValid :
    (n : ℕ) (c : LfuHeaderCache) (h : Option Header)
    → IsValid n c
    → n + 1 < two63
    → IsValid (n + 1) (set c h).0
unfolding set store
set-IsValid n c none v small = weaken v
set-IsValid n c (some h) v small = elim (Option-cases (lookup ℤ_discrete (block_key h) c.cache)) [
  | inl e ↦
      rw (e, set)
        (store-IsValid (n + 1) (make_room c) h (pos 1) (weaken (make_room-IsValid n c v))
          (omega arith)
          (omega (
            arith,
            length-insert-le ℤ_discrete (block_key h) (record { header = h; frequency = pos 1 })
                (make_room c).cache,
            length-make_room n c v small,
            capacity-make_room c,
          )))
  | inr (item, e) ↦
      let b = v.counted (block_key h) item e in
      rw (e, set)
        (store-IsValid (n + 1) c h (next_frequency item.frequency) (weaken v)
          (next_frequency-eq n item.frequency b.0 b.1 small)
          (omega (
            arith,
            v.bounded,
            length-insert_found ℤ_discrete (block_key h)
                (record { header = h; frequency = next_frequency item.frequency }) item c.cache e,
          )))
]
