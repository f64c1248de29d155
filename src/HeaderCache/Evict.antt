-- ===== src/HeaderCache/Evict.antt =====
-- `evict` of header_cache.go: which entry the loop over the map chooses.
use seth.Prelude.{
  ℕ, ◌-◌, ◌≤◌, ◌≡◌, refl, ◌⊎◌, inl, inr, none, some, [], ◌∷◌, arith, All, ite, ◌∙◌, ap,
}
use mathlib.Core.Path.{subst}
use seth.Prelude.Int.{ℤ, pos, ◌≤ℤ◌, ◌<ℤ◌, ℤ_discrete}
use seth.Prelude.Words.{two63}
use seth.Prelude.Map.{Map, lookup, Distinct, lookup-delete}
use seth.HeaderCache.{
  CacheItem, LfuHeaderCache, Victim, no_victim, evict_step, evict_loop, evict, block_word,
}

-- `s` goes before an entry of frequency `f` and block number `w`: it is used less often, or as
-- often and is not newer.
abbrev pub Before : Victim → ℤ → ℕ → Type 0
Before s f w = (s.least_freq ≤ℤ f) × (f ≤ℤ s.least_freq → s.oldest ≤ w)

abbrev pub BeforeItem : Victim → CacheItem → Type 0
BeforeItem s item = Before s item.frequency (block_word item.header)

abbrev of_entry : ℤ → CacheItem → Victim
of_entry k item = record {
  least_freq = item.frequency;
  evict_key = k;
  oldest = block_word item.header;
}

Before-trans :
    (r s : Victim) (f : ℤ) (w : ℕ) → Before r s.least_freq s.oldest → Before s f w → Before r f w
Before-trans r s f w h k = omega arith

evict_step-Before :
    (s : Victim) (k : ℤ) (item : CacheItem)
    → Before (evict_step s k item) s.least_freq s.oldest × BeforeItem (evict_step s k item) item
unfolding evict_step
evict_step-Before s k item = ground arith

evict_step_cases :
    (s : Victim) (k : ℤ) (item : CacheItem)
    → (evict_step s k item ≡ s) ⊎ (evict_step s k item ≡ of_entry k item)
unfolding evict_step
evict_step_cases s k item = ground arith

-- What the loop leaves goes before what it started with, and before every entry.
evict_loop-Before :
    (s : Victim) (m : Map ℤ CacheItem)
    → Before (evict_loop s m) s.least_freq s.oldest × All (λ e. BeforeItem (evict_loop s m) e.1) m
unfolding evict_loop
evict_loop-Before s [] = omega arith
evict_loop-Before s ((k, item) ∷ rest) =
    let s' = evict_step s k item in
    let ih = evict_loop-Before s' rest in
    let st = evict_step-Before s k item in
    (
      Before-trans (evict_loop s' rest) s' s.least_freq s.oldest ih.0 st.0,
      (
        Before-trans (evict_loop s' rest) s' item.frequency (block_word item.header) ih.0 st.1,
        ih.1,
      ),
    )

-- It is what the loop started with, or an entry of the map.
abbrev IsEntry : Victim → Map ℤ CacheItem → Type 0
IsEntry r m =
    (item : CacheItem) × (lookup ℤ_discrete r.evict_key m ≡ some item)
    × (r ≡ of_entry r.evict_key item)

evict_loop_cases :
    (s : Victim) (m : Map ℤ CacheItem)
    → Distinct ℤ_discrete m
    → (evict_loop s m ≡ s) ⊎ IsEntry (evict_loop s m) m
unfolding evict_loop lookup
evict_loop_cases s [] d = inl refl
evict_loop_cases s ((k, item) ∷ rest) d = elim (evict_loop_cases (evict_step s k item) rest d.1) [
  | inl e ↦ elim (evict_step_cases s k item) [
    | inl same ↦ inl (e ∙ same)
    | inr new ↦
        inr
          (item, ground (arith, ap (λ (r : Victim). r.evict_key) (e ∙ new)), ground (arith, e, new))
  ]
  | inr (it, found, e) ↦ inr (it, ground (arith, d.0), e)
]

lookup-All :
    (P : CacheItem → Type 0) (m : Map ℤ CacheItem) (k : ℤ) (item : CacheItem)
    → All (λ e. P e.1) m
    → lookup ℤ_discrete k m ≡ some item
    → P item
unfolding lookup
lookup-All P [] k item a h = cc
lookup-All P ((j, it) ∷ m) k item a h = elim (ℤ_discrete j k) [
  | yes p ↦ let e : it ≡ item = ground arith in subst P e a.0
  | no p ↦ lookup-All P m k item a.1 (ground arith)
]

-- Every frequency is below the initial value of `leastFreq`.
abbrev pub Countable : Map ℤ CacheItem → Type 0
Countable m =
    (k : ℤ) (item : CacheItem)
    → lookup ℤ_discrete k m ≡ some item
    → item.frequency <ℤ pos (two63 - 1)

-- The entry that `evict` removes from a cache that is not empty: it is in the cache, and goes
-- before every entry of it.
pub evict_choice :
    (m : Map ℤ CacheItem) (j : ℤ) (present : CacheItem)
    → Distinct ℤ_discrete m
    → Countable m
    → lookup ℤ_discrete j m ≡ some present
    → IsEntry (evict_loop no_victim m) m
      × ((k : ℤ) (item : CacheItem)
          → lookup ℤ_discrete k m ≡ some item
          → BeforeItem (evict_loop no_victim m) item)
evict_choice m j present d c h =
    let before = λ (k : ℤ) (item : CacheItem).
      lookup-All (BeforeItem (evict_loop no_victim m)) m k item (evict_loop-Before no_victim m).1 in
    (
      elim (evict_loop_cases no_victim m d) [
        | inl e ↦ absurd (grind (arith, c j present h, before j present h, e))
        | inr entry ↦ entry
      ],
      before,
    )

-- `evict` drops one entry of a cache that holds one, and no other.
pub lookup-evict :
    (c : LfuHeaderCache) (k : ℤ)
    → Distinct ℤ_discrete c.cache
    → lookup ℤ_discrete k (evict c).cache
      ≡ ite
          (ℤ_discrete (evict_loop no_victim c.cache).evict_key k)
          none
          (lookup ℤ_discrete k c.cache)
unfolding evict
lookup-evict c k d = lookup-delete ℤ_discrete (evict_loop no_victim c.cache).evict_key k c.cache d
