-- ===== src/GasAdjuster/Headers/Waits.antt =====
-- What becomes of CalculateNetworkCongestionMetric when the node does not give a header.
use seth.Prelude.{
  ℕ, zero, suc, ◌+◌, ◌≤◌, ◌<◌, ◌≡◌, ◌≢◌, none, some, List, [], ◌∷◌, ◌++◌, map, arith, length,
  Option-cases, ⊎-cases, ◌⊎◌, inl, inr, sym, ◌∙◌, ap, subst, get_elem?,
}
use seth.Prelude.Int.{ℤ, pos, ℤ_discrete}
use seth.Prelude.Words.{two63, int64_of_word}
use seth.Prelude.Map.{lookup, lookup-insert}
use seth.Prelude.Errors.{Error}
use seth.HeaderCache
use seth.HeaderCache.{
  Header, LfuHeaderCache, CacheItem, block_key, store, make_room, evict, evict_loop, no_victim,
  next_frequency,
}
use seth.HeaderCache.Evict.{lookup-evict}
use seth.HeaderCache.Valid.{IsValid}
use seth.GasAdjuster.Headers.{
  HeaderNode, Task, wanted, asked, sending, received, failed, Fetching, fetch_header, step_task,
  move_at, run_tasks, waiting, started,
}
use seth.GasAdjuster.Headers.Gathered.{IsHonest, move_at-Kept}

abbrev pub IsAbsent : LfuHeaderCache → ℤ → Type 0
IsAbsent c k = lookup ℤ_discrete k c.cache ≡ none

pub get-IsAbsent :
    (c : LfuHeaderCache) (j k : ℤ) → IsAbsent c k → IsAbsent (HeaderCache.get c j).0 k
unfolding HeaderCache.get
get-IsAbsent c j k a = elim (Option-cases (lookup ℤ_discrete j c.cache)) [
  | inl e ↦ rw (e, HeaderCache.get) a
  | inr (item, e) ↦ ground (
    arith,
    e,
    lookup-insert ℤ_discrete j k (record item { frequency = next_frequency item.frequency })
        c.cache,
  )
]

store-IsAbsent :
    (c : LfuHeaderCache) (h : Header) (f k : ℤ)
    → block_key h ≢ k
    → IsAbsent c k
    → IsAbsent (store c h f) k
unfolding store
store-IsAbsent c h f k d a = ground (
  arith,
  d,
  lookup-insert ℤ_discrete (block_key h) k (record { header = h; frequency = f }) c.cache,
)

set-IsAbsent :
    (n : ℕ) (c : LfuHeaderCache) (h : Header) (k : ℤ)
    → IsValid n c
    → block_key h ≢ k
    → IsAbsent c k
    → IsAbsent (HeaderCache.set c (some h)).0 k
unfolding HeaderCache.set make_room
set-IsAbsent n c h k v d a = elim (Option-cases (lookup ℤ_discrete (block_key h) c.cache)) [
  | inr (old, e) ↦ rw (e, HeaderCache.set) (store-IsAbsent c h (next_frequency old.frequency) k d a)
  | inl e ↦
      rw (e, HeaderCache.set)
        (store-IsAbsent (make_room c) h (pos 1) k d (ground (arith, lookup-evict c k v.distinct)))
]

-- A goroutine that wants, asked for or failed to get the header of a number.
abbrev IsFor : ℤ → Task → Type 0
IsFor k (wanted b) = int64_of_word b ≡ k
IsFor k (asked b) = int64_of_word b ≡ k
IsFor k (sending h) = ⊥
IsFor k received = ⊥
IsFor k (failed b) = int64_of_word b ≡ k

abbrev Has : ℤ → List Task → Type 0
Has k [] = ⊥
Has k (t ∷ ts) = IsFor k t ⊎ Has k ts

Has-waiting : (k : ℤ) (ts : List Task) → Has k ts → 1 ≤ waiting ts
unfolding waiting
Has-waiting k [] h = absurd h
Has-waiting k (wanted b ∷ ts) h = omega arith
Has-waiting k (asked b ∷ ts) h = omega arith
Has-waiting k (sending x ∷ ts) h = omega arith
Has-waiting k (failed b ∷ ts) h = omega arith
Has-waiting k (received ∷ ts) (inl h) = absurd h
Has-waiting k (received ∷ ts) (inr h) = Has-waiting k ts h

module _ (node : HeaderNode) (honest : IsHonest node) (k : ℤ) {e : Error}
    (fails : node.header_by_number k ≡ inl e) where
  other_key : (j : ℤ) (h : Header) → node.header_by_number j ≡ inr h → block_key h ≢ k
  other_key j h answer same = cc (ap node.header_by_number (sym (honest j h answer) ∙ same))

  pub fetch_header-IsAbsent :
      (n : ℕ) (c : LfuHeaderCache) (j : ℤ)
      → IsValid n c
      → IsAbsent c k
      → IsAbsent (fetch_header node c j).0 k
  unfolding fetch_header
  fetch_header-IsAbsent n c j v a = elim (⊎-cases (node.header_by_number j)) [
    | inl (x, q) ↦ rw (q, fetch_header) a
    | inr (h, q) ↦ rw (q, fetch_header) (set-IsAbsent n c h k v (other_key j h q) a)
  ]

  step_task-IsAbsent :
      (n : ℕ) (c : LfuHeaderCache) (headers : List Header) (t : Task)
      → IsValid n c
      → IsAbsent c k
      → IsAbsent (step_task node c headers t).cache k
  unfolding step_task
  step_task-IsAbsent n c headers (wanted b) v a = get-IsAbsent c (int64_of_word b) k a
  step_task-IsAbsent n c headers (asked b) v a = fetch_header-IsAbsent n c (int64_of_word b) v a
  step_task-IsAbsent n c headers (sending h) v a = a
  step_task-IsAbsent n c headers received v a = a
  step_task-IsAbsent n c headers (failed b) v a = a

  Has-append : (ts us : List Task) → Has k us → Has k (ts ++ us)
  Has-append [] us h = h
  Has-append (t ∷ ts) us h = inr (Has-append ts us h)

  get-absent : (c : LfuHeaderCache) (j : ℤ) → IsAbsent c j → (HeaderCache.get c j).1 ≡ none
  unfolding HeaderCache.get
  get-absent c j a = rw (a, HeaderCache.get)

  asks :
      (c : LfuHeaderCache) (headers : List Header) (b : ℕ)
      → (HeaderCache.get c (int64_of_word b)).1 ≡ none
      → (step_task node c headers (wanted b)).tasks ≡ asked b ∷ []
  unfolding step_task
  asks c headers b h = ground (arith, h)

  fails_then :
      (c : LfuHeaderCache) (headers : List Header) (b : ℕ)
      → int64_of_word b ≡ k
      → (step_task node c headers (asked b)).tasks ≡ failed b ∷ []
  unfolding step_task fetch_header
  fails_then c headers b h = ground (arith, ap node.header_by_number h ∙ fails)

  failed_stays :
      (c : LfuHeaderCache) (headers : List Header) (b : ℕ) (ts : List Task)
      → int64_of_word b ≡ k
      → Has k ((step_task node c headers (failed b)).tasks ++ ts)
  unfolding step_task
  failed_stays c headers b ts h = inl h

  step_task-Has :
      (c : LfuHeaderCache) (headers : List Header) (t : Task) (ts : List Task)
      → IsAbsent c k
      → Has k (t ∷ ts)
      → Has k ((step_task node c headers t).tasks ++ ts)
  step_task-Has c headers t ts a (inr h) = Has-append (step_task node c headers t).tasks ts h
  step_task-Has c headers (wanted b) ts a (inl h) =
      subst (λ us. Has k (us ++ ts))
        (sym (asks c headers b (get-absent c (int64_of_word b) (subst (IsAbsent c) (sym h) a))))
        (inl h)
  step_task-Has c headers (asked b) ts a (inl h) =
      subst (λ us. Has k (us ++ ts)) (sym (fails_then c headers b h)) (inl h)
  step_task-Has c headers (sending x) ts a (inl h) = absurd h
  step_task-Has c headers received ts a (inl h) = absurd h
  step_task-Has c headers (failed b) ts a (inl h) = failed_stays c headers b ts h

  move_at-IsAbsent :
      (n : ℕ) (c : LfuHeaderCache) (headers : List Header) (ts : List Task) (i : ℕ)
      → IsValid n c
      → IsAbsent c k
      → IsAbsent (move_at node c headers ts i).cache k
  unfolding move_at
  move_at-IsAbsent n c headers [] i v a = a
  move_at-IsAbsent n c headers (t ∷ ts) zero v a = step_task-IsAbsent n c headers t v a
  move_at-IsAbsent n c headers (t ∷ ts) (suc i) v a = move_at-IsAbsent n c headers ts i v a

  move_at-Has :
      (n : ℕ) (c : LfuHeaderCache) (headers : List Header) (ts : List Task) (i : ℕ)
      → IsValid n c
      → IsAbsent c k
      → Has k ts
      → IsAbsent (move_at node c headers ts i).cache k × Has k (move_at node c headers ts i).tasks
  unfolding move_at
  move_at-Has n c headers [] i v a h = absurd h
  move_at-Has n c headers (t ∷ ts) zero v a h =
      (step_task-IsAbsent n c headers t v a, step_task-Has c headers t ts a h)
  move_at-Has n c headers (t ∷ ts) (suc i) v a (inl h) =
      (move_at-IsAbsent n c headers ts i v a, inl h)
  move_at-Has n c headers (t ∷ ts) (suc i) v a (inr h) =
      let (a', h') = move_at-Has n c headers ts i v a h in (a', inr h')

  run_tasks-Has :
      (n : ℕ) (s : Fetching) (is : List ℕ)
      → IsValid n s.cache
      → n + length is < two63
      → IsAbsent s.cache k
      → Has k s.tasks
      → Has k (run_tasks node s is).tasks
  unfolding run_tasks
  run_tasks-Has n s [] v w a h = h
  run_tasks-Has n s (i ∷ is) v w a h =
      let (valid, same) = move_at-Kept node honest n s.cache s.headers s.tasks i v (omega arith) in
      let (a', h') = move_at-Has n s.cache s.headers s.tasks i v a h in
      run_tasks-Has (n + 1) (move_at node s.cache s.headers s.tasks i) is valid (omega arith) a' h'

  started-Has :
      (b i : ℕ) (blocks : List ℕ)
      → get_elem? blocks i ≡ some b
      → int64_of_word b ≡ k
      → Has k (map wanted blocks)
  started-Has b i [] h q = cc
  started-Has b zero (c ∷ blocks) h q = inl (ground (arith, h, q))
  started-Has b (suc i) (c ∷ blocks) h q = inr (started-Has b i blocks h q)

  -- With a node that answers for each number with a header of that number or an error, a valid cache
  -- of which the calls so far and the moves of the goroutines are fewer than 2 ^ 63: if the loop asks
  -- for a block that is not in the cache and whose header the node does not give, then the wait
  -- group's counter is never 0, in whatever order the goroutines run: CalculateNetworkCongestionMetric
  -- does not return.
  pub run_tasks-waits :
      (n : ℕ) (cache : LfuHeaderCache) (last : Header) (b i : ℕ) (blocks moves : List ℕ)
      → IsValid n cache
      → n + length moves < two63
      → get_elem? blocks i ≡ some b
      → int64_of_word b ≡ k
      → lookup ℤ_discrete k cache.cache ≡ none
      → 1 ≤ waiting (run_tasks node (started cache last blocks) moves).tasks
  unfolding started
  run_tasks-waits n cache last b i blocks moves v w h q a =
      Has-waiting k (run_tasks node (started cache last blocks) moves).tasks
        (run_tasks-Has n (started cache last blocks) moves v w a (started-Has b i blocks h q))
