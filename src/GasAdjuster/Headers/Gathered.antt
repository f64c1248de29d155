-- ===== src/GasAdjuster/Headers/Gathered.antt =====
-- What the goroutines gather, in whatever order they run.
use native.Mathlib.Nat.{add-zero}
use seth.Prelude.{
  ℕ, zero, suc, ◌+◌, ◌<◌, ◌∙◌, ◌≡◌, refl, some, List, [], ◌∷◌, ◌++◌, map, arith, length,
  Option-cases, ⊎-cases, inl, inr, holds, if◌then◌else◌,
}
use seth.Prelude.Int.{ℤ, ℤ_discrete}
use seth.Prelude.Words.{two63, int64_of_word}
use seth.Prelude.Map.{lookup}
use seth.HeaderCache
use seth.HeaderCache.Behaviour.{shift}
use seth.HeaderCache.{Header, LfuHeaderCache, block_key}
use seth.HeaderCache.Valid.{IsValid, weaken, get-IsValid, set-IsValid}
use seth.GasAdjuster.Headers.{
  HeaderNode, Task, wanted, asked, sending, received, failed, Fetching, fetch_header, step_task,
  move_at, run_tasks, waiting, started,
}

-- How many of the headers have a number.
abbrev pub count_headers : ℤ → List Header → ℕ
count_headers k [] = 0
count_headers k (h ∷ hs) =
    (if holds (ℤ_discrete (block_key h) k) then 1 else 0) + count_headers k hs

abbrev pub count_blocks : ℤ → List ℕ → ℕ
count_blocks k [] = 0
count_blocks k (n ∷ ns) =
    (if holds (ℤ_discrete (int64_of_word n) k) then 1 else 0) + count_blocks k ns

-- How many of the goroutines still have to hand over the header of a number.
abbrev pub task_count : ℤ → Task → ℕ
task_count k (wanted n) = count_blocks k (n ∷ [])
task_count k (asked n) = count_blocks k (n ∷ [])
task_count k (sending h) = count_headers k (h ∷ [])
task_count k received = 0
task_count k (failed n) = count_blocks k (n ∷ [])

abbrev pub task_counts : ℤ → List Task → ℕ
task_counts k [] = 0
task_counts k (t ∷ ts) = task_count k t + task_counts k ts

-- The node answers for a number with the header of that number.
abbrev pub IsHonest : HeaderNode → Type 0
IsHonest node = (bn : ℤ) (h : Header) → node.header_by_number bn ≡ inr h → block_key h ≡ bn

count_headers-snoc :
    (k : ℤ) (hs : List Header) (h : Header)
    → count_headers k (hs ++ h ∷ []) ≡ count_headers k hs + count_headers k (h ∷ [])
count_headers-snoc k [] h = omega arith
count_headers-snoc k (g ∷ hs) h = omega (arith, count_headers-snoc k hs h)

task_counts-append :
    (k : ℤ) (ts us : List Task) → task_counts k (ts ++ us) ≡ task_counts k ts + task_counts k us
task_counts-append k [] us = omega arith
task_counts-append k (t ∷ ts) us = omega (arith, task_counts-append k ts us)

task_counts-started : (k : ℤ) (ns : List ℕ) → task_counts k (map wanted ns) ≡ count_blocks k ns
task_counts-started k [] = refl
task_counts-started k (n ∷ ns) = omega (arith, task_counts-started k ns)

get_found-key :
    (n : ℕ) (c : LfuHeaderCache) (k : ℤ) (h : Header)
    → IsValid n c
    → (HeaderCache.get c k).1 ≡ some h
    → block_key h ≡ k
unfolding HeaderCache.get
get_found-key n c k h v e = elim (Option-cases (lookup ℤ_discrete k c.cache)) [
  | inl q ↦ absurd (ground (arith, q))
  | inr (item, q) ↦ ground (arith, q, v.keyed k item q)
]

module _ (node : HeaderNode) (honest : IsHonest node) where
  -- What a state of the goroutines keeps: a valid cache, and the number of headers of each number,
  -- with those that are still to come.
  abbrev pub Kept : ℕ → Fetching → Fetching → Type 0
  Kept n s s' =
      IsValid (n + 1) s'.cache
      × ((k : ℤ)
          → count_headers k s'.headers + task_counts k s'.tasks
            ≡ count_headers k s.headers + task_counts k s.tasks)

  step_task-Kept :
      (n : ℕ) (cache : LfuHeaderCache) (headers : List Header) (t : Task)
      → IsValid n cache
      → n + 1 < two63
      → Kept n
          (record { cache = cache; headers = headers; tasks = t ∷ [] })
          (step_task node cache headers t)
  unfolding step_task fetch_header
  step_task-Kept n cache headers (wanted b) v w =
      elim (Option-cases (HeaderCache.get cache (int64_of_word b)).1) [
        | inl e ↦ (get-IsValid n cache (int64_of_word b) v w, λ k. ground (arith, e))
        | inr (h, e) ↦ (
          get-IsValid n cache (int64_of_word b) v w,
          λ k. ground (arith, e, get_found-key n cache (int64_of_word b) h v e),
        )
      ]
  step_task-Kept n cache headers (asked b) v w =
      elim (⊎-cases (node.header_by_number (int64_of_word b))) [
        | inl (x, e) ↦ (ground (arith, e, weaken v), λ k. ground (arith, e))
        | inr (h, e) ↦ (
          ground (arith, e, set-IsValid n cache (some h) v w),
          λ k. ground (arith, e, honest (int64_of_word b) h e),
        )
      ]
  step_task-Kept n cache headers (sending h) v w =
      (weaken v, λ k. omega (arith, count_headers-snoc k headers h))
  step_task-Kept n cache headers received v w = (weaken v, λ k. refl)
  step_task-Kept n cache headers (failed b) v w = (weaken v, λ k. refl)

  pub move_at-Kept :
      (n : ℕ) (cache : LfuHeaderCache) (headers : List Header) (ts : List Task) (k : ℕ)
      → IsValid n cache
      → n + 1 < two63
      → Kept n
          (record { cache = cache; headers = headers; tasks = ts })
          (move_at node cache headers ts k)
  unfolding move_at
  move_at-Kept n cache headers [] k v w = (weaken v, λ j. refl)
  move_at-Kept n cache headers (t ∷ ts) zero v w =
      let (valid, same) = step_task-Kept n cache headers t v w in
      (
        valid,
        λ j. omega (arith, same j, task_counts-append j (step_task node cache headers t).tasks ts),
      )
  move_at-Kept n cache headers (t ∷ ts) (suc k) v w =
      let (valid, same) = move_at-Kept n cache headers ts k v w in
      (valid, λ j. omega (arith, same j))

  run_tasks-Kept :
      (n : ℕ) (s : Fetching) (ks : List ℕ)
      → IsValid n s.cache
      → n + length ks < two63
      → IsValid (n + length ks) (run_tasks node s ks).cache
        × ((k : ℤ)
            → count_headers k (run_tasks node s ks).headers
                + task_counts k (run_tasks node s ks).tasks
              ≡ count_headers k s.headers + task_counts k s.tasks)
  unfolding run_tasks
  run_tasks-Kept n s [] v w = (rw add-zero v, λ j. refl)
  run_tasks-Kept n s (k ∷ ks) v w =
      let (valid, same) = move_at-Kept n s.cache s.headers s.tasks k v (omega arith) in
      let (valid', same') =
        run_tasks-Kept (n + 1) (move_at node s.cache s.headers s.tasks k) ks valid (omega arith) in
      (rw (← shift n (length ks)) valid', λ j. same' j ∙ same j)

  none_waiting : (ts : List Task) (k : ℤ) → waiting ts ≡ 0 → task_counts k ts ≡ 0
  unfolding waiting
  none_waiting [] k h = refl
  none_waiting (received ∷ ts) k h = omega (arith, none_waiting ts k h)
  none_waiting (wanted b ∷ ts) k h = absurd (omega arith)
  none_waiting (asked b ∷ ts) k h = absurd (omega arith)
  none_waiting (sending x ∷ ts) k h = absurd (omega arith)
  none_waiting (failed b ∷ ts) k h = absurd (omega arith)

  -- With a node that answers for each number with a header of that number, and a valid cache of which
  -- the calls so far and the moves of the goroutines are fewer than 2 ^ 63: once the goroutines
  -- have all called wg.Done, in whatever order they ran, the headers are the one of the
  -- last block and one for each block of the loop, and no other; and the cache is valid.
  pub run_tasks-gathered :
      (n : ℕ) (cache : LfuHeaderCache) (last : Header) (blocks ks : List ℕ)
      → IsValid n cache
      → n + length ks < two63
      → waiting (run_tasks node (started cache last blocks) ks).tasks ≡ 0
      → IsValid (n + length ks) (run_tasks node (started cache last blocks) ks).cache
        × ((k : ℤ)
            → count_headers k (run_tasks node (started cache last blocks) ks).headers
              ≡ count_headers k (last ∷ []) + count_blocks k blocks)
  unfolding started
  run_tasks-gathered n cache last blocks ks v w h =
      let (valid, same) = run_tasks-Kept n (started cache last blocks) ks v w in
      (
        valid,
        λ k. omega (
          arith,
          same k,
          none_waiting (run_tasks node (started cache last blocks) ks).tasks k h,
          task_counts-started k blocks,
        ),
      )
