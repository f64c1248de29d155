-- ===== src/GasAdjuster/Headers/Returns.antt =====
-- The goroutines of CalculateNetworkCongestionMetric end when the node gives every header.
use seth.Prelude.{
  ℕ, zero, suc, ◌+◌, ◌*◌, ◌≤◌, ◌≡◌, some, List, [], ◌∷◌, ◌++◌, map, arith, length, Option-cases,
  ⊎-cases, inl, inr, get_elem?, All, All-append, refl, subst, Bool-cases, ◌⊎◌, ◌==◌, zero,
}
use seth.Prelude.Int.{ℤ}
use seth.Prelude.Words.{int64_of_word}
use seth.HeaderCache
use seth.HeaderCache.{Header, LfuHeaderCache}
use seth.GasAdjuster.Headers.{
  HeaderNode, Task, wanted, asked, sending, received, failed, Fetching, fetch_header, step_task,
  move_at, run_tasks, waiting, started,
}

-- The moves that a goroutine has left, at most.
abbrev pub work : Task → ℕ
work (wanted b) = 3
work (asked b) = 2
work (sending h) = 1
work received = 0
work (failed b) = 0

abbrev pub total_work : List Task → ℕ
total_work [] = 0
total_work (t ∷ ts) = work t + total_work ts

abbrev HasNotFailed : Task → Type 0
HasNotFailed (failed b) = ⊥
HasNotFailed t = Unit

abbrev pub IsUnfinished : Task → Type 0
IsUnfinished (wanted b) = Unit
IsUnfinished (asked b) = Unit
IsUnfinished (sending h) = Unit
IsUnfinished received = ⊥
IsUnfinished (failed b) = ⊥

total_work-append : (ts us : List Task) → total_work (ts ++ us) ≡ total_work ts + total_work us
total_work-append [] us = omega arith
total_work-append (t ∷ ts) us = omega (arith, total_work-append ts us)

total_work-wanted : (blocks : List ℕ) → total_work (map wanted blocks) ≡ 3 * length blocks
total_work-wanted [] = refl
total_work-wanted (b ∷ blocks) = omega (arith, total_work-wanted blocks)

All-wanted : (blocks : List ℕ) → All HasNotFailed (map wanted blocks)
All-wanted [] = tt
All-wanted (b ∷ blocks) = (tt, All-wanted blocks)

-- The node gives the header of every number.
abbrev pub Answers : HeaderNode → Type 0
Answers node = (bn : ℤ) → (h : Header) × (node.header_by_number bn ≡ inr h)

-- A run in which every move is one of an unfinished goroutine.
abbrev pub IsBusy : HeaderNode → Fetching → List ℕ → Type 0
IsBusy node s [] = Unit
IsBusy node s (i ∷ is) =
    ((t : Task) × (get_elem? s.tasks i ≡ some t) × IsUnfinished t)
    × IsBusy node (move_at node s.cache s.headers s.tasks i) is

module _ (node : HeaderNode) (c : LfuHeaderCache) (headers : List Header) where
  -- A move of an unfinished goroutine is one of those that it had left.
  step_task-work :
      (t : Task) → IsUnfinished t → total_work (step_task node c headers t).tasks + 1 ≤ work t
  unfolding step_task
  step_task-work (wanted b) u = elim (Option-cases (HeaderCache.get c (int64_of_word b)).1) [
    | inl e ↦ ground (arith, e)
    | inr (h, e) ↦ ground (arith, e)
  ]
  step_task-work (asked b) u = elim (⊎-cases (fetch_header node c (int64_of_word b)).1) [
    | inl (x, e) ↦ ground (arith, e)
    | inr (h, e) ↦ ground (arith, e)
  ]
  step_task-work (sending h) u = omega arith
  step_task-work received u = absurd u
  step_task-work (failed b) u = absurd u

  move_at-work :
      (ts : List Task) (i : ℕ) (t : Task)
      → get_elem? ts i ≡ some t
      → IsUnfinished t
      → total_work (move_at node c headers ts i).tasks + 1 ≤ total_work ts
  unfolding move_at
  move_at-work [] i t e u = cc
  move_at-work (t' ∷ ts) zero t e u =
      let u' : IsUnfinished t' = let q : t ≡ t' = cc in subst IsUnfinished q u in
      omega (arith, step_task-work t' u', total_work-append (step_task node c headers t').tasks ts)
  move_at-work (t' ∷ ts) (suc i) t e u = omega (arith, move_at-work ts i t e u)

  step_task-le : (t : Task) → total_work (step_task node c headers t).tasks ≤ work t
  unfolding step_task
  step_task-le (wanted b) = omega (arith, step_task-work (wanted b) tt)
  step_task-le (asked b) = omega (arith, step_task-work (asked b) tt)
  step_task-le (sending h) = omega arith
  step_task-le received = omega arith
  step_task-le (failed b) = omega arith

  move_at-le :
      (ts : List Task) (i : ℕ) → total_work (move_at node c headers ts i).tasks ≤ total_work ts
  unfolding move_at
  move_at-le [] i = omega arith
  move_at-le (t ∷ ts) zero =
      omega (arith, step_task-le t, total_work-append (step_task node c headers t).tasks ts)
  move_at-le (t ∷ ts) (suc i) = omega (arith, move_at-le ts i)

  fetched : Answers node → (bn : ℤ) → (h : Header) × ((fetch_header node c bn).1 ≡ inr h)
  unfolding fetch_header
  fetched answers bn = let (h, e) = answers bn in (h, ground (arith, e))

  step_task-HasNotFailed :
      Answers node
      → (t : Task) → HasNotFailed t
      → All HasNotFailed (step_task node c headers t).tasks
  unfolding step_task
  step_task-HasNotFailed answers (wanted b) u =
      elim (Option-cases (HeaderCache.get c (int64_of_word b)).1) [
        | inl e ↦ ground (arith, e)
        | inr (h, e) ↦ ground (arith, e)
      ]
  step_task-HasNotFailed answers (asked b) u =
      let (h, e) = fetched answers (int64_of_word b) in ground (arith, e)
  step_task-HasNotFailed answers (sending h) u = (tt, tt)
  step_task-HasNotFailed answers received u = (tt, tt)
  step_task-HasNotFailed answers (failed b) u = absurd u

  move_at-HasNotFailed :
      Answers node
      → (ts : List Task) (i : ℕ) → All HasNotFailed ts
      → All HasNotFailed (move_at node c headers ts i).tasks
  unfolding move_at
  move_at-HasNotFailed answers [] i a = a
  move_at-HasNotFailed answers (t ∷ ts) zero a =
      All-append HasNotFailed (step_task node c headers t).tasks ts
        (step_task-HasNotFailed answers t a.0) a.1
  move_at-HasNotFailed answers (t ∷ ts) (suc i) a = (a.0, move_at-HasNotFailed answers ts i a.1)

-- While the counter is not 0 and no goroutine has failed, one of them can move.
IsUnfinished-at :
    (ts : List Task)
    → All HasNotFailed ts
    → 1 ≤ waiting ts
    → (i : ℕ) × (t : Task) × (get_elem? ts i ≡ some t) × IsUnfinished t
unfolding waiting
IsUnfinished-at [] a h = absurd (omega arith)
IsUnfinished-at (wanted b ∷ ts) a h = (0, wanted b, refl, tt)
IsUnfinished-at (asked b ∷ ts) a h = (0, asked b, refl, tt)
IsUnfinished-at (sending x ∷ ts) a h = (0, sending x, refl, tt)
IsUnfinished-at (failed b ∷ ts) a h = absurd a.0
IsUnfinished-at (received ∷ ts) a h =
    let (i, t, e, u) = IsUnfinished-at ts a.1 h in (suc i, t, e, u)

module _ (node : HeaderNode) where
  -- However the goroutines take turns, they make at most three moves for each block: a run of moves
  -- of unfinished goroutines is no longer than that.
  pub busy_run-le :
      (cache : LfuHeaderCache) (last : Header) (blocks moves : List ℕ)
      → IsBusy node (started cache last blocks) moves
      → length moves ≤ 3 * length blocks
  unfolding started
  busy_run-le cache last blocks moves b =
      omega (arith, from (started cache last blocks) moves b, total_work-wanted blocks)
    where
      from : (s : Fetching) (is : List ℕ) → IsBusy node s is → length is ≤ total_work s.tasks
      from s [] b = omega arith
      from s (i ∷ is) ((t, e, u), b) = omega (
        arith,
        move_at-work node s.cache s.headers s.tasks i t e u,
        from (move_at node s.cache s.headers s.tasks i) is b,
      )

  module _ (answers : Answers node) where
    run_tasks-HasNotFailed :
        (s : Fetching) (is : List ℕ)
        → All HasNotFailed s.tasks
        → All HasNotFailed (run_tasks node s is).tasks
    unfolding run_tasks
    run_tasks-HasNotFailed s [] a = a
    run_tasks-HasNotFailed s (i ∷ is) a =
        run_tasks-HasNotFailed (move_at node s.cache s.headers s.tasks i) is
          (move_at-HasNotFailed node s.cache s.headers answers s.tasks i a)

    abbrev Finish : ℕ → Fetching → Type 0
    Finish n s = (more : List ℕ) × (length more ≤ n) × (waiting (run_tasks node s more).tasks ≡ 0)

    next_move :
        (s : Fetching)
        → All HasNotFailed s.tasks
        → (waiting s.tasks ≡ 0)
          ⊎ ((i : ℕ) × (total_work (move_at node s.cache s.headers s.tasks i).tasks + 1
                ≤ total_work s.tasks))
    next_move s a = elim (Bool-cases (waiting s.tasks == 0)) [
      | inl e ↦ inl (ground (arith, e))
      | inr e ↦
          let (i, t, g, u) = IsUnfinished-at s.tasks a (ground (arith, e)) in
          inr (i, move_at-work node s.cache s.headers s.tasks i t g u)
    ]

    finishes :
        (n : ℕ) (s : Fetching) → total_work s.tasks ≤ n → All HasNotFailed s.tasks → Finish n s
    unfolding run_tasks
    finishes zero s h a = elim (next_move s a) [
      | inl e ↦ ([], omega arith, e)
      | inr (i, w) ↦ absurd (omega arith)
    ]
    finishes (suc n) s h a = elim (next_move s a) [
      | inl e ↦ ([], omega arith, e)
      | inr (i, w) ↦
          let (more, l, e) =
            finishes n (move_at node s.cache s.headers s.tasks i) (omega arith)
              (move_at-HasNotFailed node s.cache s.headers answers s.tasks i a) in
          (i ∷ more, omega arith, e)
    ]

    run_tasks-le :
        (s : Fetching) (is : List ℕ) → total_work (run_tasks node s is).tasks ≤ total_work s.tasks
    unfolding run_tasks
    run_tasks-le s [] = omega arith
    run_tasks-le s (i ∷ is) = omega (
      arith,
      move_at-le node s.cache s.headers s.tasks i,
      run_tasks-le (move_at node s.cache s.headers s.tasks i) is,
    )

    -- With a node that gives every header, the goroutines never block each other: after any moves at
    -- all they can go on so that each of them calls wg.Done, with at most three moves for each block,
    -- and CalculateNetworkCongestionMetric goes on.
    pub run_tasks-returns :
        (cache : LfuHeaderCache) (last : Header) (blocks moves : List ℕ)
        → (more : List ℕ) × (length more ≤ 3 * length blocks)
          × (waiting (run_tasks node (run_tasks node (started cache last blocks) moves) more).tasks
              ≡ 0)
    unfolding started
    run_tasks-returns cache last blocks moves =
        finishes (3 * length blocks) (run_tasks node (started cache last blocks) moves)
          (omega (arith, run_tasks-le (started cache last blocks) moves, total_work-wanted blocks))
          (run_tasks-HasNotFailed (started cache last blocks) moves (All-wanted blocks))
