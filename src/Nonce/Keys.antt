-- ===== src/Nonce/Keys.antt =====
-- No key is given out twice: whatever the moves, a key is free or syncing at most once.
use seth.Prelude.{
  ℕ, zero, suc, ◌+◌, ◌≤◌, ◌<◌, some, List, [], ◌∷◌, ◌++◌, length, length-append, if◌then◌else◌,
  ◌==◌, leb, ltb, get_elem?, ◌&&◌, ◌≡◌, refl, arith, Option-cases, inl, inr, ap,
}
use seth.Prelude.Int.{ℤ}
use seth.Prelude.Text.{Text}
use seth.Prelude.Errors.{Error, Result, ok, err, Done}
use seth.Prelude.Map.{Map}
use seth.Nonce.{
  KeyNonce, Syncing, NonceManager, refresh, keys_from, fill, fill_channel, update_nonces,
  next_nonce, taken, take_key, time_out, remove, key_sync_error, give_up, fail_attempt, sync_key,
  attempt_with, attempt, Move, takes, times_out, counts, attempts, move, moves,
}

-- one if the key is the `k`-th
abbrev one : ℕ → KeyNonce → ℕ
one k key = if key.key_num == k then 1 else 0

unfoldable pub free : ℕ → List KeyNonce → ℕ
free k [] = 0
free k (key ∷ keys) = one k key + free k keys

unfoldable pub busy : ℕ → List Syncing → ℕ
busy k [] = 0
busy k (s ∷ ss) = one k s.key + busy k ss

-- How often key `k` is free or syncing.
unfoldable pub held : ℕ → NonceManager → ℕ
held k m = free k m.synced_keys + busy k m.syncing

-- How many keys are free or syncing.
unfoldable pub total : NonceManager → ℕ
total m = length m.synced_keys + length m.syncing

free-append : (k : ℕ) (xs ys : List KeyNonce) → free k (xs ++ ys) ≡ free k xs + free k ys
unfolding free
free-append k [] ys = omega arith
free-append k (x ∷ xs) ys = omega (arith, free-append k xs ys)

busy-append : (k : ℕ) (xs ys : List Syncing) → busy k (xs ++ ys) ≡ busy k xs + busy k ys
unfolding busy
busy-append k [] ys = omega arith
busy-append k (x ∷ xs) ys = omega (arith, busy-append k xs ys)

busy-remove :
    (k i : ℕ) (ss : List Syncing) (s : Syncing)
    → get_elem? ss i ≡ some s
    → busy k ss ≡ one k s.key + busy k (remove i ss)
unfolding busy remove
busy-remove k i [] s h = cc
busy-remove k zero (x ∷ ss) s h = ground arith
busy-remove k (suc i) (x ∷ ss) s h = omega (arith, busy-remove k i ss s h)

length-remove {ℓ} :
    {A : Type ℓ} (i : ℕ) (xs : List A) (x : A)
    → get_elem? xs i ≡ some x
    → length xs ≡ suc (length (remove i xs))
unfolding remove
length-remove i [] x h = cc
length-remove zero (y ∷ xs) x h = refl
length-remove (suc i) (y ∷ xs) x h = ap suc (length-remove i xs x h)

-- A move that holds no key more often, nor more keys.
abbrev pub NoMore : NonceManager → NonceManager → Type 0
NoMore m m' = ((k : ℕ) → held k m' ≤ held k m) × (total m' ≤ total m)

removed-NoMore :
    (i : ℕ) (s : Syncing) (m : NonceManager) (es : List Error)
    → get_elem? m.syncing i ≡ some s
    → NoMore m (record m { syncing = remove i m.syncing; errors = es })
unfolding held total
removed-NoMore i s m es h = (
  λ k. omega (arith, busy-remove k i m.syncing s h),
  omega (arith, length-remove i m.syncing s h),
)

fail_attempt-NoMore :
    (i left : ℕ) (s : Syncing) (m : NonceManager)
    → get_elem? m.syncing i ≡ some s
    → NoMore m (fail_attempt i left s.key m)
unfolding fail_attempt give_up held total busy
fail_attempt-NoMore i zero s m h = removed-NoMore i s m (m.errors ++ key_sync_error ∷ []) h
fail_attempt-NoMore i (suc n) s m h = (
  λ k. omega (arith, busy-remove k i m.syncing s h),
  omega (arith, length-remove i m.syncing s h),
)

sync_key-NoMore :
    (i left : ℕ) (s : Syncing) (answer : Result ℕ) (m : NonceManager)
    → get_elem? m.syncing i ≡ some s
    → NoMore m (sync_key i left s.key answer m)
unfolding sync_key held total free
sync_key-NoMore i left s (err e) m h = fail_attempt-NoMore i left s m h
sync_key-NoMore i left s Result.panic m h = fail_attempt-NoMore i left s m h
sync_key-NoMore i left s (ok nonce) m h =
    let synced : KeyNonce = record { key_num = s.key.key_num; nonce = nonce } in
    let failed = fail_attempt-NoMore i left s m h in
    (
      λ k. ground (
        arith,
        failed.0 k,
        busy-remove k i m.syncing s h,
        free-append k m.synced_keys (synced ∷ []),
      ),
      ground (
        arith,
        failed.1,
        length-remove i m.syncing s h,
        length-append m.synced_keys (synced ∷ []),
      ),
    )

attempt_with-NoMore :
    (i left : ℕ) (s : Syncing) (answer : Result ℕ) (m : NonceManager)
    → get_elem? m.syncing i ≡ some s
    → NoMore m (attempt_with i left s.key answer m)
unfolding attempt_with give_up
attempt_with-NoMore i zero s answer m h = removed-NoMore i s m (m.errors ++ key_sync_error ∷ []) h
attempt_with-NoMore i (suc left) s answer m h = sync_key-NoMore i left s answer m h

taken-NoMore :
    (m : NonceManager) (keys : List KeyNonce) (r : ℤ × NonceManager)
    → m.synced_keys ≡ keys
    → taken m keys ≡ some r
    → NoMore m r.1
unfolding taken held total free busy
taken-NoMore m [] r e h = cc
taken-NoMore m (key ∷ keys) r e h =
    let s : Syncing = record { key = key; left = m.cfg.key_sync_retries } in
    (
      λ k. ground (arith, e, h, busy-append k m.syncing (s ∷ [])),
      ground (arith, e, h, length-append m.syncing (s ∷ [])),
    )

move-NoMore : (x : Move) (m : NonceManager) → NoMore m (move x m)
unfolding move time_out next_nonce attempt held total take_key
move-NoMore takes m = elim (Option-cases (taken m m.synced_keys)) [
  | inl e ↦ ground (arith, e)
  | inr (r, e) ↦ ground (arith, e, taken-NoMore m m.synced_keys r refl e)
]
move-NoMore times_out m = (λ k. omega arith, omega arith)
move-NoMore (counts addr) m = (λ k. omega arith, omega arith)
move-NoMore (attempts i answer) m = elim (Option-cases (get_elem? m.syncing i)) [
  | inl e ↦ (λ k. ground (arith, e), ground (arith, e))
  | inr (s, e) ↦
      let q = attempt_with-NoMore i s.left s answer m e in
      (λ k. ground (arith, e, q.0 k), ground (arith, e, q.1))
]

moves-NoMore : (xs : List Move) (m : NonceManager) → NoMore m (moves xs m)
unfolding moves
moves-NoMore [] m = (λ k. omega arith, omega arith)
moves-NoMore (x ∷ xs) m =
    let (h, t) = move-NoMore x m in
    let (h', t') = moves-NoMore xs (move x m) in
    (λ k. omega (arith, h k, h' k), omega (arith, t, t'))

free-keys_from :
    (k num : ℕ) (nonces : Map Text ℤ) (addrs : List Text)
    → free k (keys_from num nonces addrs)
      ≡ (if leb num k && ltb k (num + length addrs) then 1 else 0)
unfolding free keys_from
free-keys_from k num nonces [] = ground arith
free-keys_from k num nonces (addr ∷ addrs) = ground (arith, free-keys_from k (suc num) nonces addrs)

length-keys_from :
    (num : ℕ) (nonces : Map Text ℤ) (addrs : List Text)
    → length (keys_from num nonces addrs) ≡ length addrs
unfolding keys_from
length-keys_from num nonces [] = refl
length-keys_from num nonces (addr ∷ addrs) = ap suc (length-keys_from (suc num) nonces addrs)

-- what a filled channel holds, given the addresses
fill-held :
    (m m' : NonceManager) (r : Map Text ℤ × Done) (addrs : List Text)
    → m.syncing ≡ []
    → m.addresses ≡ addrs
    → fill m r ≡ (m', ok tt)
    → ((k : ℕ) → held k m' ≡ (if leb 1 k && ltb k (length addrs) then 1 else 0))
      × (suc (total m') ≡ length addrs)
unfolding fill fill_channel held total busy
fill-held m m' (nonces, err e) addrs s a h = cc
fill-held m m' (nonces, Result.panic) addrs s a h = cc
fill-held m m' (nonces, ok u) [] s a h = absurd (ground (arith, a))
fill-held m m' (nonces, ok u) (root ∷ addrs) s a h = (
  λ k. ground (arith, a, s, free-keys_from k 1 nonces addrs),
  ground (arith, a, s, length-keys_from 1 nonces addrs),
)

-- After UpdateNonces on a manager with no key syncing, and after any calls and any answers of the node,
-- in any order, each key is free or syncing at most once, the root key and numbers past the last key
-- never are, and the free and the syncing keys together are fewer than the channel has room for: a
-- goroutine that puts its key back never waits.
pub moves-held :
    (node : Text → Result ℕ) (m m' : NonceManager) (xs : List Move)
    → m.syncing ≡ []
    → update_nonces node m ≡ (m', ok tt)
    → ((k : ℕ) → held k (moves xs m') ≤ (if leb 1 k && ltb k (length m.addresses) then 1 else 0))
      × (total (moves xs m') < length m.addresses)
unfolding update_nonces
moves-held node m m' xs s h =
    let (keys, all) = fill-held m m' (refresh node m.nonces) m.addresses s refl h in
    let (more, most) = moves-NoMore xs m' in
    (λ k. ground (arith, keys k, more k), omega (arith, all, most))
