-- ===== src/Nonce/Nonces.antt =====
-- Which nonces the manager gives.
use seth.Prelude.{ℕ, zero, suc, ◌+◌, ◌<◌, some, List, [], ◌∷◌, ◌≡◌, ◌≢◌, refl, arith, ap, sym, ◌∙◌}
use seth.Prelude.Int.{ℤ, pos, ◌+ℤ◌}
use seth.Prelude.Words.{two63, int64, int64_pos, int64_of_word, int64_of_word_pos}
use seth.Prelude.Text.{Text, text_dec}
use seth.Prelude.Errors.{Result, ok, err, Done}
use seth.Prelude.Map.{Map, lookup, insert, lookup-insert}
use seth.Nonce.{
  NonceManager, nonce_of, refreshed, refresh, fill, fill_channel, update_nonces, next_nonce,
}

-- `n` calls of NextNonce for one address: the nonces given, and the manager after them.
unfoldable pub next_nonces : ℕ → Text → NonceManager → List ℤ × NonceManager
next_nonces zero addr m = ([], m)
next_nonces (suc n) addr m =
    let (nonce, m') = next_nonce addr m in
    let (nonces, m'') = next_nonces n addr m' in (nonce ∷ nonces, m'')

-- The numbers from `i` on.
unfoldable pub counting : ℕ → ℕ → List ℤ
counting zero i = []
counting (suc n) i = pos i ∷ counting n (suc i)

nonce_of-insert :
    (addr : Text) (v : ℤ) (nonces : Map Text ℤ) → nonce_of (insert text_dec addr v nonces) addr ≡ v
unfolding nonce_of
nonce_of-insert addr v nonces = ground (arith, lookup-insert text_dec addr addr v nonces)

after_one : (i : ℕ) → suc i < two63 → int64 (pos i +ℤ pos 1) ≡ pos (suc i)
unfolding ◌+ℤ◌
after_one i b = ground (arith, int64_pos (suc i) b)

pub next_nonce_own :
    (addr : Text) (m : NonceManager) (i : ℕ)
    → nonce_of m.nonces addr ≡ pos i
    → suc i < two63
    → nonce_of (next_nonce addr m).1.nonces addr ≡ pos (suc i)
unfolding next_nonce
next_nonce_own addr m i h b =
    nonce_of-insert addr (int64 (nonce_of m.nonces addr +ℤ pos 1)) m.nonces
    ∙ ap (λ x. int64 (x +ℤ pos 1)) h
    ∙ after_one i b

next_nonce_other :
    (addr other : Text) (m : NonceManager)
    → addr ≢ other
    → nonce_of (next_nonce addr m).1.nonces other ≡ nonce_of m.nonces other
unfolding next_nonce nonce_of
next_nonce_other addr other m h =
    ground
      (arith, lookup-insert text_dec addr other (int64 (nonce_of m.nonces addr +ℤ pos 1)) m.nonces)

first_nonce :
    (addr : Text) (m : NonceManager) (i : ℕ)
    → nonce_of m.nonces addr ≡ pos i
    → (xs ys : List ℤ) → xs ≡ ys
    → (next_nonce addr m).0 ∷ xs ≡ pos i ∷ ys
unfolding next_nonce
first_nonce addr m i h xs ys e = cc (h, e)

next_nonces_lem :
    (n : ℕ) (addr : Text) (m : NonceManager) (i : ℕ)
    → nonce_of m.nonces addr ≡ pos i
    → i + n < two63
    → ((next_nonces n addr m).0 ≡ counting n i)
      × ((other : Text)
          → addr ≢ other
          → nonce_of (next_nonces n addr m).1.nonces other ≡ nonce_of m.nonces other)
unfolding next_nonces counting
next_nonces_lem zero addr m i h b = (refl, λ other d. refl)
next_nonces_lem (suc n) addr m i h b =
    let m' = (next_nonce addr m).1 in
    let (own, others) =
      next_nonces_lem n addr m' (suc i) (next_nonce_own addr m i h (omega (arith, b)))
        (omega (arith, b)) in
    (
      first_nonce addr m i h (next_nonces n addr m').0 (counting n (suc i)) own,
      λ other d. others other d ∙ next_nonce_other addr other m d,
    )

refreshed-ok :
    (addr : Text) (n : ℤ) (nonces : Map Text ℤ) (r : Map Text ℤ × Done) (answer : Result ℕ)
    (fresh : Map Text ℤ)
    → refreshed addr n nonces r answer ≡ (fresh, ok tt)
    → (w : ℕ) × (answer ≡ ok w) × (r ≡ (r.0, ok tt)) × (fresh ≡ (addr, int64_of_word w) ∷ r.0)
unfolding refreshed
refreshed-ok addr n nonces r (err e) fresh h = cc
refreshed-ok addr n nonces r Result.panic fresh h = cc
refreshed-ok addr n nonces (rest, done) (ok w) fresh h = (w, refl, cc, cc)

-- what a refreshed map has for an address that it had
refresh-fresh :
    (node : Text → Result ℕ) (nonces fresh : Map Text ℤ) (addr : Text) (v : ℤ)
    → refresh node nonces ≡ (fresh, ok tt)
    → lookup text_dec addr nonces ≡ some v
    → (w : ℕ) × (node addr ≡ ok w) × (nonce_of fresh addr ≡ int64_of_word w)
unfolding refresh nonce_of lookup
refresh-fresh node [] fresh addr v e h = cc
refresh-fresh node ((a, n) ∷ nonces) fresh addr v e h =
    let (w, q, r, f) = refreshed-ok a n nonces (refresh node nonces) (node a) fresh e in
    let rest = (refresh node nonces).0 in
    elim (text_dec a addr) [
      | yes same ↦ (w, ap node (sym same) ∙ q, ground (arith, same, f))
      | no other ↦
          let (x, g, z) = refresh-fresh node nonces rest addr v r (ground (arith, other, h)) in
          (x, g, ground (arith, other, f, z))
    ]

fill_channel-nonces :
    (m m' : NonceManager) (nonces : Map Text ℤ) (addrs : List Text)
    → fill_channel m nonces addrs ≡ (m', ok tt)
    → nonces ≡ m'.nonces
unfolding fill_channel
fill_channel-nonces m m' nonces [] h = cc
fill_channel-nonces m m' nonces (root ∷ addrs) h = ap (λ r. r.0.nonces) h

fill-nonces :
    (m m' : NonceManager) (r : Map Text ℤ × Done) → fill m r ≡ (m', ok tt) → r ≡ (m'.nonces, ok tt)
unfolding fill
fill-nonces m m' (nonces, err e) h = cc
fill-nonces m m' (nonces, Result.panic) h = cc
fill-nonces m m' (nonces, ok u) h =
    ap (λ x. (x, ok tt)) (fill_channel-nonces m m' nonces m.addresses h)

-- After UpdateNonces, the calls of NextNonce for an address that the manager knows give the nonce that
-- the node has for it and the numbers that follow, while these stay below 2 ^ 63, and change no other
-- address's nonce.
pub next_nonces-update_nonces :
    (node : Text → Result ℕ) (m m' : NonceManager) (addr : Text) (v : ℤ) (n : ℕ)
    → update_nonces node m ≡ (m', ok tt)
    → lookup text_dec addr m.nonces ≡ some v
    → (w : ℕ) × (node addr ≡ ok w)
      × (w + n < two63
          → ((next_nonces n addr m').0 ≡ counting n w)
            × ((other : Text)
                → addr ≢ other
                → nonce_of (next_nonces n addr m').1.nonces other ≡ nonce_of m'.nonces other))
unfolding update_nonces
next_nonces-update_nonces node m m' addr v n h k =
    let fresh = fill-nonces m m' (refresh node m.nonces) h in
    let (w, e, q) = refresh-fresh node m.nonces m'.nonces addr v fresh k in
    (w, e, λ b. next_nonces_lem n addr m' w (q ∙ int64_of_word_pos w (omega (arith, b))) b)
