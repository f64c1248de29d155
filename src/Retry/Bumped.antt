-- ===== src/Retry/Bumped.antt =====
-- What a replacement transaction is, when there is one.
use seth.Prelude.{
  ℕ, suc, ◌+◌, Bool, true, false, Option, none, some, List, [], ◌∷◌, get_elem?, map, ◌≡◌, refl, sym,
  ap, ◌∙◌, arith, Bool-cases, Option-cases, inl, inr,
}
use seth.Prelude.Int.{ℤ, pos, ◌+ℤ◌, ◌≤ℤ◌}
use seth.Prelude.Text.{Text, ◌==ₜ◌}
use seth.Prelude.Errors.{ok, ◌>>=◌, bind-eq-ok}
use seth.Config.{Config, GasBumpConfig, has_max_bump_gas_price}
use seth.Retry.{
  TxBody, Tx, legacy, dynamic_fee, blob, access_list, other, Chain, index_of, check_max_price,
  low64, strategy_of, replacement, bump_with, checked_pending, key_of_sender, prepare_replacement,
}

abbrev pub body_of : Tx → Option TxBody
body_of (legacy b p) = some b
body_of (dynamic_fee b c t) = some b
body_of (blob b c t d hs) = some b
body_of (access_list b p accesses) = some b
body_of (other n) = none

-- The prices that a transaction offers.
abbrev pub prices_of : Tx → List ℤ
prices_of (legacy b p) = p ∷ []
prices_of (dynamic_fee b c t) = c ∷ t ∷ []
prices_of (blob b c t d hs) = c ∷ t ∷ d ∷ []
prices_of (access_list b p accesses) = p ∷ []
prices_of (other n) = []

abbrev pub sum : List ℤ → ℤ
sum [] = pos 0
sum (x ∷ []) = x
sum (x ∷ y ∷ xs) = x +ℤ sum (y ∷ xs)

-- What a replacement keeps of a transaction: all but the prices, and of a blob's value the low bits.
abbrev pub Keeps : Tx → Tx → Type 0
Keeps (legacy b p) new = body_of new ≡ some b
Keeps (dynamic_fee b c t) new = body_of new ≡ some b
Keeps (blob b c t d hs) new = body_of new ≡ some (record b { value = low64 b.value })
Keeps (access_list b p accesses) new = body_of new ≡ some b
Keeps (other n) new = ⊥

-- The prices of the replacement, made by the strategy: as words of 64 bits for a blob, and none at all
-- for an access list.
abbrev pub new_prices : (ℤ → ℤ) → Tx → List ℤ
new_prices f (legacy b p) = f p ∷ []
new_prices f (dynamic_fee b c t) = f c ∷ f t ∷ []
new_prices f (blob b c t d hs) = low64 (f c) ∷ low64 (f t) ∷ low64 (f d) ∷ []
new_prices f (access_list b p accesses) = pos 0 ∷ []
new_prices f (other n) = []

check_max_price-ok :
    (c : Config) (bump : GasBumpConfig) (price : ℤ)
    → check_max_price c bump price ≡ ok tt
    → has_max_bump_gas_price c ≡ true
    → price ≤ℤ bump.max_gas_price
unfolding check_max_price
check_max_price-ok c bump price h m = ground arith

-- What a replacement made with the configuration is.
abbrev pub IsBumped : Config → GasBumpConfig → Tx → Tx → Type 0
IsBumped c bump tx new =
    (f : ℤ → ℤ) × (bump.strategy_fn ≡ some f)
    × Keeps tx new
    × (prices_of new ≡ new_prices f tx)
    × (has_max_bump_gas_price c ≡ true → sum (map f (prices_of tx)) ≤ℤ bump.max_gas_price)

strategy_of-ok :
    (bump : GasBumpConfig) (f : ℤ → ℤ) → strategy_of bump ≡ ok f → bump.strategy_fn ≡ some f
unfolding strategy_of
strategy_of-ok bump f h = ground arith

-- a replacement whose strategy and price check come first
priced-ok :
    (c : Config) (bump : GasBumpConfig) (price : (ℤ → ℤ) → ℤ) (make : (ℤ → ℤ) → Tx) (new : Tx)
    → (do f ← strategy_of bump; u ← check_max_price c bump (price f); ok (make f)) ≡ ok new
    → (f : ℤ → ℤ) × (bump.strategy_fn ≡ some f)
      × (make f ≡ new)
      × (has_max_bump_gas_price c ≡ true → price f ≤ℤ bump.max_gas_price)
priced-ok c bump price make new h =
    let (f, s, h1) =
      bind-eq-ok (strategy_of bump) (λ f. do u ← check_max_price c bump (price f); ok (make f))
        {out = new} h in
    let (u, p, h2) =
      bind-eq-ok (check_max_price c bump (price f)) (λ u. ok (make f)) {out = new} h1 in
    (f, strategy_of-ok bump f s, ground (arith, h2), check_max_price-ok c bump (price f) p)

replacement-IsBumped :
    (c : Config) (bump : GasBumpConfig) (tx new : Tx)
    → replacement c bump tx ≡ ok new
    → IsBumped c bump tx new
unfolding replacement
replacement-IsBumped c bump (legacy body price) new h =
    let (f, s, m, q) = priced-ok c bump (λ f. f price) (λ f. legacy body (f price)) new h in
    (f, s, ap body_of (sym m), ap prices_of (sym m), q)
replacement-IsBumped c bump (dynamic_fee body cap tip) new h =
    let (f, s, m, q) =
      priced-ok c bump (λ f. f cap +ℤ f tip) (λ f. dynamic_fee body (f cap) (f tip)) new h in
    (f, s, ap body_of (sym m), ap prices_of (sym m), q)
replacement-IsBumped c bump (blob body cap tip blob_cap hashes) new h =
    elim (Option-cases body.to) [
      | inl e ↦ absurd (ground (arith, e))
      | inr (to, e) ↦
          let (f, s, m, q) =
            priced-ok c bump (λ f. f cap +ℤ (f tip +ℤ f blob_cap))
              (λ f.
                blob (record body { value = low64 body.value }) (low64 (f cap)) (low64 (f tip))
                  (low64 (f blob_cap)) hashes)
              new (ground (arith, e)) in
          (f, s, ap body_of (sym m), ap prices_of (sym m), q)
    ]
replacement-IsBumped c bump (access_list body price accesses) new h =
    let (f, s, m, q) =
      priced-ok c bump (λ f. f price) (λ f. access_list body (pos 0) accesses) new h in
    (f, s, ap body_of (sym m), ap prices_of (sym m), q)
replacement-IsBumped c bump (other n) new h = cc

index_of-at :
    (sender : Text) (i j : ℕ) (addresses : List Text)
    → index_of sender i addresses ≡ some j
    → (k : ℕ) × (j ≡ i + k) × (get_elem? addresses k ≡ some sender)
unfolding index_of
index_of-at sender i j [] h = cc
index_of-at sender i j (a ∷ addresses) h = elim (Bool-cases (a ==ₜ sender)) [
  | inl e ↦ (0, ground (arith, e), ground (arith, e))
  | inr e ↦
      let (k, q, g) = index_of-at sender (suc i) j addresses (ground (arith, e)) in
      (suc k, omega (arith, q), g)
]

bump_with-IsBumped :
    {Signed : Type 0} (chain : Chain Signed) (c : Config) (tx new : Tx)
    → bump_with chain c tx ≡ ok new
    → (bump : GasBumpConfig) × (c.gas_bump ≡ some bump) × IsBumped c bump tx new
unfolding bump_with
bump_with-IsBumped chain c tx new h = elim (Option-cases c.gas_bump) [
  | inl e ↦ absurd (ground (arith, e))
  | inr (bump, e) ↦ (bump, e, replacement-IsBumped c bump tx new (ground (arith, e)))
]

module _ {Signed : Type 0} (chain : Chain Signed) where
  open chain use {body, by_hash, sender, sign, send}

  pending_checked : (pending : Bool) → checked_pending chain pending ≡ ok tt → pending ≡ true
  unfolding checked_pending
  pending_checked true h = refl
  pending_checked false h = cc

  key_of_sender-at :
      (addresses : List Text) (from : Text) (i : ℕ)
      → key_of_sender chain addresses from ≡ ok i
      → get_elem? addresses i ≡ some from
  unfolding key_of_sender
  key_of_sender-at addresses from i h = elim (Option-cases (index_of from 0 addresses)) [
    | inl e ↦ absurd (ground (arith, e))
    | inr (j, e) ↦ let (k, q, g) = index_of-at from 0 j addresses e in ground (arith, e, q, g)
  ]

  -- When there is a replacement for a transaction, the transaction was pending, the replacement was
  -- signed with the private key at the place of the transaction's sender and sent without an error.
  -- It has the nonce, recipient, gas and data of the transaction and its value (of a blob the low 64
  -- bits), and the prices that the strategy makes, as 64-bit words for a blob, and none for an access
  -- list transaction. The sum of the strategy's prices is at most the maximum where one is set.
  pub prepare_replacement-IsBumped :
      (c : Config) (addresses : List Text) (tx signed : Signed)
      → prepare_replacement chain c addresses tx ≡ ok signed
      → (by_hash tx ≡ ok true)
        × (i : ℕ) × (from : Text) × (sender tx ≡ ok from)
        × (get_elem? addresses i ≡ some from)
        × (new : Tx) × (sign i new ≡ ok signed)
        × (send signed ≡ ok tt)
        × (bump : GasBumpConfig) × (c.gas_bump ≡ some bump)
        × IsBumped c bump (body tx) new
  unfolding prepare_replacement
  prepare_replacement-IsBumped c addresses tx signed h =
      let after_sign = λ (s : Signed). (do sent ← send s; ok s) in
      let after_bump = λ (i : ℕ) (new : Tx). sign i new >>= after_sign in
      let after_key = λ (i : ℕ). bump_with chain c (body tx) >>= after_bump i in
      let after_sender = λ (from : Text). key_of_sender chain addresses from >>= after_key in
      let (pending, a, h1) =
        bind-eq-ok (by_hash tx) (λ p. checked_pending chain p >>= λ u. sender tx >>= after_sender)
          {out = signed} h in
      let (u, b, h2) =
        bind-eq-ok (checked_pending chain pending) (λ u. sender tx >>= after_sender) {out = signed}
          h1 in
      let (from, d, h3) = bind-eq-ok (sender tx) after_sender {out = signed} h2 in
      let (i, e, h4) =
        bind-eq-ok (key_of_sender chain addresses from) after_key {out = signed} h3 in
      let (new, f, h5) =
        bind-eq-ok (bump_with chain c (body tx)) (after_bump i) {out = signed} h4 in
      let (s, g, h6) = bind-eq-ok (sign i new) after_sign {out = signed} h5 in
      let (v, k, h7) = bind-eq-ok (send s) (λ sent. ok s) {out = signed} h6 in
      let (bump, q, r) = bump_with-IsBumped chain c (body tx) new f in
      let same : s ≡ signed = ground (arith, h7) in
      (
        a ∙ ap ok (pending_checked pending b),
        i,
        from,
        d,
        key_of_sender-at addresses from i e,
        new,
        g ∙ ap ok same,
        ap send (sym same) ∙ k,
        bump,
        q,
        r,
      )
