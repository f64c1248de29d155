-- ===== src/Config/Heap.antt =====
-- The laws of the objects behind the network pointers.
use seth.Prelude.{
  ℕ, zero, suc, some, List, [], ◌∷◌, ◌≡◌, refl, ap, arith, get_elem?, ◌==◌, if◌then◌else◌,
  Option-cases, inl, inr,
}
use seth.Prelude.Errors.{ok}
use seth.Config.{Network, Config, set, deref, the_network}

module _ {ℓ} {A : Type ℓ} where
  pub get_elem?-set :
      (xs : List A) (i j : ℕ) (v w : A)
      → get_elem? xs i ≡ some w
      → get_elem? (set xs i v) j ≡ (if i == j then some v else get_elem? xs j)
  unfolding set
  get_elem?-set [] i j v w h = cc
  get_elem?-set (x ∷ xs) zero zero v w h = refl
  get_elem?-set (x ∷ xs) zero (suc j) v w h = ground arith
  get_elem?-set (x ∷ xs) (suc i) zero v w h = ground arith
  get_elem?-set (x ∷ xs) (suc i) (suc j) v w h = ground (arith, get_elem?-set xs i j v w h)

  pub set-set : (xs : List A) (i : ℕ) (v w : A) → set (set xs i v) i w ≡ set xs i w
  unfolding set
  set-set [] i v w = refl
  set-set (x ∷ xs) zero v w = refl
  set-set (x ∷ xs) (suc i) v w = ap (◌∷◌ x) (set-set xs i v w)

  pub set_same : (xs : List A) (i : ℕ) (v : A) → get_elem? xs i ≡ some v → set xs i v ≡ xs
  unfolding set
  set_same [] i v h = refl
  set_same (x ∷ xs) zero v h = ground arith
  set_same (x ∷ xs) (suc i) v h = ap (◌∷◌ x) (set_same xs i v h)

-- The network pointer of a configuration that has a network.
pub the_network_pointer :
    (c : Config) (n : Network)
    → the_network c ≡ ok n
    → (p : ℕ) × (c.network ≡ some p) × (get_elem? c.heap p ≡ some n)
unfolding the_network deref
the_network_pointer c n h = elim (Option-cases c.network) [
  | inl e ↦ absurd (ground arith)
  | inr (p, e) ↦ (p, e, ground arith)
]
