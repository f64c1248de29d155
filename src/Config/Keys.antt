-- ===== src/Config/Keys.antt =====
-- AppendPksToNetwork of config.go: which network gets the keys, and which keys it had before.
use seth.Prelude.{
  ℕ, Bool, true, false, some, List, [], ◌∷◌, ◌++◌, ◌≡◌, ◌⊎◌, inl, inr, arith, get_elem?, All,
  Bool-cases, Option-cases,
}
use seth.Prelude.Text.{Text, equal_fold}
use seth.Prelude.Errors.{ok, Result-cases}
use seth.Config.{
  Network, Config, set, deref, the_network, write_at, append_to_named, append_pks_to_network,
}

-- The network behind `p` has another name.
abbrev pub OtherName : Config → Text → ℕ → Type 0
OtherName c name p =
    (n : Network) × (get_elem? c.heap p ≡ some n) × (equal_fold n.name name ≡ false)

-- The network behind `p` has the name, and its keys become those of the selected network with the
-- new ones.
abbrev pub Replaced : Config → List Text → Text → Config → Type 0
Replaced c pks name c' =
    (p : ℕ) × (n : Network) × (get_elem? c.heap p ≡ some n)
    × (equal_fold n.name name ≡ true)
    × (selected : Network) × (the_network c ≡ ok selected)
    × (c' ≡ record c {
      heap = set c.heap p (record n { private_keys = selected.private_keys ++ pks });
    })

named_lem :
    (c c' : Config) (pks : List Text) (name : Text) (ps : List ℕ) (found : Bool)
    → append_to_named c pks name ps ≡ ok (c', found)
    → ((found ≡ true) × Replaced c pks name c')
      ⊎ ((found ≡ false) × (c' ≡ c) × All (OtherName c name) ps)
unfolding append_to_named deref write_at
named_lem c c' pks name [] found h = inr (ground arith, ground arith, tt)
named_lem c c' pks name (p ∷ ps) found h = elim (Option-cases (get_elem? c.heap p)) [
  | inl e ↦ absurd (ground (arith, e))
  | inr (n, e) ↦ elim (Bool-cases (equal_fold n.name name)) [
    | inr f ↦ elim (named_lem c c' pks name ps found (ground (arith, e, f))) [
      | inl r ↦ inl r
      | inr (q, same, others) ↦ inr (q, same, ((n, e, f), others))
    ]
    | inl f ↦ elim (Result-cases (the_network c)) [
      | inl (s, g) ↦ inl (ground (arith, e, f, g), (p, n, e, f, s, g, ground (arith, e, f, g)))
      | inr (inl (x, g)) ↦ absurd (ground (arith, e, f, g))
      | inr (inr g) ↦ absurd (ground (arith, e, f, g))
    ]
  ]
]

-- When AppendPksToNetwork returns, either it reports true, and one network of that name has as keys
-- the keys of the selected network followed by the new ones; or it reports false, the configuration is
-- unchanged, and neither the selected network nor any of `Networks` has that name.
pub append_pks_to_network_lem :
    (c c' : Config) (pks : List Text) (name : Text) (found : Bool)
    → append_pks_to_network c pks name ≡ ok (c', found)
    → ((found ≡ true) × Replaced c pks name c')
      ⊎ ((found ≡ false)
          × (c' ≡ c)
          × All (OtherName c name) c.networks
          × ((p : ℕ) → c.network ≡ some p → OtherName c name p))
unfolding append_pks_to_network deref write_at the_network
append_pks_to_network_lem c c' pks name found h = elim (Option-cases c.network) [
  | inl e ↦ elim (named_lem c c' pks name c.networks found (ground (arith, e))) [
    | inl r ↦ inl r
    | inr (q, same, others) ↦ inr (q, same, others, λ p x. absurd (ground (arith, e)))
  ]
  | inr (p, e) ↦ elim (Option-cases (get_elem? c.heap p)) [
    | inl f ↦ absurd (ground (arith, e, f))
    | inr (n, f) ↦ elim (Bool-cases (equal_fold n.name name)) [
      | inl g ↦
          inl (
            ground (arith, e, f, g),
            (p, n, f, g, n, ground (arith, e, f), ground (arith, e, f, g)),
          )
      | inr g ↦ elim (named_lem c c' pks name c.networks found (ground (arith, e, f, g))) [
        | inl r ↦ inl r
        | inr (q, same, others) ↦ inr (q, same, others, λ r x. (n, ground (arith, e, f), g))
      ]
    ]
  ]
]
