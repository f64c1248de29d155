-- ===== src/Config/Validate/Allowed.antt =====
-- ValidateConfig, described by its texts: what it allows, and the configuration that it leaves.
use seth.Prelude.{
  ℕ, true, false, none, some, List, [], ◌∷◌, ◌≡◌, ◌≢◌, ◌⊎◌, inl, inr, refl, arith, All, ap,
  if◌then◌else◌, sym, subst, ◌∙◌, Bool-cases, Option-cases,
}
use seth.Prelude.Int.{ℤ, pos}
use seth.Prelude.Text.{Text, codes, to_lower, to_upper}
use seth.Prelude.Errors.{ok}
use seth.Config.{Network, Config, the_network, set}
use seth.Config.Heap.{the_network_pointer}
use seth.Config.Validate.{
  is_priority, is_tracing_level, is_output, normal_priority, normal_tracing_level,
  with_dial_timeout, put_network, validate_config,
}
use seth.Config.Validate.Accepted.{Accepts, normal_network, normal_config, validate_config-Accepts}

abbrev pub IsOneOf3 : Text → Text → Text → Text → Type 0
IsOneOf3 t a b c = (t ≡ a) ⊎ ((t ≡ b) ⊎ (t ≡ c))

abbrev pub IsOneOf4 : Text → Text → Text → Text → Text → Type 0
IsOneOf4 t a b c d = (t ≡ a) ⊎ IsOneOf3 t b c d

-- A priority that is empty, or one of the four in any case of letters.
abbrev pub IsPriority : Text → Type 0
IsPriority p =
    (p ≡ [])
    ⊎ IsOneOf4 (to_lower p) (codes "degen") (codes "fast") (codes "standard") (codes "slow")

abbrev pub IsLevel : Text → Type 0
IsLevel l = (l ≡ []) ⊎ IsOneOf3 (to_upper l) (codes "NONE") (codes "REVERTED") (codes "ALL")

abbrev pub IsOutput : Text → Type 0
IsOutput o = IsOneOf3 (to_lower o) (codes "console") (codes "json") (codes "dot")

abbrev pub IsAllowed : Config → Network → Type 0
IsAllowed c n =
    (n.gas_price_estimation_enabled ≡ true
      → (n.gas_price_estimation_blocks ≢ 0) × IsPriority n.gas_price_estimation_tx_priority)
    × IsLevel c.tracing_level
    × All IsOutput c.trace_outputs

-- The network of an allowed configuration afterwards, with its priority and its timeout.
abbrev pub IsNormalWith : Network → Network → Text → ℤ → Type 0
IsNormalWith n n' priority timeout =
    (n' ≡ record n { gas_price_estimation_tx_priority = priority; dial_timeout = some timeout })
    × (n.gas_price_estimation_enabled ≡ false → priority ≡ n.gas_price_estimation_tx_priority)
    × (n.gas_price_estimation_enabled ≡ true
        → (n.gas_price_estimation_tx_priority ≡ [] → priority ≡ codes "standard")
          × (n.gas_price_estimation_tx_priority ≢ []
              → priority ≡ to_lower n.gas_price_estimation_tx_priority))
    × (n.dial_timeout ≡ none → timeout ≡ pos 60_000_000_000)
    × ((t : ℤ) → n.dial_timeout ≡ some t → timeout ≡ t)

abbrev pub IsNormalNetwork : Network → Network → Type 0
IsNormalNetwork n n' = (priority : Text) × (timeout : ℤ) × IsNormalWith n n' priority timeout

abbrev pub IsNormal : Config → Network → Config → Type 0
IsNormal c n c' =
    (p : ℕ) × (c.network ≡ some p)
    × (level : Text) × (n' : Network) × (c'
        ≡ record c { tracing_level = level; heap = set c.heap p n' })
    × (c.tracing_level ≡ [] → level ≡ codes "REVERTED")
    × (c.tracing_level ≢ [] → level ≡ to_upper c.tracing_level)
    × IsNormalNetwork n n'

normal_priority_cases :
    (p : Text)
    → (p ≡ [] → normal_priority p ≡ codes "standard") × (p ≢ [] → normal_priority p ≡ to_lower p)
unfolding normal_priority to_lower
normal_priority_cases [] = ground arith
normal_priority_cases (c ∷ p) = ground arith

normal_level_cases :
    (l : Text)
    → (l ≡ [] → normal_tracing_level l ≡ codes "REVERTED")
      × (l ≢ [] → normal_tracing_level l ≡ to_upper l)
unfolding normal_tracing_level to_upper
normal_level_cases [] = ground arith
normal_level_cases (c ∷ l) = ground arith

is_priority-IsOneOf4 :
    (t : Text)
    → (is_priority t ≡ true
        → IsOneOf4 t (codes "degen") (codes "fast") (codes "standard") (codes "slow"))
      × (IsOneOf4 t (codes "degen") (codes "fast") (codes "standard") (codes "slow")
          → is_priority t ≡ true)
unfolding is_priority
is_priority-IsOneOf4 t = ground arith

is_tracing_level-IsOneOf3 :
    (t : Text)
    → (is_tracing_level t ≡ true → IsOneOf3 t (codes "NONE") (codes "REVERTED") (codes "ALL"))
      × (IsOneOf3 t (codes "NONE") (codes "REVERTED") (codes "ALL") → is_tracing_level t ≡ true)
unfolding is_tracing_level
is_tracing_level-IsOneOf3 t = ground arith

is_priority-IsPriority :
    (p : Text)
    → (is_priority (normal_priority p) ≡ true → IsPriority p)
      × (IsPriority p → is_priority (normal_priority p) ≡ true)
is_priority-IsPriority [] = (
  λ h. inl refl,
  λ h.
      rw ((normal_priority_cases []).0 refl)
        ((is_priority-IsOneOf4 (codes "standard")).1 (inr (inr (inl refl)))),
)
is_priority-IsPriority (c ∷ p) =
    let e = (normal_priority_cases (c ∷ p)).1 (λ z. cc) in
    let one = is_priority-IsOneOf4 (to_lower (c ∷ p)) in
    (
      λ h. inr (one.0 (sym (ap is_priority e) ∙ h)),
      λ h. elim h [ inl z ↦ absurd cc | inr o ↦ ap is_priority e ∙ one.1 o ],
    )

is_tracing_level-IsLevel :
    (l : Text)
    → (is_tracing_level (normal_tracing_level l) ≡ true → IsLevel l)
      × (IsLevel l → is_tracing_level (normal_tracing_level l) ≡ true)
is_tracing_level-IsLevel [] = (
  λ h. inl refl,
  λ h.
      rw ((normal_level_cases []).0 refl)
        ((is_tracing_level-IsOneOf3 (codes "REVERTED")).1 (inr (inl refl))),
)
is_tracing_level-IsLevel (c ∷ l) =
    let e = (normal_level_cases (c ∷ l)).1 (λ z. cc) in
    let one = is_tracing_level-IsOneOf3 (to_upper (c ∷ l)) in
    (
      λ h. inr (one.0 (sym (ap is_tracing_level e) ∙ h)),
      λ h. elim h [ inl z ↦ absurd cc | inr o ↦ ap is_tracing_level e ∙ one.1 o ],
    )

is_output-IsOutput :
    (o : Text)
    → (is_output (to_lower o) ≡ true → IsOutput o) × (IsOutput o → is_output (to_lower o) ≡ true)
unfolding is_output
is_output-IsOutput o = ground arith

outputs-All :
    (os : List Text)
    → (All (λ o. is_output (to_lower o) ≡ true) os → All IsOutput os)
      × (All IsOutput os → All (λ o. is_output (to_lower o) ≡ true) os)
outputs-All [] = (λ u. u, λ u. u)
outputs-All (o ∷ os) = (
  λ a. ((is_output-IsOutput o).0 a.0, (outputs-All os).0 a.1),
  λ a. ((is_output-IsOutput o).1 a.0, (outputs-All os).1 a.1),
)

Accepts-IsAllowed :
    (c : Config) (n : Network) → (Accepts c n → IsAllowed c n) × (IsAllowed c n → Accepts c n)
Accepts-IsAllowed c n =
    let priority = is_priority-IsPriority n.gas_price_estimation_tx_priority in
    let level = is_tracing_level-IsLevel c.tracing_level in
    let outputs = outputs-All c.trace_outputs in
    (
      λ a. ((λ on. let (b, p) = a.0 on in (b, priority.0 p)), level.0 a.1, outputs.0 a.2),
      λ a. ((λ on. let (b, p) = a.0 on in (b, priority.1 p)), level.1 a.1, outputs.1 a.2),
    )

normal_network-IsNormalNetwork : (n : Network) → IsNormalNetwork n (normal_network n)
unfolding normal_network with_dial_timeout
normal_network-IsNormalNetwork n =
    let cases = normal_priority_cases n.gas_price_estimation_tx_priority in
    let priority =
      if n.gas_price_estimation_enabled
      then normal_priority n.gas_price_estimation_tx_priority
      else n.gas_price_estimation_tx_priority in
    elim (Bool-cases n.gas_price_estimation_enabled) [
      | inl on ↦ elim (Option-cases n.dial_timeout) [
        | inl e ↦ (priority, pos 60_000_000_000, ground (arith, on, e, cases))
        | inr (t, e) ↦ (priority, t, ground (arith, on, e, cases))
      ]
      | inr off ↦ elim (Option-cases n.dial_timeout) [
        | inl e ↦ (priority, pos 60_000_000_000, ground (arith, off, e))
        | inr (t, e) ↦ (priority, t, ground (arith, off, e))
      ]
    ]

normal_config-IsNormal :
    (c : Config) (n : Network) → the_network c ≡ ok n → IsNormal c n (normal_config c n)
unfolding normal_config put_network
normal_config-IsNormal c n h =
    let (p, e, g) = the_network_pointer c n h in
    let levels = normal_level_cases c.tracing_level in
    (
      p,
      e,
      normal_tracing_level c.tracing_level,
      normal_network n,
      ground (arith, e),
      levels.0,
      levels.1,
      normal_network-IsNormalNetwork n,
    )

-- ValidateConfig gives no error exactly for an allowed configuration: with estimations on, its blocks are
-- not 0 and its priority is empty or one of degen, fast, standard and slow; its tracing level is empty
-- or one of NONE, REVERTED and ALL; each of its outputs is console, json or dot; all in any case of letters.
-- It then leaves the configuration as it was, except that the priority is in lower case and "standard" where
-- it was empty (with estimations on), the tracing level in upper case and "REVERTED" where it was
-- empty, and the dial timeout one minute where there was none.
pub validate_config-IsAllowed :
    (c : Config) (n : Network)
    → the_network c ≡ ok n
    → (IsAllowed c n → (c' : Config) × (validate_config c ≡ ok (c', none)))
      × ((c' : Config) → validate_config c ≡ ok (c', none) → IsAllowed c n × IsNormal c n c')
validate_config-IsAllowed c n h =
    let accepts = validate_config-Accepts c n h in
    let same = Accepts-IsAllowed c n in
    (
      λ a. (normal_config c n, accepts.0 (same.1 a)),
      λ c' e.
          let a = accepts.1 c' e in
          let q : normal_config c n ≡ c' = ground (arith, sym (accepts.0 a) ∙ e) in
          (same.0 a, subst (IsNormal c n) q (normal_config-IsNormal c n h)),
    )
