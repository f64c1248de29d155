-- ===== src/Config/Validate/Accepted.antt =====
-- Which configurations ValidateConfig accepts, and what it makes of them.
use seth.Prelude.{
  true, Option, none, some, List, [], ◌∷◌, if◌then◌else◌, ◌≡◌, ◌≢◌, inl, inr, refl, arith, All, ap,
  Option-cases, ◌∙◌, sym,
}
use seth.Prelude.Text.{Text, to_lower}
use seth.Prelude.Errors.{Error, ok}
use seth.Config.{Network, Config, the_network}
use seth.Config.Heap.{set-set}
use seth.Config.Validate.{
  is_priority, is_tracing_level, is_output, normal_priority, normal_tracing_level,
  validate_estimation, validate_outputs, with_dial_timeout, put_network, validate_tracing,
  validate_config, validate_rest,
}

-- What ValidateConfig asks for.
abbrev pub Accepts : Config → Network → Type 0
Accepts c n =
    (n.gas_price_estimation_enabled ≡ true
      → (n.gas_price_estimation_blocks ≢ 0)
        × (is_priority (normal_priority n.gas_price_estimation_tx_priority) ≡ true))
    × (is_tracing_level (normal_tracing_level c.tracing_level) ≡ true)
    × All (λ o. is_output (to_lower o) ≡ true) c.trace_outputs

validate_outputs-accepts :
    (outputs : List Text)
    → (validate_outputs outputs ≡ none → All (λ o. is_output (to_lower o) ≡ true) outputs)
      × (All (λ o. is_output (to_lower o) ≡ true) outputs → validate_outputs outputs ≡ none)
unfolding validate_outputs
validate_outputs-accepts [] = ground arith
validate_outputs-accepts (o ∷ outputs) = ground (arith, validate_outputs-accepts outputs)

-- The network as an accepted configuration has it.
unfoldable pub normal_network : Network → Network
normal_network n = with_dial_timeout (
    if n.gas_price_estimation_enabled
    then record n {
      gas_price_estimation_tx_priority = normal_priority n.gas_price_estimation_tx_priority;
    }
    else n)

unfoldable pub normal_config : Config → Network → Config
normal_config c n =
    put_network (record c { tracing_level = normal_tracing_level c.tracing_level })
      (normal_network n)

put_network-put_network :
    (c : Config) (m n : Network) → put_network (put_network c m) n ≡ put_network c n
unfolding put_network
put_network-put_network c m n = elim (Option-cases c.network) [
  | inl e ↦ ground arith
  | inr (p, e) ↦ ground (arith, set-set c.heap p m n)
]

-- Writing the network leaves the levels and outputs alone.
pub put_network_parts :
    (c : Config) (m : Network)
    → ((put_network c m).tracing_level ≡ c.tracing_level)
      × ((put_network c m).trace_outputs ≡ c.trace_outputs)
unfolding put_network
put_network_parts c m = elim (Option-cases c.network) [
  | inl e ↦ ground (arith, e)
  | inr (p, e) ↦ ground (arith, e)
]

pub put_network_twice :
    (c : Config) (m n : Network) (t : Text)
    → put_network (record (put_network c m) { tracing_level = t }) n
      ≡ put_network (record c { tracing_level = t }) n
unfolding put_network
put_network_twice c m n t = elim (Option-cases c.network) [
  | inl e ↦ ground (arith, e)
  | inr (p, e) ↦ ground (arith, e, set-set c.heap p m n)
]

validate_estimation_accepts :
    (n : Network)
    → (n.gas_price_estimation_enabled ≡ true
        → (n.gas_price_estimation_blocks ≢ 0)
          × (is_priority (normal_priority n.gas_price_estimation_tx_priority) ≡ true))
    → ((validate_estimation n).1 ≡ none)
      × (with_dial_timeout (validate_estimation n).0 ≡ normal_network n)
unfolding validate_estimation normal_network
validate_estimation_accepts n h = ground arith

validate_estimation_accepted :
    (n : Network)
    → (validate_estimation n).1 ≡ none
    → n.gas_price_estimation_enabled ≡ true
    → (n.gas_price_estimation_blocks ≢ 0)
      × (is_priority (normal_priority n.gas_price_estimation_tx_priority) ≡ true)
unfolding validate_estimation
validate_estimation_accepted n h on = ground arith

validate_tracing_accepts :
    (c : Config) (n : Network)
    → is_tracing_level (normal_tracing_level c.tracing_level) ≡ true
    → All (λ o. is_output (to_lower o) ≡ true) c.trace_outputs
    → validate_tracing c n ≡ (
      put_network
          (record c { tracing_level = normal_tracing_level c.tracing_level })
          (with_dial_timeout n),
      none,
    )
unfolding validate_tracing
validate_tracing_accepts c n t a = ground (arith, t, (validate_outputs-accepts c.trace_outputs).1 a)

validate_tracing_accepted :
    (c : Config) (n : Network)
    → (validate_tracing c n).1 ≡ none
    → (is_tracing_level (normal_tracing_level c.tracing_level) ≡ true)
      × All (λ o. is_output (to_lower o) ≡ true) c.trace_outputs
unfolding validate_tracing
validate_tracing_accepted c n h = ground (arith, (validate_outputs-accepts c.trace_outputs).0)

validate_config_the :
    (c : Config) (n : Network)
    → the_network c ≡ ok n
    → validate_config c ≡ ok (validate_rest c (validate_estimation n))
unfolding validate_config
validate_config_the c n e = rw e

validate_rest-none :
    (c : Config) (r : Network × Option Error)
    → r.1 ≡ none
    → validate_rest c r ≡ validate_tracing (put_network c r.0) r.0
unfolding validate_rest
validate_rest-none c (n, none) h = refl
validate_rest-none c (n, some e) h = absurd (ground arith)

validate_rest_accepted :
    (c : Config) (r : Network × Option Error)
    → (validate_rest c r).1 ≡ none
    → (r.1 ≡ none) × ((validate_tracing (put_network c r.0) r.0).1 ≡ none)
unfolding validate_rest
validate_rest_accepted c (n, none) h = (refl, h)
validate_rest_accepted c (n, some e) h = absurd (ground arith)

validate_rest_accepting :
    (c : Config) (n : Network)
    → Accepts c n
    → validate_rest c (validate_estimation n) ≡ (normal_config c n, none)
unfolding normal_config
validate_rest_accepting c n a =
    let est = validate_estimation n in
    let s = validate_estimation_accepts n a.0 in
    let parts = put_network_parts c est.0 in
    validate_rest-none c est s.0
    ∙ validate_tracing_accepts (put_network c est.0) est.0 (rw parts.0 a.1) (rw parts.1 a.2)
    ∙ rw (parts.0, s.1, put_network_twice c est.0 (normal_network n)) refl

-- A configuration that meets the conditions is accepted, and becomes `normal_config`: its priority in
-- lower case and "standard" where it was empty (with estimations on), its tracing level in upper case
-- and "REVERTED" where it was empty, its dial timeout one minute where there was none. Only such a
-- configuration is accepted.
pub validate_config-Accepts :
    (c : Config) (n : Network)
    → the_network c ≡ ok n
    → (Accepts c n → validate_config c ≡ ok (normal_config c n, none))
      × ((c' : Config) → validate_config c ≡ ok (c', none) → Accepts c n)
validate_config-Accepts c n e = (
  λ a. validate_config_the c n e ∙ ap ok (validate_rest_accepting c n a),
  λ c' h.
      let q : (validate_rest c (validate_estimation n)).1 ≡ none =
        ground (arith, sym (validate_config_the c n e) ∙ h) in
      let r = validate_rest_accepted c (validate_estimation n) q in
      let est = validate_estimation n in
      let t = validate_tracing_accepted (put_network c est.0) est.0 r.1 in
      let parts = put_network_parts c est.0 in
      (validate_estimation_accepted n r.0, rw parts.0 at t.0, rw parts.1 at t.1),
)
