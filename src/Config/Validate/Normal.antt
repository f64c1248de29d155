-- ===== src/Config/Validate/Normal.antt =====
-- ValidateConfig leaves an accepted configuration in a normal form, which it then accepts as it is.
use seth.Prelude.{true, none, ◌≡◌, ◌≢◌, refl, arith, ap, ◌∙◌, sym}
use seth.Prelude.Text.{Text, to_lower, to_upper, to_lower_idem, to_upper_idem, to_upper-ne-nil}
use seth.Prelude.Errors.{ok}
use seth.Config.{Network, Config, the_network, deref}
use seth.Config.Heap.{get_elem?-set, the_network_pointer}
use seth.Config.Validate.{
  priority_standard, tracing_reverted, is_priority, normal_priority, normal_tracing_level,
  with_dial_timeout, put_network, validate_config,
}
use seth.Config.Validate.Accepted.{
  Accepts, put_network_parts, put_network_twice, normal_network, normal_config,
  validate_config-Accepts,
}

to_lower-standard : to_lower priority_standard ≡ priority_standard
unfolding to_lower
to_lower-standard = refl

normal_priority_idem : (p : Text) → normal_priority (normal_priority p) ≡ normal_priority p
unfolding normal_priority
normal_priority_idem p = ground (arith, to_lower_idem p, to_lower-standard)

to_upper-reverted : to_upper tracing_reverted ≡ tracing_reverted
unfolding to_upper
to_upper-reverted = refl

normal_tracing_level_idem :
    (l : Text) → normal_tracing_level (normal_tracing_level l) ≡ normal_tracing_level l
unfolding normal_tracing_level
normal_tracing_level_idem l = ground (arith, to_upper_idem l, to_upper-ne-nil l, to_upper-reverted)

normal_network_idem : (n : Network) → normal_network (normal_network n) ≡ normal_network n
unfolding normal_network with_dial_timeout
normal_network_idem n = ground (arith, normal_priority_idem n.gas_price_estimation_tx_priority)

the_network-put_network :
    (c : Config) (m n : Network) → the_network c ≡ ok m → the_network (put_network c n) ≡ ok n
unfolding put_network the_network deref
the_network-put_network c m n e =
    let (p, q, g) = the_network_pointer c m e in
    rw (q, put_network) (ground (arith, get_elem?-set c.heap p p n m g))

the_network-normal_config :
    (c : Config) (n : Network)
    → the_network c ≡ ok n
    → the_network (normal_config c n) ≡ ok (normal_network n)
unfolding normal_config the_network
the_network-normal_config c n e =
    the_network-put_network (record c { tracing_level = normal_tracing_level c.tracing_level }) n
      (normal_network n) e

normal_network-accepts :
    (n : Network)
    → (n.gas_price_estimation_enabled ≡ true
        → (n.gas_price_estimation_blocks ≢ 0)
          × (is_priority (normal_priority n.gas_price_estimation_tx_priority) ≡ true))
    → (normal_network n).gas_price_estimation_enabled ≡ true
    → ((normal_network n).gas_price_estimation_blocks ≢ 0)
      × (is_priority (normal_priority (normal_network n).gas_price_estimation_tx_priority) ≡ true)
unfolding normal_network with_dial_timeout
normal_network-accepts n a on =
    ground (arith, normal_priority_idem n.gas_price_estimation_tx_priority)

normal_config_idem :
    (c : Config) (n : Network)
    → normal_config (normal_config c n) (normal_network n) ≡ normal_config c n
unfolding normal_config
normal_config_idem c n =
    let c1 = record c { tracing_level = normal_tracing_level c.tracing_level } in
    let parts = put_network_parts c1 (normal_network n) in
    let x = put_network c1 (normal_network n) in
    let t = normal_tracing_level c.tracing_level in
    let level : normal_tracing_level x.tracing_level ≡ t =
      ap normal_tracing_level parts.0 ∙ normal_tracing_level_idem c.tracing_level in
    ap
      (λ (l : Text).
        put_network (record x { tracing_level = l }) (normal_network (normal_network n)))
      level
    ∙ ap (λ (m : Network). put_network (record x { tracing_level = t }) m) (normal_network_idem n)
    ∙ put_network_twice c1 (normal_network n) (normal_network n) t

normal_config-Accepts :
    (c : Config) (n : Network) → Accepts c n → Accepts (normal_config c n) (normal_network n)
unfolding normal_config
normal_config-Accepts c n a =
    let c1 = record c { tracing_level = normal_tracing_level c.tracing_level } in
    let parts = put_network_parts c1 (normal_network n) in
    (
      normal_network-accepts n a.0,
      rw (parts.0, normal_tracing_level_idem c.tracing_level) a.1,
      rw parts.1 a.2,
    )

-- What ValidateConfig leaves of a configuration that it accepts, it accepts again and changes no more.
pub validate_config_idem :
    (c : Config) (n : Network) (c' : Config)
    → the_network c ≡ ok n
    → validate_config c ≡ ok (c', none)
    → validate_config c' ≡ ok (c', none)
validate_config_idem c n c' e h =
    let a = (validate_config-Accepts c n e).1 c' h in
    let q : c' ≡ normal_config c n = ground (arith, sym h ∙ (validate_config-Accepts c n e).0 a) in
    let again =
      (validate_config-Accepts (normal_config c n) (normal_network n)
          (the_network-normal_config c n e)).0
        (normal_config-Accepts c n a) in
    rw q (again ∙ rw normal_config_idem)
