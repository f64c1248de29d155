-- ===== src/ClientBuilder/Accepted.antt =====
-- Which chains of builder calls build a configuration that ValidateConfig accepts.
use seth.Prelude.{true, false, none, List, [], ◌∷◌, ◌≡◌, ◌≢◌, refl, ap, arith, All, ◌∙◌}
use seth.Prelude.Text.{to_lower, to_upper, text_dec, lower_byte, upper_byte}
use seth.Prelude.Errors.{ok}
use seth.Config.{Network, Config, the_network, deref}
use seth.Config.Validate.{
  is_priority, is_tracing_level, is_output, normal_priority, normal_tracing_level, validate_config,
}
use seth.Config.Validate.Accepted.{Accepts, normal_config, validate_config-Accepts}
use seth.ClientBuilder.{ClientBuilder, new_client_builder, default_config, default_network}
use seth.ClientBuilder.Built

-- What ValidateConfig asks of a setting: blocks and a priority for estimations that are on, and known
-- words for the tracing. Durations are not negative.
unfoldable pub IsFine : Built.Setting → Type 0
IsFine (Built.gas_price_estimations on blocks priority) =
    on ≡ true → (blocks ≢ 0) × (is_priority (normal_priority priority) ≡ true)
IsFine (Built.tracing level outputs) =
    (is_tracing_level (normal_tracing_level level) ≡ true)
    × All (λ o. is_output (to_lower o) ≡ true) outputs
IsFine s = Built.is_negative s ≡ false

fine-nonneg : (s : Built.Setting) → IsFine s → Built.is_negative s ≡ false
unfolding IsFine Built.is_negative
fine-nonneg (Built.gas_price_estimations on blocks priority) f = refl
fine-nonneg (Built.tracing level outputs) f = refl
fine-nonneg _ f = f

step-Accepts :
    (s : Built.Setting) (c : Config) (n : Network)
    → IsFine s
    → Accepts c n
    → Accepts (Built.on_config s c) (Built.on_network s n)
unfolding IsFine Built.on_config Built.on_network
step-Accepts (Built.gas_price_estimations on blocks priority) c n f a = (f, a.1, a.2)
step-Accepts (Built.tracing level outputs) c n f a = (a.0, f.0, f.1)
step-Accepts (Built.rpc_url u) c n f a = a
step-Accepts (Built.private_keys u) c n f a = a
step-Accepts (Built.network_name u) c n f a = a
step-Accepts (Built.eip1559_dynamic_fees u) c n f a = a
step-Accepts (Built.legacy_gas_price u) c n f a = a
step-Accepts (Built.dynamic_gas_prices u v) c n f a = a
step-Accepts (Built.transfer_gas_fee u) c n f a = a
step-Accepts (Built.gas_bumping r m s) c n f a = a
step-Accepts (Built.transaction_timeout u) c n f a = a
step-Accepts (Built.rpc_dial_timeout u) c n f a = a
step-Accepts (Built.ephemeral_addresses u v) c n f a = a
step-Accepts (Built.protections u v) c n f a = a
step-Accepts (Built.artifacts_folder u) c n f a = a
step-Accepts (Built.nonce_manager l r t d) c n f a = a

all_on_config-Accepts :
    (ss : List Built.Setting) (c : Config) (n : Network)
    → All IsFine ss
    → Accepts c n
    → Accepts (Built.all_on_config ss c) (Built.all_on_network ss n)
unfolding Built.all_on_config Built.all_on_network
all_on_config-Accepts [] c n f a = a
all_on_config-Accepts (s ∷ ss) c n f a =
    all_on_config-Accepts ss (Built.on_config s c) (Built.on_network s n) f.1
      (step-Accepts s c n f.0 a)

any_negative_fine : (ss : List Built.Setting) → All IsFine ss → Built.any_negative ss ≡ false
unfolding Built.any_negative
any_negative_fine [] f = refl
any_negative_fine (s ∷ ss) f = ground (arith, fine-nonneg s f.0, any_negative_fine ss f.1)

default-Accepts : Accepts default_config default_network
unfolding default_config default_network is_priority is_tracing_level is_output normal_priority
    normal_tracing_level to_lower to_upper text_dec lower_byte upper_byte
default-Accepts = (λ e. (λ z. cc, refl), refl, (refl, (refl, tt)))

starts : new_client_builder ≡ Built.built default_config default_network
unfolding Built.built new_client_builder default_config
starts = refl

-- The builder, when each estimation that is switched on has blocks and a known priority, each tracing
-- call a known level and known outputs, and no duration is negative, builds without a panic, and
-- ValidateConfig accepts the configuration that it builds.
pub calls-Accepts :
    (ss : List Built.Setting)
    → All IsFine ss
    → (b : ClientBuilder) × (Built.calls ss new_client_builder ≡ ok b)
      × (c : Config) × (validate_config b.config ≡ ok (c, none))
unfolding Built.built the_network deref
calls-Accepts ss f =
    let c = Built.all_on_config ss default_config in
    let n = Built.all_on_network ss default_network in
    let b = Built.built c n in
    let runs = Built.calls-built ss default_config default_network in
    (
      b,
      ap (Built.calls ss) starts ∙ runs ∙ rw (any_negative_fine ss f) refl,
      normal_config b.config n,
      (validate_config-Accepts b.config n refl).0
          (all_on_config-Accepts ss default_config default_network f default-Accepts),
    )
