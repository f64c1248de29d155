-- ===== src/Client/Estimations.antt =====
-- CalculateGasEstimations always ends with the prices that the configuration asks for.
use seth.Prelude.{
  Bool, true, false, ◌||◌, not, none, some, get_elem?, ◌≡◌, ◌≢◌, refl, ap, ◌∙◌, arith, Bool-cases,
  inl, inr,
}
use seth.Prelude.Int.{ℤ}
use seth.Prelude.Text.{codes, contains}
use seth.Prelude.Errors.{Error, message, Result, ok, err, ◌>>=◌}
use seth.Config.{
  Network, Config, set, deref, the_network, write_at, is_simulated_name, is_simulated_network,
}
use seth.Config.Heap.{get_elem?-set, the_network_pointer}
use seth.Client.{
  GasEstimations, GasEstimationRequest, Fees, no_estimations, with_timeout, change_network,
  disable_estimations, is_unsupported, fallback_estimations, legacy_estimations,
  dynamic_estimations, calculate_gas_estimations,
}

-- writing the network of a configuration that has one
change_network-the_network :
    (c : Config) (n : Network) (change : Network → Network)
    → the_network c ≡ ok n
    → (c' : Config) × (change_network c change ≡ ok c') × (the_network c' ≡ ok (change n))
unfolding change_network write_at the_network deref
change_network-the_network c n change h =
    let (p, e, g) = the_network_pointer c n h in
    let at_p : get_elem? (set c.heap p (change n)) p ≡ some (change n) =
      ground (arith, get_elem?-set c.heap p p (change n) n g) in
    (record c { heap = set c.heap p (change n) }, ground (arith, e, g), ground (arith, e, at_p))

-- The network with other flags.
abbrev pub flagged : Network → Bool → Bool → Network
flagged n enabled dynamic = record n {
  gas_price_estimation_enabled = enabled;
  eip1559_dynamic_fees = dynamic;
}

-- The prices that the flags of the network ask for are there.
abbrev pub IsPriced : Network → Config × GasEstimations → Type 0
IsPriced n (c, estimations) =
    (enabled : Bool) × (dynamic : Bool) × (the_network c ≡ ok (flagged n enabled dynamic))
    × (dynamic ≡ true → (estimations.gas_fee_cap ≢ none) × (estimations.gas_tip_cap ≢ none))
    × (dynamic ≡ false → estimations.gas_price ≢ none)

disable_estimations-the_network :
    (e : Error) (c : Config) (n : Network)
    → the_network c ≡ ok n
    → (c' : Config) × (enabled : Bool) × (disable_estimations e c ≡ ok c')
      × (the_network c' ≡ ok (flagged n enabled n.eip1559_dynamic_fees))
unfolding disable_estimations
disable_estimations-the_network e c n h =
    elim (Bool-cases (contains (message e) (codes "either base fee or suggested tip is 0"))) [
      | inr q ↦ (c, n.gas_price_estimation_enabled, ground (arith, q), h)
      | inl q ↦
          let (c', r, s) =
            change_network-the_network c n (λ m. record m { gas_price_estimation_enabled = false })
              h in
          (c', false, ground (arith, q, r), s)
    ]

legacy_estimations-IsPriced :
    (c : Config) (n : Network) (request : GasEstimationRequest) (estimations : GasEstimations)
    (answer : Result ℤ)
    → the_network c ≡ ok n
    → n.eip1559_dynamic_fees ≡ false
    → answer ≢ Result.panic
    → (out : Config × GasEstimations) × (legacy_estimations c request estimations answer ≡ ok out)
      × IsPriced n out
unfolding legacy_estimations
legacy_estimations-IsPriced c n request estimations (ok price) h f p =
    let kept = h ∙ ap (λ d. ok (flagged n n.gas_price_estimation_enabled d)) f in
    ((c, _), refl, (n.gas_price_estimation_enabled, false, kept, (λ d. absurd cc), λ d e. cc))
legacy_estimations-IsPriced c n request estimations (err e) h f p =
    let (c', enabled, r, s) = disable_estimations-the_network e c n h in
    let kept = s ∙ ap (λ d. ok (flagged n enabled d)) f in
    let priced = record estimations { gas_price = some request.fallback_gas_price } in
    (
      (c', priced),
      ap (λ m. m >>= λ x. ok (x, priced)) r,
      (enabled, false, kept, (λ d. absurd cc), λ d q. cc),
    )
legacy_estimations-IsPriced c n request estimations Result.panic h f p = absurd (p refl)

dynamic_estimations-IsPriced :
    (c : Config) (n : Network) (request : GasEstimationRequest) (legacy : Result ℤ)
    (answer : Result (ℤ × ℤ))
    → the_network c ≡ ok n
    → n.eip1559_dynamic_fees ≡ true
    → legacy ≢ Result.panic
    → answer ≢ Result.panic
    → (out : Config × GasEstimations) × (dynamic_estimations c request legacy answer ≡ ok out)
      × IsPriced n out
unfolding dynamic_estimations
dynamic_estimations-IsPriced c n request legacy (ok (cap, tip)) h f l p =
    let kept = h ∙ ap (λ d. ok (flagged n n.gas_price_estimation_enabled d)) f in
    (
      (c, _),
      refl,
      (n.gas_price_estimation_enabled, true, kept, (λ d. (λ q. cc, λ q. cc)), λ d. absurd cc),
    )
dynamic_estimations-IsPriced c n request legacy Result.panic h f l p = absurd (p refl)
dynamic_estimations-IsPriced c n request legacy (err e) h f l p =
    let (c1, enabled, r, s) = disable_estimations-the_network e c n h in
    let fallback = record no_estimations {
      gas_fee_cap = some request.fallback_gas_fee_cap;
      gas_tip_cap = some request.fallback_gas_tip_cap;
    } in
    elim (Bool-cases (is_unsupported e)) [
      | inr q ↦ (
        (c1, fallback),
        ground (arith, q, r),
        (
          enabled,
          true,
          s ∙ ap (λ d. ok (flagged n enabled d)) f,
          (λ d. (λ z. cc, λ z. cc)),
          λ d. absurd cc,
        ),
      )
      | inl q ↦
          let m = flagged n enabled n.eip1559_dynamic_fees in
          let (c2, t, u) =
            change_network-the_network c1 m (λ x. record x { eip1559_dynamic_fees = false }) s in
          let (out, v, w) =
            legacy_estimations-IsPriced c2 (flagged n enabled false) request fallback legacy u refl
              l in
          (out, ground (arith, q, r, t, v), w)
    ]

-- CalculateGasEstimations returns, whatever errors the suggestions of fees give, when the network has a
-- transaction timeout. It changes at most two flags of the network, and the prices that the network
-- then asks for are there: both caps with EIP-1559 fees, and else the gas price.
pub calculate_gas_estimations-IsPriced :
    (fees : Fees) (c : Config) (n : Network) (t : ℤ) (request : GasEstimationRequest)
    → the_network c ≡ ok n
    → n.txn_timeout ≡ some t
    → fees.legacy_fees request.priority ≢ Result.panic
    → fees.eip1559_fees request.priority ≢ Result.panic
    → (out : Config × GasEstimations) × (calculate_gas_estimations fees c request ≡ ok out)
      × IsPriced n out
unfolding calculate_gas_estimations is_simulated_network with_timeout fallback_estimations
calculate_gas_estimations-IsPriced fees c n t request h s l p =
    elim (Bool-cases (is_simulated_name n.name || not request.gas_estimation_enabled)) [
      | inl q ↦ (
        (c, fallback_estimations request),
        ground (arith, q, h),
        (
          n.gas_price_estimation_enabled,
          n.eip1559_dynamic_fees,
          h,
          (λ d. (λ z. cc, λ z. cc)),
          λ d z. cc,
        ),
      )
      | inr q ↦ elim (Bool-cases n.eip1559_dynamic_fees) [
        | inl f ↦
            let (out, v, w) =
              dynamic_estimations-IsPriced c n request (fees.legacy_fees request.priority)
                (fees.eip1559_fees request.priority) h f l p in
            (out, ground (arith, q, h, s, f, v), w)
        | inr f ↦
            let (out, v, w) =
              legacy_estimations-IsPriced c n request no_estimations
                (fees.legacy_fees request.priority) h f l in
            (out, ground (arith, q, h, s, f, v), w)
      ]
    ]
