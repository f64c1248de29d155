-- ===== src/Transfer/Health.antt =====
-- The transfers of checkRPCHealth and ReturnFunds.
use seth.Prelude.{
  ℕ, ℕ_discrete, ◌≡◌, refl, Option, none, some, List, inl, inr, ◌⊎◌, arith, Option-cases, ◌∙◌, ap,
  subst, sym,
}
use seth.Prelude.Int.{ℤ, pos}
use seth.Prelude.Text.{Text, codes, contains}
use seth.Prelude.Errors.{
  Error, plain, message, Result, ok, err, ◌>>=◌, Done, wrap_err-ok, bind-eq-ok, Result-cases,
}
use seth.Config.{Config, Network, the_network}
use seth.Client.{with_timeout}
use seth.Client.Options.{at_index}
use seth.HeaderCache.{LfuHeaderCache}
use seth.GasEstimator.{GasNode, answered}
use seth.GasAdjuster.Floats.{FloatLib, StatsLib}
use seth.GasAdjuster.Headers.{HeaderNode}
use seth.GasAdjuster.Metric.{congestion_metric}
use seth.GasAdjuster.Fees.{
  congestion_buffer, buffered_price, get_suggested_legacy_fees, legacy_start, with_metric,
}
use seth.Transfer.{
  TransferNode, Wallet, Keyring, Transfer, suggested_or_configured, health_transfer,
  health_check_text, prepare_health, wrap_done, check_rpc_health, transfer_gas_limit,
  amount_to_return, transfer_of, return_transfer, return_funds_of_key, transfer_eth_from_key,
}
use seth.Transfer.Sent.{IsSent, transfer_eth_from_key-IsSent, answered-ok}

abbrev pair {ℓ κ} : {A : Type ℓ} {B : Type κ} → A → B → A × B
pair a b = (a, b)

unbuffered :
    (lib : FloatLib) (price : ℤ)
    → buffered_price lib price (err (plain (codes "header cache is nil")))
      ≡ err (plain (codes "header cache is nil"))
unfolding buffered_price congestion_buffer contains message ℕ_discrete
unbuffered lib price = refl

-- Without a header cache, no legacy fees are suggested.
unsuggested :
    (lib : FloatLib) (stats_lib : StatsLib lib) (gas_node : GasNode) (headers : HeaderNode)
    (moves : List ℕ) (config : Config) (priority : Text) {cache : Option LfuHeaderCache}
    {suggested : Result ℤ}
    → get_suggested_legacy_fees lib stats_lib gas_node headers moves none config priority
      ≡ some (cache, suggested)
    → (suggested ≡ Result.panic) ⊎ ((e : Error) × (suggested ≡ err e))
unfolding get_suggested_legacy_fees with_metric congestion_metric
unsuggested lib stats_lib gas_node headers moves config priority {cache} {suggested} g =
    elim (Result-cases (legacy_start lib stats_lib gas_node config priority)) [
      | inr (inl (e, q)) ↦ inr (e, ground (arith, q, g))
      | inr (inr q) ↦ inl (ground (arith, q, g))
      | inl (price, q) ↦ elim (Result-cases (the_network config)) [
        | inr (inl (e, r)) ↦ inr (e, ground (arith, q, r, g))
        | inr (inr r) ↦ inl (ground (arith, q, r, g))
        | inl (n, r) ↦
            inr (plain (codes "header cache is nil"), ground (arith, q, r, g, unbuffered lib price))
      ]
    ]

module _ {Signed : Type 0} (node : TransferNode Signed) (config : Config) where
  prepare_health-ok :
      (keys : Keyring) (suggested : Result ℤ) {t : Transfer}
      → prepare_health node config keys suggested ≡ ok t
      → (price : ℤ) × (suggested_or_configured node config suggested ≡ ok price)
        × (address : Text) × (at_index keys.addresses 0 ≡ ok address)
        × (t ≡ record {
          from_key_num = pos 0;
          to = address;
          value = pos 10_000;
          gas_price = some price;
        })
  unfolding prepare_health health_transfer
  prepare_health-ok keys suggested {t} h =
      let made : Text → ℤ → Transfer = health_transfer node config in
      let (u, w, h1) =
        bind-eq-ok (with_timeout config)
          (λ u. do
            price ← suggested_or_configured node config suggested
            address ← at_index keys.addresses 0
            ok (made address price))
          {out = t} h in
      let (price, s, h2) =
        bind-eq-ok (suggested_or_configured node config suggested)
          (λ price. do address ← at_index keys.addresses 0; ok (made address price)) {out = t} h1 in
      let (address, a, h3) =
        bind-eq-ok (at_index keys.addresses 0) (λ address. ok (made address price)) {out = t} h2 in
      (price, s, address, a, ground (arith, h3))

  wrap_done-ok :
      (text : Text) (out : Wallet Signed × Done) {w : Wallet Signed}
      → wrap_done node config text out ≡ (w, ok tt)
      → out ≡ (w, ok tt)
  unfolding wrap_done
  wrap_done-ok text (w', done) {w} h =
      let same : w' ≡ w = ap (λ (x : Wallet Signed × Done). x.0) h in
      let ended : done ≡ ok tt = wrap_err-ok text done (ap (λ (x : Wallet Signed × Done). x.1) h) in
      ap (λ (d : Done). pair w' d) ended ∙ ap (λ (w : Wallet Signed). pair w (ok tt)) same

  -- A transfer of 10,000 wei from the root key.
  abbrev pub small_transfer : Text → ℤ → Transfer
  small_transfer address price = record {
    from_key_num = pos 0;
    to = address;
    value = pos 10_000;
    gas_price = some price;
  }

  -- A health check that succeeds has sent 10,000 wei from the root key to itself, at the gas price that
  -- was suggested, or else at the configured one.
  pub check_rpc_health-IsSent :
      (keys : Keyring) (suggested : Result ℤ) (w w' : Wallet Signed)
      → check_rpc_health node config keys suggested w ≡ (w', ok tt)
      → (price : ℤ) × (suggested_or_configured node config suggested ≡ ok price)
        × (address : Text) × (at_index keys.addresses 0 ≡ ok address)
        × IsSent node config keys (small_transfer address price) w w'
  unfolding check_rpc_health
  check_rpc_health-IsSent keys suggested w w' h =
      elim (Result-cases (prepare_health node config keys suggested)) [
        | inr (inl (e, q)) ↦ absurd (ground (arith, q, h))
        | inr (inr q) ↦ absurd (ground (arith, q, h))
        | inl (t, q) ↦
            let (price, s, address, a, e) = prepare_health-ok keys suggested q in
            let sent = transfer_eth_from_key-IsSent node config keys t w w' (
              wrap_done-ok health_check_text (transfer_eth_from_key node config keys t w)
                (ground (arith, q, h))) in
            (price, s, address, a, subst (λ t. IsSent node config keys t w w') e sent)
      ]

  return_transfer-ok :
      (keys : Keyring) (balance_at : Text → Error ⊎ ℤ) (to : Text) (gas_price : ℤ) (i : ℕ)
      {found : Option Transfer}
      → return_transfer node config keys balance_at to gas_price i ≡ ok found
      → (address : Text) × (at_index keys.addresses i ≡ ok address)
        × (balance : ℤ) × (balance_at address ≡ inr balance)
        × (limit : ℤ) × (transfer_gas_limit node config address (node.hex_to_address to) balance
            ≡ ok limit)
        × (found ≡ transfer_of to gas_price i (amount_to_return gas_price limit balance))
  unfolding return_transfer
  return_transfer-ok keys balance_at to gas_price i {found} h =
      let recipient = node.hex_to_address to in
      let made : ℤ → ℤ → Option Transfer =
        λ balance limit. transfer_of to gas_price i (amount_to_return gas_price limit balance) in
      let (address, a, h1) =
        bind-eq-ok (at_index keys.addresses i)
          (λ address. do
            balance ← answered (balance_at address)
            limit ← transfer_gas_limit node config address recipient balance
            ok (made balance limit))
          {out = found} h in
      let (balance, b, h2) =
        bind-eq-ok (answered (balance_at address))
          (λ balance. do
            limit ← transfer_gas_limit node config address recipient balance
            ok (made balance limit))
          {out = found} h1 in
      let (limit, l, h3) =
        bind-eq-ok (transfer_gas_limit node config address recipient balance)
          (λ limit. ok (made balance limit)) {out = found} h2 in
      (address, a, balance, answered-ok (balance_at address) b, limit, l, ground (arith, h3))

  -- The transfer of `funds` from key `i`.
  abbrev pub return_of : Text → ℤ → ℕ → ℤ → Transfer
  return_of to gas_price i funds = record {
    from_key_num = pos i;
    to = to;
    value = funds;
    gas_price = some gas_price;
  }

  -- When the routine for a key succeeds, the node gave the balance of the key's address, and either the
  -- balance is too small and nothing has happened, or the amount for that balance was sent at the given
  -- gas price.
  pub return_funds_of_key-IsReturned :
      (keys : Keyring) (balance_at : Text → Error ⊎ ℤ) (to : Text) (gas_price : ℤ) (i : ℕ)
      (w w' : Wallet Signed)
      → return_funds_of_key node config keys balance_at to gas_price i w ≡ (w', ok tt)
      → (address : Text) × (at_index keys.addresses i ≡ ok address)
        × (balance : ℤ) × (balance_at address ≡ inr balance)
        × (limit : ℤ) × (transfer_gas_limit node config address (node.hex_to_address to) balance
            ≡ ok limit)
        × (((amount_to_return gas_price limit balance ≡ none) × (w' ≡ w))
            ⊎ ((funds : ℤ) × (amount_to_return gas_price limit balance ≡ some funds)
                × IsSent node config keys (return_of to gas_price i funds) w w'))
  unfolding return_funds_of_key transfer_of
  return_funds_of_key-IsReturned keys balance_at to gas_price i w w' h =
      elim (Result-cases (return_transfer node config keys balance_at to gas_price i)) [
        | inr (inl (e, q)) ↦ absurd (ground (arith, q, h))
        | inr (inr q) ↦ absurd (ground (arith, q, h))
        | inl (found, q) ↦
            let (address, a, balance, b, limit, l, e) =
              return_transfer-ok keys balance_at to gas_price i q in
            elim (Option-cases (amount_to_return gas_price limit balance)) [
              | inl n ↦
                  let none_found : found ≡ none = e ∙ ap (transfer_of to gas_price i) n in
                  let q0 : return_transfer node config keys balance_at to gas_price i ≡ ok none =
                    q ∙ ap ok none_found in
                  let e0 : pair w (ok tt) ≡ (w', ok tt) = ground (arith, q0, h) in
                  (
                    address,
                    a,
                    balance,
                    b,
                    limit,
                    l,
                    inl (n, sym (ap (λ (x : Wallet Signed × Done). x.0) e0)),
                  )
              | inr (funds, s) ↦
                  let t = return_of to gas_price i funds in
                  let found_t : found ≡ some t = e ∙ ap (transfer_of to gas_price i) s in
                  let q1 : return_transfer node config keys balance_at to gas_price i
                      ≡ ok (some t) =
                    q ∙ ap ok found_t in
                  let sent =
                    transfer_eth_from_key-IsSent node config keys t w w' (ground (arith, q1, h)) in
                  (address, a, balance, b, limit, l, inr (funds, s, sent))
            ]
      ]

  configured_price :
      (suggested : Result ℤ) {price : ℤ}
      → suggested_or_configured node config suggested ≡ ok price
      → (suggested ≡ Result.panic) ⊎ ((e : Error) × (suggested ≡ err e))
      → (n : Network) × (the_network config ≡ ok n) × (price ≡ n.gas_price)
  unfolding suggested_or_configured
  configured_price suggested s (inl q) = absurd (ground (arith, q, s))
  configured_price suggested {price} s (inr (e, q)) =
      let h : (do n ← the_network config; ok n.gas_price) ≡ ok price = ground (arith, q, s) in
      let (n, p, f) = bind-eq-ok (the_network config) (λ n. ok n.gas_price) {out = price} h in
      (n, p, ground (arith, f))

  -- When GetSuggestedLegacyFees ran without a header cache, and the health check that used its answer
  -- succeeded, the check sent 10,000 wei from the root key to itself at the configured gas price.
  pub check_rpc_health-configured :
      (lib : FloatLib) (stats_lib : StatsLib lib) (gas_node : GasNode) (headers : HeaderNode)
      (moves : List ℕ) (priority : Text) (cache : Option LfuHeaderCache) (keys : Keyring)
      (suggested : Result ℤ) (w w' : Wallet Signed)
      → get_suggested_legacy_fees lib stats_lib gas_node headers moves none config priority
        ≡ some (cache, suggested)
      → check_rpc_health node config keys suggested w ≡ (w', ok tt)
      → (n : Network) × (the_network config ≡ ok n)
        × (address : Text) × (at_index keys.addresses 0 ≡ ok address)
        × IsSent node config keys (small_transfer address n.gas_price) w w'
  check_rpc_health-configured lib stats_lib gas_node headers moves priority cache keys suggested w
        w' g h =
      let (price, s, address, a, sent) = check_rpc_health-IsSent keys suggested w w' h in
      let (n, q, e) =
        configured_price suggested s
          (unsuggested lib stats_lib gas_node headers moves config priority g) in
      (
        n,
        q,
        address,
        a,
        subst (λ price. IsSent node config keys (small_transfer address price) w w') e sent,
      )
