-- ===== src/Transfer/Sent.antt =====
-- What a transfer that succeeded has done.
use seth.Prelude.{
  none, some, Option-cases, ◌≡◌, refl, false, Option, [], ◌∷◌, ◌++◌, inl, inr, ◌⊎◌, ⊎-cases, arith,
  Bool-cases, ◌∙◌, ap, subst, sym,
}
use seth.Prelude.Int.{ℤ}
use seth.Prelude.Text.{Text, codes}
use seth.Prelude.Errors.{
  Error, Result, ok, ◌>>=◌, Done, wrap_err, wrap_err-ok, bind-eq-ok, Result-cases,
}
use seth.Config.{Config, Network, the_network}
use seth.Client.{with_timeout}
use seth.GasEstimator.{answered}
use seth.Funding.{gas_limit_of}
use seth.Nonce.{next_nonce}
use seth.Mining.{Receipt, wait_mined}
use seth.Transfer.{
  TransferNode, Wallet, Keyring, Transfer, Prepared, key_at, or_configured, estimate_gas_limit,
  is_out_of_range, transfer_gas_limit, prepare_in_range, prepare, transfer_tx, sign_transfer,
  receive, send_transfer, count_and_send, transfer_eth_from_key,
}

abbrev pair {ℓ κ} : {A : Type ℓ} {B : Type κ} → A → B → A × B
pair a b = (a, b)

abbrev made_of : Option ℤ → ℤ → Text → ℤ → Network → Prepared
made_of price id address limit n = record {
  chain_id = id;
  address = address;
  gas_limit = limit;
  price = or_configured n.gas_price price;
}

pub answered-ok : {A : Type 0} (x : Error ⊎ A) {a : A} → answered x ≡ ok a → x ≡ inr a
unfolding answered
answered-ok (inl e) h = cc
answered-ok (inr a) h = cc

with_timeout-ok :
    (c : Config) {u : Unit {0}}
    → with_timeout c ≡ ok u
    → (n : Network) × (the_network c ≡ ok n) × (t : ℤ) × (n.txn_timeout ≡ some t)
unfolding with_timeout
with_timeout-ok c {u} h =
    let (n, q, h1) =
      bind-eq-ok (the_network c) (λ n. elim n.txn_timeout [ none ↦ Result.panic | some t ↦ ok tt ])
        {out = u} h in
    elim (Option-cases n.txn_timeout) [
      | inl e ↦ absurd (ground (arith, e, h1))
      | inr (t, e) ↦ (n, q, t, e)
    ]

with_timeout_complete :
    (c : Config) (n : Network) (t : ℤ)
    → the_network c ≡ ok n
    → n.txn_timeout ≡ some t
    → with_timeout c ≡ ok tt
unfolding with_timeout
with_timeout_complete c n t q e = ground (arith, q, e)

module _ {Signed : Type 0} (node : TransferNode Signed) (config : Config) where
  -- The network's timeout, and the gas limit, the price and the chain that the function found.
  abbrev pub IsPrepared : Keyring → Transfer → Prepared → Type 0
  IsPrepared keys t p =
      (is_out_of_range keys t.from_key_num ≡ false)
      × (node.network_id ≡ inr p.chain_id)
      × (key_at keys.addresses t.from_key_num ≡ ok p.address)
      × (n : Network) × (the_network config ≡ ok n)
      × (timeout : ℤ) × (n.txn_timeout ≡ some timeout)
      × (p.gas_limit
          ≡ gas_limit_of n.transfer_gas_fee
              (estimate_gas_limit node config p.address (node.hex_to_address t.to) t.value))
      × (p.price ≡ or_configured n.gas_price t.gas_price)

  pub transfer_gas_limit-ok :
      (from to : Text) (amount : ℤ) {limit : ℤ}
      → transfer_gas_limit node config from to amount ≡ ok limit
      → (n : Network) × (the_network config ≡ ok n)
        × (timeout : ℤ) × (n.txn_timeout ≡ some timeout)
        × (limit ≡ gas_limit_of n.transfer_gas_fee (estimate_gas_limit node config from to amount))
  unfolding transfer_gas_limit
  transfer_gas_limit-ok from to amount {limit} h =
      let estimate = estimate_gas_limit node config from to amount in
      let (u, t, h1) =
        bind-eq-ok (with_timeout config)
          (λ u. do n ← the_network config; ok (gas_limit_of n.transfer_gas_fee estimate))
          {out = limit} h in
      let (n, q, h2) =
        bind-eq-ok (the_network config) (λ n. ok (gas_limit_of n.transfer_gas_fee estimate))
          {out = limit} h1 in
      let (n', q', timeout, e) = with_timeout-ok config t in
      let same : n' ≡ n = ground (arith, q, q') in
      (n, q, timeout, ap (λ (n : Network). n.txn_timeout) (sym same) ∙ e, ground (arith, h2))

  prepare_in_range-IsPrepared :
      (keys : Keyring) (t : Transfer) {p : Prepared}
      → is_out_of_range keys t.from_key_num ≡ false
      → prepare_in_range node config keys t ≡ ok p
      → IsPrepared keys t p
  unfolding prepare_in_range
  prepare_in_range-IsPrepared keys t {p} inside h =
      let to = node.hex_to_address t.to in
      let made : ℤ → Text → ℤ → Network → Prepared = made_of t.gas_price in
      let (id, w, h1) =
        bind-eq-ok (wrap_err (codes "failed to get network ID") (answered node.network_id))
          (λ id. do
            address ← key_at keys.addresses t.from_key_num
            limit ← transfer_gas_limit node config address to t.value
            n ← the_network config
            ok (made id address limit n))
          {out = p} h in
      let (address, a, h2) =
        bind-eq-ok (key_at keys.addresses t.from_key_num)
          (λ address. do
            limit ← transfer_gas_limit node config address to t.value
            n ← the_network config
            ok (made id address limit n))
          {out = p} h1 in
      let (limit, l, h3) =
        bind-eq-ok (transfer_gas_limit node config address to t.value)
          (λ limit. do n ← the_network config; ok (made id address limit n)) {out = p} h2 in
      let (n, q, h4) =
        bind-eq-ok (the_network config) (λ n. ok (made id address limit n)) {out = p} h3 in
      let (n', q', timeout, e', g) = transfer_gas_limit-ok address to t.value l in
      let e : made id address limit n ≡ p = ground (arith, h4) in
      let same : n' ≡ n = ground (arith, q, q') in
      subst (λ p. IsPrepared keys t p) e
        (
          inside,
          answered-ok node.network_id
              (wrap_err-ok (codes "failed to get network ID") (answered node.network_id) w),
          a,
          n,
          q,
          timeout,
          ap (λ (n : Network). n.txn_timeout) (sym same) ∙ e',
          ground (arith, g, same),
          refl,
        )

  pub prepare-IsPrepared :
      (keys : Keyring) (t : Transfer) {p : Prepared}
      → prepare node config keys t ≡ ok p
      → IsPrepared keys t p
  unfolding prepare
  prepare-IsPrepared keys t h = elim (Bool-cases (is_out_of_range keys t.from_key_num)) [
    | inl e ↦ absurd (ground (arith, e))
    | inr e ↦ prepare_in_range-IsPrepared keys t e (ground (arith, e, h))
  ]

  -- What IsPrepared says is all that the function asks for.
  pub prepare_complete :
      (keys : Keyring) (t : Transfer) (p : Prepared)
      → IsPrepared keys t p
      → prepare node config keys t ≡ ok p
  unfolding prepare prepare_in_range transfer_gas_limit answered wrap_err
  prepare_complete keys t p (inside, id, a, n, q, timeout, e, g, x) =
      ground (arith, inside, id, a, q, with_timeout_complete config n timeout q e, g, x)

  pub sign_transfer_complete :
      (keys : Keyring) (t : Transfer) (p : Prepared) (nonce : ℤ) (key : Text) (signed : Signed)
      → IsPrepared keys t p
      → key_at keys.private_keys t.from_key_num ≡ ok key
      → node.sign key p.chain_id (transfer_tx node config t p nonce) ≡ inr signed
      → sign_transfer node config keys t p nonce ≡ ok signed
  unfolding sign_transfer answered wrap_err
  sign_transfer_complete keys t p nonce key signed (inside, id, a, n, q, timeout, e, g, x) k s =
      ground (arith, k, s, with_timeout_complete config n timeout q e)

  pub sign_transfer-ok :
      (keys : Keyring) (t : Transfer) (p : Prepared) (nonce : ℤ) {signed : Signed}
      → sign_transfer node config keys t p nonce ≡ ok signed
      → (key : Text) × (key_at keys.private_keys t.from_key_num ≡ ok key)
        × (node.sign key p.chain_id (transfer_tx node config t p nonce) ≡ inr signed)
  unfolding sign_transfer
  sign_transfer-ok keys t p nonce {signed} h =
      let attempt : Text → Result Signed = λ key.
        wrap_err (codes "failed to sign tx")
          (answered (node.sign key p.chain_id (transfer_tx node config t p nonce))) in
      let (key, k, h1) =
        bind-eq-ok (key_at keys.private_keys t.from_key_num)
          (λ key. do s ← attempt key; u ← with_timeout config; ok s) {out = signed} h in
      let (s, a, h2) =
        bind-eq-ok (attempt key) (λ s. do u ← with_timeout config; ok s) {out = signed} h1 in
      let (u, w, h3) = bind-eq-ok (with_timeout config) (λ u. ok s) {out = signed} h2 in
      (
        key,
        k,
        answered-ok (node.sign key p.chain_id (transfer_tx node config t p nonce)) (
            wrap_err-ok (codes "failed to sign tx")
              (answered (node.sign key p.chain_id (transfer_tx node config t p nonce))) (a ∙ h3)),
      )

  receive-ok :
      (signed : Signed)
      → receive node config signed ≡ ok tt
      → (receipt : Receipt) × (wait_mined node.done (node.answers signed) ≡ ok receipt)
  unfolding receive
  receive-ok signed h =
      let (receipt, r, h1) =
        bind-eq-ok (wait_mined node.done (node.answers signed)) (λ receipt. ok tt) {out = tt} h in
      (receipt, r)

  -- The wallet after a transfer whose nonce was counted.
  abbrev pub counted : Text → Wallet Signed → Wallet Signed
  counted address w = record w { manager = (next_nonce address w.manager).1 }

  -- The transfer `t` was signed, the node took it, and its receipt came.
  abbrev pub IsSent : Keyring → Transfer → Wallet Signed → Wallet Signed → Type 0
  IsSent keys t w w' =
      (p : Prepared) × IsPrepared keys t p
      × (key : Text) × (key_at keys.private_keys t.from_key_num ≡ ok key)
      × (signed : Signed) × (node.sign key p.chain_id
            (transfer_tx node config t p (next_nonce p.address w.manager).0)
          ≡ inr signed)
      × (node.send signed ≡ inr tt)
      × (receipt : Receipt) × (wait_mined node.done (node.answers signed) ≡ ok receipt)
      × (w' ≡ record (counted p.address w) { sent = w.sent ++ signed ∷ [] })

  send_transfer-ok :
      (w : Wallet Signed) (signed : Signed) {w' : Wallet Signed}
      → send_transfer node config w signed ≡ (w', ok tt)
      → (node.send signed ≡ inr tt)
        × (receipt : Receipt) × (wait_mined node.done (node.answers signed) ≡ ok receipt)
        × (w' ≡ record w { sent = w.sent ++ signed ∷ [] })
  unfolding send_transfer
  send_transfer-ok w signed {w'} h = elim (⊎-cases (node.send signed)) [
    | inl (e, q) ↦ absurd (ground (arith, q, h))
    | inr (tt, q) ↦
        let after : Wallet Signed = record w { sent = w.sent ++ signed ∷ [] } in
        let e : pair after (receive node config signed) ≡ (w', ok tt) = ground (arith, q, h) in
        let (receipt, r) = receive-ok signed (ap (λ (x : Wallet Signed × Done). x.1) e) in
        (q, receipt, r, sym (ap (λ (x : Wallet Signed × Done). x.0) e))
  ]

  count_and_send-ok :
      (keys : Keyring) (t : Transfer) (p : Prepared) (w : Wallet Signed) {w' : Wallet Signed}
      → IsPrepared keys t p
      → count_and_send node config keys t p w ≡ (w', ok tt)
      → IsSent keys t w w'
  unfolding count_and_send
  count_and_send-ok keys t p w prepared h =
      let nonce = (next_nonce p.address w.manager).0 in
      elim (Result-cases (sign_transfer node config keys t p nonce)) [
        | inl (signed, s) ↦
            let (key, k, q) = sign_transfer-ok keys t p nonce s in
            let (sent, receipt, r, e) =
              send_transfer-ok (counted p.address w) signed (ground (arith, s, h)) in
            (p, prepared, key, k, signed, q, sent, receipt, r, e)
        | inr (inl (e, s)) ↦ absurd (ground (arith, s, h))
        | inr (inr s) ↦ absurd (ground (arith, s, h))
      ]

  -- A transfer that succeeds has found the chain, the key and its address, was signed as a legacy
  -- transaction with the manager's next nonce for that address, with the gas limit estimated or
  -- configured and the gas price given or configured, was taken by the node, and got its receipt. It
  -- counts one nonce and adds one transaction to those that were sent.
  pub transfer_eth_from_key-IsSent :
      (keys : Keyring) (t : Transfer) (w w' : Wallet Signed)
      → transfer_eth_from_key node config keys t w ≡ (w', ok tt)
      → IsSent keys t w w'
  unfolding transfer_eth_from_key
  transfer_eth_from_key-IsSent keys t w w' h = elim (Result-cases (prepare node config keys t)) [
    | inl (p, q) ↦ count_and_send-ok keys t p w (prepare-IsPrepared keys t q) (ground (arith, q, h))
    | inr (inl (e, q)) ↦ absurd (ground (arith, q, h))
    | inr (inr q) ↦ absurd (ground (arith, q, h))
  ]
