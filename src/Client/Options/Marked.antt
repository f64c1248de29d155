-- ===== src/Client/Options/Marked.antt =====
-- Transaction options are complete, or carry the error that the client keeps.
use seth.Prelude.{
  ℕ, ◌≤◌, true, ◌||◌, none, some, List, [], length, ltb, get_elem?, get_elem?-length, ◌≡◌, ◌≢◌,
  refl, sym, ap, subst, ◌∙◌, ◌⊎◌, arith, Bool-cases, inl, inr,
}
use seth.Prelude.Int.{ℤ, pos, negsuc, ltb_ℤ}
use seth.Prelude.Text.{Text}
use seth.Prelude.Words.{int64_of_word}
use seth.Prelude.Errors.{Error, Result, ok, ◌>>=◌, bind-eq-ok}
use seth.Config.{Network, Config, the_network}
use seth.Client.{
  NonceStatus, GasEstimations, TransactOpts, Client, Node, Fees, no_opts, get_nonce_status,
  configure, apply_all,
}
use seth.Client.Estimations.{IsPriced}
use seth.Client.Options.{
  Proposed, add_error, at_index, propose, get_proposed_transaction_options, configured, range_error,
  new_tx_key_opts,
}
use seth.Client.Options.Proposal.{IsKept, IsClean, propose_lem}

module _ (node : Node) (fees : Fees) where
  -- The options offer both caps and no gas price, or a gas price.
  abbrev pub IsOffered : TransactOpts → Type 0
  IsOffered opts =
      ((opts.gas_price ≡ none) × (opts.gas_fee_cap ≢ none) × (opts.gas_tip_cap ≢ none))
      ⊎ (opts.gas_price ≢ none)

  -- What holds of options without an error.
  abbrev pub IsComplete : Client → ℤ → Client → TransactOpts → Type 0
  IsComplete m key m' opts =
      (k : ℕ) × (key ≡ pos k)
      × (address : Text) × (get_elem? m.addresses k ≡ some address)
      × (status : NonceStatus) × (get_nonce_status node m.config address ≡ ok status)
      × (opts.nonce ≡ some (int64_of_word status.pending_nonce))
      × (m.config.pending_nonce_protection_enabled ≡ true
          → status.pending_nonce ≤ status.last_nonce)
      × (m'.errors ≡ m.errors)
      × IsOffered opts

  configure-IsOffered :
      (c : Config) (n n' : Network) (nonce : ℕ) (est : GasEstimations) (opts : TransactOpts)
      → IsPriced n (c, est)
      → the_network c ≡ ok n'
      → IsOffered (configure n' nonce est opts)
  unfolding configure
  configure-IsOffered c n n' nonce est opts (enabled, dynamic, at_c, caps, price) h =
      let flag : n'.eip1559_dynamic_fees ≡ dynamic =
        ground (arith, ap (λ r. r >>= λ x. ok x.eip1559_dynamic_fees) (sym h ∙ at_c)) in
      elim (Bool-cases dynamic) [
        | inl e ↦ inl (ground (arith, flag, e, (caps e).0, (caps e).1))
        | inr e ↦ inr (ground (arith, flag, e, price e))
      ]

  configure_kept :
      (n : Network) (nonce : ℕ) (est : GasEstimations) (opts : TransactOpts)
      → ((configure n nonce est opts).context_error ≡ opts.context_error)
        × ((configure n nonce est opts).nonce ≡ some (int64_of_word nonce))
  unfolding configure
  configure_kept n nonce est opts = ground arith

  at_index-ok : (xs : List Text) (i : ℕ) (x : Text) → at_index xs i ≡ ok x → get_elem? xs i ≡ some x
  unfolding at_index
  at_index-ok xs i x h = ground arith

  configured_lem :
      (m m' : Client) (k : ℕ) (p : Proposed) (opts : TransactOpts)
      → IsKept p.client p.opts
      → (p.opts.context_error ≡ none → IsClean node m k p)
      → configured [] p ≡ ok (m', opts)
      → IsKept m' opts × (opts.context_error ≡ none → IsComplete m (pos k) m' opts)
  unfolding configured apply_all
  configured_lem m m' k p opts kept clean h =
      let done = λ (n : Network). configure n p.status.pending_nonce p.estimations p.opts in
      let (n, nh, e) =
        bind-eq-ok (the_network p.client.config) (λ n. ok (p.client, done n)) {out = (m', opts)}
          h in
      let client_of : p.client ≡ m' = ground (arith, e) in
      let opts_of : done n ≡ opts = ground (arith, e) in
      let (mark, nonce) = configure_kept n p.status.pending_nonce p.estimations p.opts in
      let mark_of = sym mark ∙ ap (λ o. o.context_error) opts_of in
      (
        λ x q.
            let (before, z) = kept x (mark_of ∙ q) in
            (before, ap (λ c. c.errors) (sym client_of) ∙ z),
        λ q.
            let (same, address, a, s, safe, n0, priced) = clean (mark_of ∙ q) in
            (
              k,
              refl,
              address,
              a,
              p.status,
              s,
              ap (λ o. o.nonce) (sym opts_of) ∙ nonce,
              safe,
              ap (λ c. c.errors) (sym client_of) ∙ same,
              subst (λ o. IsOffered o) opts_of
                  (configure-IsOffered p.client.config n0 n p.status.pending_nonce p.estimations
                    p.opts priced nh),
            ),
      )

  refused :
      (m m' : Client) (x : Error) (key : ℤ) (opts : TransactOpts)
      → ◌≡◌ {A = Client × TransactOpts}
          (add_error m x, record no_opts { context_error = some x })
          (m', opts)
      → IsKept m' opts × (opts.context_error ≡ none → IsComplete m key m' opts)
  unfolding add_error
  refused m m' x key opts h =
      let errors_of = ap (λ r. r.0.errors) h in
      let mark_of = ap (λ r. r.1.context_error) h in
      (
        λ e q. (m.errors, ground (arith, errors_of, mark_of, q)),
        λ q. absurd (ground (arith, mark_of, q)),
      )

  -- When NewTXKeyOpts returns, its options carry an error in their context, which is then the last
  -- error that the client keeps; or they are complete: the number names a key, the nonce is the
  -- pending nonce of the key's address, no transaction of it is pending if that protection is on, the
  -- client keeps no new error, and the options offer both caps and no gas price, or a gas price. That
  -- holds before the caller's options, when the suggestions of fees do not panic.
  pub new_tx_key_opts-IsComplete :
      (m m' : Client) (key : ℤ) (opts : TransactOpts)
      → ((priority : Text) → fees.legacy_fees priority ≢ Result.panic)
      → ((priority : Text) → fees.eip1559_fees priority ≢ Result.panic)
      → new_tx_key_opts node fees [] m key ≡ ok (m', opts)
      → IsKept m' opts × (opts.context_error ≡ none → IsComplete m key m' opts)
  unfolding new_tx_key_opts get_proposed_transaction_options
  new_tx_key_opts-IsComplete m m' (negsuc k) opts l d h =
      refused m m' (range_error (length m.addresses) (negsuc k)) (negsuc k) opts (ground (arith, h))
  new_tx_key_opts-IsComplete m m' (pos k) opts l d h =
      elim (Bool-cases (ltb (length m.addresses) k)) [
        | inl q ↦
            refused m m' (range_error (length m.addresses) (pos k)) (pos k) opts
              (ground (arith, h, q))
        | inr q ↦
            let propose_for =
              λ (address : Text). propose node fees m k (get_nonce_status node m.config address) in
            let (p, a, h1) =
              bind-eq-ok (at_index m.addresses k >>= propose_for) (λ p. configured [] p)
                {out = (m', opts)} (ground (arith, h, q)) in
            let (address, b, h2) = bind-eq-ok (at_index m.addresses k) propose_for {out = p} a in
            let (kept, clean) =
              propose_lem node fees m k address (get_nonce_status node m.config address) p l d
                (at_index-ok m.addresses k address b) refl h2 in
            configured_lem m m' k p opts kept clean h1
      ]

-- A number just past the last key passes the range check and then panics; a number that is negative or
-- larger is refused with an error.
pub new_tx_key_opts_range :
    (node : Node) (fees : Fees) (m : Client) (key : ℤ)
    → (key ≡ pos (length m.addresses) → new_tx_key_opts node fees [] m key ≡ Result.panic)
      × ((ltb_ℤ key (pos 0) || ltb_ℤ (pos (length m.addresses)) key) ≡ true
          → new_tx_key_opts node fees [] m key
            ≡ ok (
              add_error m (range_error (length m.addresses) key),
              record no_opts { context_error = some (range_error (length m.addresses) key) },
            ))
unfolding new_tx_key_opts get_proposed_transaction_options at_index
new_tx_key_opts_range node fees m (negsuc k) = (λ e. cc, λ h. refl)
new_tx_key_opts_range node fees m (pos k) =
    (λ e. ground (arith, e, get_elem?-length m.addresses), λ h. ground (arith, h))
