-- ===== src/Client/Options/Proposal.antt =====
-- What getProposedTransactionOptions proposes: marked with an error, or clean.
use seth.Prelude.{
  ℕ, ◌≤◌, true, ◌&&◌, Option, none, some, List, [], ◌∷◌, ◌++◌, ltb, get_elem?, ◌≡◌, ◌≢◌, sym, ap,
  subst, ◌∙◌, arith, Bool-cases, Option-cases, inl, inr,
}
use seth.Prelude.Int.{ℤ}
use seth.Prelude.Text.{Text}
use seth.Prelude.Errors.{Error, Result, ok, err, ◌>>=◌, bind-eq-ok}
use seth.Config.{Network, Config, the_network}
use seth.Client.{
  NonceStatus, GasEstimations, TransactOpts, Client, Node, Fees, with_timeout, get_nonce_status,
  default_gas_estimation_request, calculate_gas_estimations,
}
use seth.Client.Estimations.{IsPriced, calculate_gas_estimations-IsPriced}
use seth.Client.Options.{Proposed, add_error, marked, at_index, check_pending, proposed, propose}

-- The error of the options is the last one that the client keeps.
abbrev pub IsKept : Client → TransactOpts → Type 0
IsKept m opts =
    (e : Error)
    → opts.context_error ≡ some e
    → (before : List Error) × (m.errors ≡ before ++ e ∷ [])

-- What holds of a proposal without an error.
abbrev pub IsClean : Node → Client → ℕ → Proposed → Type 0
IsClean node m k p =
    (p.client.errors ≡ m.errors)
    × (address : Text) × (get_elem? m.addresses k ≡ some address)
    × (get_nonce_status node m.config address ≡ ok p.status)
    × (m.config.pending_nonce_protection_enabled ≡ true
        → p.status.pending_nonce ≤ p.status.last_nonce)
    × (n : Network) × IsPriced n (p.client.config, p.estimations)

check_pending_lem :
    (m : Client) (k : ℕ) (status : NonceStatus)
    → (((check_pending m k status).1 ≡ none)
        → ((check_pending m k status).0.errors ≡ m.errors)
          × (m.config.pending_nonce_protection_enabled ≡ true
              → status.pending_nonce ≤ status.last_nonce))
      × ((e : Error)
          → (check_pending m k status).1 ≡ some e
          → (check_pending m k status).0.errors ≡ m.errors ++ e ∷ [])
unfolding check_pending add_error
check_pending_lem m k status =
    elim (Bool-cases
      (m.config.pending_nonce_protection_enabled && ltb status.last_nonce status.pending_nonce)) [
        | inl q ↦ (λ h. absurd (ground (arith, q)), λ e h. ground (arith, q))
        | inr q ↦
            ((λ h. (ground (arith, q), λ on. ground arith)), λ e h. absurd (ground (arith, q)))
      ]

-- The timeout is there where the nonce status was read.
get_nonce_status_timeout :
    (node : Node) (c : Config) (n : Network) (address : Text) (status : NonceStatus)
    → the_network c ≡ ok n
    → get_nonce_status node c address ≡ ok status
    → (t : ℤ) × (n.txn_timeout ≡ some t)
unfolding get_nonce_status with_timeout
get_nonce_status_timeout node c n address status h g = elim (Option-cases n.txn_timeout) [
  | inl e ↦ absurd (ground (arith, h, e))
  | inr (t, e) ↦ (t, e)
]

module _ (node : Node) (fees : Fees) where
  pub proposed_lem :
      (m m1 : Client) (k : ℕ) (status : NonceStatus) (mark : Option Error) (est : GasEstimations)
      (r : Result Text) (p : Proposed)
      → proposed m1 k status mark est r ≡ ok p
      → ((e : Error) → mark ≡ some e → m1.errors ≡ m.errors ++ e ∷ [])
      → IsKept p.client p.opts
        × (p.opts.context_error ≡ none
            → (mark ≡ none) × (p.client ≡ m1) × (p.status ≡ status) × (p.estimations ≡ est))
  unfolding proposed marked add_error
  proposed_lem m m1 k status mark est (ok address) p h kept = (
    λ e q. (m.errors, ground (arith, h, q, kept e)),
    λ q. (ground (arith, h), ground (arith, h), ground (arith, h), ground (arith, h)),
  )
  proposed_lem m m1 k status mark est (err x) p h kept =
      (λ e q. (m1.errors, ground (arith, h)), λ q. absurd (ground (arith, h)))
  proposed_lem m m1 k status mark est Result.panic p h kept = cc

  marked_lem :
      (m : Client) (x : Error) (k : ℕ) (p : Proposed)
      → marked m x ≡ p
      → IsKept p.client p.opts × (p.opts.context_error ≡ none → IsClean node m k p)
  unfolding marked add_error
  marked_lem m x k p same =
      let errors_of = ap (λ y. y.client.errors) same in
      let mark_of = ap (λ y. y.opts.context_error) same in
      (
        λ e q. (m.errors, ground (arith, errors_of, mark_of, q)),
        λ q. absurd (ground (arith, mark_of, q)),
      )

  pub propose_lem :
      (m : Client) (k : ℕ) (address : Text) (r : Result NonceStatus) (p : Proposed)
      → ((priority : Text) → fees.legacy_fees priority ≢ Result.panic)
      → ((priority : Text) → fees.eip1559_fees priority ≢ Result.panic)
      → get_elem? m.addresses k ≡ some address
      → get_nonce_status node m.config address ≡ r
      → propose node fees m k r ≡ ok p
      → IsKept p.client p.opts × (p.opts.context_error ≡ none → IsClean node m k p)
  unfolding propose
  propose_lem m k address Result.panic p l d a s h = cc
  propose_lem m k address (err x) p l d a s h = marked_lem m x k p (ground (arith, h))
  propose_lem m k address (ok status) p l d a s h =
      let checked = check_pending m k status in
      let after_key = λ (out : Config × GasEstimations) (key : Text).
        proposed (record checked.0 { config = out.0 }) k status checked.1 out.1
          (node.transactor key) in
      let after_fees =
        λ (out : Config × GasEstimations). at_index m.private_keys k >>= after_key out in
      let (n, nh, h1) =
        bind-eq-ok (the_network m.config)
          (λ n.
            calculate_gas_estimations fees m.config (default_gas_estimation_request n)
            >>= after_fees)
          {out = p} h in
      let request = default_gas_estimation_request n in
      let (out, ch, h2) =
        bind-eq-ok (calculate_gas_estimations fees m.config request) after_fees {out = p} h1 in
      let (key, kh, h3) = bind-eq-ok (at_index m.private_keys k) (after_key out) {out = p} h2 in
      let pending = check_pending_lem m k status in
      let (kept, clean) =
        proposed_lem m (record checked.0 { config = out.0 }) k status checked.1 out.1
          (node.transactor key) p h3 pending.1 in
      let (t, th) = get_nonce_status_timeout node m.config n address status nh s in
      let (out', priced_out, priced) =
        calculate_gas_estimations-IsPriced fees m.config n t request nh th (l request.priority)
          (d request.priority) in
      let same : out' ≡ out = ground (arith, sym priced_out ∙ ch) in
      (
        kept,
        λ q.
            let (mk, pc, ps, pe) = clean q in
            let seen : out ≡ (p.client.config, p.estimations) = cc (ap (λ c. c.config) pc, pe) in
            (
              ap (λ c. c.errors) pc ∙ (pending.0 mk).0,
              address,
              a,
              s ∙ ap ok (sym ps),
              λ on. ground (arith, (pending.0 mk).1 on, ps),
              n,
              subst (λ o. IsPriced n o) (same ∙ seen) priced,
            ),
      )
