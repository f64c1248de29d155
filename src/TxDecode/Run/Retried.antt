-- ===== src/TxDecode/Run/Retried.antt =====
-- What RetryTxAndDecode returns.
use seth.Prelude.{
  ℕ, zero, suc, ◌+◌, ◌≤◌, ◌<◌, ◌≡◌, true, Option, none, some, Bool-cases, inl, inr, refl, ap, sym,
  ◌∙◌, subst, arith, ℕ_discrete,
}
use seth.Prelude.Errors.{Error, Result, ok, err, Result-cases, Done}
use seth.AbiFinder.{AbiLib}
use seth.Decode.{Codec}
use seth.Mining.{RetryLib, Retries, Times}
use seth.TxDecode.{TxParts, DecodedTransaction}
use seth.TxDecode.Reverts.{RevertLib}
use seth.TxDecode.Run.{
  Decoder, TraceTx, Outcome, Submission, submit_once, is_refused, without_error, decode,
  retry_tx_and_decode,
}

abbrev pair {ℓ} : {A B : Type ℓ} → A → B → A × B
pair a b = (a, b)

without_error-some :
    {lib : AbiLib} {codec : Codec lib} {Signed : Type 0} (s' : Decoder lib codec)
    (d : DecodedTransaction Signed (Codec.Value codec)) (r : Option Error)
    (out : Decoder lib codec × Result (Outcome lib codec Signed))
    → ◌≡◌ {A = Decoder lib codec × Result (Outcome lib codec Signed)}
        (out.0, without_error lib codec out.1)
        (s', ok (some d, r))
    → (r ≡ none) × (out ≡ (s', ok (some d, none)))
unfolding without_error
without_error-some s' d r (s, Result.panic) h = absurd (ground (arith, h))
without_error-some s' d r (s, err e) h = absurd (ground (arith, h))
without_error-some s' d r (s, ok (d', none)) h = (ground (arith, h), ground (arith, h))
without_error-some s' d r (s, ok (d', some e)) h = absurd (ground (arith, h))

module _ {Signed : Type 0} (retry_lib : RetryLib) (law : Retries retry_lib)
    (send : ℕ → Option Signed × Done) where
  -- The call `k` gave no error, and those from `from` on before it were refused.
  abbrev pub IsSent : ℕ → ℕ → Option Signed → Type 0
  IsSent from k tx =
      (send k ≡ (tx, ok tt))
      × ((i : ℕ) → from ≤ i → i < k → (e : Error) × ((send i).1 ≡ err e) × (is_refused e ≡ true))

  abbrev pub attempts : ℕ → Submission Signed → Submission Signed × Done
  attempts n s =
      retry_lib.retry (Submission Signed) n (submit_once send) (λ s e. some s) is_refused s

  abbrev HasSent : ℕ → ℕ → Submission Signed → Type 0
  HasSent from n s' = (k : ℕ) × (from ≤ k) × (k < from + n) × IsSent from k s'.tx

  abbrev after : Submission Signed → Submission Signed
  after s = record { calls = suc s.calls; tx = (send s.calls).0 }

  called :
      (s : Submission Signed) (d : Done) → (send s.calls).1 ≡ d → submit_once send s ≡ (after s, d)
  unfolding submit_once
  called s d q = ap (λ (x : Done). pair (after s) x) q

  not_panic :
      (n : ℕ) (s s' : Submission Signed)
      → (attempts n s).1 ≡ Result.panic
      → attempts n s ≡ (s', ok tt)
      → ⊥
  not_panic n s s' h e =
      let q : ◌≡◌ {A = Done} Result.panic (ok tt) =
        sym h ∙ ap (λ (out : Submission Signed × Done). out.1) e in
      cc q

  not_err :
      (n : ℕ) (s s' : Submission Signed) (x : Error)
      → (attempts n s).1 ≡ err x
      → attempts n s ≡ (s', ok tt)
      → ⊥
  not_err n s s' x h e =
      let q : ◌≡◌ {A = Done} (err x) (ok tt) =
        sym h ∙ ap (λ (out : Submission Signed × Done). out.1) e in
      cc q

  -- one call, with what follows when it is refused
  call-HasSent :
      (n : ℕ) (s s' : Submission Signed)
      → attempts (suc n) s ≡ (s', ok tt)
      → ((e : Error) → (send s.calls).1 ≡ err e → is_refused e ≡ true → HasSent s.calls (suc n) s')
      → HasSent s.calls (suc n) s'
  call-HasSent n s s' h next = elim (Result-cases (send s.calls).1) [
    | inr (inr q) ↦ absurd (
        not_panic (suc n) s s'
          (law.crashes _ n _ _ _ s (after s) Error.not_found (inl (called s Result.panic q))) h)
    | inl (u, q) ↦
        let same : after s ≡ s' =
          ap (λ (out : Submission Signed × Done). out.0)
            (sym (law.succeeds _ n _ _ _ s (after s) (called s (ok tt) q)) ∙ h) in
        subst (HasSent s.calls (suc n)) same (
          s.calls,
          omega arith,
          omega arith,
          (ap (pair (send s.calls).0) q, λ i lo hi. absurd (omega arith)),
        )
    | inr (inl (e, q)) ↦ elim (Bool-cases (is_refused e)) [
      | inl r ↦ next e q r
      | inr r ↦
          let (x, z) = law.stops _ n _ _ _ s (after s) e (called s (err e) q) r in
          absurd (not_err (suc n) s s' x z h)
    ]
  ]

  -- the calls from the next one on, with the refused one before them
  after-HasSent :
      (n : ℕ) (s s' : Submission Signed) (e : Error)
      → (send s.calls).1 ≡ err e
      → is_refused e ≡ true
      → HasSent (suc s.calls) (suc n) s'
      → HasSent s.calls (suc (suc n)) s'
  after-HasSent n s s' e q r (k, lo, hi, (sent, before)) = (
    k,
    omega arith,
    omega arith,
    (
      sent,
      λ i from to. elim (ℕ_discrete i s.calls) [
        | yes same ↦ (e, ap (λ j. (send j).1) same ∙ q, r)
        | no other ↦ before i (omega arith) to
      ],
    ),
  )

  attempts-HasSent :
      (n : ℕ) (s s' : Submission Signed)
      → attempts (suc n) s ≡ (s', ok tt)
      → HasSent s.calls (suc n) s'
  attempts-HasSent zero s s' h = call-HasSent zero s s' h (λ e q r.
      let (x, z) = law.ends _ _ _ _ s (after s) (after s) e (called s (err e) q) r refl in
      absurd (not_err 1 s s' x z h))
  attempts-HasSent (suc n) s s' h = call-HasSent (suc n) s s' h (λ e q r.
      after-HasSent n s s' e q r (
        attempts-HasSent n (after s) s'
          (sym (law.again _ n _ _ _ s (after s) (after s) e (called s (err e) q) r refl) ∙ h)))

  module _ (lib : AbiLib) (codec : Codec lib) (parts : TxParts Signed)
      (reverts : RevertLib lib Signed) (times : Times Signed) (trace_tx : TraceTx lib codec) where
    open codec use {Value}

    -- With a retry.Do that does what its documentation says: where RetryTxAndDecode returns a transaction,
    -- it returns no error, one of the first ten calls of the function gave no error and all before it
    -- failed with a refused connection; and the transaction is what Decode returns, without an
    -- error, for the one of that call.
    pub retry_tx_and_decode-IsSent :
        (s s' : Decoder lib codec) (d : DecodedTransaction Signed Value) (r : Option Error)
        → retry_tx_and_decode lib codec parts reverts retry_lib times trace_tx send s
          ≡ (s', ok (some d, r))
        → (r ≡ none)
          × (k : ℕ) × (tx : Option Signed) × (k < 10)
          × IsSent 0 k tx
          × (decode lib codec parts reverts retry_lib times trace_tx s tx none
              ≡ (s', ok (some d, none)))
    unfolding retry_tx_and_decode
    retry_tx_and_decode-IsSent s s' d r h =
        let start : Submission Signed = record { calls = 0; tx = none } in
        let out = attempts 10 start in
        elim (Result-cases out.1) [
          | inr (inl (e, q)) ↦ absurd (ground (arith, q, h))
          | inr (inr q) ↦ absurd (ground (arith, q, h))
          | inl (u, q) ↦
              let (k, lo, hi, sent) = attempts-HasSent 9 start out.0 (ap (pair out.0) q) in
              let (same, e) =
                without_error-some s' d r
                  (decode lib codec parts reverts retry_lib times trace_tx s out.0.tx none)
                  (ground (arith, q, h)) in
              (same, k, out.0.tx, omega arith, sent, e)
        ]
