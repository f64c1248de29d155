-- ===== src/Mining/Bumps.antt =====
-- Which transaction is mined in the end.
use seth.Prelude.{
  ℕ, zero, suc, ◌+◌, ◌<◌, ◌≡◌, subst, true, none, some, List, [], ◌∷◌, ◌==◌, arith, inl, inr, refl,
  sym, ◌∙◌, ap, Bool-cases, Option-cases, ◌⊎◌, if◌then◌else◌,
}
use seth.Prelude.Text.{Text}
use seth.Prelude.Errors.{Error, deadline_exceeded, Result, ok, err, bind-eq-ok, Result-cases, Done}
use seth.Config.{Config, Network, gas_bump_retries, the_network, deref}
use seth.Client.{with_timeout}
use seth.Retry.{prepare_replacement}
use seth.Mining.{
  Receipt, wait_mined, RetryLib, Retries, Times, Attempt, wait_once, bump_once, attempts_of,
  is_retried, mined,
}

-- No answer of the node is a receipt.
abbrev pub IsSilent : List (Error ⊎ Receipt) → Type 0
IsSilent [] = Unit
IsSilent (inl e ∷ answers) = IsSilent answers
IsSilent (inr receipt ∷ answers) = ⊥

-- The receipt is the first that the node gave.
abbrev pub IsFirst : Receipt → List (Error ⊎ Receipt) → Type 0
IsFirst receipt [] = ⊥
IsFirst receipt (inl e ∷ answers) = IsFirst receipt answers
IsFirst receipt (inr r ∷ answers) = r ≡ receipt

wait_mined-err :
    (done e : Error) (answers : List (Error ⊎ Receipt))
    → wait_mined done answers ≡ err e
    → (e ≡ done) × IsSilent answers
unfolding wait_mined
wait_mined-err done e [] h = (ground (arith, h), tt)
wait_mined-err done e (inl x ∷ answers) h = wait_mined-err done e answers h
wait_mined-err done e (inr r ∷ answers) h = cc

wait_mined-ok :
    (done : Error) (receipt : Receipt) (answers : List (Error ⊎ Receipt))
    → wait_mined done answers ≡ ok receipt
    → IsFirst receipt answers
unfolding wait_mined
wait_mined-ok done receipt [] h = cc
wait_mined-ok done receipt (inl x ∷ answers) h = wait_mined-ok done receipt answers h
wait_mined-ok done receipt (inr r ∷ answers) h = ground (arith, h)

deref-err : (heap : List Network) (p : ℕ) (e : Error) → deref heap p ≡ err e → ⊥
unfolding deref
deref-err [] p e h = cc
deref-err (n ∷ heap) zero e h = cc
deref-err (n ∷ heap) (suc p) e h = deref-err heap p e h

the_network-err : (c : Config) (e : Error) → the_network c ≡ err e → ⊥
unfolding the_network
the_network-err c e h = elim (Option-cases c.network) [
  | inl q ↦ absurd (ground (arith, q, h))
  | inr (p, q) ↦ deref-err c.heap p e (ground (arith, q, h))
]

with_timeout-err : (c : Config) (e : Error) → with_timeout c ≡ err e → ⊥
unfolding with_timeout
with_timeout-err c e h = elim (Result-cases (the_network c)) [
  | inl (n, q) ↦ elim (Option-cases n.txn_timeout) [
    | inl g ↦ absurd (ground (arith, q, g, h))
    | inr (t, g) ↦ absurd (ground (arith, q, g, h))
  ]
  | inr (inl (x, q)) ↦ absurd (the_network-err c x q)
  | inr (inr q) ↦ absurd (ground (arith, q, h))
]

abbrev pair {ℓ} : {A B : Type ℓ} → A → B → A × B
pair a b = (a, b)

some_attempt : (retries : ℕ) → (n : ℕ) × ((if retries == 0 then 1 else retries) ≡ suc n)
some_attempt zero = (0, refl)
some_attempt (suc n) = (n, ground arith)

module _ {Signed : Type 0} (times : Times Signed) (c : Config) (addresses : List Text) where
  -- A transaction after attempts that ended without a receipt: after each it was replaced, or kept
  -- where no replacement could be made.
  pub data Bumped (tx : Signed) : ℕ → Signed → Type 0 where
    first : Bumped tx 0 tx
    replaced :
        {k : ℕ} {t : Signed} (new : Signed)
        → Bumped tx k t
        → IsSilent (times.answers k t)
        → prepare_replacement (times.chain k) c addresses t ≡ ok new
        → Bumped tx (suc k) new
    kept :
        {k : ℕ} {t : Signed} (e : Error)
        → Bumped tx k t
        → IsSilent (times.answers k t)
        → prepare_replacement (times.chain k) c addresses t ≡ err e
        → Bumped tx (suc k) t

  module _ (lib : RetryLib) (law : Retries lib) where
    abbrev rest : ℕ → Attempt Signed → Attempt Signed × Done
    rest n s =
        lib.retry (Attempt Signed) n (wait_once lib times c addresses)
          (bump_once lib times c addresses) (is_retried lib times c addresses) s

    -- What an attempt that ended well left.
    abbrev IsMined : Signed → ℕ → Attempt Signed → Type 0
    IsMined tx bound s =
        Bumped tx s.number s.tx
        × (s.number < bound)
        × (receipt : Receipt) × (s.receipt ≡ some receipt)
        × IsFirst receipt (times.answers s.number s.tx)

    wait_once-cases :
        (s : Attempt Signed)
        → ((receipt : Receipt) × (wait_once lib times c addresses s
              ≡ (record s { receipt = some receipt }, ok tt))
            × IsFirst receipt (times.answers s.number s.tx))
          ⊎ (((e : Error) × (wait_once lib times c addresses s
                  ≡ (record s { receipt = none }, err e))
                × IsSilent (times.answers s.number s.tx))
              ⊎ (wait_once lib times c addresses s ≡ (s, Result.panic)))
    unfolding wait_once
    wait_once-cases s = elim (Result-cases (with_timeout c)) [
      | inr (inl (e, q)) ↦ absurd (with_timeout-err c e q)
      | inr (inr q) ↦ inr (inr (ground (arith, q)))
      | inl (u, q) ↦
          elim (Result-cases (wait_mined deadline_exceeded (times.answers s.number s.tx))) [
            | inl (receipt, e) ↦
                inl (receipt, ground (arith, q, e), wait_mined-ok deadline_exceeded receipt _ e)
            | inr (inl (e, g)) ↦
                inr (inl (e, ground (arith, q, g), (wait_mined-err deadline_exceeded e _ g).1))
            | inr (inr g) ↦ inr (inr (ground (arith, q, g)))
          ]
    ]

    bump_once-cases :
        (s : Attempt Signed) (e : Error)
        → ((new : Signed) × (prepare_replacement (times.chain s.number) c addresses s.tx ≡ ok new)
            × (bump_once lib times c addresses s e
                ≡ some (record s { number = suc s.number; tx = new })))
          ⊎ (((x : Error) × (prepare_replacement (times.chain s.number) c addresses s.tx ≡ err x)
                × (bump_once lib times c addresses s e ≡ some (record s { number = suc s.number })))
              ⊎ (bump_once lib times c addresses s e ≡ none))
    unfolding bump_once
    bump_once-cases s e =
        elim (Result-cases (prepare_replacement (times.chain s.number) c addresses s.tx)) [
          | inl (new, q) ↦ inl (new, q, ground (arith, q))
          | inr (inl (x, q)) ↦ inr (inl (x, q, ground (arith, q)))
          | inr (inr q) ↦ inr (inr (ground (arith, q)))
        ]

    -- a further attempt, from the state that OnRetry leaves
    Bumped-on :
        (tx : Signed) (s : Attempt Signed) (e : Error)
        → Bumped tx s.number s.tx
        → IsSilent (times.answers s.number s.tx)
        → (bump_once lib times c addresses (record s { receipt = none }) e ≡ none)
          ⊎ ((s'' : Attempt Signed) × (bump_once lib times c addresses
                  (record s { receipt = none })
                  e
                ≡ some s'')
              × (s''.number ≡ suc s.number)
              × Bumped tx s''.number s''.tx)
    Bumped-on tx s e b silent = elim (bump_once-cases (record s { receipt = none }) e) [
      | inl (new, q, g) ↦ inr (
        record s { receipt = none; number = suc s.number; tx = new },
        g,
        refl,
        replaced new b silent q,
      )
      | inr (inl (x, q, g)) ↦
          inr (record s { receipt = none; number = suc s.number }, g, refl, kept x b silent q)
      | inr (inr g) ↦ inl g
    ]

    not_panic :
        (n : ℕ) (s s' : Attempt Signed) → (rest n s).1 ≡ Result.panic → rest n s ≡ (s', ok tt) → ⊥
    not_panic n s s' h e =
        let q : ◌≡◌ {A = Done} Result.panic (ok tt) =
          sym h ∙ ap (λ (out : Attempt Signed × Done). out.1) e in
        cc q

    not_err :
        (n : ℕ) (s s' : Attempt Signed) (x : Error)
        → (rest n s).1 ≡ err x
        → rest n s ≡ (s', ok tt)
        → ⊥
    not_err n s s' x h e =
        let q : ◌≡◌ {A = Done} (err x) (ok tt) =
          sym h ∙ ap (λ (out : Attempt Signed × Done). out.1) e in
        cc q

    -- one attempt, with what follows after a replacement
    attempt-IsMined :
        (tx : Signed) (n : ℕ) (s s' : Attempt Signed)
        → Bumped tx s.number s.tx
        → rest (suc n) s ≡ (s', ok tt)
        → ((e : Error) (s'' : Attempt Signed)
            → wait_once lib times c addresses s ≡ (record s { receipt = none }, err e)
            → is_retried lib times c addresses e ≡ true
            → bump_once lib times c addresses (record s { receipt = none }) e ≡ some s''
            → s''.number ≡ suc s.number
            → Bumped tx s''.number s''.tx
            → IsMined tx (s.number + suc n) s')
        → IsMined tx (s.number + suc n) s'
    attempt-IsMined tx n s s' b h next = elim (wait_once-cases s) [
      | inr (inr q) ↦
          absurd (not_panic (suc n) s s' (law.crashes _ n _ _ _ s s deadline_exceeded (inl q)) h)
      | inl (receipt, e, g) ↦
          let same : record s { receipt = some receipt } ≡ s' =
            ap (λ (out : Attempt Signed × Done). out.0)
              (sym (law.succeeds _ n _ _ _ s (record s { receipt = some receipt }) e) ∙ h) in
          subst (IsMined tx (s.number + suc n)) same (b, omega arith, receipt, refl, g)
      | inr (inl (e, q, silent)) ↦ elim (Bool-cases (is_retried lib times c addresses e)) [
        | inr no_retry ↦
            let (e', z) = law.stops _ n _ _ _ s (record s { receipt = none }) e q no_retry in
            absurd (not_err (suc n) s s' e' z h)
        | inl retry ↦ elim (Bumped-on tx s e b silent) [
          | inl crash ↦ absurd (
              not_panic (suc n) s s'
                (law.crashes _ n _ _ _ s (record s { receipt = none }) e (inr (q, retry, crash))) h)
          | inr (s'', on, count, b') ↦ next e s'' q retry on count b'
        ]
      ]
    ]

    rest-IsMined :
        (tx : Signed) (n : ℕ) (s s' : Attempt Signed)
        → Bumped tx s.number s.tx
        → rest (suc n) s ≡ (s', ok tt)
        → IsMined tx (s.number + suc n) s'
    rest-IsMined tx zero s s' b h = attempt-IsMined tx zero s s' b h (λ e s'' q retry on count b'.
        let (e', z) = law.ends _ _ _ _ s (record s { receipt = none }) s'' e q retry on in
        absurd (not_err 1 s s' e' z h))
    rest-IsMined tx (suc n) s s' b h =
        attempt-IsMined tx (suc n) s s' b h (λ e s'' q retry on count b'.
          subst (λ bound. IsMined tx bound s') (omega arith)
            (rest-IsMined tx n s'' s' b'
              (sym (law.again _ n _ _ _ s (record s { receipt = none }) s'' e q retry on) ∙ h)))

    -- With a retry.Do that does what its documentation says: the transaction that Decode takes as mined
    -- has the receipt that the node gave first. Either it is the transaction itself, or it comes from
    -- it by replacements. Before each of them there was an attempt in which the node gave no receipt of
    -- the transaction of that time until the timeout, and where a replacement could not be made that
    -- transaction stayed. There are fewer of them than attempts, which are the retries of the
    -- configuration, and 1 where those are 0.
    pub mined-Bumped :
        (tx new : Signed) (receipt : Receipt)
        → mined lib times c addresses tx ≡ ok (new, receipt)
        → (k : ℕ) × Bumped tx k new
          × (k < (if gas_bump_retries c == 0 then 1 else gas_bump_retries c))
          × IsFirst receipt (times.answers k new)
    unfolding mined attempts_of
    mined-Bumped tx new receipt h =
        let start : Attempt Signed = record { number = 0; tx = tx; receipt = none } in
        let out = rest (attempts_of lib times c addresses) start in
        let (u, e, h1) =
          bind-eq-ok out.1
            (λ u. elim out.0.receipt [ none ↦ Result.panic | some r ↦ ok (out.0.tx, r) ])
            {out = (new, receipt)} h in
        let (bound, q) = some_attempt (gas_bump_retries c) in
        let ended : rest (attempts_of lib times c addresses) start ≡ (out.0, ok tt) =
          ap (λ (d : Done). pair out.0 d) e in
        let (b, lt, r, g, f) =
          rest-IsMined tx bound start out.0 first
            (subst (λ n. rest n start ≡ (out.0, ok tt)) q ended) in
        let same : (out.0.tx ≡ new) × (r ≡ receipt) = ground (arith, g, h1) in
        (
          out.0.number,
          subst (Bumped tx out.0.number) same.0 b,
          subst (λ n. out.0.number < n) (sym q) (omega arith),
          subst (λ t. IsFirst receipt (times.answers out.0.number t)) same.0
              (subst (λ x. IsFirst x (times.answers out.0.number out.0.tx)) same.1 f),
        )
