-- ===== src/Mining.antt =====
-- client.go: waiting until a transaction is mined, with the replacement transactions of Decode.
-- retry.Do belongs to package retry-go and is the parameter `RetryLib`.
pub mod Bumps
use seth.Prelude.{
  ℕ, zero, suc, Bool, true, false, not, ◌&&◌, Option, none, some, List, [], ◌∷◌, ◌==◌,
  if◌then◌else◌, ◌≡◌, ◌⊎◌, inl, inr,
}
use seth.Prelude.Text.{Text}
use seth.Prelude.Errors.{Error, deadline_exceeded, is_deadline, Result, ok, err, ◌>>=◌, Done}
use seth.Config.{Config, GasBumpConfig, gas_bump_retries}
use seth.Client.{with_timeout}
use seth.Retry.{Chain, prepare_replacement}

-- types.Log
pub record TxLog : Type 0 where
  pub topics : List Text
  pub payload : Text
  pub address : Text
  pub block_number : ℕ
  pub index : ℕ
  pub tx_hash : Text
  pub tx_index : ℕ
  pub removed : Bool

-- types.Receipt
pub record Receipt : Type 0 where
  pub status : ℕ
  pub logs : List TxLog
  pub transaction_index : ℕ
  pub block_number : ℕ

-- WaitMined: the node's answers for the receipt until the context is done, and the context's error
unfoldable pub wait_mined : Error → List (Error ⊎ Receipt) → Result Receipt
wait_mined done [] = err done
wait_mined done (inl e ∷ answers) = wait_mined done answers
wait_mined done (inr receipt ∷ answers) = ok receipt

-- retry.Do with its attempts, the function, OnRetry and RetryIf, on the variables that the functions
-- change. `none` is a panic in OnRetry.
pub record RetryLib : Type 1 where
  pub retry :
      (S : Type 0) → ℕ → (S → S × Done) → (S → Error → Option S) → (Error → Bool) → S → S × Done

-- What its documentation says: it calls the function until it gives no error, as often as there are
-- attempts, with OnRetry before each further call, and stops at an error that RetryIf does not accept.
pub record Retries (lib : RetryLib) : Type 1 where
  pub succeeds :
      (S : Type 0) (n : ℕ) (f : S → S × Done) (on : S → Error → Option S) (when : Error → Bool)
      (s s' : S)
      → f s ≡ (s', ok tt)
      → lib.retry S (suc n) f on when s ≡ (s', ok tt)
  pub again :
      (S : Type 0) (n : ℕ) (f : S → S × Done) (on : S → Error → Option S) (when : Error → Bool)
      (s s' s'' : S) (e : Error)
      → f s ≡ (s', err e)
      → when e ≡ true
      → on s' e ≡ some s''
      → lib.retry S (suc (suc n)) f on when s ≡ lib.retry S (suc n) f on when s''
  -- the outcomes without a value
  pub crashes :
      (S : Type 0) (n : ℕ) (f : S → S × Done) (on : S → Error → Option S) (when : Error → Bool)
      (s s' : S) (e : Error)
      → (f s ≡ (s', Result.panic)) ⊎ ((f s ≡ (s', err e)) × (when e ≡ true) × (on s' e ≡ none))
      → (lib.retry S (suc n) f on when s).1 ≡ Result.panic
  pub stops :
      (S : Type 0) (n : ℕ) (f : S → S × Done) (on : S → Error → Option S) (when : Error → Bool)
      (s s' : S) (e : Error)
      → f s ≡ (s', err e)
      → when e ≡ false
      → (e' : Error) × ((lib.retry S (suc n) f on when s).1 ≡ err e')
  pub ends :
      (S : Type 0) (f : S → S × Done) (on : S → Error → Option S) (when : Error → Bool)
      (s s' s'' : S) (e : Error)
      → f s ≡ (s', err e)
      → when e ≡ true
      → on s' e ≡ some s''
      → (e' : Error) × ((lib.retry S 1 f on when s).1 ≡ err e')

-- At the attempt of a number: the chain that a replacement meets, and the node's answers for the
-- receipt of a transaction.
pub record Times (Signed : Type 0) : Type 0 where
  pub chain : ℕ → Chain Signed
  pub answers : ℕ → Signed → List (Error ⊎ Receipt)

-- The variables of Decode that the attempts change.
pub record Attempt (Signed : Type 0) : Type 0 where
  pub number : ℕ
  pub tx : Signed
  pub receipt : Option Receipt

module _ {Signed : Type 0} (lib : RetryLib) (times : Times Signed) (c : Config)
    (addresses : List Text) where
  unfoldable pub wait_once : Attempt Signed → Attempt Signed × Done
  wait_once s =
      elim (do u ← with_timeout c; wait_mined deadline_exceeded (times.answers s.number s.tx)) [
        | ok receipt ↦ (record s { receipt = some receipt }, ok tt)
        | err e ↦ (record s { receipt = none }, err e)
        | Result.panic ↦ (s, Result.panic)
      ]

  -- OnRetry: the transaction stays where there is no replacement
  unfoldable pub bump_once : Attempt Signed → Error → Option (Attempt Signed)
  bump_once s e = elim (prepare_replacement (times.chain s.number) c addresses s.tx) [
    | ok new ↦ some (record s { number = suc s.number; tx = new })
    | err e' ↦ some (record s { number = suc s.number })
    | Result.panic ↦ none
  ]

  unfoldable pub attempts_of : ℕ
  attempts_of = if gas_bump_retries c == 0 then 1 else gas_bump_retries c

  unfoldable pub is_retried : Error → Bool
  is_retried e = not (gas_bump_retries c == 0) && is_deadline e

  -- the transaction that is mined in the end, and its receipt, which is read next
  unfoldable pub mined : Signed → Result (Signed × Receipt)
  mined tx =
      let (s, done) =
        lib.retry (Attempt Signed) attempts_of wait_once bump_once is_retried
          (record { number = 0; tx = tx; receipt = none }) in
      do u ← done; elim s.receipt [ none ↦ Result.panic | some receipt ↦ ok (s.tx, receipt) ]
