-- ===== src/Client/Waiting.antt =====
-- WaitUntilNoPendingTx and rewriteDeploymentError of client.go.
use seth.Prelude.{
  ◌≤◌, Bool, true, false, List, [], ◌∷◌, ◌++◌, length, map, if◌then◌else◌, ltb, ◌≡◌, ◌⊎◌, inl, inr,
  refl, arith, All, none, some, get_elem?, Bool-cases,
}
use seth.Prelude.Int.{ℤ, pos, negsuc, ltb_ℤ, ◌-ℤ◌}
use seth.Prelude.Text.{Text, codes}
use seth.Prelude.Errors.{Error, plain, is_deadline, Result, ok, err, Done}
use seth.Client.{NonceStatus}

abbrev pub still_pending_error : Error
still_pending_error = plain (codes "address still had pending transactions")

-- The loop, by the nonce status read at each tick before the timeout.
unfoldable pub wait_until_no_pending : List (Result NonceStatus) → Done
wait_until_no_pending [] = err still_pending_error
wait_until_no_pending (err e ∷ ticks) = wait_until_no_pending ticks
wait_until_no_pending (Result.panic ∷ ticks) = Result.panic
wait_until_no_pending (ok status ∷ ticks) =
    if ltb status.last_nonce status.pending_nonce then wait_until_no_pending ticks else ok tt

-- WaitUntilNoPendingTxFoKeyNum, with the range check before the wait
abbrev pub key_range_error : Error
key_range_error = plain (codes "keyNum is out of range")

unfoldable pub wait_until_no_pending_of_key :
    List Text → (Text → List (Result NonceStatus)) → ℤ → Done
wait_until_no_pending_of_key addresses ticks (negsuc k) = err key_range_error
wait_until_no_pending_of_key addresses ticks (pos k) =
    if ltb_ℤ (pos (length addresses) -ℤ pos 1) (pos k)
    then err key_range_error
    else elim (get_elem? addresses k) [
      | none ↦ Result.panic
      | some address ↦ wait_until_no_pending (ticks address)
    ]

-- Some tick shows that nothing is pending any more.
unfoldable pub IsSettled : List (Result NonceStatus) → Type 0
IsSettled [] = ⊥
IsSettled (ok status ∷ ticks) = (status.pending_nonce ≤ status.last_nonce) ⊎ IsSettled ticks
IsSettled (r ∷ ticks) = IsSettled ticks

-- A tick is an answer or an error of the node.
abbrev pub Answered : List (Result NonceStatus) → Type 0
Answered = All (λ r. r ≡ Result.panic → ⊥)

-- The wait ends without an error exactly when, at a tick before the timeout, the pending nonce is not
-- above the last one; errors of the node at other ticks do not matter.
pub wait_until_no_pending-IsSettled :
    (ticks : List (Result NonceStatus))
    → Answered ticks
    → (wait_until_no_pending ticks ≡ ok tt → IsSettled ticks)
      × (IsSettled ticks → wait_until_no_pending ticks ≡ ok tt)
unfolding wait_until_no_pending IsSettled
wait_until_no_pending-IsSettled [] a = ((λ h. cc), λ s. absurd s)
wait_until_no_pending-IsSettled (err e ∷ ticks) a = wait_until_no_pending-IsSettled ticks a.1
wait_until_no_pending-IsSettled (Result.panic ∷ ticks) a = absurd (a.0 refl)
wait_until_no_pending-IsSettled (ok status ∷ ticks) a =
    let (to, from) = wait_until_no_pending-IsSettled ticks a.1 in
    elim (Bool-cases (ltb status.last_nonce status.pending_nonce)) [
      | inl q ↦ (
        λ h. inr (to (ground (arith, q, h))),
        λ s. elim s [ inl l ↦ absurd (ground (arith, q)) | inr t ↦ ground (arith, q, from t) ],
      )
      | inr q ↦ ((λ h. inl (ground (arith, q))), λ s. ground (arith, q))
    ]

-- The error of a deployment: the errors of the attempts of retry.Do, or one error.
pub data DeployError : Type 0 where
  attempts : List Error → DeployError
  single : Error → DeployError

-- `within` is the timeout of a transaction as a text
unfoldable pub not_mined_error : Text → Error
not_mined_error within = plain (codes "deployment transaction was not mined within " ++ within)

-- the loop that sets areAllTimeouts, and breaks at an error that is no timeout
unfoldable pub are_all_timeouts : Bool → List Error → Bool
are_all_timeouts all [] = all
are_all_timeouts all (e ∷ es) = if is_deadline e then are_all_timeouts true es else all

unfoldable pub rewrite_deployment_error : Text → DeployError → DeployError
rewrite_deployment_error within (attempts es) =
    if are_all_timeouts false es
    then attempts (map (λ e. not_mined_error within) es)
    else attempts es
rewrite_deployment_error within (single e) =
    if is_deadline e then single (not_mined_error within) else single e

are_all_timeouts-true : (es : List Error) → are_all_timeouts true es ≡ true
unfolding are_all_timeouts
are_all_timeouts-true [] = refl
are_all_timeouts-true (e ∷ es) = ground (arith, are_all_timeouts-true es)

-- Of the errors of several attempts the first alone decides: if it is a timeout, every one of them is
-- rewritten as a timeout, whatever the others are, and else none is.
pub rewrite_deployment_error_first :
    (within : Text) (e : Error) (es : List Error)
    → rewrite_deployment_error within (attempts (e ∷ es)) ≡ (
        if is_deadline e
        then attempts (map (λ x. not_mined_error within) (e ∷ es))
        else attempts (e ∷ es))
unfolding rewrite_deployment_error are_all_timeouts
rewrite_deployment_error_first within e es = ground (arith, are_all_timeouts-true es)
