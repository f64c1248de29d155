-- ===== src/Tracing/Walk/InRange.antt =====
-- The walk never runs out of signatures: it reads at most one for each call of the tree.
use seth.Prelude.{
  ℕ, ◌+◌, ◌≤◌, ◌<◌, zero, suc, Bool, true, false, Option, none, some, List, [], ◌∷◌, length,
  length-append, get_elem?, ◌≡◌, ◌≢◌, refl, arith,
}
use seth.Prelude.Text.{Text}
use seth.Prelude.Errors.{Error, Result, ok, err, Done}
use seth.Tracing.Calls.{CallFields, Call, call, Calls, nil, cons, DecodedCall}
use seth.Tracing.Gather.{preorder, preorder_call}
use seth.Tracing.Walk.{
  Walk, has_calls, push, push_failed, count, enter, leave, after_decode, at_signature, go_on,
  process_call, process_calls,
}

pub get_elem?-lt {ℓ} : {A : Type ℓ} (xs : List A) (i : ℕ) → i < length xs → get_elem? xs i ≢ none
get_elem?-lt [] i h = absurd (omega (arith, h))
get_elem?-lt (x ∷ xs) zero h = λ e. cc
get_elem?-lt (x ∷ xs) (suc i) h = get_elem?-lt xs i (omega (arith, h))

module _ {S V : Type 0} (decode : S → Text → CallFields → S × Result (DecodedCall V))
    (box : Text → V) (methods : List Text) where
  abbrev State : Type 0
  State = Walk decode box methods

  -- The counter is at most `k`, and there is no error.
  abbrev pub IsBounded : ℕ → State × Done → Type 0
  IsBounded k out = (out.0.method_counter ≤ k) × ((e : Error) → out.1 ≢ err e)

  leave-IsBounded :
      (k : ℕ) (out : State × Done) → IsBounded k out → IsBounded k (leave decode box methods out)
  unfolding leave
  leave-IsBounded k (w, ok u) h = (h.0, λ e. λ q. cc)
  leave-IsBounded k (w, err e) h = h
  leave-IsBounded k (w, Result.panic) h = h

  after_decode-IsBounded :
      (k : ℕ) (w : State) (f : CallFields) (parent : Text) (has : Bool)
      (inner : State → State × Done) (r : S × Result (DecodedCall V))
      → w.method_counter ≤ k
      → ((w' : State) → w'.method_counter ≡ w.method_counter → IsBounded k (inner w'))
      → IsBounded k (after_decode decode box methods w f parent has inner r)
  unfolding after_decode push push_failed enter
  after_decode-IsBounded k w f parent has inner (s, Result.panic) h g = (h, λ e q. cc)
  after_decode-IsBounded k w f parent has inner (s, err x) h g = (h, λ e q. cc)
  after_decode-IsBounded k w f parent false inner (s, ok d) h g = (h, λ e q. cc)
  after_decode-IsBounded k w f parent true inner (s, ok d) h g =
      leave-IsBounded k (inner (enter decode box methods (push decode box methods w parent s d)))
        (g (enter decode box methods (push decode box methods w parent s d)) refl)

  go_on-IsBounded :
      (j k : ℕ) (rest : State → State × Done) (out : State × Done)
      → j ≤ k
      → IsBounded j out
      → ((w : State) → w.method_counter ≤ j → IsBounded k (rest w))
      → IsBounded k (go_on decode box methods rest out)
  unfolding go_on
  go_on-IsBounded j k rest (w, ok u) h b g = g w b.0
  go_on-IsBounded j k rest (w, err e) h b g = absurd (b.1 e refl)
  go_on-IsBounded j k rest (w, Result.panic) h b g = (omega (arith, h, b.0), λ e q. cc)

  at_signature-IsBounded :
      (k : ℕ) (w : State) (f : CallFields) (parent : Text) (has : Bool)
      (inner : Text → State → State × Done) (next : Option Text)
      → suc w.method_counter ≤ k
      → next ≢ none
      → ((sig : Text) (w' : State)
          → w'.method_counter ≡ suc w.method_counter
          → IsBounded k (inner sig w'))
      → IsBounded k (at_signature decode box methods w f parent has inner next)
  unfolding at_signature count
  at_signature-IsBounded k w f parent has inner none h n g = absurd (n refl)
  at_signature-IsBounded k w f parent has inner (some sig) h n g =
      after_decode-IsBounded k (count decode box methods w) f parent has (inner sig)
        (decode w.finder sig f) h (g sig)

  mutual
    unfolding process_call preorder_call

    process_call-IsBounded :
        (c : Call) (parent : Text) (w : State) (k : ℕ)
        → w.method_counter + length (preorder_call c) ≤ k
        → k < length methods
        → IsBounded k (process_call decode box methods c parent w)
    process_call-IsBounded (call f cs) parent w k h g =
        at_signature-IsBounded k w f parent (has_calls cs) (process_calls decode box methods cs)
          (get_elem? methods (suc w.method_counter)) (omega (arith, h))
          (get_elem?-lt methods (suc w.method_counter) (omega (arith, h, g)))
          (λ sig w' q. process_calls-IsBounded cs sig w' k (omega (arith, h, q)) g)

    process_calls-IsBounded :
        (cs : Calls) (parent : Text) (w : State) (k : ℕ)
        → w.method_counter + length (preorder cs) ≤ k
        → k < length methods
        → IsBounded k (process_calls decode box methods cs parent w)
    process_calls-IsBounded nil parent w k h g = (omega (arith, h), λ e q. cc)
    process_calls-IsBounded (cons c cs) parent w k h g =
        let total = length-append (preorder_call c) (preorder cs) in
        let j = w.method_counter + length (preorder_call c) in
        go_on-IsBounded j k (process_calls decode box methods cs parent)
          (process_call decode box methods c parent w) (omega (arith, h, total))
          (process_call-IsBounded c parent w j (omega arith) (omega (arith, h, g, total)))
          (λ w' q. process_calls-IsBounded cs parent w' k (omega (arith, h, q, total)) g)

  -- The walk over the calls of a trace, from the counter 0 and with one signature for the transaction
  -- and one for each call under it, never ends with the error on the method counter, nor any other,
  -- whatever the decoding of the calls gives.
  pub process_calls-never :
      (cs : Calls) (parent : Text) (w : State)
      → w.method_counter ≡ 0
      → length methods ≡ suc (length (preorder cs))
      → (e : Error) → (process_calls decode box methods cs parent w).1 ≢ err e
  process_calls-never cs parent w z h =
      (process_calls-IsBounded cs parent w (length (preorder cs)) (omega (arith, z))
        (omega (arith, h))).1
