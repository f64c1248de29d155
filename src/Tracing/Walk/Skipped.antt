-- ===== src/Tracing/Walk/Skipped.antt =====
-- What follows a call that cannot be decoded.
use seth.Prelude.{
  suc, some, List, [], ◌∷◌, ◌++◌, length, length-append, get_elem?, get_elem?-middle, append_assoc,
  ◌≡◌, refl, ap, ◌∙◌, arith,
}
use seth.Prelude.Text.{Text}
use seth.Prelude.Errors.{Error, Result, ok, err}
use seth.Tracing.Calls.{CallFields, call, Calls, cons, DecodedCall}
use seth.Tracing.Gather.{preorder, preorder_call, signatures, signature_at}
use seth.Tracing.Walk.{
  Walk, has_calls, push_failed, failed_call, count, after_decode, at_signature, process_call,
  process_calls,
}

module _ {S V : Type 0} (decode : S → Text → CallFields → S × Result (DecodedCall V))
    (box : Text → V) (methods : List Text) where
  process_call_failed :
      (f : CallFields) (cs : Calls) (parent sig : Text) (w : Walk decode box methods) (s : S)
      (x : Error)
      → get_elem? methods (suc w.method_counter) ≡ some sig
      → decode w.finder sig f ≡ (s, err x)
      → process_call decode box methods (call f cs) parent w
        ≡ (push_failed decode box methods (count decode box methods w) f s, ok tt)
  unfolding process_call at_signature after_decode
  process_call_failed f cs parent sig w s x g e =
      let inner = process_calls decode box methods cs in
      ap (at_signature decode box methods w f parent (has_calls cs) inner) g
      ∙ ap
          (after_decode decode box methods (count decode box methods w) f parent (has_calls cs)
            (inner sig))
          e

  -- A call that cannot be decoded is reported as such and its calls are skipped, but their signatures
  -- are not: the next signature of the walk is that of the first skipped call, whatever the next call
  -- decoded is.
  pub process_call_skipped :
      (f g : CallFields) (gs cs : Calls) (parent : Text) (w : Walk decode box methods)
      (pre post : List Text) (s : S) (x : Error)
      → methods ≡ pre ++ (signatures (preorder_call (call f (cons (call g gs) cs))) ++ post)
      → suc w.method_counter ≡ length pre
      → decode w.finder (signature_at f.input) f ≡ (s, err x)
      → (w' : Walk decode box methods) × (process_call decode box methods
            (call f (cons (call g gs) cs))
            parent
            w
          ≡ (w', ok tt))
        × (w'.decoded_calls ≡ w.decoded_calls ++ failed_call decode box methods f ∷ [])
        × (get_elem? methods (suc w'.method_counter) ≡ some (signature_at g.input))
  unfolding preorder_call push_failed count
  process_call_skipped f g gs cs parent w pre post s x m h e =
      let sig = signature_at f.input in
      let below = signature_at g.input in
      let rest = signatures (preorder gs ++ preorder cs) ++ post in
      let own : get_elem? methods (suc w.method_counter) ≡ some sig =
        ground (arith, m, h, get_elem?-middle pre sig (below ∷ rest)) in
      let next : get_elem? methods (suc (suc w.method_counter)) ≡ some below = ground (
        arith,
        m,
        h,
        length-append pre (sig ∷ []),
        append_assoc pre (sig ∷ []) (below ∷ rest),
        get_elem?-middle (pre ++ sig ∷ []) below rest,
      ) in
      (
        push_failed decode box methods (count decode box methods w) f s,
        process_call_failed f (cons (call g gs) cs) parent sig w s x own e,
        refl,
        next,
      )
