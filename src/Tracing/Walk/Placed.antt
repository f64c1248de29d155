-- ===== src/Tracing/Walk/Placed.antt =====
-- What the walk makes of a tree whose calls can all be decoded: each call with its own signature, at
-- its own place.
use seth.Prelude.{
  ℕ, ◌+◌, suc, true, false, some, List, [], ◌∷◌, ◌++◌, length, length-append, get_elem?,
  get_elem?-middle, append_assoc, append-nil, map-append, length-map, ◌≡◌, refl, sym, ap, ◌∙◌,
  arith,
}
use seth.Prelude.Int.{pos}
use seth.Prelude.Text.{Text}
use seth.Prelude.Errors.{Result, ok, Done}
use seth.Tracing.Calls.{CallFields, Call, call, Calls, nil, cons, DecodedCall}
use seth.Tracing.Gather.{preorder, preorder_call, signatures, signature_at}
use seth.Tracing.Walk.{
  Walk, has_calls, push, count, enter, leave, after_decode, at_signature, go_on, process_call,
  process_calls,
}

-- A call with its depth in the tree and the signature of the call above it.
pub record Placed : Type 0 where
  pub fields : CallFields
  pub level : ℕ
  pub parent : Text

-- The calls of a tree in preorder, with their places.
unfoldable mutual
  pub placed_call : Call → ℕ → Text → List Placed
  placed_call (call f cs) level parent =
      record { fields = f; level = level; parent = parent }
      ∷ placed cs (suc level) (signature_at f.input)

  pub placed : Calls → ℕ → Text → List Placed
  placed nil level parent = []
  placed (cons c cs) level parent = placed_call c level parent ++ placed cs level parent

module _ {S V : Type 0} (decode : S → Text → CallFields → S × Result (DecodedCall V))
    (box : Text → V) (methods : List Text) where
  abbrev State : Type 0
  State = Walk decode box methods

  -- From `s` the calls decode, each with the signature of its own input, to `ds` and `s'`.
  unfoldable pub Decoded : S → List Placed → List (DecodedCall V) → S → Type 0
  Decoded s [] ds s' = (ds ≡ []) × (s ≡ s')
  Decoded s (p ∷ ps) ds s' =
      (d : DecodedCall V) × (s1 : S) × (rest : List (DecodedCall V)) × (decode s
          (signature_at p.fields.input) p.fields
        ≡ (s1, ok d))
      × (ds ≡ record d { nesting_level = pos p.level; parent_signature = p.parent } ∷ rest)
      × Decoded s1 ps rest s'

  Decoded-append :
      (s : S) (ps qs : List Placed) (ds : List (DecodedCall V)) (s' : S)
      → Decoded s (ps ++ qs) ds s'
      → (s1 : S) × (ds1 : List (DecodedCall V)) × (ds2 : List (DecodedCall V)) × Decoded s ps ds1 s1
        × Decoded s1 qs ds2 s'
        × (ds ≡ ds1 ++ ds2)
  unfolding Decoded
  Decoded-append s [] qs ds s' h = (s, [], ds, (refl, refl), h, refl)
  Decoded-append s (p ∷ ps) qs ds s' (d, s1, rest, e, q, r) =
      let (s2, ds1, ds2, a, b, z) = Decoded-append s1 ps qs rest s' r in
      (
        s2,
        record d { nesting_level = pos p.level; parent_signature = p.parent } ∷ ds1,
        ds2,
        (d, s1, ds1, e, refl, a),
        b,
        q ∙ ap (◌∷◌ (record d { nesting_level = pos p.level; parent_signature = p.parent })) z,
      )

  -- The walk after `n` more calls, decoded to `ds`.
  unfoldable pub walked : State → ℕ → List (DecodedCall V) → S → State × Done
  walked w n ds s = (
    record w {
      method_counter = w.method_counter + n;
      decoded_calls = w.decoded_calls ++ ds;
      finder = s;
    },
    ok tt,
  )

  walked-walked :
      (w : State) (m n : ℕ) (ds es : List (DecodedCall V)) (s s' : S)
      → walked (walked w m ds s).0 n es s' ≡ walked w (m + n) (ds ++ es) s'
  unfolding walked
  walked-walked w m n ds es s s' = ground (arith, append_assoc w.decoded_calls ds es)

  -- the next signature is that of the call at hand
  own_signature :
      (w : State) (pre post : List Text) (sig : Text)
      → methods ≡ pre ++ sig ∷ post
      → suc w.method_counter ≡ length pre
      → get_elem? methods (suc w.method_counter) ≡ some sig
  own_signature w pre post sig m h = ground (arith, m, h, get_elem?-middle pre sig post)

  leave-walked :
      (w : State) (s1 : S) (d : DecodedCall V) (parent : Text) (n : ℕ) (ds : List (DecodedCall V))
      (s' : S)
      → leave decode box methods (
          walked
            (enter decode box methods
              (push decode box methods (count decode box methods w) parent s1 d))
            n
            ds
            s')
        ≡ walked w
            (suc n)
            (record d { nesting_level = pos w.nesting_level; parent_signature = parent } ∷ ds)
            s'
  unfolding leave walked enter push count
  leave-walked w s1 d parent n ds s' =
      let x = record d { nesting_level = pos w.nesting_level; parent_signature = parent } in
      ground (arith, append_assoc w.decoded_calls (x ∷ []) ds)

  pushed :
      (w : State) (s1 : S) (d : DecodedCall V) (parent : Text)
      → (push decode box methods (count decode box methods w) parent s1 d, ok tt)
        ≡ walked w 1
            (record d { nesting_level = pos w.nesting_level; parent_signature = parent } ∷ [])
            s1
  unfolding walked push count
  pushed w s1 d parent = ground arith

  nothing :
      (w : State) (ds : List (DecodedCall V)) (s' : S)
      → ds ≡ []
      → w.finder ≡ s'
      → (w, ok tt) ≡ walked w 0 ds s'
  unfolding walked
  nothing w ds s' q r = ground (arith, append-nil w.decoded_calls)

  go_on-walked :
      (rest : State → State × Done) (w : State) (n : ℕ) (ds : List (DecodedCall V)) (s : S)
      → go_on decode box methods rest (walked w n ds s) ≡ rest (walked w n ds s).0
  unfolding go_on walked
  go_on-walked rest w n ds s = refl

  -- the next signature after `n` calls
  counted :
      (w : State) (n : ℕ) (pre : List Text) (fs : List CallFields) (ds : List (DecodedCall V))
      (s : S)
      → suc w.method_counter ≡ length pre
      → n ≡ length fs
      → suc (walked w n ds s).0.method_counter ≡ length (pre ++ signatures fs)
  unfolding walked
  counted w n pre fs ds s h e =
      omega
        (arith, h, e, length-append pre (signatures fs), length-map (λ f. signature_at f.input) fs)

  walked_kept :
      (w : State) (n : ℕ) (ds1 : List (DecodedCall V)) (s1 : S) (cs : Calls) (parent : Text)
      (ds : List (DecodedCall V)) (s' : S)
      → Decoded s1 (placed cs w.nesting_level parent) ds s'
      → Decoded
          (walked w n ds1 s1).0.finder
          (placed cs (walked w n ds1 s1).0.nesting_level parent)
          ds
          s'
  unfolding walked
  walked_kept w n ds1 s1 cs parent ds s' h = h

  mutual
    unfolding process_call preorder_call placed_call Decoded at_signature after_decode has_calls
        enter push count

    process_call-placed :
        (c : Call) (parent : Text) (w : State) (pre post : List Text) (ds : List (DecodedCall V))
        (s' : S)
        → methods ≡ pre ++ (signatures (preorder_call c) ++ post)
        → suc w.method_counter ≡ length pre
        → Decoded w.finder (placed_call c w.nesting_level parent) ds s'
        → process_call decode box methods c parent w ≡ walked w (length (preorder_call c)) ds s'
    process_call-placed (call f nil) parent w pre post ds s' m h (d, s1, rest, e, q, r) =
        let own = own_signature w pre post (signature_at f.input) m h in
        let inner = process_calls decode box methods nil in
        ap (at_signature decode box methods w f parent false inner) own
        ∙ ap
            (after_decode decode box methods (count decode box methods w) f parent false
              (inner (signature_at f.input)))
            e
        ∙ pushed w s1 d parent
        ∙ ground (arith, q, r.0, r.1)
    process_call-placed (call f (cons c cs)) parent w pre post ds s' m h (d, s1, rest, e, q, r) =
        let sig = signature_at f.input in
        let own = own_signature w pre (signatures (preorder (cons c cs)) ++ post) sig m h in
        let inner = process_calls decode box methods (cons c cs) in
        let w1 = push decode box methods (count decode box methods w) parent s1 d in
        let below =
          process_calls-placed (cons c cs) sig (enter decode box methods w1) (pre ++ sig ∷ []) post
            rest s'
            (m ∙ sym (append_assoc pre (sig ∷ []) (signatures (preorder (cons c cs)) ++ post)))
            (omega (arith, h, length-append pre (sig ∷ []))) r in
        ap (at_signature decode box methods w f parent true inner) own
        ∙ ap
            (after_decode decode box methods (count decode box methods w) f parent true (inner sig))
            e
        ∙ ap (leave decode box methods) below
        ∙ leave-walked w s1 d parent (length (preorder (cons c cs))) rest s'
        ∙ ap (λ x. walked w (suc (length (preorder (cons c cs)))) x s') (sym q)

    process_calls-placed :
        (cs : Calls) (parent : Text) (w : State) (pre post : List Text) (ds : List (DecodedCall V))
        (s' : S)
        → methods ≡ pre ++ (signatures (preorder cs) ++ post)
        → suc w.method_counter ≡ length pre
        → Decoded w.finder (placed cs w.nesting_level parent) ds s'
        → process_calls decode box methods cs parent w ≡ walked w (length (preorder cs)) ds s'
    process_calls-placed nil parent w pre post ds s' m h r = nothing w ds s' r.0 r.1
    process_calls-placed (cons c cs) parent w pre post ds s' m h r =
        let n = length (preorder_call c) in
        let sigs = signatures (preorder_call c) in
        let later = signatures (preorder cs) ++ post in
        let (s1, ds1, ds2, a, b, z) =
          Decoded-append w.finder (placed_call c w.nesting_level parent)
            (placed cs w.nesting_level parent) ds s' r in
        let w2 = (walked w n ds1 s1).0 in
        let split : methods ≡ pre ++ (sigs ++ later) =
          m
          ∙ ap (◌++◌ pre) (
              ap (λ x. x ++ post)
                (map-append (λ f. signature_at f.input) (preorder_call c) (preorder cs))
              ∙ append_assoc sigs (signatures (preorder cs)) post) in
        ap (go_on decode box methods (process_calls decode box methods cs parent))
          (process_call-placed c parent w pre later ds1 s1 split h a)
        ∙ go_on-walked (process_calls decode box methods cs parent) w n ds1 s1
        ∙ process_calls-placed cs parent w2 (pre ++ sigs) post ds2 s'
            (split ∙ sym (append_assoc pre sigs later))
            (counted w n pre (preorder_call c) ds1 s1 h refl)
            (walked_kept w n ds1 s1 cs parent ds2 s' b)
        ∙ walked-walked w n (length (preorder cs)) ds1 ds2 s1 s'
        ∙ ground (arith, z, length-append (preorder_call c) (preorder cs))

  -- When the calls of a trace decode in preorder, each with the signature of its own input, the walk
  -- over them, from the counter 0 and with the signatures gathered from the trace, succeeds: it appends
  -- exactly those decoded calls in that order, each with the depth and the parent's signature of its
  -- place in the tree, and counts every call once.
  pub process_calls-Decoded :
      (f : CallFields) (cs : Calls) (parent : Text) (w : State) (ds : List (DecodedCall V)) (s' : S)
      → methods ≡ signatures (preorder_call (call f cs))
      → w.method_counter ≡ 0
      → Decoded w.finder (placed cs w.nesting_level parent) ds s'
      → process_calls decode box methods cs parent w ≡ (
        record w {
          method_counter = length (preorder cs);
          decoded_calls = w.decoded_calls ++ ds;
          finder = s';
        },
        ok tt,
      )
  unfolding walked preorder_call
  process_calls-Decoded f cs parent w ds s' m z h =
      let run =
        process_calls-placed cs parent w (signature_at f.input ∷ []) [] ds s'
          (m ∙ ap (◌∷◌ (signature_at f.input)) (sym (append-nil (signatures (preorder cs)))))
          (omega (arith, z)) h in
      run ∙ ground (arith, z)
