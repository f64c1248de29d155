-- ===== src/Tracing/Gather.antt =====
-- The signatures of the calls of a trace, in the order in which DecodeTrace gathers them.
use seth.Prelude.{
  ltb, List, [], ◌∷◌, ◌++◌, length, take, drop, if◌then◌else◌, ◌≡◌, arith, All, map, Bool-cases,
  inl, inr, false, append_assoc, ap, ◌∙◌, sym, append-nil, All-append, All-append-left,
  All-append-right, map-append,
}
use seth.Prelude.Text.{Text, codes}
use seth.Prelude.Errors.{Error, plain, Result, ok, err, ◌>>=◌, bind-eq-ok}
use seth.Tracing.Calls.{CallFields, Call, call, Calls, nil, cons}

abbrev pub invalid_signature_error : Error
invalid_signature_error = plain (codes "no method signature found or it's not 4 bytes long")

-- input[2:10]
unfoldable pub signature_at : Text → Text
signature_at input = take 8 (drop 2 input)

unfoldable pub get_signature : Text → Result Text
get_signature input =
    if ltb (length input) 10 then err invalid_signature_error else ok (signature_at input)

-- gatherAllMethodsFn: the signatures are appended to `methods`
unfoldable mutual
  pub gather_call : Call → List Text → Result (List Text)
  gather_call (call f cs) methods = do
    sig ← get_signature f.input
    gather_all_methods cs (methods ++ sig ∷ [])

  pub gather_all_methods : Calls → List Text → Result (List Text)
  gather_all_methods nil methods = ok methods
  gather_all_methods (cons c cs) methods = do
    methods' ← gather_call c methods
    gather_all_methods cs methods'

-- The calls of a trace in preorder: each call before its own calls, those before its next sibling.
unfoldable mutual
  pub preorder_call : Call → List CallFields
  preorder_call (call f cs) = f ∷ preorder cs

  pub preorder : Calls → List CallFields
  preorder nil = []
  preorder (cons c cs) = preorder_call c ++ preorder cs

-- Every call has an input of at least ten characters.
abbrev pub IsSigned : CallFields → Type 0
IsSigned f = ltb (length f.input) 10 ≡ false

abbrev pub AllSigned : List CallFields → Type 0
AllSigned = All IsSigned

abbrev pub signatures : List CallFields → List Text
signatures = map (λ f. signature_at f.input)

mutual
  unfolding gather_call preorder_call get_signature

  gather_call-preorder :
      (c : Call) (methods : List Text)
      → AllSigned (preorder_call c)
      → gather_call c methods ≡ ok (methods ++ signatures (preorder_call c))
  gather_call-preorder (call f cs) methods h =
      let rest = gather_calls-preorder cs (methods ++ signature_at f.input ∷ []) h.1 in
      ground (
        arith,
        rest,
        h.0,
        append_assoc methods (signature_at f.input ∷ []) (signatures (preorder cs)),
      )

  gather_calls-preorder :
      (cs : Calls) (methods : List Text)
      → AllSigned (preorder cs)
      → gather_all_methods cs methods ≡ ok (methods ++ signatures (preorder cs))
  gather_calls-preorder nil methods h = ap ok (sym (append-nil methods))
  gather_calls-preorder (cons c cs) methods h =
      let first =
        gather_call-preorder c methods
          (All-append-left IsSigned (preorder_call c) (preorder cs) h) in
      let rest =
        gather_calls-preorder cs (methods ++ signatures (preorder_call c))
          (All-append-right IsSigned (preorder_call c) (preorder cs) h) in
      let split = map-append (λ f. signature_at f.input) (preorder_call c) (preorder cs) in
      rw first (
        rest
        ∙ ap ok (
            append_assoc methods (signatures (preorder_call c)) (signatures (preorder cs))
            ∙ ap (◌++◌ methods) (sym split)))

-- only signed trees are gathered
mutual
  unfolding gather_call preorder_call get_signature

  gather_call-signed :
      (c : Call) (methods out : List Text)
      → gather_call c methods ≡ ok out
      → AllSigned (preorder_call c)
  gather_call-signed (call f cs) methods out h = elim (Bool-cases (ltb (length f.input) 10)) [
    | inl e ↦ absurd (ground (arith, e))
    | inr e ↦
        (e, gather_calls-signed cs (methods ++ signature_at f.input ∷ []) out (ground (arith, e)))
  ]

  gather_calls-signed :
      (cs : Calls) (methods out : List Text)
      → gather_all_methods cs methods ≡ ok out
      → AllSigned (preorder cs)
  gather_calls-signed nil methods out h = tt
  gather_calls-signed (cons c cs) methods out h =
      let (mid, first, rest) =
        bind-eq-ok (gather_call c methods) (λ m. gather_all_methods cs m) {out = out} h in
      All-append IsSigned (preorder_call c) (preorder cs) (gather_call-signed c methods mid first)
        (gather_calls-signed cs mid out rest)

-- The signatures of a call and of all the calls under it are gathered exactly when each of them has an
-- input of at least ten characters, and then one signature for each call, in preorder.
pub gather_call_lem :
    (c : Call) (methods : List Text)
    → (AllSigned (preorder_call c)
        → gather_call c methods ≡ ok (methods ++ signatures (preorder_call c)))
      × ((out : List Text) → gather_call c methods ≡ ok out → AllSigned (preorder_call c))
gather_call_lem c methods = (gather_call-preorder c methods, gather_call-signed c methods)
