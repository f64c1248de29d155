-- ===== src/Tracing/Walk.antt =====
-- processCallsFn of tracing.go: the walk over the calls of a trace, which decodes each with the next
-- of the gathered signatures.
pub mod InRange
pub mod Placed
pub mod Skipped
use seth.Prelude.{
  ℕ, ◌+◌, ◌-◌, suc, Bool, true, false, Option, none, some, List, [], ◌∷◌, ◌++◌, length, get_elem?,
}
use seth.Prelude.Int.{ℤ, pos}
use seth.Prelude.Text.{Text, codes}
use seth.Prelude.Errors.{Error, plain, Result, ok, err, Done}
use seth.ContractMap.{unknown}
use seth.Tracing.Calls.{CallFields, Call, call, Calls, nil, cons, DecodedCall, failed_to_decode}

abbrev pub counter_error : Error
counter_error = plain (
    codes
      "method counter exceeds the number of methods. This indicates there's a logical error in tracing. Please reach out to Test Tooling team")

unfoldable pub has_calls : Calls → Bool
has_calls nil = false
has_calls (cons c cs) = true

-- `decode` is decodeCall, `S` what it reads and writes, and `box` a string as an interface value.
module _ {S V : Type 0} (decode : S → Text → CallFields → S × Result (DecodedCall V))
    (box : Text → V) (methods : List Text) where
  -- the variables that the closure shares
  pub record Walk : Type 0 where
    pub method_counter : ℕ
    pub nesting_level : ℕ
    pub decoded_calls : List (DecodedCall V)
    pub finder : S

  -- the entry for a call that could not be decoded
  unfoldable pub failed_call : CallFields → DecodedCall V
  failed_call f = record {
    call_type = [];
    signature = [];
    method = failed_to_decode;
    input = some ((codes "error", box failed_to_decode) ∷ []);
    output = some ((codes "error", box failed_to_decode) ∷ []);
    nesting_level = pos 0;
    parent_signature = [];
    error = [];
    from_address = f.from;
    to_address = f.to;
    from = [];
    to = [];
    events = [];
    comment = [];
    value = pos 0;
    gas_limit = 0;
    gas_used = 0;
  }

  -- a decoded call is appended with its place in the tree
  unfoldable pub push : Walk → Text → S → DecodedCall V → Walk
  push w parent s d = record w {
    decoded_calls =
        w.decoded_calls
        ++ record d { nesting_level = pos w.nesting_level; parent_signature = parent } ∷ [];
    finder = s;
  }

  unfoldable pub push_failed : Walk → CallFields → S → Walk
  push_failed w f s = record w { decoded_calls = w.decoded_calls ++ failed_call f ∷ []; finder = s }

  -- methodCounter++
  unfoldable pub count : Walk → Walk
  count w = record w { method_counter = suc w.method_counter }

  unfoldable pub enter : Walk → Walk
  enter w = record w { nesting_level = suc w.nesting_level }

  -- nestingLevel--, after a list of calls without an error
  unfoldable pub leave : Walk × Done → Walk × Done
  leave (w, ok u) = (record w { nesting_level = w.nesting_level - 1 }, ok u)
  leave (w, err e) = (w, err e)
  leave (w, Result.panic) = (w, Result.panic)

  -- what follows decodeCall, with the walk over the calls of the call
  unfoldable pub after_decode :
      Walk
      → CallFields
      → Text
      → Bool
      → (Walk → Walk × Done)
      → S × Result (DecodedCall V)
      → Walk × Done
  after_decode w f parent has inner (s, Result.panic) = (record w { finder = s }, Result.panic)
  after_decode w f parent has inner (s, err e) = (push_failed w f s, ok tt)
  after_decode w f parent false inner (s, ok d) = (push w parent s d, ok tt)
  after_decode w f parent true inner (s, ok d) = leave (inner (enter (push w parent s d)))

  -- one round of the loop, at the next signature; `inner` is the walk over the calls of the call
  unfoldable pub at_signature :
      Walk → CallFields → Text → Bool → (Text → Walk → Walk × Done) → Option Text → Walk × Done
  at_signature w f parent has inner none = (count w, err counter_error)
  at_signature w f parent has inner (some sig) =
      after_decode (count w) f parent has (inner sig) (decode w.finder sig f)

  -- the loop goes on after a round without an error
  unfoldable pub go_on : (Walk → Walk × Done) → Walk × Done → Walk × Done
  go_on rest (w, ok u) = rest w
  go_on rest (w, err e) = (w, err e)
  go_on rest (w, Result.panic) = (w, Result.panic)

  unfoldable mutual
    pub process_call : Call → Text → Walk → Walk × Done
    process_call (call f cs) parent w =
        at_signature w f parent (has_calls cs) (process_calls cs)
          (get_elem? methods (suc w.method_counter))

    pub process_calls : Calls → Text → Walk → Walk × Done
    process_calls nil parent w = (w, ok tt)
    process_calls (cons c cs) parent w = go_on (process_calls cs parent) (process_call c parent w)
