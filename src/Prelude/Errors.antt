-- ===== src/Prelude/Errors.antt =====
-- Go's errors, and the outcome of a call: a value, an error, or a panic.
use mathlib.Core.Path.{◌≡◌, refl}
use mathlib.Core.Logic.{◌⊎◌, inl, inr}
use mathlib.Core.Bool.{Bool, true, false}
use mathlib.Core.List.{◌++◌}
use seth.Prelude.Text.{Text, codes}

-- `plain` is errors.New or fmt.Errorf with its text, `wrapped` is errors.Wrap. `foreign` comes from
-- the node or a library, with the text that it has.
pub data Error : Type 0 where
  deadline_exceeded not_found : Error
  plain foreign : Text → Error
  wrapped : Text → Error → Error

-- err.Error()
unfoldable pub message : Error → Text
message deadline_exceeded = codes "context deadline exceeded"
message not_found = codes "not found"
message (plain t) = t
message (foreign t) = t
message (wrapped t e) = t ++ codes ": " ++ message e

-- errors.Is(err, context.DeadlineExceeded)
unfoldable pub is_deadline : Error → Bool
is_deadline deadline_exceeded = true
is_deadline (wrapped t e) = is_deadline e
is_deadline e = false

pub data Result {ℓ} (A : Type ℓ) : Type ℓ where
  ok : A → Result A
  err : Error → Result A
  panic : Result A

-- The rest of a function after a call: an error is returned at once, and a panic ends it too.
infixl 10 ◌>>=◌
abbrev pub ◌>>=◌ {ℓ κ} : {A : Type ℓ} {B : Type κ} → Result A → (A → Result B) → Result B
panic >>= next = panic
err e >>= next = err e
ok a >>= next = next a

-- A function that returned a value got one from its call.
pub bind-eq-ok {ℓ κ} :
    {A : Type ℓ} {B : Type κ} (call : Result A) (next : A → Result B) {out : B}
    → (call >>= next) ≡ ok out
    → (a : A) × (call ≡ ok a) × (next a ≡ ok out)
bind-eq-ok panic next h = cc
bind-eq-ok (err e) next h = cc
bind-eq-ok (ok a) next h = (a, refl, h)

-- errors.Wrap around the error of a call
unfoldable pub wrap_err {ℓ} : {A : Type ℓ} → Text → Result A → Result A
wrap_err t (ok a) = ok a
wrap_err t (err e) = err (wrapped t e)
wrap_err t panic = panic

pub wrap_err-ok {ℓ} :
    {A : Type ℓ} (t : Text) (m : Result A) {a : A} → wrap_err t m ≡ ok a → m ≡ ok a
unfolding wrap_err
wrap_err-ok t (ok a) h = h
wrap_err-ok t (err e) h = cc
wrap_err-ok t panic h = cc

-- To split on the outcome of a call and keep the equation.
pub Result-cases {ℓ} :
    {A : Type ℓ} (r : Result A)
    → ((a : A) × (r ≡ ok a)) ⊎ (((e : Error) × (r ≡ err e)) ⊎ (r ≡ panic))
Result-cases (ok a) = inl (a, refl)
Result-cases (err e) = inr (inl (e, refl))
Result-cases panic = inr (inr refl)

-- The outcome of a call without a value.
abbrev pub Done : Type 0
Done = Result (Unit {0})
