-- ===== src/Tests/Retries.antt =====
-- A retry.Do that does what its documentation says.
use seth.Prelude.{
  ℕ, zero, suc, ◌≡◌, Bool, true, false, Option, none, some, ◌⊎◌, inl, inr, ap, ◌∙◌, arith,
  if◌then◌else◌,
}
use seth.Prelude.Errors.{Error, Result, ok, err, Done}
use seth.Mining.{RetryLib, Retries}

module _ {S : Type 0} (on : S → Error → Option S) (when : Error → Bool)
    (next : S → Error → S × Done) where
  pub on_retry : S → Error → Option S → S × Done
  on_retry s e none = (s, Result.panic)
  on_retry s e (some s') = next s' e

  pub settle : S × Done → S × Done
  settle (s, ok u) = (s, ok tt)
  settle (s, Result.panic) = (s, Result.panic)
  settle (s, err e) = if when e then on_retry s e (on s e) else (s, err e)

unfoldable pub retry_do :
    (S : Type 0) → ℕ → (S → S × Done) → (S → Error → Option S) → (Error → Bool) → S → S × Done
unfolding settle on_retry
retry_do S zero f on when s = (s, ok tt)
retry_do S (suc zero) f on when s = settle on when (λ s e. (s, err e)) (f s)
retry_do S (suc (suc n)) f on when s =
    settle on when (λ s' e. retry_do S (suc n) f on when s') (f s)

abbrev pub retry_go : RetryLib
retry_go = record { retry = retry_do }

module _ (S : Type 0) (f : S → S × Done) (on : S → Error → Option S) (when : Error → Bool) where
  succeeded : (n : ℕ) (s s' : S) → f s ≡ (s', ok tt) → retry_do S (suc n) f on when s ≡ (s', ok tt)
  unfolding retry_do
  succeeded zero s s' h = ap (settle on when (λ s e. (s, err e))) h
  succeeded (suc n) s s' h = ap (settle on when (λ s' e. retry_do S (suc n) f on when s')) h

  settled :
      (next : S → Error → S × Done) (s s' s'' : S) (e : Error)
      → f s ≡ (s', err e)
      → when e ≡ true
      → on s' e ≡ some s''
      → settle on when next (f s) ≡ next s'' e
  unfolding settle on_retry
  settled next s s' s'' e h w o = ap (settle on when next) h ∙ ground (arith, w, o)

  stopped :
      (next : S → Error → S × Done) (s s' : S) (e : Error)
      → f s ≡ (s', err e)
      → when e ≡ false
      → settle on when next (f s) ≡ (s', err e)
  unfolding settle
  stopped next s s' e h w = ap (settle on when next) h ∙ ground (arith, w)

  crashed :
      (next : S → Error → S × Done) (s s' : S) (e : Error)
      → (f s ≡ (s', Result.panic)) ⊎ ((f s ≡ (s', err e)) × (when e ≡ true) × (on s' e ≡ none))
      → settle on when next (f s) ≡ (s', Result.panic)
  unfolding settle on_retry
  crashed next s s' e (inl h) = ap (settle on when next) h
  crashed next s s' e (inr (h, w, o)) = ap (settle on when next) h ∙ ground (arith, w, o)

  ended :
      (s s' s'' : S) (e : Error)
      → f s ≡ (s', err e)
      → when e ≡ true
      → on s' e ≡ some s''
      → (e' : Error) × ((retry_do S 1 f on when s).1 ≡ err e')
  unfolding retry_do
  ended s s' s'' e h w o =
      (e, ap (λ (out : S × Done). out.1) (settled (λ s e. (s, err e)) s s' s'' e h w o))

  stops_at :
      (n : ℕ) (s s' : S) (e : Error)
      → f s ≡ (s', err e)
      → when e ≡ false
      → (e' : Error) × ((retry_do S (suc n) f on when s).1 ≡ err e')
  unfolding retry_do
  stops_at zero s s' e h w = (e, ap (λ (out : S × Done). out.1) (stopped _ s s' e h w))
  stops_at (suc n) s s' e h w = (e, ap (λ (out : S × Done). out.1) (stopped _ s s' e h w))

  crashes_at :
      (n : ℕ) (s s' : S) (e : Error)
      → (f s ≡ (s', Result.panic)) ⊎ ((f s ≡ (s', err e)) × (when e ≡ true) × (on s' e ≡ none))
      → (retry_do S (suc n) f on when s).1 ≡ Result.panic
  unfolding retry_do
  crashes_at zero s s' e h = ap (λ (out : S × Done). out.1) (crashed _ s s' e h)
  crashes_at (suc n) s s' e h = ap (λ (out : S × Done). out.1) (crashed _ s s' e h)

  goes_on :
      (n : ℕ) (s s' s'' : S) (e : Error)
      → f s ≡ (s', err e)
      → when e ≡ true
      → on s' e ≡ some s''
      → retry_do S (suc (suc n)) f on when s ≡ retry_do S (suc n) f on when s''
  unfolding retry_do
  goes_on n s s' s'' e h w o = settled (λ s' e. retry_do S (suc n) f on when s') s s' s'' e h w o

pub retry_go-Retries : Retries retry_go
retry_go-Retries = record {
  succeeds = λ S n f on when s s' h. succeeded S f on when n s s' h;
  again = λ S n f on when s s' s'' e h w o. goes_on S f on when n s s' s'' e h w o;
  crashes = λ S n f on when s s' e h. crashes_at S f on when n s s' e h;
  stops = λ S n f on when s s' e h w. stops_at S f on when n s s' e h w;
  ends = λ S f on when s s' s'' e h w o. ended S f on when s s' s'' e h w o;
}
