-- ===== src/Steps.antt =====
-- Actions over the trace of what was done so far, the latest first: the monad of the Prism client and
-- of the guest scripts. An action ends with a value or an error, and the trace stays either way.
pub mod Yields
use ahv_to_ove_operator.Base.{List}
use ahv_to_ove_operator.Api.Errors.{Err, Result, ok, err}

abbrev pub Action : Type 0 → Type 0 → Type 0
Action E A = List E → Result A × List E

module _ {E : Type 0} where
  unfoldable pub pure : {A : Type 0} → A → Action E A
  pure a trace = (ok a, trace)

  unfoldable pub fail : {A : Type 0} → Err → Action E A
  fail e trace = (err e, trace)

  unfoldable pub lift : {A : Type 0} → Result A → Action E A
  lift r trace = (r, trace)

  -- `if err != nil { return wrap(err) }`, and `if err != nil { ... }` with its own way to go on.
  abbrev pub resume : {A B : Type 0} → Result A → (A → Action E B) → (Err → Action E B) → Action E B
  resume (ok a) f g trace = f a trace
  resume (err e) f g trace = g e trace

  unfoldable pub either :
      {A B : Type 0} → Action E A → (A → Action E B) → (Err → Action E B) → Action E B
  either m f g trace = let (r, trace') = m trace in resume r f g trace'

  infixl 5 ◌>>=◌ ◌>>◌
  unfoldable pub ◌>>=◌ : {A B : Type 0} → Action E A → (A → Action E B) → Action E B
  m >>= f = either m f fail

  abbrev pub ◌>>◌ : {B : Type 0} → Action E (Unit {0}) → Action E B → Action E B
  m >> k = m >>= λ _. k

  unfoldable pub on_error : {A : Type 0} → Action E A → (Err → Err) → Action E A
  on_error m wrap = either m pure (λ e. fail (wrap e))
