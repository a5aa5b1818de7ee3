-- ===== src/Steps/Yields.antt =====
-- What is known where an action ends with a value. One rule for each way to build an action.
use ahv_to_ove_operator.Base.{◌≡◌, refl, Bool, true, false, if◌then◌else◌, List}
use ahv_to_ove_operator.Api.Errors.{Err, Result, ok, err}
use ahv_to_ove_operator.Steps.{Action, pure, fail, lift, resume, either, ◌>>=◌, on_error}

module _ {E : Type 0} where
  abbrev pub OnOk : {A : Type 0} → (A → List E → Type 0) → Result A → List E → Type 0
  OnOk Q (ok a) t = Q a t
  OnOk Q (err e) t = Unit

  abbrev pub Any : {A : Type 0} → A → List E → Type 0
  Any a t = Unit

  pub OnOk-Any : {A : Type 0} (r : Result A) (t : List E) → OnOk Any r t
  OnOk-Any (ok a) t = tt
  OnOk-Any (err e) t = tt

  pub record Yields {A : Type 0} (Q : A → List E → Type 0) (t : List E) (m : Action E A)
      : Type 0 where
    pub at : OnOk Q (m t).0 (m t).1

module _ {E A : Type 0} {Q : A → List E → Type 0} where
  pub Yields-pure : (a : A) (t : List E) → Q a t → Yields Q t (pure a)
  unfolding pure
  Yields-pure a t h = record { at = h }

  pub Yields-fail : (e : Err) (t : List E) → Yields Q t (fail e)
  unfolding fail
  Yields-fail e t = record { at = tt }

  pub Yields-lift : (r : Result A) (t : List E) → OnOk Q r t → Yields Q t (lift r)
  unfolding lift
  Yields-lift r t h = record { at = h }

  pub Yields-if :
      (b : Bool) (t : List E) (m k : Action E A)
      → (b ≡ true → Yields Q t m)
      → (b ≡ false → Yields Q t k)
      → Yields Q t (if b then m else k)
  Yields-if true t m k hm hk = hm refl
  Yields-if false t m k hm hk = hk refl

module _ {E A B : Type 0} where
  pub Yields-bind :
      (Q : A → List E → Type 0) {R : B → List E → Type 0} (m : Action E A) (f : A → Action E B)
      (t : List E)
      → Yields Q t m
      → ((a : A) (t' : List E) → Q a t' → Yields R t' (f a))
      → Yields R t (m >>= f)
  unfolding ◌>>=◌ either fail
  Yields-bind Q {R} m f t hm hf = record { at = go (m t).0 (m t).1 hm.at }
    where
      go :
          (r : Result A) (t' : List E)
          → OnOk Q r t'
          → OnOk R (resume r f fail t').0 (resume r f fail t').1
      go (ok a) t' h = (hf a t' h).at
      go (err e) t' h = tt

module _ {E A : Type 0} where
  pub Yields-on_error :
      (Q : A → List E → Type 0) (m : Action E A) (wrap : Err → Err) (t : List E)
      → Yields Q t m
      → Yields Q t (on_error m wrap)
  unfolding on_error either pure fail
  Yields-on_error Q m wrap t hm = record { at = go (m t).0 (m t).1 hm.at }
    where
      go :
          (r : Result A) (t' : List E)
          → OnOk Q r t'
          → OnOk Q
              (resume r pure (λ e. fail (wrap e)) t').0
              (resume r pure (λ e. fail (wrap e)) t').1
      go (ok a) t' h = h
      go (err e) t' h = tt

module _ {E A : Type 0} where
  pub Yields-map :
      {Q R : A → List E → Type 0} (t : List E) (m : Action E A)
      → Yields Q t m
      → ((a : A) (t' : List E) → Q a t' → R a t')
      → Yields R t m
  Yields-map {Q} {R} t m h f = record { at = go (m t).0 (m t).1 h.at }
    where
      go : (r : Result A) (t' : List E) → OnOk Q r t' → OnOk R r t'
      go (ok a) t' q = f a t' q
      go (err e) t' q = tt
