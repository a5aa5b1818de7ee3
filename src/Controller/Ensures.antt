-- ===== src/Controller/Ensures.antt =====
-- Invariants of the actions of Effects.antt: what holds of every call that an action makes, and of
-- the value that it goes on with. One rule for each way to build an action.
use ahv_to_ove_operator.Base.{
  ℕ, suc, ◌≡◌, refl, Bool, true, false, if◌then◌else◌, List, [], ◌∷◌, All, Option, none, some,
}
use ahv_to_ove_operator.Api.Errors.{Err, Result, ok, err}
use ahv_to_ove_operator.Controller.Effects.{
  Env, M, Log, Flow, next, leave, Event, event, Call, Response, Outcome, pure, return_now, resume,
  ◌>>=◌, ask, or_else, on_error, for_each, for_range,
}

-- What holds of the value, if there is one.
abbrev pub On : {A : Type 0} → (A → Type 0) → Flow A → Type 0
On Φ (next a) = Φ a
On Φ (leave o) = Unit

abbrev pub Any : {A : Type 0} → A → Type 0
Any a = Unit

-- Every call of `m` satisfies `P`, and the value that it goes on with satisfies `Φ`.
pub record Ensures (P : Event → Type 0) {A : Type 0} (Φ : A → Type 0) (m : M A) : Type 0 where
  pub at : (log : Log) → All P log → All P (m log).1 × On Φ (m log).0

abbrev pub Keeps : (P : Event → Type 0) {A : Type 0} → M A → Type 0
Keeps P m = Ensures P Any m

module _ {P : Event → Type 0} {A : Type 0} where
  pub Ensures-pure : {Φ : A → Type 0} (a : A) → Φ a → Ensures P Φ (pure a)
  unfolding pure
  Ensures-pure a h = record { at = λ log hl. (hl, h) }

  pub Keeps-pure : (a : A) → Keeps P (pure a)
  Keeps-pure a = Ensures-pure a tt

  pub Ensures-return_now : {Φ : A → Type 0} (o : Outcome) → Ensures P Φ (return_now o)
  unfolding return_now
  Ensures-return_now o = record { at = λ log hl. (hl, tt) }

  pub Ensures-if :
      {Φ : A → Type 0} (b : Bool) (m n : M A)
      → (b ≡ true → Ensures P Φ m)
      → (b ≡ false → Ensures P Φ n)
      → Ensures P Φ (if b then m else n)
  Ensures-if true m n hm hn = hm refl
  Ensures-if false m n hm hn = hn refl

  pub Keeps-or_else :
      (r : Result A) (k : Err → M A) → ((e : Err) → Keeps P (k e)) → Keeps P (or_else r k)
  unfolding or_else
  Keeps-or_else (ok a) k h = Keeps-pure a
  Keeps-or_else (err e) k h = h e

  pub Keeps-Ensures : {Φ : A → Type 0} {m : M A} → Ensures P Φ m → Keeps P m
  Keeps-Ensures {m} h = record { at = λ log hl. ((h.at log hl).0, forget (m log).0) }
    where
      forget : (f : Flow A) → On Any f
      forget (next a) = tt
      forget (leave o) = tt

module _ {P : Event → Type 0} where
  pub Keeps-on_error :
      (o : Option Err) (k : Err → M (Unit {0}))
      → ((e : Err) → Keeps P (k e))
      → Keeps P (on_error o k)
  unfolding on_error
  Keeps-on_error none k h = Keeps-pure tt
  Keeps-on_error (some e) k h = h e

  pub Keeps-ask : (env : Env) (c : Call) → ((r : Response c) → P (event c r)) → Keeps P (ask env c)
  unfolding ask
  Keeps-ask env c h = record { at = λ log hl. ((h (env.answer log c), hl), tt) }

module _ {P : Event → Type 0} {A B : Type 0} where
  pub Ensures-bind :
      (Φ : A → Type 0) {Ψ : B → Type 0} (m : M A) (f : A → M B)
      → Ensures P Φ m
      → ((a : A) → Φ a → Ensures P Ψ (f a))
      → Ensures P Ψ (m >>= f)
  unfolding ◌>>=◌
  Ensures-bind Φ {Ψ} m f hm hf = record {
    at = λ log hl. let (flow, log') = m log in let (h, hv) = hm.at log hl in go flow log' h hv;
  }
    where
      go :
          (flow : Flow A) (log : Log)
          → All P log
          → On Φ flow
          → All P (resume flow f log).1 × On Ψ (resume flow f log).0
      go (next a) log h hv = (hf a hv).at log h
      go (leave o) log h hv = (h, tt)

  pub Keeps-bind :
      {Ψ : B → Type 0} (m : M A) (f : A → M B)
      → Keeps P m
      → ((a : A) → Ensures P Ψ (f a))
      → Ensures P Ψ (m >>= f)
  Keeps-bind m f hm hf = Ensures-bind Any m f hm (λ a _. hf a)

pub ruleset keeps_rules = (
  Keeps-pure, Ensures-return_now, Ensures-if, Keeps-or_else, Keeps-on_error, Keeps-ask, Keeps-bind,
)

module _ {P : Event → Type 0} {A B S : Type 0} where
  pub Keeps-for_each :
      (body : A → S → M (B × S))
      → ((a : A) (s : S) → Keeps P (body a s))
      → (xs : List A) (s : S) → Keeps P (for_each body xs s)
  unfolding for_each
  Keeps-for_each body h [] s = Keeps-pure ([], s)
  Keeps-for_each body h (a ∷ xs) s = Keeps-bind _ _ (h a s) (λ (b, s').
      Keeps-bind _ _ (Keeps-for_each body h xs s') (λ (bs, s''). Keeps-pure (b ∷ bs, s'')))

  pub Keeps-for_range :
      (body : ℕ → A → S → M (B × S))
      → ((i : ℕ) (a : A) (s : S) → Keeps P (body i a s))
      → (i : ℕ) (xs : List A) (s : S) → Keeps P (for_range body i xs s)
  unfolding for_range
  Keeps-for_range body h i [] s = Keeps-pure ([], s)
  Keeps-for_range body h i (a ∷ xs) s = Keeps-bind _ _ (h i a s) (λ (b, s').
      Keeps-bind _ _ (Keeps-for_range body h (suc i) xs s') (λ (bs, s''). Keeps-pure (b ∷ bs, s'')))
