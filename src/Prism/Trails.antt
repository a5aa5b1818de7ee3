-- ===== src/Prism/Trails.antt =====
-- What a run of a method adds to the trace, and what holds where it ends. One rule for each way to
-- build an action of Prism.antt.
use ahv_to_ove_operator.Base.{
  ℕ, zero, suc, ◌+◌, ◌≤◌, ◌≡◌, refl, Bool, true, false, if◌then◌else◌, List, [], ◌∷◌, ◌++◌, All,
  All-append, append_assoc, Option, none, some, arith,
}
use ahv_to_ove_operator.Api.Errors.{Err, Result, ok, err}
use ahv_to_ove_operator.Prism.{
  Event, sent, paused, Trace, M, pure, fail, lift, resume, either, ◌>>=◌, on_error, poll,
}
use ahv_to_ove_operator.Steps.Yields.{OnOk, Any, Yields}

abbrev pub requests : List Event → ℕ
requests [] = 0
requests (sent _ _ ∷ es) = suc (requests es)
requests (paused _ ∷ es) = requests es

-- The events that came on top of the trace: all are allowed, and at most `n` are requests.
pub record Adds (P : Event → Type 0) (n : ℕ) (t t' : Trace) : Type 0 where
  pub new : List Event
  pub joined : t' ≡ new ++ t
  pub allowed : All P new
  pub few : requests new ≤ n

requests-append : (xs ys : List Event) → requests (xs ++ ys) ≡ requests xs + requests ys
requests-append [] ys = omega arith
requests-append (sent _ _ ∷ xs) ys = omega (arith, requests-append xs ys)
requests-append (paused _ ∷ xs) ys = requests-append xs ys

abbrev pub OnSome : {A : Type 0} → (A → Type 0) → Option A → Type 0
OnSome Q none = Unit
OnSome Q (some a) = Q a

pub record Runs (P : Event → Type 0) (n : ℕ) {A : Type 0} (Q : Result A → Trace → Type 0)
    (t : Trace) (m : M A) : Type 0 where
  pub adds : Adds P n t (m t).1
  pub ends : Q (m t).0 (m t).1

module _ {P : Event → Type 0} where
  pub Adds-none : (n : ℕ) (t : Trace) → Adds P n t t
  Adds-none n t = record { new = []; joined = refl; allowed = tt; few = omega arith }

  Adds-trans : {n k : ℕ} {t t' t'' : Trace} → Adds P n t t' → Adds P k t' t'' → Adds P (n + k) t t''
  Adds-trans a b = record {
    new = b.new ++ a.new;
    joined = rw (b.joined, a.joined) (simp append_assoc);
    allowed = All-append P b.new a.new b.allowed a.allowed;
    few = omega (arith, a.few, b.few, requests-append b.new a.new);
  }

  Adds-le : {n k : ℕ} {t t' : Trace} → n ≤ k → Adds P n t t' → Adds P k t t'
  Adds-le h a = record {
    new = a.new;
    joined = a.joined;
    allowed = a.allowed;
    few = omega (arith, a.few);
  }

module _ {P : Event → Type 0} {A : Type 0} {Q : Result A → Trace → Type 0} where
  pub Runs-pure : (n : ℕ) (a : A) (t : Trace) → Q (ok a) t → Runs P n Q t (pure a)
  unfolding pure
  Runs-pure n a t h = record { adds = Adds-none n t; ends = h }

  pub Runs-fail : (n : ℕ) (e : Err) (t : Trace) → Q (err e) t → Runs P n Q t (fail e)
  unfolding fail
  Runs-fail n e t h = record { adds = Adds-none n t; ends = h }

  pub Runs-lift : (n : ℕ) (r : Result A) (t : Trace) → Q r t → Runs P n Q t (lift r)
  unfolding lift
  Runs-lift n r t h = record { adds = Adds-none n t; ends = h }

  pub Runs-if :
      (n : ℕ) (b : Bool) (t : Trace) (m k : M A)
      → (b ≡ true → Runs P n Q t m)
      → (b ≡ false → Runs P n Q t k)
      → Runs P n Q t (if b then m else k)
  Runs-if n true t m k hm hk = hm refl
  Runs-if n false t m k hm hk = hk refl

  pub Runs-le : {n k : ℕ} (t : Trace) (m : M A) → n ≤ k → Runs P n Q t m → Runs P k Q t m
  Runs-le t m h r = record { adds = Adds-le h r.adds; ends = r.ends }

module _ {P : Event → Type 0} {A : Type 0} where
  -- What is known of the end, with what has come on top until there.
  pub Runs-know :
      {n : ℕ} {Q : A → Trace → Type 0} (t : Trace) (m : M A)
      → Runs P n (OnOk Q) t m
      → Runs P n (OnOk (λ a t'. Q a t' × Adds P n t t')) t m
  Runs-know {n} {Q} t m r = record { adds = r.adds; ends = both (m t).0 (m t).1 r.ends r.adds }
    where
      both :
          (res : Result A) (t' : Trace)
          → OnOk Q res t'
          → Adds P n t t'
          → OnOk (λ a t''. Q a t'' × Adds P n t t'') res t'
      both (ok a) t' h g = (h, g)
      both (err e) t' h g = tt

module _ {A : Type 0} {Q : A → Trace → Type 0} where
  pub Yields-Runs :
      {P : Event → Type 0} {n : ℕ} (t : Trace) (m : M A) → Runs P n (OnOk Q) t m → Yields Q t m
  Yields-Runs t m r = record { at = r.ends }

module _ {P : Event → Type 0} {A B : Type 0} where
  pub Runs-either :
      (n k : ℕ) (Q : Result A → Trace → Type 0) {R : Result B → Trace → Type 0} (m : M A)
      (f : A → M B) (g : Err → M B) (t : Trace)
      → Runs P n Q t m
      → ((a : A) (t' : Trace) → Q (ok a) t' → Runs P k R t' (f a))
      → ((e : Err) (t' : Trace) → Q (err e) t' → Runs P k R t' (g e))
      → Runs P (n + k) R t (either m f g)
  unfolding either
  Runs-either n k Q {R} m f g t hm hf hg =
      let (adds, ends) = go (m t).0 (m t).1 hm.adds hm.ends in record { adds = adds; ends = ends }
    where
      go :
          (r : Result A) (t' : Trace)
          → Adds P n t t'
          → Q r t'
          → Adds P (n + k) t (resume r f g t').1 × R (resume r f g t').0 (resume r f g t').1
      go (ok a) t' ha hq = let h = hf a t' hq in (Adds-trans ha h.adds, h.ends)
      go (err e) t' ha hq = let h = hg e t' hq in (Adds-trans ha h.adds, h.ends)

  -- What is known of a result is known of a success only.
  pub Runs-bind :
      (n k : ℕ) (Q : A → Trace → Type 0) {R : B → Trace → Type 0} (m : M A) (f : A → M B)
      (t : Trace)
      → Runs P n (OnOk Q) t m
      → ((a : A) (t' : Trace) → Q a t' → Runs P k (OnOk R) t' (f a))
      → Runs P (n + k) (OnOk R) t (m >>= f)
  unfolding ◌>>=◌
  Runs-bind n k Q m f t hm hf =
      Runs-either n k (OnOk Q) m f fail t hm hf (λ e t' _. Runs-fail k e t' tt)

module _ {P : Event → Type 0} {A : Type 0} where
  pub Runs-on_error :
      (n : ℕ) (Q : A → Trace → Type 0) (m : M A) (wrap : Err → Err) (t : Trace)
      → Runs P n (OnOk Q) t m
      → Runs P n (OnOk Q) t (on_error m wrap)
  unfolding on_error
  Runs-on_error n Q m wrap t hm = Runs-le t _ (omega arith) (
      Runs-either n 0 (OnOk Q) m pure (λ e. fail (wrap e)) t hm (λ a t' h. Runs-pure 0 a t' h)
        (λ e t' _. Runs-fail 0 (wrap e) t' tt))

  -- At most one request for each attempt, and what the last attempt found.
  pub Runs-poll :
      (Q : A → Trace → Type 0) (attempt : M (Option A)) (between : M (Unit {0})) (timeout : Err)
      → ((t : Trace) → Runs P 1 (OnOk (λ o t'. OnSome (λ a. Q a t') o)) t attempt)
      → ((t : Trace) → Runs P 0 (OnOk Any) t between)
      → (n : ℕ) (t : Trace) → Runs P n (OnOk Q) t (poll n attempt between timeout)
  unfolding poll
  Runs-poll Q attempt between timeout ha hb zero t = Runs-fail 0 timeout t tt
  Runs-poll Q attempt between timeout ha hb (suc n) t = Runs-le t _ (omega arith) (
      Runs-bind 1 n (λ o t'. OnSome (λ a. Q a t') o) attempt _ t (ha t)
        (found (Runs-poll Q attempt between timeout ha hb n)))
    where
      found :
          ((t' : Trace) → Runs P n (OnOk Q) t' (poll n attempt between timeout))
          → (o : Option A) (t' : Trace) → OnSome (λ a. Q a t') o
          → Runs P n (OnOk Q) t' (elim o [
            | some a ↦ pure a
            | none ↦ between >>= (λ _. poll n attempt between timeout)
          ])
      found rest none t' h =
          Runs-le t' _ (omega arith) (Runs-bind 0 n Any between _ t' (hb t') (λ _ t'' _. rest t''))
      found rest (some a) t' h = Runs-pure n a t' h
