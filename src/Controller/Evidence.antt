-- ===== src/Controller/Evidence.antt =====
-- What a run has been told before it writes a status. A guard is a property of the log that no later
-- call takes back.
use ahv_to_ove_operator.Base.{
  ℕ, suc, ◌≡◌, refl, Bool, true, false, if◌then◌else◌, List, [], ◌∷◌, Text, All, ◌⊎◌, inl, inr,
}
use ahv_to_ove_operator.Api.{Migration, Status, Phase, ConditionStatus}
use ahv_to_ove_operator.Api.Errors.{Err, Message, Result, ok, err}
use ahv_to_ove_operator.Controller.Effects.{
  Env, M, Log, Flow, next, leave, Event, event, Call, Response, Requeue, Outcome, pure, return_now,
  resume, ◌>>=◌, ask, or_else, for_each, for_range, clock, connect, patch_status,
}
use ahv_to_ove_operator.Prism.Client.{PrismClient}
use ahv_to_ove_operator.Controller.Status.{with_condition, fail_migration, patch_and_finish}
use ahv_to_ove_operator.Controller.Warm.{new_prism_client}
use ahv_to_ove_operator.Controller.Ensures.{On}

-- The call `c` was answered with `r`.
pub data Said (c : Call) (r : Response c) : Log → Type 0 where
  now : {log : Log} → Said c r (event c r ∷ log)
  earlier : {e : Event} {log : Log} → Said c r log → Said c r (e ∷ log)

abbrev pub Grows : Log → Log → Type 0
Grows log log' = (c : Call) (r : Response c) → Said c r log → Said c r log'

-- Every event with the log before it.
abbrev pub Every : (Log → Event → Type 0) → Log → Type 0
Every P [] = Unit
Every P (e ∷ log) = P log e × Every P log

-- A status with another phase than the one read, and not Failed, is written only after `Φ`.
abbrev pub Guarded : (Log → Type 0) → Migration → Log → Event → Type 0
Guarded Φ mig before (event (patch_status base new) r) =
    (new.phase ≡ mig.status.phase) ⊎ (new.phase ≡ Phase.failed) ⊎ Φ before
Guarded Φ mig before (event _ r) = Unit

module _ (P : Log → Event → Type 0) where
  -- What a run from `log` ends with.
  abbrev pub Ends : {A : Type 0} → (A → Log → Type 0) → Log → Flow A × Log → Type 0
  Ends Q log (flow, log') = Every P log' × Grows log log' × On (λ a. Q a log') flow

  pub record Runs {A : Type 0} (Q : A → Log → Type 0) (log : Log) (m : M A) : Type 0 where
    pub at : Every P log → Ends Q log (m log)

module _ {P : Log → Event → Type 0} {A : Type 0} where
  pub Runs-pure : {Q : A → Log → Type 0} (a : A) (log : Log) → Q a log → Runs P Q log (pure a)
  unfolding pure
  Runs-pure a log h = record { at = λ hl. (hl, λ c r s. s, h) }

  pub Runs-return_now :
      {Q : A → Log → Type 0} (o : Outcome) (log : Log) → Runs P Q log (return_now {A = A} o)
  unfolding return_now
  Runs-return_now o log = record { at = λ hl. (hl, λ c r s. s, tt) }

  pub Runs-if :
      {Q : A → Log → Type 0} (b : Bool) (m n : M A) (log : Log)
      → (b ≡ true → Runs P Q log m)
      → (b ≡ false → Runs P Q log n)
      → Runs P Q log (if b then m else n)
  Runs-if true m n log hm hn = hm refl
  Runs-if false m n log hm hn = hn refl

module _ {P : Log → Event → Type 0} where
  pub Runs-ask :
      (env : Env) (c : Call) {Q : Response c → Log → Type 0} (log : Log)
      → ((r : Response c) → P log (event c r) × Q r (event c r ∷ log))
      → Runs P Q log (ask env c)
  unfolding ask
  Runs-ask env c log h = record {
    at = λ hl. let (hp, hq) = h (env.answer log c) in ((hp, hl), λ c' r' s. Said.earlier s, hq);
  }

module _ {P : Log → Event → Type 0} {A B : Type 0} where
  pub Runs-bind :
      (Q : A → Log → Type 0) {R : B → Log → Type 0} (m : M A) (f : A → M B) (log : Log)
      → Runs P Q log m
      → ((a : A) (log' : Log) → Grows log log' → Q a log' → Runs P R log' (f a))
      → Runs P R log (m >>= f)
  unfolding ◌>>=◌
  Runs-bind Q {R} m f log hm hf = record {
    at = λ hl. let (flow, log') = m log in let (he, g, hq) = hm.at hl in go flow log' he g hq;
  }
    where
      go :
          (flow : Flow A) (log' : Log)
          → Every P log'
          → Grows log log'
          → On (λ a. Q a log') flow
          → Ends P R log (resume flow f log')
      go (next a) log' he g hq =
          let (he', g', hr) = (hf a log' g hq).at he in (he', λ c r s. g' c r (g c r s), hr)
      go (leave o) log' he g hq = (he, g, tt)

module _ {P : Log → Event → Type 0} {A : Type 0} where
  pub Runs-map :
      {Q R : A → Log → Type 0} {log : Log} {m : M A}
      → Runs P Q log m
      → ((a : A) (log' : Log) → Grows log log' → Q a log' → R a log')
      → Runs P R log m
  Runs-map {Q} {R} {log} {m} h f = record {
    at = λ hl. let (he, g, hq) = h.at hl in (he, g, on (m log).0 (m log).1 g hq);
  }
    where
      on :
          (flow : Flow A) (log' : Log)
          → Grows log log'
          → On (λ a. Q a log') flow
          → On (λ a. R a log') flow
      on (next a) log' g hq = f a log' g hq
      on (leave o) log' g hq = tt

-- A loop whose flag stays true only if each step learnt `F` of its item.
module _ {A S : Type 0} (flag : S → Bool) (F : A → Log → Type 0) where
  -- The flag is true only if it was, and all is known of `xs`.
  abbrev pub Learnt : List A → S → {C : Type 0} → C × S → Log → Type 0
  Learnt xs s (c, s') log = flag s' ≡ true → (flag s ≡ true) × All (λ a. F a log) xs

  pub Runs-for_each :
      {P : Log → Event → Type 0} {B : Type 0}
      → ((a : A) (log log' : Log) → Grows log log' → F a log → F a log')
      → (body : A → S → M (B × S))
      → ((a : A) (s : S) (log : Log)
          → Runs P (λ (b, s') log'. flag s' ≡ true → (flag s ≡ true) × F a log') log (body a s))
      → (xs : List A) (s : S) (log : Log) → Runs P (Learnt xs s) log (for_each body xs s)
  unfolding for_each
  Runs-for_each later body h [] s log = Runs-pure ([], s) log (λ e. (e, tt))
  Runs-for_each later body h (x ∷ xs) s log =
      Runs-bind (λ (b, s') log'. flag s' ≡ true → (flag s ≡ true) × F x log') _ _ log (h x s log)
        (λ (b, s') log1 g1 q.
          Runs-bind (Learnt xs s') _ _ log1 (Runs-for_each later body h xs s' log1)
            (λ (bs, s'') log2 g2 q'.
              Runs-pure (b ∷ bs, s'') log2
                (λ e.
                  let (e1, rest) = q' e in
                  let (e0, fx) = q e1 in (e0, (later x log1 log2 g2 fx, rest)))))

  pub Runs-for_range :
      {P : Log → Event → Type 0} {B : Type 0}
      → ((a : A) (log log' : Log) → Grows log log' → F a log → F a log')
      → (body : ℕ → A → S → M (B × S))
      → ((i : ℕ) (a : A) (s : S) (log : Log)
          → Runs P (λ (b, s') log'. flag s' ≡ true → (flag s ≡ true) × F a log') log (body i a s))
      → (i : ℕ) (xs : List A) (s : S) (log : Log) → Runs P (Learnt xs s) log (for_range body i xs s)
  unfolding for_range
  Runs-for_range later body h i [] s log = Runs-pure ([], s) log (λ e. (e, tt))
  Runs-for_range later body h i (x ∷ xs) s log =
      Runs-bind (λ (b, s') log'. flag s' ≡ true → (flag s ≡ true) × F x log') _ _ log (h i x s log)
        (λ (b, s') log1 g1 q.
          Runs-bind (Learnt xs s') _ _ log1 (Runs-for_range later body h (suc i) xs s' log1)
            (λ (bs, s'') log2 g2 q'.
              Runs-pure (b ∷ bs, s'') log2
                (λ e.
                  let (e1, rest) = q' e in
                  let (e0, fx) = q e1 in (e0, (later x log1 log2 g2 fx, rest)))))

module _ (env : Env) (mig : Migration) (Φ : Log → Type 0) where
  -- What may be written now.
  abbrev pub Allowed : Status → Log → Type 0
  Allowed s log = (s.phase ≡ mig.status.phase) ⊎ (s.phase ≡ Phase.failed) ⊎ Φ log

  module _ (later : (log log' : Log) → Grows log log' → Φ log → Φ log') where
    pub Allowed-later :
        (s : Status) (log log' : Log) → Grows log log' → Allowed s log → Allowed s log'
    Allowed-later s log log' g (inl e) = inl e
    Allowed-later s log log' g (inr (inl e)) = inr (inl e)
    Allowed-later s log log' g (inr (inr h)) = inr (inr (later log log' g h))

    pub Runs-with_condition :
        (type : Text) (v : ConditionStatus) (reason : Text) (m : Message) (s : Status) (log : Log)
        → Allowed s log
        → Runs (Guarded Φ mig) Allowed log (with_condition env type v reason m s)
    unfolding with_condition
    Runs-with_condition type v reason m s log h =
        Runs-bind (λ r log'. Unit {0}) _ _ log (Runs-ask env clock log (λ r. (tt, tt)))
          (λ now log' g q. Runs-pure _ log' (Allowed-later s log log' g h))

    pub Runs-patch_and_finish :
        (s : Status) (r : Requeue) (log : Log)
        → Allowed s log
        → Runs (Guarded Φ mig) (λ o log'. Unit {0}) log (patch_and_finish env mig s r)
    unfolding patch_and_finish
    Runs-patch_and_finish s r log h =
        Runs-bind (λ e log'. Unit {0}) _ _ log
          (Runs-ask env (patch_status mig.status s) log (λ r. (h, tt)))
          (λ e log' g q. Runs-pure _ log' tt)

    pub Runs-fail_migration :
        {A : Type 0} {Q : A → Log → Type 0} (m : Message) (log : Log)
        → Runs (Guarded Φ mig) Q log (fail_migration {A = A} env mig m)
    unfolding fail_migration
    Runs-fail_migration m log =
        Runs-bind Allowed _ _ log (Runs-with_condition _ _ _ _ _ log (inr (inl refl)))
          (λ s log1 g q.
            Runs-bind (λ e log'. Unit {0}) _ _ log1
              (Runs-ask env (patch_status mig.status s) log1 (λ r. (q, tt)))
              (λ e log2 g' q'. Runs-return_now _ log2))

    client-Runs :
        (r : Result PrismClient) (k : Err → Message) (log : Log)
        → Runs
            (Guarded Φ mig)
            (λ p log'. Unit {0})
            log
            (or_else r (λ e. fail_migration env mig (k e)))
    unfolding or_else
    client-Runs (ok p) k log = Runs-pure p log tt
    client-Runs (err e) k log = Runs-fail_migration (k e) log

    pub Runs-new_prism_client :
        (log : Log) → Runs (Guarded Φ mig) (λ p log'. Unit {0}) log (new_prism_client env mig)
    unfolding new_prism_client
    Runs-new_prism_client log =
        Runs-bind (λ r log'. Unit {0}) _ _ log (Runs-ask env (connect mig) log (λ r. (tt, tt)))
          (λ r log' g q. client-Runs r _ log')
