-- ===== src/Runner/Pool/Slots.antt =====
-- The slots of the semaphore of `runDeltaSync` in deltasync.go.
use mathlib.Core.Path.{subst}
use ahv_to_ove_operator.Base.{
  suc, ◌<◌, ◌≤◌, ◌≡◌, ◌≢◌, ◌⊎◌, inl, inr, refl, ap, List, [], ◌∷◌, Option, none, some, some_inj,
  arith, All, Option-cases,
}
use ahv_to_ove_operator.Regions.{ChangedRegion}
use ahv_to_ove_operator.Runner.{Files, World}
use ahv_to_ove_operator.Runner.Pool.{
  Worker, waiting, busy, finished, Task, behind, round_step, slots_in_use, start_next, Round, here,
  there,
}
use ahv_to_ove_operator.Runner.Pool.Left.{total}

-- A turn of the loop that starts the goroutines takes one more slot.
pub record Started (ts ts' : List Task) : Type 0 where
  pub less : total ts' < total ts
  pub one_more : slots_in_use ts' ≡ suc (slots_in_use ts)

slots_in_use-cons :
    (r : ChangedRegion) (s : Worker) (ts ts' : List Task)
    → slots_in_use ts' ≡ suc (slots_in_use ts)
    → slots_in_use ((r, s) ∷ ts') ≡ suc (slots_in_use ((r, s) ∷ ts))
unfolding slots_in_use
slots_in_use-cons r waiting ts ts' e = e
slots_in_use-cons r (busy left done) ts ts' e = ap suc e
slots_in_use-cons r (finished result) ts ts' e = e

Started-behind :
    (t : Task) (ts ts' : List Task) (o : Option (List Task))
    → behind t o ≡ some ts'
    → ((ts'' : List Task) → o ≡ some ts'' → Started ts ts'')
    → Started (t ∷ ts) ts'
Started-behind t ts ts' none h more = absurd cc
Started-behind (r, s) ts ts' (some ts'') h more =
    let m = more ts'' refl in
    subst (Started ((r, s) ∷ ts)) (some_inj h)
      record { less = omega (arith, m.less); one_more = slots_in_use-cons r s ts ts'' m.one_more }

pub Started-start_next : (ts ts' : List Task) → start_next ts ≡ some ts' → Started ts ts'
unfolding start_next slots_in_use
Started-start_next [] ts' h = absurd cc
Started-start_next ((r, waiting) ∷ ts) ts' h =
    subst (Started ((r, waiting) ∷ ts)) (some_inj h) record { less = omega arith; one_more = refl }
Started-start_next ((r, busy left done) ∷ ts) ts' h =
    Started-behind (r, busy left done) ts ts' (start_next ts) h
      (λ ts'' e. Started-start_next ts ts'' e)
Started-start_next ((r, finished result) ∷ ts) ts' h =
    Started-behind (r, finished result) ts ts' (start_next ts) h
      (λ ts'' e. Started-start_next ts ts'' e)

slots_in_use-le :
    (r : ChangedRegion) (s : Worker) (ts : List Task)
    → slots_in_use ((r, s) ∷ ts) ≤ suc (slots_in_use ts)
unfolding slots_in_use
slots_in_use-le r waiting ts = omega arith
slots_in_use-le r (busy left done) ts = omega arith
slots_in_use-le r (finished result) ts = omega arith

slots_in_use_mono :
    (r : ChangedRegion) (s : Worker) (ts ts' : List Task)
    → slots_in_use ts' ≤ slots_in_use ts
    → slots_in_use ((r, s) ∷ ts') ≤ slots_in_use ((r, s) ∷ ts)
unfolding slots_in_use
slots_in_use_mono r waiting ts ts' h = h
slots_in_use_mono r (busy left done) ts ts' h = omega arith
slots_in_use_mono r (finished result) ts ts' h = h

module _ (files : Files) where
  pub slots_in_use-Round :
      {ts ts' : List Task} {w w' : World}
      → Round files ts w ts' w'
      → slots_in_use ts' ≤ slots_in_use ts
  unfolding slots_in_use
  slots_in_use-Round (here r left done ts w) =
      slots_in_use-le r (round_step files r left done w).0 ts
  slots_in_use-Round (there (r, s) {ts} {ts'} d) =
      slots_in_use_mono r s ts ts' (slots_in_use-Round d)

  pub data Rounds (ts : List Task) (w : World) : Type 0 where
    rounds : (ts' : List Task) (w' : World) → Round files ts w ts' w' → Rounds ts w

  Rounds-there : (t : Task) (ts : List Task) (w : World) → Rounds ts w → Rounds (t ∷ ts) w
  Rounds-there t ts w (rounds ts' w' d) = rounds (t ∷ ts') w' (there t d)

  pub Rounds-slots_in_use : (ts : List Task) (w : World) → 0 < slots_in_use ts → Rounds ts w
  unfolding slots_in_use
  Rounds-slots_in_use [] w h = absurd (omega arith)
  Rounds-slots_in_use ((r, waiting) ∷ ts) w h =
      Rounds-there (r, waiting) ts w (Rounds-slots_in_use ts w h)
  Rounds-slots_in_use ((r, busy left done) ∷ ts) w h = rounds _ _ (here r left done ts w)
  Rounds-slots_in_use ((r, finished result) ∷ ts) w h =
      Rounds-there (r, finished result) ts w (Rounds-slots_in_use ts w h)

abbrev pub IsOver : Worker → Type 0
IsOver waiting = ⊥
IsOver (busy left done) = ⊥
IsOver (finished result) = Unit {0}

-- Where no goroutine runs, all are over or one can be started.
abbrev pub Idle : (ts : List Task) → Type 0
Idle ts = All (λ t. IsOver t.1) ts ⊎ (start_next ts ≢ none)

pub Idle-slots_in_use : (ts : List Task) → slots_in_use ts ≡ 0 → Idle ts
unfolding slots_in_use start_next
Idle-slots_in_use [] h = inl tt
Idle-slots_in_use ((r, waiting) ∷ ts) h = inr (λ e. cc)
Idle-slots_in_use ((r, busy left done) ∷ ts) h = absurd (omega arith)
Idle-slots_in_use ((r, finished result) ∷ ts) h = elim (Idle-slots_in_use ts h) [
  | inl over ↦ inl (tt, over)
  | inr some_ ↦ inr (elim (Option-cases (start_next ts)) [
    | inl stuck ↦ absurd (some_ stuck)
    | inr (ts', e) ↦ λ k. (let j = rw e at k in cc)
  ])
]
