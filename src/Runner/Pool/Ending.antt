-- ===== src/Runner/Pool/Ending.antt =====
-- The goroutines of `runDeltaSync` in deltasync.go end, and none of them is ever stuck.
use mathlib.Core.Path.{subst}
use ahv_to_ove_operator.Base.{
  ℕ, suc, ◌+◌, ◌*◌, ◌<◌, ◌≤◌, ◌≡◌, ◌==◌, ◌⊎◌, inl, inr, refl, sym, List, [], ◌∷◌, arith, All,
  Bool-cases, Option-cases,
}
use ahv_to_ove_operator.Regions.{ChangedRegion, Fits}
use ahv_to_ove_operator.Regions.Disjointness.{Disjoint}
use ahv_to_ove_operator.Runner.{Files, World}
use ahv_to_ove_operator.Runner.Copy.{IsLawful}
use ahv_to_ove_operator.Runner.Pool.{
  Task, slots_in_use, start_next, Step, starts, works, Run, begins, goes_on, tasks,
}
use ahv_to_ove_operator.Runner.Pool.Synced.{Sound-Run}
use ahv_to_ove_operator.Runner.Pool.Left.{total, total-Round}
use ahv_to_ove_operator.Runner.Pool.Slots.{
  Started-start_next, slots_in_use-Round, rounds, Rounds-slots_in_use, IsOver, Idle-slots_in_use,
}

-- Three transfers of each region, and the rounds that end them.
unfoldable pub work : List ChangedRegion → ℕ
work [] = 0
work (r ∷ rs) = 3 * (r.len + 2) + work rs

total-tasks : (rs : List ChangedRegion) → total (tasks rs) ≡ work rs
unfolding work
total-tasks [] = refl
total-tasks (r ∷ rs) = omega (arith, total-tasks rs)

slots_in_use-tasks : (rs : List ChangedRegion) → slots_in_use (tasks rs) ≡ 0
unfolding slots_in_use
slots_in_use-tasks [] = refl
slots_in_use-tasks (r ∷ rs) = slots_in_use-tasks rs

module _ (files : Files) where
  -- The number of steps of a run.
  unfoldable pub steps :
      {workers : ℕ} {ts₀ : List Task} {w₀ : World} {ts : List Task} {w : World}
      → Run files workers ts₀ w₀ ts w
      → ℕ
  steps begins = 0
  steps (goes_on run _) = suc (steps run)

  pub data Goes (workers : ℕ) (ts : List Task) (w : World) : Type 0 where
    goes : (ts' : List Task) (w' : World) → Step files workers ts w ts' w' → Goes workers ts w

  -- What the main goroutine and the others can do in a state.
  pub record Proceeds (workers : ℕ) (ts : List Task) (w : World) : Type 0 where
    pub slots : slots_in_use ts ≤ workers
    pub going : 0 < workers → All (λ t. IsOver t.1) ts ⊎ Goes workers ts w

  Goes-idle :
      (workers : ℕ) (ts : List Task) (w : World)
      → 0 < workers
      → slots_in_use ts ≡ 0
      → All (λ t. IsOver t.1) ts ⊎ Goes workers ts w
  Goes-idle workers ts w some_ e = elim (Idle-slots_in_use ts e) [
    | inl over ↦ inl over
    | inr startable ↦ elim (Option-cases (start_next ts)) [
      | inl none_ ↦ absurd (startable none_)
      | inr (ts', h) ↦ inr (goes ts' w (starts ts ts' w (omega (arith, e)) h))
    ]
  ]

  Goes-on :
      (workers : ℕ) (ts : List Task) (w : World)
      → 0 < workers
      → All (λ t. IsOver t.1) ts ⊎ Goes workers ts w
  Goes-on workers ts w some_ = elim (Bool-cases (slots_in_use ts == 0)) [
    | inl e ↦ Goes-idle workers ts w some_ (ground (arith, e))
    | inr e ↦ elim (Rounds-slots_in_use files ts w (ground (arith, e))) [
      | rounds ts' w' d ↦ inr (goes ts' w' (works d))
    ]
  ]

  Bounded :
      (L : IsLawful files) (workers : ℕ) (rs : List ChangedRegion) (w₀ : World) {ts : List Task}
      {w : World}
      → All Fits rs
      → Disjoint rs
      → (run : Run files workers (tasks rs) w₀ ts w)
      → (steps run + total ts ≤ work rs) × (slots_in_use ts ≤ workers)
  unfolding steps
  Bounded L workers rs w₀ fs a begins =
      (omega (arith, total-tasks rs), omega (arith, slots_in_use-tasks rs))
  Bounded L workers rs w₀ fs a (goes_on run (starts ts ts' w free e)) =
      let (b, _) = Bounded L workers rs w₀ fs a run in
      let s = Started-start_next ts ts' e in
      (omega (arith, b, s.less), omega (arith, free, s.one_more))
  Bounded L workers rs w₀ fs a (goes_on {ts} {ts'} {w} run (works d)) =
      let (b, slots) = Bounded L workers rs w₀ fs a run in
      let s = Sound-Run files 0 L workers rs w₀ fs a run in
      let less = total-Round files L d (subst (All Fits) (sym s.same) fs) s.standing in
      (omega (arith, b, less), omega (arith, slots, slots_in_use-Round files d))

-- For regions that share no byte, the goroutines take at most three times the length of each
-- region plus two steps, in any order. At every moment at most as many run as there are workers,
-- and with one worker at least, either all have ended or some step can be taken. The ends of the
-- regions are below 2^62, and the files keep the contract of io.ReaderAt and io.WriterAt.
pub Run-Proceeds :
    (files : Files) (workers : ℕ) (rs : List ChangedRegion) (w₀ : World) (ts : List Task)
    (w : World)
    → IsLawful files
    → All Fits rs
    → Disjoint rs
    → (run : Run files workers (tasks rs) w₀ ts w)
    → (steps files run ≤ work rs) × Proceeds files workers ts w
Run-Proceeds files workers rs w₀ ts w L fs a run =
    let (b, slots) = Bounded files L workers rs w₀ fs a run in
    (omega (arith, b), record { slots = slots; going = Goes-on files workers ts w })
