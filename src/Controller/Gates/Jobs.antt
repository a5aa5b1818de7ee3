-- ===== src/Controller/Gates/Jobs.antt =====
-- `handleWarmFinalDelta`: what is known of the jobs of every VM before the phase is left.
use ahv_to_ove_operator.Base.{
  ℕ, suc, ◌≡◌, refl, Bool, true, false, ◌||◌, List, [], ◌∷◌, Text, All, ◌⊎◌, inl, inr, arith,
  length,
}
use ahv_to_ove_operator.Api.{Migration, VmStatus}
use ahv_to_ove_operator.Api.Errors.{Err, Message, Result, ok, err, is_not_found}
use ahv_to_ove_operator.Resources.Names.{is_empty, target_ns}
use ahv_to_ove_operator.Resources.DeltaJobs.{JobCondition, JobState, job_finished}
use ahv_to_ove_operator.Controller.Effects.{Env, Log, or_else, get_job, changed_regions}
use ahv_to_ove_operator.Controller.Status.{fail_migration, give_up}
use ahv_to_ove_operator.Controller.Delta.{is_done, diffs}
use ahv_to_ove_operator.Controller.Delta.Bytes.{NamesNothing}
use ahv_to_ove_operator.Controller.Delta.Jobs.{Diff, job_step, wait_jobs}
use ahv_to_ove_operator.Controller.Evidence.{
  Said, Grows, Guarded, Runs, Runs-pure, Runs-return_now, Runs-ask, Runs-bind, Runs-map, Runs-if,
  Runs-fail_migration,
}
use ahv_to_ove_operator.Controller.Gates.{All-map}

-- The API server has returned the job with the condition Complete, or without the job.
abbrev pub IsFinished : Text → Text → Log → Type 0
IsFinished ns name log =
    ((cs : List JobCondition) × Said (get_job ns name) (ok cs) log
      × (job_finished cs ≡ JobState.succeeded))
    ⊎ ((e : Err) × Said (get_job ns name) (err e) log × (is_not_found e ≡ true))

-- Prism has named these regions, for each disk of the new snapshot against that of the old one.
abbrev pub AreCompared : List Text → List Text → List Diff → Log → Type 0
AreCompared (path ∷ paths) (ref ∷ refs) (d ∷ ds) log =
    Said (changed_regions path ref) (ok d.regions) log × AreCompared paths refs ds log
AreCompared [] [] [] log = Unit
AreCompared _ _ _ log = ⊥

-- A VM of the final delta that is in step with its last snapshot: it was done before, or Prism has named
-- no byte that differs (or lengths that add up to 2^64 or more), or its jobs are finished. A VM without a UUID is passed over.
abbrev pub IsSynced : Text → VmStatus → Log → Type 0
IsSynced ns st log =
    (is_empty st.ahv_uuid || is_done true st.phase ≡ true)
    ⊎ ((paths : List Text) × (ds : List Diff) × AreCompared paths st.snapshot_paths ds log
        × NamesNothing ds)
    ⊎ All (λ name. IsFinished ns name log) st.sync_job_refs

IsFinished-later :
    (ns name : Text) (log log' : Log)
    → Grows log log'
    → IsFinished ns name log
    → IsFinished ns name log'
IsFinished-later ns name log log' g (inl (cs, s, e)) = inl (cs, g _ _ s, e)
IsFinished-later ns name log log' g (inr (x, s, e)) = inr (x, g _ _ s, e)

AreCompared-later :
    (paths refs : List Text) (ds : List Diff) (log log' : Log)
    → Grows log log'
    → AreCompared paths refs ds log
    → AreCompared paths refs ds log'
AreCompared-later (p ∷ ps) (r ∷ rs) (d ∷ ds) log log' g (s, h) =
    (g _ _ s, AreCompared-later ps rs ds log log' g h)
AreCompared-later [] [] [] log log' g h = tt
AreCompared-later [] [] (d ∷ ds) log log' g h = h
AreCompared-later [] (r ∷ rs) ds log log' g h = h
AreCompared-later (p ∷ ps) [] ds log log' g h = h
AreCompared-later (p ∷ ps) (r ∷ rs) [] log log' g h = h

pub IsSynced-later :
    (ns : Text) (st : VmStatus) (log log' : Log)
    → Grows log log'
    → IsSynced ns st log
    → IsSynced ns st log'
IsSynced-later ns st log log' g (inl e) = inl e
IsSynced-later ns st log log' g (inr (inl (paths, ds, c, e))) =
    inr (inl (paths, ds, AreCompared-later paths st.snapshot_paths ds log log' g c, e))
IsSynced-later ns st log log' g (inr (inr h)) =
    inr (inr (All-map _ _ (λ name. IsFinished-later ns name log log' g) st.sync_job_refs h))

module _ (env : Env) (mig : Migration) where
  abbrev pub AllSynced : Log → Type 0
  AllSynced log = All (λ st. IsSynced (target_ns mig) st log) mig.status.vms

  pub AllSynced-later : (log log' : Log) → Grows log log' → AllSynced log → AllSynced log'
  AllSynced-later log log' g h =
      All-map _ _ (λ st. IsSynced-later (target_ns mig) st log log' g) mig.status.vms h

  abbrev pub G : Log → Type 0
  G = AllSynced

  pub fails_with :
      {A : Type 0} {Q : A → Log → Type 0} (m : Message) (log : Log)
      → Runs (Guarded G mig) Q log (fail_migration {A = A} env mig m)
  fails_with m log = Runs-fail_migration env mig G AllSynced-later m log

  pub or_fails :
      {A : Type 0} {Q : A → Log → Type 0} (r : Result A) (k : Err → Message) (log : Log)
      → ((a : A) → r ≡ ok a → Q a log)
      → Runs (Guarded G mig) Q log (or_else r (λ e. fail_migration env mig (k e)))
  unfolding or_else
  or_fails (ok a) k log h = Runs-pure a log (h a refl)
  or_fails (err e) k log h = fails_with (k e) log

  abbrev Waited : Text → Bool → Bool → Log → Type 0
  Waited name b b' log = b' ≡ true → (b ≡ true) × IsFinished (target_ns mig) name log

  job_state-Waited :
      (name : Text) (b : Bool) (cs : List JobCondition) (s : JobState) (log : Log)
      → job_finished cs ≡ s
      → Said (get_job (target_ns mig) name) (ok cs) log
      → Runs (Guarded G mig) (Waited name b) log (job_step env mig name b (ok cs))
  unfolding job_step
  job_state-Waited name b cs JobState.running log e s =
      rw (e, job_step) (Runs-pure false log (λ h. ground (arith, h)))
  job_state-Waited name b cs JobState.succeeded log e s =
      rw (e, job_step) (Runs-pure b log (λ h. (h, inl (cs, s, e))))
  job_state-Waited name b cs JobState.failed log e s = rw (e, job_step) (fails_with _ log)

  job_step-Waited :
      (name : Text) (b : Bool) (r : Result (List JobCondition)) (log : Log)
      → Said (get_job (target_ns mig) name) r log
      → Runs (Guarded G mig) (Waited name b) log (job_step env mig name b r)
  unfolding job_step give_up
  job_step-Waited name b (ok cs) log s = job_state-Waited name b cs _ log refl s
  job_step-Waited name b (err e) log s =
      Runs-if (is_not_found e) _ _ log (λ n. Runs-pure b log (λ h. (h, inr (e, s, n))))
        (λ n. Runs-return_now _ log)

  pub wait_jobs-Waited :
      (names : List Text) (b : Bool) (log : Log)
      → Runs
          (Guarded G mig)
          (λ b' log'. b' ≡ true → (b ≡ true) × All (λ n. IsFinished (target_ns mig) n log') names)
          log
          (wait_jobs env mig names b)
  unfolding wait_jobs
  wait_jobs-Waited [] b log = Runs-pure b log (λ h. (h, tt))
  wait_jobs-Waited (name ∷ names) b log =
      Runs-bind (λ r log'. Said (get_job (target_ns mig) name) r log') _ _ log
        (Runs-ask env (get_job (target_ns mig) name) log (λ r. (tt, Said.now)))
        (λ r log1 g1 s.
          Runs-bind (Waited name b) _ _ log1 (job_step-Waited name b r log1 s) (λ b1 log2 g2 q.
            Runs-map (wait_jobs-Waited names b1 log2) (λ b2 log3 g3 q' h.
              let (h1, rest) = q' h in
              let (h0, f) = q h1 in
              (h0, (IsFinished-later (target_ns mig) name log2 log3 g3 f, rest)))))

  pub diffs-AreCompared :
      (name : Text) (d : ℕ) (paths refs : List Text) (log : Log)
      → length paths ≡ length refs
      → Runs (Guarded G mig) (AreCompared paths refs) log (diffs env mig true name d paths refs)
  unfolding diffs
  diffs-AreCompared name d [] [] log e = Runs-pure [] log tt
  diffs-AreCompared name d [] (r ∷ rs) log e = ground (arith, e)
  diffs-AreCompared name d (p ∷ ps) [] log e = ground (arith, e)
  diffs-AreCompared name d (p ∷ ps) (r ∷ rs) log e =
      Runs-bind (λ a log'. Said (changed_regions p r) a log') _ _ log
        (Runs-ask env (changed_regions p r) log (λ a. (tt, Said.now)))
        (λ a log1 g1 s.
          Runs-bind (λ regions log'. Said (changed_regions p r) (ok regions) log') _ _ log1
            (or_fails a _ log1 (λ regions ea. rw⁻¹ ea s))
            (λ regions log2 g2 s'.
              Runs-bind (AreCompared ps rs) _ _ log2
                (diffs-AreCompared name (suc d) ps rs log2 (omega (arith, e)))
                (λ more log3 g3 h. Runs-pure _ log3 (g3 _ _ s', h))))

  -- What a step of the loop over the VMs learns.
  abbrev pub Synced : VmStatus → Bool → VmStatus × Bool → Log → Type 0
  Synced st b (st', b') log = b' ≡ true → (b ≡ true) × IsSynced (target_ns mig) st log
