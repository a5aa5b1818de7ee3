-- ===== src/Controller/Moves/Jobs.antt =====
-- The jobs of a round keep to the diagram of the phases.
use ahv_to_ove_operator.Base.{
  ℕ, suc, ◌≡◌, refl, Bool, true, false, List, [], ◌∷◌, Text, Option, Option-cases, get_elem?, inl,
  inr,
}
use ahv_to_ove_operator.Api.{Migration}
use ahv_to_ove_operator.Api.Errors.{Err, Result, ok, err, is_not_found, is_already_exists}
use ahv_to_ove_operator.Regions.{ChangedRegion, prepare_regions}
use ahv_to_ove_operator.Resources.Names.{target_ns}
use ahv_to_ove_operator.Resources.DeltaJobs.{JobCondition, JobState, job_finished}
use ahv_to_ove_operator.Controller.Effects.{Env, get_job, delete_job, delete_config_map}
use ahv_to_ove_operator.Controller.Delta.Jobs.{
  Diff, unless_exists, start_job, claim_of, job_for, start_jobs, job_step, wait_jobs, delete_jobs,
}
use ahv_to_ove_operator.Controller.Ensures.{
  Keeps, keeps_rules, Keeps-pure, Keeps-bind, Keeps-ask, Keeps-on_error, Ensures-if,
}
use ahv_to_ove_operator.Controller.Moves.{IsMove, jobs_in}
use ahv_to_ove_operator.Controller.Moves.Common.{fail_migration-Keeps, give_up-Keeps}

module _ (env : Env) (mig : Migration) where
  unless_exists-Keeps : (t : Text) (e : Option Err) → Keeps (IsMove mig) (unless_exists env mig t e)
  unfolding unless_exists
  unless_exists-Keeps t e = Keeps-on_error e _ (λ x.
      Ensures-if (is_already_exists x) _ _ (λ _. Keeps-pure tt) (λ _. give_up-Keeps env mig _))

  start_job-Keeps :
      jobs_in mig.status.phase ≡ true
      → (i d round : ℕ) (diff : Diff) (rs : List ChangedRegion) (pvc : Text)
      → Keeps (IsMove mig) (start_job env mig i d round diff rs pvc)
  unfolding start_job
  start_job-Keeps j1 i d round diff rs pvc = search (keeps_rules, unless_exists-Keeps) depth 8

  claim_of-Keeps :
      (name : Text) (d : ℕ) (refs : List Text) → Keeps (IsMove mig) (claim_of env mig name d refs)
  unfolding claim_of
  claim_of-Keeps name d refs = elim (Option-cases (get_elem? refs d)) [
    | inl e ↦ rw (e, claim_of) (fail_migration-Keeps env mig _)
    | inr (pvc, e) ↦ rw (e, claim_of) (Keeps-pure pvc)
  ]

  job_for-Keeps :
      jobs_in mig.status.phase ≡ true
      → (i : ℕ) (name : Text) (round d : ℕ) (diff : Diff) (refs : List Text)
        (rs : List ChangedRegion)
      → Keeps (IsMove mig) (job_for env mig i name round d diff refs rs)
  unfolding job_for
  job_for-Keeps j1 i name round d diff refs [] = Keeps-pure []
  job_for-Keeps j1 i name round d diff refs (r ∷ rs) =
      Keeps-bind _ _ (claim_of-Keeps name d refs) (λ pvc.
        Keeps-bind _ _ (start_job-Keeps j1 i d round diff (r ∷ rs) pvc) (λ job. Keeps-pure _))

  pub start_jobs-Keeps :
      jobs_in mig.status.phase ≡ true
      → (i : ℕ) (name : Text) (round d : ℕ) (ds : List Diff) (refs : List Text)
      → Keeps (IsMove mig) (start_jobs env mig i name round d ds refs)
  unfolding start_jobs
  start_jobs-Keeps j1 i name round d [] refs = Keeps-pure []
  start_jobs-Keeps j1 i name round d (diff ∷ ds) refs =
      Keeps-bind _ _ (job_for-Keeps j1 i name round d diff refs (prepare_regions diff.regions))
        (λ job.
          Keeps-bind _ _ (start_jobs-Keeps j1 i name round (suc d) ds refs) (λ names. Keeps-pure _))

  job_state-Keeps :
      (name : Text) (b : Bool) (cs : List JobCondition) (s : JobState)
      → job_finished cs ≡ s
      → Keeps (IsMove mig) (job_step env mig name b (ok cs))
  unfolding job_step
  job_state-Keeps name b cs JobState.running e = rw (e, job_step) (Keeps-pure false)
  job_state-Keeps name b cs JobState.succeeded e = rw (e, job_step) (Keeps-pure b)
  job_state-Keeps name b cs JobState.failed e = rw (e, job_step) (fail_migration-Keeps env mig _)

  job_step-Keeps :
      (name : Text) (b : Bool) (r : Result (List JobCondition))
      → Keeps (IsMove mig) (job_step env mig name b r)
  unfolding job_step
  job_step-Keeps name b (ok cs) = job_state-Keeps name b cs _ refl
  job_step-Keeps name b (err e) =
      Ensures-if (is_not_found e) _ _ (λ _. Keeps-pure b) (λ _. give_up-Keeps env mig e)

  pub wait_jobs-Keeps :
      (names : List Text) (b : Bool) → Keeps (IsMove mig) (wait_jobs env mig names b)
  unfolding wait_jobs
  wait_jobs-Keeps [] b = Keeps-pure b
  wait_jobs-Keeps (name ∷ names) b =
      Keeps-bind _ _ (Keeps-ask env (get_job (target_ns mig) name) (λ r. tt))
        (λ r. Keeps-bind _ _ (job_step-Keeps name b r) (λ b'. wait_jobs-Keeps names b'))

  pub delete_jobs-Keeps : (names : List Text) → Keeps (IsMove mig) (delete_jobs env mig names)
  unfolding delete_jobs
  delete_jobs-Keeps [] = Keeps-pure tt
  delete_jobs-Keeps (name ∷ names) =
      Keeps-bind _ _ (Keeps-ask env (delete_job (target_ns mig) name) (λ r. tt)) (λ _.
        Keeps-bind _ _ (Keeps-ask env (delete_config_map (target_ns mig) name) (λ r. tt))
          (λ _. delete_jobs-Keeps names))
