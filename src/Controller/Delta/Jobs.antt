-- ===== src/Controller/Delta/Jobs.antt =====
-- controllers/cbt_sync.go: the jobs of a round, in `runDeltaRound`.
use ahv_to_ove_operator.Base.{
  ℕ, suc, Bool, false, List, [], ◌∷◌, ◌++◌, Text, codes, Option, none, some, if◌then◌else◌,
  get_elem?,
}
use ahv_to_ove_operator.Api.{Migration}
use ahv_to_ove_operator.Api.Errors.{
  Err, Result, ok, err, wrapped, txt, num, is_not_found, is_already_exists,
}
use ahv_to_ove_operator.Regions.{ChangedRegion, prepare_regions}
use ahv_to_ove_operator.Resources.Names.{target_ns}
use ahv_to_ove_operator.Resources.DeltaJobs.{
  build_delta_sync_config_map, build_delta_sync_job, nfs_server_host, JobCondition, running,
  succeeded, failed, job_finished,
}
use ahv_to_ove_operator.Controller.Effects.{
  Env, M, pure, ◌>>=◌, ◌>>◌, ask, on_error, create_config_map, create_job, get_job, delete_job,
  delete_config_map,
}
use ahv_to_ove_operator.Controller.Status.{fail_migration, give_up}

-- A disk of the new snapshot: its path and the regions that changed.
pub record Diff : Type 0 where
  pub path : Text
  pub regions : List ChangedRegion

module _ (env : Env) (mig : Migration) where
  -- An object that is already there is taken for the one wanted.
  unfoldable pub unless_exists : Text → Option Err → M (Unit {0})
  unless_exists format e =
      on_error e (λ x. if is_already_exists x then pure tt else give_up (wrapped format [] x))

  -- The config map and the job of one disk.
  unfoldable pub start_job : ℕ → ℕ → ℕ → Diff → List ChangedRegion → Text → M Text
  unfolding unless_exists
  start_job i d round diff merged pvc = do
    let cm = build_delta_sync_config_map mig i d round merged
    let job =
        build_delta_sync_job env.operator_image mig i d round diff.path
          (nfs_server_host env.url_hostname mig) pvc
    e ← ask env (create_config_map cm)
    unless_exists (codes "create delta ConfigMap: %w") e
    e' ← ask env (create_job job)
    unless_exists (codes "create delta Job: %w") e'
    pure job.name

  -- The claim of the disk `d`.
  unfoldable pub claim_of : Text → ℕ → List Text → M Text
  claim_of vm_name d refs = elim (get_elem? refs d) [
    | some pvc ↦ pure pvc
    | none ↦ fail_migration env mig (record {
      format = codes "CBT: no DataVolume for disk %d of %q";
      args = num d ∷ txt vm_name ∷ [];
      cause = none;
    })
  ]

  unfoldable pub job_for : ℕ → Text → ℕ → ℕ → Diff → List Text → List ChangedRegion → M (List Text)
  unfolding start_job claim_of
  job_for i vm_name round d diff refs [] = pure []
  job_for i vm_name round d diff refs (r ∷ rs) = do
    pvc ← claim_of vm_name d refs
    name ← start_job i d round diff (r ∷ rs) pvc
    pure (name ∷ [])

  -- A job for each disk with regions, and the names of the jobs.
  unfoldable pub start_jobs : ℕ → Text → ℕ → ℕ → List Diff → List Text → M (List Text)
  unfolding job_for
  start_jobs i vm_name round d [] refs = pure []
  start_jobs i vm_name round d (diff ∷ ds) refs = do
    name ← job_for i vm_name round d diff refs (prepare_regions diff.regions)
    names ← start_jobs i vm_name round (suc d) ds refs
    pure (name ++ names)

  -- What the read of a job means for `jobsDone`. A job that is gone counts as complete.
  unfoldable pub job_step : Text → Bool → Result (List JobCondition) → M Bool
  job_step name jobs_done (err e) = if is_not_found e then pure jobs_done else give_up e
  job_step name jobs_done (ok conditions) = elim (job_finished conditions) [
    | running ↦ pure false
    | succeeded ↦ pure jobs_done
    | failed ↦ fail_migration env mig (record {
      format = codes "CBT: delta sync job %s failed";
      args = txt name ∷ [];
      cause = none;
    })
  ]

  unfoldable pub wait_jobs : List Text → Bool → M Bool
  unfolding job_step
  wait_jobs [] jobs_done = pure jobs_done
  wait_jobs (name ∷ names) jobs_done = ask env (get_job (target_ns mig) name) >>= λ answer.
      job_step name jobs_done answer >>= λ jobs_done'. wait_jobs names jobs_done'

  -- Errors are dropped.
  unfoldable pub delete_jobs : List Text → M (Unit {0})
  delete_jobs [] = pure tt
  delete_jobs (name ∷ names) = ask env (delete_job (target_ns mig) name) >>= λ _.
      ask env (delete_config_map (target_ns mig) name) >>= λ _. delete_jobs names
