-- ===== src/Controller/Delta.antt =====
-- controllers/cbt_sync.go: `runDeltaRound`, the rounds of the delta synchronisation.
pub mod Jobs
pub mod Bytes
pub mod Starting
pub mod Convergence
use ahv_to_ove_operator.Base.{
  ℕ, zero, suc, Bool, true, false, ◌&&◌, ◌||◌, not, List, [], ◌∷◌, ◌++◌, Text, codes, Option, none,
  some, if◌then◌else◌, length, ◌==◌,
}
use ahv_to_ove_operator.Base.Int32.{add32, le32}
use ahv_to_ove_operator.Base.Int64.{add64, le64}
use ahv_to_ove_operator.Api.{
  Migration, Status, VmStatus, VmPhase, condition_true, ready_for_cutover, warm_cutover,
  creating_vms,
}
use ahv_to_ove_operator.Api.Errors.{Err, Result, ok, err, Message, txt, num}
use ahv_to_ove_operator.Regions.{ChangedRegion, total_region_bytes}
use ahv_to_ove_operator.Resources.Names.{is_empty, round_snapshot_name}
use ahv_to_ove_operator.Resources.DeltaJobs.{delta_sync_threshold_bytes, max_delta_rounds}
use ahv_to_ove_operator.Controller.Effects.{
  Env, M, pure, ◌>>=◌, ◌>>◌, ask, or_else, for_range, Outcome, create_vm_snapshot,
  get_vm_snapshot_paths, changed_regions, delete_vm_snapshot,
}
use ahv_to_ove_operator.Controller.Status.{
  with_condition, plain, fail_migration, patch_and_finish, requeue_interval,
}
use ahv_to_ove_operator.Controller.Warm.{new_prism_client, because}
use ahv_to_ove_operator.Controller.FinalSync.{delete_images}
use ahv_to_ove_operator.Controller.Delta.Jobs.{Diff, start_jobs, wait_jobs, delete_jobs}

-- `doneMark`
abbrev pub done_mark : Bool → VmPhase
done_mark true = VmPhase.final_delta_done
done_mark false = VmPhase.delta_converged

unfoldable pub is_done : Bool → VmPhase → Bool
is_done true VmPhase.final_delta_done = true
is_done false VmPhase.delta_converged = true
is_done _ _ = false

abbrev pub snap_prefix : Bool → Text
snap_prefix true = codes "cbt-final"
snap_prefix false = codes "cbt-delta"

abbrev pub no_paths : List Text → Bool
no_paths [] = true
no_paths (p ∷ ps) = false

-- `totalBytes`
unfoldable pub total_bytes : ℕ → List Diff → ℕ
total_bytes t [] = t
total_bytes t (d ∷ ds) = total_bytes (add64 t (total_region_bytes d.regions)) ds

module _ (env : Env) (mig : Migration) (final : Bool) where
  -- The changed regions of each disk, by the paths of the two snapshots.
  unfoldable pub diffs : Text → ℕ → List Text → List Text → M (List Diff)
  diffs vm_name d [] base = pure []
  diffs vm_name d (path ∷ paths) [] = pure []
  diffs vm_name d (path ∷ paths) (ref ∷ refs) = do
    answer ← ask env (changed_regions path ref)
    regions ← or_else answer (λ e.
        fail_migration env mig
          (because (codes "CBT changed_regions %q disk%d: %v") (txt vm_name ∷ num d ∷ []) e))
    more ← diffs vm_name (suc d) paths refs
    pure (record { path = path; regions = regions } ∷ more)

  -- The new snapshot becomes the base. An error of the deletion is only logged.
  unfoldable pub promote : VmStatus → Text → List Text → M VmStatus
  promote st snap paths = do
    _ ← ask env (delete_vm_snapshot st.last_snapshot_uuid)
    pure (record st { last_snapshot_uuid = snap; snapshot_paths = paths })

  -- The test of convergence.
  unfoldable pub converged : VmStatus → ℕ → Bool
  converged st total =
      not final
      && (le64 total (delta_sync_threshold_bytes mig)
          || le32 (max_delta_rounds mig) st.delta_rounds)

  unfoldable pub decide :
      ℕ → VmStatus → Text → List Text → List Diff → ℕ → Bool → M (VmStatus × Bool)
  unfolding promote converged
  decide i st snap paths ds round all_done =
      let total = total_bytes 0 ds in
      let counted = record st { last_delta_bytes = total } in
      if converged st total
      then (promote counted snap paths >>= λ st'.
          pure (record st' { phase = done_mark final }, all_done))
      else if final && total == 0
      then pure (
        record counted {
          pending_snapshot_uuid = snap;
          pending_snapshot_paths = paths;
          phase = done_mark final;
        },
        all_done,
      )
      else (start_jobs env mig i st.name round 0 ds st.data_volume_refs >>= λ refs. pure (
        record counted {
          pending_snapshot_uuid = snap;
          pending_snapshot_paths = paths;
          sync_job_refs = refs;
          phase = VmPhase.delta_syncing;
        },
        false,
      ))

  unfoldable pub start_round : ℕ → VmStatus → Bool → M (VmStatus × Bool)
  unfolding diffs decide
  start_round i st all_done = do
    let round = add32 st.delta_rounds 1
    made ←
        ask env
          (create_vm_snapshot st.ahv_uuid (round_snapshot_name (snap_prefix final) st.name round))
    snap ←
        or_else made
          (λ e. fail_migration env mig (because (codes "CBT snapshot %q: %v") (txt st.name ∷ []) e))
    listed ← ask env (get_vm_snapshot_paths snap st.ahv_uuid)
    paths ← or_else listed (λ e.
        fail_migration env mig (because (codes "CBT snapshot paths %q: %v") (txt st.name ∷ []) e))
    if length paths == length st.snapshot_paths
        then (diffs st.name 0 paths st.snapshot_paths >>= λ ds.
            decide i st snap paths ds round all_done)
        else fail_migration env mig (record {
          format = codes "CBT: disk count changed for %q (%d -> %d)";
          args = txt st.name ∷ num (length st.snapshot_paths) ∷ num (length paths) ∷ [];
          cause = none;
        })

  -- After the jobs of a round.
  unfoldable pub complete_round : VmStatus → Bool → M (VmStatus × Bool)
  unfolding promote
  complete_round st all_done = do
    delete_jobs env mig st.sync_job_refs
    st' ← promote st st.pending_snapshot_uuid st.pending_snapshot_paths
    pure (
      record st' {
        pending_snapshot_uuid = [];
        pending_snapshot_paths = [];
        sync_job_refs = [];
        delta_image_refs = [];
        delta_rounds = add32 st.delta_rounds 1;
        phase = if final then done_mark final else VmPhase.delta_idle;
      },
      if final then all_done else false,
    )

  unfoldable pub finish_round : VmStatus → Bool → M (VmStatus × Bool)
  unfolding complete_round
  finish_round st all_done = do
    jobs_done ← wait_jobs env mig st.sync_job_refs true
    if jobs_done then complete_round st all_done else pure (st, false)

  -- One VM, with `allDone`.
  unfoldable pub delta_vm : ℕ → VmStatus → Bool → M (VmStatus × Bool)
  unfolding start_round finish_round
  delta_vm i st all_done =
      if is_empty st.ahv_uuid || is_done final st.phase
      then pure (st, all_done)
      else if no_paths st.snapshot_paths
      then fail_migration env mig (record {
        format = codes "CBT: VM %q has no base snapshot paths";
        args = txt st.name ∷ [];
        cause = none;
      })
      else if is_empty st.pending_snapshot_uuid
      then start_round i st all_done
      else finish_round st all_done

  unfoldable pub delete_snapshot : Text → M (Unit {0})
  delete_snapshot snap =
      if is_empty snap then pure tt else (ask env (delete_vm_snapshot snap) >>= λ _. pure tt)

  unfoldable pub clean_up : List VmStatus → M (Unit {0})
  unfolding delete_snapshot
  clean_up [] = pure tt
  clean_up (st ∷ sts) = do
    delete_snapshot st.last_snapshot_uuid
    delete_snapshot st.pending_snapshot_uuid
    delete_images env mig st.temp_image_refs
    clean_up sts

  -- What follows when all VMs are done.
  unfoldable pub after_rounds : Status → M Status
  unfolding clean_up
  after_rounds s =
      if final
      then (clean_up s.vms
          >> with_condition env (codes "DisksImported") condition_true (codes "Imported")
              (plain (codes "CBT final delta synced, disks consistent with shutdown state"))
              (record s { phase = creating_vms }))
      else if mig.spec.source.pause_before_cutover
      then with_condition env (codes "WarmSyncDone") condition_true (codes "Converged")
          (plain (codes "Delta sync converged. Add annotation cutover-approved=true to proceed"))
          (record s { phase = ready_for_cutover })
      else with_condition env (codes "WarmSyncDone") condition_true (codes "Converged")
          (plain (codes "Delta sync converged, cutting over")) (record s { phase = warm_cutover })

  unfoldable pub run_delta_round : M Outcome
  unfolding new_prism_client delta_vm after_rounds for_range
  run_delta_round = do
    prism ← new_prism_client env mig
    (vms, all_done) ← for_range delta_vm 0 mig.status.vms true
    let s : Status = record mig.status { vms = vms }
    s' ← if all_done then after_rounds s else pure s
    patch_and_finish env mig s' requeue_interval

-- `handleWarmDeltaSync` and `handleWarmFinalDelta`
unfoldable pub handle_warm_delta_sync : Env → Migration → M Outcome
handle_warm_delta_sync env mig = run_delta_round env mig false

unfoldable pub handle_warm_final_delta : Env → Migration → M Outcome
handle_warm_final_delta env mig = run_delta_round env mig true
