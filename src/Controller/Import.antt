-- ===== src/Controller/Import.antt =====
-- controllers/ahvmigration_controller.go: waiting for the data volumes, in `handleWarmSyncing` and
-- in `handleWaitImport`.
use ahv_to_ove_operator.Base.{
  ℕ, Bool, true, false, ◌&&◌, is_nil, List, Text, codes, if◌then◌else◌, length,
}
use ahv_to_ove_operator.Base.Int32.{add32, div32, to_int32}
use ahv_to_ove_operator.Api.{
  Migration, Status, VmStatus, VmPhase, condition_true, warm_delta_sync, ready_for_cutover,
  warm_cutover, creating_vms,
}
use ahv_to_ove_operator.Api.Errors.{Result, ok, err}
use ahv_to_ove_operator.Resources.Names.{target_ns}
use ahv_to_ove_operator.Resources.DataVolumes.{DvState, is_dv_succeeded, dv_progress}
use ahv_to_ove_operator.Resources.DeltaJobs.{cbt_enabled}
use ahv_to_ove_operator.Controller.Effects.{
  Env, M, pure, ◌>>=◌, ask, for_each, Outcome, get_data_volume,
}
use ahv_to_ove_operator.Controller.Status.{
  with_condition, plain, patch_and_finish, requeue_interval,
}

-- `totalProgress` and `allDVsDone`
pub record Tally : Type 0 where
  pub total : ℕ
  pub all_done : Bool

-- One data volume.
unfoldable pub tally : Result DvState → Tally → Tally
tally (err e) t = record t { all_done = false }
tally (ok dv) t =
    if is_dv_succeeded dv
    then record t { total = add32 t.total 100 }
    else record { total = add32 t.total (dv_progress dv); all_done = false }

-- The progress and the phase of a VM, when its data volumes have been looked at.
unfoldable pub with_progress : VmPhase → VmStatus → Tally → VmStatus
with_progress done_phase st t =
    let progress =
      if is_nil st.data_volume_refs
      then st.progress
      else div32 t.total (to_int32 (length st.data_volume_refs)) in
    record st { progress = progress; phase = if t.all_done then done_phase else st.phase }

module _ (env : Env) (mig : Migration) where
  unfoldable pub dv_step : Text → Tally → M (Text × Tally)
  unfolding tally
  dv_step ref t = ask env (get_data_volume (target_ns mig) ref) >>= λ dv. pure (ref, tally dv t)

  -- One VM, with `allReady`.
  unfoldable pub import_vm : VmPhase → VmStatus → Bool → M (VmStatus × Bool)
  unfolding dv_step for_each with_progress
  import_vm done_phase st all_ready = do
    (_, t) ← for_each dv_step st.data_volume_refs (record { total = 0; all_done = true })
    pure (with_progress done_phase st t, all_ready && t.all_done)

  unfoldable pub import_vms : VmPhase → M (List VmStatus × Bool)
  unfolding import_vm for_each
  import_vms done_phase = for_each (import_vm done_phase) mig.status.vms true

  -- What follows the pre-copy.
  unfoldable pub after_syncing : Status → M Status
  after_syncing s =
      if cbt_enabled mig
      then with_condition env (codes "WarmSyncDone") condition_true (codes "Done")
          (plain (codes "Pre-copy sync complete, delta sync loop starting"))
          (record s { phase = warm_delta_sync })
      else if mig.spec.source.pause_before_cutover
      then with_condition env (codes "WarmSyncDone") condition_true (codes "Done")
          (plain (codes "Pre-copy sync complete. Add annotation cutover-approved=true to proceed"))
          (record s { phase = ready_for_cutover })
      else with_condition env (codes "WarmSyncDone") condition_true (codes "Done")
          (plain (codes "Pre-copy sync complete, ready for cutover"))
          (record s { phase = warm_cutover })

  unfoldable pub handle_warm_syncing : M Outcome
  unfolding import_vms after_syncing
  handle_warm_syncing = do
    (vms, all_ready) ← import_vms VmPhase.warm_sync_done
    let s : Status = record mig.status { vms = vms }
    s' ← if all_ready then after_syncing s else pure s
    patch_and_finish env mig s' requeue_interval

  unfoldable pub after_import : Status → M Status
  after_import s =
      with_condition env (codes "DisksImported") condition_true (codes "Imported")
        (plain (codes "All DataVolumes imported successfully")) (record s { phase = creating_vms })

  unfoldable pub handle_wait_import : M Outcome
  unfolding import_vms after_import
  handle_wait_import = do
    (vms, all_ready) ← import_vms VmPhase.ready_for_vm
    let s : Status = record mig.status { vms = vms }
    s' ← if all_ready then after_import s else pure s
    patch_and_finish env mig s' requeue_interval
