-- ===== src/Controller/FinalSync.antt =====
-- controllers/ahvmigration_controller.go: `handleWarmFinalSync`, the full copy after the cutover.
use ahv_to_ove_operator.Base.{Bool, true, false, List, [], ◌∷◌, Text, codes, if◌then◌else◌}
use ahv_to_ove_operator.Api.{Migration, Status, VmStatus, VmPhase, condition_false, importing_disks}
use ahv_to_ove_operator.Api.Errors.{Result, ok, err, txt, is_not_found}
use ahv_to_ove_operator.Resources.Names.{is_empty, target_ns}
use ahv_to_ove_operator.Resources.DataVolumes.{DvState}
use ahv_to_ove_operator.Controller.Effects.{
  Env, M, pure, ◌>>=◌, ◌>>◌, ask, or_else, on_error, for_each, Outcome, get_data_volume,
  delete_data_volume, delete_image, get_vm_by_name,
}
use ahv_to_ove_operator.Controller.Status.{
  with_condition, plain, fail_migration, give_up, patch_and_finish, requeue_interval,
}
use ahv_to_ove_operator.Controller.Volumes.{create_data_volumes_from_temp_images, error_of}
use ahv_to_ove_operator.Controller.Warm.{new_prism_client, images_of, because}

module _ (env : Env) (mig : Migration) where
  -- A data volume that is still there keeps the stage open.
  unfoldable pub gone_step : Text → Bool → Result DvState → M (Text × Bool)
  gone_step ref staged (ok dv) = pure (ref, false)
  gone_step ref staged (err e) = if is_not_found e then pure (ref, staged) else give_up e

  unfoldable pub gone : Text → Bool → M (Text × Bool)
  unfolding gone_step
  gone ref staged = ask env (get_data_volume (target_ns mig) ref) >>= gone_step ref staged

  unfoldable pub delete_volumes : List Text → M (Unit {0})
  delete_volumes [] = pure tt
  delete_volumes (ref ∷ refs) = do
    e ← ask env (delete_data_volume (target_ns mig) ref)
    on_error e (λ x.
        if is_not_found x
        then pure tt
        else give_up (error_of (codes "FinalSync: delete DataVolume %s: %w") ref x))
    delete_volumes refs

  -- An error is only logged.
  unfoldable pub delete_images : List Text → M (Unit {0})
  delete_images [] = pure tt
  delete_images (image ∷ images) = ask env (delete_image image) >>= λ _. delete_images images

  -- Stage 1 of a VM: new images from the stopped disks, then the old volumes and images go.
  unfoldable pub restage : VmStatus → M (VmStatus × Bool)
  unfolding delete_volumes delete_images
  restage st = do
    found ← ask env (get_vm_by_name st.name)
    info ←
        or_else found (λ e.
          fail_migration env mig (because (codes "FinalSync: VM %q: %v") (txt st.name ∷ []) e))
    images ←
        images_of env mig (codes "final") (codes "FinalSync: CreateImageFromDisk %q disk%d: %v")
          st.name info.disk_list
    delete_volumes st.data_volume_refs
    delete_images st.temp_image_refs
    pure (record st { temp_image_refs = images; phase = VmPhase.final_sync_imaged }, false)

  abbrev pub is_imaged : VmPhase → Bool
  is_imaged VmPhase.final_sync_imaged = true
  is_imaged _ = false

  -- One VM, with `allStaged`.
  unfoldable pub final_sync_vm : VmStatus → Bool → M (VmStatus × Bool)
  unfolding gone restage for_each
  final_sync_vm st staged =
      if is_empty st.ahv_uuid
      then pure (st, staged)
      else if is_imaged st.phase
      then (for_each gone st.data_volume_refs staged >>= λ (_, staged'). pure (st, staged'))
      else restage st

  unfoldable pub after_staging : Status → M Status
  after_staging s =
      with_condition env (codes "DisksImported") condition_false (codes "FinalSyncing")
        (plain (codes "Re-importing disks from post-shutdown images (final sync)"))
        (record s { phase = importing_disks })

  unfoldable pub handle_warm_final_sync : M Outcome
  unfolding new_prism_client final_sync_vm after_staging for_each
  handle_warm_final_sync = do
    prism ← new_prism_client env mig
    (vms, staged) ← for_each final_sync_vm mig.status.vms true
    s ←
        if staged
        then (create_data_volumes_from_temp_images env mig prism vms >>= λ vms'.
            after_staging (record mig.status { vms = vms' }))
        else pure (record mig.status { vms = vms })
    patch_and_finish env mig s requeue_interval
