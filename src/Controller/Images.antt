-- ===== src/Controller/Images.antt =====
-- controllers/ahvmigration_controller.go: `handlePrepareImages`, the migration with shutdown first.
use ahv_to_ove_operator.Base.{
  Bool, true, false, List, [], ◌∷◌, Text, codes, text_eq, is_nil, is_some, if◌then◌else◌,
}
use ahv_to_ove_operator.Api.{
  Migration, Status, VmStatus, VmPhase, condition_true, condition_false, importing_disks,
}
use ahv_to_ove_operator.Api.Errors.{Result, ok, err, txt}
use ahv_to_ove_operator.Resources.Names.{is_empty, image_name}
use ahv_to_ove_operator.Resources.DataVolumes.{DiskInfo}
use ahv_to_ove_operator.Resources.VirtualMachines.{VmInfo}
use ahv_to_ove_operator.Controller.Effects.{
  Env, M, pure, ◌>>=◌, ask, or_else, for_each, Outcome, get_vm_power_state, shutdown_vm,
  get_vm_by_name, create_image_from_disk, wait_image_ready,
}
use ahv_to_ove_operator.Controller.Status.{
  with_condition, plain, fail_migration, patch_and_finish, requeue_interval,
}
use ahv_to_ove_operator.Controller.Volumes.{create_data_volumes_from_temp_images}
use ahv_to_ove_operator.Controller.Warm.{new_prism_client, because}

module _ (env : Env) (mig : Migration) where
  -- An image that could not be created is left out of the list.
  abbrev kept : Result Text → List Text → List Text
  kept (ok image) images = image ∷ images
  kept (err e) images = images

  unfoldable pub request_images : Text → List DiskInfo → M (List Text)
  request_images vm_name [] = pure []
  request_images vm_name (disk ∷ disks) =
      if is_empty disk.uuid
      then request_images vm_name disks
      else (ask env
            (create_image_from_disk disk.uuid (image_name (codes "mig") mig vm_name disk.index))
          >>= λ made. request_images vm_name disks >>= λ images. pure (kept made images))

  -- The first image that is not ready ends the loop.
  unfoldable pub all_images_ready : List Text → M Bool
  all_images_ready [] = pure true
  all_images_ready (image ∷ images) = ask env (wait_image_ready image) >>= λ e.
      (if is_some e then pure false else all_images_ready images)

  -- A VM that is off: its images are requested, and waited for in the next rounds.
  unfoldable pub image_stage : VmStatus → VmInfo → Bool → M (VmStatus × Bool)
  unfolding request_images all_images_ready
  image_stage st info all_ready =
      if is_nil st.temp_image_refs
      then (request_images st.name info.disk_list >>= λ images.
          pure (record st { temp_image_refs = images; phase = VmPhase.creating_images }, false))
      else (all_images_ready st.temp_image_refs >>= λ ready.
          pure (
            if ready then (record st { phase = VmPhase.images_ready }, all_ready) else (st, false)))

  unfoldable pub power_stage : VmStatus → Bool → Result Text → M (VmStatus × Bool)
  unfolding image_stage
  power_stage st all_ready (err e) = pure (st, false)
  power_stage st all_ready (ok state) =
      if text_eq state (codes "ON")
      then (ask env (shutdown_vm st.ahv_uuid) >>= λ _.
          pure (record st { phase = VmPhase.shutting_down }, false))
      else (ask env (get_vm_by_name st.name) >>= λ found.
          or_else found
            (λ e. fail_migration env mig (because (codes "VM %q: %v") (txt st.name ∷ []) e))
          >>= λ info. image_stage st info all_ready)

  unfoldable pub prepare_vm : VmStatus → Bool → M (VmStatus × Bool)
  unfolding power_stage
  prepare_vm st all_ready =
      if is_empty st.ahv_uuid
      then pure (st, all_ready)
      else (ask env (get_vm_power_state st.ahv_uuid) >>= power_stage st all_ready)

  unfoldable pub after_images : Status → M Status
  after_images s = do
    s' ←
        with_condition env (codes "ImagesReady") condition_true (codes "Ready")
          (plain (codes "All disk images created in Prism")) (record s { phase = importing_disks })
    with_condition env (codes "DisksImported") condition_false (codes "Importing")
        (plain (codes "DataVolumes are being imported")) s'

  unfoldable pub handle_prepare_images : M Outcome
  unfolding new_prism_client prepare_vm after_images for_each
  handle_prepare_images = do
    prism ← new_prism_client env mig
    (vms, all_ready) ← for_each prepare_vm mig.status.vms true
    s ←
        if all_ready
        then (create_data_volumes_from_temp_images env mig prism vms >>= λ vms'.
            after_images (record mig.status { vms = vms' }))
        else pure (record mig.status { vms = vms })
    patch_and_finish env mig s requeue_interval
