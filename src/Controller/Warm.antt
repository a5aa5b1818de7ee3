-- ===== src/Controller/Warm.antt =====
-- controllers/ahvmigration_controller.go: the warm migration up to the cutover.
use ahv_to_ove_operator.Base.{
  Bool, true, false, ◌&&◌, not, is_nil, List, [], ◌∷◌, Text, codes, text_eq, Option, none, some,
  if◌then◌else◌,
}
use ahv_to_ove_operator.Api.{
  Migration, Status, VmStatus, VmPhase, condition_true, condition_false, warm_syncing, warm_cutover,
  warm_final_delta, warm_final_sync, creating_vms,
}
use ahv_to_ove_operator.Api.Errors.{Err, Result, ok, err, Arg, txt, num, Message}
use ahv_to_ove_operator.Resources.Names.{is_empty, base_snapshot_name, image_name}
use ahv_to_ove_operator.Resources.DataVolumes.{DiskInfo}
use ahv_to_ove_operator.Resources.VirtualMachines.{VmInfo}
use ahv_to_ove_operator.Resources.DeltaJobs.{cbt_enabled}
use ahv_to_ove_operator.Controller.Effects.{
  Env, M, pure, ◌>>=◌, ask, or_else, for_each, Outcome, connect, get_vm_by_name, create_vm_snapshot,
  get_vm_snapshot_paths, create_image_from_disk, get_vm_power_state, shutdown_vm, at_once,
}
use ahv_to_ove_operator.Prism.Client.{PrismClient}
use ahv_to_ove_operator.Controller.Status.{
  with_condition, plain, fail_migration, patch_and_finish, requeue_interval,
}
use ahv_to_ove_operator.Controller.Volumes.{create_data_volumes_from_temp_images}

abbrev pub because : Text → List Arg → Err → Message
because format args e = record { format = format; args = args; cause = some e }

-- A missing key of the map reads as the empty string.
unfoldable pub annotation : Text → List (Text × Text) → Text
annotation key [] = []
annotation key ((k, v) ∷ rest) = let more = annotation key rest in if text_eq k key then v else more

-- `warmFinalSyncEnabled`
abbrev pub or_true : Option Bool → Bool
or_true none = true
or_true (some b) = b

unfoldable pub warm_final_sync_enabled : Migration → Bool
warm_final_sync_enabled mig = or_true mig.spec.source.warm_final_full_sync

module _ (env : Env) (mig : Migration) where
  -- The client, or the failure of the migration.
  unfoldable pub new_prism_client : M PrismClient
  new_prism_client = do
    client ← ask env (connect mig)
    or_else client (λ e. fail_migration env mig (because (codes "Prism client error: %v") [] e))

  -- The base snapshot, taken before the images.
  unfoldable pub base_snapshot : VmInfo → VmStatus → M VmStatus
  base_snapshot info st = do
    made ← ask env (create_vm_snapshot info.uuid (base_snapshot_name mig st.name))
    snap ← or_else made (λ e.
        fail_migration env mig (because (codes "CBT base snapshot %q: %v") (txt st.name ∷ []) e))
    listed ← ask env (get_vm_snapshot_paths snap info.uuid)
    paths ← or_else listed (λ e.
        fail_migration env mig
          (because (codes "CBT base snapshot paths %q: %v") (txt st.name ∷ []) e))
    pure (record st { last_snapshot_uuid = snap; snapshot_paths = paths })

  -- One image for each disk with a UUID. An error fails the migration with the message `format`.
  unfoldable pub images_of : Text → Text → Text → List DiskInfo → M (List Text)
  images_of kind format vm_name [] = pure []
  images_of kind format vm_name (disk ∷ disks) =
      if is_empty disk.uuid then images_of kind format vm_name disks else do
        made ← ask env (create_image_from_disk disk.uuid (image_name kind mig vm_name disk.index))
        image ←
            or_else made
              (λ e. fail_migration env mig (because format (txt vm_name ∷ num disk.index ∷ []) e))
        images ← images_of kind format vm_name disks
        pure (image ∷ images)

  -- A VM whose disks have no images yet.
  unfoldable pub image_vm : VmStatus → M VmStatus
  unfolding base_snapshot images_of
  image_vm st = do
    found ← ask env (get_vm_by_name st.name)
    info ←
        or_else found
          (λ e. fail_migration env mig (because (codes "VM %q: %v") (txt st.name ∷ []) e))
    based ←
        if cbt_enabled mig && is_empty st.last_snapshot_uuid then base_snapshot info st else pure st
    images ←
        images_of (codes "warm") (codes "CreateImageFromDisk %q disk%d: %v") st.name info.disk_list
    pure (record based {
      temp_image_refs = images;
      ahv_uuid = info.uuid;
      phase = VmPhase.warm_pre_sync;
    })

  unfoldable pub pre_sync_vm : VmStatus → Unit {0} → M (VmStatus × Unit {0})
  unfolding image_vm
  pre_sync_vm st _ =
      if not (is_nil st.temp_image_refs)
      then pure (st, tt)
      else (image_vm st >>= λ st'. pure (st', tt))

  unfoldable pub handle_warm_pre_sync : M Outcome
  unfolding new_prism_client pre_sync_vm for_each
  handle_warm_pre_sync = do
    prism ← new_prism_client
    (imaged, _) ← for_each pre_sync_vm mig.status.vms tt
    vms ← create_data_volumes_from_temp_images env mig prism imaged
    s ←
        with_condition env (codes "ImagesReady") condition_true (codes "Created")
          (plain (codes "Disk images created from running VMs"))
          (record mig.status { vms = vms; phase = warm_syncing })
    s' ←
        with_condition env (codes "DisksImported") condition_false (codes "WarmSyncing")
          (plain (codes "CDI importing disks (VM still running)")) s
    patch_and_finish env mig s' requeue_interval

  -- `handleReadyForCutover`
  unfoldable pub handle_ready_for_cutover : M Outcome
  unfolding annotation
  handle_ready_for_cutover =
      if text_eq (annotation (codes "migration.lightwell.co.jp/cutover-approved") mig.annotations)
        (codes "true")
      then patch_and_finish env mig (record mig.status { phase = warm_cutover }) at_once
      else pure (record { requeue = requeue_interval; error = none })

  -- What follows the power state that Prism reports. An error of the shutdown is only logged.
  unfoldable pub power_step : VmStatus → Bool → Result Text → M (VmStatus × Bool)
  power_step st all_off (err e) = pure (st, false)
  power_step st all_off (ok state) =
      if text_eq state (codes "ON")
      then (ask env (shutdown_vm st.ahv_uuid) >>= λ _.
          pure (record st { phase = VmPhase.shutting_down }, false))
      else pure (st, all_off)

  -- One VM of `handleWarmCutover`, with `allOff`.
  unfoldable pub cutover_vm : VmStatus → Bool → M (VmStatus × Bool)
  unfolding power_step
  cutover_vm st all_off =
      if is_empty st.ahv_uuid
      then pure (st, all_off)
      else (ask env (get_vm_power_state st.ahv_uuid) >>= power_step st all_off)

  -- What follows when all VMs are off.
  unfoldable pub after_cutover : Status → M Status
  unfolding warm_final_sync_enabled
  after_cutover s =
      if cbt_enabled mig
      then with_condition env (codes "DisksImported") condition_false (codes "FinalDelta")
          (plain (codes "VMs shut down; syncing final delta regions"))
          (record s { phase = warm_final_delta })
      else if warm_final_sync_enabled mig
      then with_condition env (codes "DisksImported") condition_false (codes "FinalSyncing")
          (plain (codes "VMs shut down; re-syncing disks to capture writes since pre-copy"))
          (record s { phase = warm_final_sync })
      else with_condition env (codes "DisksImported") condition_true (codes "Imported")
          (plain (codes "Pre-copy complete, VMs shut down")) (record s { phase = creating_vms })

  unfoldable pub handle_warm_cutover : M Outcome
  unfolding new_prism_client cutover_vm after_cutover for_each
  handle_warm_cutover = do
    prism ← new_prism_client
    (vms, all_off) ← for_each cutover_vm mig.status.vms true
    let s : Status = record mig.status { vms = vms }
    s' ← if all_off then after_cutover s else pure s
    patch_and_finish env mig s' requeue_interval
