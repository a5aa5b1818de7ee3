-- ===== src/Controller/Start.antt =====
-- controllers/ahvmigration_controller.go: the first two phases, `handleInit` and `handlePending`.
use ahv_to_ove_operator.Base.{
  Bool, false, ◌&&◌, is_some, ◌||◌, List, [], ◌∷◌, Text, codes, text_eq, none, some, if◌then◌else◌,
  length,
}
use ahv_to_ove_operator.Base.Int32.{to_int32}
use ahv_to_ove_operator.Api.{
  Migration, Status, VmStatus, VmSpec, VmPhase, condition_true, condition_false, pending,
  guest_prepping, warm_pre_sync, preparing_images, importing_disks,
}
use ahv_to_ove_operator.Api.Errors.{txt}
use ahv_to_ove_operator.Resources.DataVolumes.{build_cdi_auth_secret}
use ahv_to_ove_operator.Controller.Effects.{
  Env, M, pure, ◌>>=◌, ◌>>◌, ask, or_else, for_each, Outcome, clock, get_vm_by_name, at_once,
}
use ahv_to_ove_operator.Controller.Status.{
  with_condition, plain, fail_migration, patch_and_finish, requeue_interval,
}
use ahv_to_ove_operator.Controller.Volumes.{ensure_secret, create_data_volumes}
use ahv_to_ove_operator.Controller.Warm.{new_prism_client, because}

-- The test of one VM, in `needsGuestPrep` and in `handleGuestPrepping`.
unfoldable pub needs_prep : VmSpec → Bool
needs_prep vm =
    (text_eq vm.guest_prep_mode (codes "ssh") && is_some vm.guest_prep_config)
    || (text_eq vm.guest_prep_mode (codes "winrm") && is_some vm.guest_prep_winrm_config)

unfoldable pub any_needs_prep : List VmSpec → Bool
unfolding needs_prep
any_needs_prep [] = false
any_needs_prep (vm ∷ vms) = needs_prep vm || any_needs_prep vms

unfoldable pub needs_guest_prep : Migration → Bool
unfolding any_needs_prep
needs_guest_prep mig = any_needs_prep mig.spec.vms

-- A status as `handlePending` makes it.
unfoldable pub new_vm_status : Text → Text → VmStatus
new_vm_status name uuid = record {
  name = name;
  phase = VmPhase.pending;
  progress = 0;
  data_volume_refs = [];
  temp_image_refs = [];
  last_snapshot_uuid = [];
  snapshot_paths = [];
  delta_rounds = 0;
  last_delta_bytes = 0;
  sync_job_refs = [];
  pending_snapshot_uuid = [];
  pending_snapshot_paths = [];
  delta_image_refs = [];
  ahv_uuid = uuid;
  vm_ref = [];
  error = none;
}

module _ (env : Env) (mig : Migration) where
  unfoldable pub handle_init : M Outcome
  handle_init = do
    now ← ask env clock
    patch_and_finish env mig
        (record mig.status {
          phase = pending;
          total_vms = to_int32 (length mig.spec.vms);
          start_time = some now;
        })
        at_once

  unfoldable pub fetch_vm : VmSpec → Unit {0} → M (VmStatus × Unit {0})
  unfolding new_vm_status
  fetch_vm vm _ = do
    found ← ask env (get_vm_by_name vm.name)
    info ←
        or_else found
          (λ e. fail_migration env mig (because (codes "VM %q: %v") (txt vm.name ∷ []) e))
    pure (new_vm_status vm.name info.uuid, tt)

  -- The four ways on from Pending.
  unfoldable pub leave_pending : List VmStatus → Status → M Status
  unfolding needs_guest_prep
  leave_pending sts s =
      if needs_guest_prep mig
      then with_condition env (codes "GuestPrepComplete") condition_false (codes "Pending")
          (plain (codes "Running pre-migration guest preparation scripts"))
          (record s { phase = guest_prepping })
      else if mig.spec.source.warm_migration
      then with_condition env (codes "ImagesReady") condition_false (codes "WarmPreSync")
          (plain (codes "Creating disk images from running VMs"))
          (record s { phase = warm_pre_sync })
      else if mig.spec.source.shutdown_before_migration
      then with_condition env (codes "ImagesReady") condition_false (codes "Preparing")
          (plain (codes "Shutting down VMs and creating disk images"))
          (record s { phase = preparing_images })
      else (create_data_volumes env mig 0 mig.spec.vms sts >>= λ sts'.
          with_condition env (codes "DisksImported") condition_false (codes "Importing")
            (plain (codes "DataVolumes are being imported"))
            (record s { vms = sts'; phase = importing_disks }))

  unfoldable pub handle_pending : M Outcome
  unfolding new_prism_client fetch_vm leave_pending for_each
  handle_pending = do
    prism ← new_prism_client env mig
    ensure_secret env mig (build_cdi_auth_secret mig prism.username prism.password)
    (sts, _) ← for_each fetch_vm mig.spec.vms tt
    s ←
        with_condition env (codes "VMInfoFetched") condition_true (codes "Fetched")
          (plain (codes "VM info fetched from Prism")) (record mig.status { vms = sts })
    s' ← leave_pending sts s
    patch_and_finish env mig s' requeue_interval
