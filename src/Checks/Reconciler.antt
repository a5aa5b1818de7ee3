-- ===== src/Checks/Reconciler.antt =====
-- The reconciler: one VM in a warm migration with CBT, and calls that all succeed.
use ahv_to_ove_operator.Base.{
  text_eq, ◌*◌, ◌≡◌, arith, true, false, [], ◌∷◌, none, some, codes, All,
}
use ahv_to_ove_operator.Api.{Migration, VmStatus, VmSpec, VmPhase, Phase, Condition, condition_true}
use ahv_to_ove_operator.Api.Errors.{ok}
use ahv_to_ove_operator.Regions.{regular, mib}
use ahv_to_ove_operator.Resources.DeltaJobs.{max_delta_rounds}
use ahv_to_ove_operator.Controller.Effects.{
  Env, Call, Response, clock, connect, create_secret, get_secret, get_vm_by_name,
  get_vm_power_state, shutdown_vm, create_image_from_disk, wait_image_ready, get_image_size_bytes,
  delete_image, create_vm_snapshot, get_vm_snapshot_paths, changed_regions, delete_vm_snapshot,
  get_data_volume, delete_data_volume, create_data_volume, get_machine, get_instance,
  create_machine, patch_machine, get_job, delete_job, delete_config_map, create_job,
  create_config_map, prepare_guest, patch_status,
}
use ahv_to_ove_operator.Controller.Reconcile.{reconcile}
use ahv_to_ove_operator.Controller.Warm.{handle_warm_cutover}
use ahv_to_ove_operator.Controller.Import.{handle_warm_syncing, handle_wait_import}
use ahv_to_ove_operator.Controller.Moves.{IsMove}
use ahv_to_ove_operator.Controller.Moves.Diagram.{reconcile-IsMove}
use ahv_to_ove_operator.Controller.Evidence.{Every, Guarded}
use ahv_to_ove_operator.Controller.Gates.Cutover.{AllDown, handle_warm_cutover-AllDown}
use ahv_to_ove_operator.Controller.Status.{set_condition}
use ahv_to_ove_operator.Controller.Conditions.{find_condition, count_conditions, set_condition_lem}
use ahv_to_ove_operator.Controller.Gates.Imports.{AllImported, import_handlers-AllImported}
use ahv_to_ove_operator.Controller.Ensures.{On}
use ahv_to_ove_operator.Controller.Delta.{decide}
use ahv_to_ove_operator.Controller.Delta.Jobs.{Diff}
use ahv_to_ove_operator.Controller.Delta.Convergence.{FinalEnd, decide-Settled}

abbrev pub vm_spec : VmSpec
vm_spec = record {
  name = codes "web";
  target_name = [];
  guest_prep_mode = [];
  guest_prep_config = none;
  guest_prep_winrm_config = none;
  uefi = none;
  keep_mac = none;
  disk_bus = [];
  nic_model = [];
}

abbrev pub vm_status : VmStatus
vm_status = record {
  name = codes "web";
  phase = VmPhase.delta_idle;
  progress = 100;
  data_volume_refs = codes "dv-0" ∷ [];
  temp_image_refs = codes "img-0" ∷ [];
  last_snapshot_uuid = codes "snap-0";
  snapshot_paths = codes "/c/s0" ∷ [];
  delta_rounds = 1;
  last_delta_bytes = 0;
  sync_job_refs = [];
  pending_snapshot_uuid = [];
  pending_snapshot_paths = [];
  delta_image_refs = [];
  ahv_uuid = codes "uuid-0";
  vm_ref = [];
  error = none;
}

-- The migration in a phase.
abbrev pub in_phase : Phase → Migration
in_phase p = record {
  name = codes "mig";
  namespace = codes "ns";
  annotations = [];
  spec = record {
    source = record {
      endpoint = codes "https://prism:9440";
      secret_ref = codes "prism";
      insecure = false;
      cdi_proxy_url = [];
      pe_endpoint = [];
      pe_secret_ref = none;
      shutdown_before_migration = false;
      warm_migration = true;
      pause_before_cutover = false;
      warm_final_full_sync = none;
      cbt = some (record {
        enabled = true;
        delta_sync_threshold_mb = 512;
        max_delta_rounds = 10;
        nfs_server = [];
      });
    };
    vms = vm_spec ∷ [];
    network_mappings = [];
    storage_mappings = [];
    target_namespace = [];
  };
  status = record {
    phase = p;
    conditions = [];
    start_time = none;
    completion_time = none;
    total_vms = 1;
    completed_vms = 0;
    failed_vms = 0;
    vms = vm_status ∷ [];
  };
}

abbrev pub answers : (c : Call) → Response c
answers clock = 7
answers (connect _) =
    ok
      (record { base_url = codes "https://prism:9440"; username = codes "u"; password = codes "p" })
answers (create_secret _) = none
answers (get_secret _ _) = none
answers (get_vm_by_name name) = ok (record {
  uuid = codes "uuid-0";
  name = name;
  num_cpus = 2;
  memory_mb = 1024;
  disk_list = [];
  nic_list = [];
  is_uefi = false;
})
answers (get_vm_power_state _) = ok (codes "OFF")
answers (shutdown_vm _) = none
answers (create_image_from_disk _ _) = ok (codes "img-1")
answers (wait_image_ready _) = none
answers (get_image_size_bytes _) = ok 4096
answers (delete_image _) = none
answers (create_vm_snapshot _ _) = ok (codes "snap-1")
answers (get_vm_snapshot_paths _ _) = ok (codes "/c/s1" ∷ [])
answers (changed_regions _ _) = ok (record { offset = 0; len = 8; typ = regular } ∷ [])
answers (delete_vm_snapshot _) = none
answers (get_data_volume _ _) = ok (record { phase = codes "Succeeded"; progress = codes "100.0%" })
answers (delete_data_volume _ _) = none
answers (create_data_volume _) = none
answers (get_machine _ _) = ok false
answers (get_instance _ _) = none
answers (create_machine _) = none
answers (patch_machine _ _) = none
answers (get_job _ _) = ok []
answers (delete_job _ _) = none
answers (delete_config_map _ _) = none
answers (create_job _) = none
answers (create_config_map _) = none
answers (prepare_guest _) = none
answers (patch_status _ _) = none

abbrev pub env : Env
env = record {
  answer = λ log c. answers c;
  url_hostname = λ url. [];
  operator_image = codes "operator";
}

reconcile-IsMove_example :
    All
      (IsMove (in_phase Phase.warm_delta_sync))
      (reconcile env (in_phase Phase.warm_delta_sync) []).1
reconcile-IsMove_example = reconcile-IsMove env (in_phase Phase.warm_delta_sync)

handle_warm_cutover-AllDown_example :
    Every
      (Guarded (AllDown env (in_phase Phase.warm_cutover)) (in_phase Phase.warm_cutover))
      (handle_warm_cutover env (in_phase Phase.warm_cutover) []).1
handle_warm_cutover-AllDown_example = handle_warm_cutover-AllDown env (in_phase Phase.warm_cutover)

import_handlers-AllImported_example :
    Every
      (Guarded (AllImported env (in_phase Phase.warm_syncing)) (in_phase Phase.warm_syncing))
      (handle_warm_syncing env (in_phase Phase.warm_syncing) []).1
    × Every
        (Guarded (AllImported env (in_phase Phase.warm_syncing)) (in_phase Phase.warm_syncing))
        (handle_wait_import env (in_phase Phase.warm_syncing) []).1
import_handlers-AllImported_example = import_handlers-AllImported env (in_phase Phase.warm_syncing)

-- 100 MiB of the disk differ.
abbrev diff : Diff
diff = record {
  path = codes "/c/s1";
  regions = record { offset = 0; len = 100 * mib; typ = regular } ∷ [];
}

decide-Settled_example :
    let (flow, log) =
      decide env
        (in_phase Phase.warm_final_delta)
        true
        0
        vm_status
        (codes "snap-1")
        (codes "/c/s1" ∷ [])
        (diff ∷ [])
        2
        true
        [] in
    On
      (FinalEnd env
        (in_phase Phase.warm_final_delta)
        0
        vm_status
        (codes "snap-1")
        (codes "/c/s1" ∷ [])
        (diff ∷ [])
        2
        true
        []
        log)
      flow
decide-Settled_example =
    decide-Settled env (in_phase Phase.warm_final_delta) 0 vm_status (codes "snap-1")
      (codes "/c/s1" ∷ []) (diff ∷ []) 2 true [] (omega arith)

abbrev ready : Condition
ready = record {
  type = codes "ImagesReady";
  status = condition_true;
  reason = codes "Ready";
  message = record { format = []; args = []; cause = none };
  last_transition = 9;
}

abbrev other : Condition
other = record ready { type = codes "Completed" }

set_condition_lem_example :
    (find_condition (codes "Completed") (set_condition ready (other ∷ [])) ≡ some other)
    × (count_conditions (codes "Completed") (set_condition ready (other ∷ [])) ≡ 1)
unfolding codes text_eq
set_condition_lem_example = set_condition_lem ready (other ∷ []) (codes "Completed")
