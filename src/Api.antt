-- ===== src/Api.antt =====
-- api/v1alpha1/ahvmigration_types.go: the custom resource, its spec and its status. An optional
-- pointer is an `Option`; a string type with constants is a data type with a case for other strings.
pub mod Errors
use ahv_to_ove_operator.Base.{ℕ, Bool, Option, List, Text, ◌≡◌}
use ahv_to_ove_operator.Api.Errors.{Message}

-- `AHVMigrationPhase`; `no_phase` is the empty string of a new resource.
pub data Phase : Type 0 where
  no_phase pending guest_prepping fetching_vm_info preparing_images importing_disks : Phase
  waiting_for_import warm_pre_sync warm_syncing ready_for_cutover warm_cutover : Phase
  warm_final_sync warm_delta_sync warm_final_delta creating_vms test_running : Phase
  test_pending switching_network completed failed : Phase
  unknown_phase : Text → Phase

-- The strings that the controllers write into `VMStatus.Phase`.
pub data VmPhase : Type 0 where
  pending guest_prepping guest_prepped guest_prep_failed shutting_down : VmPhase
  creating_images images_ready importing_disks warm_pre_sync warm_sync_done : VmPhase
  final_sync_imaged ready_for_vm vm_created : VmPhase
  delta_converged final_delta_done delta_syncing delta_idle : VmPhase
  other_vm_phase : Text → VmPhase

-- `VMStatus`
pub record VmStatus : Type 0 where
  pub name : Text
  pub phase : VmPhase
  pub progress : ℕ
  pub data_volume_refs : List Text
  pub temp_image_refs : List Text
  pub last_snapshot_uuid : Text
  pub snapshot_paths : List Text
  pub delta_rounds : ℕ
  pub last_delta_bytes : ℕ
  pub sync_job_refs : List Text
  pub pending_snapshot_uuid : Text
  pub pending_snapshot_paths : List Text
  pub delta_image_refs : List Text
  pub ahv_uuid : Text
  pub vm_ref : Text
  pub error : Option Message

-- `metav1.ConditionStatus`, as far as it is written.
pub data ConditionStatus : Type 0 where
  condition_true condition_false : ConditionStatus

-- `metav1.Condition`
pub record Condition : Type 0 where
  pub type : Text
  pub status : ConditionStatus
  pub reason : Text
  pub message : Message
  pub last_transition : ℕ

-- `AHVMigrationStatus`
pub record Status : Type 0 where
  pub phase : Phase
  pub conditions : List Condition
  pub start_time : Option ℕ
  pub completion_time : Option ℕ
  pub total_vms : ℕ
  pub completed_vms : ℕ
  pub failed_vms : ℕ
  pub vms : List VmStatus

-- `CBTConfig`
pub record CbtConfig : Type 0 where
  pub enabled : Bool
  pub delta_sync_threshold_mb : ℕ
  pub max_delta_rounds : ℕ
  pub nfs_server : Text

-- `AHVSourceSpec`
pub record SourceSpec : Type 0 where
  pub endpoint : Text
  pub secret_ref : Text
  pub insecure : Bool
  pub cdi_proxy_url : Text
  pub pe_endpoint : Text
  pub pe_secret_ref : Option Text
  pub shutdown_before_migration : Bool
  pub warm_migration : Bool
  pub pause_before_cutover : Bool
  pub warm_final_full_sync : Option Bool
  pub cbt : Option CbtConfig

-- `GuestPrepSSHConfig`
pub record GuestPrepSshConfig : Type 0 where
  pub ssh_secret_ref : Text
  pub pre_migration_script : Text
  pub timeout_seconds : ℕ

-- `GuestPrepWinRMConfig`
pub record GuestPrepWinrmConfig : Type 0 where
  pub winrm_secret_ref : Text
  pub pre_migration_script : Text
  pub virtio_win_iso_path : Text
  pub timeout_seconds : ℕ
  pub use_https : Bool

-- `VMSpec`
pub record VmSpec : Type 0 where
  pub name : Text
  pub target_name : Text
  pub guest_prep_mode : Text
  pub guest_prep_config : Option GuestPrepSshConfig
  pub guest_prep_winrm_config : Option GuestPrepWinrmConfig
  pub uefi : Option Bool
  pub keep_mac : Option Bool
  pub disk_bus : Text
  pub nic_model : Text

-- `NetworkMapping`
pub record NetworkMapping : Type 0 where
  pub source : Text
  pub target : Text
  pub test_target : Text
  pub target_namespace : Text

-- `StorageMapping`
pub record StorageMapping : Type 0 where
  pub source : Text
  pub target_storage_class : Text
  pub access_mode : Text
  pub volume_mode : Text

-- `AHVMigrationSpec`
pub record Spec : Type 0 where
  pub source : SourceSpec
  pub vms : List VmSpec
  pub network_mappings : List NetworkMapping
  pub storage_mappings : List StorageMapping
  pub target_namespace : Text

-- `AHVMigration`, with the fields of its metadata that the controllers read.
pub record Migration : Type 0 where
  pub name : Text
  pub namespace : Text
  pub annotations : List (Text × Text)
  pub spec : Spec
  pub status : Status
