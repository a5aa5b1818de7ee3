-- ===== src/Controller/Moves.antt =====
-- The phases of a migration: which phase a handler of Reconcile.antt may write, and when.
pub mod Common
pub mod Sync
pub mod Ends
pub mod Diagram
pub mod History
pub mod Rounds
pub mod Starts
pub mod Imports
pub mod Images
pub mod Jobs
use ahv_to_ove_operator.Base.{◌≡◌, Bool, true, false, codes, text_eq, sym}
use mathlib.Core.Path.{subst}
use ahv_to_ove_operator.Api.{Migration, Status, Phase}
use ahv_to_ove_operator.Resources.VirtualMachines.{has_test_target}
use ahv_to_ove_operator.Resources.DeltaJobs.{cbt_enabled}
use ahv_to_ove_operator.Controller.Effects.{
  Event, event, patch_status, shutdown_vm, create_image_from_disk, delete_image, create_data_volume,
  delete_data_volume, create_vm_snapshot, create_job, create_machine, patch_machine,
}
use ahv_to_ove_operator.Controller.Start.{needs_guest_prep}
use ahv_to_ove_operator.Controller.Warm.{annotation, warm_final_sync_enabled}

-- The diagram of the phases, with the conditions on the resource under which a step is taken.
pub data Moves (mig : Migration) : Phase → Phase → Type 0 where
  stays : {p : Phase} → Moves mig p p
  fails : {p : Phase} → Moves mig p Phase.failed
  starts : Moves mig Phase.no_phase Phase.pending
  prepares : needs_guest_prep mig ≡ true → Moves mig Phase.pending Phase.guest_prepping
  goes_warm :
      needs_guest_prep mig ≡ false
      → mig.spec.source.warm_migration ≡ true
      → Moves mig Phase.pending Phase.warm_pre_sync
  goes_cold :
      needs_guest_prep mig ≡ false
      → mig.spec.source.warm_migration ≡ false
      → mig.spec.source.shutdown_before_migration ≡ true
      → Moves mig Phase.pending Phase.preparing_images
  goes_plain :
      needs_guest_prep mig ≡ false
      → mig.spec.source.warm_migration ≡ false
      → mig.spec.source.shutdown_before_migration ≡ false
      → Moves mig Phase.pending Phase.importing_disks
  prepared_warm :
      mig.spec.source.warm_migration ≡ true → Moves mig Phase.guest_prepping Phase.warm_pre_sync
  prepared_cold :
      mig.spec.source.warm_migration ≡ false
      → mig.spec.source.shutdown_before_migration ≡ true
      → Moves mig Phase.guest_prepping Phase.preparing_images
  prepared_plain :
      mig.spec.source.warm_migration ≡ false
      → mig.spec.source.shutdown_before_migration ≡ false
      → Moves mig Phase.guest_prepping Phase.importing_disks
  images_made : Moves mig Phase.preparing_images Phase.importing_disks
  copy_started : Moves mig Phase.warm_pre_sync Phase.warm_syncing
  copied_cbt : cbt_enabled mig ≡ true → Moves mig Phase.warm_syncing Phase.warm_delta_sync
  copied_pause :
      cbt_enabled mig ≡ false
      → mig.spec.source.pause_before_cutover ≡ true
      → Moves mig Phase.warm_syncing Phase.ready_for_cutover
  copied :
      cbt_enabled mig ≡ false
      → mig.spec.source.pause_before_cutover ≡ false
      → Moves mig Phase.warm_syncing Phase.warm_cutover
  converged_pause :
      mig.spec.source.pause_before_cutover ≡ true
      → Moves mig Phase.warm_delta_sync Phase.ready_for_cutover
  converged :
      mig.spec.source.pause_before_cutover ≡ false
      → Moves mig Phase.warm_delta_sync Phase.warm_cutover
  approved :
      text_eq
          (annotation (codes "migration.lightwell.co.jp/cutover-approved") mig.annotations)
          (codes "true")
        ≡ true
      → Moves mig Phase.ready_for_cutover Phase.warm_cutover
  cut_cbt : cbt_enabled mig ≡ true → Moves mig Phase.warm_cutover Phase.warm_final_delta
  cut_full :
      cbt_enabled mig ≡ false
      → warm_final_sync_enabled mig ≡ true
      → Moves mig Phase.warm_cutover Phase.warm_final_sync
  cut :
      cbt_enabled mig ≡ false
      → warm_final_sync_enabled mig ≡ false
      → Moves mig Phase.warm_cutover Phase.creating_vms
  restaged : Moves mig Phase.warm_final_sync Phase.importing_disks
  final_delta_done : Moves mig Phase.warm_final_delta Phase.creating_vms
  imported : Moves mig Phase.importing_disks Phase.creating_vms
  import_waited : Moves mig Phase.waiting_for_import Phase.creating_vms
  tests : has_test_target mig ≡ true → Moves mig Phase.creating_vms Phase.test_running
  completes : has_test_target mig ≡ false → Moves mig Phase.creating_vms Phase.completed
  tested :
      text_eq
          (annotation (codes "migration.lightwell.co.jp/test-approved") mig.annotations)
          (codes "true")
        ≡ true
      → Moves mig Phase.test_running Phase.test_pending
  stopped : Moves mig Phase.test_pending Phase.switching_network
  switched : Moves mig Phase.switching_network Phase.completed

-- The phases in which a reconciliation may make the calls that change something.
abbrev pub shutdowns_in : Phase → Bool
shutdowns_in Phase.preparing_images = true
shutdowns_in Phase.warm_cutover = true
shutdowns_in _ = false

abbrev pub images_in : Phase → Bool
images_in Phase.preparing_images = true
images_in Phase.warm_pre_sync = true
images_in Phase.warm_final_sync = true
images_in _ = false

abbrev pub cleanings_in : Phase → Bool
cleanings_in Phase.warm_final_sync = true
cleanings_in Phase.warm_final_delta = true
cleanings_in _ = false

abbrev pub volumes_in : Phase → Bool
volumes_in Phase.pending = true
volumes_in Phase.preparing_images = true
volumes_in Phase.warm_pre_sync = true
volumes_in Phase.warm_final_sync = true
volumes_in _ = false

abbrev pub removals_in : Phase → Bool
removals_in Phase.warm_final_sync = true
removals_in _ = false

abbrev pub snapshots_in : Phase → Bool
snapshots_in Phase.warm_pre_sync = true
snapshots_in Phase.warm_delta_sync = true
snapshots_in Phase.warm_final_delta = true
snapshots_in _ = false

abbrev pub jobs_in : Phase → Bool
jobs_in Phase.warm_delta_sync = true
jobs_in Phase.warm_final_delta = true
jobs_in _ = false

abbrev pub machines_in : Phase → Bool
machines_in Phase.creating_vms = true
machines_in _ = false

abbrev pub switches_in : Phase → Bool
switches_in Phase.test_running = true
switches_in Phase.test_pending = true
switches_in Phase.switching_network = true
switches_in _ = false

-- A patch of the status is made from the status that was read, and moves along the diagram. A call that
-- changes something is made in its phases.
abbrev pub IsMove : Migration → Event → Type 0
IsMove mig (event (patch_status base new) r) =
    (base ≡ mig.status) × Moves mig mig.status.phase new.phase
IsMove mig (event (shutdown_vm _) r) = shutdowns_in mig.status.phase ≡ true
IsMove mig (event (create_image_from_disk _ _) r) = images_in mig.status.phase ≡ true
IsMove mig (event (delete_image _) r) = cleanings_in mig.status.phase ≡ true
IsMove mig (event (create_data_volume _) r) = volumes_in mig.status.phase ≡ true
IsMove mig (event (delete_data_volume _ _) r) = removals_in mig.status.phase ≡ true
IsMove mig (event (create_vm_snapshot _ _) r) = snapshots_in mig.status.phase ≡ true
IsMove mig (event (create_job _) r) = jobs_in mig.status.phase ≡ true
IsMove mig (event (create_machine _) r) = machines_in mig.status.phase ≡ true
IsMove mig (event (patch_machine _ _) r) = switches_in mig.status.phase ≡ true
IsMove mig (event _ r) = Unit

pub from :
    {mig : Migration} {p q : Phase}
    → mig.status.phase ≡ p
    → Moves mig p q
    → Moves mig mig.status.phase q
from {mig} {p} {q} h m = subst (λ x. Moves mig x q) (sym h) m
