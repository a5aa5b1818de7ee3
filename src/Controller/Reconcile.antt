-- ===== src/Controller/Reconcile.antt =====
-- controllers/ahvmigration_controller.go: `Reconcile`, on the resource that the API server returned.
use ahv_to_ove_operator.Base.{none}
use ahv_to_ove_operator.Api.{Migration, Phase}
use ahv_to_ove_operator.Controller.Effects.{Env, M, pure, Outcome, done}
use ahv_to_ove_operator.Controller.Warm.{
  handle_warm_pre_sync, handle_ready_for_cutover, handle_warm_cutover,
}
use ahv_to_ove_operator.Controller.Import.{handle_warm_syncing, handle_wait_import}
use ahv_to_ove_operator.Controller.FinalSync.{handle_warm_final_sync}
use ahv_to_ove_operator.Controller.Start.{handle_init, handle_pending}
use ahv_to_ove_operator.Controller.Images.{handle_prepare_images}
use ahv_to_ove_operator.Controller.GuestPrep.{handle_guest_prepping}
use ahv_to_ove_operator.Controller.Delta.{handle_warm_delta_sync, handle_warm_final_delta}
use ahv_to_ove_operator.Controller.Machines.{handle_create_vms}
use ahv_to_ove_operator.Controller.Testing.{
  handle_test_running, handle_test_pending, handle_switching_network,
}

-- Nothing to do, and no later reconciliation.
abbrev pub idle : M Outcome
idle = pure (record { requeue = done; error = none })

module _ (env : Env) (mig : Migration) where
  -- The switch on the phase.
  unfoldable pub dispatch : Phase → M Outcome
  dispatch Phase.no_phase = handle_init env mig
  dispatch Phase.pending = handle_pending env mig
  dispatch Phase.guest_prepping = handle_guest_prepping env mig
  dispatch Phase.preparing_images = handle_prepare_images env mig
  dispatch Phase.warm_pre_sync = handle_warm_pre_sync env mig
  dispatch Phase.warm_syncing = handle_warm_syncing env mig
  dispatch Phase.ready_for_cutover = handle_ready_for_cutover env mig
  dispatch Phase.warm_cutover = handle_warm_cutover env mig
  dispatch Phase.warm_final_sync = handle_warm_final_sync env mig
  dispatch Phase.warm_delta_sync = handle_warm_delta_sync env mig
  dispatch Phase.warm_final_delta = handle_warm_final_delta env mig
  dispatch Phase.importing_disks = handle_wait_import env mig
  dispatch Phase.waiting_for_import = handle_wait_import env mig
  dispatch Phase.creating_vms = handle_create_vms env mig
  dispatch Phase.test_running = handle_test_running env mig
  dispatch Phase.test_pending = handle_test_pending env mig
  dispatch Phase.switching_network = handle_switching_network env mig
  dispatch Phase.fetching_vm_info = idle
  dispatch Phase.completed = idle
  dispatch Phase.failed = idle
  dispatch (Phase.unknown_phase _) = idle

  unfoldable pub reconcile : M Outcome
  unfolding dispatch
  reconcile = dispatch mig.status.phase
