-- ===== src/Controller/Moves/Diagram.antt =====
-- `Reconcile` keeps to the diagram of the phases.
use ahv_to_ove_operator.Base.{ap, ◌≡◌, refl, true, false, [], All}
use ahv_to_ove_operator.Api.{Migration, Phase}
use ahv_to_ove_operator.Controller.Effects.{Env}
use ahv_to_ove_operator.Controller.Reconcile.{dispatch, reconcile}
use ahv_to_ove_operator.Controller.Delta.{handle_warm_delta_sync, handle_warm_final_delta}
use ahv_to_ove_operator.Controller.Ensures.{Keeps, Keeps-pure}
use ahv_to_ove_operator.Controller.Moves.{Moves, IsMove, from, jobs_in, snapshots_in, cleanings_in}
use ahv_to_ove_operator.Controller.Moves.Starts.{
  handle_init-Keeps, handle_pending-Keeps, handle_guest_prepping-Keeps,
}
use ahv_to_ove_operator.Controller.Moves.Sync.{
  handle_warm_pre_sync-Keeps, handle_ready_for_cutover-Keeps, handle_warm_cutover-Keeps,
}
use ahv_to_ove_operator.Controller.Moves.Imports.{
  handle_warm_syncing-Keeps, handle_wait_import-Keeps, handle_warm_final_sync-Keeps,
}
use ahv_to_ove_operator.Controller.Moves.Images.{handle_prepare_images-Keeps}
use ahv_to_ove_operator.Controller.Moves.Rounds.{run_delta_round-Keeps}
use ahv_to_ove_operator.Controller.Moves.Ends.{
  handle_create_vms-Keeps, handle_test_running-Keeps, handle_test_pending-Keeps,
  handle_switching_network-Keeps,
}

module _ (env : Env) (mig : Migration) where
  dispatch-Keeps : (p : Phase) → mig.status.phase ≡ p → Keeps (IsMove mig) (dispatch env mig p)
  unfolding dispatch handle_warm_delta_sync handle_warm_final_delta
  dispatch-Keeps Phase.no_phase h = handle_init-Keeps env mig h
  dispatch-Keeps Phase.pending h = handle_pending-Keeps env mig h
  dispatch-Keeps Phase.guest_prepping h = handle_guest_prepping-Keeps env mig h
  dispatch-Keeps Phase.preparing_images h = handle_prepare_images-Keeps env mig h
  dispatch-Keeps Phase.warm_pre_sync h = handle_warm_pre_sync-Keeps env mig h
  dispatch-Keeps Phase.warm_syncing h = handle_warm_syncing-Keeps env mig h
  dispatch-Keeps Phase.ready_for_cutover h = handle_ready_for_cutover-Keeps env mig h
  dispatch-Keeps Phase.warm_cutover h = handle_warm_cutover-Keeps env mig h
  dispatch-Keeps Phase.warm_final_sync h = handle_warm_final_sync-Keeps env mig h
  dispatch-Keeps Phase.warm_delta_sync h =
      run_delta_round-Keeps env mig false (ap jobs_in h) (ap snapshots_in h)
        (λ p. from h (Moves.converged_pause p), λ p. from h (Moves.converged p))
  dispatch-Keeps Phase.warm_final_delta h =
      run_delta_round-Keeps env mig true (ap jobs_in h) (ap snapshots_in h)
        (from h Moves.final_delta_done, ap cleanings_in h)
  dispatch-Keeps Phase.importing_disks h = handle_wait_import-Keeps env mig (from h Moves.imported)
  dispatch-Keeps Phase.waiting_for_import h =
      handle_wait_import-Keeps env mig (from h Moves.import_waited)
  dispatch-Keeps Phase.creating_vms h = handle_create_vms-Keeps env mig h
  dispatch-Keeps Phase.test_running h = handle_test_running-Keeps env mig h
  dispatch-Keeps Phase.test_pending h = handle_test_pending-Keeps env mig h
  dispatch-Keeps Phase.switching_network h = handle_switching_network-Keeps env mig h
  dispatch-Keeps Phase.fetching_vm_info h = Keeps-pure _
  dispatch-Keeps Phase.completed h = Keeps-pure _
  dispatch-Keeps Phase.failed h = Keeps-pure _
  dispatch-Keeps (Phase.unknown_phase s) h = Keeps-pure _

  -- Every patch of the status that a reconciliation writes is made from the status that was read,
  -- and leaves its phase as it is, changes it to Failed, or takes it along an edge of the diagram
  -- `Moves` whose condition on the resource holds. A VM is shut down, a machine, an image, a snapshot, a
  -- data volume or a job is made, a machine is patched, an image or a data volume is deleted only in the
  -- phases that `shutdowns_in` and the tests beside it name. Whatever the other calls return.
  pub reconcile-IsMove : All (IsMove mig) (reconcile env mig []).1
  unfolding reconcile
  reconcile-IsMove = ((dispatch-Keeps mig.status.phase refl).at [] tt).0
