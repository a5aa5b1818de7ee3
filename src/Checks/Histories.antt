-- ===== src/Checks/Histories.antt =====
-- A warm migration without CBT and without the copy after the cutover, from the empty phase to
-- CreatingVMs.
use ahv_to_ove_operator.Base.{◌≡◌, refl, false, [], ◌∷◌, none, some, codes, text_eq, inl}
use ahv_to_ove_operator.Base.Int32.{to_int32, add32, div32}
use ahv_to_ove_operator.Base.Int64.{add64, mul64, div64, lt64}
use ahv_to_ove_operator.Api.{Migration, Status, Phase}
use ahv_to_ove_operator.Api.Errors.{is_not_found}
use ahv_to_ove_operator.Resources.DataVolumes
use ahv_to_ove_operator.Resources.DeltaJobs.{cbt_enabled}
use ahv_to_ove_operator.Controller.Effects.{
  Log, event, patch_status, pure, return_now, ◌>>=◌, ask, or_else, on_error, for_each, for_range,
}
use ahv_to_ove_operator.Controller.Status.{set_condition, with_condition, patch_and_finish}
use ahv_to_ove_operator.Controller.Volumes
use ahv_to_ove_operator.Controller.Warm
use ahv_to_ove_operator.Controller.Import
use ahv_to_ove_operator.Controller.Start
use ahv_to_ove_operator.Controller.Reconcile.{reconcile, dispatch}
use ahv_to_ove_operator.Controller.Evidence.{Said}
use ahv_to_ove_operator.Controller.Moves.History.{History, PassedBy, at_status, History-PassedBy}
use ahv_to_ove_operator.Checks.Reconciler.{in_phase, env}

abbrev simple : Migration
simple =
    let mig = in_phase Phase.no_phase in
    record mig {
      spec = record mig.spec {
        source = record mig.spec.source { cbt = none; warm_final_full_sync = some false };
      };
    }

-- The status that a run wrote last.
abbrev written : Status → Log → Status
written s [] = s
written s (event (patch_status base new) r ∷ log) = new
written s (e ∷ log) = written s log

-- One reconciliation.
unfoldable step : Status → Status
step s = written s (reconcile env (at_status simple s) []).1

-- Unfolding this runs the reconciler.
run : Status → Status
unfolding step reconcile dispatch pure return_now ◌>>=◌ ask or_else on_error for_each for_range
    set_condition with_condition patch_and_finish codes text_eq to_int32 add32 div32 add64 mul64
    div64 lt64 Start.handle_init Start.handle_pending Start.fetch_vm Start.leave_pending
    Start.needs_guest_prep Start.any_needs_prep Start.needs_prep Start.new_vm_status
    Warm.new_prism_client Warm.handle_warm_pre_sync Warm.pre_sync_vm Warm.image_vm Warm.images_of
    Warm.handle_warm_cutover Warm.cutover_vm Warm.power_step Warm.after_cutover
    Warm.warm_final_sync_enabled Import.handle_warm_syncing Import.import_vms Import.import_vm
    Import.dv_step Import.tally Import.with_progress Import.after_syncing Volumes.ensure_secret
    Volumes.create_if_missing Volumes.create_data_volumes_from_temp_images Volumes.temp_images_step
    Volumes.image_step Volumes.ensure_data_volume Volumes.image_size_mb Volumes.source_url_for
    Volumes.disk_image_url cbt_enabled is_not_found DataVolumes.is_dv_succeeded
    DataVolumes.build_cdi_auth_secret DataVolumes.build_data_volume
run = step

abbrev s0 : Status
s0 = simple.status

abbrev s1 : Status
s1 = step s0

abbrev s2 : Status
s2 = step s1

abbrev s3 : Status
s3 = step s2

abbrev s4 : Status
s4 = step s3

abbrev s5 : Status
s5 = step s4

wrote_1 : Said (patch_status s0 s1) none (reconcile env (at_status simple s0) []).1
unfolding run
wrote_1 = Said.now

wrote_2 : Said (patch_status s1 s2) none (reconcile env (at_status simple s1) []).1
unfolding run
wrote_2 = Said.now

wrote_3 : Said (patch_status s2 s3) none (reconcile env (at_status simple s2) []).1
unfolding run
wrote_3 = Said.now

wrote_4 : Said (patch_status s3 s4) none (reconcile env (at_status simple s3) []).1
unfolding run
wrote_4 = Said.now

wrote_5 : Said (patch_status s4 s5) none (reconcile env (at_status simple s4) []).1
unfolding run
wrote_5 = Said.now

ends_creating : s5.phase ≡ Phase.creating_vms
unfolding run
ends_creating = refl

History-PassedBy_example : PassedBy simple s0 Phase.warm_cutover s5
History-PassedBy_example =
    History-PassedBy simple s0 s5 refl refl
      (History.patched
        (History.patched
          (History.patched
            (History.patched (History.patched History.begins env none wrote_1) env none wrote_2) env
            none wrote_3)
          env none wrote_4)
        env none wrote_5)
      (inl ends_creating)
