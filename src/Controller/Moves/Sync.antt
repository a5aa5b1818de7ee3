-- ===== src/Controller/Moves/Sync.antt =====
-- The handlers of the warm migration up to the cutover keep to the diagram of the phases.
use ahv_to_ove_operator.Base.{ap, ◌≡◌, Bool, true, ◌&&◌, not, is_nil, Text, codes, text_eq}
use ahv_to_ove_operator.Api.{Migration, Status, VmStatus, Phase}
use ahv_to_ove_operator.Api.Errors.{Result, ok, err}
use ahv_to_ove_operator.Resources.Names.{is_empty}
use ahv_to_ove_operator.Resources.DeltaJobs.{cbt_enabled}
use ahv_to_ove_operator.Resources.VirtualMachines.{VmInfo}
use ahv_to_ove_operator.Controller.Effects.{Env, get_vm_by_name}
use ahv_to_ove_operator.Controller.Warm.{
  base_snapshot, image_vm, pre_sync_vm, handle_warm_pre_sync, handle_ready_for_cutover, annotation,
  power_step, cutover_vm, warm_final_sync_enabled, after_cutover, handle_warm_cutover,
}
use ahv_to_ove_operator.Controller.Ensures.{
  Ensures, Keeps, keeps_rules, Ensures-pure, Keeps-pure, Ensures-bind, Keeps-bind, Keeps-ask,
  Keeps-or_else, Keeps-for_each, Ensures-if,
}
use ahv_to_ove_operator.Controller.Moves.{
  Moves, IsMove, from, images_in, volumes_in, snapshots_in, shutdowns_in,
}
use ahv_to_ove_operator.Controller.Moves.Common.{
  MayFollow, with_condition-MayFollow, fail_migration-Keeps, patch_and_finish-Keeps,
  new_prism_client-Keeps, images_of-Keeps, create_data_volumes_from_temp_images-Keeps,
}

module _ (env : Env) (mig : Migration) where
  base_snapshot-Keeps :
      snapshots_in mig.status.phase ≡ true
      → (info : VmInfo) (st : VmStatus) → Keeps (IsMove mig) (base_snapshot env mig info st)
  unfolding base_snapshot
  base_snapshot-Keeps s1 info st = search (keeps_rules, fail_migration-Keeps) depth 10

  power_step-Keeps :
      shutdowns_in mig.status.phase ≡ true
      → (st : VmStatus) (b : Bool) (r : Result Text)
      → Keeps (IsMove mig) (power_step env mig st b r)
  unfolding power_step
  power_step-Keeps d1 st b (err e) = Keeps-pure _
  power_step-Keeps d1 st b (ok state) =
      Ensures-if (text_eq state (codes "ON")) _ _ (λ _. search keeps_rules) (λ _. Keeps-pure _)

  cutover_vm-Keeps :
      shutdowns_in mig.status.phase ≡ true
      → (st : VmStatus) (b : Bool) → Keeps (IsMove mig) (cutover_vm env mig st b)
  unfolding cutover_vm
  cutover_vm-Keeps d1 st b =
      Ensures-if (is_empty st.ahv_uuid) _ _ (λ _. Keeps-pure _)
        (λ _. search (keeps_rules, power_step-Keeps d1))

  after_cutover-MayFollow :
      mig.status.phase ≡ Phase.warm_cutover
      → (s : Status) → Ensures (IsMove mig) (MayFollow mig) (after_cutover env mig s)
  unfolding after_cutover
  after_cutover-MayFollow h s =
      Ensures-if (cbt_enabled mig) _ _
        (λ c. with_condition-MayFollow env mig _ _ _ _ _ (from h (Moves.cut_cbt c)))
        (λ c.
          Ensures-if (warm_final_sync_enabled mig) _ _
            (λ w. with_condition-MayFollow env mig _ _ _ _ _ (from h (Moves.cut_full c w)))
            (λ w. with_condition-MayFollow env mig _ _ _ _ _ (from h (Moves.cut c w))))

  pub handle_warm_cutover-Keeps :
      mig.status.phase ≡ Phase.warm_cutover → Keeps (IsMove mig) (handle_warm_cutover env mig)
  unfolding handle_warm_cutover
  handle_warm_cutover-Keeps h = Keeps-bind _ _ (new_prism_client-Keeps env mig) (λ prism.
      Keeps-bind _ _ (Keeps-for_each _ (cutover_vm-Keeps (ap shutdowns_in h)) mig.status.vms true)
        (λ (vms, all_off).
          Ensures-bind (MayFollow mig) _ _
            (Ensures-if all_off _ _
              (λ _. after_cutover-MayFollow h (record mig.status { vms = vms }))
              (λ _. Ensures-pure _ Moves.stays))
            (λ s hs. patch_and_finish-Keeps env mig s _ hs)))

  image_vm-Keeps :
      images_in mig.status.phase ≡ true
      → snapshots_in mig.status.phase ≡ true
      → (st : VmStatus) → Keeps (IsMove mig) (image_vm env mig st)
  unfolding image_vm
  image_vm-Keeps i1 s1 st =
      Keeps-bind _ _ (Keeps-ask env (get_vm_by_name st.name) (λ r. tt)) (λ found.
        Keeps-bind _ _ (Keeps-or_else found _ (λ e. fail_migration-Keeps env mig _)) (λ info.
          Keeps-bind _ _
            (Ensures-if (cbt_enabled mig && is_empty st.last_snapshot_uuid) _ _
              (λ _. base_snapshot-Keeps s1 info st) (λ _. Keeps-pure st))
            (λ based.
              Keeps-bind _ _ (images_of-Keeps env mig i1 _ _ st.name info.disk_list)
                (λ images. Keeps-pure _))))

  pre_sync_vm-Keeps :
      images_in mig.status.phase ≡ true
      → snapshots_in mig.status.phase ≡ true
      → (st : VmStatus) (u : Unit {0}) → Keeps (IsMove mig) (pre_sync_vm env mig st u)
  unfolding pre_sync_vm
  pre_sync_vm-Keeps i1 s1 st u =
      Ensures-if (not (is_nil st.temp_image_refs)) _ _ (λ _. Keeps-pure _)
        (λ _. search (keeps_rules, image_vm-Keeps i1 s1))

  pub handle_warm_pre_sync-Keeps :
      mig.status.phase ≡ Phase.warm_pre_sync → Keeps (IsMove mig) (handle_warm_pre_sync env mig)
  unfolding handle_warm_pre_sync
  handle_warm_pre_sync-Keeps h = Keeps-bind _ _ (new_prism_client-Keeps env mig) (λ prism.
      Keeps-bind _ _
        (Keeps-for_each _ (pre_sync_vm-Keeps (ap images_in h) (ap snapshots_in h)) mig.status.vms
          tt)
        (λ (imaged, u).
          Keeps-bind _ _
            (create_data_volumes_from_temp_images-Keeps env mig (ap volumes_in h) prism imaged)
            (λ vms.
              Ensures-bind (MayFollow mig) _ _
                (with_condition-MayFollow env mig _ _ _ _
                  (record mig.status { vms = vms; phase = Phase.warm_syncing })
                  (from h Moves.copy_started))
                (λ s hs.
                  Ensures-bind (MayFollow mig) _ _ (with_condition-MayFollow env mig _ _ _ _ s hs)
                    (λ s' hs'. patch_and_finish-Keeps env mig s' _ hs')))))

  pub handle_ready_for_cutover-Keeps :
      mig.status.phase ≡ Phase.ready_for_cutover
      → Keeps (IsMove mig) (handle_ready_for_cutover env mig)
  unfolding handle_ready_for_cutover
  handle_ready_for_cutover-Keeps h =
      Ensures-if
        (text_eq (annotation (codes "migration.lightwell.co.jp/cutover-approved") mig.annotations)
          (codes "true"))
        _ _ (λ a. patch_and_finish-Keeps env mig _ _ (from h (Moves.approved a)))
        (λ _. Keeps-pure _)
