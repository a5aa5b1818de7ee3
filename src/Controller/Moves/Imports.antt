-- ===== src/Controller/Moves/Imports.antt =====
-- The handlers that wait for the data volumes and stage the final copy keep to
-- the diagram of the phases.
use ahv_to_ove_operator.Base.{ap, ◌≡◌, Bool, true, List, [], ◌∷◌, Text}
use ahv_to_ove_operator.Api.{Migration, Status, VmStatus, VmPhase, Phase}
use ahv_to_ove_operator.Api.Errors.{Result, ok, err, is_not_found}
use ahv_to_ove_operator.Resources.Names.{is_empty}
use ahv_to_ove_operator.Resources.DataVolumes.{DvState}
use ahv_to_ove_operator.Resources.DeltaJobs.{cbt_enabled}
use ahv_to_ove_operator.Controller.Effects.{Env, delete_data_volume, delete_image}
use ahv_to_ove_operator.Controller.Import.{
  Tally, dv_step, import_vm, import_vms, after_syncing, handle_warm_syncing, after_import,
  handle_wait_import,
}
use ahv_to_ove_operator.Controller.FinalSync.{
  gone_step, gone, delete_volumes, delete_images, restage, is_imaged, final_sync_vm, after_staging,
  handle_warm_final_sync,
}
use ahv_to_ove_operator.Controller.Ensures.{
  Ensures, Keeps, keeps_rules, Ensures-pure, Keeps-pure, Ensures-bind, Keeps-bind, Keeps-ask,
  Keeps-on_error, Keeps-for_each, Ensures-if,
}
use ahv_to_ove_operator.Controller.Moves.{
  Moves, IsMove, from, images_in, volumes_in, removals_in, cleanings_in,
}
use ahv_to_ove_operator.Controller.Moves.Common.{
  MayFollow, with_condition-MayFollow, fail_migration-Keeps, give_up-Keeps, patch_and_finish-Keeps,
  new_prism_client-Keeps, images_of-Keeps, create_data_volumes_from_temp_images-Keeps,
}

module _ (env : Env) (mig : Migration) where
  dv_step-Keeps : (ref : Text) (t : Tally) → Keeps (IsMove mig) (dv_step env mig ref t)
  unfolding dv_step
  dv_step-Keeps ref t = search keeps_rules

  import_vm-Keeps :
      (p : VmPhase) (st : VmStatus) (b : Bool) → Keeps (IsMove mig) (import_vm env mig p st b)
  unfolding import_vm
  import_vm-Keeps p st b =
      Keeps-bind _ _
        (Keeps-for_each _ dv_step-Keeps st.data_volume_refs (record { total = 0; all_done = true }))
        (λ (refs, t). Keeps-pure _)

  import_vms-Keeps : (p : VmPhase) → Keeps (IsMove mig) (import_vms env mig p)
  unfolding import_vms
  import_vms-Keeps p = Keeps-for_each _ (import_vm-Keeps p) mig.status.vms true

  after_syncing-MayFollow :
      mig.status.phase ≡ Phase.warm_syncing
      → (s : Status) → Ensures (IsMove mig) (MayFollow mig) (after_syncing env mig s)
  unfolding after_syncing
  after_syncing-MayFollow h s =
      Ensures-if (cbt_enabled mig) _ _
        (λ c. with_condition-MayFollow env mig _ _ _ _ _ (from h (Moves.copied_cbt c)))
        (λ c.
          Ensures-if mig.spec.source.pause_before_cutover _ _
            (λ p. with_condition-MayFollow env mig _ _ _ _ _ (from h (Moves.copied_pause c p)))
            (λ p. with_condition-MayFollow env mig _ _ _ _ _ (from h (Moves.copied c p))))

  pub handle_warm_syncing-Keeps :
      mig.status.phase ≡ Phase.warm_syncing → Keeps (IsMove mig) (handle_warm_syncing env mig)
  unfolding handle_warm_syncing
  handle_warm_syncing-Keeps h = Keeps-bind _ _ (import_vms-Keeps _) (λ (vms, all_ready).
      Ensures-bind (MayFollow mig) _ _
        (Ensures-if all_ready _ _ (λ _. after_syncing-MayFollow h (record mig.status { vms = vms }))
          (λ _. Ensures-pure _ Moves.stays))
        (λ s hs. patch_and_finish-Keeps env mig s _ hs))

  pub handle_wait_import-Keeps :
      Moves mig mig.status.phase Phase.creating_vms
      → Keeps (IsMove mig) (handle_wait_import env mig)
  unfolding handle_wait_import after_import
  handle_wait_import-Keeps h = Keeps-bind _ _ (import_vms-Keeps _) (λ (vms, all_ready).
      Ensures-bind (MayFollow mig) _ _
        (Ensures-if all_ready _ _
          (λ _.
            with_condition-MayFollow env mig _ _ _ _
              (record mig.status { vms = vms; phase = Phase.creating_vms }) h)
          (λ _. Ensures-pure _ Moves.stays))
        (λ s hs. patch_and_finish-Keeps env mig s _ hs))

  gone_step-Keeps :
      (ref : Text) (b : Bool) (r : Result DvState) → Keeps (IsMove mig) (gone_step env mig ref b r)
  unfolding gone_step
  gone_step-Keeps ref b (ok dv) = Keeps-pure _
  gone_step-Keeps ref b (err e) =
      Ensures-if (is_not_found e) _ _ (λ _. Keeps-pure _) (λ _. give_up-Keeps env mig e)

  gone-Keeps : (ref : Text) (b : Bool) → Keeps (IsMove mig) (gone env mig ref b)
  unfolding gone
  gone-Keeps ref b = search (keeps_rules, gone_step-Keeps)

  delete_volumes-Keeps :
      removals_in mig.status.phase ≡ true
      → (refs : List Text) → Keeps (IsMove mig) (delete_volumes env mig refs)
  unfolding delete_volumes
  delete_volumes-Keeps r1 [] = Keeps-pure tt
  delete_volumes-Keeps r1 (ref ∷ refs) =
      Keeps-bind _ _ (Keeps-ask env (delete_data_volume _ ref) (λ r. r1)) (λ e.
        Keeps-bind _ _
          (Keeps-on_error e _ (λ x.
            Ensures-if (is_not_found x) _ _ (λ _. Keeps-pure tt) (λ _. give_up-Keeps env mig _)))
          (λ _. delete_volumes-Keeps r1 refs))

  pub delete_images-Keeps :
      cleanings_in mig.status.phase ≡ true
      → (images : List Text) → Keeps (IsMove mig) (delete_images env mig images)
  unfolding delete_images
  delete_images-Keeps c1 [] = Keeps-pure tt
  delete_images-Keeps c1 (image ∷ images) =
      Keeps-bind _ _ (Keeps-ask env (delete_image image) (λ r. c1))
        (λ _. delete_images-Keeps c1 images)

  restage-Keeps :
      images_in mig.status.phase ≡ true
      → removals_in mig.status.phase ≡ true
      → cleanings_in mig.status.phase ≡ true
      → (st : VmStatus) → Keeps (IsMove mig) (restage env mig st)
  unfolding restage
  restage-Keeps i1 r1 c1 st =
      search
        (
          keeps_rules,
          fail_migration-Keeps,
          images_of-Keeps,
          delete_volumes-Keeps r1,
          delete_images-Keeps c1,
        )
        depth 10

  final_sync_vm-Keeps :
      images_in mig.status.phase ≡ true
      → removals_in mig.status.phase ≡ true
      → cleanings_in mig.status.phase ≡ true
      → (st : VmStatus) (b : Bool) → Keeps (IsMove mig) (final_sync_vm env mig st b)
  unfolding final_sync_vm
  final_sync_vm-Keeps i1 r1 c1 st b =
      Ensures-if (is_empty st.ahv_uuid) _ _ (λ _. Keeps-pure _)
        (λ _.
          Ensures-if (is_imaged env mig st.phase) _ _
            (λ _.
              Keeps-bind _ _ (Keeps-for_each _ gone-Keeps st.data_volume_refs b)
                (λ (refs, s). Keeps-pure _))
            (λ _. restage-Keeps i1 r1 c1 st))

  pub handle_warm_final_sync-Keeps :
      mig.status.phase ≡ Phase.warm_final_sync → Keeps (IsMove mig) (handle_warm_final_sync env mig)
  unfolding handle_warm_final_sync after_staging
  handle_warm_final_sync-Keeps h = Keeps-bind _ _ (new_prism_client-Keeps env mig) (λ prism.
      Keeps-bind _ _
        (Keeps-for_each _
          (final_sync_vm-Keeps (ap images_in h) (ap removals_in h) (ap cleanings_in h))
          mig.status.vms true)
        (λ (vms, staged).
          Ensures-bind (MayFollow mig) _ _
            (Ensures-if staged _ _
              (λ _.
                Keeps-bind _ _
                  (create_data_volumes_from_temp_images-Keeps env mig (ap volumes_in h) prism vms)
                  (λ vms'.
                    with_condition-MayFollow env mig _ _ _ _
                      (record mig.status { vms = vms'; phase = Phase.importing_disks })
                      (from h Moves.restaged)))
              (λ _. Ensures-pure _ Moves.stays))
            (λ s hs. patch_and_finish-Keeps env mig s _ hs)))
